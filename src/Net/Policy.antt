-- ===== src/Net/Policy.antt =====
-- The vetting of the URLs that a fetch requests.
use mathlib.Core.Option
use news2reel.Base.{
  ℕ, zero, suc, ◌+◌, ◌≡◌, ◌≢◌, ◌⊎◌, true, false, none, some, Option, List, [], ◌∷◌, arith, ltb,
  Text, codes, All, Bool-cases, Option-cases, inl, inr, find?, text_eq_iff,
}
use news2reel.Core.Config.{Settings}
use news2reel.Net.{
  Web, Address, ParsedUrl, is_non_public, reject_non_public, validate_public_url, Response, Answer,
  http_error, raises, answers, Redirect, stays, leads, nowhere, Run, follow_redirect, follow, asked,
  fetch_loop, fetch_url_async, or_stuck, is_allowed, no_hostname,
}

-- An address that is reachable from everywhere: none of the six properties holds of it.
pub record IsPublic (ip : Address) : Type 0 where
  pub not_private : ip.is_private ≡ false
  pub not_loopback : ip.is_loopback ≡ false
  pub not_link_local : ip.is_link_local ≡ false
  pub not_reserved : ip.is_reserved ≡ false
  pub not_multicast : ip.is_multicast ≡ false
  pub not_unspecified : ip.is_unspecified ≡ false

-- Right before the request of that round, the URL parsed to an http or https URL with a hostname,
-- and every address that the resolver gave for the hostname was public.
pub record IsVetted (web : Web) (request : ℕ × Text) : Type 0 where
  pub parsed : ParsedUrl
  pub addresses : List Address
  pub parses : web.urlparse request.1 ≡ some parsed
  pub scheme : (parsed.scheme ≡ codes "http") ⊎ (parsed.scheme ≡ codes "https")
  pub hostname : parsed.hostname ≢ []
  pub resolves : web.getaddrinfo request.0 parsed.hostname ≡ some addresses
  pub all_public : All IsPublic addresses

none-IsPublic :
    (addresses : List Address) → find? is_non_public addresses ≡ none → All IsPublic addresses
unfolding find? is_non_public
none-IsPublic [] h = tt
none-IsPublic (ip ∷ addresses) h = (ground arith, none-IsPublic addresses (ground arith))

has_hostname : (hostname : Text) → no_hostname hostname ≡ false → hostname ≢ []
has_hostname [] h = λ e. cc
has_hostname (c ∷ s) h = λ e. cc

allowed_scheme :
    (scheme : Text) → is_allowed scheme ≡ true → (scheme ≡ codes "http") ⊎ (scheme ≡ codes "https")
allowed_scheme scheme h =
    ground (arith, text_eq_iff scheme (codes "http"), text_eq_iff scheme (codes "https"))

module _ (web : Web) where
  validate-IsVetted :
      (round : ℕ) (url : Text)
      → validate_public_url web round url ≡ none
      → IsVetted web (round, url)
  unfolding validate_public_url reject_non_public
  validate-IsVetted round url h = elim (Option-cases (web.urlparse url)) [
    | inl bad ↦ absurd (ground arith)
    | inr (parsed, parses) ↦ elim (Option-cases (web.getaddrinfo round parsed.hostname)) [
      | inl unknown ↦ absurd (ground arith)
      | inr (addresses, resolves) ↦ record {
        parsed = parsed;
        addresses = addresses;
        parses = parses;
        scheme = allowed_scheme parsed.scheme (ground arith);
        hostname = has_hostname parsed.hostname (ground arith);
        resolves = resolves;
        all_public = none-IsPublic addresses (ground arith);
      }
    ]
  ]

  module _ {F : Type 0} (settings : Settings F) where
    abbrev AllVetted : Option Run → Type 0
    AllVetted none = Unit
    AllVetted (some run) = All (IsVetted web) run.requested

    AllVetted-asked :
        (round : ℕ) (url : Text) (run : Option Run)
        → IsVetted web (round, url)
        → AllVetted run
        → AllVetted (Option.map (asked web settings round url) run)
    AllVetted-asked round url none v h = tt
    AllVetted-asked round url (some run) v h = (v, h)

    follow_redirect-AllVetted :
        (next : Text → Option Run) (round : ℕ) (url : Text) (response : Response)
        (redirect : Redirect)
        → IsVetted web (round, url)
        → ((target : Text) → AllVetted (next target))
        → AllVetted (follow_redirect web settings next round url response redirect)
    follow_redirect-AllVetted next round url response stays v h = (v, tt)
    follow_redirect-AllVetted next round url response (nowhere e) v h = (v, tt)
    follow_redirect-AllVetted next round url response (leads target) v h =
        elim (Bool-cases (ltb settings.fetch_max_redirects (round + 1))) [
          | inl over ↦ rw over (v, tt)
          | inr more ↦ rw more (AllVetted-asked round url (next target) v (h target))
        ]

    follow-AllVetted :
        (next : Text → Option Run) (round : ℕ) (url : Text) (answer : Answer)
        → IsVetted web (round, url)
        → ((target : Text) → AllVetted (next target))
        → AllVetted (follow web settings next round url answer)
    follow-AllVetted next round url (http_error e) v h = (v, tt)
    follow-AllVetted next round url (raises e) v h = (v, tt)
    follow-AllVetted next round url (answers response) v h =
        follow_redirect-AllVetted next round url response response.redirect v h

    fetch_loop-AllVetted :
        (fuel round : ℕ) (url : Text) → AllVetted (fetch_loop web settings fuel round url)
    unfolding fetch_loop
    fetch_loop-AllVetted zero round url = tt
    fetch_loop-AllVetted (suc fuel) round url =
        elim (Option-cases (validate_public_url web round url)) [
          | inr (e, refused) ↦ rw (refused, AllVetted, fetch_loop) tt
          | inl passed ↦
              rw (passed, AllVetted, fetch_loop)
                (follow-AllVetted (fetch_loop web settings fuel (round + 1)) round url
                  (web.stream round url) (validate-IsVetted round url passed)
                  (fetch_loop-AllVetted fuel (round + 1)))
        ]

    -- No request of a fetch leaves for a URL that was not vetted in that same round, the targets
    -- of redirects included: its scheme is http or https, it has a hostname, and every address
    -- that the resolver gave for the hostname was public.
    pub fetch_url_async-IsVetted :
        (url : Text) → All (IsVetted web) (fetch_url_async web settings url).requested
    unfolding fetch_url_async
    fetch_url_async-IsVetted url =
        of_run _ (fetch_loop-AllVetted (suc settings.fetch_max_redirects) 0 url)
      where
        of_run :
            (run : Option Run)
            → AllVetted run
            → All (IsVetted web) (or_stuck web settings run).requested
        of_run none h = tt
        of_run (some run) h = h
