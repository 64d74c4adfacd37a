-- ===== src/Net.antt =====
-- `app/core/net.py`: the fetch of a third-party URL, with its address policy, the redirects that
-- it follows by hand and the cap on the body. `urllib.parse`, `ipaddress`, the resolver and httpx
-- are parameters: what they answer, at the n-th round of the loop.
pub mod Policy
pub mod Rounds
use mathlib.Core.Option
use news2reel.Base.{
  ℕ, zero, suc, ◌+◌, Bool, true, false, not, ◌||◌, Option, none, some, List, [], ◌∷◌, ◌++◌,
  if◌then◌else◌, ltb, leb, Text, codes, text_eq, any, find?, length,
}
use news2reel.Core.Config.{Settings}
use news2reel.Ingest.Persist.{Headers}

-- `ipaddress.ip_address(sockaddr[0])`, by its text and the properties that are read
pub record Address : Type 0 where
  pub text : Text
  pub is_private : Bool
  pub is_loopback : Bool
  pub is_link_local : Bool
  pub is_reserved : Bool
  pub is_multicast : Bool
  pub is_unspecified : Bool

pub record FetchResult : Type 0 where
  pub status_code : ℕ
  pub headers : Headers
  pub content : List ℕ
  pub final_url : Text

-- The subclasses of `FetchError`, each with its message, and any other exception.
pub data FetchError : Type 0 where
  unsafe_url too_large transport unexpected : Text → FetchError

-- What `response.aiter_bytes()` yields, up to its end or an `httpx.HTTPError`.
pub data Body : Type 0 where
  finished : Body
  broken : Text → Body
  chunk : List ℕ → Body → Body

-- Where a response with `has_redirect_location` leads: `str(response.url.join(location))`, or the
-- exception that `join` raises.
pub data Redirect : Type 0 where
  stays : Redirect
  leads nowhere : Text → Redirect

pub record Response : Type 0 where
  pub status_code : ℕ
  pub headers : Headers
  pub url : Text
  pub redirect : Redirect
  pub body : Body

pub data Answer : Type 0 where
  -- `httpx.HTTPError`, and an exception outside that class
  http_error raises : Text → Answer
  answers : Response → Answer

pub record ParsedUrl : Type 0 where
  pub scheme : Text
  -- empty where there is none
  pub hostname : Text

pub record Web : Type 0 where
  -- none is a `ValueError`, with its message in `bad_url`
  pub urlparse : Text → Option ParsedUrl
  pub bad_url : Text → Text
  -- `loop.getaddrinfo` in the n-th round; none is `socket.gaierror`
  pub getaddrinfo : ℕ → Text → Option (List Address)
  -- the n-th request, with the conditional headers of the fetch
  pub stream : ℕ → Text → Answer
  -- `repr` of a text and `str` of an int
  pub repr : Text → Text
  pub decimal : ℕ → Text

abbrev pub is_allowed : Text → Bool
is_allowed scheme = text_eq scheme (codes "http") || text_eq scheme (codes "https")

-- the test of `_reject_non_public`
unfoldable pub is_non_public : Address → Bool
is_non_public ip =
    ip.is_private || ip.is_loopback || ip.is_link_local || ip.is_reserved || ip.is_multicast
    || ip.is_unspecified

pub data Outcome : Type 0 where
  fetched : FetchResult → Outcome
  failed : FetchError → Outcome

-- How a fetch ended, and the URLs that were requested, each with the round of its request.
pub record Run : Type 0 where
  pub outcome : Outcome
  pub requested : List (ℕ × Text)

abbrev pub no_hostname : Text → Bool
no_hostname [] = true
no_hostname (c ∷ s) = false

-- A fetch that ends in an error behind its last request.
abbrev pub ends_at : ℕ → Text → FetchError → Run
ends_at round url e = record { outcome = failed e; requested = (round, url) ∷ [] }

module _ (web : Web) where
  -- `none` is the return without an exception.
  unfoldable pub reject_non_public : Text → List Address → Option FetchError
  reject_non_public hostname addr_infos = elim (find? is_non_public addr_infos) [
    | none ↦ none
    | some ip ↦
        some
          (unsafe_url (web.repr hostname ++ (codes " resolves to non-public address " ++ ip.text)))
  ]

  abbrev pub checked_hostname : ℕ → Text → Option FetchError
  checked_hostname round hostname = elim (web.getaddrinfo round hostname) [
    | none ↦ some (unsafe_url (codes "could not resolve host " ++ web.repr hostname))
    | some addr_infos ↦ reject_non_public hostname addr_infos
  ]

  -- `_validate_public_url`, with `_parse_target` in it
  unfoldable pub validate_public_url : ℕ → Text → Option FetchError
  validate_public_url round url = elim (web.urlparse url) [
    | none ↦ some (unexpected (web.bad_url url))
    | some parsed ↦
        if not (is_allowed parsed.scheme)
        then some
            (unsafe_url (codes "scheme " ++ (web.repr parsed.scheme ++ codes " is not allowed")))
        else if no_hostname parsed.hostname
        then some (unsafe_url (codes "URL has no hostname"))
        else checked_hostname round parsed.hostname
  ]

  module _ {F : Type 0} (settings : Settings F) where
    -- The loop over the chunks, with the bytes so far.
    unfoldable pub read_body : List ℕ → Body → Response → Outcome
    read_body content finished response = fetched (record {
      status_code = response.status_code;
      headers = response.headers;
      content = content;
      final_url = response.url;
    })
    read_body content (broken error) response = failed (transport error)
    read_body content (chunk bytes rest) response =
        let content' = content ++ bytes in
        let later = read_body content' rest response in
        if ltb settings.fetch_max_response_bytes (length content')
        then failed (
            too_large (
              codes "response exceeded "
              ++ (web.decimal settings.fetch_max_response_bytes ++ codes " bytes")))
        else later

    abbrev pub asked : ℕ → Text → Run → Run
    asked round url run = record run { requested = (round, url) ∷ run.requested }

    -- What one round does with a response, by where it leads; `next` is the rest of the loop.
    abbrev pub follow_redirect : (Text → Option Run) → ℕ → Text → Response → Redirect → Option Run
    follow_redirect next followed url response stays =
        some (record {
          outcome = read_body [] response.body response;
          requested = (followed, url) ∷ [];
        })
    follow_redirect next followed url response (leads target) =
        if ltb settings.fetch_max_redirects (followed + 1)
        then some (ends_at followed url (unsafe_url (codes "too many redirects")))
        else Option.map (asked followed url) (next target)
    follow_redirect next followed url response (nowhere e) = some (
        ends_at followed url (
          if ltb settings.fetch_max_redirects (followed + 1)
          then unsafe_url (codes "too many redirects")
          else unexpected e))

    abbrev pub follow : (Text → Option Run) → ℕ → Text → Answer → Option Run
    follow next followed url (http_error e) = some (ends_at followed url (transport e))
    follow next followed url (raises e) = some (ends_at followed url (unexpected e))
    follow next followed url (answers response) =
        follow_redirect next followed url response response.redirect

    -- `while True`, on fuel: none is out of fuel.
    unfoldable pub fetch_loop : ℕ → ℕ → Text → Option Run
    fetch_loop zero redirects_followed url = none
    fetch_loop (suc fuel) redirects_followed url =
        elim (validate_public_url redirects_followed url) [
          | some e ↦ some (record { outcome = failed e; requested = [] })
          | none ↦
              follow (fetch_loop fuel (redirects_followed + 1)) redirects_followed url
                (web.stream redirects_followed url)
        ]

    abbrev pub or_stuck : Option Run → Run
    or_stuck none = record { outcome = failed (unexpected []); requested = [] }
    or_stuck (some run) = run

    -- One round more than the redirects that are allowed is enough fuel.
    unfoldable pub fetch_url_async : Text → Run
    fetch_url_async url = or_stuck (fetch_loop (suc settings.fetch_max_redirects) 0 url)
