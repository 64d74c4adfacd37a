-- ===== src/Net/Rounds.antt =====
-- The rounds of a fetch and the size of its body.
use mathlib.Core.Option
use news2reel.Base.{
  ℕ, zero, suc, ◌+◌, ◌≤◌, ◌≡◌, refl, none, some, Option, List, [], ◌++◌, arith, ltb, Text, length,
  Bool-cases, Option-cases, inl, inr,
}
use news2reel.Core.Config.{Settings}
use news2reel.Net.{
  Web, Body, finished, broken, chunk, Response, Answer, http_error, raises, answers, Redirect,
  stays, leads, nowhere, Outcome, fetched, failed, Run, read_body, follow_redirect, follow, asked,
  fetch_loop, fetch_url_async, or_stuck, validate_public_url,
}

module _ (web : Web) {F : Type 0} (settings : Settings F) where
  -- A body that was returned is no longer than the cap.
  abbrev pub WithinCap : Outcome → Type 0
  WithinCap (fetched result) = length result.content ≤ settings.fetch_max_response_bytes
  WithinCap (failed e) = Unit

  read_body-WithinCap :
      (content : List ℕ) (body : Body) (response : Response)
      → length content ≤ settings.fetch_max_response_bytes
      → WithinCap (read_body web settings content body response)
  unfolding read_body
  read_body-WithinCap content finished response h = h
  read_body-WithinCap content (broken e) response h = tt
  read_body-WithinCap content (chunk bytes rest) response h =
      elim (Bool-cases (ltb settings.fetch_max_response_bytes (length (content ++ bytes)))) [
        | inl long ↦ rw long tt
        | inr fits ↦ rw fits (read_body-WithinCap (content ++ bytes) rest response (ground arith))
      ]

  -- The loop ended, after at most so many requests, and within the cap.
  abbrev pub Ends : ℕ → Option Run → Type 0
  Ends n none = ⊥
  Ends n (some run) = (length run.requested ≤ n) × WithinCap run.outcome

  Ends-asked :
      (n followed : ℕ) (url : Text) (run : Option Run)
      → Ends n run
      → Ends (suc n) (Option.map (asked web settings followed url) run)
  Ends-asked n followed url none h = h
  Ends-asked n followed url (some run) h = (omega arith, h.1)

  follow_redirect-Ends :
      (next : Text → Option Run) (n followed : ℕ) (url : Text) (response : Response)
      (redirect : Redirect)
      → ((target : Text) → followed + 1 ≤ settings.fetch_max_redirects → Ends n (next target))
      → Ends (suc n) (follow_redirect web settings next followed url response redirect)
  follow_redirect-Ends next n followed url response stays h =
      (omega arith, read_body-WithinCap [] response.body response (omega arith))
  follow_redirect-Ends next n followed url response (nowhere e) h = (omega arith, tt)
  follow_redirect-Ends next n followed url response (leads target) h =
      elim (Bool-cases (ltb settings.fetch_max_redirects (followed + 1))) [
        | inl over ↦ rw over (omega arith, tt)
        | inr more ↦ rw more (Ends-asked n followed url (next target) (h target (ground arith)))
      ]

  follow-Ends :
      (next : Text → Option Run) (n followed : ℕ) (url : Text) (answer : Answer)
      → ((target : Text) → followed + 1 ≤ settings.fetch_max_redirects → Ends n (next target))
      → Ends (suc n) (follow web settings next followed url answer)
  follow-Ends next n followed url (http_error e) h = (omega arith, tt)
  follow-Ends next n followed url (raises e) h = (omega arith, tt)
  follow-Ends next n followed url (answers response) h =
      follow_redirect-Ends next n followed url response response.redirect h

  round-Ends :
      (fuel followed : ℕ) (url : Text)
      → ((target : Text)
          → followed + 1 ≤ settings.fetch_max_redirects
          → Ends fuel (fetch_loop web settings fuel (followed + 1) target))
      → Ends (suc fuel) (fetch_loop web settings (suc fuel) followed url)
  unfolding fetch_loop
  round-Ends fuel followed url later = elim (Option-cases (validate_public_url web followed url)) [
    | inr (e, refused) ↦ rw (refused, Ends, fetch_loop) (omega arith, tt)
    | inl passed ↦
        rw (passed, Ends, fetch_loop)
          (follow-Ends (fetch_loop web settings fuel (followed + 1)) fuel followed url
            (web.stream followed url) later)
  ]

  fetch_loop-Ends :
      (fuel followed : ℕ) (url : Text)
      → followed + fuel ≡ settings.fetch_max_redirects
      → Ends (suc fuel) (fetch_loop web settings (suc fuel) followed url)
  fetch_loop-Ends zero followed url h =
      round-Ends zero followed url (λ target more. absurd (omega arith))
  fetch_loop-Ends (suc fuel) followed url h =
      round-Ends (suc fuel) followed url
        (λ target more. fetch_loop-Ends fuel (followed + 1) target (omega arith))

  -- The loop of a fetch ends, whatever the network answers: with one round more than the redirects
  -- allowed it returns the run that the fetch reports. The run made at most that many requests,
  -- and a body that it returns is no longer than the cap.
  pub fetch_url_async-Ends :
      (url : Text)
      → (fetch_loop web settings (suc settings.fetch_max_redirects) 0 url
          ≡ some (fetch_url_async web settings url))
        × (length (fetch_url_async web settings url).requested ≤ suc settings.fetch_max_redirects)
        × WithinCap (fetch_url_async web settings url).outcome
  unfolding fetch_url_async
  fetch_url_async-Ends url =
      ended _ _ (fetch_loop-Ends settings.fetch_max_redirects 0 url (omega arith))
    where
      ended :
          (n : ℕ) (run : Option Run)
          → Ends n run
          → (run ≡ some (or_stuck web settings run))
            × (length (or_stuck web settings run).requested ≤ n)
            × WithinCap (or_stuck web settings run).outcome
      ended n none h = absurd h
      ended n (some run) h = (refl, h.0, h.1)
