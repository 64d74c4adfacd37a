-- ===== src/System/Requests.antt =====
-- The requests to the routes over cities and feeds, as steps of the system.
use news2reel.Base.{
  ℕ, ◌≡◌, refl, true, not, ◌&&◌, List, arith, Text, all, Bool-cases, Option-cases, inl, inr,
}
use news2reel.Core.Config.{Settings}
use news2reel.Model.{Instant}
use news2reel.Store.{Db, get_source_row}
use news2reel.Ingest.Persist.{Parsed}
use news2reel.Accounts.{Caller, known, refused}
use news2reel.Net.{Web, Outcome, fetched, failed, unsafe_url, too_large, transport, unexpected}
use news2reel.Cities.{CityError, Result, ok, raise, CityCreate}
use news2reel.Sources.{
  CheckReply, checked, not_found, crashed, edit_source, check_failed, check_passed, reply_to,
  parsed_reply, has_entries, check_source,
}
use news2reel.Api.{Reply}
use news2reel.Api.Bodies.{city_create_ok, source_create_ok}
use news2reel.Api.Commits.{Commits}
use news2reel.Api.Routes.{
  Request, get_cities, post_city, get_one_city, patch_city, post_archive_city, post_unarchive_city,
  post_source, get_sources, get_one_source, patch_one_source, post_archive_source,
  post_check_source, Body, App, accepts, answer, check_answer, route, respond,
}
use news2reel.System.Sound.{IsSound, Follows, Follows-refl}
use news2reel.System.Feeds.{
  create_city-Follows, update_city-Follows, archive_city-Follows, unarchive_city-Follows,
  add_source-Follows, archive_source-Follows, update_source-Follows, checked-Follows,
}

module _ {F : Type 0} where
  -- Where a check commits.
  abbrev Records : Db F → CheckReply F → Type 0
  Records db (checked result db') = Follows db db'
  Records db not_found = Unit
  Records db (crashed e) = Unit

  module _ (db : Db F) (source_id : ℕ) (now : Instant) (s : IsSound db) where
    refused-Records :
        (error : Text)
        → Follows db
            (record db { sources = edit_source source_id (check_failed error now) db.sources })
    refused-Records error =
        checked-Follows db source_id (check_failed error now) s
          (λ x. (refl, λ h. record { city = h.city; body = h.body }))

    parsed_reply-Records :
        (status_code : ℕ) (parsed : Parsed)
        → Records db (parsed_reply db source_id now status_code parsed)
    parsed_reply-Records status_code parsed =
        elim (Bool-cases (parsed.bozo && not (has_entries parsed.entries))) [
          | inl junk ↦ rw junk (refused-Records _)
          | inr feed ↦ rw feed (
              checked-Follows db source_id (check_passed now) s
                (λ x. (refl, λ h. record { city = h.city; body = h.body })))
        ]

    reply_to-Records :
        (parse : List ℕ → Parsed) (outcome : Outcome)
        → Records db (reply_to db source_id now parse outcome)
    reply_to-Records parse (fetched result) =
        parsed_reply-Records result.status_code (parse result.content)
    reply_to-Records parse (failed (unsafe_url e)) = refused-Records e
    reply_to-Records parse (failed (too_large e)) = refused-Records e
    reply_to-Records parse (failed (transport e)) = refused-Records e
    reply_to-Records parse (failed (unexpected e)) = tt

    check_source-Records :
        (web : Web) (parse : List ℕ → Parsed) (settings : Settings F)
        → Records db (check_source web parse settings db source_id now)
    unfolding check_source
    check_source-Records web parse settings = elim (Option-cases (get_source_row db source_id)) [
      | inl e ↦ rw (e, Records) tt
      | inr (x, e) ↦ rw (e, Records) (reply_to-Records parse _)
    ]

feeds_ok :
    (data' : CityCreate) → city_create_ok data' ≡ true → all source_create_ok data'.sources ≡ true
unfolding city_create_ok
feeds_ok data' h = ground arith

module _ {F : Type 0} (app : App F) where
  answer-Follows :
      (errors : CityError → Reply Body) (read : Db F → Reply Body) (db : Db F)
      (result : Result (Db F))
      → IsSound db
      → Commits (Follows db) result
      → Follows db (answer app errors read db result).1
  answer-Follows errors read db (ok db') s h = h
  answer-Follows errors read db (raise e) s h = Follows-refl db s

  check_answer-Follows :
      (db : Db F) (reply : CheckReply F)
      → IsSound db
      → Records db reply
      → Follows db (check_answer app db reply).1
  check_answer-Follows db (checked result db') s h = h
  check_answer-Follows db not_found s h = Follows-refl db s
  check_answer-Follows db (crashed e) s h = Follows-refl db s

  route-Follows :
      (now : Instant) (request : Request) (db : Db F)
      → IsSound db
      → accepts request ≡ true
      → Follows db (route app now request db).1
  unfolding route accepts
  route-Follows now (get_cities include_archived) db s valid = Follows-refl db s
  route-Follows now (post_city data') db s valid =
      answer-Follows _ _ db _ s
        (create_city-Follows app.std app.chars app.settings db data' s (feeds_ok data' valid))
  route-Follows now (get_one_city city_id) db s valid = Follows-refl db s
  route-Follows now (patch_city city_id data') db s valid =
      answer-Follows _ _ db _ s (update_city-Follows db city_id data' s)
  route-Follows now (post_archive_city city_id) db s valid =
      answer-Follows _ _ db _ s (archive_city-Follows db city_id now s)
  route-Follows now (post_unarchive_city city_id) db s valid =
      answer-Follows _ _ db _ s (unarchive_city-Follows db city_id s)
  route-Follows now (post_source city_id data') db s valid =
      answer-Follows _ _ db _ s (add_source-Follows app.settings db city_id data' s valid)
  route-Follows now (get_sources include_archived) db s valid = Follows-refl db s
  route-Follows now (get_one_source source_id) db s valid = Follows-refl db s
  route-Follows now (patch_one_source source_id data') db s valid =
      answer-Follows _ _ db _ s (update_source-Follows db source_id data' s valid)
  route-Follows now (post_archive_source source_id) db s valid =
      answer-Follows _ _ db _ s (archive_source-Follows db source_id now s)
  route-Follows now (post_check_source source_id) db s valid =
      check_answer-Follows db _ s
        (check_source-Records db source_id now s app.web app.parse app.settings)

  pub respond-Follows :
      (caller : Caller) (now : Instant) (request : Request) (db : Db F)
      → IsSound db
      → Follows db (respond app caller now request db).1
  unfolding respond
  respond-Follows (refused detail) now request db s = Follows-refl db s
  respond-Follows (known user) now request db s = elim (Bool-cases (accepts request)) [
    | inl valid ↦ rw valid (route-Follows now request db s valid)
    | inr invalid ↦ rw invalid (Follows-refl db s)
  ]
