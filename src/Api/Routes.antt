-- ===== src/Api/Routes.antt =====
-- The routes of `app/api/v1/endpoints/cities.py`, the refresh in Refreshes, and those of
-- `app/api/v1/endpoints/sources.py`: the errors of the services as statuses, the rows that are
-- printed, and the database behind the answer.
use news2reel.Base.{ℕ, Bool, true, Option, List, [], ◌++◌, map, if◌then◌else◌, Text, codes}
use news2reel.Core.Config.{Settings}
use news2reel.Core.Text.{Chars}
use news2reel.Model.{Instant, City, Source}
use news2reel.Store.{Db}
use news2reel.Ingest.Urls.{StdLib}
use news2reel.Ingest.Persist.{Parsed}
use news2reel.Stories.{StoryRead}
use news2reel.Accounts.{Caller, known, refused}
use news2reel.Cities.{
  CityError, city_not_found, duplicate_city_slug, city_full, source_not_found, Result, ok, raise,
  SourceCreate, CityCreate, CityUpdate, normalize_slug, get_city, get_source, create_city,
  update_city, archive_city, unarchive_city, add_source, archive_source,
}
use news2reel.Net.{Web}
use news2reel.Sources.{
  SourceUpdate, SourceCheckResult, CheckReply, checked, not_found, crashed, update_source,
  check_source,
}
use news2reel.Api.{Reply, sent, http_error, internal_error}
use news2reel.Api.Reads.{SourceRead, CityRead, source_read, city_read, list_cities, list_sources}
use news2reel.Api.Bodies.{source_create_ok, city_create_ok, city_update_ok, source_update_ok}

-- One request with its path and its body; the flag is `include_archived`.
pub data Request : Type 0 where
  get_cities : Bool → Request
  post_city : CityCreate → Request
  get_one_city : ℕ → Request
  patch_city : ℕ → CityUpdate → Request
  post_archive_city : ℕ → Request
  post_unarchive_city : ℕ → Request
  post_source : ℕ → SourceCreate → Request
  get_sources : Bool → Request
  get_one_source : ℕ → Request
  patch_one_source : ℕ → SourceUpdate → Request
  post_archive_source : ℕ → Request
  post_check_source : ℕ → Request

pub data Body : Type 0 where
  city : CityRead → Body
  cities : List CityRead → Body
  source : SourceRead → Body
  sources : List SourceRead → Body
  check : SourceCheckResult → Body

-- What the routes are given: the settings, the standard library, `repr` and `str` of an int, the
-- network, feedparser, the order of texts in the database and that of rows without one, the date of a selection in the newsroom's
-- time zone, `b64decode` with `validate=True` and the number of a slide in two digits.
pub record App (F : Type 0) : Type 0 where
  pub settings : Settings F
  pub std : StdLib
  pub chars : Chars
  pub repr : Text → Text
  pub decimal : ℕ → Text
  pub web : Web
  pub parse : List ℕ → Parsed
  pub collates : Text → Text → Bool
  pub arranged : List Source → List Source
  pub date_label : List (StoryRead F) → Text
  pub b64decode : Text → Option (List ℕ)
  pub two_digits : ℕ → Text

abbrev pub no_city : Reply Body
no_city = http_error 404 (codes "city not found")

abbrev pub no_source : Reply Body
no_source = http_error 404 (codes "source not found")

-- The body passes its schema.
unfoldable pub accepts : Request → Bool
accepts (post_city data') = city_create_ok data'
accepts (patch_city city_id data') = city_update_ok data'
accepts (post_source city_id data') = source_create_ok data'
accepts (patch_one_source source_id data') = source_update_ok data'
accepts _ = true

-- The handlers of the exceptions: `except CityNotFoundError`, and so on.
abbrev pub city_errors : CityError → Reply Body
city_errors city_not_found = no_city
city_errors e = internal_error

abbrev pub source_errors : CityError → Reply Body
source_errors source_not_found = no_source
source_errors e = internal_error

module _ {F : Type 0} (app : App F) where
  -- `str(exc)` of a `CityFullError`
  abbrev pub full_reply : Reply Body
  full_reply = http_error 422 (
      codes "a city can hold at most "
      ++ (app.decimal app.settings.max_sources_per_city ++ codes " sources"))

  abbrev pub create_errors : CityCreate → CityError → Reply Body
  create_errors data' duplicate_city_slug = http_error 409 (
      codes "a city named "
      ++ (app.repr (normalize_slug app.std app.chars data'.name) ++ codes " already exists"))
  create_errors data' city_full = full_reply
  create_errors data' e = internal_error

  abbrev pub add_errors : CityError → Reply Body
  add_errors city_not_found = no_city
  add_errors city_full = full_reply
  add_errors e = internal_error

  -- the row that is read back behind a commit, or at once by a GET
  abbrev pub city_reply : (CityError → Reply Body) → ℕ → Db F → Result City → Reply Body
  city_reply errors status db (ok row) = sent status (city (city_read db app.arranged row))
  city_reply errors status db (raise e) = errors e

  abbrev pub source_reply : (CityError → Reply Body) → ℕ → Db F → Result Source → Reply Body
  source_reply errors status db (ok row) = sent status (source (source_read db row))
  source_reply errors status db (raise e) = errors e

  -- The database behind the answer: the commit of the service, or what was there.
  abbrev pub answer :
      (CityError → Reply Body) → (Db F → Reply Body) → Db F → Result (Db F) → Reply Body × Db F
  answer errors read db (ok db') = (read db', db')
  answer errors read db (raise e) = (errors e, db)

  abbrev pub check_answer : Db F → CheckReply F → Reply Body × Db F
  check_answer db (checked result db') = (sent 200 (check result), db')
  check_answer db not_found = (no_source, db)
  check_answer db (crashed e) = (internal_error, db)

  -- The route, at the time `now`.
  unfoldable pub route : Instant → Request → Db F → Reply Body × Db F
  route now (get_cities include_archived) db = (
    sent 200
        (cities (map (city_read db app.arranged) (list_cities db app.collates include_archived))),
    db,
  )
  route now (post_city data') db =
      answer (create_errors data')
        (λ db'. city_reply (create_errors data') 201 db' (get_city db' db.next_city)) db
        (create_city app.std app.chars db data' app.settings)
  route now (get_one_city city_id) db = (city_reply city_errors 200 db (get_city db city_id), db)
  route now (patch_city city_id data') db =
      answer city_errors (λ db'. city_reply city_errors 200 db' (get_city db' city_id)) db
        (update_city db city_id data')
  route now (post_archive_city city_id) db =
      answer city_errors (λ db'. city_reply city_errors 200 db' (get_city db' city_id)) db
        (archive_city db city_id now)
  route now (post_unarchive_city city_id) db =
      answer city_errors (λ db'. city_reply city_errors 200 db' (get_city db' city_id)) db
        (unarchive_city db city_id)
  route now (post_source city_id data') db =
      answer add_errors (λ db'. source_reply add_errors 201 db' (get_source db' db.next_source)) db
        (add_source db city_id data' app.settings)
  route now (get_sources include_archived) db =
      (sent 200 (sources (map (source_read db) (list_sources db include_archived))), db)
  route now (get_one_source source_id) db =
      (source_reply source_errors 200 db (get_source db source_id), db)
  route now (patch_one_source source_id data') db =
      answer source_errors (λ db'. source_reply source_errors 200 db' (get_source db' source_id)) db
        (update_source db source_id data')
  route now (post_archive_source source_id) db =
      answer source_errors (λ db'. source_reply source_errors 200 db' (get_source db' source_id)) db
        (archive_source db source_id now)
  route now (post_check_source source_id) db =
      check_answer db (check_source app.web app.parse app.settings db source_id now)

  -- The session first, then the body, then the route; pydantic's own detail is not modelled.
  unfoldable pub respond : Caller → Instant → Request → Db F → Reply Body × Db F
  respond (refused detail) now request db = (http_error 401 detail, db)
  respond (known user) now request db =
      if accepts request then route now request db else (http_error 422 [], db)
