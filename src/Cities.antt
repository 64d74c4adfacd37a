-- ===== src/Cities.antt =====
-- `app/services/cities.py` and `app/services/sources.py`: cities, the feeds that are onboarded
-- under them, and the archive cascades. An operation returns the database after its commit, or
-- the error that it raises; nothing is committed before an error.
pub mod Counts
pub mod Cap
pub mod Steps
pub mod Archive
use news2reel.Base.{
  ℕ, zero, suc, ◌+◌, ◌≤◌, Bool, true, false, not, ◌&&◌, Option, none, some, List, [], ◌∷◌, ◌++◌,
  map, if◌then◌else◌, ◌==◌, leb, ltb, Text, text_eq, any, filter, count, length, is_none,
}
use news2reel.Core.Config.{Settings}
use news2reel.Core.Text.{Chars, rstrip, lstrip}
use news2reel.Model.{Instant, City, Source}
use news2reel.Store.{Db, get_city_row, get_source_row}
use news2reel.Ingest.Urls.{StdLib}

pub data CityError : Type 0 where
  city_not_found duplicate_city_slug city_full source_not_found : CityError
  -- the database refuses NULL in a column that is NOT NULL
  integrity_error : CityError

pub data Result (A : Type 0) : Type 0 where
  ok : A → Result A
  raise : CityError → Result A

infixl 5 ◌>>=◌
abbrev pub ◌>>=◌ : {A B : Type 0} → Result A → (A → Result B) → Result B
ok a >>= f = f a
raise e >>= f = raise e

-- `if test: raise error`
abbrev pub raise_if : Bool → CityError → Result (Unit {0})
raise_if true e = raise e
raise_if false e = ok tt

infixl 5 ◌>>◌
abbrev pub ◌>>◌ : {B : Type 0} → Result (Unit {0}) → Result B → Result B
m >> k = m >>= λ _. k

abbrev pub or_raise : {A : Type 0} → CityError → Option A → Result A
or_raise e none = raise e
or_raise e (some a) = ok a

pub record SourceCreate : Type 0 where
  pub name : Text
  pub feed_url : Text
  pub language : Text
  pub publisher_group : Text
  pub is_local_outlet : Bool
  pub enabled : Bool
  pub fetch_interval_minutes : ℕ

pub record CityCreate : Type 0 where
  pub name : Text
  pub state : Option Text
  pub sources : List SourceCreate

-- a field of a PATCH body: left out, or sent
pub data Field (A : Type 0) : Type 0 where
  unset : Field A
  sent : A → Field A

pub record CityUpdate : Type 0 where
  pub name : Field (Option Text)
  pub state : Field (Option Text)

abbrev pub of_city : ℕ → Source → Bool
of_city city_id source = source.city_id == city_id

-- of the city, and not archived: a member of `_live_sources(city)`
abbrev pub is_live : ℕ → Source → Bool
is_live city_id source = of_city city_id source && is_none source.archived_at

-- the defaults of a new `Source` row
unfoldable pub new_source : ℕ → ℕ → SourceCreate → Source
new_source id city_id data' = record {
  id = id;
  name = data'.name;
  feed_url = data'.feed_url;
  language = data'.language;
  enabled = data'.enabled;
  publisher_group = data'.publisher_group;
  city_id = city_id;
  is_local_outlet = data'.is_local_outlet;
  fetch_interval_minutes = data'.fetch_interval_minutes;
  etag = none;
  last_modified = none;
  cache_max_age_seconds = none;
  last_fetched_at = none;
  consecutive_failures = 0;
  last_success_at = none;
  last_error = none;
  last_error_at = none;
  archived_at = none;
}

-- what an editor sets of a feed
abbrev pub body_of : Source → SourceCreate
body_of source = record {
  name = source.name;
  feed_url = source.feed_url;
  language = source.language;
  publisher_group = source.publisher_group;
  is_local_outlet = source.is_local_outlet;
  enabled = source.enabled;
  fetch_interval_minutes = source.fetch_interval_minutes;
}

unfoldable pub new_sources : ℕ → ℕ → List SourceCreate → List Source
new_sources next city_id [] = []
new_sources next city_id (data' ∷ rest) =
    new_source next city_id data' ∷ new_sources (suc next) city_id rest

abbrev pub put_city : City → List City → List City
put_city city cities = map (λ c. if c.id == city.id then city else c) cities

abbrev pub put_source : Source → List Source → List Source
put_source source sources = map (λ s. if s.id == source.id then source else s) sources

-- `if source.archived_at is None: source.archived_at = now`, for the sources of the city
abbrev pub archive_of_city : ℕ → Instant → Source → Source
archive_of_city city_id now source =
    if is_live city_id source then record source { archived_at = some now } else source

abbrev pub revive_of_city : ℕ → Source → Source
revive_of_city city_id source =
    if of_city city_id source then record source { archived_at = none } else source

-- `setattr(city, field, value)` for the fields that were sent
abbrev pub patch_name : Field (Option Text) → City → Result City
patch_name unset city = ok city
patch_name (sent none) city = raise integrity_error
patch_name (sent (some name)) city = ok (record city { name = name })

abbrev pub patch_state : Field (Option Text) → City → City
patch_state unset city = city
patch_state (sent state) city = record city { state = state }

-- `value.strip()`
unfoldable pub strip : Chars → Text → Text
strip u value = rstrip u.is_space (lstrip u.is_space value)

-- `normalize_slug` of `app/schemas/city.py`
unfoldable pub normalize_slug : StdLib → Chars → Text → Text
normalize_slug std u value = std.casefold (strip u value)

module _ {F : Type 0} where
  unfoldable pub source_count : Db F → ℕ → ℕ
  source_count db city_id = length (filter (is_live city_id) db.sources)

  unfoldable pub get_city : Db F → ℕ → Result City
  get_city db city_id = or_raise city_not_found (get_city_row db city_id)

  unfoldable pub get_source : Db F → ℕ → Result Source
  get_source db source_id = or_raise source_not_found (get_source_row db source_id)

  unfoldable pub slug_taken : Db F → Text → Bool
  slug_taken db slug = any (λ c. text_eq c.slug slug) db.cities

  unfoldable pub update_city : Db F → ℕ → CityUpdate → Result (Db F)
  update_city db city_id data' = do
    city ← get_city db city_id
    named ← patch_name data'.name city
    ok (record db { cities = put_city (patch_state data'.state named) db.cities })

  unfoldable pub archive_city : Db F → ℕ → Instant → Result (Db F)
  archive_city db city_id now = do
    city ← get_city db city_id
    ok (record db {
      cities = put_city (record city { archived_at = some now }) db.cities;
      sources = map (archive_of_city city_id now) db.sources;
    })

  unfoldable pub unarchive_city : Db F → ℕ → Result (Db F)
  unarchive_city db city_id = do
    city ← get_city db city_id
    ok (record db {
      cities = put_city (record city { archived_at = none }) db.cities;
      sources = map (revive_of_city city_id) db.sources;
    })

  unfoldable pub add_source : Db F → ℕ → SourceCreate → Settings F → Result (Db F)
  add_source db city_id data' settings = do
    city ← get_city db city_id
    raise_if (leb settings.max_sources_per_city (source_count db city_id)) city_full
    ok (record db {
      sources = db.sources ++ new_source db.next_source city.id data' ∷ [];
      next_source = suc db.next_source;
    })

  unfoldable pub archive_source : Db F → ℕ → Instant → Result (Db F)
  archive_source db source_id now = do
    source ← get_source db source_id
    ok (record db { sources = put_source (record source { archived_at = some now }) db.sources })

  module _ (std : StdLib) (u : Chars) where
    unfoldable pub create_city : Db F → CityCreate → Settings F → Result (Db F)
    create_city db data' settings = do
      raise_if (ltb settings.max_sources_per_city (length data'.sources)) city_full
      raise_if (slug_taken db (normalize_slug std u data'.name)) duplicate_city_slug
      ok (record db {
        cities =
            db.cities
            ++ record {
              id = db.next_city;
              name = strip u data'.name;
              slug = normalize_slug std u data'.name;
              state = data'.state;
              archived_at = none;
            }
              ∷ [];
        sources = db.sources ++ new_sources db.next_source db.next_city data'.sources;
        next_city = suc db.next_city;
        next_source = db.next_source + length data'.sources;
      })
