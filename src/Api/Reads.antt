-- ===== src/Api/Reads.antt =====
-- The rows as the routes print them: `app/schemas/city.py`, `app/schemas/source.py`, `_read` of
-- `app/api/v1/endpoints/cities.py`, and the two lists of the services. `created_at` and
-- `updated_at` are set by the database and only echoed, and are left out.
use mathlib.Core.Option
use news2reel.Base.{ℕ, Bool, ◌||◌, Option, List, map, ltb, Text, filter, sorted, is_none}
use news2reel.Model.{Instant, City, Source}
use news2reel.Store.{Db, get_city_row}
use news2reel.Cities.{of_city, source_count}

pub record SourceRead : Type 0 where
  pub id : ℕ
  pub name : Text
  pub feed_url : Text
  pub language : Text
  pub enabled : Bool
  pub publisher_group : Text
  pub city_id : ℕ
  pub city_name : Option Text
  pub is_local_outlet : Bool
  pub fetch_interval_minutes : ℕ
  pub last_fetched_at : Option Instant
  pub consecutive_failures : ℕ
  pub last_success_at : Option Instant
  pub last_error : Option Text
  pub last_error_at : Option Instant
  pub archived_at : Option Instant

pub record CityRead : Type 0 where
  pub id : ℕ
  pub name : Text
  pub slug : Text
  pub state : Option Text
  pub archived_at : Option Instant
  pub source_count : ℕ
  pub sources : List SourceRead

module _ {F : Type 0} (db : Db F) where
  -- `self.city.name if self.city else None`
  abbrev pub city_name : Source → Option Text
  city_name source = Option.map (λ (c : City). c.name) (get_city_row db source.city_id)

  unfoldable pub source_read : Source → SourceRead
  source_read source = record {
    id = source.id;
    name = source.name;
    feed_url = source.feed_url;
    language = source.language;
    enabled = source.enabled;
    publisher_group = source.publisher_group;
    city_id = source.city_id;
    city_name = city_name source;
    is_local_outlet = source.is_local_outlet;
    fetch_interval_minutes = source.fetch_interval_minutes;
    last_fetched_at = source.last_fetched_at;
    consecutive_failures = source.consecutive_failures;
    last_success_at = source.last_success_at;
    last_error = source.last_error;
    last_error_at = source.last_error_at;
    archived_at = source.archived_at;
  }

  -- `_read`; every feed of the city is printed, and the live ones are counted. The relationship has
  -- no order: `arranged` is the one in which the database returns its rows.
  unfoldable pub city_read : (List Source → List Source) → City → CityRead
  city_read arranged city = record {
    id = city.id;
    name = city.name;
    slug = city.slug;
    state = city.state;
    archived_at = city.archived_at;
    source_count = source_count db city.id;
    sources = map source_read (arranged (filter (of_city city.id) db.sources));
  }

  -- `order_by(City.name)`; `collates` is the database's order of texts.
  unfoldable pub list_cities : (Text → Text → Bool) → Bool → List City
  list_cities collates include_archived =
      sorted (λ a b. collates a.name b.name)
        (filter (λ c. include_archived || is_none c.archived_at) db.cities)

  -- `order_by(Source.id)`
  unfoldable pub list_sources : Bool → List Source
  list_sources include_archived =
      sorted (λ a b. ltb a.id b.id)
        (filter (λ s. include_archived || is_none s.archived_at) db.sources)
