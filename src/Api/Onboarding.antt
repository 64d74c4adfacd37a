-- ===== src/Api/Onboarding.antt =====
-- The onboarding of a city with its feeds: POST /cities, and what a GET of the city then prints.
use mathlib.Core.Path.{subst}
use mathlib.Core.List.{Permᴰ}
use mathlib.Core.List.Permᴰ
use news2reel.Base.{
  ◌∙◌, ℕ, suc, ◌+◌, ◌≤◌, ◌<◌, ◌≡◌, refl, ap, true, false, none, some, List, [], ◌∷◌, ◌++◌, map,
  arith, ◌==◌, ltb, All, length, filter, filter-append, find?, count-append,
}
use news2reel.Model.{Instant, City, Source, User}
use news2reel.Store.{Db, get_city_row}
use news2reel.Accounts.{known}
use news2reel.Cities.{
  ok, SourceCreate, CityCreate, of_city, is_live, new_source, new_sources, strip, normalize_slug,
  source_count, get_city, slug_taken, create_city,
}
use news2reel.Cities.Cap.{IsValid}
use news2reel.Cities.Counts.{count-new_sources, count-below, source_count-count}
use news2reel.Api.{sent}
use news2reel.Api.Reads.{SourceRead, CityRead, source_read, city_read}
use news2reel.Api.Routes.{post_city, get_one_city, city, App, accepts, route, respond}

-- The fields of a printed feed that its body sets.
abbrev pub posted : SourceRead → SourceCreate
posted read = record {
  name = read.name;
  feed_url = read.feed_url;
  language = read.language;
  publisher_group = read.publisher_group;
  is_local_outlet = read.is_local_outlet;
  enabled = read.enabled;
  fetch_interval_minutes = read.fetch_interval_minutes;
}

-- no feed has the id of a city that is still to come, and the new feeds have
filter-below :
    (id : ℕ) (sources : List Source)
    → All (λ s. s.city_id < id) sources
    → filter (of_city id) sources ≡ []
unfolding filter
filter-below id [] h = refl
filter-below id (s ∷ sources) h = ground (arith, filter-below id sources h.1)

filter-new_sources :
    (next id : ℕ) (rows : List SourceCreate)
    → filter (of_city id) (new_sources next id rows) ≡ new_sources next id rows
unfolding filter new_sources new_source
filter-new_sources next id [] = refl
filter-new_sources next id (row ∷ rows) = ground (arith, filter-new_sources (suc next) id rows)

find?-next :
    (cities : List City) (row : City)
    → All (λ c. c.id < row.id) cities
    → find? (λ c. c.id == row.id) (cities ++ row ∷ []) ≡ some row
unfolding find?
find?-next [] row h = ground arith
find?-next (c ∷ cities) row h = ground (arith, find?-next cities row h.1)

module _ {F : Type 0} where
  posted-new_sources :
      (db : Db F) (next id : ℕ) (rows : List SourceCreate)
      → map posted (map (source_read db) (new_sources next id rows)) ≡ rows
  unfolding new_sources new_source source_read
  posted-new_sources db next id [] = refl
  posted-new_sources db next id (row ∷ rows) =
      ap (λ rest. row ∷ rest) (posted-new_sources db (suc next) id rows)

module _ {F : Type 0} (app : App F) (db : Db F) (data' : CityCreate) where
  abbrev new_city : City
  new_city = record {
    id = db.next_city;
    name = strip app.chars data'.name;
    slug = normalize_slug app.std app.chars data'.name;
    state = data'.state;
    archived_at = none;
  }

  abbrev onboarded : Db F
  onboarded = record db {
    cities = db.cities ++ new_city ∷ [];
    sources = db.sources ++ new_sources db.next_source db.next_city data'.sources;
    next_city = suc db.next_city;
    next_source = db.next_source + length data'.sources;
  }

  create_city-onboarded :
      ltb app.settings.max_sources_per_city (length data'.sources) ≡ false
      → slug_taken db (normalize_slug app.std app.chars data'.name) ≡ false
      → create_city app.std app.chars db data' app.settings ≡ ok onboarded
  unfolding create_city
  create_city-onboarded few free = rw (few, free) refl

  get_city-onboarded : IsValid app.settings db → get_city onboarded db.next_city ≡ ok new_city
  unfolding get_city get_city_row
  get_city-onboarded v = rw (find?-next db.cities new_city v.city_ids) refl

  feeds-onboarded :
      IsValid app.settings db
      → ((sources : List Source) → Permᴰ (app.arranged sources) sources)
      → Permᴰ (map posted (city_read onboarded app.arranged new_city).sources) data'.sources
  unfolding city_read
  feeds-onboarded v shuffles =
      let news = new_sources db.next_source db.next_city data'.sources in
      let all_news : filter (of_city db.next_city) onboarded.sources ≡ news =
        rw
          (
            filter-append (of_city db.next_city) db.sources news,
            filter-below db.next_city db.sources v.source_cities,
          )
          (filter-new_sources db.next_source db.next_city data'.sources) in
      subst
        (λ rows.
          Permᴰ
            (map posted (
              map (source_read onboarded)
                (app.arranged (filter (of_city db.next_city) onboarded.sources))))
            rows)
        (ap (λ rows. map posted (map (source_read onboarded) rows)) all_news
          ∙ posted-new_sources onboarded db.next_source db.next_city data'.sources)
        (Permᴰ.map posted (
          Permᴰ.map (source_read onboarded)
            (shuffles (filter (of_city db.next_city) onboarded.sources))))

  source_count-onboarded :
      IsValid app.settings db → source_count onboarded db.next_city ≡ length data'.sources
  source_count-onboarded v =
      let news = new_sources db.next_source db.next_city data'.sources in
      ground (
        arith,
        source_count-count onboarded db.next_city,
        count-append (is_live db.next_city) db.sources news,
        count-new_sources db.next_city db.next_source db.next_city data'.sources,
        count-below db.next_city db.sources v.source_cities,
      )

  -- In a valid database, a city whose body passes its schema, whose feeds fit under the cap and whose
  -- slug is free is answered with a 201. The city that is printed has the stripped name, the
  -- normalised slug, exactly the feeds of the body, in the order in which the database returns them,
  -- and as many live ones; and a GET of its id afterwards prints the same.
  pub post_city_lem :
      (user : User) (now later : Instant)
      → IsValid app.settings db
      → ((sources : List Source) → Permᴰ (app.arranged sources) sources)
      → accepts (post_city data') ≡ true
      → length data'.sources ≤ app.settings.max_sources_per_city
      → slug_taken db (normalize_slug app.std app.chars data'.name) ≡ false
      → (read : CityRead) × (db' : Db F) × (respond app (known user) now (post_city data') db
          ≡ (sent 201 (city read), db'))
        × (respond app (known user) later (get_one_city read.id) db' ≡ (sent 200 (city read), db'))
        × (read.name ≡ strip app.chars data'.name)
        × (read.slug ≡ normalize_slug app.std app.chars data'.name)
        × Permᴰ (map posted read.sources) data'.sources
        × (read.source_count ≡ length data'.sources)
  unfolding respond route accepts city_read
  post_city_lem user now later v shuffles valid fits free =
      let stored = get_city-onboarded v in
      (
        city_read onboarded app.arranged new_city,
        onboarded,
        rw (valid, create_city-onboarded (ground arith) free, stored) refl,
        rw stored refl,
        refl,
        refl,
        feeds-onboarded v shuffles,
        source_count-onboarded v,
      )
