-- ===== src/System/Sound.antt =====
-- What every transaction keeps, and the changes of a table that keep it.
use news2reel.Base.{ℕ, ◌≡◌, ◌∙◌, true, List, map, Text, All, All-map, All-weaken}
use news2reel.Model.{City, Source, Article, Carousel, Selection}
use news2reel.Store.{Db, get_city_row, get_source_row}
use news2reel.Ingest.Persist.{has_id}
use news2reel.Ingest.Persist.Dedupe.{UniqueIds}
use news2reel.Cities.{body_of, put_city}
use news2reel.Api.Bodies.{source_create_ok}
use news2reel.Api.Commits.{HasCity, HasSource, kept_by_map, put_city-HasCity}

module _ {F : Type 0} where
  -- The feed is of a city that is stored, and what an editor sets of it still passes the schema.
  pub record Fits (db : Db F) (source : Source) : Type 0 where
    pub city : HasCity source.city_id db
    pub body : source_create_ok (body_of source) ≡ true

  -- No article id stands twice, every foreign key leads to a row, and every feed is within the
  -- bounds of its schema.
  pub record IsSound (db : Db F) : Type 0 where
    pub unique : UniqueIds db.articles
    pub articles : All (λ a. HasSource a.source_id db) db.articles
    pub sources : All (Fits db) db.sources
    pub carousels : All (λ c. HasCity c.city_id db) db.carousels

  -- No city, no feed and no article is lost.
  pub record Keeps (db db' : Db F) : Type 0 where
    pub cities : (id : ℕ) → HasCity id db → HasCity id db'
    pub sources : (id : ℕ) → HasSource id db → HasSource id db'
    pub articles : (id : Text) → has_id id db.articles ≡ true → has_id id db'.articles ≡ true

  pub record Follows (db db' : Db F) : Type 0 where
    pub keeps : Keeps db db'
    pub sound : IsSound db'

  pub Keeps-refl : (db : Db F) → Keeps db db
  Keeps-refl db = record { cities = λ id h. h; sources = λ id h. h; articles = λ id h. h }

  pub Keeps-trans : (a b c : Db F) → Keeps a b → Keeps b c → Keeps a c
  Keeps-trans a b c p q = record {
    cities = λ id h. q.cities id (p.cities id h);
    sources = λ id h. q.sources id (p.sources id h);
    articles = λ id h. q.articles id (p.articles id h);
  }

  pub Follows-refl : (db : Db F) → IsSound db → Follows db db
  Follows-refl db s = record { keeps = Keeps-refl db; sound = s }

  pub Follows-trans : (a b c : Db F) → Follows a b → Follows b c → Follows a c
  Follows-trans a b c p q = record { keeps = Keeps-trans a b c p.keeps q.keeps; sound = q.sound }

  -- Cities and feeds that change without losing one.
  pub Follows-places :
      (db : Db F) (cities : List City) (sources : List Source) (next_city next_source : ℕ)
      → let db' : Db F = record db {
        cities = cities;
        sources = sources;
        next_city = next_city;
        next_source = next_source;
      } in
        IsSound db
        → ((id : ℕ) → HasCity id db → HasCity id db')
        → ((id : ℕ) → HasSource id db → HasSource id db')
        → All (Fits db') sources
        → Follows db db'
  Follows-places db cities sources next_city next_source s c r fits = record {
    keeps = record { cities = c; sources = r; articles = λ id h. h };
    sound = record {
      unique = s.unique;
      articles = All-weaken _ _ (λ a h. r a.source_id h) db.articles s.articles;
      sources = fits;
      carousels = All-weaken _ _ (λ d h. c d.city_id h) db.carousels s.carousels;
    };
  }

  -- The feeds, each changed by a function that keeps the ids.
  pub Follows-map_sources :
      (db : Db F) (f : Source → Source)
      → IsSound db
      → ((s : Source) → (f s).id ≡ s.id)
      → ((s : Source) → Fits db s → Fits db (f s))
      → Follows db (record db { sources = map f db.sources })
  unfolding get_source_row get_city_row
  Follows-map_sources db f s same fits =
      Follows-places db db.cities (map f db.sources) db.next_city db.next_source s (λ id h. h)
        (λ id h. kept_by_map (λ (x : Source). x.id) f id db.sources same ∙ h)
        (All-map _ _ f (λ x h. record { city = (fits x h).city; body = (fits x h).body }) db.sources
          s.sources)

  pub Follows-put_city :
      (db : Db F) (c : City) → IsSound db → Follows db (record db { cities = put_city c db.cities })
  unfolding get_source_row get_city_row
  Follows-put_city db c s =
      let kept = λ (id : ℕ). put_city-HasCity db id c in
      Follows-places db (put_city c db.cities) db.sources db.next_city db.next_source s kept
        (λ id h. h)
        (All-weaken _ _ (λ x h. record { city = kept x.city_id h.city; body = h.body }) db.sources
          s.sources)

  -- Articles that change without losing one.
  pub Follows-articles :
      (db : Db F) (articles : List (Article F))
      → IsSound db
      → UniqueIds articles
      → All (λ a. HasSource a.source_id db) articles
      → ((id : Text) → has_id id db.articles ≡ true → has_id id articles ≡ true)
      → Follows db (record db { articles = articles })
  unfolding get_source_row get_city_row
  Follows-articles db articles s unique cited kept = record {
    keeps = record { cities = λ id h. h; sources = λ id h. h; articles = kept };
    sound = record {
      unique = unique;
      articles = All-weaken _ _ (λ a h. h) articles cited;
      sources =
          All-weaken _ _ (λ x h. record { city = h.city; body = h.body }) db.sources s.sources;
      carousels = s.carousels;
    };
  }

  pub Follows-decks :
      (db : Db F) (carousels : List Carousel) (selections : List (Selection F)) (next_carousel : ℕ)
      → IsSound db
      → All (λ c. HasCity c.city_id db) carousels
      → Follows db (record db {
        carousels = carousels;
        selections = selections;
        next_carousel = next_carousel;
      })
  unfolding get_source_row get_city_row
  Follows-decks db carousels selections next_carousel s homed = record {
    keeps = record { cities = λ id h. h; sources = λ id h. h; articles = λ id h. h };
    sound = record {
      unique = s.unique;
      articles = s.articles;
      sources =
          All-weaken _ _ (λ x h. record { city = h.city; body = h.body }) db.sources s.sources;
      carousels = homed;
    };
  }
