-- ===== src/Cities/Cap.antt =====
-- The cap on a city's live feeds: each operation keeps it.
use mathlib.Core.Path.{subst}
use news2reel.Base.{
  ℕ, suc, ◌+◌, ◌≤◌, ◌<◌, ◌≡◌, refl, Option, none, some, List, [], ◌∷◌, ◌++◌, arith, if◌then◌else◌,
  ◌==◌, leb, ltb, All, All-append, All-map, count, count-append, length, Bool-cases, inl, inr,
  All-find?, All-weaken, Text, Option-cases,
}
use news2reel.Core.Config.{Settings}
use news2reel.Core.Text.{Chars}
use news2reel.Model.{Instant, City, Source}
use news2reel.Store.{Db, get_city_row, get_source_row}
use news2reel.Ingest.Urls.{StdLib}
use news2reel.Cities.{
  Result, ok, raise, ◌>>=◌, SourceCreate, CityCreate, CityUpdate, Field, unset, sent,
  normalize_slug, is_live, new_source, new_sources, archive_of_city, put_source, put_city,
  source_count, get_city, get_source, update_city, archive_city, add_source, archive_source,
  create_city, slug_taken, patch_name, patch_state,
}
use news2reel.Cities.Counts.{
  count-new_sources, count-archive, count-put_archived, count-below, new_sources-below,
  source_count-count, get_city_row-id,
}

module _ {F : Type 0} (settings : Settings F) where
  -- No city has more live feeds than the cap, and the ids of cities come from their sequence.
  pub record IsValid (db : Db F) : Type 0 where
    pub capped : (id : ℕ) → source_count db id ≤ settings.max_sources_per_city
    pub city_ids : All (λ c. c.id < db.next_city) db.cities
    pub source_cities : All (λ s. s.city_id < db.next_city) db.sources

  -- Where the operation commits, the database is valid.
  abbrev pub Keeps : Result (Db F) → Type 0
  Keeps (ok db) = IsValid db
  Keeps (raise e) = Unit

  All-put_city :
      (n : ℕ) (city : City) (cities : List City)
      → city.id < n
      → All (λ c. c.id < n) cities
      → All (λ c. c.id < n) (put_city city cities)
  All-put_city n city cities h =
      All-map (λ c. c.id < n) (λ c. c.id < n) (λ c. if c.id == city.id then city else c)
        (λ c k. ground arith) cities

  pub from_counts :
      (db : Db F)
      → ((id : ℕ) → count (is_live id) db.sources ≤ settings.max_sources_per_city)
      → All (λ c. c.id < db.next_city) db.cities
      → All (λ s. s.city_id < db.next_city) db.sources
      → IsValid db
  from_counts db h k l = record {
    capped = λ id. omega (arith, source_count-count db id, h id);
    city_ids = k;
    source_cities = l;
  }

  pub counts :
      (db : Db F)
      → IsValid db
      → (id : ℕ) → count (is_live id) db.sources ≤ settings.max_sources_per_city
  counts db v id = omega (arith, source_count-count db id, v.capped id)

  -- a city that was found has an id below the next one
  row-below :
      (db : Db F) (city_id : ℕ) (c : City)
      → IsValid db
      → get_city_row db city_id ≡ some c
      → c.id < db.next_city
  unfolding get_city_row
  row-below db city_id c v e =
      All-find? (λ d. d.id < db.next_city) (λ d. d.id == city_id) db.cities c v.city_ids e

  added-IsValid :
      (db : Db F) (city_id : ℕ) (row : SourceCreate)
      → IsValid db
      → city_id < db.next_city
      → source_count db city_id < settings.max_sources_per_city
      → IsValid (record db {
        sources = db.sources ++ new_source db.next_source city_id row ∷ [];
        next_source = suc db.next_source;
      })
  unfolding new_sources new_source
  added-IsValid db city_id row v below room =
      from_counts _
        (λ id. ground (
          arith,
          count-append (is_live id) db.sources (new_sources db.next_source city_id (row ∷ [])),
          count-new_sources id db.next_source city_id (row ∷ []),
          counts db v id,
          source_count-count db city_id,
        ))
        v.city_ids (All-append _ db.sources _ v.source_cities (below, tt))

  pub add_source-Keeps :
      (db : Db F) (city_id : ℕ) (row : SourceCreate)
      → IsValid db
      → Keeps (add_source db city_id row settings)
  unfolding add_source get_city
  add_source-Keeps db city_id row v = elim (Option-cases (get_city_row db city_id)) [
    | inl e ↦ rw e tt
    | inr (c, e) ↦ elim (Bool-cases (leb settings.max_sources_per_city (source_count db city_id))) [
      | inl full ↦ rw (e, full) tt
      | inr room ↦
          let same = get_city_row-id db city_id c e in
          let fits : source_count db c.id < settings.max_sources_per_city =
            rw same (ground arith) in
          rw (e, room) (added-IsValid db c.id row v (row-below db city_id c v e) fits)
    ]
  ]

  pub archive_city-Keeps :
      (db : Db F) (city_id : ℕ) (now : Instant) → IsValid db → Keeps (archive_city db city_id now)
  unfolding archive_city get_city
  archive_city-Keeps db city_id now v = elim (Option-cases (get_city_row db city_id)) [
    | inl e ↦ rw e tt
    | inr (c, e) ↦ rw e (
        from_counts _
          (λ id. ground (arith, count-archive id city_id now db.sources, counts db v id))
          (All-put_city db.next_city _ db.cities (row-below db city_id c v e) v.city_ids)
          (All-map _ _ (archive_of_city city_id now) (λ s h. ground arith) db.sources
            v.source_cities))
  ]

  put_city-IsValid :
      (db : Db F) (city : City)
      → IsValid db
      → city.id < db.next_city
      → IsValid (record db { cities = put_city city db.cities })
  put_city-IsValid db city v below =
      from_counts _ (counts db v) (All-put_city db.next_city city db.cities below v.city_ids)
        v.source_cities

  patch_state-below :
      (n : ℕ) (state : Field (Option Text)) (c : City) → c.id < n → (patch_state state c).id < n
  patch_state-below n unset c h = h
  patch_state-below n (sent s) c h = h

  patch-Keeps :
      (db : Db F) (c : City) (name state : Field (Option Text))
      → IsValid db
      → c.id < db.next_city
      → Keeps (
          patch_name name c >>= λ named.
          ok (record db { cities = put_city (patch_state state named) db.cities }))
  patch-Keeps db c unset state v h =
      put_city-IsValid db (patch_state state c) v (patch_state-below _ state c h)
  patch-Keeps db c (sent none) state v h = tt
  patch-Keeps db c (sent (some name)) state v h =
      let named = record c { name = name } in
      put_city-IsValid db (patch_state state named) v (patch_state-below _ state named h)

  pub update_city-Keeps :
      (db : Db F) (city_id : ℕ) (data' : CityUpdate)
      → IsValid db
      → Keeps (update_city db city_id data')
  unfolding update_city get_city
  update_city-Keeps db city_id data' v = elim (Option-cases (get_city_row db city_id)) [
    | inl e ↦ rw e tt
    | inr (c, e) ↦ rw e (patch-Keeps db c data'.name data'.state v (row-below db city_id c v e))
  ]

  archived-IsValid :
      (db : Db F) (s : Source) (now : Instant)
      → IsValid db
      → s.city_id < db.next_city
      → IsValid
          (record db { sources = put_source (record s { archived_at = some now }) db.sources })
  archived-IsValid db s now v below =
      from_counts _ (λ id. omega (arith, count-put_archived id s now db.sources, counts db v id))
        v.city_ids (All-map _ _ _ (λ x h. ground arith) db.sources v.source_cities)

  pub archive_source-Keeps :
      (db : Db F) (source_id : ℕ) (now : Instant)
      → IsValid db
      → Keeps (archive_source db source_id now)
  unfolding archive_source get_source get_source_row
  archive_source-Keeps db source_id now v = elim (Option-cases (get_source_row db source_id)) [
    | inl e ↦ rw e tt
    | inr (s, e) ↦ rw e (archived-IsValid db s now v (All-find? _ _ db.sources s v.source_cities e))
  ]

  created-IsValid :
      (db : Db F) (city : City) (rows : List SourceCreate)
      → IsValid db
      → city.id ≡ db.next_city
      → length rows ≤ settings.max_sources_per_city
      → IsValid (record db {
        cities = db.cities ++ city ∷ [];
        sources = db.sources ++ new_sources db.next_source db.next_city rows;
        next_city = suc db.next_city;
        next_source = db.next_source + length rows;
      })
  created-IsValid db city rows v named fits =
      from_counts _
        (λ id. ground (
          arith,
          count-append (is_live id) db.sources (new_sources db.next_source db.next_city rows),
          count-new_sources id db.next_source db.next_city rows,
          counts db v id,
          count-below id db.sources,
          below_of_eq id,
        ))
        (All-append _ db.cities (city ∷ [])
          (All-weaken _ _ (λ c h. omega arith) db.cities v.city_ids) (omega arith, tt))
        (All-append _ db.sources _ (All-weaken _ _ (λ s h. omega arith) db.sources v.source_cities)
          (new_sources-below db.next_source db.next_city rows))
    where
      below_of_eq : (id : ℕ) → db.next_city ≡ id → All (λ s. s.city_id < id) db.sources
      below_of_eq id e = subst (λ n. All (λ s. s.city_id < n) db.sources) e v.source_cities

  pub create_city-Keeps :
      (std : StdLib) (u : Chars) (db : Db F) (data' : CityCreate)
      → IsValid db
      → Keeps (create_city std u db data' settings)
  unfolding create_city
  create_city-Keeps std u db data' v =
      elim (Bool-cases (ltb settings.max_sources_per_city (length data'.sources))) [
        | inl many ↦ rw many tt
        | inr few ↦ elim (Bool-cases (slug_taken db (normalize_slug std u data'.name))) [
          | inl taken ↦ rw (few, taken) tt
          | inr free ↦ rw (few, free) (created-IsValid db _ data'.sources v refl (ground arith))
        ]
      ]
