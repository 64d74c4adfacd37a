-- ===== src/System/Feeds.antt =====
-- The routes over cities and feeds, as steps of the system.
use news2reel.Base.{
  ℕ, suc, ◌≡◌, ap, Bool, true, false, Option, none, some, List, [], ◌∷◌, ◌++◌, arith, if◌then◌else◌,
  ◌==◌, ltb, leb, All, All-append, All-weaken, All-find?, all, length, find?, is_none, Bool-cases,
  Option-cases, inl, inr,
}
use news2reel.Core.Config.{Settings}
use news2reel.Core.Text.{Chars}
use news2reel.Model.{Instant, City, Source}
use news2reel.Store.{Db, get_city_row, get_source_row}
use news2reel.Ingest.Urls.{StdLib}
use news2reel.Cities.{
  Field, unset, sent, Result, ok, raise, ◌>>=◌, SourceCreate, CityCreate, CityUpdate, get_city,
  get_source, put_city, is_live, of_city, body_of, new_source, new_sources, source_count,
  slug_taken, normalize_slug, archive_of_city, revive_of_city, patch_name, patch_state, create_city,
  update_city, archive_city, unarchive_city, add_source, archive_source,
}
use news2reel.Cities.Counts.{get_city_row-id}
use news2reel.Sources.{patched, SourceUpdate, has_null, patch_source, edit_source, update_source}
use news2reel.Api.Bodies.{non_empty, in_week, where_sent, source_create_ok, source_update_ok}
use news2reel.Api.Commits.{Commits, HasCity, found_at_end}
use news2reel.System.Sound.{
  Fits, IsSound, Follows, Follows-trans, Follows-places, Follows-map_sources, Follows-put_city,
}

-- what is found in a table is found in a longer one
found_in_front :
    {A : Type 0} (p : A → Bool) (xs ys : List A)
    → is_none (find? p xs) ≡ false
    → is_none (find? p (xs ++ ys)) ≡ false
unfolding find?
found_in_front p [] ys h = absurd (ground arith)
found_in_front p (x ∷ xs) ys h = ground (arith, found_in_front p xs ys)

sent_ok :
    {A : Type 0} (p : A → Bool) (field : Field (Option A)) (old : A)
    → where_sent p field ≡ true
    → p old ≡ true
    → p (patched field old) ≡ true
sent_ok p unset old h k = k
sent_ok p (sent none) old h k = k
sent_ok p (sent (some a)) old h k = h

-- a body within the bounds, patched within the bounds
patched_ok :
    (data' : SourceUpdate) (x : Source)
    → source_update_ok data' ≡ true
    → source_create_ok (body_of x) ≡ true
    → source_create_ok (body_of (patch_source data' x)) ≡ true
unfolding source_update_ok source_create_ok patch_source
patched_ok data' x h k = ground (
  arith,
  sent_ok non_empty data'.name x.name,
  sent_ok non_empty data'.feed_url x.feed_url,
  sent_ok non_empty data'.language x.language,
  sent_ok non_empty data'.publisher_group x.publisher_group,
  sent_ok in_week data'.fetch_interval_minutes x.fetch_interval_minutes,
)

module _ {F : Type 0} where
  pub if-Fits :
      (db : Db F) (test : Bool) (x y : Source)
      → Fits db x
      → Fits db y
      → Fits db (if test then y else x)
  if-Fits db true x y h k = k
  if-Fits db false x y h k = h

  archived-Fits :
      (db : Db F) (test : Bool) (at : Option Instant) (x : Source)
      → Fits db x
      → Fits db (if test then record x { archived_at = at } else x)
  archived-Fits db test at x h = if-Fits db test x _ h (record { city = h.city; body = h.body })

  pub archive_city-Follows :
      (db : Db F) (city_id : ℕ) (now : Instant)
      → IsSound db
      → Commits (Follows db) (archive_city db city_id now)
  unfolding archive_city get_city
  archive_city-Follows db city_id now s = elim (Option-cases (get_city_row db city_id)) [
    | inl e ↦ rw e tt
    | inr (c, e) ↦
        let archived = Follows-put_city db (record c { archived_at = some now }) s in
        rw e (
          Follows-trans db _ _ archived (
            Follows-map_sources _ (archive_of_city city_id now) archived.sound (λ x. ground arith)
              (λ x h. archived-Fits _ (is_live city_id x) (some now) x h)))
  ]

  pub unarchive_city-Follows :
      (db : Db F) (city_id : ℕ) → IsSound db → Commits (Follows db) (unarchive_city db city_id)
  unfolding unarchive_city get_city
  unarchive_city-Follows db city_id s = elim (Option-cases (get_city_row db city_id)) [
    | inl e ↦ rw e tt
    | inr (c, e) ↦
        let revived = Follows-put_city db (record c { archived_at = none }) s in
        rw e (
          Follows-trans db _ _ revived (
            Follows-map_sources _ (revive_of_city city_id) revived.sound (λ x. ground arith)
              (λ x h. archived-Fits _ (of_city city_id x) none x h)))
  ]

  pub update_city-Follows :
      (db : Db F) (city_id : ℕ) (data' : CityUpdate)
      → IsSound db
      → Commits (Follows db) (update_city db city_id data')
  unfolding update_city get_city
  update_city-Follows db city_id data' s = elim (Option-cases (get_city_row db city_id)) [
    | inl e ↦ rw e tt
    | inr (c, e) ↦ rw e (patched_city (patch_name data'.name c))
  ]
    where
      patched_city :
          (named : Result City)
          → Commits (Follows db) (
              named >>= λ c.
              ok (record db { cities = put_city (patch_state data'.state c) db.cities }))
      patched_city (ok c) = Follows-put_city db _ s
      patched_city (raise e) = tt

  new_sources-Fits :
      (db : Db F) (next id : ℕ) (rows : List SourceCreate)
      → HasCity id db
      → all source_create_ok rows ≡ true
      → All (Fits db) (new_sources next id rows)
  unfolding new_sources new_source all
  new_sources-Fits db next id [] home valid = tt
  new_sources-Fits db next id (row ∷ rows) home valid = (
    record { city = home; body = ground arith },
    new_sources-Fits db (suc next) id rows home (ground arith),
  )

  -- the tables with new feeds behind the old ones, and perhaps more cities
  appended-Follows :
      (db : Db F) (cities : List City) (next_city next_source first home : ℕ)
      (rows : List SourceCreate)
      → let housing : Db F = record db { cities = cities } in
        IsSound db
        → ((id : ℕ) → HasCity id db → HasCity id housing)
        → HasCity home housing
        → all source_create_ok rows ≡ true
        → Follows db (record housing {
          sources = db.sources ++ new_sources first home rows;
          next_city = next_city;
          next_source = next_source;
        })
  unfolding get_city_row get_source_row
  appended-Follows db cities next_city next_source first home rows s kept housed valid =
      Follows-places db cities (db.sources ++ new_sources first home rows) next_city next_source s
        kept (λ id. found_in_front (λ (x : Source). x.id == id) db.sources _)
        (All-append _ db.sources _
          (All-weaken _ _ (λ x h. record { city = kept x.city_id h.city; body = h.body }) db.sources
            s.sources)
          (new_sources-Fits _ first home rows housed valid))

  pub create_city-Follows :
      (std : StdLib) (u : Chars) (settings : Settings F) (db : Db F) (data' : CityCreate)
      → IsSound db
      → all source_create_ok data'.sources ≡ true
      → Commits (Follows db) (create_city std u db data' settings)
  unfolding create_city get_city_row
  create_city-Follows std u settings db data' s valid =
      elim (Bool-cases (ltb settings.max_sources_per_city (length data'.sources))) [
        | inl many ↦ rw many tt
        | inr few ↦ elim (Bool-cases (slug_taken db (normalize_slug std u data'.name))) [
          | inl taken ↦ rw (few, taken) tt
          | inr free ↦
              rw (few, free)
                (appended-Follows db _ _ _ db.next_source db.next_city data'.sources s
                  (λ id. found_in_front (λ (c : City). c.id == id) db.cities _)
                  (found_at_end (λ (c : City). c.id == db.next_city) _ db.cities (ground arith))
                  valid)
        ]
      ]

  pub add_source-Follows :
      (settings : Settings F) (db : Db F) (city_id : ℕ) (data' : SourceCreate)
      → IsSound db
      → source_create_ok data' ≡ true
      → Commits (Follows db) (add_source db city_id data' settings)
  unfolding add_source get_city new_sources all
  add_source-Follows settings db city_id data' s valid =
      elim (Option-cases (get_city_row db city_id)) [
        | inl e ↦ rw e tt
        | inr (c, e) ↦
            elim (Bool-cases (leb settings.max_sources_per_city (source_count db city_id))) [
              | inl full ↦ rw (e, full) tt
              | inr room ↦
                  rw (e, room)
                    (appended-Follows db db.cities db.next_city (suc db.next_source) db.next_source
                      c.id (data' ∷ []) s (λ id h. h)
                      (rw (get_city_row-id db city_id c e) (ap is_none e)) (ground arith))
            ]
      ]

  pub archive_source-Follows :
      (db : Db F) (source_id : ℕ) (now : Instant)
      → IsSound db
      → Commits (Follows db) (archive_source db source_id now)
  unfolding archive_source get_source get_source_row
  archive_source-Follows db source_id now s = elim (Option-cases (get_source_row db source_id)) [
    | inl e ↦ rw e tt
    | inr (x, e) ↦
        let fits = All-find? (Fits db) (λ y. y.id == source_id) db.sources x s.sources e in
        let archived = record x { archived_at = some now } in
        rw e (
          Follows-map_sources db (λ y. if y.id == x.id then archived else y) s (λ y. ground arith)
            (λ y h. if-Fits db _ y archived h (record { city = fits.city; body = fits.body })))
  ]

  pub update_source-Follows :
      (db : Db F) (source_id : ℕ) (data' : SourceUpdate)
      → IsSound db
      → source_update_ok data' ≡ true
      → Commits (Follows db) (update_source db source_id data')
  unfolding update_source get_source patch_source
  update_source-Follows db source_id data' s valid =
      elim (Option-cases (get_source_row db source_id)) [
        | inl e ↦ rw e tt
        | inr (x, e) ↦ elim (Bool-cases (has_null data')) [
          | inl null ↦ rw (e, null) tt
          | inr none_null ↦
              rw (e, none_null)
                (Follows-map_sources db (λ y. if y.id == source_id then patch_source data' y else y)
                  s (λ y. ground arith)
                  (λ y h.
                    if-Fits db _ y (patch_source data' y) h
                      (record { city = h.city; body = patched_ok data' y valid h.body })))
        ]
      ]

  pub checked-Follows :
      (db : Db F) (source_id : ℕ) (f : Source → Source)
      → IsSound db
      → ((x : Source) → ((f x).id ≡ x.id) × (Fits db x → Fits db (f x)))
      → Follows db (record db { sources = edit_source source_id f db.sources })
  checked-Follows db source_id f s same =
      Follows-map_sources db (λ y. if y.id == source_id then f y else y) s
        (λ y. ground (arith, (same y).0)) (λ y h. if-Fits db _ y (f y) h ((same y).1 h))
