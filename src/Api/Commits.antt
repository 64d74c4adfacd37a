-- ===== src/Api/Commits.antt =====
-- The row that a route reads back behind a commit: the services of `app/services/cities.py` and
-- `app/services/sources.py`.
use news2reel.Base.{
  ltb, leb, length, ℕ, ◌≡◌, refl, ap, ◌∙◌, Bool, true, false, some, List, [], ◌∷◌, ◌++◌, map, arith,
  if◌then◌else◌, ◌==◌, find?, is_none, Option-cases, Bool-cases, inl, inr,
}
use news2reel.Model.{Instant, City, Source}
use news2reel.Store.{Db, get_city_row, get_source_row}
use news2reel.Cities.{
  Result, ok, raise, ◌>>=◌, get_city, get_source, put_city, patch_name, patch_state, slug_taken,
  normalize_slug, source_count, new_source, create_city, update_city, archive_city, unarchive_city,
  add_source, archive_source, CityCreate, CityUpdate, SourceCreate,
}
use news2reel.Core.Config.{Settings}
use news2reel.Core.Text.{Chars}
use news2reel.Ingest.Urls.{StdLib}
use news2reel.Sources.{has_null, SourceUpdate, update_source, patch_source}

-- Where the service commits, the test holds of what it commits.
abbrev pub Commits : {F : Type 0} → (Db F → Type 0) → Result (Db F) → Type 0
Commits P (ok db) = P db
Commits P (raise e) = Unit

-- a table keeps the ids that are found in it
pub kept_by_map :
    {A : Type 0} (id : A → ℕ) (f : A → A) (n : ℕ) (xs : List A)
    → ((a : A) → id (f a) ≡ id a)
    → is_none (find? (λ a. id a == n) (map f xs)) ≡ is_none (find? (λ a. id a == n) xs)
unfolding find?
kept_by_map id f n [] same = refl
kept_by_map id f n (x ∷ xs) same = rw (same x) (ground (arith, kept_by_map id f n xs same))

pub found_at_end :
    {A : Type 0} (p : A → Bool) (x : A) (xs : List A)
    → p x ≡ true
    → is_none (find? p (xs ++ x ∷ [])) ≡ false
unfolding find?
found_at_end p x [] h = ground arith
found_at_end p x (y ∷ xs) h = ground (arith, found_at_end p x xs h)

module _ {F : Type 0} where
  abbrev pub HasCity : ℕ → Db F → Type 0
  HasCity city_id db = is_none (get_city_row db city_id) ≡ false

  abbrev pub HasSource : ℕ → Db F → Type 0
  HasSource source_id db = is_none (get_source_row db source_id) ≡ false

  -- a city that is put back under its id, and a row of a source
  pub put_city-HasCity :
      (db : Db F) (city_id : ℕ) (c : City)
      → HasCity city_id db
      → is_none (find? (λ d. d.id == city_id) (put_city c db.cities)) ≡ false
  unfolding get_city_row
  put_city-HasCity db city_id c h =
      kept_by_map (λ (d : City). d.id) (λ d. if d.id == c.id then c else d) city_id db.cities
        (λ d. ground arith)
      ∙ h

  pub archive_city-HasCity :
      (db : Db F) (city_id : ℕ) (now : Instant)
      → Commits (HasCity city_id) (archive_city db city_id now)
  unfolding archive_city get_city get_city_row
  archive_city-HasCity db city_id now = elim (Option-cases (get_city_row db city_id)) [
    | inl e ↦ rw e tt
    | inr (c, e) ↦ rw e (put_city-HasCity db city_id _ (ap is_none e))
  ]

  pub unarchive_city-HasCity :
      (db : Db F) (city_id : ℕ) → Commits (HasCity city_id) (unarchive_city db city_id)
  unfolding unarchive_city get_city get_city_row
  unarchive_city-HasCity db city_id = elim (Option-cases (get_city_row db city_id)) [
    | inl e ↦ rw e tt
    | inr (c, e) ↦ rw e (put_city-HasCity db city_id _ (ap is_none e))
  ]

  pub update_city-HasCity :
      (db : Db F) (city_id : ℕ) (data' : CityUpdate)
      → Commits (HasCity city_id) (update_city db city_id data')
  unfolding update_city get_city get_city_row
  update_city-HasCity db city_id data' = elim (Option-cases (get_city_row db city_id)) [
    | inl e ↦ rw e tt
    | inr (c, e) ↦ rw e (patched_city (patch_name data'.name c) (ap is_none e))
  ]
    where
      patched_city :
          (named : Result City)
          → HasCity city_id db
          → Commits (HasCity city_id) (
              named >>= λ c.
              ok (record db { cities = put_city (patch_state data'.state c) db.cities }))
      patched_city (ok c) h = put_city-HasCity db city_id _ h
      patched_city (raise e) h = tt

  pub create_city-HasCity :
      (std : StdLib) (u : Chars) (settings : Settings F) (db : Db F) (data' : CityCreate)
      → Commits (HasCity db.next_city) (create_city std u db data' settings)
  unfolding create_city get_city_row
  create_city-HasCity std u settings db data' =
      elim (Bool-cases (ltb settings.max_sources_per_city (length data'.sources))) [
        | inl many ↦ rw many tt
        | inr few ↦ elim (Bool-cases (slug_taken db (normalize_slug std u data'.name))) [
          | inl taken ↦ rw (few, taken) tt
          | inr free ↦
              rw (few, free) (found_at_end (λ c. c.id == db.next_city) _ db.cities (ground arith))
        ]
      ]

  pub add_source-HasSource :
      (settings : Settings F) (db : Db F) (city_id : ℕ) (data' : SourceCreate)
      → Commits (HasSource db.next_source) (add_source db city_id data' settings)
  unfolding add_source get_city get_city_row get_source_row new_source
  add_source-HasSource settings db city_id data' = elim (Option-cases (get_city_row db city_id)) [
    | inl e ↦ rw e tt
    | inr (c, e) ↦ elim (Bool-cases (leb settings.max_sources_per_city (source_count db city_id))) [
      | inl full ↦ rw (e, full) tt
      | inr room ↦
          rw (e, room) (found_at_end (λ s. s.id == db.next_source) _ db.sources (ground arith))
    ]
  ]

  pub archive_source-HasSource :
      (db : Db F) (source_id : ℕ) (now : Instant)
      → Commits (HasSource source_id) (archive_source db source_id now)
  unfolding archive_source get_source get_source_row
  archive_source-HasSource db source_id now = elim (Option-cases (get_source_row db source_id)) [
    | inl e ↦ rw e tt
    | inr (s, e) ↦ rw e (
        kept_by_map (λ (x : Source). x.id)
          (λ x. if x.id == s.id then record s { archived_at = some now } else x) source_id
          db.sources (λ x. ground arith)
        ∙ ap is_none e)
  ]

  pub update_source-HasSource :
      (db : Db F) (source_id : ℕ) (data' : SourceUpdate)
      → Commits (HasSource source_id) (update_source db source_id data')
  unfolding update_source get_source get_source_row patch_source
  update_source-HasSource db source_id data' = elim (Option-cases (get_source_row db source_id)) [
    | inl e ↦ rw e tt
    | inr (s, e) ↦ elim (Bool-cases (has_null data')) [
      | inl null ↦ rw (e, null) tt
      | inr none_null ↦
          rw (e, none_null)
            (kept_by_map (λ (x : Source). x.id)
                (λ x. if x.id == source_id then patch_source data' x else x) source_id db.sources
                (λ x. ground arith)
              ∙ ap is_none e)
    ]
  ]
