-- ===== src/Sources/Cap.antt =====
-- A PATCH of a feed and the cap of its city.
use news2reel.Base.{
  ℕ, ◌<◌, ◌≡◌, refl, inl, inr, List, [], ◌∷◌, arith, ◌==◌, All, count, Bool-cases, Option-cases,
}
use news2reel.Core.Config.{Settings}
use news2reel.Model.{Source}
use news2reel.Store.{Db, get_source_row}
use news2reel.Cities.{is_live, get_source}
use news2reel.Cities.Cap.{IsValid, Keeps, from_counts, counts}
use news2reel.Sources.{SourceUpdate, has_null, patch_source, edit_source, update_source}

count-edit :
    (id source_id : ℕ) (data' : SourceUpdate) (sources : List Source)
    → count (is_live id) (edit_source source_id (patch_source data') sources)
      ≡ count (is_live id) sources
unfolding count patch_source
count-edit id source_id data' [] = refl
count-edit id source_id data' (s ∷ sources) = ground (arith, count-edit id source_id data' sources)

All-edit :
    (n source_id : ℕ) (data' : SourceUpdate) (sources : List Source)
    → All (λ s. s.city_id < n) sources
    → All (λ s. s.city_id < n) (edit_source source_id (patch_source data') sources)
unfolding patch_source
All-edit n source_id data' [] h = tt
All-edit n source_id data' (s ∷ sources) h = (
  elim (Bool-cases (s.id == source_id)) [ inl e ↦ rw e h.0 | inr e ↦ rw e h.0 ],
  All-edit n source_id data' sources h.1,
)

module _ {F : Type 0} (settings : Settings F) where
  patched-IsValid :
      (db : Db F) (source_id : ℕ) (data' : SourceUpdate)
      → IsValid settings db
      → IsValid settings
          (record db { sources = edit_source source_id (patch_source data') db.sources })
  patched-IsValid db source_id data' v =
      from_counts settings
        (record db { sources = edit_source source_id (patch_source data') db.sources })
        (λ id. omega (arith, count-edit id source_id data' db.sources, counts settings db v id))
        v.city_ids (All-edit db.next_city source_id data' db.sources v.source_cities)

  -- a PATCH moves no feed to another city and revives none
  pub update_source-Keeps :
      (db : Db F) (source_id : ℕ) (data' : SourceUpdate)
      → IsValid settings db
      → Keeps settings (update_source db source_id data')
  unfolding update_source get_source
  update_source-Keeps db source_id data' v = elim (Option-cases (get_source_row db source_id)) [
    | inl e ↦ rw (e, update_source, get_source) tt
    | inr (source, e) ↦ elim (Bool-cases (has_null data')) [
      | inl null ↦ rw (e, update_source, get_source) (rw null tt)
      | inr fine ↦
          rw (e, update_source, get_source) (rw fine (patched-IsValid db source_id data' v))
    ]
  ]
