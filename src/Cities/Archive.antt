-- ===== src/Cities/Archive.antt =====
-- What archiving a city does to the polling of its feeds, and what bringing it back undoes.
use news2reel.Base.{
  find?, find?-passes, ==_iff, ℕ, ◌≡◌, refl, not, ◌&&◌, some, List, [], ◌∷◌, map, arith, ◌==◌,
  count, filter, inl, inr, find?-passes, ==_iff, ◌≢◌, Option-cases,
}
use news2reel.Core.Config.{Settings}
use news2reel.Model.{Instant, City, Source}
use news2reel.Store.{Db, get_city_row}
use news2reel.Cities.{
  ok, of_city, archive_of_city, revive_of_city, put_city, source_count, get_city, archive_city,
  unarchive_city,
}
use news2reel.Cities.Counts.{count-revive, source_count-count}
use news2reel.Schedule.{
  load_due_targets, load_city_targets, due_sources, is_due, is_polled, target_of,
}

unarchive_city-sources :
    {F : Type 0} (db db' : Db F) (city_id : ℕ)
    → unarchive_city db city_id ≡ ok db'
    → db'.sources ≡ map (revive_of_city city_id) db.sources
unfolding unarchive_city get_city
unarchive_city-sources db db' city_id h = elim (Option-cases (get_city_row db city_id)) [
  | inl e ↦ absurd (ground arith)
  | inr (c, e) ↦ ground arith
]

-- Bringing a city back revives every feed it ever had, those archived by hand too: its live count
-- is the number of all its feeds, so a city that has had more feeds than the cap is over it
-- afterwards; no other city's count changes.
pub source_count-unarchive_city :
    {F : Type 0} (db db' : Db F) (city_id : ℕ)
    → unarchive_city db city_id ≡ ok db'
    → (source_count db' city_id ≡ count (of_city city_id) db.sources)
      × ((id : ℕ) → city_id ≢ id → source_count db' id ≡ source_count db id)
source_count-unarchive_city db db' city_id h =
    let revived = unarchive_city-sources db db' city_id h in
    (
      rw (source_count-count db' city_id, revived, count-revive city_id city_id db.sources)
          (ground arith),
      λ id other.
          rw
            (
              source_count-count db' id,
              source_count-count db id,
              revived,
              count-revive id city_id db.sources,
            )
            (ground arith),
    )

find?-put_city :
    (city_id : ℕ) (city c : City) (cities : List City)
    → city.id ≡ city_id
    → find? (λ d. d.id == city_id) cities ≡ some c
    → find? (λ d. d.id == city_id) (put_city city cities) ≡ some city
unfolding find?
find?-put_city city_id city c [] e h = absurd (ground arith)
find?-put_city city_id city c (d ∷ cities) e h =
    ground (arith, find?-put_city city_id city c cities e)

none_polled :
    (city_id : ℕ) (now : Instant) (sources : List Source)
    → filter
        (λ s. (s.city_id == city_id) && is_polled s)
        (map (archive_of_city city_id now) sources)
      ≡ []
unfolding filter
none_polled city_id now [] = refl
none_polled city_id now (s ∷ sources) = ground (arith, none_polled city_id now sources)

archive_city-tables :
    {F : Type 0} (db db' : Db F) (city_id : ℕ) (now : Instant)
    → archive_city db city_id now ≡ ok db'
    → (db'.sources ≡ map (archive_of_city city_id now) db.sources)
      × ((city : City) × (get_city_row db' city_id ≡ some city))
unfolding archive_city get_city get_city_row
archive_city-tables db db' city_id now h =
    elim (Option-cases (find? (λ d. d.id == city_id) db.cities)) [
      | inl e ↦ absurd (ground arith)
      | inr (c, e) ↦
          let city = record c { archived_at = some now } in
          let cities : db'.cities ≡ put_city city db.cities = ground arith in
          let same = (==_iff c.id city_id).0 (find?-passes (λ d. d.id == city_id) db.cities c e) in
          (ground arith, (city, rw cities (find?-put_city city_id city c db.cities same e)))
    ]

module _ {F : Type 0} (settings : Settings F) (city_id : ℕ) (now t : Instant) where
  -- one feed before and after the cascade, as the scheduler sees it
  others_due :
      (sources : List Source)
      → filter
          (λ s. is_due s t settings)
          (filter is_polled (map (archive_of_city city_id now) sources))
        ≡ filter
            (λ s. not (of_city city_id s))
            (filter (λ s. is_due s t settings) (filter is_polled sources))
  unfolding filter
  others_due [] = refl
  others_due (s ∷ sources) = ground (arith, others_due sources)

  -- After a city is archived it is not polled: a forced refresh has no target among its feeds,
  -- and the scheduler has the targets that it would have had before, without that city's.
  pub targets-archive_city :
      (db db' : Db F)
      → archive_city db city_id now ≡ ok db'
      → (load_city_targets db' city_id ≡ some [])
        × (load_due_targets db' t settings
            ≡ map target_of (
                filter
                  (λ s. not (of_city city_id s))
                  (due_sources (filter is_polled db.sources) t settings)))
  unfolding load_due_targets load_city_targets due_sources
  targets-archive_city db db' h =
      let (sources, (city, found)) = archive_city-tables db db' city_id now h in
      (
        rw (found, load_city_targets, sources, none_polled city_id now db.sources) refl,
        rw (sources, others_due db.sources) refl,
      )
