-- ===== src/Cities/Counts.antt =====
-- How the operations on cities and sources change the number of a city's live feeds.
use news2reel.Base.{
  ℕ, suc, ◌≤◌, ◌<◌, ◌≡◌, refl, some, List, [], ◌∷◌, map, arith, if◌then◌else◌, ◌==◌, All, count,
  length, length-filter, find?-passes, ==_iff,
}
use news2reel.Model.{Instant, City, Source}
use news2reel.Store.{Db, get_city_row}
use news2reel.Cities.{
  SourceCreate, is_live, of_city, new_source, new_sources, archive_of_city, revive_of_city,
  put_source, source_count,
}

pub count-new_sources :
    (id next city_id : ℕ) (rows : List SourceCreate)
    → count (is_live id) (new_sources next city_id rows)
      ≡ (if city_id == id then length rows else 0)
unfolding count new_sources new_source
count-new_sources id next city_id [] = ground arith
count-new_sources id next city_id (row ∷ rows) =
    ground (arith, count-new_sources id (suc next) city_id rows)

pub count-archive :
    (id city_id : ℕ) (now : Instant) (sources : List Source)
    → count (is_live id) (map (archive_of_city city_id now) sources)
      ≡ (if city_id == id then 0 else count (is_live id) sources)
unfolding count
count-archive id city_id now [] = ground arith
count-archive id city_id now (s ∷ sources) = ground (arith, count-archive id city_id now sources)

pub count-revive :
    (id city_id : ℕ) (sources : List Source)
    → count (is_live id) (map (revive_of_city city_id) sources)
      ≡ (if city_id == id then count (of_city id) sources else count (is_live id) sources)
unfolding count
count-revive id city_id [] = ground arith
count-revive id city_id (s ∷ sources) = ground (arith, count-revive id city_id sources)

pub count-put_archived :
    (id : ℕ) (source : Source) (now : Instant) (sources : List Source)
    → count (is_live id) (put_source (record source { archived_at = some now }) sources)
      ≤ count (is_live id) sources
unfolding count
count-put_archived id source now [] = omega arith
count-put_archived id source now (s ∷ sources) =
    ground (arith, count-put_archived id source now sources)

-- no live feed has the id of a city that is still to come
pub count-below :
    (id : ℕ) (sources : List Source)
    → All (λ s. s.city_id < id) sources
    → count (is_live id) sources ≡ 0
unfolding count
count-below id [] h = refl
count-below id (s ∷ sources) h = ground (arith, count-below id sources h.1)

pub new_sources-below :
    (next city_id : ℕ) (rows : List SourceCreate)
    → All (λ s. s.city_id < suc city_id) (new_sources next city_id rows)
unfolding new_sources new_source
new_sources-below next city_id [] = tt
new_sources-below next city_id (row ∷ rows) =
    (omega arith, new_sources-below (suc next) city_id rows)

module _ {F : Type 0} where
  pub source_count-count : (db : Db F) (id : ℕ) → source_count db id ≡ count (is_live id) db.sources
  unfolding source_count
  source_count-count db id = length-filter (is_live id) db.sources

  pub get_city_row-id :
      (db : Db F) (city_id : ℕ) (c : City) → get_city_row db city_id ≡ some c → c.id ≡ city_id
  unfolding get_city_row
  get_city_row-id db city_id c e =
      (==_iff c.id city_id).0 (find?-passes (λ d. d.id == city_id) db.cities c e)
