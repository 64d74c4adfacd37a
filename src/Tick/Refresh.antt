-- ===== src/Tick/Refresh.antt =====
-- `refresh_city` of `app/services/scheduler.py`, and the set `_refreshing` of the cities with a
-- refresh in flight.
use news2reel.Base.{
  ℕ, Bool, not, Option, none, some, List, ◌∷◌, map, if◌then◌else◌, ◌==◌, Text, codes, any, filter,
}
use news2reel.Core.Config.{Settings}
use news2reel.Core.Text.{Chars}
use news2reel.Store.{Db, get_source_row}
use news2reel.Schedule.{FetchTarget, load_city_targets}
use news2reel.Ingest.Urls.{StdLib}
use news2reel.Ingest.Persist.{SourceIngestOutcome}
use news2reel.Tick.{RefreshedSource, World, poll}

pub data Refresh : Type 0 where
  refreshed : List RefreshedSource → Refresh
  city_not_found refresh_in_progress : Refresh
  -- an exception that leaves the poll, by its text
  crashed : Text → Refresh

-- `city_id in _refreshing`, and `_refreshing.discard(city_id)`
abbrev pub is_refreshing : ℕ → List ℕ → Bool
is_refreshing city_id refreshing = any (λ c. c == city_id) refreshing

abbrev pub discard : ℕ → List ℕ → List ℕ
discard city_id refreshing = filter (λ c. not (c == city_id)) refreshing

-- `names.get(outcome.source_id, "unknown source")`
abbrev pub source_name : {F : Type 0} → Db F → ℕ → Text
source_name db source_id = elim (get_source_row db source_id) [
  | none ↦ codes "unknown source"
  | some source ↦ source.name
]

unfoldable pub refreshed_source : {F : Type 0} → Db F → SourceIngestOutcome → RefreshedSource
refreshed_source db outcome = record {
  source_id = outcome.source_id;
  name = source_name db outcome.source_id;
  ok = outcome.ok;
  new_articles = outcome.new_articles;
  not_modified = outcome.not_modified;
  error = outcome.error;
}

abbrev pub refresh_outcome : {F : Type 0} → Db F → List SourceIngestOutcome → Option Text → Refresh
refresh_outcome db outcomes none = refreshed (map (refreshed_source db) outcomes)
refresh_outcome db outcomes (some exc) = crashed exc

module _ {F : Type 0} (world : World F) (settings : Settings F) (std : StdLib) (u : Chars) where
  -- The body of the `try`.
  abbrev pub refresh_body : Db F → Option (List FetchTarget) → Refresh × Db F
  refresh_body db none = (city_not_found, db)
  refresh_body db (some targets) =
      let (outcomes, db', broken) = poll world settings std u targets db in
      (refresh_outcome db' outcomes broken, db')

  -- The reply, the set and the database afterwards; `finally` discards the city on every path.
  unfoldable pub refresh_city : List ℕ → ℕ → Db F → Refresh × List ℕ × Db F
  refresh_city refreshing city_id db =
      if is_refreshing city_id refreshing
      then (refresh_in_progress, refreshing, db)
      else (let (reply, db') = refresh_body db (load_city_targets db city_id) in
          (reply, discard city_id (city_id ∷ refreshing), db'))
