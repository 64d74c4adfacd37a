-- ===== src/Schedule.antt =====
-- `app/services/scheduler.py`: when a source is due, and the targets of a tick and of a refresh.
pub mod Backoff
use news2reel.Base.{
  ℕ, zero, suc, ◌+◌, ◌*◌, ◌^◌, min, max, Bool, true, false, not, ◌&&◌, Option, none, some, List, [],
  ◌∷◌, ◌++◌, map, filter, Text, codes, if◌then◌else◌, ◌==◌, leb, is_none, or_else,
}
use news2reel.Core.Config.{Settings}
use news2reel.Model.{Instant, seconds, Source, City}
use news2reel.Store.{Db, get_city_row}

-- the names of the two request headers
pub data Header : Type 0 where
  if_none_match if_modified_since : Header

pub record FetchTarget : Type 0 where
  pub source_id : ℕ
  pub feed_url : Text
  pub conditional_headers : List (Header × Text)

abbrev pub max_backoff_exponent : ℕ
max_backoff_exponent = 32

-- `if source.etag:`: neither NULL nor the empty string
abbrev pub header_of : Header → Option Text → List (Header × Text)
header_of h none = []
header_of h (some []) = []
header_of h (some (c ∷ s)) = (h, c ∷ s) ∷ []

-- `build_conditional_headers` of `app/services/ingest.py`
unfoldable pub build_conditional_headers : Source → List (Header × Text)
build_conditional_headers source =
    header_of if_none_match source.etag ++ header_of if_modified_since source.last_modified

unfoldable pub target_of : Source → FetchTarget
target_of source = record {
  source_id = source.id;
  feed_url = source.feed_url;
  conditional_headers = build_conditional_headers source;
}

-- `max(source.fetch_interval_minutes * 60, source.cache_max_age_seconds or 0)`
unfoldable pub base_interval : Source → ℕ
base_interval source =
    max (source.fetch_interval_minutes * 60) (or_else source.cache_max_age_seconds 0)

-- The comparison with `due_at`, where the source was fetched before.
abbrev pub due_after : Option Instant → ℕ → Instant → Bool
due_after none interval now = true
due_after (some last) interval now = leb (last + seconds interval) now

-- `enabled` and not archived
abbrev pub is_polled : Source → Bool
is_polled source = source.enabled && is_none source.archived_at

module _ {F : Type 0} where
  -- The branch on `consecutive_failures`, for the interval `base`.
  unfoldable pub backed_off_interval : Settings F → ℕ → ℕ → ℕ
  backed_off_interval settings base zero = base
  backed_off_interval settings base (suc n) =
      let exponent = min (suc n) max_backoff_exponent in
      let backed_off = base * 2 ^ exponent in
      max base (min backed_off settings.scheduler_max_backoff_seconds)

  unfoldable pub effective_interval_seconds : Source → Settings F → ℕ
  effective_interval_seconds source settings =
      backed_off_interval settings (base_interval source) source.consecutive_failures

  unfoldable pub is_due : Source → Instant → Settings F → Bool
  is_due source now settings =
      due_after source.last_fetched_at (effective_interval_seconds source settings) now

  unfoldable pub due_sources : List Source → Instant → Settings F → List Source
  due_sources sources now settings = filter (λ source. is_due source now settings) sources

  unfoldable pub load_due_targets : Db F → Instant → Settings F → List FetchTarget
  load_due_targets db now settings =
      map target_of (due_sources (filter is_polled db.sources) now settings)

  -- `none` is `CityNotFoundError`.
  unfoldable pub load_city_targets : Db F → ℕ → Option (List FetchTarget)
  load_city_targets db city_id = elim (get_city_row db city_id) [
    | none ↦ none
    | some _ ↦ some (map target_of (filter (λ s. (s.city_id == city_id) && is_polled s) db.sources))
  ]
