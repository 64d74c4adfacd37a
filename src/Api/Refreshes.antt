-- ===== src/Api/Refreshes.antt =====
-- POST /cities/{city_id}/refresh of `app/api/v1/endpoints/cities.py`: the poll of one city's feeds
-- as a route, with the models it prints from `app/schemas/city.py`.
use news2reel.Base.{
  Text, ℕ, ◌+◌, ◌≡◌, not, Option, none, some, List, [], ◌∷◌, map, codes, length, count, filter,
}
use news2reel.Core.Config.{Settings}
use news2reel.Core.Text.{Chars}
use news2reel.Store.{Db}
use news2reel.Schedule.{FetchTarget}
use news2reel.Ingest.Urls.{StdLib}
use news2reel.Ingest.Persist.Dedupe.{UniqueIds, Grows}
use news2reel.Accounts.{Caller, known, refused}
use news2reel.Tick.{RefreshedSource, World, fetch_targets}
use news2reel.Tick.Refresh.{
  Refresh, refreshed, crashed, city_not_found, refresh_in_progress, refresh_city,
}
use news2reel.Tick.Outcomes.{is_stored}
use news2reel.Api.{Reply, sent, http_error, internal_error}

-- `RefreshedSourceRead(**vars(source))` has the fields of its source.
pub record CityRefreshResult : Type 0 where
  pub city_id : ℕ
  pub sources_polled : ℕ
  pub new_articles : ℕ
  pub failed : ℕ
  pub sources : List RefreshedSource

-- `sum(source.new_articles for source in refreshed)`
abbrev pub sum_new : List RefreshedSource → ℕ
sum_new [] = 0
sum_new (s ∷ sources) = s.new_articles + sum_new sources

unfoldable pub refresh_result : ℕ → List RefreshedSource → CityRefreshResult
refresh_result city_id refreshed_sources = record {
  city_id = city_id;
  sources_polled = length refreshed_sources;
  new_articles = sum_new refreshed_sources;
  failed = count (λ s. not s.ok) refreshed_sources;
  sources = refreshed_sources;
}

abbrev pub refresh_reply : ℕ → Refresh → Reply CityRefreshResult
refresh_reply city_id (refreshed sources) = sent 200 (refresh_result city_id sources)
refresh_reply city_id city_not_found = http_error 404 (codes "city not found")
refresh_reply city_id (crashed exc) = internal_error
refresh_reply city_id refresh_in_progress =
    http_error 409 (codes "a refresh for this city is already running")

module _ {F : Type 0} (world : World F) (settings : Settings F) (std : StdLib) (u : Chars) where
  -- The reply, the set of the cities that are being refreshed, and the database behind it.
  unfoldable pub respond_refresh :
      Caller → List ℕ → ℕ → Db F → Reply CityRefreshResult × List ℕ × Db F
  respond_refresh (refused detail) refreshing city_id db = (http_error 401 detail, refreshing, db)
  respond_refresh (known user) refreshing city_id db =
      let (reply, refreshing', db') = refresh_city world settings std u refreshing city_id db in
      (refresh_reply city_id reply, refreshing', db')

  -- the tables when the fetches are over: other tasks commit only while there is one
  abbrev pub fetched_at : List FetchTarget → Db F → Db F
  fetched_at [] db = db
  fetched_at (t ∷ targets) db = world.meanwhile db

  -- What a result tells of the tables before the first attempt was persisted, and of those behind
  -- the last: one entry per feed that is still stored, in the order of the targets, and the growth
  -- of the article table.
  pub record IsCounted (city_id : ℕ) (targets : List FetchTarget) (before behind : Db F)
      (result : CityRefreshResult) : Type 0 where
    pub city : result.city_id ≡ city_id
    pub polled :
        map (λ s. s.source_id) result.sources
        ≡ map (λ a. a.source_id) (filter (is_stored before) (fetch_targets world settings targets))
    pub sources_polled : result.sources_polled ≡ length result.sources
    pub grows : Grows before.articles behind.articles result.new_articles
    pub unique : UniqueIds behind.articles

  -- What an exception in the middle of the poll leaves: sources are committed one by one, and the
  -- ones in front of it stay.
  pub record IsPartial (before behind : Db F) : Type 0 where
    pub new_articles : ℕ
    pub grows : Grows before.articles behind.articles new_articles
    pub unique : UniqueIds behind.articles

  -- A result counts, a 500 comes of a poll that was started, and anything else leaves the tables.
  abbrev pub IsHonest :
      ℕ → Reply CityRefreshResult → Option (List FetchTarget) → Db F → Db F → Type 0
  IsHonest city_id (sent status result) (some targets) db db' =
      IsCounted city_id targets (fetched_at targets db) db' result
  IsHonest city_id (sent status result) none db db' = ⊥
  IsHonest city_id (http_error status detail) targets db db' = db' ≡ db
  IsHonest city_id internal_error (some targets) db db' = IsPartial (fetched_at targets db) db'
  IsHonest city_id internal_error none db db' = ⊥
