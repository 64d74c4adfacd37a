-- ===== src/Tick/Guard.antt =====
-- The guard of a refresh, and the set of the cities that are being refreshed.
use news2reel.Base.{
  ℕ, ◌≡◌, ◌≢◌, refl, true, false, List, [], ◌∷◌, arith, any, filter, Bool-cases, inl, Text, inr,
  Option, none, some,
}
use news2reel.Core.Config.{Settings}
use news2reel.Core.Text.{Chars}
use news2reel.Store.{Db}
use news2reel.Schedule.{FetchTarget, load_city_targets}
use news2reel.Ingest.Urls.{StdLib}
use news2reel.Ingest.Persist.{SourceIngestOutcome}
use news2reel.Tick.{World}
use news2reel.Tick.Refresh.{
  refresh_in_progress, is_refreshing, discard, refresh_body, refresh_city, refresh_outcome,
}

discard_absent :
    (c : ℕ) (cities : List ℕ) → is_refreshing c cities ≡ false → discard c cities ≡ cities
unfolding any filter
discard_absent c [] h = refl
discard_absent c (d ∷ cities) h = ground (arith, discard_absent c cities)

discard_first :
    (c : ℕ) (cities : List ℕ) → is_refreshing c cities ≡ false → discard c (c ∷ cities) ≡ cities
unfolding filter
discard_first c cities h = ground (arith, discard_absent c cities)

module _ {F : Type 0} (world : World F) (settings : Settings F) (std : StdLib) (u : Chars) where
  outcome-ne-refused :
      (db : Db F) (outcomes : List SourceIngestOutcome) (broken : Option Text)
      → refresh_outcome db outcomes broken ≢ refresh_in_progress
  outcome-ne-refused db outcomes none = λ e. cc
  outcome-ne-refused db outcomes (some exc) = λ e. cc

  body-ne-refused :
      (db : Db F) (targets : Option (List FetchTarget))
      → (refresh_body world settings std u db targets).0 ≢ refresh_in_progress
  body-ne-refused db none = λ e. cc
  body-ne-refused db (some targets) = outcome-ne-refused _ _ _

  -- A refresh of a city that is being refreshed is refused and changes nothing. Any other runs, and
  -- is not refused; and however it ends, the set is afterwards what it was before.
  pub refresh_city_lem :
      (refreshing : List ℕ) (city_id : ℕ) (db : Db F)
      → (is_refreshing city_id refreshing ≡ true
          → refresh_city world settings std u refreshing city_id db
            ≡ (refresh_in_progress, refreshing, db))
        × (is_refreshing city_id refreshing ≡ false
            → (refresh_city world settings std u refreshing city_id db).0 ≢ refresh_in_progress)
        × ((refresh_city world settings std u refreshing city_id db).1 ≡ refreshing)
  unfolding refresh_city
  refresh_city_lem refreshing city_id db = elim (Bool-cases (is_refreshing city_id refreshing)) [
    | inl busy ↦ rw busy (λ _. refl, λ e. cc, refl)
    | inr free ↦ rw free (
      λ e. cc,
      λ _. body-ne-refused db (load_city_targets db city_id),
      discard_first city_id refreshing free,
    )
  ]
