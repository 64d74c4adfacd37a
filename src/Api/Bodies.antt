-- ===== src/Api/Bodies.antt =====
-- The bounds that `app/schemas/city.py` and `app/schemas/source.py` put on a body. A body that
-- breaks one is answered with a 422 before its route runs.
use news2reel.Base.{ℕ, Bool, true, false, ◌&&◌, Option, none, some, [], ◌∷◌, Text, leb, length, all}
use news2reel.Cities.{SourceCreate, CityCreate, Field, unset, sent, CityUpdate}
use news2reel.Sources.{SourceUpdate}

-- `min_length=1`
abbrev pub non_empty : Text → Bool
non_empty [] = false
non_empty (c ∷ s) = true

-- `ge=1, le=10080`
abbrev pub in_week : ℕ → Bool
in_week minutes = leb 1 minutes && leb minutes 10080

-- An optional field is bounded where it is sent, and not null.
abbrev pub where_sent : {A : Type 0} → (A → Bool) → Field (Option A) → Bool
where_sent p unset = true
where_sent p (sent none) = true
where_sent p (sent (some a)) = p a

unfoldable pub source_create_ok : SourceCreate → Bool
source_create_ok data' =
    non_empty data'.name
    && non_empty data'.feed_url
    && non_empty data'.language
    && non_empty data'.publisher_group
    && in_week data'.fetch_interval_minutes

-- `min_length=1, max_length=20` on the list
unfoldable pub city_create_ok : CityCreate → Bool
city_create_ok data' =
    non_empty data'.name
    && leb 1 (length data'.sources)
    && leb (length data'.sources) 20
    && all source_create_ok data'.sources

unfoldable pub city_update_ok : CityUpdate → Bool
city_update_ok data' = where_sent non_empty data'.name

unfoldable pub source_update_ok : SourceUpdate → Bool
source_update_ok data' =
    where_sent non_empty data'.name
    && where_sent non_empty data'.feed_url
    && where_sent non_empty data'.language
    && where_sent non_empty data'.publisher_group
    && where_sent in_week data'.fetch_interval_minutes
