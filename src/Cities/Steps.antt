-- ===== src/Cities/Steps.antt =====
-- The cap over any sequence of operations but `unarchive_city`.
use mathlib.Core.Path.{subst}
use news2reel.Base.{ℕ, ◌≡◌}
use news2reel.Core.Config.{Settings}
use news2reel.Core.Text.{Chars}
use news2reel.Model.{Instant}
use news2reel.Store.{Db}
use news2reel.Ingest.Urls.{StdLib}
use news2reel.Cities.{
  ok, SourceCreate, CityCreate, CityUpdate, update_city, archive_city, add_source, archive_source,
  create_city,
}
use news2reel.Sources.{SourceUpdate, update_source}
use news2reel.Sources.Cap.{update_source-Keeps}
use news2reel.Cities.Cap.{
  IsValid, Keeps, create_city-Keeps, update_city-Keeps, archive_city-Keeps, add_source-Keeps,
  archive_source-Keeps,
}

module _ {F : Type 0} (settings : Settings F) where
  -- One committed call of an operation other than `unarchive_city`.
  pub data Step (std : StdLib) (u : Chars) (db db' : Db F) : Type 0 where
    created :
        (data' : CityCreate) → create_city std u db data' settings ≡ ok db' → Step std u db db'
    updated :
        (city_id : ℕ) (data' : CityUpdate)
        → update_city db city_id data' ≡ ok db'
        → Step std u db db'
    archived :
        (city_id : ℕ) (now : Instant) → archive_city db city_id now ≡ ok db' → Step std u db db'
    added :
        (city_id : ℕ) (row : SourceCreate)
        → add_source db city_id row settings ≡ ok db'
        → Step std u db db'
    source_archived :
        (source_id : ℕ) (now : Instant)
        → archive_source db source_id now ≡ ok db'
        → Step std u db db'
    source_updated :
        (source_id : ℕ) (data' : SourceUpdate)
        → update_source db source_id data' ≡ ok db'
        → Step std u db db'

  pub data Steps (std : StdLib) (u : Chars) (db : Db F) : Db F → Type 0 where
    here : Steps std u db db
    next : {db' db'' : Db F} → Steps std u db db' → Step std u db' db'' → Steps std u db db''

  Step-IsValid :
      (std : StdLib) (u : Chars) (db db' : Db F)
      → Step std u db db'
      → IsValid settings db
      → IsValid settings db'
  Step-IsValid std u db db' (created data' e) v =
      subst (Keeps settings) e (create_city-Keeps settings std u db data' v)
  Step-IsValid std u db db' (updated city_id data' e) v =
      subst (Keeps settings) e (update_city-Keeps settings db city_id data' v)
  Step-IsValid std u db db' (archived city_id now e) v =
      subst (Keeps settings) e (archive_city-Keeps settings db city_id now v)
  Step-IsValid std u db db' (added city_id row e) v =
      subst (Keeps settings) e (add_source-Keeps settings db city_id row v)
  Step-IsValid std u db db' (source_archived source_id now e) v =
      subst (Keeps settings) e (archive_source-Keeps settings db source_id now v)
  Step-IsValid std u db db' (source_updated source_id data' e) v =
      subst (Keeps settings) e (update_source-Keeps settings db source_id data' v)

  -- From a valid database, however cities and feeds are created, added, patched and archived,
  -- the database stays valid: no city has more live feeds than the cap, and every city id comes
  -- from its sequence. Unarchiving a city is not among the steps.
  pub Steps-IsValid :
      (std : StdLib) (u : Chars) (db : Db F) {db' : Db F}
      → IsValid settings db
      → Steps std u db db'
      → IsValid settings db'
  Steps-IsValid std u db v here = v
  Steps-IsValid std u db v (next {db'} {db''} steps step) =
      Step-IsValid std u db' db'' step (Steps-IsValid std u db v steps)
