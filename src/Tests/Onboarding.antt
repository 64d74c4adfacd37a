-- ===== src/Tests/Onboarding.antt =====
-- Cities and their feeds on concrete rows.
use native.Mathlib.Omega.{arith}
use news2reel.Base.{
  ℕ, ◌≡◌, ◌≢◌, refl, not, true, false, none, some, [], ◌∷◌, map, filter, count, codes, find?,
}
use news2reel.Store.{Db, get_city_row}
use news2reel.Schedule.{due_sources, is_polled, target_of, load_due_targets, load_city_targets}
use news2reel.Cities.{
  ok, new_source, get_city, SourceCreate, of_city, source_count, add_source, archive_city,
  unarchive_city,
}
use news2reel.Cities.Cap.{IsValid}
use news2reel.Cities.Steps.{here, next, added, Steps-IsValid}
use news2reel.Cities.Archive.{source_count-unarchive_city, targets-archive_city}
use news2reel.Tests.Setting.{plain, ascii, defaults}
use news2reel.Tests.Rows.{newsroom, pune, herald, gazette}

abbrev pub observer : SourceCreate
observer = record {
  name = codes "Observer";
  feed_url = codes "https://o/feed";
  language = codes "en";
  publisher_group = codes "observer";
  is_local_outlet = false;
  enabled = true;
  fetch_interval_minutes = 30;
}

pub newsroom-IsValid : IsValid defaults newsroom
unfolding source_count filter
newsroom-IsValid = record {
  capped = λ id. ground arith;
  city_ids = (omega arith, tt);
  source_cities = (omega arith, (omega arith, (omega arith, tt)));
}

abbrev with_observer : Db ℕ
with_observer = record newsroom {
  sources = herald ∷ gazette ∷ record gazette { id = 3 } ∷ new_source 4 1 observer ∷ [];
  next_source = 5;
}

observer_added : add_source newsroom 1 observer defaults ≡ ok with_observer
unfolding add_source get_city get_city_row find? source_count filter
observer_added = refl

Steps-IsValid_example : IsValid defaults with_observer
Steps-IsValid_example =
    Steps-IsValid defaults plain ascii newsroom newsroom-IsValid
      (next here (added 1 observer observer_added))

abbrev revived : Db ℕ
revived = record newsroom {
  sources =
      herald
      ∷ record gazette { archived_at = none }
      ∷ record gazette { id = 3; archived_at = none }
      ∷ [];
}

pune_revived : unarchive_city newsroom 1 ≡ ok revived
unfolding unarchive_city get_city get_city_row find?
pune_revived = refl

source_count-unarchive_city_example :
    (source_count revived 1 ≡ count (of_city 1) newsroom.sources)
    × ((id : ℕ) → 1 ≢ id → source_count revived id ≡ source_count newsroom id)
source_count-unarchive_city_example = source_count-unarchive_city newsroom revived 1 pune_revived

abbrev silenced : Db ℕ
silenced = record newsroom {
  cities = record pune { archived_at = some 50 } ∷ [];
  sources = record herald { archived_at = some 50 } ∷ gazette ∷ record gazette { id = 3 } ∷ [];
}

pune_archived : archive_city newsroom 1 50 ≡ ok silenced
unfolding archive_city get_city get_city_row find?
pune_archived = refl

targets-archive_city_example :
    (load_city_targets silenced 1 ≡ some [])
    × (load_due_targets silenced 60 defaults
        ≡ map target_of (
            filter
              (λ s. not (of_city 1 s))
              (due_sources (filter is_polled newsroom.sources) 60 defaults)))
targets-archive_city_example = targets-archive_city defaults 1 50 60 newsroom silenced pune_archived
