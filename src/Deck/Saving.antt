-- ===== src/Deck/Saving.antt =====
-- The autosave, from the call to the next read.
use news2reel.Base.{◌≡◌, true, some, Text}
use news2reel.Store.{Db}
use news2reel.Ingest.Persist.{has_id}
use news2reel.Deck.{SlideWrite}
use news2reel.Deck.Calls.{named_id}

-- A slide that names a story names one that is stored.
abbrev pub NamesKnown : {F : Type 0} → Db F → SlideWrite → Type 0
NamesKnown db slide = (id : Text) → named_id slide ≡ some id → has_id id db.articles ≡ true
