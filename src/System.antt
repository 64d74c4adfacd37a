-- ===== src/System.antt =====
-- The running program as the sequence of the transactions that it commits: the routes over cities
-- and feeds, those over decks, one persisted attempt of a tick or of a refresh, and the verdicts of a
-- pass of the classifier. They interleave in any order. An attempt may have been fetched from a
-- state that is long past, and a pass may have read its batch from one; what they bring is arbitrary
-- here.
pub mod Sound
pub mod Feeds
pub mod Requests
pub mod Articles
pub mod Decks
pub mod DeckRequests
pub mod History
use news2reel.Base.{ℕ, ◌≡◌, some, Option, List, Text, Dict}
use news2reel.Core.Floats.{FloatOps}
use news2reel.Model.{Instant, Source}
use news2reel.Store.{Db, get_source_row}
use news2reel.Stories.{StoryRead}
use news2reel.Accounts.{Caller}
use news2reel.Llm.{TitleClassification}
use news2reel.Classify.{persist_categories}
use news2reel.Deck.{SlideWrite, done}
use news2reel.Deck.Calls.{create_carousel, add_stories, save_carousel, delete_carousel}
use news2reel.Deck.Zip.{Member, Payload, zipped, zip_slides}
use news2reel.Tick.{World, FetchAttempt, persist_attempt, commit}
use news2reel.Api.Routes.{App, Request, respond}
use news2reel.Api.DeckRoutes.{DeckRequest, deck_respond}

module _ {F : Type 0} (fl : FloatOps F) (app : App F) where
  -- What one committed transaction makes of the database.
  pub data Step (db : Db F) : Db F → Type 0 where
    -- a request to the routes over cities and feeds, whatever its answer
    asked :
        (caller : Caller) (now : Instant) (request : Request)
        → Step db (respond app caller now request db).1
    -- a request to the routes over decks
    asked_decks :
        (caller : Caller) (now : Instant) (request : DeckRequest)
        → Step db (deck_respond fl app caller now request db).1
    -- the round of the loop of `persist_attempts` for one attempt; one whose handler is left by an
    -- exception commits nothing, and is no step
    persisted :
        (world : World F) (seen : List Text) (attempt : FetchAttempt) (source : Source)
        → get_source_row db attempt.source_id ≡ some source
        → Step db (
            commit world app.settings app.std app.chars db
              (persist_attempt world app.settings app.std app.chars db seen attempt source))
    -- the second transaction of a pass
    judged :
        (assigned : Dict Text (TitleClassification F)) (attempted_ids : List Text)
        → Step db (persist_categories fl assigned attempted_ids db).0

  pub data Steps (db : Db F) : Db F → Type 0 where
    here : Steps db db
    next : {db' db'' : Db F} → Steps db db' → Step db' db'' → Steps db db''
