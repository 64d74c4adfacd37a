-- ===== src/Tick.antt =====
-- `app/services/scheduler.py`: one pass of the scheduler, and the forced refresh of a city. Both
-- load targets, fetch them with no session open, and persist the attempts one source at a time.
pub mod Rounds
pub mod Ledgers
pub mod Outcomes
pub mod Polls
pub mod Loop
pub mod Refresh
pub mod Guard
use news2reel.Base.{
  ℕ, Bool, true, false, not, Option, none, some, List, [], ◌∷◌, ◌++◌, map, if◌then◌else◌, ◌==◌,
  Text, codes, any, filter, find?,
}
use news2reel.Core.Config.{Settings}
use news2reel.Core.Text.{Chars}
use news2reel.Model.{Instant, Source}
use news2reel.Store.{Db, get_source_row}
use news2reel.Schedule.{FetchTarget, load_due_targets, load_city_targets}
use news2reel.Ingest.Urls.{StdLib}
use news2reel.Ingest.Persist.{
  Parsed, FeedResult, SourceIngestOutcome, Ledger, record_fetch_failure, parse_and_persist, Ended,
  returned, raised,
}
use news2reel.Cities.{put_source}
use news2reel.Net.{
  Web, FetchResult, FetchError, unsafe_url, too_large, transport, unexpected, Outcome, fetched,
  failed, fetch_url_async,
}

-- The fields `result` and `error` of an attempt: a fetch sets exactly one of them.
pub data Fetched : Type 0 where
  result : FetchResult → Fetched
  error : Text → Fetched

pub record FetchAttempt : Type 0 where
  pub source_id : ℕ
  pub attempted_at : Instant
  pub fetched : Fetched

pub record RefreshedSource : Type 0 where
  pub source_id : ℕ
  pub name : Text
  pub ok : Bool
  pub new_articles : ℕ
  pub not_modified : Bool
  pub error : Option Text

-- What happens around a pass.
pub record World (F : Type 0) : Type 0 where
  -- the network and the clock, as the fetch of a target meets them
  pub web : FetchTarget → Web
  pub clock : FetchTarget → Instant
  -- `feedparser.parse`
  pub parse : List ℕ → Parsed
  -- the start of the transaction that persists an attempt; the exception, if any, in front of the
  -- loop over the entries, of `city_slug_map` or feedparser; the one with which the database
  -- refuses its insert or its commit; and the one with which its handler is left, in the second
  -- get of the source or the second commit
  pub db_now : FetchAttempt → Instant
  pub read_error : FetchAttempt → Option Text
  pub db_error : FetchAttempt → Option Text
  pub handler_error : FetchAttempt → Option Text
  -- what other tasks commit while the fetches run
  pub meanwhile : Db F → Db F

-- `str(exc)`, and the text of the handler of any other exception
abbrev pub error_text : FetchError → Text
error_text (unsafe_url e) = e
error_text (too_large e) = e
error_text (transport e) = e
error_text (unexpected e) = codes "unexpected fetch failure: " ++ e

abbrev pub fetched_of : Outcome → Fetched
fetched_of (fetched r) = result r
fetched_of (failed e) = error (error_text e)

module _ {F : Type 0} (world : World F) (settings : Settings F) where
  unfoldable pub fetch_one : FetchTarget → FetchAttempt
  fetch_one target = record {
    source_id = target.source_id;
    attempted_at = world.clock target;
    fetched = fetched_of (fetch_url_async (world.web target) settings target.feed_url).outcome;
  }

  -- `asyncio.gather` returns the attempts in the order of the targets.
  unfoldable pub fetch_targets : List FetchTarget → List FetchAttempt
  fetch_targets targets = map fetch_one targets

  abbrev pub read_feed : FetchResult → FeedResult
  read_feed r = record {
    status_code = r.status_code;
    headers = r.headers;
    parsed = world.parse r.content;
  }

  module _ (std : StdLib) (u : Chars) where
    abbrev pub parsed :
        Db F → FetchAttempt → Source → FetchResult → Ledger F → Option Text → Ended F
    parsed db attempt source r ledger (some exc) = raised exc ledger.seen
    parsed db attempt source r ledger none =
        parse_and_persist std u source db.cities (world.db_now attempt) (read_feed r)
          attempt.attempted_at ledger

    -- The body of the `try`, before its insert is refused and before the commit.
    abbrev pub ingested : Db F → FetchAttempt → Source → Fetched → Ledger F → Ended F
    ingested db attempt source (error e) ledger =
        let (outcome, source') = record_fetch_failure source e attempt.attempted_at in
        returned (outcome, source', ledger)
    ingested db attempt source (result r) ledger =
        parsed db attempt source r ledger (world.read_error attempt)

    -- The insert or the commit may be refused, behind the loop over the entries.
    abbrev pub checked : FetchAttempt → Option Text → Ended F → Ended F
    checked attempt none ended = ended
    checked attempt (some exc) (returned written) = raised exc written.2.seen
    checked attempt (some exc) (raised exc' seen) = raised exc' seen

    -- The handler: the rollback takes back what the attempt wrote, but not the ids that it met.
    abbrev pub committed :
        FetchAttempt → Source → Ledger F → Ended F → SourceIngestOutcome × Source × Ledger F
    committed attempt source ledger (returned written) = written
    committed attempt source ledger (raised exc seen) =
        let (outcome, source') =
          record_fetch_failure source (codes "persist failed: " ++ exc) attempt.attempted_at in
        (outcome, source', record { articles = ledger.articles; seen = seen })

    -- how the `try` ends, its commit included
    abbrev pub tried : Db F → List Text → FetchAttempt → Source → Ended F
    tried db seen attempt source = checked attempt (world.db_error attempt) (
        ingested db attempt source attempt.fetched (record { articles = db.articles; seen = seen }))

    -- What is committed for an attempt, unless its handler raises.
    unfoldable pub persist_attempt :
        Db F → List Text → FetchAttempt → Source → SourceIngestOutcome × Source × Ledger F
    persist_attempt db seen attempt source =
        committed attempt source (record { articles = db.articles; seen = seen })
          (tried db seen attempt source)

    -- The exception of a handler that was entered.
    abbrev pub handled : FetchAttempt → Ended F → Option Text
    handled attempt (returned written) = none
    handled attempt (raised exc seen) = world.handler_error attempt

    unfoldable pub escaped : Db F → List Text → FetchAttempt → Source → Option Text
    escaped db seen attempt source = handled attempt (tried db seen attempt source)

    abbrev pub commit : Db F → SourceIngestOutcome × Source × Ledger F → Db F
    commit db written = record db {
      sources = put_source written.1 db.sources;
      articles = written.2.articles;
    }

    -- The loop of `persist_attempts`; `seen` is `seen_ids`. The outcomes so far, the database, and the
    -- exception, if any, that ends the loop: what was committed before it stays, and nothing else.
    unfoldable pub persist_from :
        List Text → List FetchAttempt → Db F → List SourceIngestOutcome × Db F × Option Text
    persist_from seen [] db = ([], db, none)
    persist_from seen (attempt ∷ attempts) db = elim (get_source_row db attempt.source_id) [
      | none ↦ persist_from seen attempts db
      | some source ↦ elim (escaped db seen attempt source) [
        | some exc ↦ ([], db, some exc)
        | none ↦
            let written = persist_attempt db seen attempt source in
            let (outcomes, db', broken) =
              persist_from written.2.seen attempts (commit db written) in
            (written.0 ∷ outcomes, db', broken)
      ]
    ]

    unfoldable pub persist_attempts :
        List FetchAttempt → Db F → List SourceIngestOutcome × Db F × Option Text
    persist_attempts attempts db = persist_from [] attempts db

    -- fetch and persist, for targets that were loaded from `db`
    abbrev pub poll : List FetchTarget → Db F → List SourceIngestOutcome × Db F × Option Text
    poll [] db = ([], db, none)
    poll (t ∷ targets) db = persist_attempts (fetch_targets (t ∷ targets)) (world.meanwhile db)

    -- Where the last component is an exception, it leaves the tick, and no outcomes are returned.
    unfoldable pub run_tick : Instant → Db F → List SourceIngestOutcome × Db F × Option Text
    run_tick now db = poll (load_due_targets db now settings) db
