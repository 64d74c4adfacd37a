-- ===== src/Tick/Outcomes.antt =====
-- The outcomes of a pass over the attempts.
use news2reel.Base.{
  ◌≡◌, refl, Bool, not, none, some, Option, List, [], ◌∷◌, ◌++◌, map, filter, Text, Bool-cases, inl,
  inr, is_none, find?-passes, ==_iff, ◌==◌,
}
use news2reel.Core.Config.{Settings}
use news2reel.Core.Text.{Chars}
use news2reel.Model.{Source, Article, City, Instant}
use news2reel.Net.{FetchResult}
use news2reel.Store.{Db, get_source_row}
use news2reel.Ingest.Urls.{StdLib, is_truthy}
use news2reel.Ingest.Persist.{
  SourceIngestOutcome, Ledger, record_fetch_failure, record_fetch_success, parse_and_persist,
  FeedResult, Ended, returned, raised, inserted,
}
use news2reel.Cities.{body_of}
use news2reel.Tick.{
  FetchAttempt, Fetched, result, error, World, ingested, committed, persist_attempt, tried, parsed,
  checked, read_feed,
}

-- The source of the attempt is stored.
abbrev pub is_stored : {F : Type 0} → Db F → FetchAttempt → Bool
is_stored db attempt = not (is_none (get_source_row db attempt.source_id))

pub found_id :
    {F : Type 0} (db : Db F) (attempt : FetchAttempt) (source : Source)
    → get_source_row db attempt.source_id ≡ some source
    → source.id ≡ attempt.source_id
unfolding get_source_row
found_id db attempt source h =
    (==_iff source.id attempt.source_id).0
      (find?-passes (λ s. s.id == attempt.source_id) db.sources source h)

module _ {F : Type 0} (world : World F) (settings : Settings F) (std : StdLib) (u : Chars) where
  -- The outcome and the row are those of this source, and the row has the attempt's time; its city,
  -- its archive stamp and what an editor sets of it are kept.
  pub record IsAbout (attempt : FetchAttempt) (source : Source)
      (written : SourceIngestOutcome × Source × Ledger F) : Type 0 where
    pub outcome : written.0.source_id ≡ source.id
    pub row : written.1.id ≡ source.id
    pub stamped : written.1.last_fetched_at ≡ some attempt.attempted_at
    pub archived : written.1.archived_at ≡ source.archived_at
    pub city : written.1.city_id ≡ source.city_id
    pub body : body_of written.1 ≡ body_of source

  abbrev EndedAbout : FetchAttempt → Source → Ended F → Type 0
  EndedAbout attempt source (raised exc seen) = Unit
  EndedAbout attempt source (returned written) = IsAbout attempt source written

  inserted-About :
      (attempt : FetchAttempt) (source : Source) (cities : List City) (db_now : Instant)
      (r : FeedResult) (ledger : Ledger F) (c : List (Article F) × List Text × Option Text)
      → EndedAbout attempt source
          (inserted std u source cities db_now r attempt.attempted_at ledger c)
  unfolding record_fetch_success
  inserted-About attempt source cities db_now r ledger (rows, seen, some exc) = tt
  inserted-About attempt source cities db_now r ledger (rows, seen, none) = record {
    outcome = refl;
    row = refl;
    stamped = refl;
    archived = refl;
    city = refl;
    body = refl;
  }

  parsed-About :
      (db : Db F) (attempt : FetchAttempt) (source : Source) (r : FetchResult) (ledger : Ledger F)
      (error : Option Text)
      → EndedAbout attempt source (parsed world settings std u db attempt source r ledger error)
  unfolding record_fetch_failure record_fetch_success parse_and_persist
  parsed-About db attempt source r ledger (some exc) = tt
  parsed-About db attempt source r ledger none = elim (Bool-cases (r.status_code == 304)) [
    | inl same ↦ rw same (record {
      outcome = refl;
      row = refl;
      stamped = refl;
      archived = refl;
      city = refl;
      body = refl;
    })
    | inr other ↦ elim (Bool-cases (is_truthy (world.parse r.content).version)) [
      | inl feed ↦
          rw (other, feed)
            (inserted-About attempt source db.cities (world.db_now attempt)
              (read_feed world settings r) ledger _)
      | inr junk ↦
          rw (other, junk)
            (record {
              outcome = refl;
              row = refl;
              stamped = refl;
              archived = refl;
              city = refl;
              body = refl;
            })
    ]
  ]

  ingested-About :
      (db : Db F) (attempt : FetchAttempt) (source : Source) (fetched : Fetched) (ledger : Ledger F)
      → EndedAbout attempt source (ingested world settings std u db attempt source fetched ledger)
  unfolding record_fetch_failure
  ingested-About db attempt source (error e) ledger = record {
    outcome = refl;
    row = refl;
    stamped = refl;
    archived = refl;
    city = refl;
    body = refl;
  }
  ingested-About db attempt source (result r) ledger =
      parsed-About db attempt source r ledger (world.read_error attempt)

  checked-About :
      (attempt : FetchAttempt) (source : Source) (error : Option Text) (ended : Ended F)
      → EndedAbout attempt source ended
      → EndedAbout attempt source (checked world settings std u attempt error ended)
  checked-About attempt source none ended h = h
  checked-About attempt source (some exc) (returned written) h = tt
  checked-About attempt source (some exc) (raised exc' seen) h = tt

  committed-IsAbout :
      (attempt : FetchAttempt) (source : Source) (ledger : Ledger F) (ended : Ended F)
      → EndedAbout attempt source ended
      → IsAbout attempt source (committed world settings std u attempt source ledger ended)
  unfolding record_fetch_failure
  committed-IsAbout attempt source ledger (returned written) h = h
  committed-IsAbout attempt source ledger (raised exc seen) h = record {
    outcome = refl;
    row = refl;
    stamped = refl;
    archived = refl;
    city = refl;
    body = refl;
  }

  pub persist_attempt-IsAbout :
      (db : Db F) (seen : List Text) (attempt : FetchAttempt) (source : Source)
      → IsAbout attempt source (persist_attempt world settings std u db seen attempt source)
  unfolding persist_attempt
  persist_attempt-IsAbout db seen attempt source =
      let ledger : Ledger F = record { articles = db.articles; seen = seen } in
      committed-IsAbout attempt source ledger (tried world settings std u db seen attempt source) (
        checked-About attempt source (world.db_error attempt) _
          (ingested-About db attempt source attempt.fetched ledger))

  -- The `try` of this attempt was left by an exception, and its handler by this one.
  pub record Broke (attempt : FetchAttempt) (exc : Text) : Type 0 where
    pub at : Db F
    pub seen : List Text
    pub source : Source
    pub first : Text
    pub met : List Text
    pub entered : tried world settings std u at seen attempt source ≡ raised first met
    pub left : world.handler_error attempt ≡ some exc

  -- An initial part of the attempts, whose stored ones are those of the outcomes, in their order. It
  -- is all of them where no exception left, and else the next one's handler was left by it.
  abbrev pub HasOutcomes :
      List FetchAttempt → Db F → List SourceIngestOutcome × Db F × Option Text → Type 0
  HasOutcomes attempts db ended =
      (through rest : List FetchAttempt) × (attempts ≡ through ++ rest)
      × (map (λ o. o.source_id) ended.0 ≡ map (λ a. a.source_id) (filter (is_stored db) through))
      × (ended.2 ≡ none → rest ≡ [])
      × ((exc : Text)
          → ended.2 ≡ some exc
          → (attempt : FetchAttempt) × (later : List FetchAttempt) × (rest ≡ attempt ∷ later)
            × Broke attempt exc)
