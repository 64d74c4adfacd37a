-- ===== src/Tick/Ledgers.antt =====
-- What a pass does to the article table.
use mathlib.Core.List.{append-nil, append_assoc}
use news2reel.Base.{
  ℕ, ◌+◌, refl, ◌∙◌, sym, ap, none, some, Option, List, [], ◌∷◌, ◌++◌, arith, length-append, Text,
  Option-cases, inl, inr,
}
use news2reel.Core.Config.{Settings}
use news2reel.Core.Text.{Chars}
use news2reel.Model.{Article, Source, City, Instant}
use news2reel.Net.{FetchResult}
use news2reel.Store.{Db, get_source_row}
use news2reel.Ingest.Urls.{StdLib}
use news2reel.Ingest.Persist.{
  SourceIngestOutcome, Ledger, record_fetch_failure, Ended, returned, raised,
}
use news2reel.Ingest.Persist.Dedupe.{UniqueIds, Grows, IsCounted, parse_and_persist-ledger}
use news2reel.Tick.Rounds.{persist_from-gone, persist_from-broken, persist_from-found}
use news2reel.Tick.{
  FetchAttempt, Fetched, result, error, World, read_feed, ingested, committed, persist_attempt,
  escaped, parsed, checked, commit, persist_from, persist_attempts,
}

-- `sum(o.new_articles for o in outcomes)`
abbrev pub total_new : List SourceIngestOutcome → ℕ
total_new [] = 0
total_new (o ∷ outcomes) = o.new_articles + total_new outcomes

module _ {F : Type 0} where
  pub Grows-refl : (table : List (Article F)) → Grows table table 0
  Grows-refl table = ([], sym (append-nil table), refl)

  Grows-trans : (a b c : List (Article F)) (m n : ℕ) → Grows a b m → Grows b c n → Grows a c (m + n)
  Grows-trans a b c m n (xs, e, p) (ys, f, q) = (
    xs ++ ys,
    f ∙ ap (λ t. t ++ ys) e ∙ append_assoc a xs ys,
    omega (arith, length-append xs ys, p, q),
  )

module _ {F : Type 0} (world : World F) (settings : Settings F) (std : StdLib) (u : Chars) where
  -- What one attempt writes: no id twice, and as many rows more as it reports.
  abbrev pub KeepsLedger : List (Article F) → SourceIngestOutcome × Source × Ledger F → Type 0
  KeepsLedger table written =
      UniqueIds written.2.articles × Grows table written.2.articles written.0.new_articles

  abbrev KeepsEnded : List (Article F) → Ended F → Type 0
  KeepsEnded table (raised exc seen) = Unit
  KeepsEnded table (returned written) = KeepsLedger table written

  counted-Keeps :
      (table : List (Article F)) (source : Source) (cities : List City) (db_now : Instant)
      (ended : Ended F)
      → IsCounted std u source cities db_now table ended
      → KeepsEnded table ended
  counted-Keeps table source cities db_now (raised exc seen) h = tt
  counted-Keeps table source cities db_now (returned written) h = h

  parsed-Keeps :
      (db : Db F) (attempt : FetchAttempt) (source : Source) (r : FetchResult) (seen : List Text)
      (error : Option Text)
      → UniqueIds db.articles
      → KeepsEnded db.articles (
          parsed world settings std u db attempt source r
            (record { articles = db.articles; seen = seen })
            error)
  parsed-Keeps db attempt source r seen (some exc) h = tt
  parsed-Keeps db attempt source r seen none h =
      counted-Keeps db.articles source db.cities (world.db_now attempt) _ (
        parse_and_persist-ledger std u source db.cities (world.db_now attempt)
          (read_feed world settings r) attempt.attempted_at
          (record { articles = db.articles; seen = seen }) h)

  ingested-Keeps :
      (db : Db F) (attempt : FetchAttempt) (source : Source) (fetched : Fetched) (seen : List Text)
      → UniqueIds db.articles
      → KeepsEnded db.articles (
          ingested world settings std u db attempt source fetched
            (record { articles = db.articles; seen = seen }))
  unfolding record_fetch_failure
  ingested-Keeps db attempt source (error e) seen h = (h, Grows-refl db.articles)
  ingested-Keeps db attempt source (result r) seen h =
      parsed-Keeps db attempt source r seen (world.read_error attempt) h

  checked-Keeps :
      (table : List (Article F)) (attempt : FetchAttempt) (error : Option Text) (ended : Ended F)
      → KeepsEnded table ended
      → KeepsEnded table (checked world settings std u attempt error ended)
  checked-Keeps table attempt none ended k = k
  checked-Keeps table attempt (some exc) (returned written) k = tt
  checked-Keeps table attempt (some exc) (raised exc' seen) k = tt

  committed-KeepsLedger :
      (table : List (Article F)) (seen : List Text) (attempt : FetchAttempt) (source : Source)
      (ended : Ended F)
      → UniqueIds table
      → KeepsEnded table ended
      → KeepsLedger table (
          committed world settings std u attempt source
            (record { articles = table; seen = seen })
            ended)
  unfolding record_fetch_failure
  committed-KeepsLedger table seen attempt source (returned written) h k = k
  committed-KeepsLedger table seen attempt source (raised exc met) h k = (h, Grows-refl table)

  pub persist_attempt-KeepsLedger :
      (db : Db F) (seen : List Text) (attempt : FetchAttempt) (source : Source)
      → UniqueIds db.articles
      → KeepsLedger db.articles (persist_attempt world settings std u db seen attempt source)
  unfolding persist_attempt
  persist_attempt-KeepsLedger db seen attempt source h =
      committed-KeepsLedger db.articles seen attempt source _ h (
        checked-Keeps db.articles attempt (world.db_error attempt) _
          (ingested-Keeps db attempt source attempt.fetched seen h))

  persist_from-ledger :
      (seen : List Text) (attempts : List FetchAttempt) (db : Db F)
      → UniqueIds db.articles
      → UniqueIds (persist_from world settings std u seen attempts db).1.articles
        × Grows db.articles
            (persist_from world settings std u seen attempts db).1.articles
            (total_new (persist_from world settings std u seen attempts db).0)
  unfolding persist_from
  persist_from-ledger seen [] db h = (h, Grows-refl db.articles)
  persist_from-ledger seen (attempt ∷ attempts) db h =
      elim (Option-cases (get_source_row db attempt.source_id)) [
        | inl gone ↦
            rw (persist_from-gone world settings std u seen attempt attempts db gone)
              (persist_from-ledger seen attempts db h)
        | inr (source, found) ↦
            elim (Option-cases (escaped world settings std u db seen attempt source)) [
              | inr (exc, broken) ↦
                  rw
                    (persist_from-broken world settings std u seen attempt attempts db source exc
                      found broken)
                    (h, Grows-refl db.articles)
              | inl whole ↦
                  let written = persist_attempt world settings std u db seen attempt source in
                  let (unique, grows) = persist_attempt-KeepsLedger db seen attempt source h in
                  let (unique', grows') =
                    persist_from-ledger written.2.seen attempts
                      (commit world settings std u db written) unique in
                  rw
                    (persist_from-found world settings std u seen attempt attempts db source found
                      whole)
                    (unique', Grows-trans _ _ _ _ _ grows grows')
            ]
      ]

  -- Whatever the feeds sent, whichever fetches failed, whichever commits the database refused and
  -- whether or not an exception ends the loop: a table that holds no id twice holds none twice
  -- after the attempts are persisted, keeps all its rows in their order, and is longer by exactly
  -- the sum of new articles of the outcomes.
  pub persist_attempts-ledger :
      (attempts : List FetchAttempt) (db : Db F)
      → UniqueIds db.articles
      → UniqueIds (persist_attempts world settings std u attempts db).1.articles
        × Grows db.articles
            (persist_attempts world settings std u attempts db).1.articles
            (total_new (persist_attempts world settings std u attempts db).0)
  unfolding persist_attempts
  persist_attempts-ledger attempts db h = persist_from-ledger [] attempts db h
