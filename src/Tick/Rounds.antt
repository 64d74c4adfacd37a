-- ===== src/Tick/Rounds.antt =====
-- One round of the loop over the attempts.
use news2reel.Base.{◌≡◌, refl, none, Option-cases, inl, inr, [], some, List, ◌∷◌, Text}
use news2reel.Core.Config.{Settings}
use news2reel.Core.Text.{Chars}
use news2reel.Model.{Instant, Source}
use news2reel.Store.{Db, get_source_row}
use news2reel.Ingest.Urls.{StdLib}
use news2reel.Ingest.Persist.{Ended, returned, raised}
use news2reel.Schedule.{FetchTarget, load_due_targets}
use news2reel.Tick.{
  FetchAttempt, World, tried, handled, escaped, persist_attempt, commit, persist_from,
  persist_attempts, fetch_targets, poll, run_tick,
}

module _ {F : Type 0} (world : World F) (settings : Settings F) (std : StdLib) (u : Chars) where
  module _ (seen : List Text) (attempt : FetchAttempt) (attempts : List FetchAttempt)
      (db : Db F) where
    pub persist_from-gone :
        get_source_row db attempt.source_id ≡ none
        → persist_from world settings std u seen (attempt ∷ attempts) db
          ≡ persist_from world settings std u seen attempts db
    unfolding persist_from
    persist_from-gone gone = rw (gone, persist_from)

    pub persist_from-broken :
        (source : Source) (exc : Text)
        → get_source_row db attempt.source_id ≡ some source
        → escaped world settings std u db seen attempt source ≡ some exc
        → persist_from world settings std u seen (attempt ∷ attempts) db ≡ ([], db, some exc)
    unfolding persist_from
    persist_from-broken source exc found broken = rw (found, persist_from) (rw broken refl)

    pub persist_from-found :
        (source : Source)
        → get_source_row db attempt.source_id ≡ some source
        → escaped world settings std u db seen attempt source ≡ none
        → persist_from world settings std u seen (attempt ∷ attempts) db ≡ (
            let written = persist_attempt world settings std u db seen attempt source in
            let rest =
              persist_from world settings std u written.2.seen attempts
                (commit world settings std u db written) in
            (written.0 ∷ rest.0, rest.1, rest.2))
    unfolding persist_from
    persist_from-found source found whole = rw (found, persist_from) (rw whole refl)

  -- Where no handler raises, the loop goes through, and the tick returns.
  module _ (handles : (attempt : FetchAttempt) → world.handler_error attempt ≡ none) where
    handled-none :
        (attempt : FetchAttempt) (ended : Ended F)
        → handled world settings std u attempt ended ≡ none
    handled-none attempt (returned written) = refl
    handled-none attempt (raised exc seen) = handles attempt

    persist_from-returns :
        (seen : List Text) (attempts : List FetchAttempt) (db : Db F)
        → (persist_from world settings std u seen attempts db).2 ≡ none
    unfolding persist_from escaped
    persist_from-returns seen [] db = refl
    persist_from-returns seen (attempt ∷ attempts) db =
        elim (Option-cases (get_source_row db attempt.source_id)) [
          | inl gone ↦
              rw (persist_from-gone seen attempt attempts db gone)
                (persist_from-returns seen attempts db)
          | inr (source, found) ↦
              let written = persist_attempt world settings std u db seen attempt source in
              rw
                (persist_from-found seen attempt attempts db source found
                  (handled-none attempt (tried world settings std u db seen attempt source)))
                (persist_from-returns written.2.seen attempts
                  (commit world settings std u db written))
        ]

    poll-returns :
        (targets : List FetchTarget) (db : Db F) → (poll world settings std u targets db).2 ≡ none
    unfolding persist_attempts
    poll-returns [] db = refl
    poll-returns (t ∷ targets) db =
        persist_from-returns [] (fetch_targets world settings (t ∷ targets)) (world.meanwhile db)

    pub run_tick-returns :
        (now : Instant) (db : Db F) → (run_tick world settings std u now db).2 ≡ none
    unfolding run_tick
    run_tick-returns now db = poll-returns (load_due_targets db now settings) db
