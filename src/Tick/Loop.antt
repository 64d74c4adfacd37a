-- ===== src/Tick/Loop.antt =====
-- `scheduler_loop` of `app/services/scheduler.py`.
use news2reel.Base.{
  refl, ◌∙◌, Text, Text, ℕ, not, Option, none, some, List, [], ◌∷◌, ◌++◌, ◌≡◌, All, length, count,
  take,
}
use news2reel.Core.Config.{Settings}
use news2reel.Core.Text.{Chars}
use news2reel.Model.{Instant}
use news2reel.Store.{Db}
use news2reel.Schedule.{FetchTarget, load_due_targets}
use news2reel.Ingest.Urls.{StdLib}
use news2reel.Ingest.Persist.{SourceIngestOutcome}
use news2reel.Loops.{
  Round, passed, raised, cancelled, loop, continue, after, Awake, IsAwake, loop-continues,
}
use news2reel.Tick.{World, fetch_targets, persist_attempts, run_tick}
use news2reel.Tick.Ledgers.{total_new}

-- The lines of the log, the numbers of a tick with them.
pub data Entry : Type 0 where
  started tick_failed stopped : Entry
  tick_complete : (sources_polled new_articles not_modified failed : ℕ) → Entry

-- How a round of the loop goes: the tick runs to its end, or to the exception of a handler; any
-- other exception leaves it when some of its attempts are committed; the task is cancelled in the tick, or in the sleep behind it.
pub data Wake (F : Type 0) : Type 0 where
  ticks : World F → Instant → Wake F
  breaks : World F → Instant → ℕ → Wake F
  stops : World F → Instant → ℕ → Wake F
  sleeps : Wake F

-- `if outcomes:`
abbrev pub entry_of : List SourceIngestOutcome → Option Entry
entry_of [] = none
entry_of (o ∷ outcomes) = some (
    tick_complete (length (o ∷ outcomes)) (total_new (o ∷ outcomes))
      (count (λ o. o.not_modified) (o ∷ outcomes)) (count (λ o. not o.ok) (o ∷ outcomes)))

module _ {F : Type 0} (settings : Settings F) (std : StdLib) (u : Chars) where
  -- a poll that ends behind the first attempts
  abbrev pub poll_part : World F → ℕ → List FetchTarget → Db F → Db F
  poll_part world n [] db = db
  poll_part world n (t ∷ targets) db =
      (persist_attempts world settings std u (take n (fetch_targets world settings (t ∷ targets)))
        (world.meanwhile db)).1

  abbrev pub tick_part : World F → Instant → ℕ → Db F → Db F
  tick_part world now n db = poll_part world n (load_due_targets db now settings) db

  abbrev pub tick_end : List SourceIngestOutcome × Db F × Option Text → Round (Db F) Entry
  tick_end (outcomes, db, none) = passed db (entry_of outcomes)
  tick_end (outcomes, db, some exc) = raised db

  abbrev pub tick_round : Wake F → Db F → Round (Db F) Entry
  tick_round (ticks world now) db = tick_end (run_tick world settings std u now db)
  tick_round (breaks world now n) db = raised (tick_part world now n db)
  tick_round (stops world now n) db = cancelled (tick_part world now n db)
  tick_round sleeps db = cancelled db

  unfoldable pub scheduler_loop : List (Wake F) → Db F → List Entry × Db F
  scheduler_loop wakes db =
      let (log, db') = loop tick_round tick_failed stopped wakes db in (started ∷ log, db')

  -- The round is not cancelled.
  abbrev pub IsRunning : Wake F → Type 0
  IsRunning (ticks world now) = Unit
  IsRunning (breaks world now n) = Unit
  IsRunning (stops world now n) = ⊥
  IsRunning sleeps = ⊥

  tick_end-IsAwake :
      (ended : List SourceIngestOutcome × Db F × Option Text)
      → IsAwake tick_round tick_failed stopped (tick_end ended)
  tick_end-IsAwake (outcomes, db, none) = tt
  tick_end-IsAwake (outcomes, db, some exc) = tt

  tick_end-last :
      (ended : List SourceIngestOutcome × Db F × Option Text)
      → (continue tick_round tick_failed stopped
          (tick_end ended)
          (loop tick_round tick_failed stopped [])).1
        ≡ ended.1
  unfolding loop
  tick_end-last (outcomes, db, none) = refl
  tick_end-last (outcomes, db, some exc) = refl

  sleeps-last : (db : Db F) → (loop tick_round tick_failed stopped (sleeps ∷ []) db).1 ≡ db
  unfolding loop
  sleeps-last db = refl

  ticks-last :
      (world : World F) (now : Instant) (db : Db F)
      → (loop tick_round tick_failed stopped (ticks world now ∷ []) db).1
        ≡ (run_tick world settings std u now db).1
  unfolding loop
  ticks-last world now db = tick_end-last (run_tick world settings std u now db)

  running-Awake :
      (wakes : List (Wake F)) → All IsRunning wakes → Awake tick_round tick_failed stopped wakes
  running-Awake [] h = tt
  running-Awake (ticks world now ∷ wakes) h = (λ db. tick_end-IsAwake _, running-Awake wakes h.1)
  running-Awake (breaks world now n ∷ wakes) h = (λ db. tt, running-Awake wakes h.1)
  running-Awake (stops world now n ∷ wakes) h = absurd h.0
  running-Awake (sleeps ∷ wakes) h = absurd h.0

  -- A loop that was not cancelled ticks on: however many rounds went before, and whichever of them
  -- an exception left in the middle, the next wake runs a whole tick on what they left; and a
  -- cancellation in the sleep changes nothing.
  pub scheduler_loop-run_tick :
      (wakes : List (Wake F)) (world : World F) (now : Instant) (db : Db F)
      → All IsRunning wakes
      → let left = after tick_round tick_failed stopped wakes db in
        ((scheduler_loop (wakes ++ ticks world now ∷ []) db).1
          ≡ (run_tick world settings std u now left).1)
        × ((scheduler_loop (wakes ++ sleeps ∷ []) db).1 ≡ left)
  unfolding scheduler_loop
  scheduler_loop-run_tick wakes world now db h =
      let left = after tick_round tick_failed stopped wakes db in
      let next = loop-continues tick_round tick_failed stopped wakes in
      let awake = running-Awake wakes h in
      (
        next (ticks world now ∷ []) db awake ∙ ticks-last world now left,
        next (sleeps ∷ []) db awake ∙ sleeps-last left,
      )
