-- ===== src/Tick/Polls.antt =====
-- When a source is polled again, after the passes of `app/services/scheduler.py`.
use mathlib.Core.Path.{subst}
use news2reel.Base.{
  ℕ, ◌+◌, ◌≤◌, ◌<◌, ◌≡◌, refl, sym, ap, ◌∙◌, max, Bool, true, false, none, some, Option, List, [],
  ◌∷◌, map, filter, arith, Text, any, ◌⊎◌, Option-cases, Bool-cases, inl, inr, find?, if◌then◌else◌,
  ==_iff, ◌==◌,
}
use news2reel.Core.Config.{Settings}
use news2reel.Core.Text.{Chars}
use news2reel.Model.{Instant, seconds, Source}
use news2reel.Store.{Db, get_source_row}
use news2reel.Schedule.{
  FetchTarget, target_of, base_interval, is_due, is_polled, due_sources, load_due_targets,
}
use news2reel.Schedule.Backoff.{is_due-after_fetch}
use news2reel.Ingest.Urls.{StdLib}
use news2reel.Cities.{put_source}
use news2reel.Tick.{
  FetchAttempt, World, fetch_one, fetch_targets, persist_attempt, escaped, commit, persist_from,
  persist_attempts, poll, run_tick,
}
use news2reel.Tick.Rounds.{persist_from-gone, persist_from-broken, persist_from-found}
use news2reel.Tick.Outcomes.{persist_attempt-IsAbout, found_id}

-- The time of the last attempt at this source, or else the time that was there before.
abbrev pub last_attempt : ℕ → List FetchAttempt → Option Instant → Option Instant
last_attempt id [] before = before
last_attempt id (a ∷ attempts) before =
    last_attempt id attempts (if a.source_id == id then some a.attempted_at else before)

-- The row of this id, with that time; what an editor sets of it is kept.
pub record IsStamped {F : Type 0} (id : ℕ) (source : Source) (at : Option Instant) (db : Db F)
    : Type 0 where
  pub row : Source
  pub found : get_source_row db id ≡ some row
  pub stamped : row.last_fetched_at ≡ at
  pub archived : row.archived_at ≡ source.archived_at
  pub enabled : row.enabled ≡ source.enabled

-- looking up a row that was put in, and another one
find?-put_source :
    (id : ℕ) (source : Source) (sources : List Source) (old : Source)
    → find? (λ s. s.id == id) sources ≡ some old
    → find? (λ s. s.id == id) (put_source source sources)
      ≡ some (if source.id == id then source else old)
unfolding find?
find?-put_source id source [] old h = absurd (ground arith)
find?-put_source id source (s ∷ sources) old h =
    ground (arith, find?-put_source id source sources old)

found_put :
    (id : ℕ) (source : Source) (other : ℕ) (sources : List Source) (old : Source)
    → source.id ≡ other
    → find? (λ s. s.id == id) sources ≡ some old
    → find? (λ s. s.id == id) (put_source source sources)
      ≡ some (if other == id then source else old)
found_put id source other sources old e h = rw (sym e) (find?-put_source id source sources old h)

module _ {F : Type 0} where
  same_row :
      (db : Db F) (id other : ℕ) (source row : Source)
      → (other == id) ≡ true
      → get_source_row db id ≡ some source
      → get_source_row db other ≡ some row
      → row ≡ source
  same_row db id other source row same h found =
      let e : other ≡ id = (==_iff other id).0 same in
      let both : some row ≡ some source = sym found ∙ ap (get_source_row db) e ∙ h in cc

  IsStamped-trans :
      (id : ℕ) (source middle : Source) (at : Option Instant) (db : Db F)
      → middle.archived_at ≡ source.archived_at
      → middle.enabled ≡ source.enabled
      → IsStamped id middle at db
      → IsStamped id source at db
  IsStamped-trans id source middle at db archived enabled h = record {
    row = h.row;
    found = h.found;
    stamped = h.stamped;
    archived = h.archived ∙ archived;
    enabled = h.enabled ∙ enabled;
  }

  -- an attempt at a source that is gone is no attempt at one that is stored
  other_id :
      (db : Db F) (id other : ℕ) (source : Source)
      → get_source_row db id ≡ some source
      → get_source_row db other ≡ none
      → (other == id) ≡ false
  other_id db id other source h gone = elim (Bool-cases (other == id)) [
    | inl same ↦
        let e : other ≡ id = (==_iff other id).0 same in
        absurd (ground (arith, ap (get_source_row db) e))
    | inr e ↦ e
  ]

module _ {F : Type 0} (world : World F) (settings : Settings F) (std : StdLib) (u : Chars) where
  persist_from-IsStamped :
      (seen : List Text) (attempts : List FetchAttempt) (db : Db F) (id : ℕ) (source : Source)
      → get_source_row db id ≡ some source
      → (persist_from world settings std u seen attempts db).2 ≡ none
      → IsStamped id source
          (last_attempt id attempts source.last_fetched_at)
          (persist_from world settings std u seen attempts db).1
  unfolding persist_from get_source_row
  persist_from-IsStamped seen [] db id source h =
      λ returns. record { row = source; found = h; stamped = refl; archived = refl; enabled = refl }
  persist_from-IsStamped seen (attempt ∷ attempts) db id source h =
      elim (Option-cases (get_source_row db attempt.source_id)) [
        | inl gone ↦
            rw
              (
                persist_from-gone world settings std u seen attempt attempts db gone,
                other_id db id attempt.source_id source h gone,
              )
              (persist_from-IsStamped seen attempts db id source h)
        | inr (polled, found) ↦
            elim (Option-cases (escaped world settings std u db seen attempt polled)) [
              | inr (exc, broken) ↦
                  rw
                    (persist_from-broken world settings std u seen attempt attempts db polled exc
                      found broken)
                    (λ returns. absurd (ground arith))
              | inl fine ↦
                  let written = persist_attempt world settings std u db seen attempt polled in
                  let about = persist_attempt-IsAbout world settings std u db seen attempt polled in
                  let id_eq : written.1.id ≡ attempt.source_id =
                    about.row ∙ found_id db attempt polled found in
                  let db' = commit world settings std u db written in
                  let found' : get_source_row db' id
                      ≡ some (if attempt.source_id == id then written.1 else source) =
                    found_put id written.1 attempt.source_id db.sources source id_eq h in
                  rw
                    (persist_from-found world settings std u seen attempt attempts db polled found
                      fine)
                    (λ returns. elim (Bool-cases (attempt.source_id == id)) [
                      | inl same ↦
                          let e : polled ≡ source =
                            same_row db id attempt.source_id source polled same h found in
                          let stored : get_source_row db' id ≡ some written.1 =
                            found' ∙ rw same refl in
                          let rest =
                            persist_from-IsStamped written.2.seen attempts db' id written.1 stored
                              returns in
                          rw (same, sym about.stamped)
                            (IsStamped-trans id source written.1 _ _
                              (about.archived ∙ ap (λ s. s.archived_at) e)
                              (ap (λ b. b.enabled) about.body ∙ ap (λ s. s.enabled) e) rest)
                      | inr other ↦
                          let stored : get_source_row db' id ≡ some source =
                            found' ∙ rw other refl in
                          rw other (
                            persist_from-IsStamped written.2.seen attempts db' id source stored
                              returns)
                    ])
            ]
      ]

  -- The last attempt among those at the targets is the attempt at one of them.
  last_target :
      (id : ℕ) (targets : List FetchTarget) (at : Option Instant)
      → ((any (λ t. t.source_id == id) targets ≡ false)
          × (last_attempt id (map (fetch_one world settings) targets) at ≡ at))
        ⊎ ((t : FetchTarget) × (t.source_id ≡ id)
            × (last_attempt id (map (fetch_one world settings) targets) at ≡ some (world.clock t)))
  unfolding any fetch_one
  last_target id [] at = inl (refl, refl)
  last_target id (t ∷ targets) at =
      let attempted : Bool → Option Instant = λ b.
        last_attempt id (map (fetch_one world settings) targets)
          (if b then some (world.clock t) else at) in
      elim (Bool-cases (t.source_id == id)) [
        | inl same ↦ elim (last_target id targets (some (world.clock t))) [
          | inl (unnamed, e) ↦ inr (t, (==_iff t.source_id id).0 same, ap attempted same ∙ e)
          | inr (t', named, e) ↦ inr (t', named, ap attempted same ∙ e)
        ]
        | inr other ↦ elim (last_target id targets at) [
          | inl (unnamed, e) ↦ inl (rw other unnamed, ap attempted other ∙ e)
          | inr (t', named, e) ↦ inr (t', named, ap attempted other ∙ e)
        ]
      ]

  -- A source that a tick finds due is polled at a target of its own, and its row then has the time
  -- of that attempt.
  poll-IsStamped :
      (targets : List FetchTarget) (db : Db F) (id : ℕ) (before : Source)
      → any (λ t. t.source_id == id) targets ≡ true
      → get_source_row (world.meanwhile db) id ≡ some before
      → (poll world settings std u targets db).2 ≡ none
      → (t : FetchTarget) × (t.source_id ≡ id)
        × IsStamped id before (some (world.clock t)) (poll world settings std u targets db).1
  unfolding any fetch_targets persist_attempts
  poll-IsStamped [] db id before h stored returns = absurd (ground arith)
  poll-IsStamped (t ∷ targets) db id before h stored returns =
      let stamped =
        persist_from-IsStamped [] (fetch_targets world settings (t ∷ targets)) (world.meanwhile db)
          id before stored returns in
      elim (last_target id (t ∷ targets) before.last_fetched_at) [
        | inl (unnamed, e) ↦ absurd (ground arith)
        | inr (t', named, e) ↦ (
          t',
          named,
          subst (λ at. IsStamped id before at (poll world settings std u (t ∷ targets) db).1) e
              stamped,
        )
      ]

  due_target :
      (sources : List Source) (now : Instant) (source : Source)
      → find? (λ s. s.id == source.id) sources ≡ some source
      → is_polled source ≡ true
      → is_due source now settings ≡ true
      → any
          (λ t. t.source_id == source.id)
          (map target_of (due_sources (filter is_polled sources) now settings))
        ≡ true
  unfolding find? any filter target_of due_sources
  due_target [] now source h polled due = absurd (ground arith)
  due_target (s ∷ sources) now source h polled due = elim (Bool-cases (s.id == source.id)) [
    | inl same ↦
        let e : s ≡ source = ground arith in
        rw (ap is_polled e ∙ polled, ap (λ x. is_due x now settings) e ∙ due, same) refl
    | inr other ↦ let rest = due_target sources now source (ground arith) polled due in ground arith
  ]

  -- When a tick returns, a source that was due and is still stored when the fetches are over is
  -- polled: its row then has the time of an attempt at it, whether it succeeded, failed or was rolled back. It is
  -- not due again before its base interval is over, and is due again once the longest interval that
  -- any number of failures can give is over; archiving and disabling stay as they were.
  pub run_tick-is_due :
      (now later : Instant) (db : Db F) (source before : Source)
      → get_source_row db source.id ≡ some source
      → is_polled source ≡ true
      → is_due source now settings ≡ true
      → get_source_row (world.meanwhile db) source.id ≡ some before
      → (run_tick world settings std u now db).2 ≡ none
      → (t : FetchTarget) × (t.source_id ≡ source.id)
        × (row : Source) × (get_source_row (run_tick world settings std u now db).1 source.id
            ≡ some row)
        × (is_polled row ≡ is_polled before)
        × (later < world.clock t + seconds (base_interval row) → is_due row later settings ≡ false)
        × (world.clock t + seconds (max (base_interval row) settings.scheduler_max_backoff_seconds)
              ≤ later
            → is_due row later settings ≡ true)
  unfolding run_tick load_due_targets get_source_row
  run_tick-is_due now later db source before h polled due stored returns =
      let (t, named, after) =
        poll-IsStamped _ db source.id before (due_target db.sources now source h polled due) stored
          returns in
      let (early, late) =
        is_due-after_fetch settings after.row (world.clock t) later after.stamped in
      (t, named, after.row, after.found, rw (after.archived, after.enabled) refl, early, late)
