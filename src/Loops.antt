-- ===== src/Loops.antt =====
-- The shape that `scheduler_loop` of `app/services/scheduler.py` and `classifier_loop` of
-- `app/services/classify.py` share: `while True` around a pass whose exceptions are logged, and a
-- sleep, until the task is cancelled. A run of the loop is read off the list of its rounds; a round is
-- a pass and the sleep behind it.
use news2reel.Base.{◌≡◌, refl, ◌∙◌, Option, none, some, List, [], ◌∷◌, ◌++◌, All}

-- What a round comes to: the pass returns, and may log; an exception leaves it; or the task is
-- cancelled, in the pass or in the sleep. Each with the state that it leaves.
pub data Round (S E : Type 0) : Type 0 where
  passed : S → Option E → Round S E
  raised : S → Round S E
  cancelled : S → Round S E

module _ {W S E : Type 0} (round : W → S → Round S E) (failure stopped : E) where
  abbrev pub log_entry : Option E → List E
  log_entry none = []
  log_entry (some e) = e ∷ []

  -- what is logged for a round, and what the rest of the loop does behind it
  abbrev pub continue : Round S E → (S → List E × S) → List E × S
  continue (passed s entry) rest = let (log, s') = rest s in (log_entry entry ++ log, s')
  continue (raised s) rest = let (log, s') = rest s in (failure ∷ log, s')
  continue (cancelled s) rest = (stopped ∷ [], s)

  unfoldable pub loop : List W → S → List E × S
  loop [] s = ([], s)
  loop (w ∷ wakes) s = continue (round w s) (loop wakes)

  -- the state behind a round, and what it logged
  abbrev pub state_of : Round S E → S
  state_of (passed s entry) = s
  state_of (raised s) = s
  state_of (cancelled s) = s

  -- the state behind rounds that all ran
  unfoldable pub after : List W → S → S
  after [] s = s
  after (w ∷ wakes) s = after wakes (state_of (round w s))

  abbrev pub IsAwake : Round S E → Type 0
  IsAwake (passed s entry) = Unit
  IsAwake (raised s) = Unit
  IsAwake (cancelled s) = ⊥

  -- No round is cancelled, whatever the state in which it starts.
  abbrev pub Awake : List W → Type 0
  Awake wakes = All (λ w. (s : S) → IsAwake (round w s)) wakes

  continue-state :
      (r : Round S E) (rest : S → List E × S)
      → IsAwake r
      → (continue r rest).1 ≡ (rest (state_of r)).1
  continue-state (passed s entry) rest h = refl
  continue-state (raised s) rest h = refl
  continue-state (cancelled s) rest h = absurd h

  -- rounds that are not cancelled are followed by the next one, also where they raise
  pub loop-continues :
      (wakes rest : List W) (s : S)
      → Awake wakes
      → (loop (wakes ++ rest) s).1 ≡ (loop rest (after wakes s)).1
  unfolding loop after
  loop-continues [] rest s h = refl
  loop-continues (w ∷ wakes) rest s (awake, h) =
      continue-state (round w s) (loop (wakes ++ rest)) (awake s)
      ∙ loop-continues wakes rest (state_of (round w s)) h
