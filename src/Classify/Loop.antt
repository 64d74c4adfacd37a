-- ===== src/Classify/Loop.antt =====
-- `classifier_loop` of `app/services/classify.py`, with `build_client` of `app/services/llm.py`.
use news2reel.Base.{ℕ, zero, suc, Option, none, some, List, [], ◌∷◌, Text, codes}
use news2reel.Core.Config.{Settings}
use news2reel.Core.Floats.{FloatOps}
use news2reel.Model.{Instant}
use news2reel.Store.{Db}
use news2reel.Llm.{Attempt}
use news2reel.Loops.{Round, passed, raised, cancelled, loop}
use news2reel.Classify.{run_classify_pass}

pub data Entry : Type 0 where
  started pass_failed stopped : Entry
  not_starting : (reason : Text) → Entry
  pass_complete : (classified : ℕ) → Entry

-- How a round of the loop goes: the pass returns; an exception leaves it, and what was committed
-- until then stays; or the task is cancelled in the pass, or in the sleep in front of it.
pub data Wake (F : Type 0) : Type 0 where
  runs : (Text → ℕ → Attempt F) → (Db F → Db F) → Instant → Wake F
  breaks : (Db F → Db F) → Wake F
  stops : (Db F → Db F) → Wake F
  sleeps : Wake F

-- `if classified:`
abbrev pub entry_of : ℕ → Option Entry
entry_of zero = none
entry_of (suc n) = some (pass_complete (suc n))

-- The constructor of the client is a library's; `none` is that it was made, and a text is the
-- message of the `RuntimeError`.
unfoldable pub build_client : {F : Type 0} → Settings F → Option Text
build_client settings = elim settings.llm_api_key [
  | none ↦ some (codes "FEEDCAST_LLM_API_KEY is not set — cannot classify")
  | some key ↦ elim key [
    | [] ↦ some (codes "FEEDCAST_LLM_API_KEY is not set — cannot classify")
    | ◌∷◌ c rest ↦ none
  ]
]

module _ {F : Type 0} (fl : FloatOps F) (settings : Settings F) (decimal : ℕ → Text) where
  abbrev pub pass_round : Wake F → Db F → Round (Db F) Entry
  pass_round (runs client meanwhile now) db =
      let pass = run_classify_pass fl settings decimal client meanwhile now db in
      passed pass.db (entry_of pass.classified)
  pass_round (breaks committed) db = raised (committed db)
  pass_round (stops committed) db = cancelled (committed db)
  pass_round sleeps db = cancelled db

  abbrev pub with_client : Option Text → List (Wake F) → Db F → List Entry × Db F
  with_client (some reason) wakes db = (not_starting reason ∷ [], db)
  with_client none wakes db =
      let (log, db') = loop pass_round pass_failed stopped wakes db in (started ∷ log, db')

  unfoldable pub classifier_loop : List (Wake F) → Db F → List Entry × Db F
  classifier_loop wakes db = with_client (build_client settings) wakes db

  -- The round is not cancelled.
  abbrev pub IsRunning : Wake F → Type 0
  IsRunning (runs client meanwhile now) = Unit
  IsRunning (breaks committed) = Unit
  IsRunning (stops committed) = ⊥
  IsRunning sleeps = ⊥
