-- ===== src/Tests/Passes.antt =====
-- The loop around a classifier's pass: a round that an exception leaves, and rounds that return.
use news2reel.Base.{ℕ, ◌≡◌, refl, none, List, [], ◌∷◌, Text, codes}
use news2reel.Store.{Db}
use news2reel.Llm.{Attempt, raises}
use news2reel.Loops.{after}
use news2reel.Classify.Loop.{Wake, breaks, runs, pass_failed, stopped, pass_round, build_client}
use news2reel.Tests.Setting.{hundredths_ops, defaults}
use news2reel.Tests.Rows.{newsroom}

abbrev one_digit : ℕ → Text
one_digit n = codes "1"

abbrev down : Text → ℕ → Attempt ℕ
down prompt n = raises (codes "down")

abbrev passes_so_far : List (Wake ℕ)
passes_so_far = breaks (λ db. db) ∷ runs down (λ db. db) 60000000 ∷ []

abbrev passed_so_far : Db ℕ
passed_so_far =
    after (pass_round hundredths_ops defaults one_digit) pass_failed stopped passes_so_far newsroom

has_key : build_client defaults ≡ none
unfolding build_client
has_key = refl
