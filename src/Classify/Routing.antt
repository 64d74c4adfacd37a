-- ===== src/Classify/Routing.antt =====
-- The way of a verdict to its article, by index and by id.
use news2reel.Base.{
  ℕ, ◌≡◌, Bool, false, Option, none, some, List, [], ◌∷◌, if◌then◌else◌, ◌==◌, Text, get_elem?, pos,
  negsuc, ℤ,
}
use news2reel.Llm.{TitleClassification}

abbrev or_later : {A : Type 0} → Option A → Option A → Option A
or_later none before = before
or_later (some a) before = some a

-- The index addresses the i-th headline.
abbrev pub addresses : ℕ → ℤ → Bool
addresses i (pos index) = index == i
addresses i (negsuc n) = false

-- The i-th article of the batch, and no other, has this id.
pub record IsPlace (ids : List Text) (i : ℕ) (id : Text) : Type 0 where
  pub at : get_elem? ids i ≡ some id
  pub only : (j : ℕ) → get_elem? ids j ≡ some id → j ≡ i

module _ {F : Type 0} where
  -- The last item that addresses the i-th headline.
  abbrev pub last_verdict : ℕ → List (TitleClassification F) → Option (TitleClassification F)
  last_verdict i [] = none
  last_verdict i (item ∷ results) =
      or_later (last_verdict i results) (if addresses i item.index then some item else none)
