-- ===== src/Deck/Adding.antt =====
-- More stories join a deck: the cap, and where they stand.
use news2reel.Base.{◌≡◌, ◌≢◌, List, [], ◌∷◌, ◌++◌, All}
use news2reel.Model.{cta}
use news2reel.Deck.{Slide}

-- Where a deck is cut: no closing slide before the cut, and one, or nothing, behind it.
abbrev pub Closes : {F : Type 0} → List (Slide F) → Type 0
Closes [] = Unit
Closes (s ∷ deck) = s.kind ≡ cta

-- The deck with the new slides at that cut.
pub record Inserted {F : Type 0} (deck new deck' : List (Slide F)) : Type 0 where
  pub front : List (Slide F)
  pub back : List (Slide F)
  pub before : deck ≡ front ++ back
  pub after : deck' ≡ front ++ (new ++ back)
  pub unclosed : All (λ s. s.kind ≢ cta) front
  pub closes : Closes back
