-- ===== src/Deck/Given.antt =====
-- What holds of the result of a call of `app/api/v1/endpoints/carousels.py`, where it goes through.
use news2reel.Deck.{Reply, done, refuse}
use news2reel.Deck.Calls.{◌>>=◌}

-- Where the call goes through, the property holds of what it gives.
abbrev pub Given : {A : Type 0} → (A → Type 0) → Reply A → Type 0
Given P (done a) = P a
Given P (refuse e) = Unit

pub Given-bind :
    {A B : Type 0} (P : A → Type 0) (Q : B → Type 0) (m : Reply A) (f : A → Reply B)
    → Given P m
    → ((a : A) → P a → Given Q (f a))
    → Given Q (m >>= f)
Given-bind P Q (done a) f h k = k a h
Given-bind P Q (refuse e) f h k = tt

-- what is asked of nothing holds of anything
pub anything : {A : Type 0} (m : Reply A) → Given (λ _. Unit {0}) m
anything (done a) = tt
anything (refuse e) = tt
