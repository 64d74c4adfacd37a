-- ===== src/Core/Floats.antt =====
-- Python's `float`, which the program uses and does not implement: a type of values with the
-- operations that the program calls, and the laws that it relies on. No NaN is compared here:
-- every float is a setting, a literal, a number that JSON can spell, or computed from those.
use news2reel.Base.{ℕ, ◌≡◌, ◌≤◌, Bool, true, false, not, List, [], ◌∷◌, if◌then◌else◌, All}

pub record FloatOps (F : Type 0) : Type 0 where
  -- `a <= b`
  pub le : F → F → Bool
  pub add : F → F → F
  pub mul : F → F → F
  pub sub : F → F → F
  pub abs : F → F
  -- the literal `1e-9`
  pub nano : F
  -- the builtin `sum` of a list of floats
  pub sum : List F → F
  -- `round(x, 1)`
  pub round1 : F → F
  -- the literal that spells this many hundredths: `lit 33` is `0.33`
  pub lit : ℕ → F

-- `a < b`
abbrev pub ltf : {F : Type 0} → FloatOps F → F → F → Bool
ltf fl a b = not (fl.le b a)

-- `min(a, b)` and `max(a, b)` return the first argument unless the second is smaller, or larger.
abbrev pub minf : {F : Type 0} → FloatOps F → F → F → F
minf fl a b = if ltf fl b a then b else a

abbrev pub maxf : {F : Type 0} → FloatOps F → F → F → F
maxf fl a b = if ltf fl a b then b else a

-- Two lists of floats, the second nowhere smaller.
abbrev pub LeAll : {F : Type 0} → FloatOps F → List F → List F → Type 0
LeAll fl [] [] = Unit
LeAll fl (a ∷ xs) (b ∷ ys) = (fl.le a b ≡ true) × LeAll fl xs ys
LeAll fl xs ys = ⊥

-- Every float of the list is at least 0.
abbrev pub AllNonneg : {F : Type 0} → FloatOps F → List F → Type 0
AllNonneg fl = All (λ x. fl.le (fl.lit 0) x ≡ true)

-- What the score's arithmetic relies on: a total order, operations that respect it, and literals
-- in their order. The last law is about `round`: what lies within 9e-9 of ten rounds to 10.0.
pub record FloatLaws {F : Type 0} (fl : FloatOps F) : Type 0 where
  pub le_refl : (a : F) → fl.le a a ≡ true
  pub le_trans : (a b c : F) → fl.le a b ≡ true → fl.le b c ≡ true → fl.le a c ≡ true
  pub le_total : (a b : F) → fl.le a b ≡ false → fl.le b a ≡ true
  pub add_mono : (a b c : F) → fl.le b c ≡ true → fl.le (fl.add a b) (fl.add a c) ≡ true
  pub add_nonneg : (a b : F) → fl.le (fl.lit 0) b ≡ true → fl.le a (fl.add a b) ≡ true
  pub sub_nonneg : (a b : F) → fl.le b a ≡ true → fl.le (fl.lit 0) (fl.sub a b) ≡ true
  pub mul_nonneg :
      (a b : F)
      → fl.le (fl.lit 0) a ≡ true
      → fl.le (fl.lit 0) b ≡ true
      → fl.le (fl.lit 0) (fl.mul a b) ≡ true
  pub mul_mono_left :
      (a b c : F)
      → fl.le (fl.lit 0) a ≡ true
      → fl.le b c ≡ true
      → fl.le (fl.mul a b) (fl.mul a c) ≡ true
  pub mul_mono_right :
      (a b c : F)
      → fl.le (fl.lit 0) c ≡ true
      → fl.le a b ≡ true
      → fl.le (fl.mul a c) (fl.mul b c) ≡ true
  pub mul_one : (a : F) → fl.mul a (fl.lit 100) ≡ a
  pub sum_mono : (xs ys : List F) → LeAll fl xs ys → fl.le (fl.sum xs) (fl.sum ys) ≡ true
  pub sum_nonneg : (xs : List F) → AllNonneg fl xs → fl.le (fl.lit 0) (fl.sum xs) ≡ true
  pub lit_mono : (m n : ℕ) → m ≤ n → fl.le (fl.lit m) (fl.lit n) ≡ true
  pub round1_mono : (a b : F) → fl.le a b ≡ true → fl.le (fl.round1 a) (fl.round1 b) ≡ true
  pub round1_one : fl.round1 (fl.lit 100) ≡ fl.lit 100
  pub round1_near_ten :
      (t : F)
      → fl.le (fl.abs (fl.sub t (fl.lit 100))) fl.nano ≡ true
      → fl.le
          (fl.round1 (fl.add (fl.lit 100) (fl.mul t (fl.sub (fl.lit 1000) (fl.lit 100)))))
          (fl.lit 1000)
        ≡ true
