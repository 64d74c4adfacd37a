-- ===== src/Base/Every.antt =====
-- `All` through the list operations, and the rows that a permutation carries along.
use Prim.Native.Nat.{ℕ, zero, suc, ◌+◌}
use mathlib.Core.Path.{◌≡◌, ◌∙◌, refl, ap, subst, subst₂}
use mathlib.Core.List.Permᴰ
use native.Mathlib.Nat.{zero-add, suc-add}
use mathlib.Core.Logic.{inl, inr}
use mathlib.Core.Bool.{Bool, true, false}
use mathlib.Core.Option.{Option, none, some}
use mathlib.Core.List.{List, [], ◌∷◌, ◌++◌, map, Memᴰ, Permᴰ}
use news2reel.Base.Tests.{Bool-cases, Option-cases}
use news2reel.Base.Sort.{IsSorted}
use news2reel.Base.Lists.{All, take, drop, filter, filter_map, keep_some}

module _ {ℓ κ} {A : Type ℓ} (P : A → Type κ) where
  pub All-take : (n : ℕ) (xs : List A) → All P xs → All P (take n xs)
  unfolding take
  All-take zero xs h = tt
  All-take (suc n) [] h = h
  All-take (suc n) (x ∷ xs) h = (h.0, All-take n xs h.1)

  pub All-drop : (n : ℕ) (xs : List A) → All P xs → All P (drop n xs)
  unfolding drop
  All-drop zero xs h = h
  All-drop (suc n) [] h = h
  All-drop (suc n) (x ∷ xs) h = All-drop n xs h.1

  -- what passes a filter passes its test
  pub All-filter :
      (p : A → Bool) (xs : List A) → All P xs → All (λ x. P x × (p x ≡ true)) (filter p xs)
  unfolding filter
  All-filter p [] h = tt
  All-filter p (x ∷ xs) h = elim (Bool-cases (p x)) [
    | inl t ↦ rw t ((h.0, t), All-filter p xs h.1)
    | inr f ↦ rw f (All-filter p xs h.1)
  ]

module _ {ℓ κ μ} {A : Type ℓ} (P : A → Type κ) (Q : A → Type μ) where
  pub All-weaken : ((x : A) → P x → Q x) → (xs : List A) → All P xs → All Q xs
  All-weaken f [] h = tt
  All-weaken f (x ∷ xs) h = (f x h.0, All-weaken f xs h.1)

module _ {ℓ κ μ ν} {A : Type ℓ} {B : Type κ} (P : A → Type μ) (Q : B → Type ν) where
  pub All-map :
      (f : A → B) → ((x : A) → P x → Q (f x)) → (xs : List A) → All P xs → All Q (map f xs)
  All-map f step [] h = tt
  All-map f step (x ∷ xs) h = (step x h.0, All-map f step xs h.1)

  pub All-filter_map :
      (f : A → Option B)
      → ((x : A) (y : B) → P x → f x ≡ some y → Q y)
      → (xs : List A) → All P xs
      → All Q (filter_map f xs)
  unfolding filter_map
  All-filter_map f step [] h = tt
  All-filter_map f step (x ∷ xs) h = elim (Option-cases (f x)) [
    | inl e ↦ rw e (All-filter_map f step xs h.1)
    | inr (y, e) ↦ rw e (step x y h.0 e, All-filter_map f step xs h.1)
  ]

module _ {ℓ} {A : Type ℓ} where
  -- every element is a member
  pub All-mem : (xs : List A) → All (λ x. Memᴰ x xs) xs
  All-mem [] = tt
  All-mem (x ∷ xs) = (
    Memᴰ.head refl,
    All-weaken (λ y. Memᴰ y xs) (λ y. Memᴰ y (x ∷ xs)) (λ y m. Memᴰ.tail m) xs (All-mem xs),
  )

  take-nil : (n : ℕ) → take {A = A} n [] ≡ []
  unfolding take
  take-nil zero = refl
  take-nil (suc n) = refl

  drop-nil : (n : ℕ) → drop {A = A} n [] ≡ []
  unfolding drop
  drop-nil zero = refl
  drop-nil (suc n) = refl

  -- two cuts in a row are one
  pub take-append-take : (m n : ℕ) (xs : List A) → take m xs ++ take n (drop m xs) ≡ take (m + n) xs
  unfolding take drop
  take-append-take zero n xs = rw zero-add
  take-append-take (suc m) n [] = rw (take-nil n, take-nil (suc m + n))
  take-append-take (suc m) n (x ∷ xs) = rw suc-add (ap (◌∷◌ x) (take-append-take m n xs))

  pub drop-drop : (m n : ℕ) (xs : List A) → drop n (drop m xs) ≡ drop (m + n) xs
  unfolding drop
  drop-drop zero n xs = rw zero-add
  drop-drop (suc m) n [] = rw (drop-nil n, drop-nil (suc m + n))
  drop-drop (suc m) n (x ∷ xs) = rw suc-add (drop-drop m n xs)

module _ {ℓ} {B : Type ℓ} where
  keep_some-perm :
      (o : Option B) {xs ys : List B} → Permᴰ xs ys → Permᴰ (keep_some o xs) (keep_some o ys)
  keep_some-perm none p = p
  keep_some-perm (some b) p = Permᴰ.cons refl p

  keep_some-swap :
      (o o' : Option B) (l : List B)
      → Permᴰ (keep_some o (keep_some o' l)) (keep_some o' (keep_some o l))
  keep_some-swap none o' l = Permᴰ.refl _
  keep_some-swap (some a) none l = Permᴰ.refl _
  keep_some-swap (some a) (some b) l = Permᴰ.swap refl refl

module _ {ℓ κ} {A : Type ℓ} {B : Type κ} (f : A → Option B) where
  pub filter_map-perm : {xs ys : List A} → Permᴰ xs ys → Permᴰ (filter_map f xs) (filter_map f ys)
  unfolding filter_map
  filter_map-perm Permᴰ.nil = Permᴰ.nil
  filter_map-perm (Permᴰ.cons {a} {b} {l₁} {l₂} e p) =
      subst (λ c. Permᴰ (keep_some (f a) (filter_map f l₁)) (keep_some (f c) (filter_map f l₂))) e
        (keep_some-perm (f a) (filter_map-perm p))
  filter_map-perm (Permᴰ.swap {a} {b} {a'} {b'} {l} e e') =
      let rest = filter_map f l in
      subst₂
        (λ c d.
          Permᴰ (keep_some (f a) (keep_some (f b) rest)) (keep_some (f c) (keep_some (f d) rest)))
        e' e (keep_some-swap (f a) (f b) rest)
  filter_map-perm (Permᴰ.trans p q) = Permᴰ.trans (filter_map-perm p) (filter_map-perm q)

module _ {ℓ} {A : Type ℓ} (before : A → A → Bool) where
  pub IsSorted-take : (n : ℕ) (xs : List A) → IsSorted before xs → IsSorted before (take n xs)
  unfolding take
  IsSorted-take zero xs s = tt
  IsSorted-take (suc n) [] s = s
  IsSorted-take (suc n) (x ∷ xs) s =
      (All-take (λ y. before y x ≡ false) n xs s.0, IsSorted-take n xs s.1)

  pub IsSorted-drop : (n : ℕ) (xs : List A) → IsSorted before xs → IsSorted before (drop n xs)
  unfolding drop
  IsSorted-drop zero xs s = s
  IsSorted-drop (suc n) [] s = s
  IsSorted-drop (suc n) (x ∷ xs) s = IsSorted-drop n xs s.1

  -- a map that does not move an element
  pub IsSorted-map_still :
      (f : A → A)
      → ((x y : A) → before (f x) (f y) ≡ before x y)
      → (xs : List A) → IsSorted before xs
      → IsSorted before (map f xs)
  IsSorted-map_still f still [] s = tt
  IsSorted-map_still f still (x ∷ xs) s = (
    All-map (λ y. before y x ≡ false) (λ y. before y (f x) ≡ false) f (λ y h. still y x ∙ h) xs s.0,
    IsSorted-map_still f still xs s.1,
  )
