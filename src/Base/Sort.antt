-- ===== src/Base/Sort.antt =====
-- Python's stable `sorted(xs, key=…, reverse=True)`: `before a b` says that the key of `a` is the
-- larger, so `a` comes first; elements with equal keys keep their order.
use Prim.Native.Nat.{suc}
use mathlib.Core.Path.{◌≡◌, refl, ap, ap₂, ◌∙◌, sym, subst, subst₂}
use mathlib.Core.Logic.{inl, inr}
use mathlib.Core.Bool.{Bool, true, false, ◌||◌}
use mathlib.Core.List.{List, [], ◌∷◌, Permᴰ}
use mathlib.Core.List.Permᴰ
use native.Mathlib.Omega.{arith}
use news2reel.Base.Tests.{if◌then◌else◌, Bool-cases, ltb}
use news2reel.Base.Texts.{Text, text_eq}
use news2reel.Base.Lists.{All, length}

pub All-perm {ℓ κ} :
    {A : Type ℓ} (P : A → Type κ) {xs ys : List A} → Permᴰ xs ys → All P xs → All P ys
All-perm P Permᴰ.nil h = h
All-perm P (Permᴰ.cons e p) h = (subst P e h.0, All-perm P p h.1)
All-perm P (Permᴰ.swap e f) h = (subst P f h.1.0, (subst P e h.0, h.1.1))
All-perm P (Permᴰ.trans p q) h = All-perm P q (All-perm P p h)

module _ {ℓ} {A : Type ℓ} (before : A → A → Bool) where
  -- A weak order: incomparable elements are interchangeable.
  pub record IsWeakOrder : Type ℓ where
    pub asym : (a b : A) → before a b ≡ true → before b a ≡ false
    pub ntrans : (a b c : A) → before b a ≡ false → before c b ≡ false → before c a ≡ false

  -- No element stands behind one that it should precede.
  abbrev pub IsSorted : List A → Type ℓ
  IsSorted [] = Unit
  IsSorted (x ∷ xs) = All (λ y. before y x ≡ false) xs × IsSorted xs

  -- Any two elements are told apart by the order.
  abbrev pub differ : A → A → Bool
  differ a b = before a b || before b a

  abbrev pub Distinct : List A → Type ℓ
  Distinct [] = Unit
  Distinct (x ∷ xs) = All (λ y. differ x y ≡ true) xs × Distinct xs

  unfoldable pub insert : A → List A → List A
  insert x [] = x ∷ []
  insert x (y ∷ ys) = let rest = insert x ys in if before y x then y ∷ rest else x ∷ y ∷ ys

  unfoldable pub sorted : List A → List A
  unfolding insert
  sorted [] = []
  sorted (x ∷ xs) = insert x (sorted xs)

  module _ {κ} (P : A → Type κ) where
    pub All-insert : (x : A) (xs : List A) → P x → All P xs → All P (insert x xs)
    unfolding insert
    All-insert x [] px h = (px, h)
    All-insert x (y ∷ ys) px h = elim (Bool-cases (before y x)) [
      | inl t ↦ rw t (h.0, All-insert x ys px h.1)
      | inr f ↦ rw f (px, h)
    ]

    pub All-sorted : (xs : List A) → All P xs → All P (sorted xs)
    unfolding sorted
    All-sorted [] h = h
    All-sorted (x ∷ xs) h = All-insert x (sorted xs) h.0 (All-sorted xs h.1)

  insert-perm : (x : A) (xs : List A) → Permᴰ (insert x xs) (x ∷ xs)
  unfolding insert
  insert-perm x [] = Permᴰ.refl _
  insert-perm x (y ∷ ys) = elim (Bool-cases (before y x)) [
    | inl t ↦ rw t (Permᴰ.trans (Permᴰ.cons refl (insert-perm x ys)) (Permᴰ.swap refl refl))
    | inr f ↦ rw f (Permᴰ.refl _)
  ]

  pub sorted-perm : (xs : List A) → Permᴰ (sorted xs) xs
  unfolding sorted
  sorted-perm [] = Permᴰ.nil
  sorted-perm (x ∷ xs) = Permᴰ.trans (insert-perm x (sorted xs)) (Permᴰ.cons refl (sorted-perm xs))

  length-insert : (x : A) (xs : List A) → length (insert x xs) ≡ suc (length xs)
  unfolding insert
  length-insert x [] = refl
  length-insert x (y ∷ ys) = ground (arith, length-insert x ys)

  pub length-sorted : (xs : List A) → length (sorted xs) ≡ length xs
  unfolding sorted
  length-sorted [] = refl
  length-sorted (x ∷ xs) = length-insert x (sorted xs) ∙ ap suc (length-sorted xs)

  module _ (w : IsWeakOrder) where
    All-behind :
        (x y : A) (ys : List A)
        → before y x ≡ false
        → All (λ z. before z y ≡ false) ys
        → All (λ z. before z x ≡ false) ys
    All-behind x y [] h k = k
    All-behind x y (z ∷ zs) h k = (w.ntrans x y z h k.0, All-behind x y zs h k.1)

    insert-IsSorted : (x : A) (xs : List A) → IsSorted xs → IsSorted (insert x xs)
    unfolding insert
    insert-IsSorted x [] s = (tt, tt)
    insert-IsSorted x (y ∷ ys) s = elim (Bool-cases (before y x)) [
      | inl t ↦
          rw t
            (All-insert (λ z. before z y ≡ false) x ys (w.asym y x t) s.0, insert-IsSorted x ys s.1)
      | inr f ↦ rw f ((f, All-behind x y ys f s.0), s)
    ]

    pub sorted-IsSorted : (xs : List A) → IsSorted (sorted xs)
    unfolding sorted
    sorted-IsSorted [] = tt
    sorted-IsSorted (x ∷ xs) = insert-IsSorted x (sorted xs) (sorted-IsSorted xs)

    -- Two insertions commute where the order tells the elements apart.
    insert_comm :
        (x y : A) (l : List A) → differ x y ≡ true → insert x (insert y l) ≡ insert y (insert x l)
    unfolding insert
    insert_comm x y [] h = ground (arith, w.asym x y, w.asym y x)
    insert_comm x y (z ∷ l) h =
        ground (arith, insert_comm x y l h, w.asym x y, w.asym y x, w.ntrans y x z, w.ntrans x y z)

    differ_sym : (x y : A) → differ x y ≡ true → differ y x ≡ true
    differ_sym x y h = ground arith

    Distinct-perm : {xs ys : List A} → Permᴰ xs ys → Distinct xs → Distinct ys
    Distinct-perm Permᴰ.nil h = h
    Distinct-perm (Permᴰ.cons {a} {b} {l₁} {l₂} e p) h = (
      subst (λ c. All (λ y. differ c y ≡ true) l₂) e (All-perm (λ y. differ a y ≡ true) p h.0),
      Distinct-perm p h.1,
    )
    Distinct-perm (Permᴰ.swap {a} {b} {a'} {b'} {l} e f) h = (
      (
        subst₂ (λ c d. differ c d ≡ true) f e (differ_sym a b h.0.0),
        subst (λ c. All (λ y. differ c y ≡ true) l) f h.1.0,
      ),
      (subst (λ c. All (λ y. differ c y ≡ true) l) e h.0.1, h.1.1),
    )
    Distinct-perm (Permᴰ.trans p q) h = Distinct-perm q (Distinct-perm p h)

    -- Where the order tells all elements apart, the input's order does not show in the result.
    pub sorted-eq_of_perm : {xs ys : List A} → Permᴰ xs ys → Distinct xs → sorted xs ≡ sorted ys
    unfolding sorted
    sorted-eq_of_perm Permᴰ.nil h = refl
    sorted-eq_of_perm (Permᴰ.cons e p) h = ap₂ insert e (sorted-eq_of_perm p h.1)
    sorted-eq_of_perm (Permᴰ.swap {a} {b} {a'} {b'} {l} e f) h =
        insert_comm a b (sorted l) h.0.0 ∙ ap₂ (λ c d. insert c (insert d (sorted l))) f e
    sorted-eq_of_perm (Permᴰ.trans p q) h =
        sorted-eq_of_perm p h ∙ sorted-eq_of_perm q (Distinct-perm p h)

-- The same where elements that the order does not tell apart are equal.
module _ {ℓ} {A : Type ℓ} (before : A → A → Bool) (w : IsWeakOrder before)
    (total : (x y : A) → differ before x y ≡ false → x ≡ y) where
  insert_comm_total :
      (x y : A) (l : List A)
      → insert before x (insert before y l) ≡ insert before y (insert before x l)
  insert_comm_total x y l = elim (Bool-cases (differ before x y)) [
    | inl apart ↦ insert_comm before w x y l apart
    | inr alike ↦
        ap₂ (λ a b. insert before a (insert before b l)) (total x y alike) (sym (total x y alike))
  ]

  pub sorted-eq_of_perm_total : {xs ys : List A} → Permᴰ xs ys → sorted before xs ≡ sorted before ys
  unfolding sorted
  sorted-eq_of_perm_total Permᴰ.nil = refl
  sorted-eq_of_perm_total (Permᴰ.cons e p) = ap₂ (insert before) e (sorted-eq_of_perm_total p)
  sorted-eq_of_perm_total (Permᴰ.swap {a} {b} {a'} {b'} {l} e f) =
      insert_comm_total a b (sorted before l)
      ∙ ap₂ (λ c d. insert before c (insert before d (sorted before l))) f e
  sorted-eq_of_perm_total (Permᴰ.trans p q) = sorted-eq_of_perm_total p ∙ sorted-eq_of_perm_total q

-- Python compares tuples by the first component that differs: `smaller` and `larger` are the
-- verdicts of this component, `rest` that of the ones behind it.
abbrev pub lex : Bool → Bool → Bool → Bool
lex smaller larger rest = if smaller then true else if larger then false else rest

module _ {ℓ} {A : Type ℓ} (lt₁ lt₂ : A → A → Bool) where
  pub lex-IsWeakOrder :
      IsWeakOrder lt₁ → IsWeakOrder lt₂ → IsWeakOrder (λ a b. lex (lt₁ a b) (lt₁ b a) (lt₂ a b))
  lex-IsWeakOrder v w = record {
    asym = λ a b h. ground (arith, v.asym a b, v.asym b a, w.asym a b);
    ntrans = λ a b c h k. ground (
      arith,
      v.asym a b,
      v.asym b c,
      v.asym a c,
      v.asym c a,
      v.ntrans a b c,
      v.ntrans c b a,
      v.ntrans b c a,
      v.ntrans b a c,
      v.ntrans a c b,
      v.ntrans c a b,
      w.ntrans a b c,
    );
  }

module _ {ℓ} {A : Type ℓ} (lt : A → A → Bool) where
  pub flip-IsWeakOrder : IsWeakOrder lt → IsWeakOrder (λ a b. lt b a)
  flip-IsWeakOrder w = record {
    asym = λ a b h. w.asym b a h;
    ntrans = λ a b c h k. w.ntrans c b a k h;
  }

  -- an order on the images
  pub on-IsWeakOrder {κ} :
      {B : Type κ} (f : B → A) → IsWeakOrder lt → IsWeakOrder (λ a b. lt (f a) (f b))
  on-IsWeakOrder f w = record {
    asym = λ a b h. w.asym (f a) (f b) h;
    ntrans = λ a b c h k. w.ntrans (f a) (f b) (f c) h k;
  }

pub ltb-IsWeakOrder : IsWeakOrder ltb
ltb-IsWeakOrder = record { asym = λ a b h. ground arith; ntrans = λ a b c h k. ground arith }

-- `s < t` on `str`: by code points
unfoldable pub text_lt : Text → Text → Bool
text_lt s [] = false
text_lt [] (b ∷ t) = true
text_lt (a ∷ s) (b ∷ t) = lex (ltb a b) (ltb b a) (text_lt s t)

text_lt-asym : (s t : Text) → text_lt s t ≡ true → text_lt t s ≡ false
unfolding text_lt
text_lt-asym [] [] h = cc
text_lt-asym [] (b ∷ t) h = refl
text_lt-asym (a ∷ s) [] h = cc
text_lt-asym (a ∷ s) (b ∷ t) h = ground (arith, text_lt-asym s t)

text_lt-ntrans : (s t u : Text) → text_lt t s ≡ false → text_lt u t ≡ false → text_lt u s ≡ false
unfolding text_lt
text_lt-ntrans [] t [] h k = refl
text_lt-ntrans [] [] (c ∷ u) h k = refl
text_lt-ntrans [] (b ∷ t) (c ∷ u) h k = refl
text_lt-ntrans (a ∷ s) [] u h k = cc
text_lt-ntrans (a ∷ s) (b ∷ t) [] h k = cc
text_lt-ntrans (a ∷ s) (b ∷ t) (c ∷ u) h k = ground (arith, text_lt-ntrans s t u)

pub text_lt-IsWeakOrder : IsWeakOrder text_lt
text_lt-IsWeakOrder = record { asym = text_lt-asym; ntrans = text_lt-ntrans }

-- Different texts are told apart.
pub text_lt-differ : (s t : Text) → text_eq s t ≡ false → (text_lt s t || text_lt t s) ≡ true
unfolding text_lt text_eq
text_lt-differ [] [] h = cc
text_lt-differ [] (b ∷ t) h = refl
text_lt-differ (a ∷ s) [] h = refl
text_lt-differ (a ∷ s) (b ∷ t) h = ground (arith, text_lt-differ s t)
