-- ===== src/Core/Text/Safe.antt =====
-- What leaves `sanitize` cannot open or close a tag, and carries no control character.
use news2reel.Base.{
  ℕ, zero, suc, ◌≡◌, ◌≢◌, Bool, true, false, Option, none, some, [], ◌∷◌, map, ltb, Text, length,
  take, filter, All, All-append, arith, Bool-cases, inl, inr,
}
use news2reel.Core.Text.{
  Chars, keep_before, sub_tags, neutralise, rstrip, lstrip, upto_pred, collapse, strip_text,
  strip_markup, truncate, sanitize,
}

module _ {κ} (P : ℕ → Type κ) where
  All-keep_before : (p : ℕ → Bool) (c : ℕ) (r : Text) → P c → All P r → All P (keep_before p c r)
  All-keep_before p c [] pc h = elim (Bool-cases (p c)) [ inl t ↦ rw t tt | inr f ↦ rw f (pc, tt) ]
  All-keep_before p c (d ∷ t) pc h = (pc, h)

  pub All-rstrip : (p : ℕ → Bool) (s : Text) → All P s → All P (rstrip p s)
  unfolding rstrip
  All-rstrip p [] h = h
  All-rstrip p (c ∷ s) h = All-keep_before p c (rstrip p s) h.0 (All-rstrip p s h.1)

  pub All-lstrip : (p : ℕ → Bool) (s : Text) → All P s → All P (lstrip p s)
  unfolding lstrip
  All-lstrip p [] h = h
  All-lstrip p (c ∷ s) h = elim (Bool-cases (p c)) [
    | inl t ↦ rw t (All-lstrip p s h.1)
    | inr f ↦ rw f h
  ]

  pub All-take : (n : ℕ) (s : Text) → All P s → All P (take n s)
  unfolding take
  All-take zero s h = tt
  All-take (suc n) [] h = h
  All-take (suc n) (c ∷ s) h = (h.0, All-take n s h.1)

  pub All-upto_pred : (n : ℕ) (s : Text) → All P s → All P (upto_pred n s)
  unfolding upto_pred
  All-upto_pred zero s h = All-take _ s h
  All-upto_pred (suc n) s h = All-take n s h

  All-collapse : (u : Chars) (run : Bool) (s : Text) → P b' ' → All P s → All P (collapse u run s)
  unfolding collapse
  All-collapse u run [] sp h = h
  All-collapse u run (c ∷ s) sp h = elim (Bool-cases (u.is_space c)) [
    | inl t ↦ elim (Bool-cases run) [
      | inl again ↦ rw (t, again) (All-collapse u true s sp h.1)
      | inr first ↦ rw (t, first) (sp, All-collapse u true s sp h.1)
    ]
    | inr f ↦ rw f (h.0, All-collapse u false s sp h.1)
  ]

  All-filter : (p : ℕ → Bool) (s : Text) → ((c : ℕ) → p c ≡ true → P c) → All P (filter p s)
  unfolding filter
  All-filter p [] h = tt
  All-filter p (c ∷ s) h = elim (Bool-cases (p c)) [
    | inl t ↦ rw t (h c t, All-filter p s h)
    | inr f ↦ rw f (All-filter p s h)
  ]

-- A character that can neither open or close a tag nor control a terminal or a prompt.
abbrev pub IsSafe : Chars → ℕ → Type 0
IsSafe u c = (c ≢ b'<') × (c ≢ b'>') × (u.is_control c ≡ false)

-- What the standard library says of the characters that the program puts in.
pub record CharsLaws (u : Chars) : Type 0 where
  pub space_is_space : u.is_space b' ' ≡ true
  pub space_not-control : u.is_control b' ' ≡ false
  pub left_quote : u.is_control 8249 ≡ false
  pub right_quote : u.is_control 8250 ≡ false
  pub ellipsis : u.is_control 8230 ≡ false

module _ (u : Chars) (laws : CharsLaws u) where
  abbrev Printable : ℕ → Type 0
  Printable c = u.is_control c ≡ false

  strip_markup-Printable : (value : Option Text) → All Printable (strip_markup u value)
  unfolding strip_markup strip_text
  strip_markup-Printable none = tt
  strip_markup-Printable (some []) = tt
  strip_markup-Printable (some (c ∷ s)) = All-rstrip Printable u.is_space _ (
      All-lstrip Printable u.is_space _ (
        All-collapse Printable u false _ laws.space_not-control
          (All-filter Printable _ (sub_tags false (c ∷ s)) (λ d h. ground (arith, h)))))

  neutralise-IsSafe : (c : ℕ) → Printable c → IsSafe u (neutralise c)
  unfolding neutralise
  neutralise-IsSafe c h = ground (arith, laws.left_quote, laws.right_quote)

  All-neutralise : (s : Text) → All Printable s → All (IsSafe u) (map neutralise s)
  All-neutralise [] h = tt
  All-neutralise (c ∷ s) h = (neutralise-IsSafe c h.0, All-neutralise s h.1)

  truncate-IsSafe :
      (max_chars : Option ℕ) (text : Text)
      → All (IsSafe u) text
      → All (IsSafe u) (truncate u max_chars text)
  unfolding truncate
  truncate-IsSafe none text h = h
  truncate-IsSafe (some n) text h = elim (Bool-cases (ltb n (length text))) [
    | inl t ↦ rw t (
        All-append (IsSafe u) _ (8230 ∷ [])
          (All-rstrip (IsSafe u) u.is_space _ (All-upto_pred (IsSafe u) n text h))
          ((ground arith, ground arith, laws.ellipsis), tt))
    | inr f ↦ rw f h
  ]

  -- Whatever the feed sent and whatever the cap, no character of the result is an angle bracket
  -- or a control character, given that the characters which the program puts in are no control
  -- characters.
  pub sanitize-IsSafe :
      (value : Option Text) (max_chars : Option ℕ) → All (IsSafe u) (sanitize u value max_chars)
  unfolding sanitize
  sanitize-IsSafe value max_chars =
      truncate-IsSafe max_chars _ (All-neutralise _ (strip_markup-Printable value))
