-- ===== src/Core/Text/Clip.antt =====
-- The caps of `sanitize` and `clip`.
use news2reel.Base.{
  ℕ, zero, suc, ◌≤◌, ◌≡◌, ◌≢◌, refl, ap, sym, Bool, false, Option, none, some, [], ◌∷◌, ◌++◌, leb,
  ltb, Text, length, take, arith, Bool-cases, inl, inr, Option-cases, length-append, length-take-le,
}
use mathlib.Core.List.{append_assoc, append-nil}
use news2reel.Core.Text.{
  Chars, keep_before, rstrip, upto_pred, truncate, sanitize, is_trailing, before_last_space,
  rsplit_head, clip, or_text,
}

-- What `t` adds behind `s`.
abbrev pub Prefix : Text → Text → Type 0
Prefix s t = (rest : Text) × (t ≡ s ++ rest)

Prefix-trans : (s t v : Text) → Prefix s t → Prefix t v → Prefix s v
Prefix-trans s t v (a, p) (b, q) = (a ++ b, rw (q, p) (append_assoc s a b))

length-Prefix : (s t : Text) → Prefix s t → length s ≤ length t
length-Prefix s t (a, p) = omega (arith, ap length p, length-append s a)

take-Prefix : (n : ℕ) (s : Text) → Prefix (take n s) s
unfolding take
take-Prefix zero s = (s, refl)
take-Prefix (suc n) [] = ([], refl)
take-Prefix (suc n) (c ∷ s) = let (rest, e) = take-Prefix n s in (rest, ap (◌∷◌ c) e)

keep_before-Prefix :
    (p : ℕ → Bool) (c : ℕ) (r s : Text) → Prefix r s → Prefix (keep_before p c r) (c ∷ s)
keep_before-Prefix p c [] s h = elim (Bool-cases (p c)) [
  | inl t ↦ rw t (c ∷ s, refl)
  | inr f ↦ rw f (s, refl)
]
keep_before-Prefix p c (d ∷ t) s (rest, e) = (rest, ap (◌∷◌ c) e)

rstrip-Prefix : (p : ℕ → Bool) (s : Text) → Prefix (rstrip p s) s
unfolding rstrip
rstrip-Prefix p [] = ([], refl)
rstrip-Prefix p (c ∷ s) = keep_before-Prefix p c (rstrip p s) s (rstrip-Prefix p s)

before_last_space-Prefix : (s p : Text) → before_last_space s ≡ some p → Prefix p s
unfolding before_last_space
before_last_space-Prefix [] p h = cc
before_last_space-Prefix (c ∷ s) p h = elim (Option-cases (before_last_space s)) [
  | inl e ↦ let blank : p ≡ [] = ground arith in (c ∷ s, rw blank)
  | inr (q, e) ↦
      let (rest, split) = before_last_space-Prefix s q e in
      let kept : p ≡ c ∷ q = ground arith in (rest, rw kept (ap (◌∷◌ c) split))
]

rsplit_head-Prefix : (s : Text) → Prefix (rsplit_head s) s
unfolding rsplit_head
rsplit_head-Prefix s = elim (Option-cases (before_last_space s)) [
  | inl e ↦ rw e ([], sym (append-nil s))
  | inr (p, e) ↦ rw e (before_last_space-Prefix s p e)
]

or_text-Prefix : (a b s : Text) → Prefix a s → Prefix b s → Prefix (or_text a b) s
or_text-Prefix [] b s h k = k
or_text-Prefix (c ∷ a) b s h k = h

or_text-ne-nil : (a b : Text) → b ≢ [] → or_text a b ≢ []
or_text-ne-nil [] b h = h
or_text-ne-nil (c ∷ a) b h = λ e. cc

-- the text on the slide, as far as the box goes
clipped-Prefix :
    (n : ℕ) (text : Text)
    → Prefix (or_text (rstrip is_trailing (rsplit_head (take n text))) (take n text)) (take n text)
clipped-Prefix n text =
    or_text-Prefix _ _ _
      (Prefix-trans _ _ _ (rstrip-Prefix is_trailing _) (rsplit_head-Prefix (take n text)))
      ([], sym (append-nil _))

take-ne-nil : (n : ℕ) (s : Text) → 1 ≤ n → s ≢ [] → take n s ≢ []
unfolding take
take-ne-nil zero s h k = absurd (omega arith)
take-ne-nil (suc n) [] h k = k
take-ne-nil (suc n) (c ∷ s) h k = λ e. cc

module _ (u : Chars) where
  length-truncate : (n : ℕ) (text : Text) → length (truncate u (some (suc n)) text) ≤ suc n
  unfolding truncate upto_pred
  length-truncate n text = ground (
    arith,
    length-append (rstrip u.is_space (take n text)) (8230 ∷ []),
    length-Prefix _ _ (rstrip-Prefix u.is_space (take n text)),
    length-take-le n text,
  )

  -- A cap of at least one character is kept, the ellipsis included.
  length-sanitize :
      (value : Option Text) (max_chars : ℕ)
      → 1 ≤ max_chars
      → length (sanitize u value (some max_chars)) ≤ max_chars
  unfolding sanitize
  length-sanitize value zero h = absurd (omega arith)
  length-sanitize value (suc n) h = length-truncate n _

  -- The clipped headline is the start of the sanitized text and fits the box; the flag is set
  -- exactly when the text did not fit, and without it nothing was lost; and a headline never
  -- vanishes: the result is empty only if the sanitized text is, or the box.
  pub clip_lem :
      (value : Option Text) (max_chars : ℕ)
      → Prefix (clip u value max_chars).0 (sanitize u value none)
        × (length (clip u value max_chars).0 ≤ max_chars)
        × ((clip u value max_chars).1 ≡ ltb max_chars (length (sanitize u value none)))
        × ((clip u value max_chars).1 ≡ false → (clip u value max_chars).0 ≡ sanitize u value none)
        × (1 ≤ max_chars → sanitize u value none ≢ [] → (clip u value max_chars).0 ≢ [])
  unfolding clip
  clip_lem value n =
      let text = sanitize u value none in
      elim (Bool-cases (leb (length text) n)) [
        | inl fits ↦
            rw fits (([], sym (append-nil text)), ground arith, ground arith, λ _. refl, λ _ h. h)
        | inr long ↦
            let cut = rstrip is_trailing (rsplit_head (take n text)) in
            let cut_prefix = clipped-Prefix n text in
            rw long (
              Prefix-trans _ (take n text) text cut_prefix (take-Prefix n text),
              omega (arith, length-Prefix _ _ cut_prefix, length-take-le n text),
              ground arith,
              λ h. absurd (ground arith),
              λ pos h. or_text-ne-nil cut (take n text) (take-ne-nil n text pos h),
            )
      ]
