-- ===== src/Core/Text.antt =====
-- `app/core/text.py`: feed text on its way out of the database. `re`, `unicodedata` and the
-- whitespace of `str` are the standard library's: the tests of one character are parameters.
pub mod Safe
pub mod Clip
use news2reel.Base.{
  ℕ, zero, suc, ◌-◌, Bool, true, false, not, ◌&&◌, ◌||◌, Option, none, some, List, [], ◌∷◌, ◌++◌,
  map, if◌then◌else◌, ◌==◌, leb, ltb, Text, length, take, filter, any, or_else,
}

-- What the standard library says of a character.
pub record Chars : Type 0 where
  -- `str.isspace`, which is also `\s` of a pattern for `str`
  pub is_space : ℕ → Bool
  -- `unicodedata.category(ch)[0] == "C"`
  pub is_control : ℕ → Bool

-- `_TAG_RE.sub(" ", value)`: a `<` with a `>` somewhere behind it goes, with all up to the first
-- such `>`. `inside` says that the scan is within a match.
unfoldable pub sub_tags : Bool → Text → Text
sub_tags inside [] = []
sub_tags true (c ∷ s) = sub_tags (not (c == b'>')) s
sub_tags false (c ∷ s) =
    let opens = (c == b'<') && any (λ d. d == b'>') s in
    (if opens then b' ' else c) ∷ sub_tags opens s

-- `text.replace("<", "‹").replace(">", "›")`
unfoldable pub neutralise : ℕ → ℕ
neutralise c = if c == b'<' then 8249 else if c == b'>' then 8250 else c

-- The text before the last space, if it has one.
unfoldable pub before_last_space : Text → Option Text
before_last_space [] = none
before_last_space (c ∷ s) = elim (before_last_space s) [
  | none ↦ if c == b' ' then some [] else none
  | some p ↦ some (c ∷ p)
]

-- `s.rstrip(…)` and `s.lstrip(…)` over the characters that `p` accepts
abbrev pub keep_before : (ℕ → Bool) → ℕ → Text → Text
keep_before p c [] = if p c then [] else c ∷ []
keep_before p c (d ∷ t) = c ∷ d ∷ t

unfoldable pub rstrip : (ℕ → Bool) → Text → Text
rstrip p [] = []
rstrip p (c ∷ s) = keep_before p c (rstrip p s)

unfoldable pub lstrip : (ℕ → Bool) → Text → Text
lstrip p [] = []
lstrip p (c ∷ s) = let rest = lstrip p s in if p c then rest else c ∷ s

-- `text[: n - 1]`: a negative end counts from the end of the text.
unfoldable pub upto_pred : ℕ → Text → Text
upto_pred zero text = take (length text - 1) text
upto_pred (suc n) text = take n text

-- the characters of `" ,;:-"`
unfoldable pub is_trailing : ℕ → Bool
is_trailing c = (c == b' ') || (c == b',') || (c == b';') || (c == b':') || (c == b'-')

-- `text.rsplit(" ", 1)[0]`
unfoldable pub rsplit_head : Text → Text
rsplit_head text = or_else (before_last_space text) text

-- `cut or text[:max_chars]`
abbrev pub or_text : Text → Text → Text
or_text [] text = text
or_text (c ∷ s) text = c ∷ s

module _ (u : Chars) where
  -- `_WHITESPACE_RE.sub(" ", text)`: `run` says that the character before was whitespace.
  unfoldable pub collapse : Bool → Text → Text
  collapse run [] = []
  collapse run (c ∷ s) =
      let rest = collapse (u.is_space c) s in
      if u.is_space c then (if run then rest else b' ' ∷ rest) else c ∷ rest

  unfoldable pub strip_text : Text → Text
  strip_text value =
      let text = filter (λ ch. not (u.is_control ch)) (sub_tags false value) in
      rstrip u.is_space (lstrip u.is_space (collapse false text))

  unfoldable pub strip_markup : Option Text → Text
  strip_markup none = []
  strip_markup (some []) = []
  strip_markup (some (c ∷ s)) = strip_text (c ∷ s)

  -- The branch on `max_chars`; 8230 is the ellipsis.
  unfoldable pub truncate : Option ℕ → Text → Text
  truncate none text = text
  truncate (some max_chars) text =
      if ltb max_chars (length text)
      then rstrip u.is_space (upto_pred max_chars text) ++ 8230 ∷ []
      else text

  unfoldable pub sanitize : Option Text → Option ℕ → Text
  sanitize value max_chars = truncate max_chars (map neutralise (strip_markup value))

  unfoldable pub clip : Option Text → ℕ → Text × Bool
  clip value max_chars =
      let text = sanitize value none in
      if leb (length text) max_chars then (text, false) else (
        or_text (rstrip is_trailing (rsplit_head (take max_chars text))) (take max_chars text),
        true,
      )
