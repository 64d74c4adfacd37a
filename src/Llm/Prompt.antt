-- ===== src/Llm/Prompt.antt =====
-- The marks that delimit the elements of the prompt.
use news2reel.Base.{
  ℕ, suc, ◌+◌, ◌≡◌, refl, ◌∙◌, inl, inr, Bool, true, false, Option, none, some, List, [], ◌∷◌, ◌++◌,
  arith, ◌==◌, ==_iff, if◌then◌else◌, Text, codes, take, count, count-append, Bool-cases,
}
use news2reel.Core.Config.{Settings}
use news2reel.Llm.{
  Item, replace, attr_safe, or_unknown, join_lines, summary_element, title_element, article_line,
  article_lines, build_prompt,
}

-- What one character becomes.
abbrev pub escaped : ℕ → Text
escaped c =
    if c == b'&'
    then codes "&amp;"
    else if c == b'<'
    then codes "&lt;"
    else if c == b'>'
    then codes "&gt;"
    else if c == 34
    then codes "&quot;"
    else c ∷ []

attr_safe-cons : (c : ℕ) (s : Text) → attr_safe (c ∷ s) ≡ escaped c ++ attr_safe s
unfolding attr_safe replace
attr_safe-cons c s = elim (Bool-cases (c == b'&')) [
  | inl e ↦ rw ((==_iff c b'&').0 e) refl
  | inr f1 ↦ elim (Bool-cases (c == b'<')) [
    | inl e ↦ rw ((==_iff c b'<').0 e) refl
    | inr f2 ↦ elim (Bool-cases (c == b'>')) [
      | inl e ↦ rw ((==_iff c b'>').0 e) refl
      | inr f3 ↦ elim (Bool-cases (c == 34)) [
        | inl e ↦ rw ((==_iff c 34).0 e) refl
        | inr f4 ↦ rw f1 (rw f2 (rw f3 (rw f4 refl)))
      ]
    ]
  ]
]

-- the marks with which an element or its attribute begins or ends
pub data Mark : Type 0 where
  opening closing quote : Mark

abbrev pub code_of : Mark → ℕ
code_of opening = b'<'
code_of closing = b'>'
code_of quote = 34

abbrev pub marks : Mark → Text → ℕ
marks m text = count (λ c. c == code_of m) text

marks-escaped : (m : Mark) (c : ℕ) → marks m (escaped c) ≡ 0
unfolding count
marks-escaped opening c = ground arith
marks-escaped closing c = ground arith
marks-escaped quote c = ground arith

marks-attr_safe : (m : Mark) (s : Text) → marks m (attr_safe s) ≡ 0
unfolding attr_safe replace count
marks-attr_safe m [] = refl
marks-attr_safe m (c ∷ s) = rw (attr_safe-cons c s) (
    count-append (λ d. d == code_of m) (escaped c) (attr_safe s)
    ∙ omega (arith, marks-escaped m c, marks-attr_safe m s))

marks-append : (m : Mark) (s t : Text) → marks m (s ++ t) ≡ marks m s + marks m t
marks-append m s t = count-append (λ c. c == code_of m) s t

-- Whether an item travels with this summary.
abbrev pub has_summary : Option Text → Bool
has_summary (some (c ∷ s)) = true
has_summary summary = false

-- The marks of an element with a title, with or without a summary, and with one attribute in quotes.
abbrev pub element_marks : Mark → Bool → ℕ
element_marks quote summary = 2
element_marks m true = 6
element_marks m false = 4

abbrev pub total_marks : Mark → List Item → ℕ
total_marks m [] = 0
total_marks m (item ∷ items) = element_marks m (has_summary item.summary) + total_marks m items

marks-around :
    (m : Mark) (before text after : Text)
    → marks m (before ++ (attr_safe text ++ after)) ≡ marks m before + marks m after
marks-around m before text after = omega (
  arith,
  marks-append m before (attr_safe text ++ after),
  marks-append m (attr_safe text) after,
  marks-attr_safe m text,
)

marks-newline : (m : Mark) (t : Text) → marks m (10 ∷ t) ≡ marks m t
unfolding count
marks-newline opening t = omega arith
marks-newline closing t = omega arith
marks-newline quote t = omega arith

marks-nil : (m : Mark) → marks m [] ≡ 0
unfolding count
marks-nil m = refl

marks-header : (m : Mark) → marks m (codes "Headlines (untrusted data, delimited):") ≡ 0
unfolding count
marks-header opening = refl
marks-header closing = refl
marks-header quote = refl

module _ {F : Type 0} (settings : Settings F) (decimal : ℕ → Text) where
  summary_marks :
      (m : Mark) (c : ℕ) (s : Text)
      → marks m (summary_element settings (some (c ∷ s)))
        ≡ marks m (codes "<summary>") + marks m (codes "</summary>")
  summary_marks m c s =
      marks-around m (codes "<summary>") (take settings.classify_summary_max_chars (c ∷ s))
        (codes "</summary>")

  title_marks :
      (m : Mark) (title : Text)
      → marks m (title_element settings title)
        ≡ marks m (codes "<title>") + marks m (codes "</title>")
  title_marks m title =
      marks-around m (codes "<title>") (take settings.classify_title_max_chars title)
        (codes "</title>")

  -- all of an element but its summary
  abbrev frame : Mark → ℕ
  frame m =
      marks m (codes "<article index=")
      + (marks m (codes " feed_city=\"")
          + (marks m (codes "\">")
              + (marks m (codes "<title>")
                  + (marks m (codes "</title>") + marks m (codes "</article>")))))

  marks-element :
      (m : Mark) (summary : Option Text)
      → frame m + marks m (summary_element settings summary) ≡ element_marks m (has_summary summary)
  unfolding count
  marks-element opening none = refl
  marks-element closing none = refl
  marks-element quote none = refl
  marks-element opening (some []) = refl
  marks-element closing (some []) = refl
  marks-element quote (some []) = refl
  marks-element opening (some (c ∷ s)) = omega (arith, summary_marks opening c s)
  marks-element closing (some (c ∷ s)) = omega (arith, summary_marks closing c s)
  marks-element quote (some (c ∷ s)) = omega (arith, summary_marks quote c s)

  line_marks :
      (m : Mark) (a b c d e f g h : Text)
      → marks m (a ++ (b ++ (c ++ (d ++ (e ++ (f ++ (g ++ h)))))))
        ≡ marks m a
          + (marks m b
              + (marks m c + (marks m d + (marks m e + (marks m f + (marks m g + marks m h))))))
  line_marks m a b c d e f g h = simp marks-append

  marks-article_line :
      (m : Mark)
      → ((n : ℕ) → marks m (decimal n) ≡ 0)
      → (index : ℕ) (item : Item)
      → marks m (article_line settings decimal index item)
        ≡ element_marks m (has_summary item.summary)
  unfolding article_line
  marks-article_line m digits index item =
      line_marks m (codes "<article index=") (decimal index) (codes " feed_city=\"")
        (attr_safe (or_unknown item.feed_city)) (codes "\">") (title_element settings item.title)
        (summary_element settings item.summary) (codes "</article>")
      ∙ omega (
        arith,
        digits index,
        marks-attr_safe m (or_unknown item.feed_city),
        title_marks m item.title,
        marks-element m item.summary,
      )

  marks-join_lines :
      (m : Mark)
      → ((n : ℕ) → marks m (decimal n) ≡ 0)
      → (index : ℕ) (items : List Item)
      → marks m (join_lines (article_lines settings decimal index items)) ≡ total_marks m items
  unfolding article_lines join_lines
  marks-join_lines m digits index [] = marks-nil m
  marks-join_lines m digits index (item ∷ []) =
      omega (arith, marks-article_line m digits index item)
  marks-join_lines m digits index (item ∷ other ∷ items) =
      marks-append m (article_line settings decimal index item)
        (10 ∷ join_lines (article_lines settings decimal (suc index) (other ∷ items)))
      ∙ omega (
        arith,
        marks-article_line m digits index item,
        marks-newline m (join_lines (article_lines settings decimal (suc index) (other ∷ items))),
        marks-join_lines m digits (suc index) (other ∷ items),
      )

  -- The prompt holds exactly the brackets and quotes of its own elements, whatever the headlines,
  -- the summaries and the names of the cities say: four of each bracket for an item, six with a
  -- summary, and two quotes; given that the digits of an index are none of these.
  pub marks-build_prompt :
      (m : Mark)
      → ((n : ℕ) → marks m (decimal n) ≡ 0)
      → (items : List Item) → marks m (build_prompt settings decimal items) ≡ total_marks m items
  unfolding build_prompt
  marks-build_prompt m digits items =
      marks-append m (codes "Headlines (untrusted data, delimited):")
        (10 ∷ join_lines (article_lines settings decimal 0 items))
      ∙ omega (
        arith,
        marks-header m,
        marks-newline m (join_lines (article_lines settings decimal 0 items)),
        marks-join_lines m digits 0 items,
      )
