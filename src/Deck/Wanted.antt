-- ===== src/Deck/Wanted.antt =====
-- How many rows a list of wanted ids finds, in `resolve_stories` of `app/services/carousel.py`.
use news2reel.Base.{
  ◌+◌, ◌≤◌, ◌≡◌, refl, true, false, some, List, [], ◌∷◌, arith, length, Text, text_eq, text_eq_iff,
  any, filter_map, count, All, Option-cases, inl, inr,
}
use news2reel.Model.{Article}
use news2reel.Store.{Db, StoryRow, get_city_row, get_source_row, story_row}
use news2reel.Ingest.Persist.Dedupe.{UniqueIds}

module _ {F : Type 0} where
  -- the row of an article holds that article
  story_row-article :
      (db : Db F) (a : Article F) (row : StoryRow F) → story_row db a ≡ some row → row.article ≡ a
  unfolding story_row
  story_row-article db a row h = elim (Option-cases (get_source_row db a.source_id)) [
    | inl e ↦ absurd (ground arith)
    | inr (source, e) ↦ elim (Option-cases (get_city_row db source.city_id)) [
      | inl e' ↦ absurd (ground arith)
      | inr (c, e') ↦ ground arith
    ]
  ]

  -- an id stands in one row at most
  count_apart :
      (w : Text) (a : Article F) (articles : List (Article F))
      → text_eq a.id w ≡ true
      → All (λ b. text_eq a.id b.id ≡ false) articles
      → count (λ b. text_eq b.id w) articles ≡ 0
  unfolding count
  count_apart w a [] h k = refl
  count_apart w a (b ∷ articles) h k = ground (
    arith,
    count_apart w a articles h k.1,
    text_eq_iff a.id w,
    text_eq_iff b.id w,
    text_eq_iff a.id b.id,
  )

  pub count_unique :
      (w : Text) (articles : List (Article F))
      → UniqueIds articles
      → count (λ a. text_eq a.id w) articles ≤ 1
  unfolding count
  count_unique w [] h = omega arith
  count_unique w (a ∷ articles) h =
      ground (arith, count_unique w articles h.1, count_apart w a articles)

  pub count-story_rows :
      (db : Db F) (w : Text) (articles : List (Article F))
      → count (λ r. text_eq r.article.id w) (filter_map (story_row db) articles)
        ≤ count (λ a. text_eq a.id w) articles
  unfolding count filter_map
  count-story_rows db w [] = omega arith
  count-story_rows db w (a ∷ articles) =
      let rest = count-story_rows db w articles in
      elim (Option-cases (story_row db a)) [
        | inl e ↦ rw e (ground arith)
        | inr (row, e) ↦ let same = story_row-article db a row e in rw (e, same) (ground arith)
      ]

  -- each of the wanted ids brings one row at most
  count-any :
      (w : Text) (wanted : List Text) (rows : List (StoryRow F))
      → count (λ r. any (λ id. text_eq r.article.id id) (w ∷ wanted)) rows
        ≤ count (λ r. text_eq r.article.id w) rows
          + count (λ r. any (λ id. text_eq r.article.id id) wanted) rows
  unfolding count any
  count-any w wanted [] = omega arith
  count-any w wanted (r ∷ rows) = ground (arith, count-any w wanted rows)

  none_wanted :
      (rows : List (StoryRow F)) → count (λ r. any (λ id. text_eq r.article.id id) []) rows ≤ 0
  unfolding count any
  none_wanted [] = omega arith
  none_wanted (r ∷ rows) = omega (arith, none_wanted rows)

  pub count_wanted :
      (wanted : List Text) (rows : List (StoryRow F))
      → ((w : Text) → count (λ r. text_eq r.article.id w) rows ≤ 1)
      → count (λ r. any (λ id. text_eq r.article.id id) wanted) rows ≤ length wanted
  count_wanted [] rows h = none_wanted rows
  count_wanted (w ∷ wanted) rows h =
      omega (arith, count-any w wanted rows, h w, count_wanted wanted rows h)
