-- ===== src/Classify/WholeRows.antt =====
-- The verdict on a row, as `persist_categories` stores it.
use mathlib.Core.Option
use mathlib.Core.List.{map-map}
use news2reel.Base.{
  ℕ, ◌≡◌, refl, sym, ap, ◌∙◌, ◌⊎◌, inl, inr, true, false, Option, none, some, List, [], ◌∷◌, map,
  arith, if◌then◌else◌, Text, text_eq, text_eq_iff, find?, find?-passes, find?-map, All, All-map,
  Bool-cases, Dict, dict_get, any,
}
use news2reel.Core.Enums.{
  EngagementLevel, very_low, low, high, very_high, level_of, Dimension, engagement_dimensions,
  level_value, emotional_salience, audience_breadth, impact, novelty, human_interest, timeliness,
  visual_potential, content_type_value,
}
use news2reel.Core.Category.{category_value}
use news2reel.Core.Floats.{FloatOps, FloatLaws, minf, maxf}
use news2reel.Core.Config.{Settings}
use news2reel.Model.{Instant, Article, engagement_column}
use news2reel.Rank.{Levels, rated_column, levels_from, engagement_levels}
use news2reel.Store.{Db, get_article_row}
use news2reel.Llm.{TitleClassification, Attempt, level_for}
use news2reel.Classify.{
  judged, judged-id, judge, judge_all, persist_categories, load_unclassified, pass_over,
  run_classify_pass,
}

-- the seven levels of a verdict, under their names
abbrev pub verdict_levels : {F : Type 0} → TitleClassification F → Levels
verdict_levels result = map (λ d. (d, level_for result d)) engagement_dimensions

column-level :
    (name : Dimension) (level : EngagementLevel) {rest : Option Levels} {levels : Levels}
    → rest ≡ some levels
    → rated_column name (some (level_value level)) rest ≡ some ((name, level) ∷ levels)
unfolding level_of text_eq
column-level name very_low e = rw e refl
column-level name low e = rw e refl
column-level name high e = rw e refl
column-level name very_high e = rw e refl

module _ {F : Type 0} (fl : FloatOps F) where
  -- The row carries this verdict: what it is about, and the seven levels as the score reads them,
  -- with a confidence from 0.0 to 1.0.
  abbrev pub Carries : TitleClassification F → Article F → Type 0
  Carries result a =
      (engagement_levels a ≡ some (verdict_levels result))
      × (a.category ≡ some (category_value result.category))
      × (a.content_type ≡ some (content_type_value result.content_type))
      × (a.is_city_relevant ≡ some result.is_city_relevant)
      × ((c : F) × (a.relevance_confidence ≡ some c)
          × (fl.le (fl.lit 0) c ≡ true)
          × (fl.le c (fl.lit 100) ≡ true))

  clamped-bounds :
      FloatLaws fl
      → (x : F)
      → (fl.le (fl.lit 0) (minf fl (fl.lit 100) (maxf fl (fl.lit 0) x)) ≡ true)
        × (fl.le (minf fl (fl.lit 100) (maxf fl (fl.lit 0) x)) (fl.lit 100) ≡ true)
  clamped-bounds laws x =
      let refl_0 = laws.le_refl (fl.lit 0) in
      let refl_1 = laws.le_refl (fl.lit 100) in
      let ordered = laws.lit_mono 0 100 (omega arith) in
      let total_0 = laws.le_total x (fl.lit 0) in
      let total_1 = laws.le_total (fl.lit 100) x in
      let total_2 = laws.le_total (fl.lit 100) (fl.lit 0) in ground arith

  -- what the score reads back
  levels_lem :
      (result : TitleClassification F) (a : Article F)
      → engagement_levels (judged fl (some result) a) ≡ some (verdict_levels result)
  unfolding judged engagement_levels levels_from
  levels_lem result a = column-level emotional_salience result.emotional_salience (
      column-level audience_breadth result.audience_breadth (
        column-level impact result.impact (
          column-level novelty result.novelty (
            column-level human_interest result.human_interest (
              column-level timeliness result.timeliness
                (column-level visual_potential result.visual_potential refl))))))

  judged-Carries :
      FloatLaws fl
      → (result : TitleClassification F) (a : Article F)
      → Carries result (judged fl (some result) a)
  unfolding judged
  judged-Carries laws result a =
      let (above, below) = clamped-bounds laws result.confidence in
      (levels_lem result a, refl, refl, refl, (_, refl, above, below))

  module _ (assigned : Dict Text (TitleClassification F)) where
    -- One round for one row.
    abbrev pub touched : Text → Article F → Article F
    touched id a = if text_eq a.id id then judged fl (dict_get text_eq id assigned) a else a

    abbrev pub judged_by : List Text → Article F → Article F
    judged_by [] a = a
    judged_by (id ∷ ids) a = judged_by ids (touched id a)

    touched-id : (id : Text) (a : Article F) → (touched id a).id ≡ a.id
    touched-id id a = elim (Bool-cases (text_eq a.id id)) [
      | inl e ↦ rw e (judged-id fl (dict_get text_eq id assigned) a)
      | inr f ↦ rw f refl
    ]

    map-same : (articles : List (Article F)) → map (λ a. a) articles ≡ articles
    map-same [] = refl
    map-same (a ∷ articles) = ap (λ rest. a ∷ rest) (map-same articles)

    unless_here :
        (id : Text) (ids : List Text) (a : Article F)
        → text_eq a.id id ≡ false
        → any (text_eq a.id) (id ∷ ids) ≡ true
        → any (text_eq a.id) ids ≡ true
    unfolding any
    unless_here id ids a other h = ground arith

    judge_all-map :
        (ids : List Text) (articles : List (Article F))
        → judge_all fl assigned ids articles ≡ map (judged_by ids) articles
    unfolding judge_all judge
    judge_all-map [] articles = sym (map-same articles)
    judge_all-map (id ∷ ids) articles =
        judge_all-map ids (map (touched id) articles)
        ∙ map-map (judged_by ids) (touched id) articles

    judged_by-id : (ids : List Text) (a : Article F) → (judged_by ids a).id ≡ a.id
    judged_by-id [] a = refl
    judged_by-id (id ∷ ids) a = judged_by-id ids (touched id a) ∙ touched-id id a

    -- A row that carries its verdict keeps it, and one that is attempted gets it.
    module _ (laws : FloatLaws fl) (result : TitleClassification F) where
      touched-Carries :
          (id : Text) (a : Article F)
          → dict_get text_eq a.id assigned ≡ some result
          → text_eq a.id id ≡ true
          → Carries result (touched id a)
      touched-Carries id a e same =
          rw same (rw (sym ((text_eq_iff a.id id).0 same)) (rw e (judged-Carries laws result a)))

      judged_by-keeps :
          (ids : List Text) (a : Article F)
          → dict_get text_eq a.id assigned ≡ some result
          → Carries result a
          → Carries result (judged_by ids a)
      judged_by-keeps [] a e h = h
      judged_by-keeps (id ∷ ids) a e h =
          judged_by-keeps ids (touched id a) (rw (touched-id id a) e)
            (elim (Bool-cases (text_eq a.id id)) [
              | inl same ↦ touched-Carries id a e same
              | inr other ↦ rw other h
            ])

      judged_by-Carries :
          (ids : List Text) (a : Article F)
          → dict_get text_eq a.id assigned ≡ some result
          → any (text_eq a.id) ids ≡ true
          → Carries result (judged_by ids a)
      unfolding any
      judged_by-Carries [] a e h = absurd (ground arith)
      judged_by-Carries (id ∷ ids) a e h = elim (Bool-cases (text_eq a.id id)) [
        | inl same ↦
            judged_by-keeps ids (touched id a) (rw (touched-id id a) e)
              (touched-Carries id a e same)
        | inr other ↦
            judged_by-Carries ids (touched id a) (rw (touched-id id a) e)
              (rw (touched-id id a) (unless_here id ids a other h))
      ]

  -- For lawful floats: when an article of the batch is stored and got a verdict, its row carries
  -- that verdict after `persist_categories`, however the rest of the batch went: all seven levels
  -- as the score reads them, what the story is about, and a confidence from 0.0 to 1.0.
  pub persist_categories-Carries :
      FloatLaws fl
      → (assigned : Dict Text (TitleClassification F)) (attempted_ids : List Text) (db : Db F)
      → (article_id : Text) (article : Article F) (result : TitleClassification F)
      → get_article_row db article_id ≡ some article
      → any (text_eq article_id) attempted_ids ≡ true
      → dict_get text_eq article_id assigned ≡ some result
      → (stored : Article F) × (get_article_row
            (persist_categories fl assigned attempted_ids db).0
            article_id
          ≡ some stored)
        × Carries result stored
  unfolding persist_categories get_article_row
  persist_categories-Carries laws assigned attempted_ids db article_id article result there among
        e =
      let same : article.id ≡ article_id =
        (text_eq_iff article.id article_id).0
          (find?-passes (λ a. text_eq a.id article_id) db.articles article there) in
      (
        judged_by assigned attempted_ids article,
        ap (find? (λ a. text_eq a.id article_id)) (judge_all-map assigned attempted_ids db.articles)
            ∙ find?-map (λ a. text_eq a.id article_id) (judged_by assigned attempted_ids)
                (λ a. ap (λ id. text_eq id article_id) (judged_by-id assigned attempted_ids a))
                db.articles
            ∙ ap (Option.map (judged_by assigned attempted_ids)) there,
        judged_by-Carries assigned laws result attempted_ids article (rw same e) (rw same among),
      )

  -- Every column of the seven holds nothing, or every column holds a level.
  abbrev IsWhole : Article F → Type 0
  IsWhole a =
      All (λ d. engagement_column a d ≡ none) engagement_dimensions
      ⊎ ((levels : Levels) × (engagement_levels a ≡ some levels))

  judged-IsWhole :
      (verdict : Option (TitleClassification F)) (a : Article F)
      → IsWhole a
      → IsWhole (judged fl verdict a)
  unfolding judged engagement_levels levels_from
  judged-IsWhole none a h = h
  judged-IsWhole (some result) a h = inr (verdict_levels result, levels_lem result a)

  touched-IsWhole :
      (assigned : Dict Text (TitleClassification F)) (id : Text) (a : Article F)
      → IsWhole a
      → IsWhole (touched assigned id a)
  touched-IsWhole assigned id a h = elim (Bool-cases (text_eq a.id id)) [
    | inl e ↦ rw e (judged-IsWhole (dict_get text_eq id assigned) a h)
    | inr f ↦ rw f h
  ]

  judge_all-IsWhole :
      (assigned : Dict Text (TitleClassification F)) (ids : List Text) (articles : List (Article F))
      → All IsWhole articles
      → All IsWhole (judge_all fl assigned ids articles)
  unfolding judge_all judge
  judge_all-IsWhole assigned [] articles h = h
  judge_all-IsWhole assigned (id ∷ ids) articles h =
      judge_all-IsWhole assigned ids (map (touched assigned id) articles)
        (All-map IsWhole IsWhole (touched assigned id) (touched-IsWhole assigned id) articles h)

  -- A pass leaves no half-judged row: when every row holds all seven levels or none, before it and
  -- after what other transactions did meanwhile, then so does every row after it, whatever the
  -- provider answered.
  run_classify_pass-IsWhole :
      (settings : Settings F) (decimal : ℕ → Text) (client : Text → ℕ → Attempt F)
      (meanwhile : Db F → Db F) (now : Instant) (db : Db F)
      → All IsWhole db.articles
      → All IsWhole (meanwhile db).articles
      → All IsWhole (run_classify_pass fl settings decimal client meanwhile now db).db.articles
  unfolding run_classify_pass persist_categories
  run_classify_pass-IsWhole settings decimal client meanwhile now db before after =
      elim (load_unclassified settings db now)
        as (λ batch.
          All IsWhole (pass_over fl settings decimal client meanwhile db batch).db.articles) [
            | [] ↦ before
            | first ∷ others ↦ judge_all-IsWhole _ _ (meanwhile db).articles after
          ]
