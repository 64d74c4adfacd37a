-- ===== src/Rank.antt =====
-- `app/services/rank.py`: the engagement score, and the keys that order the stories.
pub mod Order
pub mod Levels
pub mod Bounds
use news2reel.Base.{
  ℕ, Bool, true, false, Option, none, some, List, [], ◌∷◌, map, if◌then◌else◌, Text, ltb, lex,
  text_lt, sorted,
}
use news2reel.Core.Enums.{
  EngagementLevel, very_low, low, high, very_high, Dimension, engagement_dimensions, level_of,
}
use news2reel.Core.Floats.{FloatOps, ltf}
use news2reel.Core.Config.{Settings, rank_weight}
use news2reel.Model.{Instant, Article, engagement_column}

abbrev pub Levels : Type 0
Levels = List (Dimension × EngagementLevel)

pub record RankInputs : Type 0 where
  pub published_at : Instant
  pub levels : Option Levels
  pub article_id : Text

module _ {F : Type 0} where
  -- `LEVEL_VALUES[level]`
  abbrev pub level_values : FloatOps F → EngagementLevel → F
  level_values fl very_low = fl.lit 0
  level_values fl low = fl.lit 33
  level_values fl high = fl.lit 67
  level_values fl very_high = fl.lit 100

  abbrev pub score_min : FloatOps F → F
  score_min fl = fl.lit 100

  abbrev pub score_max : FloatOps F → F
  score_max fl = fl.lit 1000

  -- `engagement_weights`: the dict as the function that `weights[name]` reads.
  abbrev pub engagement_weights : Settings F → Dimension → F
  engagement_weights settings name = rank_weight settings name

-- One round of the loop of `engagement_levels`: the column's value, and the rest of the loop.
abbrev pub rated_column : Dimension → Option Text → Option Levels → Option Levels
rated_column name none rest = none
rated_column name (some stored) rest = elim (level_of stored) [
  | none ↦ none
  | some level ↦ elim rest [ none ↦ none | some levels ↦ some ((name, level) ∷ levels) ]
]

module _ {F : Type 0} where
  unfoldable pub levels_from : List Dimension → Article F → Option Levels
  levels_from [] article = some []
  levels_from (name ∷ names) article =
      rated_column name (engagement_column article name) (levels_from names article)

  unfoldable pub engagement_levels : Article F → Option Levels
  engagement_levels article = levels_from engagement_dimensions article

-- The tuple that `engagement_sort_key` (for `true`) or `sort_key` returns.
abbrev pub Key : Type 0 → Bool → Type 0
Key F true = F × ℕ × Text
Key F false = ℕ × F × Text

module _ {F : Type 0} (fl : FloatOps F) (settings : Settings F) where
  -- the terms `weights[name] * LEVEL_VALUES[level]`
  unfoldable pub weighted : Levels → List F
  weighted levels = map (λ e. fl.mul (engagement_weights settings e.0) (level_values fl e.1)) levels

  unfoldable pub article_score : RankInputs → F
  article_score inputs = elim inputs.levels [
    | none ↦ score_min fl
    | some levels ↦
        let unit = fl.sum (weighted levels) in
        fl.round1 (fl.add (score_min fl) (fl.mul unit (fl.sub (score_max fl) (score_min fl))))
  ]

  -- Larger contributions first: `key=lambda pair: pair[1], reverse=True`.
  abbrev contributes_more : Dimension × F → Dimension × F → Bool
  contributes_more a b = ltf fl b.1 a.1

  unfoldable pub score_contributions : RankInputs → List (Dimension × F)
  score_contributions inputs = elim inputs.levels [
    | none ↦ []
    | some levels ↦
        sorted contributes_more
          (map (λ e. (e.0, fl.mul (engagement_weights settings e.0) (level_values fl e.1))) levels)
  ]

  unfoldable pub sort_key : RankInputs → Key F false
  sort_key inputs = (inputs.published_at, article_score inputs, inputs.article_id)

  unfoldable pub engagement_sort_key : RankInputs → Key F true
  engagement_sort_key inputs = (article_score inputs, inputs.published_at, inputs.article_id)

  -- `key(inputs, settings)` for the key that `project_story` picks.
  abbrev pub story_key : (by_engagement : Bool) → RankInputs → Key F by_engagement
  story_key true inputs = engagement_sort_key inputs
  story_key false inputs = sort_key inputs

-- `<` on two such tuples
unfoldable pub key_lt : {F : Type 0} → FloatOps F → (by : Bool) → Key F by → Key F by → Bool
key_lt fl true a b =
    lex (ltf fl a.0 b.0) (ltf fl b.0 a.0) (lex (ltb a.1 b.1) (ltb b.1 a.1) (text_lt a.2 b.2))
key_lt fl false a b =
    lex (ltb a.0 b.0) (ltb b.0 a.0) (lex (ltf fl a.1 b.1) (ltf fl b.1 a.1) (text_lt a.2 b.2))
