-- ===== src/Rank/Levels.antt =====
-- `engagement_levels` reads a whole row or nothing.
use news2reel.Base.{
  Bool, true, ◌≡◌, refl, ◌↔◌, Option, none, some, List, [], ◌∷◌, map, arith, Text, All, any,
  is_none,
}
use news2reel.Core.Enums.{
  EngagementLevel, Dimension, engagement_dimensions, level_of, level_value, level_value_of_level_of,
}
use news2reel.Model.{Article, engagement_column}
use news2reel.Rank.{Levels, rated_column, levels_from, engagement_levels}
use mathlib.Core.Path.{ap₂}

-- A column that holds no level: NULL, or a string outside the enum.
abbrev pub no_level : Option Text → Bool
no_level none = true
no_level (some t) = is_none (level_of t)

-- The level that a column holds.
abbrev pub Holds : {F : Type 0} → Article F → Dimension × EngagementLevel → Type 0
Holds article e = engagement_column article e.0 ≡ some (level_value e.1)

rated_column-some :
    (name : Dimension) (column : Option Text) (rest : Option Levels) (level : EngagementLevel)
    (d : Dimension) (levels : Levels)
    → rated_column name column rest ≡ some ((d, level) ∷ levels)
    → (d ≡ name) × (column ≡ some (level_value level)) × (rest ≡ some levels)
rated_column-some name none rest level d levels h = cc
rated_column-some name (some t) rest level d levels h =
    ground (arith, level_value_of_level_of t level)

module _ {F : Type 0} (article : Article F) where
  levels_from-some :
      (names : List Dimension) (levels : Levels)
      → levels_from names article ≡ some levels
      → (map (λ e. e.0) levels ≡ names) × All (Holds article) levels
  unfolding levels_from
  levels_from-some [] [] h = (refl, tt)
  levels_from-some [] (e ∷ levels) h = cc
  levels_from-some (name ∷ names) [] h = absurd (ground arith)
  levels_from-some (name ∷ names) ((d, level) ∷ levels) h =
      let column = engagement_column article name in
      let (e, held, rest) = rated_column-some name column _ level d levels h in
      let (named, held_by) = levels_from-some names levels rest in
      (ap₂ ◌∷◌ e named, (rw e held, held_by))

  levels_from-none :
      (names : List Dimension)
      → (levels_from names article ≡ none)
        ↔ (any (λ d. no_level (engagement_column article d)) names ≡ true)
  unfolding levels_from any
  levels_from-none [] = ground arith
  levels_from-none (name ∷ names) = ground (arith, levels_from-none names)

  -- A row is rated when each of the seven columns holds a level, and then the seven levels come
  -- back in weight order, each the one that its column holds; otherwise the row is unrated.
  pub engagement_levels_lem :
      ((levels : Levels)
        → engagement_levels article ≡ some levels
        → (map (λ e. e.0) levels ≡ engagement_dimensions) × All (Holds article) levels)
      × ((engagement_levels article ≡ none)
          ↔ (any (λ d. no_level (engagement_column article d)) engagement_dimensions ≡ true))
  unfolding engagement_levels
  engagement_levels_lem =
      (levels_from-some engagement_dimensions, levels_from-none engagement_dimensions)
