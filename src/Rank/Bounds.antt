-- ===== src/Rank/Bounds.antt =====
-- The score stays on its scale, and better levels never lower it.
use mathlib.Core.Path.{subst}
use news2reel.Base.{ℕ, true, ◌≡◌, refl, ◌≤◌, ◌∙◌, inl, inr, Option-cases, some, [], ◌∷◌, map, arith}
use news2reel.Core.Enums.{
  EngagementLevel, very_low, low, high, very_high, Dimension, engagement_dimensions,
}
use news2reel.Core.Floats.{FloatOps, FloatLaws, LeAll, AllNonneg}
use news2reel.Core.Config.{Settings, rank_weight, weights_sum_to_one}
use news2reel.Model.{Article}
use news2reel.Rank.{Levels, RankInputs, level_values, engagement_levels, weighted, article_score}
use news2reel.Rank.Levels.{engagement_levels_lem}

-- the place of a level on its scale
abbrev pub level_rank : EngagementLevel → ℕ
level_rank very_low = 0
level_rank low = 1
level_rank high = 2
level_rank very_high = 3

-- The same dimensions in the same order, the second's level nowhere lower.
abbrev pub LevelsLe : Levels → Levels → Type 0
LevelsLe [] [] = Unit
LevelsLe (a ∷ l) (b ∷ m) = (a.0 ≡ b.0) × (level_rank a.1 ≤ level_rank b.1) × LevelsLe l m
LevelsLe l m = ⊥

-- The settings that the bounds are about: no weight is negative, and the validator passed.
pub record AcceptedWeights {F : Type 0} (fl : FloatOps F) (settings : Settings F) : Type 0 where
  pub nonneg : (d : Dimension) → fl.le (fl.lit 0) (rank_weight settings d) ≡ true
  pub sum_checked : weights_sum_to_one fl settings ≡ true

hundredths : EngagementLevel → ℕ
hundredths very_low = 0
hundredths low = 33
hundredths high = 67
hundredths very_high = 100

hundredths_mono :
    (a b : EngagementLevel) → level_rank a ≤ level_rank b → hundredths a ≤ hundredths b
unfolding hundredths
hundredths_mono very_low b h = omega arith
hundredths_mono a b h = ground arith

hundredths-le : (a : EngagementLevel) → hundredths a ≤ 100
unfolding hundredths
hundredths-le a = ground arith

module _ {F : Type 0} (fl : FloatOps F) (laws : FloatLaws fl) where
  level_values-lit : (a : EngagementLevel) → level_values fl a ≡ fl.lit (hundredths a)
  unfolding hundredths
  level_values-lit very_low = refl
  level_values-lit a = refl

  level_values_mono :
      (a b : EngagementLevel)
      → level_rank a ≤ level_rank b
      → fl.le (level_values fl a) (level_values fl b) ≡ true
  level_values_mono a b h =
      rw (level_values-lit a, level_values-lit b)
        (laws.lit_mono (hundredths a) (hundredths b) (hundredths_mono a b h))

  level_values-nonneg : (a : EngagementLevel) → fl.le (fl.lit 0) (level_values fl a) ≡ true
  level_values-nonneg a = rw (level_values-lit a) (laws.lit_mono 0 (hundredths a) (omega arith))

  level_values-le-one : (a : EngagementLevel) → fl.le (level_values fl a) (fl.lit 100) ≡ true
  level_values-le-one a =
      rw (level_values-lit a) (laws.lit_mono (hundredths a) 100 (hundredths-le a))

  span-nonneg : fl.le (fl.lit 0) (fl.sub (fl.lit 1000) (fl.lit 100)) ≡ true
  span-nonneg = laws.sub_nonneg _ _ (laws.lit_mono 100 1000 (omega arith))

  -- the stretch onto 1-10, with its rounding
  stretch : F → F
  stretch unit = fl.round1 (fl.add (fl.lit 100) (fl.mul unit (fl.sub (fl.lit 1000) (fl.lit 100))))

  stretch_mono : (u v : F) → fl.le u v ≡ true → fl.le (stretch u) (stretch v) ≡ true
  unfolding stretch
  stretch_mono u v h =
      laws.round1_mono _ _ (laws.add_mono _ _ _ (laws.mul_mono_right _ _ _ span-nonneg h))

  stretch-floor : (u : F) → fl.le (fl.lit 0) u ≡ true → fl.le (fl.lit 100) (stretch u) ≡ true
  unfolding stretch
  stretch-floor u h =
      subst (λ x. fl.le x (stretch u) ≡ true) laws.round1_one
        (laws.round1_mono _ _ (laws.add_nonneg _ _ (laws.mul_nonneg _ _ h span-nonneg)))

  module _ (settings : Settings F) (accepted : AcceptedWeights fl settings) where
    weighted-nonneg : (levels : Levels) → AllNonneg fl (weighted fl settings levels)
    unfolding weighted
    weighted-nonneg [] = tt
    weighted-nonneg ((d, l) ∷ levels) =
        (laws.mul_nonneg _ _ (accepted.nonneg d) (level_values-nonneg l), weighted-nonneg levels)

    weighted_mono :
        (l m : Levels) → LevelsLe l m → LeAll fl (weighted fl settings l) (weighted fl settings m)
    unfolding weighted
    weighted_mono [] [] h = tt
    weighted_mono [] (b ∷ m) h = h
    weighted_mono (a ∷ l) [] h = h
    weighted_mono ((d, a) ∷ l) ((e, b) ∷ m) h = (
      rw h.0 (laws.mul_mono_left _ _ _ (accepted.nonneg e) (level_values_mono a b h.1)),
      weighted_mono l m h.2,
    )

    -- no term exceeds its weight
    weighted-le :
        (levels : Levels)
        → LeAll fl
            (weighted fl settings levels)
            (map (rank_weight settings) (map (λ e. e.0) levels))
    unfolding weighted
    weighted-le [] = tt
    weighted-le ((d, l) ∷ levels) = (
      subst (λ x. fl.le (fl.mul (rank_weight settings d) (level_values fl l)) x ≡ true)
          (laws.mul_one (rank_weight settings d))
          (laws.mul_mono_left _ _ _ (accepted.nonneg d) (level_values-le-one l)),
      weighted-le levels,
    )

    total : F
    total = fl.sum (map (rank_weight settings) engagement_dimensions)

    stretch-total : fl.le (stretch total) (fl.lit 1000) ≡ true
    unfolding stretch weights_sum_to_one total
    stretch-total = laws.round1_near_ten total accepted.sum_checked

    rated-bounds :
        (levels : Levels)
        → map (λ e. e.0) levels ≡ engagement_dimensions
        → (fl.le (fl.lit 100) (stretch (fl.sum (weighted fl settings levels))) ≡ true)
          × (fl.le (stretch (fl.sum (weighted fl settings levels))) (fl.lit 1000) ≡ true)
    unfolding total
    rated-bounds levels seven = (
      stretch-floor _ (laws.sum_nonneg _ (weighted-nonneg levels)),
      laws.le_trans _ _ _
          (stretch_mono _ total (
            laws.sum_mono _ _ (
              subst (λ ds. LeAll fl (weighted fl settings levels) (map (rank_weight settings) ds))
                seven (weighted-le levels))))
          stretch-total,
    )

    -- With lawful floats and accepted weights (none negative, and the sum checked), every
    -- article scores from 1.0 to 10.0, rated or not, whatever its columns hold.
    pub article_score-bounds :
        (article : Article F) (inputs : RankInputs)
        → inputs.levels ≡ engagement_levels article
        → (fl.le (fl.lit 100) (article_score fl settings inputs) ≡ true)
          × (fl.le (article_score fl settings inputs) (fl.lit 1000) ≡ true)
    unfolding article_score stretch
    article_score-bounds article inputs h = elim (Option-cases (engagement_levels article)) [
      | inl unrated ↦ rw (h ∙ unrated) (laws.le_refl _, laws.lit_mono 100 1000 (omega arith))
      | inr (levels, rated) ↦
          rw (h ∙ rated) (rated-bounds levels ((engagement_levels_lem article).0 levels rated).0)
    ]

    -- With lawful floats and accepted weights, of two rated articles with the same dimensions,
    -- the one whose levels are nowhere lower does not score lower.
    article_score_mono :
        (a b : RankInputs) (l m : Levels)
        → a.levels ≡ some l
        → b.levels ≡ some m
        → LevelsLe l m
        → fl.le (article_score fl settings a) (article_score fl settings b) ≡ true
    unfolding article_score stretch
    article_score_mono a b l m p q h =
        rw (p, q) (stretch_mono _ _ (laws.sum_mono _ _ (weighted_mono l m h)))
