-- ===== src/Core/Enums.antt =====
-- `app/core/enums.py`: the closed vocabularies, and the strings that a database column stores for
-- them. `E(stored)` raises `ValueError` on an unknown string: here the lookup gives `none`.
use news2reel.Base.{◌≡◌, ◌↔◌, refl, Option, none, some, List, [], ◌∷◌, arith, if◌then◌else◌}
use news2reel.Base.{Text, codes, text_eq, text_eq_iff}

pub data EngagementLevel : Type 0 where
  very_low low high very_high : EngagementLevel

pub data ContentType : Type 0 where
  news oddity opinion advice_tips promotional celebrity_entertainment explainer other : ContentType

-- The names of the seven columns, in weight order.
pub data Dimension : Type 0 where
  emotional_salience audience_breadth impact novelty : Dimension
  human_interest timeliness visual_potential : Dimension

-- `ENGAGEMENT_DIMENSIONS`
abbrev pub engagement_dimensions : List Dimension
engagement_dimensions =
    emotional_salience ∷ audience_breadth ∷ impact ∷ novelty ∷ human_interest ∷ timeliness
    ∷ visual_potential ∷ []

-- `level.value`
abbrev pub level_value : EngagementLevel → Text
level_value very_low = codes "very_low"
level_value low = codes "low"
level_value high = codes "high"
level_value very_high = codes "very_high"

-- `EngagementLevel(stored)`
unfoldable pub level_of : Text → Option EngagementLevel
level_of t =
    if text_eq t (codes "very_low")
    then some very_low
    else if text_eq t (codes "low")
    then some low
    else if text_eq t (codes "high")
    then some high
    else if text_eq t (codes "very_high")
    then some very_high
    else none

-- `content_type.value`
abbrev pub content_type_value : ContentType → Text
content_type_value news = codes "news"
content_type_value oddity = codes "oddity"
content_type_value opinion = codes "opinion"
content_type_value advice_tips = codes "advice_tips"
content_type_value promotional = codes "promotional"
content_type_value celebrity_entertainment = codes "celebrity_entertainment"
content_type_value explainer = codes "explainer"
content_type_value other = codes "other"

-- every member of `ContentType`, in the order of the class body
abbrev pub content_types : List ContentType
content_types =
    news ∷ oddity ∷ opinion ∷ advice_tips ∷ promotional ∷ celebrity_entertainment ∷ explainer
    ∷ other ∷ []

pub level_of-level_value : (l : EngagementLevel) → level_of (level_value l) ≡ some l
unfolding level_of text_eq
level_of-level_value very_low = refl
level_of-level_value low = refl
level_of-level_value high = refl
level_of-level_value very_high = refl

pub level_value_of_level_of :
    (t : Text) (l : EngagementLevel) → level_of t ≡ some l → t ≡ level_value l
unfolding level_of
level_value_of_level_of t l h = ground (
  arith,
  text_eq_iff t (codes "very_low"),
  text_eq_iff t (codes "low"),
  text_eq_iff t (codes "high"),
  text_eq_iff t (codes "very_high"),
)

-- A stored string is read as a level exactly when it is that level's value: what is stored is read
-- back as itself, and no other string is taken for a level.
level_of_iff : (t : Text) (l : EngagementLevel) → (level_of t ≡ some l) ↔ (t ≡ level_value l)
level_of_iff t l = (level_value_of_level_of t l, λ e. rw e (level_of-level_value l))
