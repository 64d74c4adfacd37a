-- ===== src/States.antt =====
-- `article_states` of `app/services/carousel.py`: whether a deck holds a story now.
use mathlib.Core.Option
use news2reel.Base.{
  ℕ, zero, suc, max, Bool, true, false, not, ◌&&◌, ◌≡◌, refl, arith, Option, none, some, List, [],
  ◌∷◌, if◌then◌else◌, Text, text_eq, any, is_none,
}
use news2reel.Model.{Carousel, CarouselSlide}

-- "in_draft" or "downloaded"
pub data CarouselState : Type 0 where
  in_draft downloaded : CarouselState

-- `case((Carousel.last_downloaded_at.is_not(None), 1), else_=0)`
abbrev pub downloaded_flag : Carousel → ℕ
downloaded_flag carousel = if is_none carousel.last_downloaded_at then 0 else 1

abbrev pub names : Text → CarouselSlide → Bool
names id slide = elim slide.article_id [ none ↦ false | some a ↦ text_eq a id ]

abbrev pub larger : ℕ → Option ℕ → ℕ
larger n none = n
larger n (some m) = max n m

-- `func.max(downloaded)` over the group of one article: none where the group is empty.
unfoldable pub max_flag : Text → List Carousel → Option ℕ
max_flag id [] = none
max_flag id (c ∷ cs) =
    let rest = max_flag id cs in
    if any (names id) c.slides then some (larger (downloaded_flag c) rest) else rest

-- `"downloaded" if flag else "in_draft"`
abbrev pub state_of_flag : ℕ → CarouselState
state_of_flag zero = in_draft
state_of_flag (suc n) = downloaded

-- `article_states(db, ids).get(id)` for an id of `ids`
unfoldable pub article_state : List Carousel → Text → Option CarouselState
article_state carousels id = Option.map state_of_flag (max_flag id carousels)

-- Some deck that passes the test holds the story.
abbrev pub held_by : (Carousel → Bool) → Text → List Carousel → Bool
held_by test id carousels = any (λ c. any (names id) c.slides && test c) carousels

abbrev pub is_downloaded : Carousel → Bool
is_downloaded c = not (is_none c.last_downloaded_at)

-- the state that the decks' own timestamps give
abbrev pub state_by : Bool → Bool → Option CarouselState
state_by true held = some downloaded
state_by false true = some in_draft
state_by false false = none

flag_by : Bool → Bool → Option ℕ
flag_by true held = some 1
flag_by false true = some 0
flag_by false false = none

max_flag-held :
    (id : Text) (carousels : List Carousel)
    → max_flag id carousels
      ≡ flag_by (held_by is_downloaded id carousels) (held_by (λ _. true) id carousels)
unfolding max_flag any flag_by
max_flag-held id [] = refl
max_flag-held id (c ∷ cs) = ground (arith, max_flag-held id cs)

state_of_flag-flag_by : (a b : Bool) → Option.map state_of_flag (flag_by a b) ≡ state_by a b
unfolding flag_by
state_of_flag-flag_by true b = refl
state_of_flag-flag_by false true = refl
state_of_flag-flag_by false false = refl

-- The badge of a story is "downloaded" when some downloaded deck holds it, "in_draft" when decks
-- hold it and none of them was downloaded, and absent when no deck holds it.
pub article_state-held :
    (id : Text) (carousels : List Carousel)
    → article_state carousels id
      ≡ state_by (held_by is_downloaded id carousels) (held_by (λ _. true) id carousels)
unfolding article_state flag_by
article_state-held id carousels = rw (max_flag-held id carousels) (state_of_flag-flag_by _ _)
