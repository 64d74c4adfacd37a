-- ===== src/Api/DeckBodies.antt =====
-- The bounds that `app/schemas/carousel.py` puts on a body. A body that breaks one is answered with
-- a 422 before its route runs.
use news2reel.Base.{ℕ, ◌+◌, ◌*◌, ◌/◌, Bool, ◌&&◌, Option, List, Text, leb, length, all}
use news2reel.Core.Config.{Settings}
use news2reel.Deck.{SlideWrite, story_id_ok, slide_write_ok}

-- the literals of `sort`
pub data Sort : Type 0 where
  recent engagement : Sort

pub record CarouselRequest : Type 0 where
  pub story_ids : List Text
  pub sort : Option Sort

module _ {F : Type 0} (settings : Settings F) where
  abbrev pub max_slides : ℕ
  max_slides = settings.carousel_max_stories + 2

  abbrev pub max_encoded_image : ℕ
  max_encoded_image = (settings.zip_max_bytes_per_image * 4) / 3 + 64

  abbrev pub max_story_ids : ℕ
  max_story_ids = settings.carousel_max_stories * 4

  unfoldable pub carousel_request_ok : CarouselRequest → Bool
  carousel_request_ok data' =
      leb 1 (length data'.story_ids)
      && leb (length data'.story_ids) max_story_ids
      && all story_id_ok data'.story_ids

  unfoldable pub deck_write_ok : List SlideWrite → Bool
  deck_write_ok slides = leb (length slides) max_slides && all slide_write_ok slides

  unfoldable pub zip_request_ok : List Text → Bool
  zip_request_ok images =
      leb 1 (length images)
      && leb (length images) max_slides
      && all (λ image. leb 1 (length image) && leb (length image) max_encoded_image) images
