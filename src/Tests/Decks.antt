-- ===== src/Tests/Decks.antt =====
-- Decks on concrete rows.
use mathlib.Core.List.{Permᴰ}
use news2reel.Base.{
  IsSorted, Text, Option, ◌++◌, ◌+◌, ℕ, ◌≡◌, refl, false, none, some, List, [], ◌∷◌, map, codes,
  find?, filter,
}
use news2reel.Model.{cta, story}
use news2reel.Store.{Db, get_carousel_row, get_city_row}
use news2reel.Stories.{StoryRead, story_of}
use news2reel.Deck.{Slide, SlideWrite, save_deck, story_slide, done}
use news2reel.Deck.Calls.{plain_slide, get_carousel, delete_carousel}
use news2reel.Gallery.{list_carousels}
use news2reel.Gallery.Order.{reads_first, list_carousels_lem}
use news2reel.Deck.Zip.{Payload, jpeg_prefix}
use news2reel.Tests.Setting.{hundredths_ops, ascii, defaults}
use news2reel.Tests.Rows.{newsroom, deck, parade, herald, pune}

abbrev edited : List SlideWrite
edited =
    record { kind = story; story_id = some (codes "b"); text = codes "Parade"; clipped = false }
    ∷ record { kind = cta; story_id = none; text = codes "Follow"; clipped = false }
    ∷ []

abbrev closing : List (Slide ℕ)
closing = plain_slide cta (codes "Follow") ∷ []

abbrev parade_card : StoryRead ℕ
parade_card = story_of hundredths_ops ascii defaults parade herald pune

abbrev extended : List (Slide ℕ)
extended = story_slide hundredths_ops ascii defaults parade_card ∷ closing

abbrev without_deck : Db ℕ
without_deck = record newsroom {
  carousels = [];
  selections =
      record {
        article_id = codes "a";
        engagement = some 680;
        score = 680;
        score_version = some 3;
        sort = none;
        carousel_id = none;
      }
      ∷ [];
}

deck_deleted : delete_carousel hundredths_ops ascii defaults newsroom 1 ≡ done without_deck
unfolding delete_carousel get_carousel get_carousel_row find? filter
deck_deleted = refl

abbrev autosaved : Db ℕ
autosaved = record newsroom { carousels = save_deck deck edited 20 ∷ [] }

abbrev drafts : Db ℕ
drafts = record newsroom { carousels = record deck { last_downloaded_at = none } ∷ [] }

-- The payload of an image is the text behind its prefix.
abbrev payload_of : Text → Option Payload
payload_of t = some t

abbrev one_digit_name : ℕ → Text
one_digit_name n = codes "0" ++ (48 + n) ∷ []

abbrev rendered : List Text
rendered = (jpeg_prefix ++ codes "first") ∷ (jpeg_prefix ++ codes "second") ∷ []

list_carousels_lem_example :
    IsSorted reads_first (list_carousels newsroom)
    × Permᴰ (map (λ s. s.id) (list_carousels newsroom)) (map (λ c. c.id) newsroom.carousels)
unfolding get_city_row find?
list_carousels_lem_example = list_carousels_lem newsroom ((pune, refl), tt)
