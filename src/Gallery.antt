-- ===== src/Gallery.antt =====
-- `list_carousels` of `app/services/gallery.py`: the summaries of all decks, the one that was last
-- worked on first.
pub mod Order
use news2reel.Base.{
  ℕ, Bool, true, false, Option, none, some, List, [], ◌∷◌, map, if◌then◌else◌, Text, ltb, lex,
  length, sorted, filter_map, or_else, is_none,
}
use news2reel.Model.{Instant, City, Carousel}
use news2reel.Store.{Db, get_city_row}

-- `Carousel.state`
pub data DeckState : Type 0 where
  draft downloaded_deck : DeckState

abbrev pub state : Carousel → DeckState
state carousel = if is_none carousel.last_downloaded_at then draft else downloaded_deck

pub record CarouselSummary : Type 0 where
  pub id : ℕ
  pub city_id : ℕ
  pub city_name : Text
  pub state : DeckState
  pub slide_count : ℕ
  pub created_at : Instant
  pub last_edited_at : Option Instant
  pub last_downloaded_at : Option Instant

-- `coalesce(last_edited_at, created_at)`, of a row and of its summary
abbrev pub worked_on : Carousel → Instant
worked_on c = or_else c.last_edited_at c.created_at

-- `order_by(worked_on.desc(), Carousel.id.desc())`
abbrev pub stands_first : Carousel × City → Carousel × City → Bool
stands_first a b =
    lex (ltb (worked_on b.0) (worked_on a.0)) (ltb (worked_on a.0) (worked_on b.0))
      (ltb b.0.id a.0.id)

-- The slides of a deck stand in its row, so the outer join with the counts is the length.
abbrev pub summary_of : Carousel × City → CarouselSummary
summary_of row = record {
  id = row.0.id;
  city_id = row.1.id;
  city_name = row.1.name;
  state = state row.0;
  slide_count = length row.0.slides;
  created_at = row.0.created_at;
  last_edited_at = row.0.last_edited_at;
  last_downloaded_at = row.0.last_downloaded_at;
}

module _ {F : Type 0} where
  -- the join with the city
  abbrev pub with_city : Db F → Carousel → Option (Carousel × City)
  with_city db carousel = elim (get_city_row db carousel.city_id) [
    | none ↦ none
    | some city ↦ some (carousel, city)
  ]

  unfoldable pub list_carousels : Db F → List CarouselSummary
  list_carousels db = map summary_of (sorted stands_first (filter_map (with_city db) db.carousels))
