-- ===== src/Deck.antt =====
-- `app/services/carousel.py`, and the calls of `app/api/v1/endpoints/carousels.py` that write a
-- deck: a selection of stories becomes slides, the canvas saves them, and more stories join.
pub mod RoundTrip
pub mod Adding
pub mod Calls
pub mod Given
pub mod Wanted
pub mod Zip
pub mod Deleting
pub mod Saving
use mathlib.Core.Option
use news2reel.Base.{
  ℕ, zero, suc, ◌+◌, Bool, true, false, not, ◌&&◌, Option, none, some, List, [], ◌∷◌, ◌++◌, map,
  if◌then◌else◌, Text, text_eq, ◌==◌, leb, ltb, length, count, filter, any, all, sorted, is_none,
}
use news2reel.Core.Floats.{FloatOps}
use news2reel.Core.Config.{Settings}
use news2reel.Core.Text.{Chars, clip}
use news2reel.Model.{
  Instant, City, SlideKind, intro, story, cta, CarouselSlide, Carousel, Selection,
}
use news2reel.Store.{Db, StoryRow, get_article_row, get_carousel_row, story_row, story_rows}
use news2reel.Stories.{StoryRead, project_story}
use news2reel.Feed.{ranks_before}

pub record Slide (F : Type 0) : Type 0 where
  pub kind : SlideKind
  pub story_id : Option Text
  pub text : Text
  pub clipped : Bool
  pub source_name : Option Text
  pub url : Option Text
  pub category : Option Text
  pub score : Option F

pub record SlideWrite : Type 0 where
  pub kind : SlideKind
  pub story_id : Option Text
  pub text : Text
  pub clipped : Bool

-- the refusals of the endpoints
pub data DeckError : Type 0 where
  no_such_carousel too_many_stories no_known_stories deck_full spans_cities no_such_story :
      DeckError
  -- an exception of pydantic, which no route translates
  validation_error : DeckError

pub data Reply (A : Type 0) : Type 0 where
  done : A → Reply A
  refuse : DeckError → Reply A

-- `StoryId`
abbrev pub story_id_ok : Text → Bool
story_id_ok id = leb 1 (length id) && leb (length id) 128

abbrev pub slide_text_cap : ℕ
slide_text_cap = 2000

abbrev pub optional_id_ok : Option Text → Bool
optional_id_ok none = true
optional_id_ok (some id) = story_id_ok id

-- what pydantic asks of a `SlideWrite`
abbrev pub slide_write_ok : SlideWrite → Bool
slide_write_ok slide = optional_id_ok slide.story_id && leb (length slide.text) slide_text_cap

-- the fields of a slide that are stored
abbrev pub written : {F : Type 0} → Slide F → SlideWrite
written s = record { kind = s.kind; story_id = s.story_id; text = s.text; clipped = s.clipped }

-- `_as_write`; pydantic raises on a slide that breaks a bound.
unfoldable pub as_write : {F : Type 0} → List (Slide F) → Reply (List SlideWrite)
as_write slides =
    let writes = map written slides in
    if all slide_write_ok writes then done writes else refuse validation_error

-- `enumerate(slides)`, each as its row
unfoldable pub numbered : ℕ → List SlideWrite → List CarouselSlide
numbered index [] = []
numbered index (slide ∷ slides) =
    record {
      position = index;
      kind = slide.kind;
      article_id = slide.story_id;
      text = slide.text;
      clipped = slide.clipped;
    }
    ∷ numbered (suc index) slides

unfoldable pub save_deck : Carousel → List SlideWrite → Instant → Carousel
save_deck carousel slides now = record carousel {
  slides = numbered 0 slides;
  last_edited_at = some now;
}

-- `order_by(CarouselSlide.position)`
abbrev pub stands_before : CarouselSlide → CarouselSlide → Bool
stands_before a b = ltb a.position b.position

-- `list(dict.fromkeys(story_ids))`
unfoldable pub first_seen : List Text → List Text → List Text
first_seen met [] = []
first_seen met (id ∷ ids) =
    let rest = first_seen (id ∷ met) ids in if any (λ m. text_eq m id) met then rest else id ∷ rest

-- `next(iter(cities.values())) if len(cities) == 1 else None`
unfoldable pub sole_city : {F : Type 0} → List (StoryRow F) → Option City
sole_city [] = none
sole_city (row ∷ rows) =
    if any (λ r. not (r.city.id == row.city.id)) rows then none else some row.city

abbrev pub is_story : {F : Type 0} → Slide F → Bool
is_story s = elim s.kind [ story ↦ true | _ ↦ false ]

-- `deck[cta:cta] = new_slides`, for the index of the first CTA, or the end
unfoldable pub insert_before_cta : {F : Type 0} → List (Slide F) → List (Slide F) → List (Slide F)
insert_before_cta new_slides [] = new_slides
insert_before_cta new_slides (s ∷ deck) =
    let rest = insert_before_cta new_slides deck in
    elim s.kind [ cta ↦ new_slides ++ s ∷ deck | _ ↦ s ∷ rest ]

-- `s.id not in already`, where `already` holds the ids of the slides that have one
abbrev pub has_story : {F : Type 0} → List (Slide F) → Text → Bool
has_story deck id = any (λ s. elim s.story_id [ none ↦ false | some i ↦ text_eq i id ]) deck

-- `_record` of one story; 3 is `SCORE_VERSION`
abbrev pub picked : {F : Type 0} → ℕ → Option Text → StoryRead F → Selection F
picked carousel_id sort s = record {
  article_id = s.id;
  engagement = elim s.engagement [ none ↦ none | some _ ↦ some s.score ];
  score = s.score;
  score_version = elim s.engagement [ none ↦ none | some _ ↦ some 3 ];
  sort = sort;
  carousel_id = some carousel_id;
}

abbrev pub put_carousel : Carousel → List Carousel → List Carousel
put_carousel carousel carousels = map (λ c. if c.id == carousel.id then carousel else c) carousels

module _ {F : Type 0} (fl : FloatOps F) (u : Chars) (settings : Settings F) where
  unfoldable pub story_slide : StoryRead F → Slide F
  story_slide s =
      let (text, clipped) = clip u (some s.title) settings.slide_text_max_chars in
      record {
        kind = story;
        story_id = some s.id;
        text = text;
        clipped = clipped;
        source_name = some s.source_name;
        url = some s.url;
        category = s.category;
        score = elim s.engagement [ none ↦ none | some _ ↦ some s.score ];
      }

  -- a row of the outer joins, with its article and source, through `project_story`
  unfoldable pub story_behind : Db F → Option Text → Option (StoryRead F)
  story_behind db none = none
  story_behind db (some id) = elim (get_article_row db id) [
    | none ↦ none
    | some article ↦
        Option.map (λ row. (project_story fl u settings false row.article row.source row.city).1)
          (story_row db article)
  ]

  unfoldable pub load_slide : Db F → CarouselSlide → Slide F
  load_slide db row =
      let behind = story_behind db row.article_id in
      record {
        kind = row.kind;
        story_id = row.article_id;
        text = row.text;
        clipped = row.clipped;
        source_name = Option.map (λ s. s.source_name) behind;
        url = Option.map (λ s. s.url) behind;
        category = elim behind [ none ↦ none | some s ↦ s.category ];
        score = elim behind [
          | none ↦ none
          | some s ↦ elim s.engagement [ none ↦ none | some _ ↦ some s.score ]
        ];
      }

  unfoldable pub load_deck : Db F → Carousel → List (Slide F)
  load_deck db carousel = map (load_slide db) (sorted stands_before carousel.slides)

  -- The stories in slide order, the ids that had no row, and the one city, if it is one.
  unfoldable pub resolve_stories :
      Db F → List Text → Reply (List (StoryRead F) × List Text × Option City)
  resolve_stories db story_ids =
      let wanted = first_seen [] story_ids in
      let rows = filter (λ row. any (λ id. text_eq row.article.id id) wanted) (story_rows db) in
      let projected =
        map (λ row. project_story fl u settings true row.article row.source row.city) rows in
      let stories = map (λ pair. pair.1) (sorted (ranks_before fl u settings true) projected) in
      let missing = filter (λ id. not (any (λ s. text_eq s.id id) stories)) wanted in
      if ltb settings.carousel_max_stories (length wanted)
      then refuse too_many_stories
      else done (stories, missing, sole_city rows)

  -- The deck that `add_stories` saves, and the stories that were not in it yet.
  unfoldable pub extended_deck :
      List (Slide F) → List (StoryRead F) → Reply (List (Slide F) × List (StoryRead F))
  extended_deck deck stories =
      let fresh = filter (λ s. not (has_story deck s.id)) stories in
      if ltb settings.carousel_max_stories (count is_story deck + length fresh)
      then refuse deck_full
      else done (insert_before_cta (map story_slide fresh) deck, fresh)
