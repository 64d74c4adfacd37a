-- ===== src/Deck/Calls.antt =====
-- The calls of `app/api/v1/endpoints/carousels.py` that change the database.
use news2reel.Base.{
  ℕ, suc, Bool, false, not, Option, none, some, List, [], ◌∷◌, ◌++◌, map, if◌then◌else◌, or_none,
  Text, codes, ◌==◌, filter, any,
}
use news2reel.Core.Floats.{FloatOps}
use news2reel.Core.Config.{Settings}
use news2reel.Core.Text.{Chars}
use news2reel.Model.{Instant, City, SlideKind, intro, cta, Carousel, Selection}
use news2reel.Store.{Db, get_carousel_row}
use news2reel.Stories.{StoryRead}
use news2reel.Ingest.Persist.{has_id}
use news2reel.Deck.{
  Slide, SlideWrite, DeckError, no_such_carousel, no_known_stories, spans_cities, no_such_story,
  Reply, done, refuse, as_write, save_deck, story_slide, load_deck, resolve_stories, extended_deck,
  picked, put_carousel,
}

infixl 5 ◌>>=◌
abbrev pub ◌>>=◌ : {A B : Type 0} → Reply A → (A → Reply B) → Reply B
done a >>= f = f a
refuse e >>= f = refuse e

abbrev pub or_refuse : {A : Type 0} → DeckError → Option A → Reply A
or_refuse e none = refuse e
or_refuse e (some a) = done a

-- `city_name or "your city"`
abbrev pub place_name : Text → Text
place_name [] = codes "your city"
place_name (c ∷ s) = c ∷ s

-- a slide of `bracket_slides`
abbrev pub plain_slide : {F : Type 0} → SlideKind → Text → Slide F
plain_slide kind text = record {
  kind = kind;
  story_id = none;
  text = text;
  clipped = false;
  source_name = none;
  url = none;
  category = none;
  score = none;
}

-- `bracket_slides` for a city's name and a date; 10 is the newline.
unfoldable pub bracket_slides : {F : Type 0} → Text → Text → Slide F × Slide F
bracket_slides city_name date =
    let place = place_name city_name in
    (
      plain_slide intro (codes "Top news" ++ 10 ∷ place ++ 10 ∷ date),
      plain_slide cta (codes "Follow for daily" ++ 10 ∷ place ++ codes " news"),
    )

-- `slide.story_id` where it is neither NULL nor empty
abbrev pub named_id : SlideWrite → Option Text
named_id slide = elim slide.story_id [ none ↦ none | some id ↦ or_none id ]

-- `named - known` is not empty.
abbrev pub names_unknown : {F : Type 0} → Db F → List SlideWrite → Bool
names_unknown db slides =
    any (λ slide. elim (named_id slide) [ none ↦ false | some id ↦ not (has_id id db.articles) ])
      slides

abbrev pub new_carousel : ℕ → ℕ → Instant → Carousel
new_carousel id city_id now = record {
  id = id;
  city_id = city_id;
  created_at = now;
  last_edited_at = none;
  last_downloaded_at = none;
  slides = [];
}

module _ {F : Type 0} (fl : FloatOps F) (u : Chars) (settings : Settings F) where
  unfoldable pub get_carousel : Db F → ℕ → Reply Carousel
  get_carousel db carousel_id = or_refuse no_such_carousel (get_carousel_row db carousel_id)

  abbrev pub some_stories :
      List (StoryRead F) × List Text × Option City
      → Reply (List (StoryRead F) × List Text × Option City)
  some_stories ([], missing, city) = refuse no_known_stories
  some_stories (s ∷ stories, missing, city) = done (s ∷ stories, missing, city)

  -- `_resolve`
  unfoldable pub resolve : Db F → List Text → Reply (List (StoryRead F) × List Text × Option City)
  resolve db story_ids = resolve_stories fl u settings db story_ids >>= some_stories

  unfoldable pub record_picks : Db F → ℕ → List (StoryRead F) → Option Text → List (Selection F)
  record_picks db carousel_id stories sort = db.selections ++ map (picked carousel_id sort) stories

  -- the intro, a slide for each story, and the CTA
  unfoldable pub titled_deck :
      (List (StoryRead F) → Text) → City → List (StoryRead F) → List (Slide F)
  titled_deck date_label city stories =
      let brackets = bracket_slides city.name (date_label stories) in
      brackets.0 ∷ map (story_slide fl u settings) stories ++ brackets.1 ∷ []

  -- `date_label` reads the newsroom's time zone, which is a library's, and is a parameter.
  unfoldable pub create_carousel :
      (List (StoryRead F) → Text) → Db F → List Text → Option Text → Instant → Reply (Db F)
  create_carousel date_label db story_ids sort now = do
    (stories, missing, where_it_is) ← resolve db story_ids
    city ← or_refuse spans_cities where_it_is
    writes ← as_write (titled_deck date_label city stories)
    done (record db {
      carousels =
          db.carousels ++ save_deck (new_carousel db.next_carousel city.id now) writes now ∷ [];
      selections = record_picks db db.next_carousel stories sort;
      next_carousel = suc db.next_carousel;
    })

  unfoldable pub add_stories : Db F → ℕ → List Text → Option Text → Instant → Reply (Db F)
  add_stories db carousel_id story_ids sort now = do
    carousel ← get_carousel db carousel_id
    (stories, missing, ignored) ← resolve db story_ids
    (deck, fresh) ← extended_deck fl u settings (load_deck fl u settings db carousel) stories
    writes ← as_write deck
    done (record db {
      carousels = put_carousel (save_deck carousel writes now) db.carousels;
      selections = record_picks db carousel.id fresh sort;
    })

  unfoldable pub save_carousel : Db F → ℕ → List SlideWrite → Instant → Reply (Db F)
  save_carousel db carousel_id slides now = do
    carousel ← get_carousel db carousel_id
    if names_unknown db slides
        then refuse no_such_story
        else done
            (record db { carousels = put_carousel (save_deck carousel slides now) db.carousels })

  -- ON DELETE SET NULL
  abbrev pub forget_carousel : ℕ → Selection F → Selection F
  forget_carousel carousel_id s = elim s.carousel_id [
    | none ↦ s
    | some id ↦ if id == carousel_id then record s { carousel_id = none } else s
  ]

  unfoldable pub delete_carousel : Db F → ℕ → Reply (Db F)
  delete_carousel db carousel_id = do
    carousel ← get_carousel db carousel_id
    done (record db {
      carousels = filter (λ c. not (c.id == carousel.id)) db.carousels;
      selections = map (forget_carousel carousel.id) db.selections;
    })
