-- ===== src/System/Decks.antt =====
-- The calls of `app/api/v1/endpoints/carousels.py` that write, as steps of the system: a deck always
-- has the city that it was made for.
use news2reel.Base.{
  ℕ, ◌≡◌, ap, Bool, true, false, not, Option, none, some, List, [], ◌∷◌, arith, if◌then◌else◌, ◌==◌,
  ltb, length, Text, text_eq, any, All, All-map, All-append, All-weaken, All-filter, All-filter_map,
  All-find?, All-unit, is_none, Bool-cases, Option-cases, inl, inr,
}
use news2reel.Core.Floats.{FloatOps}
use news2reel.Core.Config.{Settings}
use news2reel.Core.Text.{Chars}
use news2reel.Model.{Instant, City, Article, Carousel}
use news2reel.Store.{
  Db, StoryRow, get_city_row, get_source_row, get_carousel_row, story_row, story_rows,
}
use news2reel.Stories.{StoryRead}
use news2reel.Cities.Counts.{get_city_row-id}
use news2reel.Deck.{
  as_write, SlideWrite, DeckError, save_deck, sole_city, first_seen, put_carousel, load_deck,
  resolve_stories, extended_deck,
}
use news2reel.Deck.Given.{Given, Given-bind, anything}
use news2reel.Deck.Calls.{
  or_refuse, get_carousel, some_stories, resolve, names_unknown, create_carousel, add_stories,
  save_carousel, delete_carousel,
}
use news2reel.Api.Commits.{HasCity}
use news2reel.System.Sound.{IsSound, Follows, Follows-decks}

module _ {F : Type 0} (db : Db F) where
  -- The deck is of a city that is stored.
  abbrev pub Homed : Carousel → Type 0
  Homed c = HasCity c.city_id db

  abbrev HomedIn : Option City → Type 0
  HomedIn none = Unit
  HomedIn (some c) = HasCity c.id db

  story_row-Homed :
      (a : Article F) (row : StoryRow F) → story_row db a ≡ some row → HasCity row.city.id db
  unfolding story_row
  story_row-Homed a row h = elim (Option-cases (get_source_row db a.source_id)) [
    | inl e ↦ absurd (ground arith)
    | inr (source, e) ↦ elim (Option-cases (get_city_row db source.city_id)) [
      | inl e' ↦ absurd (ground arith)
      | inr (c, e') ↦
          let same : row.city ≡ c = ground arith in
          rw (same, get_city_row-id db source.city_id c e') (ap is_none e')
    ]
  ]

  sole_city-Homed :
      (rows : List (StoryRow F)) → All (λ r. HasCity r.city.id db) rows → HomedIn (sole_city rows)
  unfolding sole_city
  sole_city-Homed [] h = tt
  sole_city-Homed (row ∷ rows) h =
      elim (Bool-cases (any (λ r. not (r.city.id == row.city.id)) rows)) [
        | inl several ↦ rw several tt
        | inr one ↦ rw one h.0
      ]

  pub put_carousel-Homed :
      (c : Carousel) (carousels : List Carousel)
      → Homed c
      → All Homed carousels
      → All Homed (put_carousel c carousels)
  put_carousel-Homed c carousels h =
      All-map Homed Homed (λ d. if d.id == c.id then c else d) (λ d k. chosen (d.id == c.id) d k)
        carousels
    where
      chosen : (test : Bool) (d : Carousel) → Homed d → Homed (if test then c else d)
      chosen true d k = h
      chosen false d k = k

  module _ (fl : FloatOps F) (u : Chars) (settings : Settings F) where
    resolve_stories-Given :
        (ids : List Text) → Given (λ r. HomedIn r.2) (resolve_stories fl u settings db ids)
    unfolding resolve_stories story_rows
    resolve_stories-Given ids =
        let wanted = first_seen [] ids in
        elim (Bool-cases (ltb settings.carousel_max_stories (length wanted))) [
          | inl many ↦ rw many tt
          | inr few ↦
              let joined =
                All-filter_map (λ _. Unit {0}) (λ r. HasCity r.city.id db) (story_row db)
                  (λ a row _ e. story_row-Homed a row e) db.articles (All-unit db.articles) in
              let test : StoryRow F → Bool = λ row. any (λ id. text_eq row.article.id id) wanted in
              let rows = All-filter (λ r. HasCity r.city.id db) test (story_rows db) joined in
              rw few (sole_city-Homed _ (All-weaken _ _ (λ r h. h.0) _ rows))
        ]

    some_stories-Given :
        (stories : List (StoryRead F)) (missing : List Text) (city : Option City)
        → HomedIn city
        → Given (λ r. HomedIn r.2) (some_stories fl u settings (stories, missing, city))
    some_stories-Given [] missing city h = tt
    some_stories-Given (s ∷ stories) missing city h = h

    resolve-Given : (ids : List Text) → Given (λ r. HomedIn r.2) (resolve fl u settings db ids)
    unfolding resolve
    resolve-Given ids =
        Given-bind (λ r. HomedIn r.2) (λ r. HomedIn r.2) (resolve_stories fl u settings db ids)
          (some_stories fl u settings) (resolve_stories-Given ids)
          (λ r h. some_stories-Given r.0 r.1 r.2 h)

    get_carousel-Given : (id : ℕ) → IsSound db → Given Homed (get_carousel fl u settings db id)
    unfolding get_carousel get_carousel_row
    get_carousel-Given id s = elim (Option-cases (get_carousel_row db id)) [
      | inl e ↦ rw e tt
      | inr (c, e) ↦ rw e (All-find? Homed (λ d. d.id == id) db.carousels c s.carousels e)
    ]

    city-Given :
        (e : DeckError) (city : Option City)
        → HomedIn city
        → Given (λ c. HasCity c.id db) (or_refuse e city)
    city-Given e none h = tt
    city-Given e (some c) h = h

    module _ (s : IsSound db) where
      pub create_carousel-Follows :
          (date_label : List (StoryRead F) → Text) (ids : List Text) (sort : Option Text)
          (now : Instant)
          → Given (Follows db) (create_carousel fl u settings date_label db ids sort now)
      unfolding create_carousel save_deck
      create_carousel-Follows date_label ids sort now =
          Given-bind (λ r. HomedIn r.2) (Follows db) (resolve fl u settings db ids) _
            (resolve-Given ids)
            (λ r h.
              Given-bind (λ c. HasCity c.id db) (Follows db) (or_refuse _ r.2) _
                (city-Given _ r.2 h)
                (λ c home.
                  Given-bind (λ _. Unit {0}) (Follows db) (as_write _) _ (anything _)
                    (λ writes _.
                      Follows-decks db _ _ _ s
                        (All-append Homed db.carousels _ s.carousels (home, tt)))))

      pub add_stories-Follows :
          (id : ℕ) (ids : List Text) (sort : Option Text) (now : Instant)
          → Given (Follows db) (add_stories fl u settings db id ids sort now)
      unfolding add_stories save_deck
      add_stories-Follows id ids sort now =
          Given-bind Homed (Follows db) (get_carousel fl u settings db id) _
            (get_carousel-Given id s)
            (λ c home.
              Given-bind (λ r. HomedIn r.2) (Follows db) (resolve fl u settings db ids) _
                (resolve-Given ids)
                (λ r _.
                  Given-bind (λ _. Unit {0}) (Follows db)
                    (extended_deck fl u settings (load_deck fl u settings db c) r.0) _ (anything _)
                    (λ d _.
                      Given-bind (λ _. Unit {0}) (Follows db) (as_write d.0) _ (anything _)
                        (λ writes _.
                          Follows-decks db _ _ db.next_carousel s
                            (put_carousel-Homed _ db.carousels home s.carousels)))))

      pub save_carousel-Follows :
          (id : ℕ) (slides : List SlideWrite) (now : Instant)
          → Given (Follows db) (save_carousel fl u settings db id slides now)
      unfolding save_carousel save_deck
      save_carousel-Follows id slides now =
          Given-bind Homed (Follows db) (get_carousel fl u settings db id) _
            (get_carousel-Given id s)
            (λ c home. elim (Bool-cases (names_unknown db slides)) [
              | inl unknown ↦ rw unknown tt
              | inr known ↦ rw known (
                  Follows-decks db _ db.selections db.next_carousel s
                    (put_carousel-Homed _ db.carousels home s.carousels))
            ])

      pub delete_carousel-Follows :
          (id : ℕ) → Given (Follows db) (delete_carousel fl u settings db id)
      unfolding delete_carousel
      delete_carousel-Follows id =
          Given-bind Homed (Follows db) (get_carousel fl u settings db id) _
            (get_carousel-Given id s)
            (λ c home. Follows-decks db _ _ db.next_carousel s (
              All-weaken _ _ (λ d h. h.0) _
                (All-filter Homed (λ d. not (d.id == c.id)) db.carousels s.carousels)))
