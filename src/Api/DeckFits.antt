-- ===== src/Api/DeckFits.antt =====
-- The decks that `create_carousel` makes, against the schema that the autosave is held to.
use mathlib.Core.Path.{subst}
use news2reel.Base.{
  ◌+◌, ◌≤◌, ◌≡◌, refl, ap, ◌∙◌, Bool, true, not, Option, none, some, List, [], ◌∷◌, ◌++◌, map,
  arith, ◌==◌, ltb, length, length-append, length-map, length-filter, length-sorted, Text, text_eq,
  codes, any, all, filter, count, sorted, All, All-map, All-append, All-weaken, All-filter,
  All-filter_map, All-sorted, All-find?, Bool-cases, Option-cases, inl, inr,
}
use news2reel.Core.Floats.{FloatOps}
use news2reel.Core.Config.{Settings}
use news2reel.Core.Text.{Chars}
use news2reel.Core.Text.Clip.{clip_lem}
use news2reel.Model.{Instant, City, Article, Carousel}
use news2reel.Store.{Db, StoryRow, get_city_row, get_source_row, story_row, story_rows}
use news2reel.Stories.{StoryRead, story_of, project_story}
use news2reel.Ingest.Persist.Dedupe.{UniqueIds}
use news2reel.Rank.{Key}
use news2reel.Feed.{ranks_before}
use news2reel.Deck.Wanted.{count-story_rows, count_unique, count_wanted}
use news2reel.Deck.Calls.{
  or_refuse, some_stories, new_carousel, bracket_slides, titled_deck, create_carousel, resolve,
  ◌>>=◌,
}
use news2reel.Deck.RoundTrip.{load_deck-save_deck}
use news2reel.Deck.{
  as_write, story_id_ok, slide_write_ok, slide_text_cap, DeckError, spans_cities, done, save_deck,
  load_deck, Slide, written, story_slide, first_seen, sole_city, resolve_stories, Reply, refuse,
  validation_error,
}
use news2reel.Deck.Given.{Given}
use news2reel.Api.DeckBodies.{deck_write_ok}

all-All : {A : Type 0} (p : A → Bool) (xs : List A) → All (λ x. p x ≡ true) xs → all p xs ≡ true
unfolding all
all-All p [] h = refl
all-All p (x ∷ xs) h = ground (arith, all-All p xs h.1)

-- Every refusal but that of a slide that pydantic does not accept.
abbrev NotInvalid : DeckError → Type 0
NotInvalid validation_error = ⊥
NotInvalid _ = Unit

-- Where the call goes through, the property holds; and it is not refused for such a slide.
abbrev pub Fine : {A : Type 0} → (A → Type 0) → Reply A → Type 0
Fine P (done a) = P a
Fine P (refuse e) = NotInvalid e

Fine-bind :
    {A B : Type 0} (P : A → Type 0) (Q : B → Type 0) (m : Reply A) (f : A → Reply B)
    → Fine P m
    → ((a : A) → P a → Fine Q (f a))
    → Fine Q (m >>= f)
Fine-bind P Q (done a) f h k = k a h
Fine-bind P Q (refuse e) f h k = h

Fine-of_Given :
    {A : Type 0} (P : A → Type 0) (m : Reply A)
    → Given P m
    → ((e : DeckError) → m ≡ refuse e → NotInvalid e)
    → Fine P m
Fine-of_Given P (done a) h k = h
Fine-of_Given P (refuse e) h k = k e refl

module _ {F : Type 0} (fl : FloatOps F) (u : Chars) (settings : Settings F) (db : Db F) where
  -- What the schema asks of a city's name and of an article's id.
  abbrev pub ShortName : City → Type 0
  ShortName c = length c.name ≤ 1800

  abbrev pub GoodId : Article F → Type 0
  GoodId a = story_id_ok a.id ≡ true

  abbrev ShortIn : Option City → Type 0
  ShortIn none = Unit
  ShortIn (some c) = ShortName c

  -- What the resolved stories are: within the cap, under good ids, of a city with a short name.
  record IsResolved (r : List (StoryRead F) × List Text × Option City) : Type 0 where
    few : length r.0 ≤ settings.carousel_max_stories
    ids : All (λ s. story_id_ok s.id ≡ true) r.0
    short : ShortIn r.2

  city-Fine : (city : Option City) → ShortIn city → Fine ShortName (or_refuse spans_cities city)
  city-Fine none h = tt
  city-Fine (some c) h = h

  -- a row of an article with a good id, in a city with a short name
  abbrev GoodRow : StoryRow F → Type 0
  GoodRow row = (story_id_ok row.article.id ≡ true) × ShortName row.city

  story_row-GoodRow :
      (a : Article F) (row : StoryRow F)
      → All ShortName db.cities
      → GoodId a
      → story_row db a ≡ some row
      → GoodRow row
  unfolding story_row get_city_row
  story_row-GoodRow a row short good h = elim (Option-cases (get_source_row db a.source_id)) [
    | inl e ↦ absurd (ground arith)
    | inr (source, e) ↦ elim (Option-cases (get_city_row db source.city_id)) [
      | inl e' ↦ absurd (ground arith)
      | inr (c, e') ↦
          let found = All-find? ShortName (λ d. d.id == source.city_id) db.cities c short e' in
          let same_city : row.city ≡ c = ground arith in
          let same : row.article ≡ a = ground arith in rw (same, same_city) (good, found)
    ]
  ]

  sole_city-ShortIn : (rows : List (StoryRow F)) → All GoodRow rows → ShortIn (sole_city rows)
  unfolding sole_city
  sole_city-ShortIn [] h = tt
  sole_city-ShortIn (row ∷ rows) h =
      elim (Bool-cases (any (λ r. not (r.city.id == row.city.id)) rows)) [
        | inl several ↦ rw several tt
        | inr one ↦ rw one h.0.1
      ]

  -- the stories behind rows, in the order of the deck
  abbrev stories_of : List (StoryRow F) → List (StoryRead F)
  stories_of rows =
      map (λ pair. pair.1)
        (sorted (ranks_before fl u settings true)
          (map (λ row. project_story fl u settings true row.article row.source row.city) rows))

  length-stories_of : (rows : List (StoryRow F)) → length (stories_of rows) ≡ length rows
  length-stories_of rows =
      let projected =
        map (λ (row : StoryRow F). project_story fl u settings true row.article row.source row.city)
          rows in
      length-map (λ (pair : Key F true × StoryRead F). pair.1)
        (sorted (ranks_before fl u settings true) projected)
      ∙ length-sorted (ranks_before fl u settings true) projected
      ∙ length-map _ rows

  stories_of-ids :
      (rows : List (StoryRow F))
      → All GoodRow rows
      → All (λ s. story_id_ok s.id ≡ true) (stories_of rows)
  unfolding project_story story_of
  stories_of-ids rows h =
      let P : Key F true × StoryRead F → Type 0 = λ pair. story_id_ok pair.1.id ≡ true in
      All-map P (λ s. story_id_ok s.id ≡ true) (λ pair. pair.1) (λ pair k. k) _
        (All-sorted (ranks_before fl u settings true) P _ (
          All-map GoodRow P
            (λ row. project_story fl u settings true row.article row.source row.city) (λ row k. k.0)
            rows h))

  module _ (unique : UniqueIds db.articles) (good : All GoodId db.articles)
      (short : All ShortName db.cities) where
    count-joined : (w : Text) → count (λ r. text_eq r.article.id w) (story_rows db) ≤ 1
    unfolding story_rows
    count-joined w =
        omega (arith, count-story_rows db w db.articles, count_unique w db.articles unique)

    resolve_stories-IsResolved :
        (ids : List Text) → Given IsResolved (resolve_stories fl u settings db ids)
    unfolding resolve_stories story_rows
    resolve_stories-IsResolved ids =
        let wanted = first_seen [] ids in
        let test : StoryRow F → Bool = λ row. any (λ id. text_eq row.article.id id) wanted in
        let found = filter test (story_rows db) in
        elim (Bool-cases (ltb settings.carousel_max_stories (length wanted))) [
          | inl many ↦ rw many tt
          | inr few ↦
              let joined =
                All-filter_map GoodId GoodRow (story_row db)
                  (λ a row g e. story_row-GoodRow a row short g e) db.articles good in
              let rows =
                All-weaken _ GoodRow (λ r h. h.0) found
                  (All-filter GoodRow test (story_rows db) joined) in
              let one_each : length (stories_of found) ≤ length wanted = omega (
                arith,
                count_wanted wanted (story_rows db) count-joined,
                length-filter test (story_rows db),
                length-stories_of found,
              ) in
              rw few (record {
                few = ground (arith, one_each, few);
                ids = stories_of-ids found rows;
                short = sole_city-ShortIn found rows;
              })
        ]

  -- a story's slide, and the first and the last slide, pass the schema
  story_slide-fits :
      (s : StoryRead F)
      → settings.slide_text_max_chars ≤ slide_text_cap
      → story_id_ok s.id ≡ true
      → slide_write_ok (written (story_slide fl u settings s)) ≡ true
  unfolding story_slide
  story_slide-fits s box good =
      ground (arith, (clip_lem u (some s.title) settings.slide_text_max_chars).1)

  abbrev IsSlide : Slide F → Type 0
  IsSlide slide = slide_write_ok (written slide) ≡ true

  bracket-fits :
      (name date : Text)
      → length name ≤ 1800
      → length date ≤ 100
      → IsSlide (bracket_slides name date).0 × IsSlide (bracket_slides name date).1
  unfolding bracket_slides
  bracket-fits [] date h k = (ground (arith, length-append (codes "Top news") []), refl)
  bracket-fits (c ∷ name) date h k =
      ground (arith, length-append name (10 ∷ date), length-append name (codes " news"))

  some_stories-Fine :
      (stories : List (StoryRead F)) (missing : List Text) (city : Option City)
      → IsResolved (stories, missing, city)
      → Fine IsResolved (some_stories fl u settings (stories, missing, city))
  some_stories-Fine [] missing city h = tt
  some_stories-Fine (s ∷ stories) missing city h = h

  resolve_stories-valid :
      (ids : List Text) (e : DeckError)
      → resolve_stories fl u settings db ids ≡ refuse e
      → NotInvalid e
  unfolding resolve_stories
  resolve_stories-valid ids e =
      elim (Bool-cases (ltb settings.carousel_max_stories (length (first_seen [] ids)))) [
        | inl many ↦ rw many (λ h. subst (Fine (λ _. Unit)) h tt)
        | inr few ↦ rw few (λ h. absurd (ground arith))
      ]

  as_write-Fine :
      (deck : List (Slide F))
      → deck_write_ok settings (map written deck) ≡ true
      → Fine (λ writes. writes ≡ map written deck) (as_write deck)
  unfolding as_write deck_write_ok
  as_write-Fine deck fits = elim (Bool-cases (all slide_write_ok (map written deck))) [
    | inl valid ↦ rw valid refl
    | inr invalid ↦ absurd (ground (arith, fits))
  ]

  -- The deck that is in the tables behind the call passes the schema of a save.
  abbrev pub Savable : Db F → Type 0
  Savable db' =
      (c : Carousel) × (db'.carousels ≡ db.carousels ++ c ∷ [])
      × (deck_write_ok settings (map written (load_deck fl u settings db' c)) ≡ true)

  module _ (date_label : List (StoryRead F) → Text)
      (dated : (stories : List (StoryRead F)) → length (date_label stories) ≤ 100)
      (box : settings.slide_text_max_chars ≤ slide_text_cap) where
    titled_deck-fits :
        (c : City) (stories : List (StoryRead F))
        → ShortName c
        → length stories ≤ settings.carousel_max_stories
        → All (λ s. story_id_ok s.id ≡ true) stories
        → deck_write_ok settings (map written (titled_deck fl u settings date_label c stories))
          ≡ true
    unfolding titled_deck deck_write_ok
    titled_deck-fits c stories short few ids =
        let (first, last) = bracket-fits c.name (date_label stories) short (dated stories) in
        let brackets = bracket_slides c.name (date_label stories) in
        let middle = map (story_slide fl u settings) stories in
        let slides =
          All-append IsSlide middle (brackets.1 ∷ [])
            (All-map (λ s. story_id_ok s.id ≡ true) IsSlide (story_slide fl u settings)
              (λ s good. story_slide-fits s box good) stories ids)
            (last, tt) in
        let deck = brackets.0 ∷ middle ++ brackets.1 ∷ [] in
        let each = all-All slide_write_ok (map written deck) (
          All-map IsSlide (λ w. slide_write_ok w ≡ true) written (λ s h. h) deck (first, slides)) in
        let size : length (map written deck) ≡ 2 + length stories =
          length-map written deck
          ∙ omega (
            arith,
            length-append middle (brackets.1 ∷ []),
            length-map (story_slide fl u settings) stories,
          ) in
        ground (arith, size, each)

    module _ (unique : UniqueIds db.articles) (good : All GoodId db.articles)
        (short : All ShortName db.cities) where
      resolve-Fine : (ids : List Text) → Fine IsResolved (resolve fl u settings db ids)
      unfolding resolve
      resolve-Fine ids =
          Fine-bind IsResolved IsResolved (resolve_stories fl u settings db ids) _
            (Fine-of_Given IsResolved (resolve_stories fl u settings db ids)
              (resolve_stories-IsResolved unique good short ids) (resolve_stories-valid ids))
            (λ r h. some_stories-Fine r.0 r.1 r.2 h)

      -- A carousel that is made from stories of the tables can be saved as it is: where no article id
      -- stands twice, ids and names of cities are within what the schema can carry, and so are the
      -- slide's box and the date, the deck of a call that goes through has at most two slides more
      -- than the cap on stories, and every slide passes the bounds that the autosave is held to; and
      -- no call fails for a slide that the server made itself.
      pub create_carousel-Savable :
          (ids : List Text) (sort : Option Text) (now : Instant)
          → Fine Savable (create_carousel fl u settings date_label db ids sort now)
      unfolding create_carousel
      create_carousel-Savable ids sort now =
          Fine-bind IsResolved Savable (resolve fl u settings db ids) _ (resolve-Fine ids) (λ r h.
            Fine-bind ShortName Savable (or_refuse spans_cities r.2) _ (city-Fine r.2 h.short)
              (λ c short_name.
                let deck = titled_deck fl u settings date_label c r.0 in
                let fits = titled_deck-fits c r.0 short_name h.few h.ids in
                Fine-bind (λ writes. writes ≡ map written deck) Savable (as_write deck) _
                  (as_write-Fine deck fits)
                  (λ writes same.
                    let saved =
                      load_deck-save_deck fl u settings _ (new_carousel db.next_carousel c.id now)
                        writes now in
                    (
                      save_deck (new_carousel db.next_carousel c.id now) writes now,
                      refl,
                      ap (deck_write_ok settings) (saved.0 ∙ same) ∙ fits,
                    ))))
