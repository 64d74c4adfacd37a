-- ===== src/Api/DeckRoutes.antt =====
-- The routes of `app/api/v1/endpoints/carousels.py`: the refusals as statuses, the deck that is
-- printed, and the database behind the answer.
use mathlib.Core.Option
use news2reel.Base.{
  ℕ, Bool, true, Option, List, [], ◌∷◌, ◌++◌, if◌then◌else◌, Text, text_lt, codes, not, filter,
  filter_map, sorted,
}
use news2reel.Core.Floats.{FloatOps}
use news2reel.Model.{Instant, City, Carousel}
use news2reel.Store.{Db}
use news2reel.Stories.{StoryRead}
use news2reel.Accounts.{Caller, known, refused}
use news2reel.Deck.{
  Slide, SlideWrite, DeckError, no_such_carousel, too_many_stories, no_known_stories, deck_full,
  validation_error, spans_cities, no_such_story, done, refuse, load_deck, first_seen,
}
use news2reel.Deck
use news2reel.Ingest.Persist.{has_id}
use news2reel.Deck.Calls.{
  named_id, resolve, get_carousel, create_carousel, add_stories, save_carousel, delete_carousel,
}
use news2reel.Deck.Zip
use news2reel.Deck.Zip.{
  Payload, Member, Zipped, zipped, rejected, ZipError, not_a_jpeg, not_base64, too_large,
  zip_slides,
}
use news2reel.Gallery.{CarouselSummary, DeckState, state, list_carousels}
use news2reel.Api.{internal_error, Reply, sent, http_error}
use news2reel.Api.Routes.{App}
use news2reel.Api.DeckBodies.{
  CarouselRequest, Sort, recent, engagement, carousel_request_ok, deck_write_ok, zip_request_ok,
}

pub record CarouselResponse (F : Type 0) : Type 0 where
  pub id : ℕ
  pub slides : List (Slide F)
  pub missing_ids : List Text
  pub state : DeckState
  pub created_at : Instant
  pub last_edited_at : Option Instant
  pub last_downloaded_at : Option Instant

pub data DeckRequest : Type 0 where
  post_carousel : CarouselRequest → DeckRequest
  post_stories : ℕ → CarouselRequest → DeckRequest
  put_deck : ℕ → List SlideWrite → DeckRequest
  get_carousels : DeckRequest
  get_one_carousel : ℕ → DeckRequest
  delete_one_carousel : ℕ → DeckRequest
  post_zip : ℕ → List Text → DeckRequest

pub data DeckBody (F : Type 0) : Type 0 where
  carousel : CarouselResponse F → DeckBody F
  summaries : List CarouselSummary → DeckBody F
  no_content : DeckBody F
  archive : List Member → DeckBody F

abbrev pub sort_text : Sort → Text
sort_text recent = codes "recent"
sort_text engagement = codes "engagement"

-- `", ".join(unknown)`
abbrev pub join_ids : List Text → Text
join_ids [] = []
join_ids (id ∷ []) = id
join_ids (id ∷ next ∷ ids) = id ++ (codes ", " ++ join_ids (next ∷ ids))

-- `sorted(named - known)`
unfoldable pub unknown_ids : {F : Type 0} → Db F → List SlideWrite → List Text
unknown_ids db slides =
    sorted text_lt
      (filter (λ id. not (has_id id db.articles)) (first_seen [] (filter_map named_id slides)))

abbrev pub zip_refusal : {F : Type 0} → ZipError → Reply (DeckBody F)
zip_refusal not_a_jpeg = http_error 422 (codes "slides must be image/jpeg data URLs")
zip_refusal not_base64 = http_error 422 (codes "a slide was not valid base64")
zip_refusal too_large = http_error 413 (codes "the carousel is larger than the total cap")
zip_refusal Zip.no_such_carousel = http_error 404 (codes "no such carousel")

module _ {F : Type 0} (fl : FloatOps F) (app : App F) where
  -- The `HTTPException` of a refusal; `unknown` are the ids that it lists.
  abbrev pub deck_refusal : List Text → DeckError → Reply (DeckBody F)
  deck_refusal unknown no_such_carousel = http_error 404 (codes "no such carousel")
  deck_refusal unknown too_many_stories = http_error 422 (
      codes "select at most "
      ++ (app.decimal app.settings.carousel_max_stories ++ codes " stories for one carousel"))
  deck_refusal unknown no_known_stories =
      http_error 404 (codes "none of the selected stories could be found")
  deck_refusal unknown deck_full = http_error 422 (
      codes "a carousel holds at most "
      ++ (app.decimal app.settings.carousel_max_stories ++ codes " stories"))
  deck_refusal unknown spans_cities =
      http_error 422 (codes "a carousel belongs to one city; this selection spans several")
  deck_refusal unknown validation_error = internal_error
  deck_refusal unknown no_such_story = http_error 422 (codes "no such story: " ++ join_ids unknown)

  -- `_response`
  unfoldable pub response : Db F → Carousel → List Text → CarouselResponse F
  response db c missing = record {
    id = c.id;
    slides = load_deck fl app.chars app.settings db c;
    missing_ids = missing;
    state = state c;
    created_at = c.created_at;
    last_edited_at = c.last_edited_at;
    last_downloaded_at = c.last_downloaded_at;
  }

  -- the row as it is read back behind a commit, or by a GET
  abbrev pub deck_reply : ℕ → Db F → List Text → Deck.Reply Carousel → Reply (DeckBody F)
  deck_reply status db missing (done c) = sent status (carousel (response db c missing))
  deck_reply status db missing (refuse e) = deck_refusal [] e

  -- the ids that had no row, where the stories were resolved
  abbrev pub missing_of : Deck.Reply (List (StoryRead F) × List Text × Option City) → List Text
  missing_of (done resolved) = resolved.1
  missing_of (refuse e) = []

  abbrev pub deck_answer :
      List Text → (Db F → Reply (DeckBody F)) → Db F → Deck.Reply (Db F) → Reply (DeckBody F) × Db F
  deck_answer unknown read db (done db') = (read db', db')
  deck_answer unknown read db (refuse e) = (deck_refusal unknown e, db)

  abbrev pub zip_answer : Db F → Zipped (List Member × Db F) → Reply (DeckBody F) × Db F
  zip_answer db (zipped (members, db')) = (sent 200 (archive members), db')
  zip_answer db (rejected e) = (zip_refusal e, db)

  abbrev pub deck_of : Db F → ℕ → Deck.Reply Carousel
  deck_of db id = get_carousel fl app.chars app.settings db id

  unfoldable pub deck_route : Instant → DeckRequest → Db F → Reply (DeckBody F) × Db F
  deck_route now (post_carousel data') db =
      let missing = missing_of (resolve fl app.chars app.settings db data'.story_ids) in
      deck_answer [] (λ db'. deck_reply 201 db' missing (deck_of db' db.next_carousel)) db
        (create_carousel fl app.chars app.settings app.date_label db data'.story_ids
          (Option.map sort_text data'.sort) now)
  deck_route now (post_stories id data') db =
      let missing = missing_of (resolve fl app.chars app.settings db data'.story_ids) in
      deck_answer [] (λ db'. deck_reply 200 db' missing (deck_of db' id)) db
        (add_stories fl app.chars app.settings db id data'.story_ids
          (Option.map sort_text data'.sort) now)
  deck_route now (put_deck id slides) db =
      deck_answer (unknown_ids db slides) (λ db'. deck_reply 200 db' [] (deck_of db' id)) db
        (save_carousel fl app.chars app.settings db id slides now)
  deck_route now get_carousels db = (sent 200 (summaries (list_carousels db)), db)
  deck_route now (get_one_carousel id) db = (deck_reply 200 db [] (deck_of db id), db)
  deck_route now (delete_one_carousel id) db =
      deck_answer [] (λ db'. sent 204 no_content) db
        (delete_carousel fl app.chars app.settings db id)
  deck_route now (post_zip id images) db =
      zip_answer db (zip_slides app.b64decode app.two_digits app.settings db id images now)

  -- The body passes its schema.
  unfoldable pub deck_accepts : DeckRequest → Bool
  deck_accepts (post_carousel data') = carousel_request_ok app.settings data'
  deck_accepts (post_stories id data') = carousel_request_ok app.settings data'
  deck_accepts (put_deck id slides) = deck_write_ok app.settings slides
  deck_accepts (post_zip id images) = zip_request_ok app.settings images
  deck_accepts request = true

  -- The session first, then the body, then the route.
  unfoldable pub deck_respond : Caller → Instant → DeckRequest → Db F → Reply (DeckBody F) × Db F
  deck_respond (refused detail) now request db = (http_error 401 detail, db)
  deck_respond (known user) now request db =
      if deck_accepts request then deck_route now request db else (http_error 422 [], db)
