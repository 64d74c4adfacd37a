-- ===== src/Api/DeckAtomic.antt =====
-- What an error of a deck's route leaves behind: `app/api/v1/endpoints/carousels.py`.
use news2reel.Base.{
  ℕ, ◌≡◌, refl, ◌∙◌, true, false, Option, List, [], arith, Text, ◌==◌, is_none, Bool-cases,
  Option-cases, inl, inr, if◌then◌else◌,
}
use news2reel.Core.Floats.{FloatOps}
use news2reel.Model.{Instant, Carousel, Selection}
use news2reel.Store.{Db, get_carousel_row}
use news2reel.Accounts.{Caller, known, refused}
use news2reel.Deck
use news2reel.Deck.{
  SlideWrite, as_write, done, refuse, save_deck, resolve_stories, extended_deck, load_deck,
  put_carousel,
}
use news2reel.Deck.Given.{Given, Given-bind, anything}
use news2reel.Deck.Calls.{
  resolve, get_carousel, names_unknown, create_carousel, add_stories, save_carousel,
  delete_carousel, or_refuse,
}
use news2reel.Deck.Zip.{Member, Zipped, zipped, rejected}
use news2reel.Api.{Reply, sent}
use news2reel.Api.Atomic.{is_error}
use news2reel.Api.Commits.{kept_by_map, found_at_end}
use news2reel.Api.Routes.{App}
use news2reel.Api.DeckRoutes.{
  DeckRequest, post_carousel, post_stories, put_deck, get_carousels, get_one_carousel,
  delete_one_carousel, post_zip, DeckBody, no_content, unknown_ids, deck_reply, deck_of,
  deck_answer, zip_answer, deck_route, deck_accepts, deck_respond,
}

module _ {F : Type 0} (fl : FloatOps F) (app : App F) (db : Db F) where
  abbrev HasDeck : ℕ → Db F → Type 0
  HasDeck id db' = is_none (get_carousel_row db' id) ≡ false

  get_carousel-HasDeck :
      (id : ℕ) → Given (λ _. HasDeck id db) (get_carousel fl app.chars app.settings db id)
  unfolding get_carousel
  get_carousel-HasDeck id = elim (Option-cases (get_carousel_row db id)) [
    | inl e ↦ rw e tt
    | inr (c, e) ↦ rw e refl
  ]

  put_carousel-HasDeck :
      (id : ℕ) (c : Carousel) (selections : List (Selection F))
      → HasDeck id db
      → HasDeck id (record db { carousels = put_carousel c db.carousels; selections = selections })
  unfolding get_carousel_row
  put_carousel-HasDeck id c selections h =
      kept_by_map (λ (d : Carousel). d.id) (λ d. if d.id == c.id then c else d) id db.carousels
        (λ d. ground arith)
      ∙ h

  create_carousel-HasDeck :
      (ids : List Text) (sort : Option Text) (now : Instant)
      → Given
          (HasDeck db.next_carousel)
          (create_carousel fl app.chars app.settings app.date_label db ids sort now)
  unfolding create_carousel save_deck get_carousel_row
  create_carousel-HasDeck ids sort now =
      Given-bind (λ _. Unit {0}) _ (resolve fl app.chars app.settings db ids) _ (anything _)
        (λ r _.
          Given-bind (λ _. Unit {0}) _ (or_refuse _ r.2) _ (anything _)
            (λ c _.
              Given-bind (λ _. Unit {0}) _ (as_write _) _ (anything _)
                (λ writes _.
                  found_at_end (λ (d : Carousel). d.id == db.next_carousel) _ db.carousels
                    (ground arith))))

  add_stories-HasDeck :
      (id : ℕ) (ids : List Text) (sort : Option Text) (now : Instant)
      → Given (HasDeck id) (add_stories fl app.chars app.settings db id ids sort now)
  unfolding add_stories
  add_stories-HasDeck id ids sort now =
      Given-bind (λ _. HasDeck id db) _ (deck_of fl app db id) _ (get_carousel-HasDeck id)
        (λ c there.
          Given-bind (λ _. Unit {0}) _ (resolve fl app.chars app.settings db ids) _ (anything _)
            (λ r _.
              Given-bind (λ _. Unit {0}) _
                (extended_deck fl app.chars app.settings (load_deck fl app.chars app.settings db c)
                  r.0)
                _ (anything _)
                (λ d _.
                  Given-bind (λ _. Unit {0}) _ (as_write d.0) _ (anything _)
                    (λ writes _. put_carousel-HasDeck id _ _ there))))

  save_carousel-HasDeck :
      (id : ℕ) (slides : List SlideWrite) (now : Instant)
      → Given (HasDeck id) (save_carousel fl app.chars app.settings db id slides now)
  unfolding save_carousel
  save_carousel-HasDeck id slides now =
      Given-bind (λ _. HasDeck id db) _ (deck_of fl app db id) _ (get_carousel-HasDeck id)
        (λ c there. elim (Bool-cases (names_unknown db slides)) [
          | inl unknown ↦ rw unknown tt
          | inr known' ↦ rw known' (put_carousel-HasDeck id _ db.selections there)
        ])

  -- Where the answer is an error, the database is the one that was there.
  abbrev IsAtomic : Reply (DeckBody F) × Db F → Type 0
  IsAtomic answered = is_error answered.0 ≡ true → answered.1 ≡ db

  deck_reply-succeeds :
      (status id : ℕ) (missing : List Text) (db' : Db F)
      → HasDeck id db'
      → is_error (deck_reply fl app status db' missing (deck_of fl app db' id)) ≡ false
  unfolding get_carousel
  deck_reply-succeeds status id missing db' h = elim (Option-cases (get_carousel_row db' id)) [
    | inl e ↦ absurd (ground arith)
    | inr (c, e) ↦ rw e refl
  ]

  deck_answer-IsAtomic :
      (unknown : List Text) (read : Db F → Reply (DeckBody F)) (P : Db F → Type 0)
      (result : Deck.Reply (Db F))
      → Given P result
      → ((db' : Db F) → P db' → is_error (read db') ≡ false)
      → IsAtomic (deck_answer fl app unknown read db result)
  deck_answer-IsAtomic unknown read P (done db') h reads error =
      absurd (ground (arith, reads db' h))
  deck_answer-IsAtomic unknown read P (refuse e) h reads error = refl

  zip_answer-IsAtomic :
      (result : Zipped (List Member × Db F)) → IsAtomic (zip_answer fl app db result)
  zip_answer-IsAtomic (zipped (members, db')) error = absurd (ground arith)
  zip_answer-IsAtomic (rejected e) error = refl

  deck_route-IsAtomic :
      (now : Instant) (request : DeckRequest) → IsAtomic (deck_route fl app now request db)
  unfolding deck_route
  deck_route-IsAtomic now (post_carousel data') =
      deck_answer-IsAtomic [] _ (HasDeck db.next_carousel) _ (create_carousel-HasDeck _ _ now)
        (deck_reply-succeeds 201 db.next_carousel _)
  deck_route-IsAtomic now (post_stories id data') =
      deck_answer-IsAtomic [] _ (HasDeck id) _ (add_stories-HasDeck id _ _ now)
        (deck_reply-succeeds 200 id _)
  deck_route-IsAtomic now (put_deck id slides) =
      deck_answer-IsAtomic (unknown_ids db slides) _ (HasDeck id) _
        (save_carousel-HasDeck id slides now) (deck_reply-succeeds 200 id [])
  deck_route-IsAtomic now get_carousels = λ error. refl
  deck_route-IsAtomic now (get_one_carousel id) = λ error. refl
  deck_route-IsAtomic now (delete_one_carousel id) =
      deck_answer-IsAtomic [] (λ _. sent 204 no_content) (λ _. Unit {0})
        (delete_carousel fl app.chars app.settings db id) (anything _) (λ db' _. refl)
  deck_route-IsAtomic now (post_zip id images) = zip_answer-IsAtomic _

  -- Whatever a caller asks of the routes over decks, and whether it is logged in or not: an answer
  -- that is an error leaves every table as it was, so that no pick is recorded and no download is
  -- stamped for a deck that the editor did not get.
  pub deck_respond-atomic :
      (caller : Caller) (now : Instant) (request : DeckRequest)
      → is_error (deck_respond fl app caller now request db).0 ≡ true
      → (deck_respond fl app caller now request db).1 ≡ db
  unfolding deck_respond
  deck_respond-atomic (refused detail) now request = λ error. refl
  deck_respond-atomic (known user) now request = elim (Bool-cases (deck_accepts fl app request)) [
    | inl valid ↦ rw valid (deck_route-IsAtomic now request)
    | inr invalid ↦ rw invalid (λ error. refl)
  ]
