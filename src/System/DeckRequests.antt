-- ===== src/System/DeckRequests.antt =====
-- The routes of `app/api/v1/endpoints/carousels.py`, as steps of the system.
use news2reel.Base.{
  Bool-cases, ℕ, Option, some, List, [], Text, All-find?, Option-cases, inl, inr, ◌==◌,
}
use news2reel.Core.Config.{Settings}
use news2reel.Model.{Instant}
use news2reel.Store.{Db, get_carousel_row}
use news2reel.Deck.Zip.{
  Zipped, zipped, rejected, Member, Payload, build_archive, or_reject, no_such_carousel, stamped,
  zip_slides, ◌>>=◌,
}
use news2reel.Core.Floats.{FloatOps}
use news2reel.Accounts.{Caller, known, refused}
use news2reel.Deck
use news2reel.Deck.{done, refuse}
use news2reel.Deck.Given.{Given}
use news2reel.Api.{Reply}
use news2reel.Api.Routes.{App}
use news2reel.Api.DeckRoutes.{
  DeckRequest, post_carousel, post_stories, put_deck, get_carousels, get_one_carousel,
  delete_one_carousel, post_zip, DeckBody, unknown_ids, deck_answer, zip_answer, deck_route,
  deck_accepts, deck_respond,
}
use news2reel.System.Sound.{IsSound, Follows, Follows-decks, Follows-refl}
use news2reel.System.Decks.{
  create_carousel-Follows, add_stories-Follows, save_carousel-Follows, delete_carousel-Follows,
  Homed, put_carousel-Homed,
}

-- Where the download goes through, what it leaves follows on what was there.
abbrev pub Leaves : {F : Type 0} → Db F → Zipped (List Member × Db F) → Type 0
Leaves db (zipped result) = Follows db result.1
Leaves db (rejected e) = Unit

module _ {F : Type 0} (db : Db F) (s : IsSound db) where
  found-Leaves :
      (id : ℕ) (now : Instant) (archive : List Member)
      → Leaves db (
          or_reject no_such_carousel (get_carousel_row db id)
          >>= (λ carousel. zipped (archive, stamped carousel now db)))
  unfolding get_carousel_row
  found-Leaves id now archive = elim (Option-cases (get_carousel_row db id)) [
    | inl e ↦ rw (e, Leaves) tt
    | inr (c, e) ↦
        let home = All-find? (Homed db) (λ d. d.id == id) db.carousels c s.carousels e in
        rw (e, Leaves)
          (Follows-decks db _ db.selections db.next_carousel s (
            put_carousel-Homed db (record c { last_downloaded_at = some now }) db.carousels home
              s.carousels))
  ]

  pub zip_slides-Leaves :
      (b64decode : Text → Option Payload) (two_digits : ℕ → Text) (settings : Settings F) (id : ℕ)
      (images : List Text) (now : Instant)
      → Leaves db (zip_slides b64decode two_digits settings db id images now)
  unfolding zip_slides
  zip_slides-Leaves b64decode two_digits settings id images now =
      built (build_archive b64decode two_digits settings 1 0 images)
    where
      built :
          (archive : Zipped (List Member))
          → Leaves db (
              archive >>= (λ members.
                or_reject no_such_carousel (get_carousel_row db id)
                >>= (λ carousel. zipped (members, stamped carousel now db))))
      built (zipped members) = found-Leaves id now members
      built (rejected e) = tt

module _ {F : Type 0} (fl : FloatOps F) (app : App F) (db : Db F) (s : IsSound db) where
  deck_answer-Follows :
      (unknown : List Text) (read : Db F → Reply (DeckBody F)) (result : Deck.Reply (Db F))
      → Given (Follows db) result
      → Follows db (deck_answer fl app unknown read db result).1
  deck_answer-Follows unknown read (done db') h = h
  deck_answer-Follows unknown read (refuse e) h = Follows-refl db s

  zip_answer-Follows :
      (result : Zipped (List Member × Db F))
      → Leaves db result
      → Follows db (zip_answer fl app db result).1
  zip_answer-Follows (zipped (members, db')) h = h
  zip_answer-Follows (rejected e) h = Follows-refl db s

  deck_route-Follows :
      (now : Instant) (request : DeckRequest) → Follows db (deck_route fl app now request db).1
  unfolding deck_route
  deck_route-Follows now (post_carousel data') =
      deck_answer-Follows [] _ _
        (create_carousel-Follows db fl app.chars app.settings s app.date_label _ _ now)
  deck_route-Follows now (post_stories id data') =
      deck_answer-Follows [] _ _ (add_stories-Follows db fl app.chars app.settings s id _ _ now)
  deck_route-Follows now (put_deck id slides) =
      deck_answer-Follows (unknown_ids db slides) _ _
        (save_carousel-Follows db fl app.chars app.settings s id slides now)
  deck_route-Follows now get_carousels = Follows-refl db s
  deck_route-Follows now (get_one_carousel id) = Follows-refl db s
  deck_route-Follows now (delete_one_carousel id) =
      deck_answer-Follows [] _ _ (delete_carousel-Follows db fl app.chars app.settings s id)
  deck_route-Follows now (post_zip id images) =
      zip_answer-Follows _
        (zip_slides-Leaves db s app.b64decode app.two_digits app.settings id images now)

  pub deck_respond-Follows :
      (caller : Caller) (now : Instant) (request : DeckRequest)
      → Follows db (deck_respond fl app caller now request db).1
  unfolding deck_respond
  deck_respond-Follows (refused detail) now request = Follows-refl db s
  deck_respond-Follows (known user) now request = elim (Bool-cases (deck_accepts fl app request)) [
    | inl valid ↦ rw valid (deck_route-Follows now request)
    | inr invalid ↦ rw invalid (Follows-refl db s)
  ]
