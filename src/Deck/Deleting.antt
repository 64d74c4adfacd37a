-- ===== src/Deck/Deleting.antt =====
-- What a deleted deck leaves behind.
use mathlib.Core.Path.{ap₂}
use news2reel.Base.{
  ℕ, ◌≡◌, ◌≢◌, refl, not, none, some, List, [], ◌∷◌, map, arith, All, ◌==◌, ==_iff, find?,
  find?-passes, filter, inl, inr, Option-cases,
}
use news2reel.Core.Floats.{FloatOps}
use news2reel.Core.Config.{Settings}
use news2reel.Core.Text.{Chars}
use news2reel.Model.{Carousel, Selection}
use news2reel.Store.{Db, get_carousel_row}
use news2reel.Deck.{done}
use news2reel.Deck.Calls.{get_carousel, forget_carousel, delete_carousel}

find?-filter_out :
    (id : ℕ) (carousels : List Carousel)
    → find? (λ c. c.id == id) (filter (λ c. not (c.id == id)) carousels) ≡ none
unfolding find? filter
find?-filter_out id [] = refl
find?-filter_out id (c ∷ carousels) = ground (arith, find?-filter_out id carousels)

module _ {F : Type 0} (fl : FloatOps F) (u : Chars) (settings : Settings F) where
  forget_carousel_lem :
      (id : ℕ) (s : Selection F)
      → ((forget_carousel fl u settings id s).article_id ≡ s.article_id)
        × ((forget_carousel fl u settings id s).score ≡ s.score)
        × ((forget_carousel fl u settings id s).carousel_id ≢ some id)
  forget_carousel_lem id s = ground arith

  forget_carousel-picks :
      (id : ℕ) (picks : List (Selection F))
      → (map (λ s. s.article_id) (map (forget_carousel fl u settings id) picks)
          ≡ map (λ s. s.article_id) picks)
        × (map (λ s. s.score) (map (forget_carousel fl u settings id) picks)
            ≡ map (λ s. s.score) picks)
        × All (λ s. s.carousel_id ≢ some id) (map (forget_carousel fl u settings id) picks)
  forget_carousel-picks id [] = (refl, refl, tt)
  forget_carousel-picks id (s ∷ picks) =
      let (articles, scores, gone) = forget_carousel-picks id picks in
      let (article, score, free) = forget_carousel_lem id s in
      (ap₂ ◌∷◌ article articles, ap₂ ◌∷◌ score scores, (free, gone))

  -- A deleted deck is gone, and the picks that went into it are not: every selection stands with
  -- its story and its score, and none names the deck any more.
  delete_carousel_lem :
      (db db' : Db F) (carousel_id : ℕ)
      → delete_carousel fl u settings db carousel_id ≡ done db'
      → (get_carousel_row db' carousel_id ≡ none)
        × (map (λ s. s.article_id) db'.selections ≡ map (λ s. s.article_id) db.selections)
        × (map (λ s. s.score) db'.selections ≡ map (λ s. s.score) db.selections)
        × All (λ s. s.carousel_id ≢ some carousel_id) db'.selections
  unfolding delete_carousel get_carousel get_carousel_row
  delete_carousel_lem db db' carousel_id h =
      elim (Option-cases (find? (λ c. c.id == carousel_id) db.carousels)) [
        | inl e ↦ absurd (ground arith)
        | inr (c, e) ↦
            let same =
              (==_iff c.id carousel_id).0
                (find?-passes (λ d. d.id == carousel_id) db.carousels c e) in
            let decks : db'.carousels ≡ filter (λ d. not (d.id == carousel_id)) db.carousels =
              ground arith in
            let picks : db'.selections
                ≡ map (forget_carousel fl u settings carousel_id) db.selections =
              ground arith in
            let (articles, scores, free) = forget_carousel-picks carousel_id db.selections in
            rw (decks, picks) (find?-filter_out carousel_id db.carousels, articles, scores, free)
      ]
