-- ===== src/Deck/RoundTrip.antt =====
-- A deck that is saved is read back as it was written.
use news2reel.Base.{
  ℕ, suc, ◌≤◌, ◌≡◌, refl, ap, false, List, [], ◌∷◌, map, arith, All, sorted, insert, IsSorted, ltb,
  some,
}
use news2reel.Core.Floats.{FloatOps}
use news2reel.Core.Config.{Settings}
use news2reel.Core.Text.{Chars}
use news2reel.Model.{Instant, CarouselSlide, Carousel}
use news2reel.Store.{Db}
use news2reel.Deck.{SlideWrite, written, numbered, save_deck, stands_before, load_slide, load_deck}

sorted_still :
    (rows : List CarouselSlide) → IsSorted stands_before rows → sorted stands_before rows ≡ rows
unfolding sorted insert
sorted_still [] h = refl
sorted_still (r ∷ []) h = refl
sorted_still (r ∷ s ∷ rows) h = rw (sorted_still (s ∷ rows) h.1, h.0.0) refl

numbered_above :
    (low index : ℕ) (slides : List SlideWrite)
    → low ≤ index
    → All (λ row. low ≤ row.position) (numbered index slides)
unfolding numbered
numbered_above low index [] h = tt
numbered_above low index (s ∷ slides) h = (h, numbered_above low (suc index) slides (omega arith))

not_before :
    (index : ℕ) (rows : List CarouselSlide)
    → All (λ row. index ≤ row.position) rows
    → All (λ row. ltb row.position index ≡ false) rows
not_before index [] h = tt
not_before index (r ∷ rows) h = (ground arith, not_before index rows h.1)

numbered-IsSorted :
    (index : ℕ) (slides : List SlideWrite) → IsSorted stands_before (numbered index slides)
unfolding numbered
numbered-IsSorted index [] = tt
numbered-IsSorted index (s ∷ slides) = (
  not_before index _ (numbered_above index (suc index) slides (omega arith)),
  numbered-IsSorted (suc index) slides,
)

module _ {F : Type 0} (fl : FloatOps F) (u : Chars) (settings : Settings F) (db : Db F) where
  load_slide-numbered :
      (index : ℕ) (slides : List SlideWrite)
      → map written (map (load_slide fl u settings db) (numbered index slides)) ≡ slides
  unfolding numbered load_slide
  load_slide-numbered index [] = refl
  load_slide-numbered index (s ∷ slides) = ap (◌∷◌ s) (load_slide-numbered (suc index) slides)

  pub load_deck-save_deck :
      (carousel : Carousel) (slides : List SlideWrite) (now : Instant)
      → (map written (load_deck fl u settings db (save_deck carousel slides now)) ≡ slides)
        × ((save_deck carousel slides now).last_edited_at ≡ some now)
        × ((save_deck carousel slides now).last_downloaded_at ≡ carousel.last_downloaded_at)
  unfolding load_deck save_deck
  load_deck-save_deck carousel slides now =
      (rw (sorted_still _ (numbered-IsSorted 0 slides)) (load_slide-numbered 0 slides), refl, refl)
