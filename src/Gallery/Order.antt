-- ===== src/Gallery/Order.antt =====
-- The order of the Gallery.
use mathlib.Core.Path.{subst}
use mathlib.Core.List.{Permᴰ}
use news2reel.Base.{
  ◌≡◌, refl, ap, Bool, false, some, List, [], ◌∷◌, map, ltb, lex, sorted, sorted-perm, IsSorted,
  sorted-IsSorted, IsWeakOrder, lex-IsWeakOrder, flip-IsWeakOrder, on-IsWeakOrder, ltb-IsWeakOrder,
  filter_map, or_else, All, All-map,
}
use news2reel.Model.{City, Carousel}
use news2reel.Store.{Db, get_city_row}
use news2reel.Gallery.{
  CarouselSummary, worked_on, stands_first, summary_of, with_city, list_carousels,
}

-- A card in front of another, by what they print: the later date, or the higher id.
abbrev pub reads_first : CarouselSummary → CarouselSummary → Bool
reads_first a b =
    let date_a = or_else a.last_edited_at a.created_at in
    let date_b = or_else b.last_edited_at b.created_at in
    lex (ltb date_b date_a) (ltb date_a date_b) (ltb b.id a.id)

stands_first-IsWeakOrder : IsWeakOrder stands_first
stands_first-IsWeakOrder =
    lex-IsWeakOrder (λ (a b : Carousel × City). ltb (worked_on b.0) (worked_on a.0))
      (λ (a b : Carousel × City). ltb b.0.id a.0.id)
      (on-IsWeakOrder (λ a b. ltb b a) (λ (r : Carousel × City). worked_on r.0)
        (flip-IsWeakOrder ltb ltb-IsWeakOrder))
      (on-IsWeakOrder (λ a b. ltb b a) (λ (r : Carousel × City). r.0.id)
        (flip-IsWeakOrder ltb ltb-IsWeakOrder))

IsSorted-summaries :
    (rows : List (Carousel × City))
    → IsSorted stands_first rows
    → IsSorted reads_first (map summary_of rows)
IsSorted-summaries [] h = tt
IsSorted-summaries (r ∷ rows) h = (
  All-map (λ s. stands_first s r ≡ false) (λ s. reads_first s (summary_of r) ≡ false) summary_of
      (λ s e. e) rows h.0,
  IsSorted-summaries rows h.1,
)

map_perm : {A B : Type 0} (f : A → B) {xs ys : List A} → Permᴰ xs ys → Permᴰ (map f xs) (map f ys)
map_perm f Permᴰ.nil = Permᴰ.nil
map_perm f (Permᴰ.cons e p) = Permᴰ.cons (ap f e) (map_perm f p)
map_perm f (Permᴰ.swap e e') = Permᴰ.swap (ap f e) (ap f e')
map_perm f (Permᴰ.trans p q) = Permᴰ.trans (map_perm f p) (map_perm f q)

module _ {F : Type 0} (db : Db F) where
  -- the foreign key of a deck
  abbrev pub HasCity : Carousel → Type 0
  HasCity carousel = (city : City) × (get_city_row db carousel.city_id ≡ some city)

  with_city-found :
      (carousel : Carousel) (city : City)
      → get_city_row db carousel.city_id ≡ some city
      → with_city db carousel ≡ some (carousel, city)
  with_city-found carousel city e = rw (e, with_city) refl

  joined-ids :
      (carousels : List Carousel)
      → All HasCity carousels
      → map (λ s. s.id) (map summary_of (filter_map (with_city db) carousels))
        ≡ map (λ c. c.id) carousels
  unfolding filter_map
  joined-ids [] h = refl
  joined-ids (c ∷ carousels) ((city, e), h) =
      rw (with_city-found c city e) (ap (λ ids. c.id ∷ ids) (joined-ids carousels h))

  -- The Gallery reads downwards by the date on its cards, the last edit or else the creation, with
  -- ties by the higher id first; and where every deck has its city, each deck is shown exactly once.
  pub list_carousels_lem :
      All HasCity db.carousels
      → IsSorted reads_first (list_carousels db)
        × Permᴰ (map (λ s. s.id) (list_carousels db)) (map (λ c. c.id) db.carousels)
  unfolding list_carousels
  list_carousels_lem h =
      let rows = filter_map (with_city db) db.carousels in
      (
        IsSorted-summaries (sorted stands_first rows)
            (sorted-IsSorted stands_first stands_first-IsWeakOrder rows),
        subst (λ ids. Permᴰ (map (λ s. s.id) (list_carousels db)) ids) (joined-ids db.carousels h)
            (map_perm (λ s. s.id) (map_perm summary_of (sorted-perm stands_first rows))),
      )
