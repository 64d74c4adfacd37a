-- ===== src/Feed/Order.antt =====
-- The order of the feed: what the editor reads is sorted by what the cards print, pages join
-- without a gap, and the database's order of rows does not show.
use mathlib.Core.List.{Permᴰ, map-append}
use news2reel.Base.{
  ◌+◌, ◌≤◌, ◌≡◌, refl, ap, Bool, true, false, some, List, [], ◌∷◌, ◌++◌, map, arith, text_eq, All,
  take, drop, length, Distinct, differ, IsSorted, sorted-eq_of_perm, sorted-IsSorted, filter_map,
  filter_map-perm, flip-IsWeakOrder, on-IsWeakOrder, IsWeakOrder, All-filter_map, All-unit,
  All-sorted, IsSorted-take, IsSorted-drop, IsSorted-map_still, take-append-take, drop-drop, inl,
  inr, length-map, length-take-le, Option-cases,
}
use news2reel.Core.Floats.{FloatOps, FloatLaws}
use news2reel.Core.Config.{Settings}
use news2reel.Core.Text.{Chars}
use news2reel.Model.{Carousel}
use news2reel.Rank.{Key, key_lt, sort_key, engagement_sort_key}
use news2reel.Rank.Order.{key_id, key_lt-IsWeakOrder, key_lt-differ}
use news2reel.Store.{StoryRow}
use news2reel.Stories.{StoryRead, project_story, story_of, rank_inputs}
use news2reel.Feed.{
  FeedQuery, admit, admitted, ranked, ranks_before, page_limit, with_state, feed_page,
}

-- No two rows carry the same article: the id is the primary key.
abbrev pub DistinctIds : {F : Type 0} → List (StoryRow F) → Type 0
DistinctIds [] = Unit
DistinctIds (row ∷ rows) =
    All (λ r. text_eq r.article.id row.article.id ≡ false) rows × DistinctIds rows

-- The tuple that a card's own fields spell.
abbrev pub card_key : {F : Type 0} → (by : Bool) → StoryRead F → Key F by
card_key true story = (story.score, story.published_at, story.id)
card_key false story = (story.published_at, story.score, story.id)

module _ {F : Type 0} (fl : FloatOps F) (laws : FloatLaws fl) (u : Chars)
    (settings : Settings F) where
  -- The first card belongs above the second.
  abbrev pub reads_before : (by : Bool) → StoryRead F → StoryRead F → Bool
  reads_before by a b = key_lt fl by (card_key by b) (card_key by a)

  ranks_before-IsWeakOrder : (by : Bool) → IsWeakOrder (ranks_before fl u settings by)
  ranks_before-IsWeakOrder by =
      on-IsWeakOrder (λ a b. key_lt fl by b a) (λ p. p.0)
        (flip-IsWeakOrder (key_lt fl by) (key_lt-IsWeakOrder fl laws by))

  admit_key :
      (by : Bool) (row : StoryRow F) (pair : Key F by × StoryRead F)
      → admit fl u settings by row ≡ some pair
      → (key_id F by pair.0 ≡ row.article.id) × (pair.0 ≡ card_key by pair.1)
  unfolding admit project_story story_of rank_inputs sort_key engagement_sort_key
  admit_key true row pair h = ground arith
  admit_key false row pair h = ground arith

  -- An article that differs from all others by its id gets a key that differs from theirs.
  admitted-apart :
      (by : Bool) (row : StoryRow F) (pair : Key F by × StoryRead F) (rows : List (StoryRow F))
      → key_id F by pair.0 ≡ row.article.id
      → All (λ r. text_eq r.article.id row.article.id ≡ false) rows
      → All
          (λ p. differ (ranks_before fl u settings by) pair p ≡ true)
          (admitted fl u settings by rows)
  unfolding admitted
  admitted-apart by row pair rows e h =
      All-filter_map _ _ (admit fl u settings by)
        (λ r p apart kept. key_lt-differ fl by p.0 pair.0 (rw (e, (admit_key by r p kept).0) apart))
        rows h

  admitted-Distinct :
      (by : Bool) (rows : List (StoryRow F))
      → DistinctIds rows
      → Distinct (ranks_before fl u settings by) (admitted fl u settings by rows)
  unfolding admitted filter_map
  admitted-Distinct by [] h = tt
  admitted-Distinct by (row ∷ rows) h = elim (Option-cases (admit fl u settings by row)) [
    | inl e ↦ rw e (admitted-Distinct by rows h.1)
    | inr (pair, e) ↦ rw e (
      admitted-apart by row pair rows (admit_key by row pair e).0 h.0,
      admitted-Distinct by rows h.1,
    )
  ]

  -- Where no two rows carry the same article and the floats are lawful, the page does not depend
  -- on the order in which the database returned the rows.
  pub feed_page-eq_of_perm :
      (q : FeedQuery) (carousels : List Carousel) {rows rows' : List (StoryRow F)}
      → Permᴰ rows rows'
      → DistinctIds rows
      → feed_page fl u settings q carousels rows ≡ feed_page fl u settings q carousels rows'
  unfolding feed_page ranked admitted
  feed_page-eq_of_perm q carousels p h =
      ap
        (λ pairs.
          map (with_state carousels)
            (take (page_limit settings q) (drop q.offset (map (λ pair. pair.1) pairs))))
        (sorted-eq_of_perm (ranks_before fl u settings q.by_engagement)
          (ranks_before-IsWeakOrder q.by_engagement)
          (filter_map-perm (admit fl u settings q.by_engagement) p)
          (admitted-Distinct q.by_engagement _ h))

  keyed-behind :
      (by : Bool) (p : Key F by × StoryRead F) (pairs : List (Key F by × StoryRead F))
      → p.0 ≡ card_key by p.1
      → All (λ q. q.0 ≡ card_key by q.1) pairs
      → All (λ q. ranks_before fl u settings by q p ≡ false) pairs
      → All (λ story. reads_before by story p.1 ≡ false) (map (λ q. q.1) pairs)
  keyed-behind by p [] e k s = tt
  keyed-behind by p (q ∷ pairs) e k s = (rw (← e, ← k.0) s.0, keyed-behind by p pairs e k.1 s.1)

  IsSorted-pairs :
      (by : Bool) (pairs : List (Key F by × StoryRead F))
      → All (λ p. p.0 ≡ card_key by p.1) pairs
      → IsSorted (ranks_before fl u settings by) pairs
      → IsSorted (reads_before by) (map (λ p. p.1) pairs)
  IsSorted-pairs by [] k s = tt
  IsSorted-pairs by (p ∷ pairs) k s =
      (keyed-behind by p pairs k.0 k.1 s.0, IsSorted-pairs by pairs k.1 s.1)

  admitted-keyed :
      (by : Bool) (rows : List (StoryRow F))
      → All (λ p. p.0 ≡ card_key by p.1) (admitted fl u settings by rows)
  unfolding admitted
  admitted-keyed by rows =
      All-filter_map (λ _. Unit {0}) _ (admit fl u settings by)
        (λ row pair _ kept. (admit_key by row pair kept).1) rows (All-unit rows)

  ranked-IsSorted :
      (by : Bool) (rows : List (StoryRow F))
      → IsSorted (reads_before by) (ranked fl u settings by rows)
  unfolding ranked
  ranked-IsSorted by rows =
      IsSorted-pairs by _ (All-sorted (ranks_before fl u settings by) _ _ (admitted-keyed by rows))
        (sorted-IsSorted (ranks_before fl u settings by) (ranks_before-IsWeakOrder by) _)

  with_state-still :
      (by : Bool) (carousels : List Carousel) (a b : StoryRead F)
      → reads_before by (with_state carousels a) (with_state carousels b) ≡ reads_before by a b
  with_state-still true carousels a b = refl
  with_state-still false carousels a b = refl

  -- With lawful floats, every page reads in descending order of what its cards print: score,
  -- date and id under `sort=engagement`, date, score and id under `sort=recent`.
  pub feed_page-IsSorted :
      (q : FeedQuery) (carousels : List Carousel) (rows : List (StoryRow F))
      → IsSorted (reads_before q.by_engagement) (feed_page fl u settings q carousels rows)
  unfolding feed_page
  feed_page-IsSorted q carousels rows =
      IsSorted-map_still _ (with_state carousels) (with_state-still q.by_engagement carousels) _
        (IsSorted-take _ _ _ (IsSorted-drop _ _ _ (ranked-IsSorted q.by_engagement rows)))

-- A page and the next one, asked for with the same limit, are together the cards from the first
-- page's offset on, as many as two pages hold: none is skipped and none stands twice.
feed_page-append-feed_page :
    {F : Type 0} (fl : FloatOps F) (u : Chars) (settings : Settings F) (q : FeedQuery)
    (carousels : List Carousel) (rows : List (StoryRow F))
    → feed_page fl u settings q carousels rows
        ++ feed_page fl u settings
            (record q { offset = q.offset + page_limit settings q })
            carousels
            rows
      ≡ map (with_state carousels) (
          take
            (page_limit settings q + page_limit settings q)
            (drop q.offset (ranked fl u settings q.by_engagement rows)))
unfolding feed_page page_limit
feed_page-append-feed_page fl u settings q carousels rows =
    let n = page_limit settings q in
    let cards = ranked fl u settings q.by_engagement rows in
    rw (← map-append, ← drop-drop q.offset n cards, take-append-take n n (drop q.offset cards)) refl

-- No page exceeds the maximum, whatever limit was asked for.
length-feed_page-le :
    {F : Type 0} (fl : FloatOps F) (u : Chars) (settings : Settings F) (q : FeedQuery)
    (carousels : List Carousel) (rows : List (StoryRow F))
    → length (feed_page fl u settings q carousels rows) ≤ settings.story_max_limit
unfolding feed_page page_limit
length-feed_page-le fl u settings q carousels rows =
    let cards = drop q.offset (ranked fl u settings q.by_engagement rows) in
    let n = page_limit settings q in
    omega (arith, length-map (with_state carousels) (take n cards), length-take-le n cards)
