-- ===== src/Ingest/Persist/Refinement.antt =====
-- The article table as what a reader of it sees, the story under each id, and a fetch as an
-- operation on that.
use mathlib.Core.Path.{fun_ext}
use news2reel.Base.{
  ℕ, ◌+◌, ◌≡◌, refl, sym, ◌∙◌, Bool, true, false, Option, none, some, List, [], ◌∷◌, ◌++◌, arith,
  if◌then◌else◌, ◌==◌, Text, text_eq, text_eq_iff, any, find?, All, All-weaken, Bool-cases, inl,
  inr, keep_some,
}
use news2reel.Model.{Article, Source, City, Instant}
use news2reel.Core.Text.{Chars}
use news2reel.Ingest.Urls.{StdLib, is_truthy}
use news2reel.Ingest.Entry.{FeedEntry, Normalized, raises, normal, normalize_entry}
use news2reel.Ingest.Persist.{
  FeedResult, Ledger, has_id, insert_rows, unless_seen, add_seen, collect_rows, parse_and_persist,
  record_fetch_failure, collect_entry, Ended, returned, raised, inserted,
}
use news2reel.Ingest.Persist.Dedupe.{has_id-Grows, has_id-added}
use news2reel.Ingest.Persist.Ids.{SeenStored, has_id_of-seen, first_error}
use news2reel.Ingest.Persist.Again.{collect_rows-error}

-- The exception of a response: that of its first malformed link, if it is a feed.
abbrev pub response_error : StdLib → FeedResult → Option Text
response_error std result =
    if result.status_code == 304
    then none
    else if is_truthy result.parsed.version
    then first_error std result.parsed.entries
    else none

-- The abstract table: the story that is published under an id.
abbrev pub Stories : Type 0 → Type 0
Stories F = Text → Option (Article F)

module _ {F : Type 0} where
  abbrev pub with_id : Text → Article F → Bool
  with_id id a = text_eq a.id id

  abbrev pub view : List (Article F) → Stories F
  view table id = find? (with_id id) table

  abbrev pub first_of : Option (Article F) → Option (Article F) → Option (Article F)
  first_of (some a) later = some a
  first_of none later = later

  -- Articles are published in their order, and the first one under an id stays.
  abbrev pub publish : List (Article F) → Stories F → Stories F
  publish articles stories id = first_of (stories id) (find? (with_id id) articles)

  first_of-none : (o : Option (Article F)) → first_of o none ≡ o
  first_of-none none = refl
  first_of-none (some a) = refl

  first_of-test :
      (o : Option (Article F)) (test : Bool) (row : Article F) (later : Option (Article F))
      → first_of o (if test then some row else later)
        ≡ first_of (first_of o (if test then some row else none)) later
  first_of-test none true row later = refl
  first_of-test none false row later = refl
  first_of-test (some a) test row later = refl

  view-append :
      (table : List (Article F)) (row : Article F) (id : Text)
      → view (table ++ row ∷ []) id ≡ first_of (view table id) (view (row ∷ []) id)
  unfolding find?
  view-append [] row id = refl
  view-append (a ∷ table) row id = elim (Bool-cases (text_eq a.id id)) [
    | inl e ↦ rw e refl
    | inr f ↦ rw f (view-append table row id)
  ]

  view-has_id :
      (table : List (Article F)) (id : Text)
      → has_id id table ≡ true
      → (a : Article F) × (view table id ≡ some a)
  unfolding find? has_id any
  view-has_id [] id h = absurd (ground arith)
  view-has_id (b ∷ table) id h = elim (Bool-cases (text_eq b.id id)) [
    | inl e ↦ (b, rw e refl)
    | inr f ↦ let (a, e) = view-has_id table id (ground arith) in (a, rw f e)
  ]

  -- A row whose id is stored publishes nothing.
  publish-stored :
      (table rows : List (Article F)) (row : Article F) (id : Text)
      → has_id row.id table ≡ true
      → publish (row ∷ rows) (view table) id ≡ publish rows (view table) id
  unfolding find?
  publish-stored table rows row id h = elim (Bool-cases (text_eq row.id id)) [
    | inl e ↦
        let (a, found) = view-has_id table id (rw (← (text_eq_iff row.id id).0 e) h) in
        rw found refl
    | inr f ↦ rw f refl
  ]

  -- A row whose id is new is published.
  publish-new :
      (table rows : List (Article F)) (row : Article F) (id : Text)
      → publish (row ∷ rows) (view table) id ≡ publish rows (view (table ++ row ∷ [])) id
  unfolding find?
  publish-new table rows row id =
      rw (view-append table row id)
        (first_of-test (view table id) (text_eq row.id id) row (find? (with_id id) rows))

  insert_first :
      (table rows : List (Article F)) (row : Article F) (id : Text)
      → publish (row ∷ rows) (view table) id
        ≡ publish rows (view (if has_id row.id table then table else table ++ row ∷ [])) id
  insert_first table rows row id = elim (Bool-cases (has_id row.id table)) [
    | inl there ↦ rw there (publish-stored table rows row id there)
    | inr new ↦ rw new (publish-new table rows row id)
  ]

  stored-after :
      (table : List (Article F)) (row : Article F) (seen : List Text)
      → All (λ s. has_id s table ≡ true) seen
      → All
          (λ s. has_id s (if has_id row.id table then table else table ++ row ∷ []) ≡ true)
          (row.id ∷ seen)
  stored-after table row seen h = (has_id-added row table, kept)
    where
      kept :
          All (λ s. has_id s (if has_id row.id table then table else table ++ row ∷ []) ≡ true) seen
      kept = elim (Bool-cases (has_id row.id table)) [
        | inl there ↦ rw there h
        | inr new ↦ rw new (
            All-weaken _ _
              (λ s k. has_id-Grows s table (table ++ row ∷ []) 1 (row ∷ [], refl, refl) k) seen h)
      ]

  module _ (std : StdLib) (u : Chars) (source : Source) (cities : List City)
      (db_now : Instant) where
    abbrev pub keep_normal : Normalized F → List (Article F) → List (Article F)
    keep_normal (raises exc) articles = articles
    keep_normal (normal article) articles = keep_some article articles

    -- Every article that the feed's entries stand for, met before or not.
    abbrev pub feed_articles : ℕ → List FeedEntry → List (Article F)
    feed_articles position [] = []
    feed_articles position (entry ∷ entries) =
        keep_normal (normalize_entry std u source cities db_now entry position)
          (feed_articles (position + 1) entries)

    -- What a response publishes: nothing if it is a 304 or no feed.
    abbrev pub response_articles : FeedResult → List (Article F)
    response_articles result =
        if result.status_code == 304
        then []
        else if is_truthy result.parsed.version
        then feed_articles 1 result.parsed.entries
        else []

    -- These rows go into the table as these articles are published, and these ids are stored then.
    abbrev Publishes :
        List (Article F) → List (Article F) × List Text × Option Text → List (Article F) → Type 0
    Publishes table collected articles =
        ((id : Text) → view (insert_rows table collected.0).0 id ≡ publish articles (view table) id)
        × All (λ s. has_id s (insert_rows table collected.0).0 ≡ true) collected.1

    abbrev collected : ℕ → List FeedEntry → List Text → List (Article F) × List Text × Option Text
    collected position entries seen = collect_rows std u source cities db_now position entries seen

    entry-Publishes :
        (article : Option (Article F)) (position : ℕ) (entries : List FeedEntry)
        (table : List (Article F)) (seen : List Text)
        → All (λ s. has_id s table ≡ true) seen
        → ((table : List (Article F)) (seen : List Text)
            → (collected position entries seen).2 ≡ none
            → All (λ s. has_id s table ≡ true) seen
            → Publishes table (collected position entries seen) (feed_articles position entries))
        → (collected position entries (add_seen (unless_seen seen article) seen)).2 ≡ none
        → let fresh = unless_seen seen article in
          let rest = collected position entries (add_seen fresh seen) in
          Publishes table
            (keep_some fresh rest.0, rest.1, rest.2)
            (keep_some article (feed_articles position entries))
    unfolding insert_rows
    entry-Publishes none position entries table seen h behind = λ whole. behind table seen whole h
    entry-Publishes (some a) position entries table seen h behind =
        elim (Bool-cases (any (λ s. text_eq s a.id) seen)) [
          | inl met ↦
              let there = has_id_of-seen a.id table seen h met in
              rw met (λ whole.
                let (views, stored) = behind table seen whole h in
                (
                  λ id.
                      views id
                      ∙ sym (publish-stored table (feed_articles position entries) a id there),
                  stored,
                ))
          | inr new ↦
              let table' = if has_id a.id table then table else table ++ a ∷ [] in
              rw new (λ whole.
                let (views, stored) =
                  behind table' (a.id ∷ seen) whole (stored-after table a seen h) in
                (
                  λ id. views id ∙ sym (insert_first table (feed_articles position entries) a id),
                  stored,
                ))
        ]

    normal-Publishes :
        (n : Normalized F) (position : ℕ) (entries : List FeedEntry) (table : List (Article F))
        (seen : List Text)
        → All (λ s. has_id s table ≡ true) seen
        → ((table : List (Article F)) (seen : List Text)
            → (collected position entries seen).2 ≡ none
            → All (λ s. has_id s table ≡ true) seen
            → Publishes table (collected position entries seen) (feed_articles position entries))
        → (collect_entry seen n (collected position entries)).2 ≡ none
        → Publishes table
            (collect_entry seen n (collected position entries))
            (keep_normal n (feed_articles position entries))
    normal-Publishes (raises exc) position entries table seen h behind whole = absurd (ground arith)
    normal-Publishes (normal article) position entries table seen h behind whole =
        entry-Publishes article position entries table seen h behind whole

    entries-Publishes :
        (entries : List FeedEntry) (position : ℕ) (table : List (Article F)) (seen : List Text)
        → (collected position entries seen).2 ≡ none
        → All (λ s. has_id s table ≡ true) seen
        → Publishes table (collected position entries seen) (feed_articles position entries)
    unfolding collect_rows insert_rows find?
    entries-Publishes [] position table seen whole h =
        (λ id. sym (first_of-none (view table id)), h)
    entries-Publishes (entry ∷ entries) position table seen whole h =
        normal-Publishes (normalize_entry std u source cities db_now entry position) (position + 1)
          entries table seen h (entries-Publishes entries (position + 1)) whole

    -- A fetch that refines the publication of these articles, or the exception in place of it.
    abbrev pub Refines : List (Article F) → Option Text → Ledger F → Ended F → Type 0
    Refines articles none ledger (returned written) =
        (view written.2.articles ≡ publish articles (view ledger.articles)) × SeenStored written.2
    Refines articles none ledger (raised exc seen) = ⊥
    Refines articles (some error) ledger (returned written) = ⊥
    Refines articles (some error) ledger (raised exc seen) = exc ≡ error

    inserted-Refines :
        (result : FeedResult) (now : Instant) (ledger : Ledger F)
        (c : List (Article F) × List Text × Option Text) (articles : List (Article F))
        (error : Option Text)
        → c.2 ≡ error
        → (c.2 ≡ none → Publishes ledger.articles c articles)
        → Refines articles error ledger (inserted std u source cities db_now result now ledger c)
    inserted-Refines result now ledger (rows, seen, none) articles none e h =
        let (views, stored) = h refl in (fun_ext views, stored)
    inserted-Refines result now ledger (rows, seen, none) articles (some exc) e h =
        absurd (ground arith)
    inserted-Refines result now ledger (rows, seen, some exc) articles none e h =
        absurd (ground arith)
    inserted-Refines result now ledger (rows, seen, some exc) articles (some error) e h =
        ground arith

    -- A fetch refines the publication of its articles. When the ids met before in the tick are
    -- stored, and no link of the feed is malformed, it returns: under every id the table holds
    -- afterwards what it held before, or else the first article that the response's entries carry
    -- under that id; nothing is published by a 304 or by what is no feed; and the ids met are
    -- stored again, so the next source of the tick may follow. A feed with a malformed link is
    -- published in no part: the exception of its first one leaves.
    pub parse_and_persist-publish :
        (result : FeedResult) (now : Instant) (ledger : Ledger F)
        → SeenStored ledger
        → Refines
            (response_articles result)
            (response_error std result)
            ledger
            (parse_and_persist std u source cities db_now result now ledger)
    unfolding parse_and_persist record_fetch_failure find?
    parse_and_persist-publish result now ledger h =
        let same = fun_ext (λ id. sym (first_of-none (view ledger.articles id))) in
        elim (Bool-cases (result.status_code == 304)) [
          | inl unchanged ↦ rw unchanged (same, h)
          | inr other ↦ elim (Bool-cases (is_truthy result.parsed.version)) [
            | inl feed ↦
                let entries = result.parsed.entries in
                rw (other, feed)
                  (inserted-Refines result now ledger (collected 1 entries ledger.seen) _
                    (first_error std entries)
                    (collect_rows-error F std u source cities db_now 1 entries ledger.seen)
                    (λ whole. entries-Publishes entries 1 ledger.articles ledger.seen whole h))
            | inr junk ↦ rw (other, junk) (same, h)
          ]
        ]
