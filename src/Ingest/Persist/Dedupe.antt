-- ===== src/Ingest/Persist/Dedupe.antt =====
-- The article table is the dedupe ledger: it only grows, holds no id twice, and the same feed
-- again adds nothing.
use mathlib.Core.List.{append-nil, append_assoc}
use news2reel.Base.{
  Option, some, none, ℕ, ◌≡◌, refl, ◌∙◌, sym, true, false, List, [], ◌∷◌, ◌++◌, arith,
  if◌then◌else◌, ◌==◌, Text, text_eq, text_eq_refl, any, All, All-append, any-append, length,
  Bool-cases, inl, inr,
}
use news2reel.Model.{Article, Source, City, Instant}
use news2reel.Core.Text.{Chars}
use news2reel.Ingest.Urls.{StdLib, is_truthy}
use news2reel.Ingest.Persist.{
  FeedResult, Ledger, has_id, insert_rows, parse_and_persist, record_fetch_failure, Ended, returned,
  raised, inserted,
}

module _ {F : Type 0} where
  -- No id stands twice in the table.
  abbrev pub UniqueIds : List (Article F) → Type 0
  UniqueIds [] = Unit
  UniqueIds (a ∷ articles) = All (λ b. text_eq a.id b.id ≡ false) articles × UniqueIds articles

  -- The first table is the start of the second, which has `n` rows more.
  abbrev pub Grows : List (Article F) → List (Article F) → ℕ → Type 0
  Grows table table' n = (added : List (Article F)) × (table' ≡ table ++ added) × (length added ≡ n)

  apart_of-has_id :
      (id : Text) (table : List (Article F))
      → has_id id table ≡ false
      → All (λ a. text_eq a.id id ≡ false) table
  unfolding has_id any
  apart_of-has_id id [] h = tt
  apart_of-has_id id (a ∷ table) h = (ground arith, apart_of-has_id id table (ground arith))

  UniqueIds-append :
      (table : List (Article F)) (a : Article F)
      → UniqueIds table
      → All (λ b. text_eq b.id a.id ≡ false) table
      → UniqueIds (table ++ a ∷ [])
  UniqueIds-append [] a h k = (tt, tt)
  UniqueIds-append (b ∷ table) a h k = (
    All-append (λ c. text_eq b.id c.id ≡ false) table (a ∷ []) h.0 (k.0, tt),
    UniqueIds-append table a h.1 k.1,
  )

  has_id-append_self :
      (row : Article F) (table : List (Article F)) → has_id row.id (table ++ row ∷ []) ≡ true
  unfolding has_id any
  has_id-append_self row [] = ground (arith, text_eq_refl row.id)
  has_id-append_self row (a ∷ table) = ground (arith, has_id-append_self row table)

  insert_rows-UniqueIds :
      (table rows : List (Article F)) → UniqueIds table → UniqueIds (insert_rows table rows).0
  unfolding insert_rows
  insert_rows-UniqueIds table [] h = h
  insert_rows-UniqueIds table (row ∷ rows) h = elim (Bool-cases (has_id row.id table)) [
    | inl there ↦ rw there (insert_rows-UniqueIds table rows h)
    | inr new ↦ rw new (
        insert_rows-UniqueIds (table ++ row ∷ []) rows
          (UniqueIds-append table row h (apart_of-has_id row.id table new)))
  ]

  pub insert_rows-Grows :
      (table rows : List (Article F))
      → Grows table (insert_rows table rows).0 (insert_rows table rows).1
  unfolding insert_rows
  insert_rows-Grows table [] = ([], sym (append-nil table), refl)
  insert_rows-Grows table (row ∷ rows) = elim (Bool-cases (has_id row.id table)) [
    | inl there ↦
        let (added, e, n) = insert_rows-Grows table rows in rw there (added, e, omega arith)
    | inr new ↦
        let (added, e, n) = insert_rows-Grows (table ++ row ∷ []) rows in
        rw new (row ∷ added, e ∙ append_assoc table (row ∷ []) added, omega arith)
  ]

  -- what is in the table stays in it
  pub has_id-Grows :
      (id : Text) (table table' : List (Article F)) (n : ℕ)
      → Grows table table' n
      → has_id id table ≡ true
      → has_id id table' ≡ true
  unfolding has_id
  has_id-Grows id table table' n (added, e, _) h =
      rw e (any-append (λ a. text_eq a.id id) table added ∙ ground arith)

  pub has_id-added :
      (row : Article F) (table : List (Article F))
      → has_id row.id (if has_id row.id table then table else table ++ row ∷ []) ≡ true
  has_id-added row table = elim (Bool-cases (has_id row.id table)) [
    | inl there ↦ rw there there
    | inr new ↦ rw new (has_id-append_self row table)
  ]

  -- a row that was handed to the insert is in the table afterwards
  pub insert_rows-has_id :
      (table rows : List (Article F))
      → All (λ r. has_id r.id (insert_rows table rows).0 ≡ true) rows
  unfolding insert_rows
  insert_rows-has_id table [] = tt
  insert_rows-has_id table (row ∷ rows) =
      let table' = if has_id row.id table then table else table ++ row ∷ [] in
      (
        has_id-Grows row.id table' _ _ (insert_rows-Grows table' rows) (has_id-added row table),
        insert_rows-has_id table' rows,
      )

  -- rows that are all in the table change nothing
  pub insert_rows-again :
      (table rows : List (Article F))
      → All (λ r. has_id r.id table ≡ true) rows
      → insert_rows table rows ≡ (table, 0)
  unfolding insert_rows
  insert_rows-again table [] h = refl
  insert_rows-again table (row ∷ rows) h = rw h.0 (rw (insert_rows-again table rows h.1) refl)

  module _ (std : StdLib) (u : Chars) (source : Source) (cities : List City)
      (db_now : Instant) where
    -- What a fetch that returns leaves: no id twice, and as many rows more as it reports.
    abbrev pub IsCounted : List (Article F) → Ended F → Type 0
    IsCounted table (raised exc seen) = Unit
    IsCounted table (returned written) =
        UniqueIds written.2.articles × Grows table written.2.articles written.0.new_articles

    inserted-IsCounted :
        (result : FeedResult) (now : Instant) (ledger : Ledger F)
        (c : List (Article F) × List Text × Option Text)
        → UniqueIds ledger.articles
        → IsCounted ledger.articles (inserted std u source cities db_now result now ledger c)
    inserted-IsCounted result now ledger (rows, seen, some exc) h = tt
    inserted-IsCounted result now ledger (rows, seen, none) h =
        (insert_rows-UniqueIds ledger.articles rows h, insert_rows-Grows ledger.articles rows)

    -- An article table that holds no id twice holds none twice after a fetch that returns, whatever
    -- it brought, keeps all its rows in their order, and is longer by exactly the number of new
    -- articles that the outcome reports.
    pub parse_and_persist-ledger :
        (result : FeedResult) (now : Instant) (ledger : Ledger F)
        → UniqueIds ledger.articles
        → IsCounted ledger.articles (parse_and_persist std u source cities db_now result now ledger)
    unfolding parse_and_persist record_fetch_failure
    parse_and_persist-ledger result now ledger h = elim (Bool-cases (result.status_code == 304)) [
      | inl same ↦ rw same (h, ([], sym (append-nil ledger.articles), refl))
      | inr other ↦ elim (Bool-cases (is_truthy result.parsed.version)) [
        | inl feed ↦ rw (other, feed) (inserted-IsCounted result now ledger _ h)
        | inr junk ↦ rw (other, junk) (h, ([], sym (append-nil ledger.articles), refl))
      ]
    ]
