-- ===== src/Ingest/Persist/Again.antt =====
-- The same feed again adds nothing, whoever carries it and whenever it is read.
use mathlib.Core.Path.{subst}
use news2reel.Base.{
  ℕ, ◌+◌, ◌≡◌, refl, ap, sym, ◌∙◌, true, ◌||◌, Option, none, some, List, [], ◌∷◌, arith, Text,
  text_eq, text_eq_refl, any, All, Bool-cases, inl, inr, keep_some, ◌==◌, All-weaken,
}
use news2reel.Model.{Article, Source, City, Instant}
use news2reel.Core.Text.{Chars}
use news2reel.Ingest.Urls.{StdLib, is_truthy}
use news2reel.Ingest.Entry.{FeedEntry, Normalized, raises, normal, normalize_entry}
use news2reel.Ingest.Persist.{
  FeedResult, Ledger, has_id, insert_rows, unless_seen, add_seen, collect_rows, collect_entry,
  parse_and_persist, record_fetch_failure, SourceIngestOutcome, returned, inserted,
}
use news2reel.Ingest.Persist.Ids.{
  entry_id, error_of, or_else_error, first_error, SeenStored, has_id_of-seen, has_id_of-rows,
  returned-inj, normalize_entry-id, normalize_entry-none, normalize_entry-error,
}
use news2reel.Ingest.Persist.Dedupe.{
  has_id-Grows, insert_rows-Grows, insert_rows-has_id, insert_rows-again,
}

-- An entry's article was met before, or is among the rows.
abbrev Covered : (F : Type 0) → StdLib → Chars → List (Article F) → List Text → FeedEntry → Type 0
Covered F std u rows seen entry =
    (id : Text)
    → entry_id std u entry ≡ some id
    → (any (λ s. text_eq s id) seen || has_id id rows) ≡ true

-- The table holds the id of the entry.
abbrev Stored : (F : Type 0) → StdLib → Chars → List (Article F) → FeedEntry → Type 0
Stored F std u table entry = (id : Text) → entry_id std u entry ≡ some id → has_id id table ≡ true

module _ (F : Type 0) (std : StdLib) (u : Chars) where
  Covered-head :
      (normal : Option (Article F)) (rows : List (Article F)) (seen : List Text) (entry : FeedEntry)
      → (normal ≡ none → entry_id std u entry ≡ none)
      → ((a : Article F) → normal ≡ some a → entry_id std u entry ≡ some a.id)
      → Covered F std u (keep_some (unless_seen seen normal) rows) seen entry
  unfolding has_id any
  Covered-head none rows seen entry unnamed named id e = cc (unnamed refl)
  Covered-head (some a) rows seen entry unnamed named id e =
      let same : a.id ≡ id = ground (arith, named a refl) in
      elim (Bool-cases (any (λ s. text_eq s a.id) seen)) [
        | inl met ↦ rw (met, ← same) (rw met refl)
        | inr new ↦ rw (new, ← same) (ground (arith, text_eq_refl a.id))
      ]

  Covered-rest :
      (fresh : Option (Article F)) (rows : List (Article F)) (seen : List Text)
      (entries : List FeedEntry)
      → All (Covered F std u rows (add_seen fresh seen)) entries
      → All (Covered F std u (keep_some fresh rows) seen) entries
  unfolding has_id any
  Covered-rest none rows seen entries h = h
  Covered-rest (some a) rows seen entries h =
      All-weaken _ _ (λ entry covered id e. ground (arith, covered id e)) entries h

  Stored-keep :
      (normal : Option (Article F)) (table rows : List (Article F)) (seen : List Text)
      (entry : FeedEntry)
      → ((a : Article F) → normal ≡ some a → entry_id std u entry ≡ some a.id)
      → Stored F std u table entry
      → All (λ r. has_id r.id table ≡ true) rows
      → All (λ r. has_id r.id table ≡ true) (keep_some (unless_seen seen normal) rows)
  Stored-keep none table rows seen entry named stored h = h
  Stored-keep (some a) table rows seen entry named stored h =
      elim (Bool-cases (any (λ s. text_eq s a.id) seen)) [
        | inl met ↦ rw met h
        | inr new ↦ rw new (stored a.id (named a refl), h)
      ]

  abbrev Rest : Type 0
  Rest = List Text → List (Article F) × List Text × Option Text

  collect_entry-Covered :
      (n : Normalized F) (rest : Rest) (seen : List Text) (entry : FeedEntry)
      (entries : List FeedEntry)
      → (n ≡ normal none → entry_id std u entry ≡ none)
      → ((a : Article F) → n ≡ normal (some a) → entry_id std u entry ≡ some a.id)
      → ((s : List Text) → (rest s).2 ≡ none → All (Covered F std u (rest s).0 s) entries)
      → (collect_entry seen n rest).2 ≡ none
      → All (Covered F std u (collect_entry seen n rest).0 seen) (entry ∷ entries)
  collect_entry-Covered (raises exc) rest seen entry entries unnamed named behind h =
      absurd (ground arith)
  collect_entry-Covered (normal article) rest seen entry entries unnamed named behind h =
      let fresh = unless_seen seen article in
      (
        Covered-head article _ seen entry (λ e. unnamed (ap normal e))
            (λ a e. named a (ap normal e)),
        Covered-rest fresh _ seen entries (behind (add_seen fresh seen) h),
      )

  collect_entry-Stored :
      (n : Normalized F) (rest : Rest) (table : List (Article F)) (seen : List Text)
      (entry : FeedEntry)
      → ((a : Article F) → n ≡ normal (some a) → entry_id std u entry ≡ some a.id)
      → Stored F std u table entry
      → ((s : List Text) → All (λ r. has_id r.id table ≡ true) (rest s).0)
      → All (λ r. has_id r.id table ≡ true) (collect_entry seen n rest).0
  collect_entry-Stored (raises exc) rest table seen entry named stored behind = tt
  collect_entry-Stored (normal article) rest table seen entry named stored behind =
      Stored-keep article table _ seen entry (λ a e. named a (ap normal e)) stored
        (behind (add_seen (unless_seen seen article) seen))

  collect_entry-error :
      (n : Normalized F) (rest : Rest) (seen : List Text) (error : Option Text)
      → ((s : List Text) → (rest s).2 ≡ error)
      → (collect_entry seen n rest).2 ≡ or_else_error (error_of n) error
  collect_entry-error (raises exc) rest seen error behind = refl
  collect_entry-error (normal article) rest seen error behind = behind _

  module _ (source : Source) (cities : List City) (db_now : Instant) where
    collect_rows-Covered :
        (position : ℕ) (entries : List FeedEntry) (seen : List Text)
        → (collect_rows {F = F} std u source cities db_now position entries seen).2 ≡ none
        → All
            (Covered F std u (collect_rows std u source cities db_now position entries seen).0 seen)
            entries
    unfolding collect_rows
    collect_rows-Covered position [] seen h = tt
    collect_rows-Covered position (entry ∷ entries) seen h =
        collect_entry-Covered (normalize_entry std u source cities db_now entry position) _ seen
          entry entries (normalize_entry-none std u source cities db_now entry position)
          (normalize_entry-id std u source cities db_now entry position)
          (collect_rows-Covered (position + 1) entries) h

    collect_rows-Stored :
        (table : List (Article F)) (position : ℕ) (entries : List FeedEntry) (seen : List Text)
        → All (Stored F std u table) entries
        → All
            (λ r. has_id r.id table ≡ true)
            (collect_rows {F = F} std u source cities db_now position entries seen).0
    unfolding collect_rows
    collect_rows-Stored table position [] seen h = tt
    collect_rows-Stored table position (entry ∷ entries) seen h =
        collect_entry-Stored (normalize_entry std u source cities db_now entry position) _ table
          seen entry (normalize_entry-id std u source cities db_now entry position) h.0
          (λ s. collect_rows-Stored table (position + 1) entries s h.1)

    pub collect_rows-error :
        (position : ℕ) (entries : List FeedEntry) (seen : List Text)
        → (collect_rows {F = F} std u source cities db_now position entries seen).2
          ≡ first_error std entries
    unfolding collect_rows
    collect_rows-error position [] seen = refl
    collect_rows-error position (entry ∷ entries) seen =
        collect_entry-error (normalize_entry std u source cities db_now entry position) _ seen
          (first_error std entries) (collect_rows-error (position + 1) entries)
        ∙ ap (λ e. or_else_error e (first_error std entries))
            (normalize_entry-error F std u source cities db_now entry position)

    Stored-of_covered :
        (table : List (Article F)) (entries : List FeedEntry) (seen : List Text)
        → All (λ s. has_id s table ≡ true) seen
        → (collect_rows {F = F} std u source cities db_now 1 entries seen).2 ≡ none
        → (let rows = (collect_rows std u source cities db_now 1 entries seen).0 in
            All (Stored F std u (insert_rows table rows).0) entries)
    Stored-of_covered table entries seen h whole =
        let rows = (collect_rows {F = F} std u source cities db_now 1 entries seen).0 in
        let table' = (insert_rows table rows).0 in
        All-weaken (Covered F std u rows seen) (Stored F std u table')
          (λ entry covered id e. elim (Bool-cases (any (λ s. text_eq s id) seen)) [
            | inl met ↦
                has_id-Grows id table table' _ (insert_rows-Grows table rows)
                  (has_id_of-seen id table seen h met)
            | inr new ↦
                has_id_of-rows id table' rows (insert_rows-has_id table rows)
                  (ground (arith, covered id e))
          ])
          entries (collect_rows-Covered 1 entries seen whole)

    pub inserted-returned :
        (result : FeedResult) (now : Instant) (ledger : Ledger F)
        (c : List (Article F) × List Text × Option Text)
        (written : SourceIngestOutcome × Source × Ledger F)
        → inserted std u source cities db_now result now ledger c ≡ returned written
        → (c.2 ≡ none) × (written.2.articles ≡ (insert_rows ledger.articles c.0).0)
    inserted-returned result now ledger (rows, seen, none) written e =
        (refl, ap (λ w. (w.2).articles) (sym (returned-inj e)))
    inserted-returned result now ledger (rows, seen, some exc) written e = absurd (ground arith)

    inserted-again :
        (result : FeedResult) (now : Instant) (ledger : Ledger F)
        (c : List (Article F) × List Text × Option Text)
        → c.2 ≡ none
        → insert_rows ledger.articles c.0 ≡ (ledger.articles, 0)
        → (again : SourceIngestOutcome × Source × Ledger F) × (inserted std u source cities db_now
              result now ledger c
            ≡ returned again)
          × (again.0.new_articles ≡ 0)
          × (again.2.articles ≡ ledger.articles)
    inserted-again result now ledger (rows, seen, none) whole e =
        (_, refl, ap (λ p. p.1) e, ap (λ p. p.0) e)
    inserted-again result now ledger (rows, seen, some exc) whole e = absurd (ground arith)

  -- Once a response is persisted, the same response is persisted again without an exception and adds
  -- no article, whichever source it comes from, whatever cities exist by then, whenever it is
  -- read and whatever else the tick has met; provided that the ids met before were stored.
  pub parse_and_persist-again :
      (source source' : Source) (cities cities' : List City) (db_now db_now' now now' : Instant)
      (result : FeedResult) (ledger : Ledger F) (seen' : List Text)
      (written : SourceIngestOutcome × Source × Ledger F)
      → SeenStored ledger
      → parse_and_persist std u source cities db_now result now ledger ≡ returned written
      → (again : SourceIngestOutcome × Source × Ledger F) × (parse_and_persist std u source' cities'
            db_now' result now'
            (record { articles = written.2.articles; seen = seen' })
          ≡ returned again)
        × (again.0.new_articles ≡ 0)
        × (again.2.articles ≡ written.2.articles)
  unfolding parse_and_persist record_fetch_failure
  parse_and_persist-again source source' cities cities' db_now db_now' now now' result ledger seen'
        written h =
      elim (Bool-cases (result.status_code == 304)) [
        | inl same ↦ rw same (λ e. (_, refl, refl, refl))
        | inr other ↦ elim (Bool-cases (is_truthy result.parsed.version)) [
          | inl feed ↦
              rw (other, feed)
                (λ e.
                  let entries = result.parsed.entries in
                  let (whole, table) =
                    inserted-returned source cities db_now result now ledger
                      (collect_rows std u source cities db_now 1 entries ledger.seen) written e in
                  let stored =
                    Stored-of_covered source cities db_now ledger.articles entries ledger.seen h
                      whole in
                  let whole' =
                    collect_rows-error source' cities' db_now' 1 entries seen'
                    ∙ sym (collect_rows-error source cities db_now 1 entries ledger.seen)
                    ∙ whole in
                  let there = subst (λ t. All (Stored F std u t) entries) (sym table) stored in
                  inserted-again source' cities' db_now' result now'
                    (record { articles = written.2.articles; seen = seen' })
                    (collect_rows std u source' cities' db_now' 1 entries seen') whole'
                    (insert_rows-again _ _
                      (collect_rows-Stored source' cities' db_now' _ 1 entries seen' there)))
          | inr junk ↦ rw (other, junk) (λ e. (_, refl, refl, refl))
        ]
      ]
