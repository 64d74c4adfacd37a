-- ===== src/Ingest/Persist.antt =====
-- The bookkeeping of a fetch on its source row, and `parse_and_persist`: the two ways in which a
-- fetched response ends, and the insert that the primary key dedupes.
pub mod Dedupe
pub mod Ids
pub mod Again
pub mod Bookkeeping
pub mod Refinement
use news2reel.Base.{
  ℕ, zero, suc, ◌+◌, Bool, true, false, not, ◌||◌, Option, none, some, List, [], ◌∷◌, ◌++◌,
  if◌then◌else◌, ◌==◌, Text, codes, text_eq, any, keep_some,
}
use news2reel.Core.Text.{Chars}
use news2reel.Model.{Instant, City, Source, Article}
use news2reel.Ingest.Urls.{StdLib, is_truthy}
use news2reel.Ingest.Entry.{FeedEntry, Normalized, raises, normal, normalize_entry}

-- `httpx.Headers.get` of the three headers that are read
pub record Headers : Type 0 where
  pub etag : Option Text
  pub last_modified : Option Text
  pub cache_control : Option Text

-- What `feedparser.parse` returns; `version` is empty where the attribute is absent.
pub record Parsed : Type 0 where
  pub version : Text
  pub bozo : Bool
  pub bozo_exception : Text
  pub entries : List FeedEntry

pub record FeedResult : Type 0 where
  pub status_code : ℕ
  pub headers : Headers
  -- the parsed body
  pub parsed : Parsed

pub record SourceIngestOutcome : Type 0 where
  pub source_id : ℕ
  pub ok : Bool
  pub new_articles : ℕ
  pub error : Option Text
  pub not_modified : Bool

-- `header or stored`
abbrev pub or_stored : Option Text → Option Text → Option Text
or_stored (some (c ∷ s)) stored = some (c ∷ s)
or_stored header stored = stored

abbrev pub no_store_re : Text
no_store_re = codes "\\bno-(store|cache)\\b"

-- `parse_max_age`, for the value of `cache-control`
unfoldable pub parse_max_age : StdLib → Option Text → Option ℕ
parse_max_age std none = none
parse_max_age std (some []) = none
parse_max_age std (some (c ∷ s)) =
    if std.search no_store_re (c ∷ s) then none else std.find_max_age (c ∷ s)

unfoldable pub record_fetch_failure : Source → Text → Instant → SourceIngestOutcome × Source
record_fetch_failure source error now = (
  record {
    source_id = source.id;
    ok = false;
    new_articles = 0;
    error = some error;
    not_modified = false;
  },
  record source {
    last_error = some error;
    last_error_at = some now;
    last_fetched_at = some now;
    consecutive_failures = source.consecutive_failures + 1;
  },
)

unfoldable pub record_fetch_success : StdLib → Source → Headers → Instant → Source
record_fetch_success std source headers now = record source {
  etag = or_stored headers.etag source.etag;
  last_modified = or_stored headers.last_modified source.last_modified;
  cache_max_age_seconds = parse_max_age std headers.cache_control;
  last_success_at = some now;
  last_fetched_at = some now;
  consecutive_failures = 0;
  last_error = none;
  last_error_at = none;
}

abbrev pub parse_reason : Parsed → Text
parse_reason parsed = if parsed.bozo then parsed.bozo_exception else codes "unrecognized format"

abbrev pub success : Source → ℕ → Bool → SourceIngestOutcome
success source new_articles not_modified = record {
  source_id = source.id;
  ok = true;
  new_articles = new_articles;
  error = none;
  not_modified = not_modified;
}

-- What a tick carries from one source to the next: the article table, and the ids met so far.
pub record Ledger (F : Type 0) : Type 0 where
  pub articles : List (Article F)
  pub seen : List Text

-- How `parse_and_persist` ends: it returns, with the row of the source and the ledger that it leaves;
-- or an exception leaves it, by its text, and the ids that it met until then stay in `seen_ids`.
pub data Ended (F : Type 0) : Type 0 where
  returned : SourceIngestOutcome × Source × Ledger F → Ended F
  raised : Text → List Text → Ended F

module _ {F : Type 0} where
  unfoldable pub has_id : Text → List (Article F) → Bool
  has_id id articles = any (λ a. text_eq a.id id) articles

  -- `insert(Article).values(rows).on_conflict_do_nothing(…).returning(Article.id)`: the table
  -- afterwards, and how many rows came back.
  unfoldable pub insert_rows : List (Article F) → List (Article F) → List (Article F) × ℕ
  insert_rows table [] = (table, 0)
  insert_rows table (row ∷ rows) =
      let conflict = has_id row.id table in
      let (table', n) = insert_rows (if conflict then table else table ++ row ∷ []) rows in
      (table', (if conflict then 0 else 1) + n)

  -- `article is None or article.id in seen_ids`
  abbrev pub unless_seen : List Text → Option (Article F) → Option (Article F)
  unless_seen seen none = none
  unless_seen seen (some a) = if any (λ id. text_eq id a.id) seen then none else some a

  abbrev pub add_seen : Option (Article F) → List Text → List Text
  add_seen none seen = seen
  add_seen (some a) seen = a.id ∷ seen

  -- One round of the loop over the entries, and what the rest of it does behind it.
  abbrev pub collect_entry :
      List Text
      → Normalized F
      → (List Text → List (Article F) × List Text × Option Text)
      → List (Article F) × List Text × Option Text
  collect_entry seen (raises exc) rest = ([], seen, some exc)
  collect_entry seen (normal article) rest =
      let fresh = unless_seen seen article in
      let (rows, seen', broken) = rest (add_seen fresh seen) in
      (keep_some fresh rows, seen', broken)

  module _ (std : StdLib) (u : Chars) (source : Source) (cities : List City)
      (db_now : Instant) where
    -- The loop over the entries: the rows to insert, `seen_ids` afterwards, and the exception, if
    -- any, that ended it.
    unfoldable pub collect_rows :
        ℕ → List FeedEntry → List Text → List (Article F) × List Text × Option Text
    collect_rows position [] seen = ([], seen, none)
    collect_rows position (entry ∷ entries) seen =
        collect_entry seen (normalize_entry std u source cities db_now entry position)
          (collect_rows (position + 1) entries)

    abbrev pub inserted :
        FeedResult → Instant → Ledger F → List (Article F) × List Text × Option Text → Ended F
    inserted result now ledger (rows, seen, some exc) = raised exc seen
    inserted result now ledger (rows, seen, none) =
        let (articles, new_count) = insert_rows ledger.articles rows in
        returned (
          success source new_count false,
          record_fetch_success std source result.headers now,
          record { articles = articles; seen = seen },
        )

    unfoldable pub parse_and_persist : FeedResult → Instant → Ledger F → Ended F
    parse_and_persist result now ledger =
        if result.status_code == 304
        then returned
            (success source 0 true, record_fetch_success std source result.headers now, ledger)
        else if not (is_truthy result.parsed.version)
        then (let (outcome, source') =
              record_fetch_failure source
                (codes "response did not parse as a feed: " ++ parse_reason result.parsed) now in
            returned (outcome, source', ledger))
        else inserted result now ledger (collect_rows 1 result.parsed.entries ledger.seen)
