-- ===== src/Sources.antt =====
-- `update_source` and `check_source` of `app/services/sources.py`: the PATCH of a feed, and the
-- check of a feed by hand. The network and feedparser are parameters.
pub mod Checks
pub mod Cap
use news2reel.Base.{
  ℕ, Bool, true, false, not, ◌&&◌, ◌||◌, Option, none, some, List, [], ◌∷◌, ◌++◌, map,
  if◌then◌else◌, ◌==◌, Text, codes, length,
}
use news2reel.Core.Config.{Settings}
use news2reel.Model.{Instant, Source}
use news2reel.Store.{Db, get_source_row}
use news2reel.Ingest.Entry.{FeedEntry}
use news2reel.Ingest.Persist.{Parsed}
use news2reel.Cities.{
  Field, unset, sent, Result, ok, raise_if, integrity_error, get_source, ◌>>=◌, ◌>>◌,
}
use news2reel.Net.{
  Web, FetchResult, FetchError, unsafe_url, too_large, transport, unexpected, Outcome, fetched,
  failed, fetch_url_async,
}

pub record SourceUpdate : Type 0 where
  pub name : Field (Option Text)
  pub feed_url : Field (Option Text)
  pub language : Field (Option Text)
  pub publisher_group : Field (Option Text)
  pub is_local_outlet : Field (Option Bool)
  pub enabled : Field (Option Bool)
  pub fetch_interval_minutes : Field (Option ℕ)

-- A null that was sent; the columns are all NOT NULL.
abbrev pub is_null : {A : Type 0} → Field (Option A) → Bool
is_null unset = false
is_null (sent none) = true
is_null (sent (some a)) = false

abbrev pub patched : {A : Type 0} → Field (Option A) → A → A
patched unset old = old
patched (sent none) old = old
patched (sent (some a)) old = a

unfoldable pub has_null : SourceUpdate → Bool
has_null data' =
    is_null data'.name
    || is_null data'.feed_url
    || is_null data'.language
    || is_null data'.publisher_group
    || is_null data'.is_local_outlet
    || is_null data'.enabled
    || is_null data'.fetch_interval_minutes

-- `setattr(source, field, value)` for the fields that were sent
unfoldable pub patch_source : SourceUpdate → Source → Source
patch_source data' source = record source {
  name = patched data'.name source.name;
  feed_url = patched data'.feed_url source.feed_url;
  language = patched data'.language source.language;
  publisher_group = patched data'.publisher_group source.publisher_group;
  is_local_outlet = patched data'.is_local_outlet source.is_local_outlet;
  enabled = patched data'.enabled source.enabled;
  fetch_interval_minutes = patched data'.fetch_interval_minutes source.fetch_interval_minutes;
}

-- The row with this primary key, changed.
abbrev pub edit_source : ℕ → (Source → Source) → List Source → List Source
edit_source source_id f sources = map (λ s. if s.id == source_id then f s else s) sources

pub record SourceCheckResult : Type 0 where
  pub ok : Bool
  pub status_code : Option ℕ
  pub entry_count : Option ℕ
  pub error : Option Text

-- How a check ends: a reply and the tables, a 404, or an exception that is not translated, with
-- nothing committed.
pub data CheckReply (F : Type 0) : Type 0 where
  checked : SourceCheckResult → Db F → CheckReply F
  not_found : CheckReply F
  crashed : Text → CheckReply F

-- the bookkeeping of a check that failed, and of one that passed
abbrev pub check_failed : Text → Instant → Source → Source
check_failed error now source = record source { last_error = some error; last_error_at = some now }

abbrev pub check_passed : Instant → Source → Source
check_passed now source = record source {
  last_success_at = some now;
  last_error = none;
  last_error_at = none;
}

abbrev pub has_entries : List FeedEntry → Bool
has_entries [] = false
has_entries (e ∷ entries) = true

module _ {F : Type 0} where
  unfoldable pub update_source : Db F → ℕ → SourceUpdate → Result (Db F)
  update_source db source_id data' = do
    source ← get_source db source_id
    raise_if (has_null data') integrity_error
    ok (record db { sources = edit_source source_id (patch_source data') db.sources })

  module _ (db : Db F) (source_id : ℕ) (now : Instant) where
    abbrev pub refused : Option ℕ → Text → CheckReply F
    refused status_code error =
        checked
          (record { ok = false; status_code = status_code; entry_count = none; error = some error })
          (record db { sources = edit_source source_id (check_failed error now) db.sources })

    -- what feedparser made of the body
    abbrev pub parsed_reply : ℕ → Parsed → CheckReply F
    parsed_reply status_code parsed =
        if parsed.bozo && not (has_entries parsed.entries)
        then refused (some status_code)
            (codes "response did not parse as a feed: " ++ parsed.bozo_exception)
        else checked
            (record {
              ok = true;
              status_code = some status_code;
              entry_count = some (length parsed.entries);
              error = none;
            })
            (record db { sources = edit_source source_id (check_passed now) db.sources })

    abbrev pub reply_to : (List ℕ → Parsed) → Outcome → CheckReply F
    reply_to parse (fetched result) = parsed_reply result.status_code (parse result.content)
    reply_to parse (failed (unsafe_url e)) = refused none e
    reply_to parse (failed (too_large e)) = refused none e
    reply_to parse (failed (transport e)) = refused none e
    reply_to parse (failed (unexpected e)) = crashed e

  unfoldable pub check_source :
      Web → (List ℕ → Parsed) → Settings F → Db F → ℕ → Instant → CheckReply F
  check_source web parse settings db source_id now = elim (get_source_row db source_id) [
    | none ↦ not_found
    | some source ↦
        reply_to db source_id now parse (fetch_url_async web settings source.feed_url).outcome
  ]
