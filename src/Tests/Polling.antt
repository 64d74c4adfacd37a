-- ===== src/Tests/Polling.antt =====
-- Backoff, ingest and the onboarding of cities on concrete rows.
use mathlib.Core.Option
use native.Mathlib.Omega.{arith}
use news2reel.Base.{
  ℕ, ◌*◌, ◌^◌, ◌≤◌, ◌≡◌, refl, true, false, none, some, [], ◌∷◌, Text, codes, text_eq, any, filter,
}
use news2reel.Core.Text.{rstrip}
use news2reel.Schedule.{base_interval}
use news2reel.Ingest.Urls.{canonicalize_url, canonical_of, rebuild, extract_city}
use news2reel.Ingest.Entry.{FeedEntry, normalize_entry}
use news2reel.Model.{Source}
use news2reel.Ingest.Persist.{
  Headers, FeedResult, Ledger, parse_and_persist, has_id, SourceIngestOutcome, Ended, returned,
  raised, success, collect_rows,
}
use news2reel.Ingest.Persist.Again.{parse_and_persist-again}
use news2reel.Ingest.Persist.Refinement.{
  Refines, response_error, response_articles, parse_and_persist-publish,
}
use news2reel.Tests.Setting.{plain, ascii}
use news2reel.Tests.Rows.{pune, herald, flood}

record_fetch_failure-fits : base_interval herald * 2 ^ 3 ≤ 21600
unfolding base_interval
record_fetch_failure-fits = omega arith

abbrev no_headers : Headers
no_headers = record {
  etag = none;
  last_modified = none;
  cache_control = some (codes "max-age=600");
}

abbrev clean_url : Text
clean_url = codes "/city/pune/flood?b=2&a=1"

abbrev tracked_url : Text
tracked_url = codes "/city/pune/flood/?a=1&utm_source=x&b=2#top"

abbrev entry : FeedEntry
entry = record {
  link = some clean_url;
  title = some (codes "Flood");
  summary = none;
  tags = [];
  published = none;
  media_content = [];
  links = [];
}

abbrev response : FeedResult
response = record {
  status_code = 200;
  headers = no_headers;
  parsed = record {
    version = codes "rss20";
    bozo = false;
    bozo_exception = [];
    entries = entry ∷ record entry { link = some tracked_url } ∷ record entry { title = none } ∷ [];
  };
}

abbrev ledger : Ledger ℕ
ledger = record { articles = flood ∷ []; seen = codes "a" ∷ [] }

abbrev written_of :
    Ended ℕ → SourceIngestOutcome × Source × Ledger ℕ → SourceIngestOutcome × Source × Ledger ℕ
written_of (returned written) other = written
written_of (raised exc seen) other = other

abbrev untouched : SourceIngestOutcome × Source × Ledger ℕ
untouched = (success herald 0 true, herald, ledger)

abbrev once : SourceIngestOutcome × Source × Ledger ℕ
once = written_of (parse_and_persist plain ascii herald (pune ∷ []) 9 response 10 ledger) untouched

once_returned :
    parse_and_persist plain ascii herald (pune ∷ []) 9 response 10 ledger ≡ returned once
unfolding parse_and_persist collect_rows normalize_entry canonicalize_url extract_city canonical_of
    rebuild rstrip any text_eq filter
once_returned = refl

parse_and_persist-again_example :
    (again : SourceIngestOutcome × Source × Ledger ℕ) × (parse_and_persist plain ascii herald [] 20
        response 21
        (record { articles = once.2.articles; seen = [] })
      ≡ returned again)
    × (again.0.new_articles ≡ 0)
    × (again.2.articles ≡ once.2.articles)
unfolding has_id any text_eq
parse_and_persist-again_example =
    parse_and_persist-again ℕ plain ascii herald herald (pune ∷ []) [] 9 20 10 21 response ledger []
      once (refl, tt) once_returned

parse_and_persist-publish_example :
    Refines plain ascii herald
      (pune ∷ [])
      9
      (response_articles plain ascii herald (pune ∷ []) 9 response)
      (response_error plain response)
      ledger
      (parse_and_persist plain ascii herald (pune ∷ []) 9 response 10 ledger)
unfolding has_id any text_eq
parse_and_persist-publish_example =
    parse_and_persist-publish plain ascii herald (pune ∷ []) 9 response 10 ledger (refl, tt)

-- A link that `urlsplit` refuses keeps the whole feed out, and its exception leaves.
abbrev broken_response : FeedResult
broken_response = record response {
  parsed = record {
    version = codes "rss20";
    bozo = false;
    bozo_exception = [];
    entries = entry ∷ record entry { link = some (codes "[bad") } ∷ [];
  };
}

broken_feed : response_error plain broken_response ≡ some (codes "Invalid IPv6 URL")
unfolding canonicalize_url
broken_feed = refl
