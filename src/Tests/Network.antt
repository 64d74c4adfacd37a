-- ===== src/Tests/Network.antt =====
-- Fetches, ticks and forced refreshes on a small network: one address, and a site that redirects
-- once.
use news2reel.Base.{
  ℕ, ◌≤◌, ◌≡◌, refl, true, false, none, some, List, [], ◌∷◌, ◌==◌, if◌then◌else◌, Text, codes,
  text_eq, length, All, find?, max, ◌+◌, ◌<◌,
}
use news2reel.Model.{seconds, Source}
use news2reel.Store.{get_source_row}
use news2reel.Schedule.{
  FetchTarget, is_due, is_polled, base_interval, effective_interval_seconds, backed_off_interval,
}
use news2reel.Ingest.Persist.{Headers, Parsed}
use news2reel.Ingest.Persist.Dedupe.{UniqueIds, Grows}
use news2reel.Net.{
  Address, Web, Answer, answers, stays, leads, chunk, finished, fetch_loop, fetch_url_async,
}
use news2reel.Net.Rounds.{WithinCap, fetch_url_async-Ends}
use news2reel.Net.Policy.{IsVetted, fetch_url_async-IsVetted}
use news2reel.Tick.{World, FetchAttempt, Fetched, result, error, persist_attempts, run_tick}
use news2reel.Tick.Ledgers.{total_new, persist_attempts-ledger}
use news2reel.Tick.Rounds.{run_tick-returns}
use news2reel.Tick.Polls.{run_tick-is_due}
use news2reel.Schedule.{FetchTarget}
use news2reel.Accounts.{Caller, known}
use news2reel.Sources.{check_source, not_found}
use news2reel.Sources.Checks.{Told, check_source-Told}
use news2reel.Tests.Setting.{plain, ascii, defaults}
use news2reel.Tests.Rows.{newsroom, herald}

abbrev public_address : Address
public_address = record {
  text = codes "93.184.216.34";
  is_private = false;
  is_loopback = false;
  is_link_local = false;
  is_reserved = false;
  is_multicast = false;
  is_unspecified = false;
}

abbrev headers : Headers
headers = record { etag = none; last_modified = none; cache_control = none }

-- The first round leads on, and the next one answers with three bytes.
abbrev site : ℕ → Text → Answer
site round url = answers (record {
  status_code = 200;
  headers = headers;
  url = url;
  redirect = if round == 0 then leads (codes "feeds.example") else stays;
  body = chunk (1 ∷ 2 ∷ []) (chunk (3 ∷ []) finished);
})

abbrev pub web : Web
web = record {
  urlparse = λ url. some (record { scheme = codes "https"; hostname = url });
  bad_url = λ url. url;
  getaddrinfo = λ round hostname. some (public_address ∷ []);
  stream = site;
  repr = λ t. t;
  decimal = λ n. [];
}

fetch_url_async-Ends_example :
    (fetch_loop web defaults 4 0 (codes "h.example")
      ≡ some (fetch_url_async web defaults (codes "h.example")))
    × (length (fetch_url_async web defaults (codes "h.example")).requested ≤ 4)
    × WithinCap web defaults (fetch_url_async web defaults (codes "h.example")).outcome
fetch_url_async-Ends_example = fetch_url_async-Ends web defaults (codes "h.example")

fetch_url_async-IsVetted_example :
    All (IsVetted web) (fetch_url_async web defaults (codes "h.example")).requested
fetch_url_async-IsVetted_example = fetch_url_async-IsVetted web defaults (codes "h.example")

abbrev pub feed : Parsed
feed = record {
  version = codes "rss20";
  bozo = false;
  bozo_exception = [];
  entries =
      record {
        link = some (codes "/city/pune/bridge");
        title = some (codes "Bridge");
        summary = none;
        tags = [];
        published = none;
        media_content = [];
        links = [];
      }
      ∷ [];
}

abbrev pub world : World ℕ
world = record {
  web = λ target. web;
  clock = λ target. 100;
  parse = λ content. feed;
  db_now = λ attempt. 101;
  read_error = λ attempt. none;
  handler_error = λ attempt. none;
  db_error = λ attempt. if attempt.source_id == 2 then some (codes "deadlock") else none;
  meanwhile = λ db. db;
}

abbrev pub attempt_at : ℕ → Fetched → FetchAttempt
attempt_at id fetched = record { source_id = id; attempted_at = 100; fetched = fetched }

-- a feed that answered, one whose commit is refused, one that timed out, and one that is gone
abbrev attempts : List FetchAttempt
attempts =
    let answered : Fetched = result (record {
      status_code = 200;
      headers = headers;
      content = [];
      final_url = codes "h.example";
    }) in
    attempt_at 1 answered
    ∷ attempt_at 2 answered
    ∷ attempt_at 3 (error (codes "timeout"))
    ∷ attempt_at 9 answered
    ∷ []

persist_attempts-ledger_example :
    UniqueIds (persist_attempts world defaults plain ascii attempts newsroom).1.articles
    × Grows newsroom.articles
        (persist_attempts world defaults plain ascii attempts newsroom).1.articles
        (total_new (persist_attempts world defaults plain ascii attempts newsroom).0)
unfolding text_eq
persist_attempts-ledger_example =
    persist_attempts-ledger world defaults plain ascii attempts newsroom
      ((refl, (refl, tt)), ((refl, tt), (tt, tt)))

herald_due : is_due herald 300000000 defaults ≡ true
unfolding is_due effective_interval_seconds base_interval backed_off_interval
herald_due = refl

herald_stored : get_source_row newsroom 1 ≡ some herald
unfolding get_source_row find?
herald_stored = refl

tick_returns : (run_tick world defaults plain ascii 300000000 newsroom).2 ≡ none
tick_returns = run_tick-returns world defaults plain ascii (λ attempt. refl) 300000000 newsroom

run_tick-is_due_example :
    (t : FetchTarget) × (t.source_id ≡ 1)
    × (row : Source) × (get_source_row (run_tick world defaults plain ascii 300000000 newsroom).1 1
        ≡ some row)
    × (is_polled row ≡ true)
    × (500 < 100 + seconds (base_interval row) → is_due row 500 defaults ≡ false)
    × (100 + seconds (max (base_interval row) 21600) ≤ 500 → is_due row 500 defaults ≡ true)
run_tick-is_due_example =
    run_tick-is_due world defaults plain ascii 300000000 500 newsroom herald herald herald_stored
      refl herald_due herald_stored tick_returns

abbrev editor : Caller
editor = known (record { id = 1; email = codes "e@d"; password_hash = [] })

-- the check of a feed that answers, and parses
check_source-Told_example :
    Told web defaults newsroom 1 500 (check_source web (λ content. feed) defaults newsroom 1 500)
    × (get_source_row newsroom 1 ≡ none
        → check_source web (λ content. feed) defaults newsroom 1 500 ≡ not_found)
check_source-Told_example = check_source-Told web defaults newsroom 1 500 (λ content. feed)
