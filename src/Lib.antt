-- ===== src/Lib.antt =====
-- Feedcast, the service that polls news feeds, ranks the stories of a city for an editor and turns
-- the picked ones into carousels.
--
-- A tick of the scheduler loads the sources that are due (`app/services/scheduler.py`, Schedule),
-- fetches them, and persists each response (`app/services/ingest.py`, Ingest) into the article
-- table, whose primary key is the hash of the canonical URL and the title (`run_tick`, Tick, with
-- `fetch_url_async` of `app/core/net.py`, Net). A pass of the classifier
-- (`app/services/classify.py`, Classify) sends the unjudged headlines of the window to a model
-- (`app/services/llm.py`, Llm) and stores the verdicts in the columns that the score reads
-- (`app/services/rank.py`, Rank). The feed endpoint (`app/api/v1/endpoints/stories.py`, Feed)
-- loads the window, drops what the admission tests hide, projects each article onto a card
-- (`app/services/stories.py`, Stories), sorts, cuts a page, and puts on each card whether a deck
-- holds it (`article_states` of `app/services/carousel.py`, States). Editors onboard cities with
-- their feeds, and archive them (`app/services/cities.py`, `app/services/sources.py`, Cities and
-- Sources); they pick stories into decks, and edit, download and delete those
-- (`app/services/carousel.py` and `app/api/v1/endpoints/carousels.py`, Deck). They log in with a
-- pair of cookies (`app/core/security.py`, `app/api/deps.py`, `app/api/v1/endpoints/auth.py`,
-- Accounts).
--
--   Base       tests on numbers, lists, texts, and a stable sort with its laws
--   Core       `app/core`: Enums, Config, Text (Safe and Clip are about it), and Floats
--   Model      the tables of `app/db/models` as records
--   Store      the database: tables as lists, primary key lookups, the join of the feed's query
--   Rank       the score and the sort keys; Order, Levels, Bounds
--   Stories    `derive_is_local` and `project_story`
--   States     `article_states`
--   Feed       `_hidden` and `list_stories`; Order
--   Schedule   the interval, due-ness and the targets; Backoff
--   Ingest     Urls (with `app/core/hashing.py`), Entry (with `app/services/sensitivity.py`), and
--              Persist; Dedupe, Ids, Again, Bookkeeping, Refinement
--   Net        the fetch of a URL, its address policy and its caps; Policy, Rounds
--   Tick       fetches, the commits per source, a tick; Ledgers, Outcomes, Polls, Refresh (of one
--              city), Guard (of the refreshes), Loop
--   Loops      the endless loops of Tick and Classify, as lists of rounds
--   Llm        the prompt, the call with its retries, the verdicts by index; Prompt, Retries;
--              Schema (the walk over the JSON schema; Strict, Walked, Bare), and Provider
--              (`OpenAIClient`; Vetted)
--   Classify   the batch, the verdicts on the rows, a pass; Budget, WholeRows, Routing,
--              Loop
--   Accounts   tokens, login, refresh, the user of a request; Sessions, Kinds
--   Cities     the operations on cities and sources; Counts, Cap, Steps, Archive
--   Sources    the PATCH and the check of a feed; Cap, Checks
--   Deck       the slides of a carousel; RoundTrip, Adding, Calls (the endpoints), Saving, Deleting,
--              Zip (the download; Stamp), Given and Wanted (lemmas)
--   Gallery    `app/services/gallery.py`: the list of all decks; Order
--   Api        `app/api/v1/endpoints/cities.py` and `sources.py` beside it: Reads (what is printed),
--              Bodies (the bounds of the schemas), Routes; Commits, Atomic, Onboarding, Refreshes; and
--              the routes of `carousels.py`: DeckBodies, DeckRoutes; DeckAtomic, DeckFits
--   System     the running program as a step relation over its transactions; Sound (what they
--              keep), Feeds, Requests, Articles, Decks, DeckRequests (its steps), History
--   Tests      concrete rows and parameters, and each theorem applied to them
--
-- Functions keep the names of the source, without a leading underscore. A function that awaits the
-- database takes the tables and returns them; one that mutates a row returns the row; one that
-- raises returns the error as a value, and the database as it was. The clock, `datetime.now`, is an
-- argument. Instants are microseconds. Every loop is over a list, or over a number of rounds that
-- the source bounds, and is structural recursion, but for three: the `while True` of a fetch is on
-- fuel, one round more than `fetch_max_redirects`, since every other round counts a redirect and one
-- too many raises (Net.Rounds); and the `while True` around a tick and around a pass, which only a
-- cancellation ends, are over the list of the rounds that they come to (Loops).
--
-- Parameters: Python's floats and the laws that the score relies on (Core.Floats), what `str` and
-- `unicodedata` say of a character (Core.Text), and `urllib`, `hashlib`, `html` and `re`
-- (Ingest.Urls). The resolver, `urlparse` and httpx answer by the round of a fetch (Web in Net).
-- feedparser, the errors of the database, in the `try` of a source and in its handler, and what
-- other tasks commit meanwhile are a record (World in Tick), and so are `jwt`, `argon2` and their
-- documented laws (Crypto in Accounts). The order of rows that no query orders is a parameter too.
-- What an attempt at
-- the model's provider comes to, with `json` and pydantic's validation behind it, is a
-- function of the prompt and the attempt (Attempt in Llm), which Llm.Provider builds from the calls
-- of the SDK. The newsroom's date on a deck, the JSON schema that pydantic derives and the text of
-- the classifier's instructions are arguments.
--
-- Not modelled: HTTP, sessions and middleware; the start of the application and its wiring; the
-- lengths of the sleeps between ticks and passes; the concurrency of the fetches of one tick, which
-- share no state; reading the settings from the environment; migrations; the browser's code.
pub mod Base
pub mod Core
pub mod Model
pub mod Rank
pub mod Store
pub mod States
pub mod Stories
pub mod Feed
pub mod Schedule
pub mod Ingest
pub mod Cities
pub mod Deck
pub mod Net
pub mod Tick
pub mod Loops
pub mod Classify
pub mod Accounts
pub mod Api
pub mod System
pub mod Sources
pub mod Gallery
pub mod Llm
pub mod Tests
