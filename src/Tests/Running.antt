-- ===== src/Tests/Running.antt =====
-- The routes over cities and feeds, and runs of the whole program, on concrete rows.
use mathlib.Core.List.{Permᴰ}
use mathlib.Core.List.Permᴰ
use news2reel.Model.{Source}
use news2reel.Base.{
  List, insert, ℕ, ◌≡◌, refl, true, false, none, some, [], ◌∷◌, map, filter, filter_map, sorted,
  any, find?, all, Text, codes, text_eq, text_lt, arith,
}
use news2reel.Core.Text.{
  rstrip, lstrip, clip, sanitize, truncate, strip_markup, strip_text, collapse, sub_tags,
}
use news2reel.Store.{Db, get_city_row, get_source_row, get_carousel_row, story_rows, story_row}
use news2reel.Accounts.{Caller, known}
use news2reel.Cities.{CityCreate, strip, normalize_slug, slug_taken}
use news2reel.Tick.{error, persist_attempt, commit}
use news2reel.Api.{sent}
use news2reel.Api.Reads.{CityRead}
use news2reel.Api.Bodies.{city_create_ok, source_create_ok}
use news2reel.Api.Routes.{App, post_city, get_one_city, post_archive_city, city, accepts, respond}
use news2reel.Stories.{StoryRead}
use news2reel.Stories.{project_story, story_of}
use news2reel.Deck.Calls.{titled_deck, bracket_slides}
use news2reel.Deck.{
  story_slide, as_write, Reply, done, refuse, resolve_stories, first_seen, sole_city,
}
use news2reel.Deck.Calls.{create_carousel, delete_carousel, get_carousel, resolve}
use news2reel.Api.DeckRoutes.{delete_one_carousel, deck_route, deck_accepts, deck_respond}
use news2reel.Api.DeckAtomic.{deck_respond-atomic}
use news2reel.Api.DeckFits.{Savable, Fine, create_carousel-Savable}
use news2reel.Api.Atomic.{is_error}
use news2reel.Api.Onboarding.{posted, post_city_lem}
use news2reel.System.{Steps, here, next, asked, persisted}
use news2reel.System.Sound.{IsSound, Keeps}
use news2reel.System.History.{Steps-Follows}
use news2reel.Tests.Setting.{hundredths_ops, plain, ascii, defaults}
use news2reel.Tests.Rows.{newsroom, herald}
use news2reel.Tests.Network.{web, feed, world, attempt_at}
use news2reel.Tests.Onboarding.{observer, newsroom-IsValid}

-- an order of the rows that is not that of their ids
abbrev second_first : List Source → List Source
second_first (a ∷ b ∷ sources) = b ∷ a ∷ sources
second_first (a ∷ []) = a ∷ []
second_first [] = []

second_first-perm : (sources : List Source) → Permᴰ (second_first sources) sources
second_first-perm (a ∷ b ∷ sources) = Permᴰ.swap refl refl
second_first-perm (a ∷ []) = Permᴰ.refl (a ∷ [])
second_first-perm [] = Permᴰ.refl []

abbrev app : App ℕ
app = record {
  settings = defaults;
  std = plain;
  chars = ascii;
  repr = λ text. text;
  decimal = λ n. codes "2";
  web = web;
  parse = λ content. feed;
  collates = text_lt;
  arranged = second_first;
  date_label = λ stories. codes "today";
  b64decode = λ text. some [];
  two_digits = λ n. codes "01";
}

abbrev editor : Caller
editor = known (record { id = 1; email = codes "e@d"; password_hash = [] })

abbrev nashik : CityCreate
nashik = record {
  name = codes " Nashik ";
  state = none;
  sources = observer ∷ record observer { enabled = true; is_local_outlet = true } ∷ [];
}

nashik_valid : accepts (post_city nashik) ≡ true
unfolding accepts city_create_ok source_create_ok all
nashik_valid = refl

nashik_free : slug_taken newsroom (normalize_slug plain ascii (codes " Nashik ")) ≡ false
unfolding slug_taken normalize_slug strip rstrip lstrip any text_eq
nashik_free = refl

post_city_lem_example :
    (read : CityRead) × (db' : Db ℕ) × (respond app editor 60 (post_city nashik) newsroom
      ≡ (sent 201 (city read), db'))
    × (respond app editor 70 (get_one_city read.id) db' ≡ (sent 200 (city read), db'))
    × (read.name ≡ strip ascii (codes " Nashik "))
    × (read.slug ≡ normalize_slug plain ascii (codes " Nashik "))
    × Permᴰ (map posted read.sources) nashik.sources
    × (read.source_count ≡ 2)
post_city_lem_example =
    post_city_lem app newsroom nashik (record { id = 1; email = codes "e@d"; password_hash = [] })
      60 70 newsroom-IsValid second_first-perm nashik_valid (omega arith) nashik_free

newsroom-IsSound : IsSound newsroom
unfolding get_city_row get_source_row find? text_eq source_create_ok
newsroom-IsSound = record {
  unique = ((refl, (refl, tt)), ((refl, tt), (tt, tt)));
  articles = (refl, (refl, (refl, tt)));
  sources = (
    record { city = refl; body = refl },
    (record { city = refl; body = refl }, (record { city = refl; body = refl }, tt)),
  );
  carousels = (refl, tt);
}

herald_there : get_source_row newsroom 1 ≡ some herald
unfolding get_source_row find?
herald_there = refl

-- A poll of the first feed fails, and an editor archives the city.
abbrev failed_poll : Db ℕ
failed_poll = commit world defaults plain ascii newsroom (
    persist_attempt world defaults plain ascii newsroom [] (attempt_at 1 (error (codes "timeout")))
      herald)

abbrev archived : Db ℕ
archived = (respond app editor 60 (post_archive_city 1) failed_poll).1

history : Steps hundredths_ops app newsroom archived
history =
    next
      (next here (persisted world [] (attempt_at 1 (error (codes "timeout"))) herald herald_there))
      (asked editor 60 (post_archive_city 1))

Steps-Follows_example : Keeps newsroom archived × IsSound archived
Steps-Follows_example = Steps-Follows hundredths_ops app newsroom newsroom-IsSound history

no_such_deck :
    is_error (deck_respond hundredths_ops app editor 60 (delete_one_carousel 9) newsroom).0 ≡ true
unfolding deck_respond deck_accepts deck_route delete_carousel get_carousel get_carousel_row find?
no_such_deck = refl

deck_respond-atomic_example :
    (deck_respond hundredths_ops app editor 60 (delete_one_carousel 9) newsroom).1 ≡ newsroom
deck_respond-atomic_example =
    deck_respond-atomic hundredths_ops app newsroom editor 60 (delete_one_carousel 9) no_such_deck

abbrev today : List (StoryRead ℕ) → Text
today stories = codes "today"

-- the tables behind a call, or those in front of it
abbrev behind : Reply (Db ℕ) → Db ℕ
behind (done db) = db
behind (refuse e) = newsroom

abbrev with_deck : Db ℕ
with_deck =
    behind (create_carousel hundredths_ops ascii defaults today newsroom (codes "a" ∷ []) none 60)

deck_created :
    create_carousel hundredths_ops ascii defaults today newsroom (codes "a" ∷ []) none 60
    ≡ done with_deck
unfolding create_carousel resolve resolve_stories first_seen filter any text_eq story_rows story_row
    filter_map get_source_row get_city_row find? sole_city sorted insert as_write all titled_deck
    bracket_slides story_slide project_story story_of clip sanitize truncate strip_markup strip_text
    rstrip lstrip collapse sub_tags
deck_created = refl

create_carousel-Savable_example :
    Fine
      (Savable hundredths_ops ascii defaults newsroom)
      (create_carousel hundredths_ops ascii defaults today newsroom (codes "a" ∷ []) none 60)
unfolding text_eq
create_carousel-Savable_example =
    create_carousel-Savable hundredths_ops ascii defaults newsroom today (λ stories. omega arith)
      (omega arith) ((refl, (refl, tt)), ((refl, tt), (tt, tt))) (refl, (refl, (refl, tt)))
      (omega arith, tt) (codes "a" ∷ []) none 60
