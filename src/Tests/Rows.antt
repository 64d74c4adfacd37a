-- ===== src/Tests/Rows.antt =====
-- Sample rows: one city with two feeds, and articles under them.
use news2reel.Base.{ℕ, true, false, none, some, [], ◌∷◌, codes}
use news2reel.Model.{City, Source, Article, Carousel, story, intro}
use news2reel.Store.{Db, StoryRow}

abbrev pub pune : City
pune = record { id = 1; name = codes "Pune"; slug = codes "pune"; state = none; archived_at = none }

abbrev pub herald : Source
herald = record {
  id = 1;
  name = codes "Herald";
  feed_url = codes "https://h/feed";
  language = codes "en";
  enabled = true;
  publisher_group = codes "herald";
  city_id = 1;
  is_local_outlet = true;
  fetch_interval_minutes = 1;
  etag = some (codes "v1");
  last_modified = none;
  cache_max_age_seconds = none;
  last_fetched_at = some 5000000;
  consecutive_failures = 2;
  last_success_at = none;
  last_error = none;
  last_error_at = none;
  archived_at = none;
}

abbrev pub gazette : Source
gazette = record herald {
  id = 2;
  is_local_outlet = false;
  last_fetched_at = none;
  archived_at = some 7;
}

abbrev pub flood : Article ℕ
flood = record {
  id = codes "a";
  source_id = 1;
  url = codes "/city/pune/flood";
  canonical_url = codes "/city/pune/flood";
  title = codes "Flood";
  summary = some (codes "Water rose.");
  published_at = some 9000000;
  fetched_at = 9500000;
  language = codes "en";
  feed_position = some 1;
  images = [];
  content_hash = codes "a";
  city = some (codes "pune");
  city_id = some 1;
  category = none;
  is_city_relevant = none;
  relevance_confidence = none;
  content_type = some (codes "news");
  emotional_salience = some (codes "high");
  audience_breadth = some (codes "high");
  impact = some (codes "very_high");
  novelty = some (codes "low");
  human_interest = some (codes "low");
  timeliness = some (codes "very_high");
  visual_potential = some (codes "very_low");
  category_attempts = 0;
  sensitivity_flags = [];
  raw = record {
    title = codes "Flood";
    link = codes "/city/pune/flood";
    summary = none;
    category_raw = none;
  };
}

-- not yet rated, and older
abbrev pub parade : Article ℕ
parade = record flood {
  id = codes "b";
  title = codes "Parade";
  published_at = some 8000000;
  impact = none;
}

-- judged to be about another city, with high confidence
abbrev pub elsewhere : Article ℕ
elsewhere = record flood {
  id = codes "c";
  is_city_relevant = some false;
  relevance_confidence = some 90;
}

abbrev pub row_of : Article ℕ → StoryRow ℕ
row_of article = record { article = article; source = herald; city = pune }

abbrev pub deck : Carousel
deck = record {
  id = 1;
  city_id = 1;
  created_at = 1;
  last_edited_at = none;
  last_downloaded_at = some 3;
  slides =
      record {
        position = 0;
        kind = intro;
        article_id = none;
        text = codes "Hello";
        clipped = false;
      }
      ∷ record {
        position = 1;
        kind = story;
        article_id = some (codes "a");
        text = codes "Flood";
        clipped = false;
      }
      ∷ [];
}

abbrev pub newsroom : Db ℕ
newsroom = record {
  cities = pune ∷ [];
  sources = herald ∷ gazette ∷ record gazette { id = 3 } ∷ [];
  articles = flood ∷ parade ∷ elsewhere ∷ [];
  carousels = deck ∷ [];
  selections =
      record {
        article_id = codes "a";
        engagement = some 680;
        score = 680;
        score_version = some 3;
        sort = none;
        carousel_id = some 1;
      }
      ∷ [];
  users = [];
  next_city = 2;
  next_source = 4;
  next_carousel = 2;
}
