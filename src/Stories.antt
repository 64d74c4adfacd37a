-- ===== src/Stories.antt =====
-- `app/services/stories.py`: the projection of an article onto what the editor reads.
use news2reel.Base.{
  ℕ, Bool, false, ◌||◌, Option, none, some, List, ◌∷◌, Text, ◌==◌, or_else, or_none, if◌then◌else◌,
}
use news2reel.Core.Floats.{FloatOps}
use news2reel.Core.Config.{Settings}
use news2reel.Core.Text.{Chars, sanitize}
use news2reel.Model.{Instant, City, Source, Article, Image}
use news2reel.States.{CarouselState}
use news2reel.Rank.{Levels, RankInputs, Key, engagement_levels, article_score, story_key}

pub record StoryRead (F : Type 0) : Type 0 where
  pub id : Text
  pub title : Text
  pub summary : Option Text
  pub url : Text
  pub published_at : Instant
  pub source_name : Text
  pub publisher_group : Text
  pub city : Option Text
  pub city_id : Option ℕ
  pub category : Option Text
  pub score : F
  pub engagement : Option Levels
  pub feed_position : Option ℕ
  pub images : List Image
  pub sensitivity_flags : List Text
  pub carousel_state : Option CarouselState

-- `article.city_id is not None and article.city_id == source.city_id`
abbrev pub same_city : Option ℕ → ℕ → Bool
same_city none city_id = false
same_city (some id) city_id = id == city_id

module _ {F : Type 0} where
  unfoldable pub derive_is_local : Article F → Source → Bool
  derive_is_local article source =
      source.is_local_outlet || same_city article.city_id source.city_id

  unfoldable pub rank_inputs : Article F → RankInputs
  rank_inputs article = record {
    published_at = or_else article.published_at article.fetched_at;
    levels = engagement_levels article;
    article_id = article.id;
  }

-- `article.city or (source.city.slug if source.is_local_outlet else None)`
abbrev pub city_label : Option Text → Source → City → Option Text
city_label (some (c ∷ s)) source city = some (c ∷ s)
city_label other source city = if source.is_local_outlet then some city.slug else none

module _ {F : Type 0} (fl : FloatOps F) (u : Chars) (settings : Settings F) where
  -- The story of `project_story`; the city is the source's own.
  unfoldable pub story_of : Article F → Source → City → StoryRead F
  story_of article source city =
      let inputs = rank_inputs article in
      record {
        id = article.id;
        title = article.title;
        summary = or_none (sanitize u article.summary (some settings.story_summary_max_chars));
        url = article.url;
        published_at = inputs.published_at;
        source_name = source.name;
        publisher_group = source.publisher_group;
        city = city_label article.city source city;
        city_id = article.city_id;
        category = article.category;
        score = article_score fl settings inputs;
        engagement = inputs.levels;
        feed_position = article.feed_position;
        images = article.images;
        sensitivity_flags = article.sensitivity_flags;
        carousel_state = none;
      }

  unfoldable pub project_story :
      (by_engagement : Bool) → Article F → Source → City → Key F by_engagement × StoryRead F
  project_story by article source city =
      (story_key fl settings by (rank_inputs article), story_of article source city)
