-- ===== src/Feed.antt =====
-- `app/api/v1/endpoints/stories.py`: the admission tests, and a page of the ranked feed.
pub mod Order
use news2reel.Base.{
  ℕ, zero, suc, ◌-◌, ◌≤◌, min, Bool, true, false, not, ◌&&◌, ◌||◌, Option, none, some, List, [],
  ◌∷◌, map, if◌then◌else◌, Text, text_eq, ◌==◌, leb, ltb, any, filter, filter_map, take, drop,
  sorted, or_else, is_none,
}
use news2reel.Core.Enums.{ContentType, content_types, content_type_value}
use news2reel.Core.Floats.{FloatOps}
use news2reel.Core.Config.{Settings}
use news2reel.Core.Text.{Chars}
use news2reel.Model.{Instant, hours, Source, Article, Carousel}
use news2reel.Rank.{Key, key_lt}
use news2reel.Store.{Db, StoryRow, story_rows}
use news2reel.States.{article_state}
use news2reel.Stories.{StoryRead, derive_is_local, project_story}

-- `article.content_type in types`, for a set of the enum's members
abbrev pub is_one_of : Option Text → List ContentType → Bool
is_one_of none types = false
is_one_of (some t) types = any (λ c. text_eq t (content_type_value c)) types

module _ {F : Type 0} (fl : FloatOps F) (settings : Settings F) where
  -- The last `return` of `_hidden`, and the branch before it, by the model's verdict.
  abbrev pub hidden_by_city : Option Bool → Article F → Source → Bool
  hidden_by_city none article source = not (derive_is_local article source)
  hidden_by_city (some true) article source = false
  hidden_by_city (some false) article source =
      fl.le settings.classify_confidence_floor (or_else article.relevance_confidence (fl.lit 0))

  unfoldable pub hidden : Article F → Source → Bool
  hidden article source =
      if is_one_of article.content_type content_types
        && not (is_one_of article.content_type settings.discoverable_content_types)
      then true
      else hidden_by_city article.is_city_relevant article source

-- The query's parameters.
pub record FeedQuery : Type 0 where
  -- `[c.value for c in category]`, empty where the parameter is absent
  pub category : List Text
  pub city_id : Option ℕ
  pub by_engagement : Bool
  pub limit : Option ℕ
  pub offset : ℕ

-- `limit or settings.story_default_limit`
abbrev pub limit_or : Option ℕ → ℕ → ℕ
limit_or none d = d
limit_or (some zero) d = d
limit_or (some (suc n)) d = suc n

-- `Article.category.in_(…)`, which NULL does not pass
abbrev pub in_categories : List Text → Option Text → Bool
in_categories [] category = true
in_categories (c ∷ cs) none = false
in_categories (c ∷ cs) (some t) = any (λ d. text_eq t d) (c ∷ cs)

abbrev pub in_city : Option ℕ → ℕ → Bool
in_city none city_id = true
in_city (some id) city_id = city_id == id

module _ {F : Type 0} where
  -- the `where` clauses of the query
  unfoldable pub selects : Settings F → FeedQuery → Instant → StoryRow F → Bool
  selects settings q now row =
      let occurred_at = or_else row.article.published_at row.article.fetched_at in
      leb (now - hours settings.story_window_hours) occurred_at
      && in_categories q.category row.article.category
      && in_city q.city_id row.source.city_id

module _ {F : Type 0} where
  unfoldable pub page_limit : Settings F → FeedQuery → ℕ
  page_limit settings q =
      min (limit_or q.limit settings.story_default_limit) settings.story_max_limit

  abbrev pub with_state : List Carousel → StoryRead F → StoryRead F
  with_state carousels story = record story { carousel_state = article_state carousels story.id }

module _ {F : Type 0} (fl : FloatOps F) (u : Chars) (settings : Settings F) where
  -- `key=lambda pair: pair[0], reverse=True`
  abbrev pub ranks_before : (by : Bool) → Key F by × StoryRead F → Key F by × StoryRead F → Bool
  ranks_before by a b = key_lt fl by b.0 a.0

  -- One round of the loop over the rows.
  unfoldable pub admit : (by : Bool) → StoryRow F → Option (Key F by × StoryRead F)
  admit by row =
      if hidden fl settings row.article row.source
      then none
      else some (project_story fl u settings by row.article row.source row.city)

  -- The loop, over the rows in whatever order the query returned them.
  unfoldable pub admitted : (by : Bool) → List (StoryRow F) → List (Key F by × StoryRead F)
  admitted by rows = filter_map (admit by) rows

  unfoldable pub ranked : (by : Bool) → List (StoryRow F) → List (StoryRead F)
  ranked by rows = map (λ pair. pair.1) (sorted (ranks_before by) (admitted by rows))

  -- The page, from the rows of the query.
  unfoldable pub feed_page : FeedQuery → List Carousel → List (StoryRow F) → List (StoryRead F)
  feed_page q carousels rows =
      map (with_state carousels)
        (take (page_limit settings q) (drop q.offset (ranked q.by_engagement rows)))

  unfoldable pub list_stories : FeedQuery → Instant → Db F → List (StoryRead F)
  list_stories q now db = feed_page q db.carousels (filter (selects settings q now) (story_rows db))
