-- ===== src/Model.antt =====
-- `app/db/models`: the rows of the tables. A timestamp is its number of microseconds since the
-- epoch. `created_at` and `updated_at` of a city and of a source are set by the database and only
-- echoed, and are left out. A deck's slides stand in their carousel's row, in the order of
-- `position`, as the relationship loads them.
use news2reel.Base.{ℤ, ℕ, ◌*◌, Bool, Option, List, Text}
use news2reel.Core.Enums.{
  Dimension, emotional_salience, audience_breadth, impact, novelty, human_interest, timeliness,
  visual_potential,
}

abbrev pub Instant : Type 0
Instant = ℕ

-- `timedelta(seconds=n)` and `timedelta(hours=n)`
abbrev pub seconds : ℕ → ℕ
seconds n = n * 1000000

abbrev pub hours : ℕ → ℕ
hours n = n * 3600000000

pub record City : Type 0 where
  pub id : ℕ
  pub name : Text
  pub slug : Text
  pub state : Option Text
  pub archived_at : Option Instant

pub record Source : Type 0 where
  pub id : ℕ
  pub name : Text
  pub feed_url : Text
  pub language : Text
  pub enabled : Bool
  pub publisher_group : Text
  pub city_id : ℕ
  pub is_local_outlet : Bool
  pub fetch_interval_minutes : ℕ
  pub etag : Option Text
  pub last_modified : Option Text
  pub cache_max_age_seconds : Option ℕ
  pub last_fetched_at : Option Instant
  pub consecutive_failures : ℕ
  pub last_success_at : Option Instant
  pub last_error : Option Text
  pub last_error_at : Option Instant
  pub archived_at : Option Instant

-- one of the dicts of `Article.images`
pub record Image : Type 0 where
  pub url : Option Text
  pub width : Option ℤ
  pub height : Option ℤ
  pub credit : Option Text
  pub caption : Option Text

-- `Article.raw`: what the feed said
pub record Raw : Type 0 where
  pub title : Text
  pub link : Text
  pub summary : Option Text
  pub category_raw : Option Text

pub record Article (F : Type 0) : Type 0 where
  pub id : Text
  pub source_id : ℕ
  pub url : Text
  pub canonical_url : Text
  pub title : Text
  pub summary : Option Text
  pub published_at : Option Instant
  pub fetched_at : Instant
  pub language : Text
  pub feed_position : Option ℕ
  pub images : List Image
  pub content_hash : Text
  pub city : Option Text
  pub city_id : Option ℕ
  pub category : Option Text
  pub is_city_relevant : Option Bool
  pub relevance_confidence : Option F
  pub content_type : Option Text
  pub emotional_salience : Option Text
  pub audience_breadth : Option Text
  pub impact : Option Text
  pub novelty : Option Text
  pub human_interest : Option Text
  pub timeliness : Option Text
  pub visual_potential : Option Text
  pub category_attempts : ℕ
  pub sensitivity_flags : List Text
  pub raw : Raw

-- `getattr(article, name)` for a name of `ENGAGEMENT_DIMENSIONS`
abbrev pub engagement_column : {F : Type 0} → Article F → Dimension → Option Text
engagement_column a emotional_salience = a.emotional_salience
engagement_column a audience_breadth = a.audience_breadth
engagement_column a impact = a.impact
engagement_column a novelty = a.novelty
engagement_column a human_interest = a.human_interest
engagement_column a timeliness = a.timeliness
engagement_column a visual_potential = a.visual_potential

pub data SlideKind : Type 0 where
  intro story cta : SlideKind

pub record CarouselSlide : Type 0 where
  pub position : ℕ
  pub kind : SlideKind
  pub article_id : Option Text
  pub text : Text
  pub clipped : Bool

pub record Carousel : Type 0 where
  pub id : ℕ
  pub city_id : ℕ
  pub created_at : Instant
  pub last_edited_at : Option Instant
  pub last_downloaded_at : Option Instant
  pub slides : List CarouselSlide

pub record Selection (F : Type 0) : Type 0 where
  pub article_id : Text
  pub engagement : Option F
  pub score : F
  pub score_version : Option ℕ
  pub sort : Option Text
  pub carousel_id : Option ℕ

pub record User : Type 0 where
  pub id : ℕ
  pub email : Text
  pub password_hash : Text
