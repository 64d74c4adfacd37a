-- ===== src/Core/Config.antt =====
-- `app/core/config.py`: the settings that the modelled code reads, and the check of the weights.
use news2reel.Base.{ℕ, Bool, Option, List, map, Text}
use news2reel.Core.Enums.{
  ContentType, Dimension, emotional_salience, audience_breadth, impact, novelty, human_interest,
  timeliness, visual_potential, engagement_dimensions,
}
use news2reel.Core.Floats.{FloatOps}

pub record Settings (F : Type 0) : Type 0 where
  pub access_token_minutes : ℕ
  pub refresh_token_days : ℕ
  pub cookie_secure : Bool
  pub fetch_max_response_bytes : ℕ
  pub fetch_max_redirects : ℕ
  pub scheduler_max_backoff_seconds : ℕ
  pub classify_batch_size : ℕ
  pub classify_max_attempts : ℕ
  pub classify_title_max_chars : ℕ
  pub classify_summary_max_chars : ℕ
  pub classify_confidence_floor : F
  pub discoverable_content_types : List ContentType
  pub story_window_hours : ℕ
  pub rank_weight_emotional_salience : F
  pub rank_weight_audience_breadth : F
  pub rank_weight_impact : F
  pub rank_weight_novelty : F
  pub rank_weight_human_interest : F
  pub rank_weight_timeliness : F
  pub rank_weight_visual_potential : F
  pub story_summary_max_chars : ℕ
  pub story_default_limit : ℕ
  pub story_max_limit : ℕ
  pub max_sources_per_city : ℕ
  pub carousel_max_stories : ℕ
  pub slide_text_max_chars : ℕ
  pub zip_max_bytes_per_image : ℕ
  pub zip_max_total_bytes : ℕ
  pub jwt_secret : Text
  pub llm_api_key : Option Text
  pub llm_model : Text
  pub llm_reasoning_effort : Text
  pub llm_max_attempts : ℕ

-- `getattr(settings, f"rank_weight_{name}")`
abbrev pub rank_weight : {F : Type 0} → Settings F → Dimension → F
rank_weight s emotional_salience = s.rank_weight_emotional_salience
rank_weight s audience_breadth = s.rank_weight_audience_breadth
rank_weight s impact = s.rank_weight_impact
rank_weight s novelty = s.rank_weight_novelty
rank_weight s human_interest = s.rank_weight_human_interest
rank_weight s timeliness = s.rank_weight_timeliness
rank_weight s visual_potential = s.rank_weight_visual_potential

-- `Settings._engagement_weights_sum_to_one` raises exactly where this is false.
unfoldable pub weights_sum_to_one : {F : Type 0} → FloatOps F → Settings F → Bool
weights_sum_to_one fl s =
    let total = fl.sum (map (rank_weight s) engagement_dimensions) in
    fl.le (fl.abs (fl.sub total (fl.lit 100))) fl.nano
