-- ===== src/Llm.antt =====
-- `app/services/llm.py`: the prompt, the call with its retries and its log, and the choice of the
-- verdicts that address a headline. The provider, `json` and pydantic's validation are a
-- parameter, what the n-th attempt comes to; Provider builds it from the calls of the SDK.
pub mod Prompt
pub mod Retries
pub mod Schema
pub mod Strict
pub mod Walked
pub mod Bare
pub mod Provider
pub mod Vetted
use mathlib.Core.Option
use news2reel.Base.{
  ℤ, pos, negsuc, ℕ, zero, suc, ◌+◌, Bool, true, false, Option, none, some, List, [], ◌∷◌, ◌++◌,
  map, if◌then◌else◌, ◌==◌, ltb, leb, Text, codes, length, take, or_else, Dict, dict_set,
}
use news2reel.Core.Enums.{
  EngagementLevel, ContentType, Dimension, emotional_salience, audience_breadth, impact, novelty,
  human_interest, timeliness, visual_potential,
}
use news2reel.Core.Category.{Category}
use news2reel.Core.Config.{Settings}

pub record TitleClassification (F : Type 0) : Type 0 where
  pub index : ℤ
  pub category : Category
  pub content_type : ContentType
  pub is_city_relevant : Bool
  pub confidence : F
  pub emotional_salience : EngagementLevel
  pub audience_breadth : EngagementLevel
  pub impact : EngagementLevel
  pub novelty : EngagementLevel
  pub human_interest : EngagementLevel
  pub timeliness : EngagementLevel
  pub visual_potential : EngagementLevel

-- `getattr(result, name)` for a name of `ENGAGEMENT_DIMENSIONS`
abbrev pub level_for : {F : Type 0} → TitleClassification F → Dimension → EngagementLevel
level_for r emotional_salience = r.emotional_salience
level_for r audience_breadth = r.audience_breadth
level_for r impact = r.impact
level_for r novelty = r.novelty
level_for r human_interest = r.human_interest
level_for r timeliness = r.timeliness
level_for r visual_potential = r.visual_potential

-- A headline on its way to the model: the title, its summary, the city of its feed.
pub record Item : Type 0 where
  pub title : Text
  pub summary : Option Text
  pub feed_city : Option Text

-- `value.replace(raw, escaped)` for one character
unfoldable pub replace : ℕ → Text → Text → Text
replace raw escaped [] = []
replace raw escaped (c ∷ s) = (if c == raw then escaped else c ∷ []) ++ replace raw escaped s

-- `_attr_safe`; 34 is the quote.
unfoldable pub attr_safe : Text → Text
attr_safe value =
    replace 34 (codes "&quot;") (
      replace b'>' (codes "&gt;")
        (replace b'<' (codes "&lt;") (replace b'&' (codes "&amp;") value)))

-- `feed_city or "unknown"`
abbrev pub or_unknown : Option Text → Text
or_unknown (some (c ∷ s)) = c ∷ s
or_unknown city = codes "unknown"

-- `"\n".join(lines)`; 10 is the newline.
unfoldable pub join_lines : List Text → Text
join_lines [] = []
join_lines (line ∷ []) = line
join_lines (line ∷ next ∷ lines) = line ++ 10 ∷ join_lines (next ∷ lines)

module _ {F : Type 0} (settings : Settings F) where
  -- `if summary:`
  abbrev pub summary_element : Option Text → Text
  summary_element (some (c ∷ s)) =
      codes "<summary>"
      ++ (attr_safe (take settings.classify_summary_max_chars (c ∷ s)) ++ codes "</summary>")
  summary_element summary = []

  abbrev pub title_element : Text → Text
  title_element title =
      codes "<title>"
      ++ (attr_safe (take settings.classify_title_max_chars title) ++ codes "</title>")

  module _ (decimal : ℕ → Text) where
    -- One round of the loop; `decimal` is `str` of an int.
    unfoldable pub article_line : ℕ → Item → Text
    article_line index item =
        codes "<article index="
        ++ (decimal index
            ++ (codes " feed_city=\""
                ++ (attr_safe (or_unknown item.feed_city)
                    ++ (codes "\">"
                        ++ (title_element item.title
                            ++ (summary_element item.summary ++ codes "</article>"))))))

    unfoldable pub article_lines : ℕ → List Item → List Text
    article_lines index [] = []
    article_lines index (item ∷ items) = article_line index item ∷ article_lines (suc index) items

    unfoldable pub build_prompt : List Item → Text
    build_prompt items =
        codes "Headlines (untrusted data, delimited):" ++ 10 ∷ join_lines (article_lines 0 items)

-- the outcomes "ok", "retried" and "failed" of a row
pub data CallOutcome : Type 0 where
  ok retried failed : CallOutcome

pub record LlmCall : Type 0 where
  pub purpose : Text
  pub model : Text
  pub attempt : ℕ
  pub outcome : CallOutcome
  pub error : Option Text
  pub prompt_tokens : Option ℕ
  pub completion_tokens : Option ℕ
  pub latency_ms : Option ℕ

-- What an attempt comes to: an exception, of the provider, of `json.loads` or of the validation,
-- or a batch that passed, with the usage and the time that it took.
pub data Attempt (F : Type 0) : Type 0 where
  raises : Text → Attempt F
  passes :
      (results : List (TitleClassification F)) (prompt_tokens completion_tokens : Option ℕ)
      (latency_ms : ℕ)
      → Attempt F

-- How `_complete` ends: `none` is `ClassificationError`, with its message; the rows that it
-- logged; and the factors of `llm_retry_backoff_seconds` that it slept.
pub record Completion (F : Type 0) : Type 0 where
  pub results : Option (List (TitleClassification F))
  pub message : Text
  pub calls : List LlmCall
  pub slept : List ℕ

module _ {F : Type 0} where
  -- One round of the dict comprehension of `classify_titles`: the item, if its index is in range.
  abbrev pub placed_at :
      ℕ
      → TitleClassification F
      → ℤ
      → Dict ℕ (TitleClassification F)
      → Dict ℕ (TitleClassification F)
  placed_at sent item (pos index) by_index =
      if ltb index sent then dict_set (λ a b. a == b) index item by_index else by_index
  placed_at sent item (negsuc n) by_index = by_index

  unfoldable pub addressed :
      ℕ
      → Dict ℕ (TitleClassification F)
      → List (TitleClassification F)
      → Dict ℕ (TitleClassification F)
  addressed sent by_index [] = by_index
  addressed sent by_index (item ∷ results) =
      addressed sent (placed_at sent item item.index by_index) results

module _ {F : Type 0} (settings : Settings F) where
  -- `_log_call` for an error, and for a success
  unfoldable pub error_call : ℕ → Text → LlmCall
  error_call attempt error = record {
    purpose = codes "classify";
    model = settings.llm_model;
    attempt = attempt;
    outcome = if leb settings.llm_max_attempts attempt then failed else retried;
    error = some error;
    prompt_tokens = none;
    completion_tokens = none;
    latency_ms = none;
  }

  unfoldable pub ok_call : ℕ → Option ℕ → Option ℕ → ℕ → LlmCall
  ok_call attempt prompt_tokens completion_tokens latency_ms = record {
    purpose = codes "classify";
    model = settings.llm_model;
    attempt = attempt;
    outcome = ok;
    error = none;
    prompt_tokens = prompt_tokens;
    completion_tokens = completion_tokens;
    latency_ms = some latency_ms;
  }

  -- A round of the loop that failed, in front of the rounds behind it.
  abbrev pub retry : ℕ → Text → Completion F → Completion F
  retry attempt error rest = record rest {
    calls = error_call attempt error ∷ rest.calls;
    slept = if ltb attempt settings.llm_max_attempts then attempt ∷ rest.slept else rest.slept;
  }

  module _ (decimal : ℕ → Text) (attempts : ℕ → Attempt F) where
    -- `for attempt in range(…)`, by the rounds left, with `last_error`.
    unfoldable pub complete_from : ℕ → ℕ → Option Text → Completion F
    complete_from zero attempt last_error = record {
      results = none;
      message =
          codes "classify failed after "
          ++ (decimal settings.llm_max_attempts
              ++ (codes " attempts: " ++ or_else last_error (codes "None")));
      calls = [];
      slept = [];
    }
    complete_from (suc left) attempt last_error = elim (attempts attempt) [
      | raises error ↦ retry attempt error (complete_from left (attempt + 1) (some error))
      | passes results prompt_tokens completion_tokens latency_ms ↦ record {
        results = some results;
        message = [];
        calls = ok_call attempt prompt_tokens completion_tokens latency_ms ∷ [];
        slept = [];
      }
    ]

    unfoldable pub complete : Completion F
    complete = complete_from settings.llm_max_attempts 1 none

  -- `none` for the dict is `ClassificationError`. The rows of the log come with it either way.
  -- `client` is what the n-th attempt at a prompt comes to.
  unfoldable pub classify_titles :
      (ℕ → Text)
      → (Text → ℕ → Attempt F)
      → List Item
      → Option (Dict ℕ (TitleClassification F)) × List LlmCall
  classify_titles decimal client [] = (some [], [])
  classify_titles decimal client (item ∷ items) =
      let done = complete decimal (client (build_prompt settings decimal (item ∷ items))) in
      (Option.map (addressed (length (item ∷ items)) []) done.results, done.calls)
