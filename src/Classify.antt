-- ===== src/Classify.antt =====
-- `app/services/classify.py`: the batch of articles to judge, the verdicts stored on their rows, and
-- a pass of the classifier. Each pass reads the batch in one transaction and stores the verdicts in
-- another.
pub mod Budget
pub mod WholeRows
pub mod Routing
pub mod Loop
use mathlib.Core.Option
use news2reel.Base.{
  ℕ, zero, suc, ◌+◌, ◌≡◌, refl, Bool, true, false, Option, none, some, List, [], ◌∷◌, map,
  if◌then◌else◌, ◌&&◌, Text, text_eq, ltb, leb, get_elem?, length, take, filter, filter_map, sorted,
  is_none, Dict, dict_get, dict_set,
}
use news2reel.Core.Enums.{EngagementLevel, level_value, content_type_value}
use news2reel.Core.Category.{category_value}
use news2reel.Core.Floats.{FloatOps, minf, maxf}
use news2reel.Core.Config.{Settings}
use news2reel.Model.{Instant, hours, Article}
use news2reel.Store.{Db, StoryRow, story_rows}
use news2reel.Llm.{TitleClassification, Item, Attempt, LlmCall, classify_titles}

-- A row of the batch: the article's id, and what is sent of it.
pub record Candidate : Type 0 where
  pub article_id : Text
  pub item : Item

abbrev pub candidate : {F : Type 0} → StoryRow F → Candidate
candidate row = record {
  article_id = row.article.id;
  item = record {
    title = row.article.title;
    summary = row.article.summary;
    feed_city = some row.city.name;
  };
}

module _ {F : Type 0} (settings : Settings F) where
  -- the `where` of `load_unclassified`, with `window_start <= fetched_at` in sums
  unfoldable pub is_unclassified : Instant → Article F → Bool
  is_unclassified now a =
      is_none a.emotional_salience
      && (ltb a.category_attempts settings.classify_max_attempts
          && leb now (a.fetched_at + hours settings.story_window_hours))

  -- Rows that were fetched at the same instant keep the table's order.
  unfoldable pub load_unclassified : Db F → Instant → List Candidate
  load_unclassified db now = map candidate (
      take settings.classify_batch_size (
        sorted (λ a b. ltb a.article.fetched_at b.article.fetched_at)
          (filter (λ row. is_unclassified now row.article) (story_rows db))))

module _ {F : Type 0} (fl : FloatOps F) where
  -- The body of the loop of `persist_categories` for an article that is there.
  unfoldable pub judged : Option (TitleClassification F) → Article F → Article F
  judged none article = record article { category_attempts = article.category_attempts + 1 }
  judged (some result) article = record article {
    category_attempts = article.category_attempts + 1;
    category = some (category_value result.category);
    content_type = some (content_type_value result.content_type);
    is_city_relevant = some result.is_city_relevant;
    relevance_confidence = some (minf fl (fl.lit 100) (maxf fl (fl.lit 0) result.confidence));
    emotional_salience = some (level_value result.emotional_salience);
    audience_breadth = some (level_value result.audience_breadth);
    impact = some (level_value result.impact);
    novelty = some (level_value result.novelty);
    human_interest = some (level_value result.human_interest);
    timeliness = some (level_value result.timeliness);
    visual_potential = some (level_value result.visual_potential);
  }

  pub judged-id :
      (verdict : Option (TitleClassification F)) (a : Article F) → (judged verdict a).id ≡ a.id
  unfolding judged
  judged-id none a = refl
  judged-id (some result) a = refl

  pub judged-attempts :
      (verdict : Option (TitleClassification F)) (a : Article F)
      → (judged verdict a).category_attempts ≡ a.category_attempts + 1
  unfolding judged
  judged-attempts none a = refl
  judged-attempts (some result) a = refl

  -- The row with this id, changed; no row is the `continue`.
  unfoldable pub judge :
      Dict Text (TitleClassification F) → Text → List (Article F) → List (Article F)
  judge assigned article_id articles =
      map
        (λ a.
          if text_eq a.id article_id then judged (dict_get text_eq article_id assigned) a else a)
        articles

  unfoldable pub judge_all :
      Dict Text (TitleClassification F) → List Text → List (Article F) → List (Article F)
  judge_all assigned [] articles = articles
  judge_all assigned (article_id ∷ ids) articles =
      judge_all assigned ids (judge assigned article_id articles)

  -- The tables, and the count that is returned.
  unfoldable pub persist_categories :
      Dict Text (TitleClassification F) → List Text → Db F → Db F × ℕ
  persist_categories assigned attempted_ids db =
      (record db { articles = judge_all assigned attempted_ids db.articles }, length assigned)

module _ {F : Type 0} where
  -- `{article_ids[index]: result for index, result in by_index.items()}`, from the dict so far; the
  -- indices are those of the batch.
  unfoldable pub assign :
      List Text
      → Dict Text (TitleClassification F)
      → Dict ℕ (TitleClassification F)
      → Dict Text (TitleClassification F)
  assign article_ids assigned [] = assigned
  assign article_ids assigned (entry ∷ by_index) = elim (get_elem? article_ids entry.0) [
    | none ↦ assign article_ids assigned by_index
    | some article_id ↦ assign article_ids (dict_set text_eq article_id entry.1 assigned) by_index
  ]

  -- `assigned`, which is empty after `ClassificationError`
  abbrev pub assigned_to :
      List Text → Option (Dict ℕ (TitleClassification F)) → Dict Text (TitleClassification F)
  assigned_to article_ids none = []
  assigned_to article_ids (some by_index) = assign article_ids [] by_index

-- What a pass leaves: the tables, the rows logged for its calls, and the count.
pub record Pass (F : Type 0) : Type 0 where
  pub db : Db F
  pub calls : List LlmCall
  pub classified : ℕ

module _ {F : Type 0} (fl : FloatOps F) (settings : Settings F) (decimal : ℕ → Text) where
  -- `client` is what the n-th attempt at a prompt comes to; `meanwhile` is what other transactions
  -- do to the tables between the two of the pass.
  module _ (client : Text → ℕ → Attempt F) (meanwhile : Db F → Db F) where
    -- The pass from the batch on.
    abbrev pub pass_over : Db F → List Candidate → Pass F
    pass_over db [] = record { db = db; calls = []; classified = 0 }
    pass_over db (first ∷ others) =
        let article_ids = map (λ c. c.article_id) (first ∷ others) in
        let answer = classify_titles settings decimal client (map (λ c. c.item) (first ∷ others)) in
        let assigned = assigned_to article_ids answer.0 in
        let stored = persist_categories fl assigned article_ids (meanwhile db) in
        record { db = stored.0; calls = answer.1; classified = stored.1 }

    unfoldable pub run_classify_pass : Instant → Db F → Pass F
    run_classify_pass now db = pass_over db (load_unclassified settings db now)
