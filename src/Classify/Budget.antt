-- ===== src/Classify/Budget.antt =====
-- The retry budget of the articles, and the end of the backlog.
use mathlib.Core.List.{Memᴰ}
use mathlib.Core.Path.{subst}
use news2reel.Base.{
  ℕ, zero, suc, ◌+◌, ◌-◌, ◌≤◌, ◌<◌, ◌≡◌, refl, sym, inl, inr, Bool, true, some, List, [], ◌∷◌, map,
  arith, Text, text_eq, text_eq_refl, ltb, take, filter, filter_map, sorted, All, All-map, All-mem,
  All-filter, All-filter_map, All-sorted, All-take, Bool-cases, Option-cases, Dict, dict_get,
}
use news2reel.Core.Floats.{FloatOps}
use news2reel.Core.Config.{Settings}
use news2reel.Model.{Instant, Article}
use news2reel.Store.{Db, StoryRow, get_source_row, get_city_row, story_row, story_rows}
use news2reel.Llm.{TitleClassification, Attempt, classify_titles}
use news2reel.Classify.{
  Candidate, candidate, is_unclassified, load_unclassified, judged-attempts, judge, judge_all,
  persist_categories, assigned_to, pass_over, run_classify_pass,
}

module _ {F : Type 0} (settings : Settings F) where
  -- the attempts that an article has left
  abbrev pub remaining : Article F → ℕ
  remaining a = settings.classify_max_attempts - a.category_attempts

  -- the attempts that all of them have left
  abbrev pub budget : List (Article F) → ℕ
  budget [] = 0
  budget (a ∷ articles) = remaining a + budget articles

  -- A member of the batch is a row that is not past its budget.
  abbrev pub IsPending : List (Article F) → Candidate → Type 0
  IsPending articles c =
      (a : Article F) × Memᴰ a articles
      × (c.article_id ≡ a.id)
      × (a.category_attempts < settings.classify_max_attempts)

  story_row-article :
      (db : Db F) (a : Article F) (row : StoryRow F) → story_row db a ≡ some row → row.article ≡ a
  unfolding story_row
  story_row-article db a row h = elim (Option-cases (get_source_row db a.source_id)) [
    | inl e ↦ absurd (ground arith)
    | inr (source, e) ↦ elim (Option-cases (get_city_row db source.city_id)) [
      | inl g ↦ absurd (ground arith)
      | inr (city, g) ↦ ground arith
    ]
  ]

  unclassified-attempts :
      (now : Instant) (a : Article F)
      → is_unclassified settings now a ≡ true
      → a.category_attempts < settings.classify_max_attempts
  unfolding is_unclassified
  unclassified-attempts now a h = ground arith

  load_unclassified-IsPending :
      (db : Db F) (now : Instant) → All (IsPending db.articles) (load_unclassified settings db now)
  unfolding load_unclassified story_rows
  load_unclassified-IsPending db now =
      let Stored : StoryRow F → Type 0 = λ row. Memᴰ row.article db.articles in
      let passes : StoryRow F → Bool = λ row. is_unclassified settings now row.article in
      let Pending : StoryRow F → Type 0 = λ row. Stored row × (passes row ≡ true) in
      let earlier : StoryRow F → StoryRow F → Bool =
        λ a b. ltb a.article.fetched_at b.article.fetched_at in
      let rows = filter_map (story_row db) db.articles in
      let stored =
        All-filter_map (λ a. Memᴰ a db.articles) Stored (story_row db)
          (λ a row m e. rw (story_row-article db a row e) m) db.articles (All-mem db.articles) in
      let pending = All-filter Stored passes rows stored in
      All-map Pending (IsPending db.articles) candidate
        (λ row h. (row.article, h.0, refl, unclassified-attempts now row.article h.1))
        (take settings.classify_batch_size (sorted earlier (filter passes rows)))
        (All-take Pending settings.classify_batch_size (sorted earlier (filter passes rows))
          (All-sorted earlier Pending (filter passes rows) pending))

module _ {F : Type 0} (fl : FloatOps F) (settings : Settings F) where
  module _ (assigned : Dict Text (TitleClassification F)) where
    judge-budget-le :
        (id : Text) (articles : List (Article F))
        → budget settings (judge fl assigned id articles) ≤ budget settings articles
    unfolding judge
    judge-budget-le id [] = omega arith
    judge-budget-le id (a ∷ articles) =
        let spent = judged-attempts fl (dict_get text_eq id assigned) a in
        let rest = judge-budget-le id articles in
        elim (Bool-cases (text_eq a.id id)) [
          | inl e ↦ rw e (omega arith)
          | inr f ↦ rw f (omega arith)
        ]

    judge_all-budget-le :
        (ids : List Text) (articles : List (Article F))
        → budget settings (judge_all fl assigned ids articles) ≤ budget settings articles
    unfolding judge_all
    judge_all-budget-le [] articles = omega arith
    judge_all-budget-le (id ∷ ids) articles = omega (
      arith,
      judge_all-budget-le ids (judge fl assigned id articles),
      judge-budget-le id articles,
    )

    judge-budget-lt :
        (a : Article F) (articles : List (Article F))
        → Memᴰ a articles
        → a.category_attempts < settings.classify_max_attempts
        → budget settings (judge fl assigned a.id articles) < budget settings articles
    unfolding judge
    judge-budget-lt a [] m less = elim m [ ]
    judge-budget-lt a (b ∷ articles) (Memᴰ.head e) less =
        let rest = judge-budget-le a.id articles in
        let same : text_eq b.id a.id ≡ true =
          subst (λ x. text_eq x.id a.id ≡ true) e (text_eq_refl a.id) in
        let spent = judged-attempts fl (dict_get text_eq a.id assigned) b in
        let less_b : b.category_attempts < settings.classify_max_attempts =
          subst (λ x. x.category_attempts < settings.classify_max_attempts) e less in
        rw same (omega arith)
    judge-budget-lt a (b ∷ articles) (Memᴰ.tail m) less =
        let spent = judged-attempts fl (dict_get text_eq a.id assigned) b in
        let rest = judge-budget-lt a articles m less in
        elim (Bool-cases (text_eq b.id a.id)) [
          | inl e ↦ rw e (omega arith)
          | inr f ↦ rw f (omega arith)
        ]

  module _ (decimal : ℕ → Text) where
    -- No other transaction writes between the two of a pass.
    abbrev pub alone : (Text → ℕ → Attempt F) → Instant → Db F → Db F
    alone client now db = (run_classify_pass fl settings decimal client (λ d. d) now db).db

    pass_over-budget :
        (client : Text → ℕ → Attempt F) (db : Db F) (first : Candidate) (others : List Candidate)
        → IsPending settings db.articles first
        → budget settings
            (pass_over fl settings decimal client (λ d. d) db (first ∷ others)).db.articles
          < budget settings db.articles
    unfolding persist_categories judge_all
    pass_over-budget client db first others (a, m, e, less) =
        let answer = classify_titles settings decimal client (map (λ c. c.item) (first ∷ others)) in
        let assigned = assigned_to (map (λ c. c.article_id) (first ∷ others)) answer.0 in
        let ids = map (λ c. c.article_id) others in
        let spent : budget settings (judge fl assigned first.article_id db.articles)
            < budget settings db.articles =
          subst
            (λ id. budget settings (judge fl assigned id db.articles) < budget settings db.articles)
            (sym e) (judge-budget-lt assigned a db.articles m less) in
        let rest : budget settings
              (pass_over fl settings decimal client (λ d. d) db (first ∷ others)).db.articles
            ≤ budget settings (judge fl assigned first.article_id db.articles) =
          judge_all-budget-le assigned ids (judge fl assigned first.article_id db.articles) in
        omega arith

    -- The passes from the n-th on.
    unfoldable pub passes : (ℕ → Text → ℕ → Attempt F) → (ℕ → Instant) → ℕ → ℕ → Db F → Db F
    passes clients clock n zero db = db
    passes clients clock n (suc k) db =
        passes clients clock (n + 1) k (alone (clients n) (clock n) db)

    -- A pass that had a batch, in front of the passes behind it.
    drained_round :
        (clients : ℕ → Text → ℕ → Attempt F) (clock : ℕ → Instant) (bound n : ℕ) (db : Db F)
        (batch : List Candidate)
        → load_unclassified settings db (clock n) ≡ batch
        → All (IsPending settings db.articles) batch
        → (budget settings (alone (clients n) (clock n) db).articles < budget settings db.articles
            → (k : ℕ) × (suc k ≤ bound)
              × (load_unclassified settings
                    (passes clients clock (n + 1) k (alone (clients n) (clock n) db))
                    (clock (n + 1 + k))
                  ≡ []))
        → (k : ℕ) × (k ≤ bound)
          × (load_unclassified settings (passes clients clock n k db) (clock (n + k)) ≡ [])
    unfolding passes run_classify_pass
    drained_round clients clock bound n db [] e pending next =
        let here : n + 0 ≡ n = omega arith in (0, omega arith, rw here e)
    drained_round clients clock bound n db (first ∷ others) e pending next =
        let (k, le, f) = next (
          subst
            (λ batch.
              budget settings
                (pass_over fl settings decimal (clients n) (λ d. d) db batch).db.articles
              < budget settings db.articles)
            (sym e) (pass_over-budget (clients n) db first others pending.0)) in
        let shift : n + 1 + k ≡ n + suc k = omega arith in (suc k, le, rw (sym shift) f)

    drained :
        (bound n : ℕ) (clients : ℕ → Text → ℕ → Attempt F) (clock : ℕ → Instant) (db : Db F)
        → budget settings db.articles ≤ bound
        → (k : ℕ) × (k ≤ bound)
          × (load_unclassified settings (passes clients clock n k db) (clock (n + k)) ≡ [])
    drained zero n clients clock db le =
        drained_round clients clock zero n db (load_unclassified settings db (clock n)) refl
          (load_unclassified-IsPending settings db (clock n)) (λ less. absurd (omega arith))
    drained (suc bound) n clients clock db le =
        drained_round clients clock (suc bound) n db (load_unclassified settings db (clock n)) refl
          (load_unclassified-IsPending settings db (clock n))
          (λ less.
            let (k, more, e) =
              drained bound (n + 1) clients clock (alone (clients n) (clock n) db) (omega arith) in
            (k, omega arith, e))

    -- The backlog ends: whatever the provider answers at each pass, or refuses, and however the
    -- clock runs, after at most as many passes as the articles have attempts left in all, a pass
    -- finds no batch, where nothing else writes to the tables meanwhile. So a headline that the
    -- model never places is not sent for ever.
    pub passes-drained :
        (clients : ℕ → Text → ℕ → Attempt F) (clock : ℕ → Instant) (db : Db F)
        → (k : ℕ) × (k ≤ budget settings db.articles)
          × (load_unclassified settings (passes clients clock 0 k db) (clock k) ≡ [])
    passes-drained clients clock db =
        let (k, le, e) = drained (budget settings db.articles) 0 clients clock db (omega arith) in
        let start : 0 + k ≡ k = omega arith in
        (
          k,
          le,
          subst (λ n. load_unclassified settings (passes clients clock 0 k db) (clock n) ≡ []) start
              e,
        )
