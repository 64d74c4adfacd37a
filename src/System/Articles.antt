-- ===== src/System/Articles.antt =====
-- The transactions that write articles, as steps of the system: one persisted attempt, and the
-- verdicts of a pass of the classifier.
use mathlib.Core.Path.{subst}
use news2reel.Base.{
  ℕ, ◌+◌, ◌≡◌, refl, sym, ap, ◌∙◌, false, Option, none, some, List, [], ◌∷◌, ◌++◌, map, arith,
  if◌then◌else◌, ◌==◌, Text, text_eq, any, All, All-map, All-append, All-weaken, All-find?,
  Bool-cases, inl, inr, is_none, keep_some, Dict, dict_get,
}
use news2reel.Core.Config.{Settings}
use news2reel.Core.Floats.{FloatOps}
use news2reel.Core.Text.{Chars}
use news2reel.Model.{Instant, City, Source, Article}
use news2reel.Store.{Db, get_source_row}
use news2reel.Ingest.Urls.{StdLib, is_truthy}
use news2reel.Ingest.Entry.{
  FeedEntry, Normalized, raises, normal, with_urls, with_both, article_of, normalize_entry,
}
use news2reel.Ingest.Persist.{
  FeedResult, Ledger, has_id, insert_rows, unless_seen, collect_rows, record_fetch_failure,
  parse_and_persist, collect_entry, Ended, returned, raised, inserted,
}
use news2reel.Ingest.Persist.Dedupe.{UniqueIds, has_id-Grows}
use news2reel.Llm.{TitleClassification}
use news2reel.Classify.{judged, judged-id, judge, judge_all, persist_categories}
use news2reel.Api.Bodies.{source_create_ok}
use news2reel.Api.Commits.{HasCity, HasSource}
use news2reel.Net.{FetchResult}
use news2reel.Tick.{
  World, FetchAttempt, Fetched, result, error, read_feed, ingested, committed, persist_attempt,
  commit, parsed, checked,
}
use news2reel.Tick.Ledgers.{persist_attempt-KeepsLedger}
use news2reel.Tick.Outcomes.{persist_attempt-IsAbout, found_id}
use news2reel.System.Sound.{
  Fits, IsSound, Follows, Follows-refl, Follows-trans, Follows-map_sources, Follows-articles,
}
use news2reel.System.Feeds.{if-Fits}

-- A property of the articles of one source, through the writes of an attempt at it.
module _ {F : Type 0} (P : Article F → Type 0) where
  insert_rows-All :
      (table rows : List (Article F)) → All P table → All P rows → All P (insert_rows table rows).0
  unfolding insert_rows
  insert_rows-All table [] h k = h
  insert_rows-All table (row ∷ rows) h k = elim (Bool-cases (has_id row.id table)) [
    | inl there ↦ rw there (insert_rows-All table rows h k.1)
    | inr new ↦
        rw new (insert_rows-All (table ++ row ∷ []) rows (All-append P table _ h (k.0, tt)) k.1)
  ]

  module _ (source : Source) (own : (a : Article F) → a.source_id ≡ source.id → P a) (std : StdLib)
      (u : Chars) where
    -- of an article, where there is one
    abbrev Each : Option (Article F) → Type 0
    Each none = Unit
    Each (some a) = P a

    fresh-All :
        (seen : List Text) (entry : Option (Article F)) (rows : List (Article F))
        → Each entry
        → All P rows
        → All P (keep_some (unless_seen seen entry) rows)
    fresh-All seen none rows p h = h
    fresh-All seen (some a) rows p h = elim (Bool-cases (any (λ id. text_eq id a.id) seen)) [
      | inl met ↦ rw met h
      | inr new ↦ rw new (p, h)
    ]

    -- of what becomes of an entry, and of what is stored when a fetch has ended
    abbrev EachNormal : Normalized F → Type 0
    EachNormal (raises exc) = Unit
    EachNormal (normal article) = Each article

    abbrev EachEnded : Ended F → Type 0
    EachEnded (raised exc seen) = Unit
    EachEnded (returned written) = All P written.2.articles

    entry-All :
        (seen : List Text) (n : Normalized F)
        (rest : List Text → List (Article F) × List Text × Option Text)
        → EachNormal n
        → ((s : List Text) → All P (rest s).0)
        → All P (collect_entry seen n rest).0
    entry-All seen (raises exc) rest p h = tt
    entry-All seen (normal article) rest p h = fresh-All seen article _ p (h _)

    urls-own :
        (cities : List City) (db_now : Instant) (entry : FeedEntry) (link title : Text)
        (position : ℕ) (canonical : Option Text) (parsed_city : Option (Option Text))
        → EachNormal
            (with_urls std u source cities db_now entry link title position canonical parsed_city)
    unfolding article_of
    urls-own cities db_now entry link title position (some canonical) (some parsed_city) =
        own _ refl
    urls-own cities db_now entry link title position (some canonical) none = tt
    urls-own cities db_now entry link title position none parsed_city = tt

    with_both-own :
        (cities : List City) (db_now : Instant) (entry : FeedEntry) (link title : Option Text)
        (position : ℕ)
        → EachNormal (with_both std u source cities db_now entry link title position)
    unfolding article_of
    with_both-own cities db_now entry none title position = tt
    with_both-own cities db_now entry (some []) title position = tt
    with_both-own cities db_now entry (some (a ∷ link)) none position = tt
    with_both-own cities db_now entry (some (a ∷ link)) (some []) position = tt
    with_both-own cities db_now entry (some (a ∷ link)) (some (b ∷ title)) position =
        urls-own cities db_now entry (a ∷ link) (b ∷ title) position _ _

    collect_rows-All :
        (cities : List City) (db_now : Instant) (position : ℕ) (entries : List FeedEntry)
        (seen : List Text)
        → All P (collect_rows std u source cities db_now position entries seen).0
    unfolding collect_rows normalize_entry
    collect_rows-All cities db_now position [] seen = tt
    collect_rows-All cities db_now position (entry ∷ entries) seen =
        entry-All seen (normalize_entry std u source cities db_now entry position) _
          (with_both-own cities db_now entry entry.link entry.title position)
          (collect_rows-All cities db_now (position + 1) entries)

    inserted-All :
        (cities : List City) (db_now : Instant) (response : FeedResult) (now : Instant)
        (ledger : Ledger F) (c : List (Article F) × List Text × Option Text)
        → All P ledger.articles
        → All P c.0
        → EachEnded (inserted std u source cities db_now response now ledger c)
    inserted-All cities db_now response now ledger (rows, seen, none) h k =
        insert_rows-All ledger.articles rows h k
    inserted-All cities db_now response now ledger (rows, seen, some exc) h k = tt

    parse_and_persist-All :
        (cities : List City) (db_now : Instant) (response : FeedResult) (now : Instant)
        (ledger : Ledger F)
        → All P ledger.articles
        → EachEnded (parse_and_persist std u source cities db_now response now ledger)
    unfolding parse_and_persist record_fetch_failure
    parse_and_persist-All cities db_now response now ledger h =
        elim (Bool-cases (response.status_code == 304)) [
          | inl same ↦ rw same h
          | inr other ↦ elim (Bool-cases (is_truthy response.parsed.version)) [
            | inl feed ↦
                rw (other, feed)
                  (inserted-All cities db_now response now ledger _ h
                    (collect_rows-All cities db_now 1 response.parsed.entries ledger.seen))
            | inr junk ↦ rw (other, junk) h
          ]
        ]

    module _ (world : World F) (settings : Settings F) where
      parsed-All :
          (db : Db F) (attempt : FetchAttempt) (r : FetchResult) (ledger : Ledger F)
          (error : Option Text)
          → All P ledger.articles
          → EachEnded (parsed world settings std u db attempt source r ledger error)
      parsed-All db attempt r ledger none h =
          parse_and_persist-All db.cities (world.db_now attempt) (read_feed world settings r)
            attempt.attempted_at ledger h
      parsed-All db attempt r ledger (some exc) h = tt

      ingested-All :
          (db : Db F) (attempt : FetchAttempt) (fetched : Fetched) (ledger : Ledger F)
          → All P ledger.articles
          → EachEnded (ingested world settings std u db attempt source fetched ledger)
      unfolding record_fetch_failure
      ingested-All db attempt (error e) ledger h = h
      ingested-All db attempt (result r) ledger h =
          parsed-All db attempt r ledger (world.read_error attempt) h

      committed-All :
          (attempt : FetchAttempt) (ledger : Ledger F) (ended : Ended F)
          → All P ledger.articles
          → EachEnded ended
          → All P (committed world settings std u attempt source ledger ended).2.articles
      unfolding record_fetch_failure
      committed-All attempt ledger (returned written) h k = k
      committed-All attempt ledger (raised exc seen) h k = h

      checked-All :
          (attempt : FetchAttempt) (error : Option Text) (ended : Ended F)
          → EachEnded ended
          → EachEnded (checked world settings std u attempt error ended)
      checked-All attempt none ended k = k
      checked-All attempt (some exc) (returned written) k = tt
      checked-All attempt (some exc) (raised exc' seen) k = tt

      persist_attempt-All :
          (db : Db F) (seen : List Text) (attempt : FetchAttempt)
          → All P db.articles
          → All P (persist_attempt world settings std u db seen attempt source).2.articles
      unfolding persist_attempt
      persist_attempt-All db seen attempt h =
          let ledger : Ledger F = record { articles = db.articles; seen = seen } in
          committed-All attempt ledger _ h (
            checked-All attempt (world.db_error attempt) _
              (ingested-All db attempt attempt.fetched ledger h))

module _ {F : Type 0} where
  stored-Fits :
      (db : Db F) (id : ℕ) (source : Source)
      → IsSound db
      → get_source_row db id ≡ some source
      → Fits db source
  unfolding get_source_row
  stored-Fits db id source s found =
      All-find? (Fits db) (λ x. x.id == id) db.sources source s.sources found

module _ {F : Type 0} (world : World F) (settings : Settings F) (std : StdLib) (u : Chars) where
  pub persisted-Follows :
      (db : Db F) (seen : List Text) (attempt : FetchAttempt) (source : Source)
      → IsSound db
      → get_source_row db attempt.source_id ≡ some source
      → Follows db (
          commit world settings std u db
            (persist_attempt world settings std u db seen attempt source))
  persisted-Follows db seen attempt source s found =
      let written = persist_attempt world settings std u db seen attempt source in
      let about = persist_attempt-IsAbout world settings std u db seen attempt source in
      let (unique, grows) =
        persist_attempt-KeepsLedger world settings std u db seen attempt source s.unique in
      let fits = stored-Fits db attempt.source_id source s found in
      let cites : (a : Article F) → a.source_id ≡ source.id → HasSource a.source_id db = λ a e.
        subst (λ id. HasSource id db) (sym (e ∙ found_id db attempt source found))
          (ap is_none found) in
      let row_fits : Fits db written.1 = record {
        city = subst (λ id. HasCity id db) (sym about.city) fits.city;
        body = ap source_create_ok about.body ∙ fits.body;
      } in
      let put =
        Follows-map_sources db (λ x. if x.id == written.1.id then written.1 else x) s
          (λ x. ground arith) (λ x h. if-Fits db _ x written.1 h row_fits) in
      let cited =
        persist_attempt-All (λ a. HasSource a.source_id db) source cites std u world settings db
          seen attempt s.articles in
      Follows-trans db _ _ put (
        Follows-articles _ written.2.articles put.sound unique
          (All-weaken _ _ (λ a h. put.keeps.sources a.source_id h) written.2.articles cited)
          (λ id h. has_id-Grows id db.articles written.2.articles _ grows h))

-- The articles, each changed by a function that keeps its id.
module _ {F : Type 0} (f : Article F → Article F) (same : (a : Article F) → (f a).id ≡ a.id) where
  UniqueIds-map : (articles : List (Article F)) → UniqueIds articles → UniqueIds (map f articles)
  UniqueIds-map [] h = tt
  UniqueIds-map (a ∷ articles) h = (
    All-map (λ b. text_eq a.id b.id ≡ false) (λ b. text_eq (f a).id b.id ≡ false) f
        (λ b apart. rw (same a, same b) apart) articles h.0,
    UniqueIds-map articles h.1,
  )

  has_id-map :
      (id : Text) (articles : List (Article F)) → has_id id (map f articles) ≡ has_id id articles
  unfolding has_id any
  has_id-map id [] = refl
  has_id-map id (a ∷ articles) = rw (same a, has_id-map id articles) refl

module _ {F : Type 0} (fl : FloatOps F) (assigned : Dict Text (TitleClassification F)) where
  judged-source :
      (verdict : Option (TitleClassification F)) (a : Article F)
      → (judged fl verdict a).source_id ≡ a.source_id
  unfolding judged
  judged-source none a = refl
  judged-source (some verdict) a = refl

  judge-Follows :
      (db : Db F) (article_id : Text)
      → IsSound db
      → Follows db (record db { articles = judge fl assigned article_id db.articles })
  unfolding judge
  judge-Follows db article_id s =
      let f : Article F → Article F = λ a.
        if text_eq a.id article_id then judged fl (dict_get text_eq article_id assigned) a else a in
      let verdict = dict_get text_eq article_id assigned in
      let same : (a : Article F) → (f a).id ≡ a.id = λ a. ground (arith, judged-id fl verdict a) in
      let own : (a : Article F) → (f a).source_id ≡ a.source_id =
        λ a. ground (arith, judged-source verdict a) in
      Follows-articles db (map f db.articles) s (UniqueIds-map f same db.articles s.unique)
        (All-map _ _ f (λ a h. subst (λ id. HasSource id db) (sym (own a)) h) db.articles
          s.articles)
        (λ id h. has_id-map f same id db.articles ∙ h)

  judge_all-Follows :
      (ids : List Text) (db : Db F)
      → IsSound db
      → Follows db (record db { articles = judge_all fl assigned ids db.articles })
  unfolding judge_all
  judge_all-Follows [] db s = Follows-refl db s
  judge_all-Follows (id ∷ ids) db s =
      let first = judge-Follows db id s in
      Follows-trans db _ _ first (judge_all-Follows ids _ first.sound)

  pub judged-Follows :
      (db : Db F) (attempted_ids : List Text)
      → IsSound db
      → Follows db (persist_categories fl assigned attempted_ids db).0
  unfolding persist_categories
  judged-Follows db attempted_ids s = judge_all-Follows attempted_ids db s
