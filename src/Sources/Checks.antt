-- ===== src/Sources/Checks.antt =====
-- A check by hand and the schedule.
use mathlib.Core.Option
use mathlib.Core.Path.{ap₂}
use news2reel.Base.{
  ℕ, length, codes, ◌++◌, find?-passes, ◌≡◌, refl, ap, sym, ◌∙◌, inl, inr, Bool, true, false, not,
  ◌&&◌, Option, none, some, List, [], ◌∷◌, map, if◌then◌else◌, ◌==◌, Text, filter, find?, find?-map,
  is_none, Bool-cases, Option-cases, arith,
}
use news2reel.Core.Config.{Settings}
use news2reel.Model.{Instant, Source}
use news2reel.Store.{Db, get_source_row}
use news2reel.Schedule.{
  target_of, is_polled, is_due, effective_interval_seconds, base_interval,
  build_conditional_headers, due_sources, load_due_targets,
}
use news2reel.Ingest.Persist.{Parsed}
use news2reel.Net.{
  Web, Outcome, fetched, failed, unsafe_url, too_large, transport, unexpected, fetch_url_async,
}
use news2reel.Sources.{
  SourceCheckResult, CheckReply, checked, not_found, crashed, refused, has_entries, edit_source,
  check_failed, check_passed, reply_to, check_source,
}

-- A list whose elements look the same, through a filter and a map.
filter-map_alike :
    {A B : Type 0} (p : A → Bool) (f : A → B) (g : A → A)
    → ((a : A) → p (g a) ≡ p a)
    → ((a : A) → f (g a) ≡ f a)
    → (xs : List A) → map f (filter p (map g xs)) ≡ map f (filter p xs)
unfolding filter
filter-map_alike p f g same alike [] = refl
filter-map_alike p f g same alike (x ∷ xs) = rw (same x) (elim (Bool-cases (p x)) [
  | inl e ↦ rw e (ap₂ ◌∷◌ (alike x) (filter-map_alike p f g same alike xs))
  | inr e ↦ rw e (filter-map_alike p f g same alike xs)
])

filter-filter :
    {A : Type 0} (p q : A → Bool) (xs : List A)
    → filter q (filter p xs) ≡ filter (λ x. p x && q x) xs
unfolding filter
filter-filter p q [] = refl
filter-filter p q (x ∷ xs) = elim (Bool-cases (p x)) [
  | inl e ↦ rw e (elim (Bool-cases (q x)) [
    | inl f ↦ rw f (ap (λ r. x ∷ r) (filter-filter p q xs))
    | inr f ↦ rw f (filter-filter p q xs)
  ])
  | inr e ↦ rw e (filter-filter p q xs)
]

module _ {F : Type 0} where
  -- what the scheduler reads of a row
  abbrev polls : Instant → Settings F → Source → Bool
  polls now settings s = is_polled s && is_due s now settings

  targets_lem :
      (db : Db F) (now : Instant) (settings : Settings F)
      → load_due_targets db now settings ≡ map target_of (filter (polls now settings) db.sources)
  unfolding load_due_targets due_sources
  targets_lem db now settings =
      ap (map target_of) (filter-filter is_polled (λ s. is_due s now settings) db.sources)

-- An edit that the scheduler does not see.
abbrev Unseen : (F : Type 0) → (Source → Source) → Type 0
Unseen F f =
    (now : Instant) (settings : Settings F) (s : Source)
    → (polls now settings (f s) ≡ polls now settings s) × (target_of (f s) ≡ target_of s)

check_failed-Unseen :
    (F : Type 0) (error : Text) (now : Instant) → Unseen F (check_failed error now)
unfolding is_due effective_interval_seconds base_interval target_of build_conditional_headers
check_failed-Unseen F error now later settings s = (refl, refl)

check_passed-Unseen : (F : Type 0) (now : Instant) → Unseen F (check_passed now)
unfolding is_due effective_interval_seconds base_interval target_of build_conditional_headers
check_passed-Unseen F now later settings s = (refl, refl)

edited-Unseen :
    (F : Type 0) (source_id : ℕ) (f : Source → Source)
    → Unseen F f
    → Unseen F (λ s. if s.id == source_id then f s else s)
edited-Unseen F source_id f unseen now settings s = elim (Bool-cases (s.id == source_id)) [
  | inl e ↦ rw e (unseen now settings s)
  | inr e ↦ rw e (refl, refl)
]

module _ {F : Type 0} where
  targets-edit :
      (db : Db F) (source_id : ℕ) (f : Source → Source) (now : Instant) (settings : Settings F)
      → Unseen F f
      → load_due_targets (record db { sources = edit_source source_id f db.sources }) now settings
        ≡ load_due_targets db now settings
  targets-edit db source_id f now settings unseen =
      let g : Source → Source = λ s. if s.id == source_id then f s else s in
      let same = edited-Unseen F source_id f unseen now settings in
      targets_lem (record db { sources = edit_source source_id f db.sources }) now settings
      ∙ filter-map_alike (polls now settings) target_of g (λ s. (same s).0) (λ s. (same s).1)
          db.sources
      ∙ sym (targets_lem db now settings)

module _ {F : Type 0} (web : Web) (settings : Settings F) (db : Db F) (source_id : ℕ)
    (now : Instant) where
  -- What a reply says, the row records, and the schedule is as it was; a crash is an exception of the
  -- fetch, of a source that is there.
  abbrev pub Told : CheckReply F → Type 0
  Told (checked r db') =
      ((later : Instant) (settings : Settings F)
        → load_due_targets db' later settings ≡ load_due_targets db later settings)
      × ((s : Source) × (get_source_row db' source_id ≡ some s)
          × (s.last_error ≡ r.error)
          × (r.ok ≡ is_none r.error))
      × (db'.articles ≡ db.articles)
  Told not_found = get_source_row db source_id ≡ none
  Told (crashed e) =
      (s : Source) × (get_source_row db source_id ≡ some s)
      × ((fetch_url_async web settings s.feed_url).outcome ≡ failed (unexpected e))

  edited-Told :
      (source : Source) (f : Source → Source) (r : SourceCheckResult)
      → get_source_row db source_id ≡ some source
      → Unseen F f
      → ((s : Source) → (f s).id ≡ s.id)
      → (f source).last_error ≡ r.error
      → r.ok ≡ is_none r.error
      → Told (checked r (record db { sources = edit_source source_id f db.sources }))
  unfolding get_source_row
  edited-Told source f r found unseen keeps error ok = (
    λ later settings. targets-edit db source_id f later settings unseen,
    (f source, there, error, ok),
    refl,
  )
    where
      kept :
          (s : Source)
          → ((if s.id == source_id then f s else s).id == source_id) ≡ (s.id == source_id)
      kept s = elim (Bool-cases (s.id == source_id)) [
        | inl e ↦ rw e (ap (λ n. n == source_id) (keeps s) ∙ e)
        | inr e ↦ rw e e
      ]

      there : find? (λ s. s.id == source_id) (edit_source source_id f db.sources) ≡ some (f source)
      there =
          find?-map (λ s. s.id == source_id) (λ s. if s.id == source_id then f s else s) kept
            db.sources
          ∙ ap (Option.map (λ s. if s.id == source_id then f s else s)) found
          ∙ rw (find?-passes (λ s. s.id == source_id) db.sources source found) refl

  failed-Told :
      (source : Source) (status_code : Option ℕ) (error : Text)
      → get_source_row db source_id ≡ some source
      → Told (refused db source_id now status_code error)
  failed-Told source status_code error found =
      edited-Told source (check_failed error now)
        (record { ok = false; status_code = status_code; entry_count = none; error = some error })
        found (check_failed-Unseen F error now) (λ s. refl) refl refl

  reply_to-Told :
      (parse : List ℕ → Parsed) (source : Source) (outcome : Outcome)
      → get_source_row db source_id ≡ some source
      → (fetch_url_async web settings source.feed_url).outcome ≡ outcome
      → Told (reply_to db source_id now parse outcome)
  reply_to-Told parse source (failed (unsafe_url e)) found came = failed-Told source none e found
  reply_to-Told parse source (failed (too_large e)) found came = failed-Told source none e found
  reply_to-Told parse source (failed (transport e)) found came = failed-Told source none e found
  reply_to-Told parse source (failed (unexpected e)) found came = (source, found, came)
  reply_to-Told parse source (fetched r) found came =
      let parsed = parse r.content in
      elim (Bool-cases (parsed.bozo && not (has_entries parsed.entries))) [
        | inl junk ↦ rw junk (
            failed-Told source (some r.status_code)
              (codes "response did not parse as a feed: " ++ parsed.bozo_exception) found)
        | inr feed ↦ rw feed (
            edited-Told source (check_passed now)
              (record {
                ok = true;
                status_code = some r.status_code;
                entry_count = some (length parsed.entries);
                error = none;
              })
              found (check_passed-Unseen F now) (λ s. refl) refl refl)
      ]

  -- A check by hand leaves the schedule alone: whatever the network and the parser answer, the
  -- targets that are due, at any time and under any settings, are afterwards those that were due
  -- before. The row then records the error that the reply names, or none when the reply is ok, and
  -- no article changes. A 404 is given exactly for a source that is not there, and the exception
  -- that is not translated is one of the fetch.
  pub check_source-Told :
      (parse : List ℕ → Parsed)
      → Told (check_source web parse settings db source_id now)
        × (get_source_row db source_id ≡ none
            → check_source web parse settings db source_id now ≡ not_found)
  unfolding check_source
  check_source-Told parse = elim (Option-cases (get_source_row db source_id)) [
    | inl e ↦ (rw (e, check_source) e, λ gone. rw (gone, check_source) refl)
    | inr (source, found) ↦ (
      rw (found, check_source)
          (reply_to-Told parse source (fetch_url_async web settings source.feed_url).outcome found
            refl),
      λ gone. absurd (ground arith),
    )
  ]
