-- ===== src/Ingest/Persist/Ids.antt =====
-- What an entry of a feed stands for: its article's id, or the exception of its link.
use mathlib.Core.Path.{subst}
use mathlib.Core.Option
use news2reel.Base.{
  ℕ, ◌≡◌, refl, true, Option-cases, Option, none, some, List, [], ◌∷◌, arith, Text, text_eq,
  text_eq_iff, any, All, Bool-cases, inl, inr,
}
use news2reel.Model.{Article, Source, City, Instant}
use news2reel.Core.Text.{Chars}
use news2reel.Ingest.Urls.{StdLib, canonicalize_url, extract_city, article_key}
use news2reel.Ingest.Entry.{
  FeedEntry, Normalized, raises, normal, normalize_entry, with_both, article_of,
}
use news2reel.Ingest.Persist.{Ledger, has_id, SourceIngestOutcome, returned}

-- The id that an entry stands for.
abbrev pub id_of_parts : StdLib → Chars → Option Text → Option Text → Option Text
id_of_parts std u (some (a ∷ link)) (some (b ∷ title)) =
    Option.map (λ canonical. article_key std u canonical (std.unescape (b ∷ title)))
      (canonicalize_url std (a ∷ link))
id_of_parts std u link title = none

abbrev pub entry_id : StdLib → Chars → FeedEntry → Option Text
entry_id std u entry = id_of_parts std u entry.link entry.title

-- The exception of an entry, whoever carries it; and that of the first entry that has one.
abbrev pub error_of : {F : Type 0} → Normalized F → Option Text
error_of (raises exc) = some exc
error_of (normal article) = none

abbrev pub split_error : StdLib → Text → Option Text
split_error std link = elim (canonicalize_url std link) [
  | none ↦ some (std.urlsplit_error link)
  | some canonical ↦ none
]

abbrev pub error_of_parts : StdLib → Option Text → Option Text → Option Text
error_of_parts std (some (a ∷ link)) (some (b ∷ title)) = split_error std (a ∷ link)
error_of_parts std link title = none

abbrev pub entry_error : StdLib → FeedEntry → Option Text
entry_error std entry = error_of_parts std entry.link entry.title

abbrev pub or_else_error : Option Text → Option Text → Option Text
or_else_error none later = later
or_else_error (some exc) later = some exc

abbrev pub first_error : StdLib → List FeedEntry → Option Text
first_error std [] = none
first_error std (entry ∷ entries) = or_else_error (entry_error std entry) (first_error std entries)

pub returned-inj :
    {F : Type 0} {w w' : SourceIngestOutcome × Source × Ledger F}
    → returned w ≡ returned w'
    → w ≡ w'
returned-inj e = cc

module _ {F : Type 0} where
  -- every id met so far is stored
  abbrev pub SeenStored : Ledger F → Type 0
  SeenStored ledger = All (λ id. has_id id ledger.articles ≡ true) ledger.seen

  pub has_id_of-seen :
      (id : Text) (table : List (Article F)) (seen : List Text)
      → All (λ s. has_id s table ≡ true) seen
      → any (λ s. text_eq s id) seen ≡ true
      → has_id id table ≡ true
  unfolding any
  has_id_of-seen id table [] h k = cc
  has_id_of-seen id table (s ∷ seen) h k = elim (Bool-cases (text_eq s id)) [
    | inl e ↦ subst (λ i. has_id i table ≡ true) ((text_eq_iff s id).0 e) h.0
    | inr f ↦ has_id_of-seen id table seen h.1 (ground arith)
  ]

  pub has_id_of-rows :
      (id : Text) (table rows : List (Article F))
      → All (λ r. has_id r.id table ≡ true) rows
      → has_id id rows ≡ true
      → has_id id table ≡ true
  unfolding has_id any
  has_id_of-rows id table [] h k = cc
  has_id_of-rows id table (r ∷ rows) h k = elim (Bool-cases (text_eq r.id id)) [
    | inl e ↦ subst (λ i. has_id i table ≡ true) ((text_eq_iff r.id id).0 e) h.0
    | inr f ↦ has_id_of-rows id table rows h.1 (ground arith)
  ]

  module _ (std : StdLib) (u : Chars) (source : Source) (cities : List City)
      (db_now : Instant) where
    parts-id :
        (entry : FeedEntry) (link title : Option Text) (position : ℕ) (a : Article F)
        → with_both std u source cities db_now entry link title position ≡ normal (some a)
        → id_of_parts std u link title ≡ some a.id
    unfolding canonicalize_url extract_city article_of
    parts-id entry (some (c ∷ link)) (some (d ∷ title)) position a h =
        elim (Option-cases (std.urlsplit (c ∷ link))) [
          | inl e ↦ absurd (ground (arith, e))
          | inr (parts, e) ↦ rw e (ground (arith, e))
        ]
    parts-id entry none title position a h = absurd (ground arith)
    parts-id entry (some []) title position a h = absurd (ground arith)
    parts-id entry (some (c ∷ link)) none position a h = absurd (ground arith)
    parts-id entry (some (c ∷ link)) (some []) position a h = absurd (ground arith)

    parts-none :
        (entry : FeedEntry) (link title : Option Text) (position : ℕ)
        → with_both std u {F = F} source cities db_now entry link title position ≡ normal none
        → id_of_parts std u link title ≡ none
    unfolding canonicalize_url extract_city
    parts-none entry (some (c ∷ link)) (some (d ∷ title)) position h =
        elim (Option-cases (std.urlsplit (c ∷ link))) [
          | inl e ↦ absurd (ground (arith, e))
          | inr (parts, e) ↦ absurd (ground (arith, e))
        ]
    parts-none entry none title position h = refl
    parts-none entry (some []) title position h = refl
    parts-none entry (some (c ∷ link)) none position h = refl
    parts-none entry (some (c ∷ link)) (some []) position h = refl

    pub normalize_entry-id :
        (entry : FeedEntry) (position : ℕ) (a : Article F)
        → normalize_entry std u source cities db_now entry position ≡ normal (some a)
        → entry_id std u entry ≡ some a.id
    unfolding normalize_entry
    normalize_entry-id entry position a h = parts-id entry entry.link entry.title position a h

    pub normalize_entry-none :
        (entry : FeedEntry) (position : ℕ)
        → normalize_entry std u {F = F} source cities db_now entry position ≡ normal none
        → entry_id std u entry ≡ none
    unfolding normalize_entry
    normalize_entry-none entry position h = parts-none entry entry.link entry.title position h

module _ (F : Type 0) (std : StdLib) (u : Chars) where
  module _ (source : Source) (cities : List City) (db_now : Instant) where
    parts-error :
        (entry : FeedEntry) (link title : Option Text) (position : ℕ)
        → error_of (with_both std u {F = F} source cities db_now entry link title position)
          ≡ error_of_parts std link title
    unfolding canonicalize_url extract_city
    parts-error entry (some (c ∷ link)) (some (d ∷ title)) position =
        elim (Option-cases (std.urlsplit (c ∷ link))) [
          | inl e ↦ ground (arith, e)
          | inr (parts, e) ↦ ground (arith, e)
        ]
    parts-error entry none title position = refl
    parts-error entry (some []) title position = refl
    parts-error entry (some (c ∷ link)) none position = refl
    parts-error entry (some (c ∷ link)) (some []) position = refl

    pub normalize_entry-error :
        (entry : FeedEntry) (position : ℕ)
        → error_of (normalize_entry std u {F = F} source cities db_now entry position)
          ≡ entry_error std entry
    unfolding normalize_entry
    normalize_entry-error entry position = parts-error entry entry.link entry.title position
