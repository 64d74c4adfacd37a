-- ===== src/Ingest/Entry.antt =====
-- One feed entry becomes an article row: `_extract_images`, `_normalize_entry`, and the flags of
-- `app/services/sensitivity.py`. What feedparser returns is a parameter, given here by what
-- `entry.get` yields; `entry.published_parsed` is given as the instant that `time.mktime` makes.
use mathlib.Core.Option
use news2reel.Base.{
  ℤ, ℕ, Bool, true, false, ◌&&◌, Option, none, some, List, [], ◌∷◌, ◌++◌, map, if◌then◌else◌, ◌==◌,
  Text, codes, text_eq, any, filter, filter_map, or_else, or_none, find?,
}
use news2reel.Core.Text.{Chars, strip_markup}
use news2reel.Model.{Instant, City, Source, Article, Image}
use news2reel.Ingest.Urls.{StdLib, canonicalize_url, extract_city, article_key, content_hash}

pub record Media : Type 0 where
  pub url : Option Text
  -- `_to_int` of the attribute
  pub width : Option ℤ
  pub height : Option ℤ

pub record Link : Type 0 where
  pub rel : Option Text
  -- `str(link.get("type", ""))`
  pub type : Text
  pub href : Option Text

pub record FeedEntry : Type 0 where
  pub link : Option Text
  pub title : Option Text
  pub summary : Option Text
  -- the terms of `tags`
  pub tags : List (Option Text)
  pub published : Option Instant
  pub media_content : List Media
  pub links : List Link

pub data SensitivityFlag : Type 0 where
  minor_named sexual_offence_detail sub_judice communal_framing : SensitivityFlag
  unverified_casualty_count named_unconvicted_accused : SensitivityFlag

abbrev pub sensitivity_flags : List SensitivityFlag
sensitivity_flags =
    minor_named ∷ sexual_offence_detail ∷ sub_judice ∷ communal_framing ∷ unverified_casualty_count
    ∷ named_unconvicted_accused ∷ []

abbrev pub flag_value : SensitivityFlag → Text
flag_value minor_named = codes "minor_named"
flag_value sexual_offence_detail = codes "sexual_offence_detail"
flag_value sub_judice = codes "sub_judice"
flag_value communal_framing = codes "communal_framing"
flag_value unverified_casualty_count = codes "unverified_casualty_count"
flag_value named_unconvicted_accused = codes "named_unconvicted_accused"

-- `_PATTERNS`, each by its text
abbrev pub patterns : SensitivityFlag → List Text
patterns minor_named =
    codes "\\b(minor|juvenile)\\b[\\s\\S]{0,40}\\b(named|identified as)\\b"
    ∷ codes "\\b(named|identified as)\\b[\\s\\S]{0,40}\\b(minor|juvenile)\\b"
    ∷ []
patterns sexual_offence_detail = codes "\\b(rape|sexual assault|molest(ed|ation)?)\\b" ∷ []
patterns sub_judice =
    codes "\\bsub[- ]judice\\b"
    ∷ codes "\\b(matter|case) is (currently )?(pending|before the court)\\b"
    ∷ []
patterns communal_framing =
    codes
      "\\b(hindu|muslim|christian|sikh|community)s?\\b[\\s\\S]{0,60}\\b(mob|clash(ed)?|riot(ed)?)\\b"
    ∷ []
patterns unverified_casualty_count =
    codes
      "\\b(unconfirmed|unverified|reportedly)\\b[\\s\\S]{0,40}\\b(dead|died|killed|casualt(y|ies))\\b"
    ∷ []
patterns named_unconvicted_accused =
    codes "\\baccused\\b[\\s\\S]{0,40}\\b(named as|identified as)\\b" ∷ []

-- `[flag.value for flag in rule_based_flags(text)]`; a set has no order, the enum's is taken
unfoldable pub rule_based_flags : StdLib → Text → List SensitivityFlag
rule_based_flags std text =
    filter (λ flag. any (λ p. std.search p text) (patterns flag)) sensitivity_flags

-- `if url:`
abbrev pub image_at : Option Text → Media → Option Image
image_at (some (c ∷ url)) m = some (record {
  url = some (c ∷ url);
  width = m.width;
  height = m.height;
  credit = none;
  caption = none;
})
image_at url m = none

abbrev pub image_of_media : Media → Option Image
image_of_media m = image_at m.url m

abbrev pub has_text : Option Text → Text → Bool
has_text none t = false
has_text (some s) t = text_eq s t

-- `s.startswith(prefix)`
unfoldable pub starts_with : Text → Text → Bool
starts_with [] s = true
starts_with (c ∷ p) [] = false
starts_with (c ∷ p) (d ∷ s) = (c == d) && starts_with p s

abbrev pub image_of_link : Link → Option Image
image_of_link l =
    if has_text l.rel (codes "enclosure") && starts_with (codes "image/") l.type
    then some (record { url = l.href; width = none; height = none; credit = none; caption = none })
    else none

unfoldable pub extract_images : FeedEntry → List Image
extract_images entry =
    filter_map image_of_media entry.media_content ++ filter_map image_of_link entry.links

-- `city_slug_map(db).get(slug)`
unfoldable pub city_of_slug : List City → Text → Option ℕ
city_of_slug cities slug = Option.map (λ c. c.id) (find? (λ c. text_eq c.slug slug) cities)

-- `tags[0].get("term") if tags else None`
abbrev pub first_term : List (Option Text) → Option Text
first_term [] = none
first_term (t ∷ rest) = t

-- What becomes of an entry: an exception with its text, or what `_normalize_entry` returns.
pub data Normalized (F : Type 0) : Type 0 where
  raises : Text → Normalized F
  normal : Option (Article F) → Normalized F

module _ (std : StdLib) (u : Chars) where
  -- The stored summary of a raw one: NULL where there is no prose.
  abbrev pub summary_of : Option Text → Option Text
  summary_of none = none
  summary_of (some []) = none
  summary_of (some (c ∷ s)) = or_none (strip_markup u (some (std.unescape (c ∷ s))))

  module _ {F : Type 0} (source : Source) (cities : List City) (db_now : Instant) where
    -- The row, for an entry that has a link and a title. `fetched_at` and the columns behind it
    -- take their defaults at the insert.
    unfoldable pub article_of : FeedEntry → Text → Text → Option Text → Text → ℕ → Article F
    article_of entry link canonical parsed_city raw_title position =
        let title = std.unescape raw_title in
        let summary = summary_of entry.summary in
        let text = title ++ b' ' ∷ or_else summary [] in
        record {
          id = article_key std u canonical title;
          source_id = source.id;
          url = link;
          canonical_url = canonical;
          title = title;
          summary = summary;
          published_at = entry.published;
          fetched_at = db_now;
          language = source.language;
          feed_position = some position;
          images = extract_images entry;
          content_hash = content_hash std text;
          city = parsed_city;
          city_id = elim parsed_city [ none ↦ none | some slug ↦ city_of_slug cities slug ];
          category = none;
          is_city_relevant = none;
          relevance_confidence = none;
          content_type = none;
          emotional_salience = none;
          audience_breadth = none;
          impact = none;
          novelty = none;
          human_interest = none;
          timeliness = none;
          visual_potential = none;
          category_attempts = 0;
          sensitivity_flags = map flag_value (rule_based_flags std text);
          raw = record {
            title = raw_title;
            link = link;
            summary = entry.summary;
            category_raw = first_term entry.tags;
          };
        }

    -- The two calls that may raise, on the link.
    abbrev pub with_urls :
        FeedEntry → Text → Text → ℕ → Option Text → Option (Option Text) → Normalized F
    with_urls entry link title position (some canonical) (some parsed_city) =
        normal (some (article_of entry link canonical parsed_city title position))
    with_urls entry link title position (some canonical) none = raises (std.urlsplit_error link)
    with_urls entry link title position none parsed_city = raises (std.urlsplit_error link)

    -- `if not link or not raw_title: return None`
    abbrev pub with_both : FeedEntry → Option Text → Option Text → ℕ → Normalized F
    with_both entry (some (a ∷ link)) (some (b ∷ title)) position =
        with_urls entry (a ∷ link) (b ∷ title) position (canonicalize_url std (a ∷ link))
          (extract_city std (a ∷ link))
    with_both entry link title position = normal none

    unfoldable pub normalize_entry : FeedEntry → ℕ → Normalized F
    normalize_entry entry position = with_both entry entry.link entry.title position
