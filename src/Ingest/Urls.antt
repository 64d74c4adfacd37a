-- ===== src/Ingest/Urls.antt =====
-- URLs, hashing and the standard library's text functions, as `app/services/ingest.py` and
-- `app/core/hashing.py` use them.
pub mod Canonical
use mathlib.Core.Option
use news2reel.Base.{
  ℕ, Bool, true, false, not, ◌||◌, Option, none, some, List, [], ◌∷◌, ◌++◌, map, if◌then◌else◌,
  ◌==◌, Text, codes, text_eq, text_lt, any, filter, sorted, lex,
}
use news2reel.Core.Text.{Chars, rstrip, lstrip, collapse}

pub record UrlParts : Type 0 where
  pub scheme : Text
  pub netloc : Text
  pub path : Text
  pub query : Text
  pub fragment : Text

-- `urllib.parse`, `hashlib`, `html`, `re` and the case methods of `str`.
pub record StdLib : Type 0 where
  -- `none` is a `ValueError`, for a host that is malformed; and its text
  pub urlsplit : Text → Option UrlParts
  pub urlsplit_error : Text → Text
  pub urlunsplit : UrlParts → Text
  -- `parse_qsl(query, keep_blank_values=True)`
  pub parse_qsl : Text → List (Text × Text)
  pub urlencode : List (Text × Text) → Text
  pub lower : Text → Text
  pub casefold : Text → Text
  -- `hashlib.sha256(text.encode("utf-8")).hexdigest()`
  pub sha256_hex : Text → Text
  -- `html.unescape`
  pub unescape : Text → Text
  -- whether a pattern, compiled with `re.I`, is found in a text
  pub search : Text → Text → Bool
  -- the number that `_MAX_AGE_RE` finds
  pub find_max_age : Text → Option ℕ

-- `text.split("/")`
abbrev pub join_first : ℕ → List Text → List Text
join_first c [] = (c ∷ []) ∷ []
join_first c (s ∷ rest) = (c ∷ s) ∷ rest

unfoldable pub split_slash : Text → List Text
split_slash [] = [] ∷ []
split_slash (c ∷ s) = let rest = split_slash s in if c == b'/' then [] ∷ rest else join_first c rest

abbrev pub is_truthy : Text → Bool
is_truthy [] = false
is_truthy (c ∷ s) = true

abbrev pub tracking_params : List Text
tracking_params =
    codes "utm_source"
    ∷ codes "utm_medium"
    ∷ codes "utm_campaign"
    ∷ codes "utm_term"
    ∷ codes "utm_content"
    ∷ codes "fbclid"
    ∷ codes "gclid"
    ∷ codes "cmpid"
    ∷ []

-- `or "/"`
abbrev pub or_slash : Text → Text
or_slash [] = codes "/"
or_slash (c ∷ s) = c ∷ s

-- `sorted` of pairs: the smaller pair comes first.
abbrev pub pair_before : Text × Text → Text × Text → Bool
pair_before a b = lex (text_lt a.0 b.0) (text_lt b.0 a.0) (text_lt a.1 b.1)

module _ (std : StdLib) where
  abbrev pub is_kept : Text × Text → Bool
  is_kept param = not (any (λ name. text_eq (std.lower param.0) name) tracking_params)

  -- `urlunsplit((scheme, netloc, path, urlencode(query), ""))`
  unfoldable pub rebuild : Text → Text → Text → List (Text × Text) → Text
  rebuild scheme netloc path query = std.urlunsplit (record {
    scheme = scheme;
    netloc = netloc;
    path = path;
    query = std.urlencode query;
    fragment = [];
  })

  unfoldable pub canonical_of : UrlParts → Text
  canonical_of parts =
      let query = sorted pair_before (filter is_kept (std.parse_qsl parts.query)) in
      let path = or_slash (rstrip (λ c. c == b'/') parts.path) in
      rebuild parts.scheme parts.netloc path query

  -- `none` is the exception of `urlsplit`.
  unfoldable pub canonicalize_url : Text → Option Text
  canonicalize_url url = Option.map canonical_of (std.urlsplit url)

  -- the segment behind the first segment `city`, if one follows
  unfoldable pub city_segment : List Text → Option Text
  city_segment [] = none
  city_segment (s ∷ []) = none
  city_segment (s ∷ t ∷ rest) =
      let later = city_segment (t ∷ rest) in
      if text_eq (std.casefold s) (codes "city") then some (std.casefold t) else later

  abbrev pub city_of_path : UrlParts → Option Text
  city_of_path parts = city_segment (filter is_truthy (split_slash parts.path))

  -- The outer `none` is the exception of `urlsplit`, the inner one a path without a city.
  unfoldable pub extract_city : Text → Option (Option Text)
  extract_city url = Option.map city_of_path (std.urlsplit url)

  unfoldable pub content_hash : Text → Text
  content_hash text = std.sha256_hex text

  module _ (u : Chars) where
    unfoldable pub normalize_title : Text → Text
    normalize_title title =
        std.casefold (rstrip u.is_space (lstrip u.is_space (collapse u false title)))

    -- 10 is the newline between the two.
    unfoldable pub article_key : Text → Text → Text
    article_key canonical_url title = content_hash (canonical_url ++ 10 ∷ normalize_title title)
