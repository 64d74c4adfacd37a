-- ===== src/Ingest/Urls/Canonical.antt =====
-- Tracking parameters and the order of parameters do not change an article's identity.
use mathlib.Core.List.{Permᴰ}
use mathlib.Core.Option
use news2reel.Base.{◌≡◌, filter, Text, ◌==◌, List}
use news2reel.Core.Text.{rstrip}
use news2reel.Ingest.Urls.{StdLib, UrlParts, is_kept, or_slash}

module _ (std : StdLib) where
  -- what is left of a query once the tracking parameters are gone
  abbrev pub kept_params : UrlParts → List (Text × Text)
  kept_params parts = filter (is_kept std) (std.parse_qsl parts.query)

  abbrev pub trimmed_path : UrlParts → Text
  trimmed_path parts = or_slash (rstrip (λ c. c == b'/') parts.path)

  -- The same page under two URLs, by their parts.
  pub record SamePage (parts parts' : UrlParts) : Type 0 where
    pub scheme : parts.scheme ≡ parts'.scheme
    pub netloc : parts.netloc ≡ parts'.netloc
    pub path : trimmed_path parts ≡ trimmed_path parts'
    pub params : Permᴰ (kept_params parts) (kept_params parts')
