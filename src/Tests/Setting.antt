-- ===== src/Tests/Setting.antt =====
-- Concrete parameters: floats as hundredths, ASCII characters, and plain stand-ins for the
-- standard library's functions.
use native.Mathlib.Nat.{mul-le-mul_right, mul-le-mul_left}
use news2reel.Base.{
  Bool, none, ℕ, ◌+◌, ◌-◌, ◌*◌, ◌/◌, ◌≤◌, ◌≡◌, refl, true, false, ◌&&◌, ◌||◌, some, List, [], ◌∷◌,
  ◌++◌, if◌then◌else◌, arith, ◌==◌, leb, Text, map, leb→le, codes,
}
use news2reel.Core.Enums.{news, oddity, explainer}
use news2reel.Core.Floats.{FloatOps, FloatLaws, LeAll}
use news2reel.Core.Config.{Settings}
use news2reel.Core.Text.{Chars}
use news2reel.Core.Text.Safe.{CharsLaws}
use news2reel.Ingest.Urls.{StdLib, join_first}

abbrev pub add_all : List ℕ → ℕ
add_all [] = 0
add_all (x ∷ xs) = x + add_all xs

-- Fixed-point numbers: a value is its hundredths, a difference is its size, `1e-9` is below the
-- resolution.
abbrev pub hundredths_ops : FloatOps ℕ
hundredths_ops = record {
  le = leb;
  add = λ a b. a + b;
  mul = λ a b. (a * b) / 100;
  sub = λ a b. (a - b) + (b - a);
  abs = λ a. a;
  nano = 0;
  sum = add_all;
  round1 = λ a. ((a + 5) / 10) * 10;
  lit = λ n. n;
}

div_mono : (a b : ℕ) → a ≤ b → a / 100 ≤ b / 100
div_mono a b h = omega arith

mul_div : (a : ℕ) → (a * 100) / 100 ≡ a
mul_div a = omega arith

round_mono : (a b : ℕ) → a ≤ b → ((a + 5) / 10) * 10 ≤ ((b + 5) / 10) * 10
round_mono a b h = omega arith

le→leb : (a b : ℕ) → a ≤ b → leb a b ≡ true
le→leb a b h = ground arith

add_all_mono : (xs ys : List ℕ) → LeAll hundredths_ops xs ys → add_all xs ≤ add_all ys
add_all_mono [] [] h = omega arith
add_all_mono [] (y ∷ ys) h = absurd h
add_all_mono (x ∷ xs) [] h = absurd h
add_all_mono (x ∷ xs) (y ∷ ys) h = ground (arith, add_all_mono xs ys h.1)

mul_mono_right : (a b c : ℕ) → a ≤ b → (a * c) / 100 ≤ (b * c) / 100
mul_mono_right a b c h = div_mono (a * c) (b * c) (mul-le-mul_right c h)

mul_mono_left : (a b c : ℕ) → b ≤ c → (a * b) / 100 ≤ (a * c) / 100
mul_mono_left a b c h = div_mono (a * b) (a * c) (mul-le-mul_left a h)

near_ten :
    (t : ℕ)
    → leb ((t - 100) + (100 - t)) 0 ≡ true
    → leb (((100 + (t * 900) / 100 + 5) / 10) * 10) 1000 ≡ true
near_ten t h = let one : t ≡ 100 = ground arith in rw one refl

pub hundredths_laws : FloatLaws hundredths_ops
hundredths_laws = record {
  le_refl = λ a. ground arith;
  le_trans = λ a b c h k. ground arith;
  le_total = λ a b h. ground arith;
  add_mono = λ a b c h. ground arith;
  add_nonneg = λ a b h. ground arith;
  sub_nonneg = λ a b h. ground arith;
  mul_nonneg = λ a b h k. ground arith;
  mul_mono_left = λ a b c h k. le→leb _ _ (mul_mono_left a b c (leb→le b c k));
  mul_mono_right = λ a b c h k. le→leb _ _ (mul_mono_right a b c (leb→le a b k));
  mul_one = mul_div;
  sum_mono = λ xs ys h. le→leb _ _ (add_all_mono xs ys h);
  sum_nonneg = λ xs h. ground arith;
  lit_mono = λ m n h. ground arith;
  round1_mono = λ a b h. le→leb _ _ (round_mono a b (leb→le a b h));
  round1_one = refl;
  round1_near_ten = near_ten;
}

abbrev pub ascii : Chars
ascii = record {
  is_space = λ c. (c == 32) || (c == 9) || (c == 10) || (c == 13);
  is_control = λ c. leb c 31 || (c == 127);
}

pub ascii_laws : CharsLaws ascii
ascii_laws = record {
  space_is_space = refl;
  space_not-control = refl;
  left_quote = refl;
  right_quote = refl;
  ellipsis = refl;
}

-- the defaults, with a page of at most three cards and a small cap
abbrev pub defaults : Settings ℕ
defaults = record {
  access_token_minutes = 15;
  refresh_token_days = 7;
  cookie_secure = true;
  fetch_max_response_bytes = 5000000;
  fetch_max_redirects = 3;
  scheduler_max_backoff_seconds = 21600;
  classify_batch_size = 20;
  classify_max_attempts = 3;
  classify_title_max_chars = 200;
  classify_summary_max_chars = 400;
  classify_confidence_floor = 50;
  discoverable_content_types = news ∷ oddity ∷ explainer ∷ [];
  story_window_hours = 24;
  rank_weight_emotional_salience = 20;
  rank_weight_audience_breadth = 20;
  rank_weight_impact = 20;
  rank_weight_novelty = 15;
  rank_weight_human_interest = 10;
  rank_weight_timeliness = 10;
  rank_weight_visual_potential = 5;
  story_summary_max_chars = 220;
  story_default_limit = 2;
  story_max_limit = 3;
  max_sources_per_city = 2;
  carousel_max_stories = 8;
  slide_text_max_chars = 120;
  zip_max_bytes_per_image = 2000000;
  zip_max_total_bytes = 20000000;
  jwt_secret = codes "secret";
  llm_api_key = some (codes "key");
  llm_model = [];
  llm_reasoning_effort = codes "medium";
  llm_max_attempts = 3;
}

-- the text before the first `c`, and the text behind it
abbrev pub cut_at : ℕ → Text → Text × Text
cut_at c [] = ([], [])
cut_at c (d ∷ s) =
    let (before, behind) = cut_at c s in if d == c then ([], s) else (d ∷ before, behind)

abbrev pub split_on : ℕ → Text → List Text
split_on c [] = [] ∷ []
split_on c (d ∷ s) = let rest = split_on c s in if d == c then [] ∷ rest else join_first d rest

abbrev pub join_params : List (Text × Text) → Text
join_params [] = []
join_params ((k, v) ∷ rest) = k ++ b'=' ∷ v ++ b'&' ∷ join_params rest

abbrev pub lower_letter : ℕ → ℕ
lower_letter c = if leb 65 c && leb c 90 then c + 32 else c

-- as `urlsplit` refuses a bracket that is not closed
abbrev pub url_broken : Text → Bool
url_broken [] = false
url_broken (c ∷ s) = c == b'['

-- A URL is its path, its query and its fragment; a digest is the text itself.
abbrev pub plain : StdLib
plain = record {
  urlsplit = λ url.
      let (rest, fragment) = cut_at b'#' url in
      let (path, query) = cut_at b'?' rest in
      if url_broken path
      then none
      else some
          (record { scheme = []; netloc = []; path = path; query = query; fragment = fragment });
  urlsplit_error = λ url. codes "Invalid IPv6 URL";
  urlunsplit = λ parts. parts.path ++ b'?' ∷ parts.query;
  parse_qsl = λ query. map (cut_at b'=') (split_on b'&' query);
  urlencode = join_params;
  lower = map lower_letter;
  casefold = map lower_letter;
  sha256_hex = λ text. text;
  unescape = λ text. text;
  search = λ pattern text. false;
  find_max_age = λ text. some 600;
}
