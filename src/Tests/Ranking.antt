-- ===== src/Tests/Ranking.antt =====
-- The score, the feed and the badge on concrete rows.
use mathlib.Core.List.{Permᴰ}
use native.Mathlib.Omega.{arith}
use news2reel.Base.{
  ℕ, ◌≡◌, refl, true, some, List, [], ◌∷◌, All, IsSorted, leb, Text, codes, text_eq,
}
use news2reel.Core.Enums.{impact, novelty, low, high}
use news2reel.Core.Config.{weights_sum_to_one}
use news2reel.Core.Text.{sanitize}
use news2reel.Core.Text.Safe.{IsSafe, sanitize-IsSafe}
use news2reel.Rank.{Levels, RankInputs, article_score}
use news2reel.Rank.Bounds.{AcceptedWeights, article_score-bounds}
use news2reel.Store.{StoryRow}
use news2reel.Stories.{rank_inputs}
use news2reel.Feed.{FeedQuery, feed_page}
use news2reel.Feed.Order.{reads_before, feed_page-eq_of_perm, feed_page-IsSorted}
use news2reel.Tests.Setting.{hundredths_ops, hundredths_laws, ascii, ascii_laws, defaults}
use news2reel.Tests.Rows.{flood, parade, elsewhere, row_of, deck}

defaults-AcceptedWeights : AcceptedWeights hundredths_ops defaults
unfolding weights_sum_to_one
defaults-AcceptedWeights = record { nonneg = λ d. ground arith; sum_checked = refl }

article_score-bounds_example :
    (leb 100 (article_score hundredths_ops defaults (rank_inputs flood)) ≡ true)
    × (leb (article_score hundredths_ops defaults (rank_inputs flood)) 1000 ≡ true)
unfolding rank_inputs
article_score-bounds_example =
    article_score-bounds hundredths_ops hundredths_laws defaults defaults-AcceptedWeights flood
      (rank_inputs flood) refl

abbrev rated_at : Levels → RankInputs
rated_at levels = record { published_at = 1; levels = some levels; article_id = codes "a" }

abbrev few : Levels
few = (impact, low) ∷ (novelty, low) ∷ []

abbrev more : Levels
more = (impact, low) ∷ (novelty, high) ∷ []

abbrev markup : Text
markup = codes "Five killed <b>in"

sanitize-IsSafe_example : All (IsSafe ascii) (sanitize ascii (some markup) (some 9))
sanitize-IsSafe_example = sanitize-IsSafe ascii ascii_laws (some markup) (some 9)

abbrev front_page : FeedQuery
front_page = record {
  category = [];
  city_id = some 1;
  by_engagement = true;
  limit = some 1;
  offset = 0;
}

abbrev rows : List (StoryRow ℕ)
rows = row_of flood ∷ row_of parade ∷ row_of elsewhere ∷ []

abbrev rows_swapped : List (StoryRow ℕ)
rows_swapped = row_of parade ∷ row_of flood ∷ row_of elsewhere ∷ []

feed_page-eq_of_perm_example :
    feed_page hundredths_ops ascii defaults front_page (deck ∷ []) rows
    ≡ feed_page hundredths_ops ascii defaults front_page (deck ∷ []) rows_swapped
unfolding text_eq
feed_page-eq_of_perm_example =
    feed_page-eq_of_perm hundredths_ops hundredths_laws ascii defaults front_page (deck ∷ [])
      (Permᴰ.swap refl refl) ((refl, (refl, tt)), ((refl, tt), (tt, tt)))

feed_page-IsSorted_example :
    IsSorted
      (reads_before hundredths_ops hundredths_laws ascii defaults true)
      (feed_page hundredths_ops ascii defaults front_page (deck ∷ []) rows)
feed_page-IsSorted_example =
    feed_page-IsSorted hundredths_ops hundredths_laws ascii defaults front_page (deck ∷ []) rows
