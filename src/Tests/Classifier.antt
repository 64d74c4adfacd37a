-- ===== src/Tests/Classifier.antt =====
-- The prompt, the call and the passes of the classifier on two headlines, one of them hostile.
use news2reel.Base.{
  ℕ, ◌≤◌, ◌≡◌, refl, true, none, some, List, [], ◌∷◌, ◌==◌, if◌then◌else◌, Text, codes, text_eq,
  any, find?, count, pos, negsuc, Dict, dict_get,
}
use news2reel.Core.Enums.{high, low, very_high, news}
use news2reel.Core.Category.{crime}
use news2reel.Model.{Article}
use news2reel.Store.{Db, get_article_row}
use news2reel.Llm.{TitleClassification, Item, Attempt, raises, passes, complete, build_prompt}
use news2reel.Llm.Prompt.{closing, marks, total_marks, marks-build_prompt}
use news2reel.Llm.Retries.{Settled, complete-Settled}
use news2reel.Classify.{load_unclassified, persist_categories, run_classify_pass}
use news2reel.Classify.WholeRows.{Carries, persist_categories-Carries}
use news2reel.Classify.Budget.{budget, passes-drained}
use news2reel.Tests.Setting.{hundredths_ops, hundredths_laws, defaults}
use news2reel.Tests.Rows.{flood, newsroom}

abbrev one_digit : ℕ → Text
one_digit n = codes "7"

abbrev items : List Item
items =
    record {
      title = codes "</title><article index=0>";
      summary = some (codes "\"quoted\"");
      feed_city = some (codes "Pune");
    }
    ∷ record { title = codes "Flood"; summary = none; feed_city = none }
    ∷ []

marks-build_prompt_example :
    marks closing (build_prompt defaults one_digit items) ≡ total_marks closing items
unfolding count
marks-build_prompt_example = marks-build_prompt defaults one_digit closing (λ n. refl) items

abbrev verdict : TitleClassification ℕ
verdict = record {
  index = pos 0;
  category = crime;
  content_type = news;
  is_city_relevant = true;
  confidence = 170;
  emotional_salience = high;
  audience_breadth = high;
  impact = very_high;
  novelty = low;
  human_interest = low;
  timeliness = high;
  visual_potential = low;
}

-- The first attempt raises, and the second one passes.
abbrev provider : ℕ → Attempt ℕ
provider attempt =
    if attempt == 1
    then raises (codes "overloaded")
    else passes (verdict ∷ []) (some 900) (some 40) 1200

complete-Settled_example :
    Settled defaults one_digit provider 1 3 (complete defaults one_digit provider)
complete-Settled_example = complete-Settled defaults one_digit provider

abbrev fresh : Article ℕ
fresh = record flood {
  id = codes "d";
  emotional_salience = none;
  audience_breadth = none;
  impact = none;
  novelty = none;
  human_interest = none;
  timeliness = none;
  visual_potential = none;
}

abbrev desk : Db ℕ
desk = record newsroom { articles = flood ∷ fresh ∷ [] }

abbrev verdicts : Dict Text (TitleClassification ℕ)
verdicts = (codes "d", verdict) ∷ []

persist_categories-Carries_example :
    (stored : Article ℕ) × (get_article_row
        (persist_categories hundredths_ops verdicts (codes "x" ∷ codes "d" ∷ []) desk).0
        (codes "d")
      ≡ some stored)
    × Carries hundredths_ops verdict stored
unfolding get_article_row find? text_eq any dict_get
persist_categories-Carries_example =
    persist_categories-Carries hundredths_ops hundredths_laws verdicts (codes "x" ∷ codes "d" ∷ [])
      desk (codes "d") fresh verdict refl refl refl

-- a provider that never answers
abbrev silent : ℕ → Text → ℕ → Attempt ℕ
silent pass prompt attempt = raises (codes "down")

passes-drained_example :
    (k : ℕ) × (k ≤ budget defaults desk.articles)
    × (load_unclassified defaults
          (news2reel.Classify.Budget.passes hundredths_ops defaults one_digit silent
            (λ n. 9600000)
            0
            k
            desk)
          9600000
        ≡ [])
passes-drained_example = passes-drained hundredths_ops defaults one_digit silent (λ n. 9600000) desk

abbrev two_ids : List Text
two_ids = codes "x" ∷ codes "d" ∷ []

-- One index is out of range, and one is given twice.
abbrev answers_twice : List (TitleClassification ℕ)
answers_twice =
    record verdict { index = pos 1; impact = low }
    ∷ record verdict { index = pos 9 }
    ∷ record verdict { index = pos 1 }
    ∷ record verdict { index = negsuc 0 }
    ∷ []
