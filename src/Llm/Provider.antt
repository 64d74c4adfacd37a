-- ===== src/Llm/Provider.antt =====
-- `OpenAIClient` of `app/services/llm.py`, and the body of the `try` of `_complete`. The SDK's
-- `responses.create` and `json.loads` with pydantic's validation are parameters.
use news2reel.Base.{ℕ, Bool, true, Option, none, some, List, [], ◌∷◌, ◌++◌, Text, codes}
use news2reel.Core.Config.{Settings}
use news2reel.Llm.{TitleClassification, Attempt, raises, passes}
use news2reel.Llm.Schema.{Json}

pub record LlmResponse : Type 0 where
  pub text : Text
  pub prompt_tokens : Option ℕ
  pub completion_tokens : Option ℕ

pub record Message : Type 0 where
  pub role : Text
  pub content : Text

-- `text.format` of a request
pub record Format : Type 0 where
  pub kind : Text
  pub name : Text
  pub schema : Json
  pub strict : Bool

-- What is sent; `reasoning` is the effort, where one is sent.
pub record Call : Type 0 where
  pub model : Text
  pub reasoning : Option Text
  pub input : List Message
  pub format : Format

-- What the SDK returns: the items of the output, with their contents where they have any, each
-- with its text where it has one; and the usage.
pub record SdkResponse : Type 0 where
  pub output : List (Option (List (Option Text)))
  pub input_tokens : ℕ
  pub output_tokens : ℕ

pub data Sdk : Type 0 where
  failed : Text → Sdk
  answered : SdkResponse → Sdk

-- `json.loads` and `model_validate`: an error, or the results of the batch
pub data Loaded (F : Type 0) : Type 0 where
  invalid : Text → Loaded F
  valid : List (TitleClassification F) → Loaded F

-- `if self._reasoning_effort`
abbrev pub effort : Text → Option Text
effort [] = none
effort (c ∷ s) = some (c ∷ s)

unfoldable pub request_of : Text → Text → Text → Text → Json → Call
request_of reasoning_effort model system prompt schema = record {
  model = model;
  reasoning = effort reasoning_effort;
  input =
      record { role = codes "developer"; content = system }
      ∷ record { role = codes "user"; content = prompt }
      ∷ [];
  format = record {
    kind = codes "json_schema";
    name = codes "classification";
    schema = schema;
    strict = true;
  };
}

abbrev pub joined_parts : List (Option Text) → Text
joined_parts [] = []
joined_parts (some text ∷ parts) = text ++ joined_parts parts
joined_parts (none ∷ parts) = joined_parts parts

-- the `"".join(…)` over the texts of the output
unfoldable pub joined : List (Option (List (Option Text))) → Text
joined [] = []
joined (some parts ∷ items) = joined_parts parts ++ joined items
joined (none ∷ items) = joined items

unfoldable pub response_of : SdkResponse → LlmResponse
response_of answer = record {
  text = joined answer.output;
  prompt_tokens = some answer.input_tokens;
  completion_tokens = some answer.output_tokens;
}

module _ {F : Type 0} (settings : Settings F) (loads : Text → Loaded F) (latency_ms : ℕ) where
  abbrev pub judged_answer : LlmResponse → Loaded F → Attempt F
  judged_answer response (invalid error) = raises error
  judged_answer response (valid results) =
      passes results response.prompt_tokens response.completion_tokens latency_ms

  abbrev pub attempt_of : Sdk → Attempt F
  attempt_of (failed error) = raises error
  attempt_of (answered answer) =
      let response = response_of answer in judged_answer response (loads response.text)

-- What an attempt at a prompt comes to: `create` is the SDK on its n-th call, and `elapsed` the
-- milliseconds that it took.
unfoldable pub open_ai_client :
    {F : Type 0}
    → Settings F
    → (ℕ → Call → Sdk)
    → (Text → Loaded F)
    → (ℕ → ℕ)
    → (system : Text) (schema : Json) → Text
    → ℕ
    → Attempt F
open_ai_client settings create loads elapsed system schema prompt n =
    attempt_of settings loads (elapsed n)
      (create n (request_of settings.llm_reasoning_effort settings.llm_model system prompt schema))
