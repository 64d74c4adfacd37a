-- ===== src/Llm/Vetted.antt =====
-- Where the results of a call come from, when the client is `OpenAIClient`.
use news2reel.Base.{ℕ, ◌≡◌, refl, Option, List, arith, Text}
use news2reel.Core.Config.{Settings}
use news2reel.Llm.{TitleClassification, passes, Completion, complete}
use news2reel.Llm.Schema.{Json}
use news2reel.Llm.Provider.{
  SdkResponse, Sdk, failed, answered, Call, Loaded, invalid, valid, joined, request_of, attempt_of,
  response_of, judged_answer, open_ai_client,
}

module _ {F : Type 0} (settings : Settings F) (loads : Text → Loaded F) where
  judged :
      (latency : ℕ) (answer : SdkResponse) (loaded : Loaded F)
      (results : List (TitleClassification F)) (m n : Option ℕ) (latency_ms : ℕ)
      → judged_answer settings loads latency (response_of answer) loaded
        ≡ passes results m n latency_ms
      → loaded ≡ valid results
  judged latency answer (invalid error) results m n latency_ms e = absurd (ground arith)
  judged latency answer (valid found) results m n latency_ms e = ground arith

  -- an attempt that passes is an answer of the provider whose whole text was validated
  pub attempt_of-passes :
      (latency : ℕ) (sdk : Sdk) (results : List (TitleClassification F)) (m n : Option ℕ)
      (latency_ms : ℕ)
      → attempt_of settings loads latency sdk ≡ passes results m n latency_ms
      → (answer : SdkResponse) × (sdk ≡ answered answer)
        × (loads (joined answer.output) ≡ valid results)
  unfolding response_of
  attempt_of-passes latency (failed error) results m n latency_ms e = absurd (ground arith)
  attempt_of-passes latency (answered answer) results m n latency_ms e =
      (answer, refl, judged latency answer (loads (joined answer.output)) results m n latency_ms e)

module _ {F : Type 0} (settings : Settings F) (create : ℕ → Call → Sdk) (loads : Text → Loaded F)
    (elapsed : ℕ → ℕ) (system : Text) (schema : Json) (decimal : ℕ → Text) (prompt : Text) where
  abbrev pub sent_call : Call
  sent_call = request_of settings.llm_reasoning_effort settings.llm_model system prompt schema

  abbrev pub completed : Completion F
  completed =
      complete settings decimal (open_ai_client settings create loads elapsed system schema prompt)
