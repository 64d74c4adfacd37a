-- ===== src/Llm/Retries.antt =====
-- How the call with its retries ends, for every provider.
use news2reel.Base.{
  ℕ, zero, suc, ◌+◌, ◌<◌, ◌≡◌, refl, sym, ap, ◌∙◌, Option, none, some, List, [], ◌∷◌, ◌++◌, map,
  arith, Text, length,
}
use news2reel.Core.Config.{Settings}
use news2reel.Llm.{
  TitleClassification, CallOutcome, ok, retried, failed, LlmCall, Attempt, raises, passes,
  Completion, error_call, ok_call, retry, complete_from, complete,
}

-- the numbers from `n` on, `k` of them
abbrev pub numbers : ℕ → ℕ → List ℕ
numbers n zero = []
numbers n (suc k) = n ∷ numbers (n + 1) k

-- the numbers of these attempts but the last
abbrev pub pauses : ℕ → ℕ → List ℕ
pauses n zero = []
pauses n (suc k) = numbers n k

-- the outcomes of errors with an attempt behind each of them
abbrev pub retries : List Text → List CallOutcome → List CallOutcome
retries [] rest = rest
retries (error ∷ errors) rest = retried ∷ retries errors rest

-- the outcomes of errors of which the last was on the last attempt
abbrev pub given_up : List Text → List CallOutcome
given_up [] = []
given_up (error ∷ []) = failed ∷ []
given_up (error ∷ next ∷ errors) = retried ∷ given_up (next ∷ errors)

abbrev pub outcomes : List LlmCall → List CallOutcome
outcomes calls = map (λ call. call.outcome) calls

module _ {F : Type 0} (settings : Settings F) (decimal : ℕ → Text) (attempts : ℕ → Attempt F) where
  -- From the n-th on, the attempts raise these errors.
  abbrev pub Errors : ℕ → List Text → Type 0
  Errors n [] = Unit
  Errors n (error ∷ errors) = (attempts n ≡ raises error) × Errors (n + 1) errors

  -- The rows with an error, and with the number of the attempt.
  abbrev pub error_calls : ℕ → List Text → List LlmCall
  error_calls n [] = []
  error_calls n (error ∷ errors) = error_call settings n error ∷ error_calls (n + 1) errors

  -- The two ends of the attempts from the n-th on when `left` of them are left.
  pub data Settled (n left : ℕ) (c : Completion F) : Type 0 where
    placed :
        (errors : List Text) (results : List (TitleClassification F))
        (prompt_tokens completion_tokens : Option ℕ) (latency_ms : ℕ)
        → length errors < left
        → Errors n errors
        → attempts (n + length errors) ≡ passes results prompt_tokens completion_tokens latency_ms
        → c.results ≡ some results
        → c.calls
          ≡ error_calls n errors
            ++ ok_call settings (n + length errors) prompt_tokens completion_tokens latency_ms ∷ []
        → outcomes c.calls ≡ retries errors (ok ∷ [])
        → c.slept ≡ numbers n (length errors)
        → Settled n left c
    exhausted :
        (errors : List Text)
        → length errors ≡ left
        → Errors n errors
        → c.results ≡ none
        → c.calls ≡ error_calls n errors
        → outcomes c.calls ≡ given_up errors
        → c.slept ≡ pauses n left
        → Settled n left c

  error_retried :
      (n : ℕ) (error : Text)
      → n < settings.llm_max_attempts
      → (error_call settings n error).outcome ≡ retried
  unfolding error_call
  error_retried n error h = ground arith

  error_failed :
      (n : ℕ) (error : Text)
      → n ≡ settings.llm_max_attempts
      → (error_call settings n error).outcome ≡ failed
  unfolding error_call
  error_failed n error h = ground arith

  slept_more :
      (n : ℕ) (error : Text) (rest : Completion F)
      → n < settings.llm_max_attempts
      → (retry settings n error rest).slept ≡ n ∷ rest.slept
  slept_more n error rest h = ground arith

  slept_last :
      (n : ℕ) (error : Text) (rest : Completion F)
      → n ≡ settings.llm_max_attempts
      → (retry settings n error rest).slept ≡ rest.slept
  slept_last n error rest h = ground arith

  no_numbers : (m n k : ℕ) → k ≡ 0 → pauses m k ≡ numbers n k
  no_numbers m n zero e = refl
  no_numbers m n (suc k) e = absurd (omega arith)

  after_error :
      (n left : ℕ) (error : Text) (rest : Completion F)
      → n + suc left ≡ suc settings.llm_max_attempts
      → attempts n ≡ raises error
      → Settled (n + 1) left rest
      → Settled n (suc left) (retry settings n error rest)
  after_error n left error rest sum e
        (placed errors results pt ct ms less all at r calls outs slept) =
      let shift : n + 1 + length errors ≡ n + suc (length errors) = omega arith in
      let more : n < settings.llm_max_attempts = omega arith in
      placed (error ∷ errors) results pt ct ms (omega arith) (e, all) (rw (sym shift) at) r
        (rw (sym shift) (ap (λ cs. error_call settings n error ∷ cs) calls))
        (rw (error_retried n error more) (ap (λ os. retried ∷ os) outs))
        (slept_more n error rest more ∙ ap (λ ns. n ∷ ns) slept)
  after_error n left error rest sum e (exhausted [] len all r calls outs slept) =
      let last : n ≡ settings.llm_max_attempts = omega arith in
      exhausted (error ∷ []) (omega arith) (e, tt) r
        (ap (λ cs. error_call settings n error ∷ cs) calls)
        (rw (error_failed n error last) (ap (λ os. failed ∷ os) outs))
        (slept_last n error rest last ∙ slept ∙ no_numbers (n + 1) n left (omega arith))
  after_error n zero error rest sum e (exhausted (next ∷ errors) len all r calls outs slept) =
      absurd (omega arith)
  after_error n (suc left) error rest sum e (exhausted (next ∷ errors) len all r calls outs slept) =
      let more : n < settings.llm_max_attempts = omega arith in
      exhausted (error ∷ next ∷ errors) (omega arith) (e, all) r
        (ap (λ cs. error_call settings n error ∷ cs) calls)
        (rw (error_retried n error more) (ap (λ os. retried ∷ os) outs))
        (slept_more n error rest more ∙ ap (λ ns. n ∷ ns) slept)

  -- A round, whatever its attempt comes to.
  round-Settled :
      (n left : ℕ) (last : Option Text) (a : Attempt F)
      → attempts n ≡ a
      → n + suc left ≡ suc settings.llm_max_attempts
      → ((error : Text)
          → Settled
              (n + 1)
              left
              (complete_from settings decimal attempts left (n + 1) (some error)))
      → Settled n (suc left) (complete_from settings decimal attempts (suc left) n last)
  unfolding complete_from ok_call
  round-Settled n left last (raises error) e sum behind =
      rw (e, complete_from)
        (after_error n left error
          (complete_from settings decimal attempts left (n + 1) (some error)) sum e (behind error))
  round-Settled n left last (passes results pt ct ms) e sum behind =
      let here : n + 0 ≡ n = omega arith in
      rw (e, complete_from)
        (placed [] results pt ct ms (omega arith) tt (rw here e) refl (rw here refl) refl refl)

  complete_from-Settled :
      (left n : ℕ) (last : Option Text)
      → n + left ≡ suc settings.llm_max_attempts
      → Settled n left (complete_from settings decimal attempts left n last)
  unfolding complete_from
  complete_from-Settled zero n last sum = exhausted [] refl tt refl refl refl refl
  complete_from-Settled (suc left) n last sum =
      round-Settled n left last (attempts n) refl sum
        (λ error. complete_from-Settled left (n + 1) (some error) (omega arith))

  -- Every call of the provider ends within `llm_max_attempts` attempts, in one of two ways. Either
  -- fewer than all attempts raised and the next one passed: its results are the outcome, the log
  -- holds a row for each error, all "retried", and then one that is "ok", and the waits were the
  -- numbers of the failed attempts. Or all of them raised: there is no result, the log holds a row
  -- for each, the last of them "failed" and the others "retried", with no wait behind the last.
  pub complete-Settled : Settled 1 settings.llm_max_attempts (complete settings decimal attempts)
  unfolding complete
  complete-Settled = complete_from-Settled settings.llm_max_attempts 1 none (omega arith)
