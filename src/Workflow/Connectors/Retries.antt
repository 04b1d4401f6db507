-- ===== src/Workflow/Connectors/Retries.antt =====
-- workflow/service.py, call_connector_with_retry: which attempt's result it returns.
use mathlib.Core.Path.{subst}
use verification_engine.Base.{
  Bool-cases, Option, String, arith, bool_eq, count, first, inl, inr, nat_eq, none, option_eq, refl,
  some, string_eq, suc, sym, zero, ℕ, ◌+◌, ◌<◌, ◌==◌, ◌≡◌, ◌≤◌, ◌⊎◌,
}
use verification_engine.Workflow.Connectors.{
  ConnectorResult, MaxRetries, RawResult, attempted, attempts_from, call_connector_with_retry,
  max_attempts_of, normalize_connector_result, timeout_result,
}

module _ (connector : ℕ → Option RawResult) (connector_id assurance_class now : String) where
  -- Every attempt of a stretch raises.
  abbrev pub AllRaise : ℕ → ℕ → Type 0
  AllRaise first count = (j : ℕ) → first ≤ j → j < first + count → connector j ≡ none

  -- The result of the first attempt that does not raise, or the timeout if all raise.
  abbrev pub IsRetried : ℕ → ℕ → Option ConnectorResult → Type 0
  IsRetried left attempt result =
      ((k : ℕ) × (r : RawResult) × (k < left)
        × AllRaise attempt k
        × (connector (attempt + k) ≡ some r)
        × (result ≡ some (normalize_connector_result connector_id assurance_class now r)))
      ⊎ (AllRaise attempt left × (result ≡ some (timeout_result connector_id assurance_class now)))

  attempted_last :
      (attempt : ℕ) (o : Option RawResult)
      → connector attempt ≡ o
      → IsRetried 1 attempt (
          attempted connector connector_id assurance_class now
            (some (timeout_result connector_id assurance_class now))
            o)
  attempted_last attempt none e =
      inr (λ j low high. subst (λ i. connector i ≡ none) (ground arith) e, refl)
  attempted_last attempt (some r) e = inl (
    0,
    r,
    omega arith,
    λ j low high. ground arith,
    subst (λ i. connector i ≡ some r) (omega arith) e,
    refl,
  )

  extend :
      (attempt k : ℕ)
      → connector attempt ≡ none
      → AllRaise (suc attempt) k
      → AllRaise attempt (suc k)
  extend attempt k e h j low high = elim (Bool-cases (j == attempt)) [
    | inl same ↦ let moved : attempt ≡ j = ground arith in subst (λ i. connector i ≡ none) moved e
    | inr other ↦ h j (ground arith) (ground arith)
  ]

  one_more :
      (attempt left : ℕ) (rest : Option ConnectorResult) (o : Option RawResult)
      → connector attempt ≡ o
      → IsRetried (suc left) (suc attempt) rest
      → IsRetried
          (suc (suc left))
          attempt
          (attempted connector connector_id assurance_class now rest o)
  one_more attempt left rest none e h = elim h [
    | inl x ↦ inl (
      suc x.0,
      x.1,
      omega (arith, x.2),
      extend attempt x.0 e x.3,
      subst (λ i. connector i ≡ some x.1) (omega arith) x.4,
      x.5,
    )
    | inr x ↦ inr (extend attempt (suc left) e x.0, x.1)
  ]
  one_more attempt left rest (some r) e h = inl (
    0,
    r,
    omega arith,
    λ j low high. ground arith,
    subst (λ i. connector i ≡ some r) (omega arith) e,
    refl,
  )

  attempts_from-IsRetried :
      (left attempt : ℕ)
      → IsRetried
          (suc left)
          attempt
          (attempts_from connector connector_id assurance_class now (suc left) attempt)
  unfolding attempts_from
  attempts_from-IsRetried zero attempt = attempted_last attempt (connector attempt) refl
  attempts_from-IsRetried (suc left) attempt =
      one_more attempt left _ (connector attempt) refl (attempts_from-IsRetried left (suc attempt))

  -- If the policy allows an attempt, as it does by default and unless `max_retries` is negative, a
  -- call always gives a result: the normalised result of the first attempt that does not raise, with
  -- all attempts before it raising, or, if every attempt raises, the timeout.
  pub call_connector_with_retry-IsRetried :
      (max_retries : Option MaxRetries) (left : ℕ)
      → max_attempts_of max_retries ≡ suc left
      → IsRetried
          (suc left)
          1
          (call_connector_with_retry connector connector_id assurance_class now max_retries)
  unfolding call_connector_with_retry
  call_connector_with_retry-IsRetried max_retries left e =
      subst
        (λ n. IsRetried (suc left) 1 (attempts_from connector connector_id assurance_class now n 1))
        (sym e) (attempts_from-IsRetried left 1)
