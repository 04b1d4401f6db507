-- ===== src/Execution/Candidates/Fallback.antt =====
-- verifier_execution/executor.py, _execute_task_with_provider_candidates: whose result it returns.

use verification_engine.Base.{
  List, Option, String, [], arith, bool_eq, false, if_either, nat_eq, none, not, option_eq, refl,
  some, string_eq, true, truthy, ◌==◌, ◌∷◌, ◌≡◌,
}
use verification_engine.Execution.{CheckResult, Credential, Task}
use verification_engine.Execution.Candidates.{
  Attempts, Execution, Pass, Provider, Registries, answered, attempt, canonical_provider_key, ended,
  executed_through, manual_selected, next, no_provider, raised, stop, task_for_provider_candidate,
  try_candidate, try_candidates, try_provider, try_verifier,
}

-- The key names something, other than manual review.
abbrev pub IsTried : String → Type 0
IsTried key = (truthy key ≡ true) × ((key == "manual_review") ≡ false)

module _ {F : Type 0} (registries : Registries F) (task : Task) (credential : Credential F) where
  -- Why a candidate gives no result, with the reason code that stands for it; a blank one has none.
  pub data PassedOver (key : String) : Option String → Type 0 where
    blank : truthy key ≡ false → PassedOver key none
    no_verifier :
        IsTried key
        → registries.verifier task.verifier_key ≡ none
        → PassedOver key (some "VERIFIER_NOT_REGISTERED")
    not_registered :
        (execute : Task → Credential F → Execution F)
        → IsTried key
        → registries.verifier task.verifier_key ≡ some execute
        → registries.provider key ≡ none
        → PassedOver key (some "PROVIDER_NOT_REGISTERED")
    not_supporting :
        (execute : Task → Credential F → Execution F)
        → (provider : Provider) → IsTried key
        → registries.verifier task.verifier_key ≡ some execute
        → registries.provider key ≡ some provider
        → provider.supports task.verifier_key credential.category ≡ false
        → PassedOver key (some "PROVIDER_CAPABILITY_MISMATCH")
    failing :
        (execute : Task → Credential F → Execution F)
        → (provider : Provider) → (message : String) → IsTried key
        → registries.verifier task.verifier_key ≡ some execute
        → registries.provider key ≡ some provider
        → provider.supports task.verifier_key credential.category ≡ true
        → execute (task_for_provider_candidate task key) credential ≡ raised message
        → PassedOver key (some "VERIFIER_EXECUTION_FAILED")

  -- The result of a chain of candidates: that of the first one that is not passed over.
  pub data Origin : List String → CheckResult F → Type 0 where
    exhausted : (a : Attempts) → Origin [] (no_provider registries task credential a)
    passed :
        (raw : String)
        → (rest : List String) → (code : Option String) → (r : CheckResult F)
        → PassedOver (canonical_provider_key raw) code
        → Origin rest r
        → Origin (raw ∷ rest) r
    by_hand :
        (raw : String)
        → (rest : List String) → (a : Attempts)
        → (canonical_provider_key raw == "manual_review") ≡ true
        → Origin (raw ∷ rest) (manual_selected registries task credential a)
    through :
        (raw : String)
        → (rest : List String) → (a : Attempts) → (provider : Provider)
        → (execute : Task → Credential F → Execution F) → (r : CheckResult F)
        → (canonical_provider_key raw == "manual_review") ≡ false
        → registries.verifier task.verifier_key ≡ some execute
        → registries.provider (canonical_provider_key raw) ≡ some provider
        → provider.supports task.verifier_key credential.category ≡ true
        → execute (task_for_provider_candidate task (canonical_provider_key raw)) credential
          ≡ answered r
        → Origin (raw ∷ rest) (executed_through (canonical_provider_key raw) provider a r)

  -- What a pass says of its candidate.
  abbrev IsVouched : (raw : String) → List String → Pass F → Type 0
  IsVouched raw rest (stop r) = Origin (raw ∷ rest) r
  IsVouched raw rest (next a) =
      (code : Option String) × PassedOver (canonical_provider_key raw) code

  module _ (raw : String) (rest : List String) where
    abbrev key : String
    key = canonical_provider_key raw

    ended-IsVouched :
        (provider : Provider) (a : Attempts) (execute : Task → Credential F → Execution F)
        (x : Execution F)
        → IsTried key
        → registries.verifier task.verifier_key ≡ some execute
        → registries.provider key ≡ some provider
        → provider.supports task.verifier_key credential.category ≡ true
        → execute (task_for_provider_candidate task key) credential ≡ x
        → IsVouched raw rest (ended registries task credential key provider a x)
    ended-IsVouched provider a execute (answered r) m v p s e =
        through raw rest a provider execute r m.1 v p s e
    ended-IsVouched provider a execute (raised message) m v p s e =
        (some "VERIFIER_EXECUTION_FAILED", failing execute provider message m v p s e)

    try_provider-IsVouched :
        (a : Attempts) (execute : Task → Credential F → Execution F) (o : Option Provider)
        → IsTried key
        → registries.verifier task.verifier_key ≡ some execute
        → registries.provider key ≡ o
        → IsVouched raw rest (try_provider registries task credential key execute a o)
    try_provider-IsVouched a execute none m v p =
        (some "PROVIDER_NOT_REGISTERED", not_registered execute m v p)
    try_provider-IsVouched a execute (some provider) m v p =
        if_either (IsVouched raw rest) (provider.supports task.verifier_key credential.category) _ _
          (λ s. ended-IsVouched provider a execute _ m v p s refl)
          (λ s. (some "PROVIDER_CAPABILITY_MISMATCH", not_supporting execute provider m v p s))

    try_verifier-IsVouched :
        (a : Attempts) (o : Option (Task → Credential F → Execution F))
        → IsTried key
        → registries.verifier task.verifier_key ≡ o
        → IsVouched raw rest (try_verifier registries task credential key a o)
    try_verifier-IsVouched a none m v = (some "VERIFIER_NOT_REGISTERED", no_verifier m v)
    try_verifier-IsVouched a (some execute) m v = try_provider-IsVouched a execute _ m v refl

    try_candidate-IsVouched :
        (a : Attempts) → IsVouched raw rest (try_candidate registries task credential key a)
    unfolding try_candidate
    try_candidate-IsVouched a =
        if_either (IsVouched raw rest) (not (truthy key)) _ _ (λ e. (none, blank (ground arith)))
          (λ e.
            if_either (IsVouched raw rest) (key == "manual_review") _ _
              (λ m. by_hand raw rest (attempt key a) m)
              (λ m. try_verifier-IsVouched (attempt key a) _ (ground arith, m) refl))

  pass_on :
      (raw : String) (rest : List String) (p : Pass F)
      → ((b : Attempts) → Origin rest (try_candidates registries task credential rest b))
      → IsVouched raw rest p
      → Origin
          (raw ∷ rest)
          (elim p [ stop r ↦ r | next b ↦ try_candidates registries task credential rest b ])
  pass_on raw rest (stop r) later vouched = vouched
  pass_on raw rest (next b) later (code, over) = passed raw rest code _ over (later b)

  -- For every list of provider candidates and every state of the attempts, the result of the chain
  -- is that of the first candidate that is not passed over: the manual verifier's if that candidate
  -- is manual review, and otherwise the answer of the task's registered verifier, run for it, where
  -- its provider is registered and supports the verifier and the credential's category. If every
  -- candidate is passed over, the result is the manual verifier's for a chain that ran out. A
  -- candidate is passed over only if it is blank, no verifier or provider is registered, the
  -- provider does not support the request, or the verifier raised.
  pub try_candidates-Origin :
      (candidates : List String) (a : Attempts)
      → Origin candidates (try_candidates registries task credential candidates a)
  unfolding try_candidates
  try_candidates-Origin [] a = exhausted a
  try_candidates-Origin (raw ∷ rest) a =
      pass_on raw rest _ (λ b. try_candidates-Origin rest b) (try_candidate-IsVouched raw rest a)
