-- ===== src/Execution/Candidates.antt =====
-- verifier_execution/executor.py, VerificationTaskExecutor._execute_task: the chain of providers
-- that a task tries. The registered verifiers, the manual one and the providers are arguments.
pub mod Fallback
pub mod Reported
use Prim.Native.String as S
use verification_engine.Base.{
  Bool, List, Option, String, [], bool_eq, dedupe, false, if◌then◌else◌, nat_eq, none, nonempty,
  not, option_eq, or_else, or_empty, present, put_key, select, some, string_eq, strip, suc, true,
  truthy, zero, ℕ, ◌++◌, ◌<>◌, ◌==◌, ◌∷◌,
}
use verification_engine.Execution.{
  CheckResult, Credential, Entry, Summary, Task, joined, summarize_result, task_execution_truth,
  text, texts,
}

-- `canonical_provider_key`
unfoldable pub canonical_provider_key : String → String
canonical_provider_key key =
    if strip key == "local_mock_registry"
    then "local_mock"
    else if strip key == "manual_review_provider"
    then "manual_review"
    else strip key

-- `_provider_candidates_for_task`
unfoldable pub provider_candidates_for_task : Task → List String
provider_candidates_for_task task =
    if nonempty task.provider_candidates
    then task.provider_candidates
    else if present task.planned_provider_key
    then or_empty task.planned_provider_key ∷ []
    else if present task.selected_provider
    then or_empty task.selected_provider ∷ []
    else []

abbrev pub or_default : {A : Type 0} → Option A → A → Option A
or_default none x = some x
or_default (some y) x = some y

-- `_task_for_provider_candidate`
unfoldable pub task_for_provider_candidate : Task → String → Task
task_for_provider_candidate task provider_key = record task {
  selected_provider = some provider_key;
  planned_provider_key = some provider_key;
  input_payload = record (task.input_payload) {
    planned_provider_key = some provider_key;
    preferred_provider_key =
        or_default task.input_payload.preferred_provider_key
          (or_else task.preferred_provider_key (some provider_key));
  };
}

-- `s[:n]`
unfoldable pub clip : ℕ → String → String
clip zero s = ""
clip (suc n) String.[] = String.[]
clip (suc n) (String.◌∷◌ c s) = String.◌∷◌ c (clip n s)

-- `_dedupe`
unfoldable pub distinct_codes : List String → List String
distinct_codes codes = select truthy (dedupe codes)

-- What `verifier.execute` ends in: a result, or an exception with its text.
pub data Execution (F : Type 0) : Type 0 where
  answered : CheckResult F → Execution F
  raised : String → Execution F

-- `provider.supports(verifier_key, category)` and `provider.provider_label`, where there is one
pub record Provider : Type 0 where
  pub supports : String → String → Bool
  pub provider_label : Option String

-- The executor's registry, its manual verifier, and the registry of the context's runtime.
pub record Registries (F : Type 0) : Type 0 where
  pub verifier : String → Option (Task → Credential F → Execution F)
  pub manual_review : Task → Credential F → CheckResult F
  pub provider : String → Option Provider

-- The local lists of `_execute_task_with_provider_candidates`
pub record Attempts : Type 0 where
  pub attempted : List String
  pub skipped : List String
  pub failures : List String
  pub last_error : Option String

abbrev pub no_attempts : Attempts
no_attempts = record { attempted = []; skipped = []; failures = []; last_error = none }

abbrev pub attempt : String → Attempts → Attempts
attempt key a = record a { attempted = a.attempted ++ key ∷ [] }

abbrev pub skip : String → String → Attempts → Attempts
skip key code a = record a { skipped = a.skipped ++ key ∷ []; failures = a.failures ++ code ∷ [] }

abbrev pub failed_with : String → Attempts → Attempts
failed_with message a = record a {
  failures = a.failures ++ "VERIFIER_EXECUTION_FAILED" ∷ [];
  last_error = some (clip 240 message);
}

abbrev pub several : List String → Bool
several [] = false
several (x ∷ xs) = nonempty xs

-- One pass of the loop's body: a result, or the attempts that the next pass starts from.
pub data Pass (F : Type 0) : Type 0 where
  stop : CheckResult F → Pass F
  next : Attempts → Pass F

module _ {F : Type 0} where
  abbrev put_if : Bool → String → Entry F → Summary F → Summary F
  put_if b key value d = if b then put_key key value d else d

  -- `_with_attempt_metadata`
  unfoldable pub with_attempt_metadata : Attempts → Option String → Summary F → Summary F
  with_attempt_metadata a fallback_reason summary =
      put_if (present a.last_error) "last_error_summary" (text (or_empty a.last_error)) (
        put_if (present fallback_reason) "fallback_reason" (text (or_empty fallback_reason)) (
          put_if (nonempty a.skipped) "skipped_provider_keys" (texts (dedupe a.skipped))
            (put_key "attempted_provider_keys" (texts (dedupe a.attempted)) summary)))

  -- `_stamp_result`, with the time of the start and the milliseconds passed
  unfoldable pub stamp_result : ℕ × ℕ → CheckResult F → CheckResult F
  stamp_result times r = record r {
    executed_at = or_default r.executed_at times.0;
    latency_ms = or_default r.latency_ms times.1;
  }

  -- What every branch of the chain does to its result: `codes` join the reasons.
  unfoldable pub report : Attempts → List String → Option String → CheckResult F → CheckResult F
  report a codes fallback_reason r = record r {
    reason_codes = distinct_codes (r.reason_codes ++ a.failures ++ codes);
    raw_result_summary = with_attempt_metadata a fallback_reason r.raw_result_summary;
  }

  -- A provider answered.
  unfoldable pub executed_through : String → Provider → Attempts → CheckResult F → CheckResult F
  executed_through key provider a r =
      report a (if several a.attempted then "PROVIDER_FALLBACK_USED" ∷ [] else []) r.fallback_reason
        (record r {
          executed_provider_key = or_else r.executed_provider_key (some key);
          executed_provider_label =
              or_else r.executed_provider_label (or_else_key provider.provider_label key);
        })
    where
      or_else_key : Option String → String → Option String
      or_else_key none key = some key
      or_else_key (some label) key = some label

module _ {F : Type 0} where
  -- A failure of the executor or of a verifier
  unfoldable pub failure_result :
      Task → String → String → List String → String → String → Summary F → CheckResult F
  failure_result task credential_id mode codes field explanation summary = record {
    task_id = task.task_id;
    credential_id = credential_id;
    verifier_key = task.verifier_key;
    verifier_label = task.verifier_label;
    preferred_provider_key = joined task.input_payload.preferred_provider_key;
    preferred_provider_label = task.input_payload.preferred_provider_label;
    planned_provider_key = task.input_payload.planned_provider_key;
    planned_provider_label = task.input_payload.planned_provider_label;
    executed_provider_key = none;
    executed_provider_label = none;
    execution_mode = some mode;
    fallback_reason = task.input_payload.fallback_reason;
    task_status = "FAILED";
    audit_status = "MANUAL_REVIEW";
    outcome_color = "amber";
    explanation = explanation;
    reason_codes = codes;
    missing_fields = field ∷ [];
    raw_result_summary = summary;
    confidence = none;
    executed_at = none;
    latency_ms = none;
    manual_review_recommended = true;
  }

module _ {F : Type 0} (registries : Registries F) (task : Task) (credential : Credential F) where
  -- The provider chain ran out.
  unfoldable pub no_provider : Attempts → CheckResult F
  no_provider a =
      let r =
        registries.manual_review (task_for_provider_candidate task "manual_review") credential in
      let reason = or_else r.fallback_reason (some "NO_EXECUTABLE_PROVIDER") in
      report a
        ((if nonempty a.skipped then "NO_PROVIDER_AVAILABLE" else "ALL_PROVIDERS_FAILED") ∷ [])
        reason (record r { fallback_reason = reason })

  unfoldable pub manual_selected : Attempts → CheckResult F
  manual_selected a =
      let r = registries.manual_review task credential in
      report a ("MANUAL_REVIEW_PROVIDER_SELECTED" ∷ [])
        (or_else r.fallback_reason (some "MANUAL_REVIEW_FALLBACK")) r

  abbrev pub ended : String → Provider → Attempts → Execution F → Pass F
  ended key provider a (answered r) = stop (executed_through key provider a r)
  ended key provider a (raised message) = next (failed_with message a)

  abbrev pub try_provider :
      String → (Task → Credential F → Execution F) → Attempts → Option Provider → Pass F
  try_provider key execute a none = next (skip key "PROVIDER_NOT_REGISTERED" a)
  try_provider key execute a (some provider) =
      if provider.supports task.verifier_key credential.category
      then ended key provider a (execute (task_for_provider_candidate task key) credential)
      else next (skip key "PROVIDER_CAPABILITY_MISMATCH" a)

  abbrev pub try_verifier : String → Attempts → Option (Task → Credential F → Execution F) → Pass F
  try_verifier key a none = next (skip key "VERIFIER_NOT_REGISTERED" a)
  try_verifier key a (some execute) = try_provider key execute a (registries.provider key)

  unfoldable pub try_candidate : String → Attempts → Pass F
  try_candidate key a =
      if not (truthy key)
      then next a
      else if key == "manual_review"
      then stop (manual_selected (attempt key a))
      else try_verifier key (attempt key a) (registries.verifier task.verifier_key)

  -- The loop of `_execute_task_with_provider_candidates`
  unfoldable pub try_candidates : List String → Attempts → CheckResult F
  try_candidates [] a = no_provider a
  try_candidates (raw ∷ rest) a = elim (try_candidate (canonical_provider_key raw) a) [
    | stop r ↦ r
    | next b ↦ try_candidates rest b
  ]

  unfoldable pub run_verifier : Option (Task → Credential F → Execution F) → CheckResult F
  run_verifier none =
      let r = registries.manual_review task credential in
      record r {
        reason_codes = dedupe (r.reason_codes ++ "VERIFIER_NOT_REGISTERED" ∷ []);
        raw_result_summary =
            put_key "requested_verifier_key" (text task.verifier_key) r.raw_result_summary;
      }
  run_verifier (some execute) = elim (execute task credential) [
    | answered r ↦ r
    | raised message ↦
        failure_result task credential.credential_id "EXECUTION_FAILURE"
          ("VERIFIER_EXECUTION_FAILED" ∷ []) credential.label
          ("Verifier execution failed: " <> message)
          (summarize_result "EXECUTION_FAILURE" credential task ("error", text message))
  ]

  unfoldable pub execute_for : CheckResult F
  execute_for =
      if nonempty (provider_candidates_for_task task)
      then try_candidates (provider_candidates_for_task task) no_attempts
      else run_verifier (registries.verifier task.verifier_key)

module _ {F : Type 0} (registries : Registries F) where
  unfoldable pub missing_credential : Task → CheckResult F
  missing_credential task =
      failure_result task task.credential_id "EXECUTOR_FAILURE"
        ("MISSING_CREDENTIAL_REFERENCE" ∷ []) task.credential_id
        "The verification plan references a credential that is not available in the current session view."
        (put_key "execution_mode" (text "EXECUTOR_FAILURE") (task_execution_truth F task))

  -- `_execute_task`
  unfoldable pub execute_task : ℕ × ℕ → Task → Option (Credential F) → CheckResult F
  execute_task times task none = stamp_result times (missing_credential task)
  execute_task times task (some credential) =
      stamp_result times (execute_for registries task credential)
