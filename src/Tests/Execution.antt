-- ===== src/Tests/Execution.antt =====
-- Concrete tasks and providers: backend/app/verifier_execution.
use verification_engine.Base.{
  All, Floats, List, String, [], bool_eq, contains, dedupe, false, if◌then◌else◌, myriad_floats,
  nat_eq, none, option_eq, refl, some, string_eq, strip, true, ℕ, ◌==◌, ◌∷◌, ◌≡◌,
}
use verification_engine.Execution.{CheckResult, Credential, Task}
use verification_engine.Execution.Candidates.{
  Registries, answered, canonical_provider_key, distinct_codes, executed_through, no_attempts,
  report, try_candidate, try_candidates,
}
use verification_engine.Execution.Candidates.Fallback.{
  Origin, PassedOver, not_registered, try_candidates-Origin,
}
use verification_engine.Execution.Candidates.Reported.{failed_attempts_are_reported}
use verification_engine.Execution.Bundles.{build_bundles}
use verification_engine.Execution.Bundles.Verdict.{IsDecided, build_bundles-mismatch}

instance unfoldable execution_floats : Floats ℕ
execution_floats = myriad_floats

abbrev name_credential : Credential ℕ
name_credential = record {
  credential_id = "cred1";
  label = "Name";
  category = "identity";
  confidence = some 9000;
  bounding_box = none;
  requires_verification = true;
}

abbrev name_task : Task
name_task = record {
  task_id = "t1";
  credential_id = "cred1";
  verifier_key = "identity_db";
  verifier_label = "Identity";
  verification_type = "identity";
  provider_candidates = "identity_http" ∷ "local_mock_registry" ∷ [];
  selected_provider = none;
  planned_provider_key = none;
  preferred_provider_key = none;
  input_payload = record {
    preferred_provider_key = none;
    preferred_provider_label = none;
    planned_provider_key = none;
    planned_provider_label = none;
    planned_execution_mode = none;
    planned_is_live_result = false;
    planned_is_mock_result = false;
    planned_is_demo_result = false;
    fallback_reason = none;
  };
}

abbrev result_with : String → String → CheckResult ℕ
result_with audit_status task_status = record {
  task_id = "t1";
  credential_id = "cred1";
  verifier_key = "identity_db";
  verifier_label = "Identity";
  preferred_provider_key = none;
  preferred_provider_label = none;
  planned_provider_key = none;
  planned_provider_label = none;
  executed_provider_key = none;
  executed_provider_label = none;
  execution_mode = none;
  fallback_reason = none;
  task_status = task_status;
  audit_status = audit_status;
  outcome_color = "amber";
  explanation = "";
  reason_codes = [];
  missing_fields = [];
  raw_result_summary = [];
  confidence = none;
  executed_at = none;
  latency_ms = none;
  manual_review_recommended = false;
}

-- Only the local mock is registered.
abbrev mock_only : Registries ℕ
mock_only = record {
  verifier = λ key.
      if key == "identity_db"
      then some (λ t c. answered (result_with "VERIFIED" "SUCCEEDED"))
      else none;
  manual_review = λ t c. result_with "MANUAL_REVIEW" "MANUAL_REVIEW";
  provider = λ key.
      if key == "local_mock"
      then some (record { supports = λ v c. true; provider_label = none })
      else none;
}

abbrev both_candidates : List String
both_candidates = "identity_http" ∷ "local_mock_registry" ∷ []

-- The first provider is not registered, so the mock answers and the fallback is reported.
fallback_codes :
    (try_candidates mock_only name_task name_credential both_candidates no_attempts).reason_codes
    ≡ "PROVIDER_NOT_REGISTERED" ∷ "PROVIDER_FALLBACK_USED" ∷ []
unfolding try_candidates try_candidate canonical_provider_key executed_through report string_eq
    distinct_codes strip dedupe
fallback_codes = refl

try_candidates-Origin_example :
    Origin mock_only name_task name_credential both_candidates
      (try_candidates mock_only name_task name_credential both_candidates no_attempts)
try_candidates-Origin_example =
    try_candidates-Origin mock_only name_task name_credential both_candidates no_attempts

unregistered :
    PassedOver mock_only name_task name_credential
      (canonical_provider_key "identity_http")
      (some "PROVIDER_NOT_REGISTERED")
unfolding canonical_provider_key string_eq strip
unregistered =
    not_registered (λ t c. answered (result_with "VERIFIED" "SUCCEEDED")) (refl, refl) refl refl

failed_attempts_are_reported_example :
    contains
      (try_candidates mock_only name_task name_credential
        ("identity_http" ∷ "local_mock" ∷ [])
        no_attempts).reason_codes
      "PROVIDER_NOT_REGISTERED"
    ≡ true
failed_attempts_are_reported_example =
    failed_attempts_are_reported mock_only name_task name_credential [] "identity_http"
      ("local_mock" ∷ []) no_attempts "PROVIDER_NOT_REGISTERED" tt unregistered

abbrev mixed_results : List (CheckResult ℕ)
mixed_results = result_with "VERIFIED" "SUCCEEDED" ∷ result_with "MISMATCH" "PARTIAL" ∷ []

build_bundles-mismatch_example :
    All
      (IsDecided mixed_results)
      (build_bundles (name_credential ∷ []) (name_task ∷ []) mixed_results)
build_bundles-mismatch_example =
    build_bundles-mismatch (name_credential ∷ []) (name_task ∷ []) mixed_results
