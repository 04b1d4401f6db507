-- ===== src/Tests/Connectors.antt =====
-- A connector that answers at its second attempt: backend/app/workflow/service.py.
use verification_engine.Base.{
  Option, String, [], bool_eq, if◌then◌else◌, nat_eq, none, option_eq, refl, some, string_eq, upper,
  ℕ, ◌==◌, ◌≡◌,
}
use verification_engine.Workflow.Connectors.{
  ConnectorResult, RawResult, attempts_from, call_connector_with_retry, negative, normal_status,
  normalize_connector_result, retries, timeout_result,
}
use verification_engine.Workflow.Connectors.Retries.{IsRetried, call_connector_with_retry-IsRetried}

abbrev verified_answer : RawResult
verified_answer = record {
  connector_id = none;
  status = some "verified";
  reason_codes = [];
  matched_claims = [];
  mismatched_claims = [];
  assurance_class = none;
  source_timestamp = none;
  technical_state = none;
}

abbrev second_time : ℕ → Option RawResult
second_time attempt = if attempt == 2 then some verified_answer else none

abbrev status_of : Option ConnectorResult → String
status_of none = ""
status_of (some r) = r.status

answered_late :
    status_of (call_connector_with_retry second_time "vit" "HIGH" "now" none) ≡ "VERIFIED"
unfolding call_connector_with_retry attempts_from nat_eq normalize_connector_result normal_status
    string_eq upper
answered_late = refl

refused_policy : call_connector_with_retry second_time "vit" "HIGH" "now" (some negative) ≡ none
unfolding call_connector_with_retry attempts_from
refused_policy = refl

answered_never :
    status_of (call_connector_with_retry second_time "vit" "HIGH" "now" (some (retries 0)))
    ≡ "TIMEOUT"
unfolding call_connector_with_retry attempts_from nat_eq timeout_result
answered_never = refl

call_connector_with_retry-IsRetried_example :
    IsRetried second_time "vit" "HIGH" "now" 3 1
      (call_connector_with_retry second_time "vit" "HIGH" "now" none)
call_connector_with_retry-IsRetried_example =
    call_connector_with_retry-IsRetried second_time "vit" "HIGH" "now" none 2 refl
