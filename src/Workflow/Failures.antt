-- ===== src/Workflow/Failures.antt =====
-- workflow/failures.py: what a processing error does to the session.
use verification_engine.Base.{
  Bool, List, Option, String, [], arith, bool_eq, false, if◌then◌else◌, nat_eq, option_eq, or_empty,
  string_eq, true, upper, ◌&&◌, ◌==◌, ◌||◌, ◌↔◌, ◌∷◌, ◌≡◌,
}
use verification_engine.Workflow.States.{
  Allowed, SessionState, allowed_transitions, failed_purged, failed_retriable, state_eq, verifying,
}

pub record FailureClassification : Type 0 where
  pub error_type : String
  pub retriable : Bool
  pub state : SessionState
  pub reason_codes : List String

-- `context` holds at most the key that is read, "assurance_class".
unfoldable pub classify_failure : String → Option String → FailureClassification
classify_failure error_type context =
    if error_type == "connector_timeout" && upper (or_empty context) == "HIGH"
    then record {
      error_type = error_type;
      retriable = false;
      state = failed_purged;
      reason_codes = "CONNECTOR_TIMEOUT_REQUIRED" ∷ [];
    }
    else if error_type == "transient_connector_error"
    then record {
      error_type = error_type;
      retriable = true;
      state = failed_retriable;
      reason_codes = "TRANSIENT_CONNECTOR_ERROR" ∷ [];
    }
    else if error_type == "audit_store_failure"
    then record {
      error_type = error_type;
      retriable = true;
      state = failed_retriable;
      reason_codes = "AUDIT_STORE_FAILURE" ∷ [];
    }
    else if error_type == "extraction_crash"
    then record {
      error_type = error_type;
      retriable = true;
      state = failed_retriable;
      reason_codes = "EXTRACTION_CRASH" ∷ [];
    }
    else if error_type == "malformed_document" || error_type == "document_missing"
    then record {
      error_type = error_type;
      retriable = false;
      state = failed_purged;
      reason_codes =
          (if error_type == "malformed_document"
            then "MALFORMED_DOCUMENT"
            else "DOCUMENT_NOT_FOUND")
          ∷ [];
    }
    else record {
      error_type = error_type;
      retriable = true;
      state = failed_retriable;
      reason_codes = "WORKFLOW_EXECUTION_FAILED" ∷ [];
    }

-- Whatever the error, the state that it leads to may follow VERIFYING, and the session may be
-- verified again exactly if the error is retriable.
pub classify_failure-legal :
    (error_type : String) (context : Option String)
    → Allowed verifying (classify_failure error_type context).state
      × (Allowed (classify_failure error_type context).state verifying
          ↔ ((classify_failure error_type context).retriable ≡ true))
unfolding classify_failure allowed_transitions
classify_failure-legal error_type context = ground arith
