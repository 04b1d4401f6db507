-- ===== src/Workflow/Connectors.antt =====
-- workflow/service.py, call_connector_with_retry and _normalize_connector_result. The connector is an
-- argument: what it gives at each attempt, none where it raises. Timestamps are texts; keys of a
-- result that the code only copies are left out.
pub mod Retries
use verification_engine.Base.{
  Bool, List, Option, String, [], bool_eq, contains, if◌then◌else◌, nat_eq, none, nonempty,
  option_eq, or_empty, some, string_eq, suc, truthy, upper, zero, ℕ, ◌++◌, ◌==◌, ◌||◌, ◌∷◌,
}

-- A connector's result, with the keys that it may leave out
pub record RawResult : Type 0 where
  pub connector_id : Option String
  pub status : Option String
  pub reason_codes : List String
  pub matched_claims : List (String × String)
  pub mismatched_claims : List (String × String)
  pub assurance_class : Option String
  pub source_timestamp : Option String
  pub technical_state : Option String

pub record ConnectorResult : Type 0 where
  pub connector_id : String
  pub status : String
  pub reason_codes : List String
  pub matched_claims : List (String × String)
  pub mismatched_claims : List (String × String)
  pub assurance_class : String
  pub source_timestamp : String
  pub technical_state : String

-- `x or y`, on texts
abbrev pub or_text : Option String → String → String
or_text none y = y
or_text (some x) y = if truthy x then x else y

abbrev pub is_refusal : String → Bool
is_refusal status = contains ("NOT_VERIFIED" ∷ "INVALID" ∷ "REVOKED" ∷ "MISMATCH" ∷ []) status

abbrev pub with_error_code : List String → List String
with_error_code codes =
    if contains codes "CONNECTOR_ERROR" then codes else codes ++ "CONNECTOR_ERROR" ∷ []

-- The status and the reason codes that `_normalize_connector_result` sets
unfoldable pub normal_status : RawResult → String × List String
normal_status r =
    if upper (or_empty r.status) == "VERIFIED"
    then ("VERIFIED", r.reason_codes)
    else if nonempty r.mismatched_claims || is_refusal (upper (or_empty r.status))
    then ("MISMATCH", r.reason_codes)
    else ("ERROR", with_error_code r.reason_codes)

-- `_normalize_connector_result`
unfoldable pub normalize_connector_result :
    (connector_id assurance_class now : String) → RawResult → ConnectorResult
normalize_connector_result connector_id assurance_class now r = record {
  connector_id = or_text r.connector_id connector_id;
  status = (normal_status r).0;
  reason_codes = (normal_status r).1;
  matched_claims = r.matched_claims;
  mismatched_claims = r.mismatched_claims;
  assurance_class = or_text r.assurance_class assurance_class;
  source_timestamp = or_text r.source_timestamp now;
  technical_state = or_text r.technical_state "SUCCESS";
}

unfoldable pub timeout_result : (connector_id assurance_class now : String) → ConnectorResult
timeout_result connector_id assurance_class now = record {
  connector_id = connector_id;
  status = "TIMEOUT";
  reason_codes = "CONNECTOR_TIMEOUT" ∷ [];
  matched_claims = [];
  mismatched_claims = [];
  assurance_class = assurance_class;
  source_timestamp = now;
  technical_state = "TIMEOUT";
}

-- `int(policy["max_retries"])`
pub data MaxRetries : Type 0 where
  negative : MaxRetries
  retries : ℕ → MaxRetries

-- `max_attempts`, where a range up to a negative number is empty
abbrev pub max_attempts_of : Option MaxRetries → ℕ
max_attempts_of none = 3
max_attempts_of (some negative) = 0
max_attempts_of (some (retries n)) = suc n

module _ (connector : ℕ → Option RawResult) (connector_id assurance_class now : String) where
  abbrev pub attempted : Option ConnectorResult → Option RawResult → Option ConnectorResult
  attempted otherwise none = otherwise
  attempted otherwise (some r) =
      some (normalize_connector_result connector_id assurance_class now r)

  -- The loop from an attempt on, with the number of attempts left
  unfoldable pub attempts_from : ℕ → ℕ → Option ConnectorResult
  attempts_from zero attempt = none
  attempts_from (suc zero) attempt =
      attempted (some (timeout_result connector_id assurance_class now)) (connector attempt)
  attempts_from (suc (suc left)) attempt =
      attempted (attempts_from (suc left) (suc attempt)) (connector attempt)

  -- `call_connector_with_retry`, for the policy's `max_retries`
  unfoldable pub call_connector_with_retry : Option MaxRetries → Option ConnectorResult
  unfolding attempts_from
  call_connector_with_retry max_retries = attempts_from (max_attempts_of max_retries) 1
