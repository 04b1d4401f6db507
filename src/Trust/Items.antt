-- ===== src/Trust/Items.antt =====
-- trust/trust_engine.py: the results of connectors and tasks, normalised for both verdicts.
use verification_engine.Base.{
  Bool, Floats, List, Option, String, [], any, bool_eq, contains, dedupe, false, float_one,
  float_zero, if◌then◌else◌, nat_eq, none, option_eq, or_else, or_empty, some, string_eq, true,
  ◌++◌, ◌==◌, ◌||◌, ◌∷◌,
}
use verification_engine.Trust.Claims.{TaskResult, clamp, color_eq, word}
use verification_engine.Trust.Fields.{
  VerifierResult, VerifierStatus, error, mismatch, not_applicable, skipped, timeout, verified,
  verifier_status_eq,
}

-- A value that `float` may be given: None, "", what it refuses, or a number.
pub data RawNumber (F : Type 0) : Type 0 where
  absent blank unreadable : RawNumber F
  given : F → RawNumber F

-- The keys of a connector's or task's result that are read. Where `in` is asked, the outer option
-- says whether the key is there.
pub record Item (F : Type 0) : Type 0 where
  pub task_id : Option String
  pub credential_id : Option String
  pub field_id : Option String
  pub connector_id : Option String
  pub provider_key : Option String
  pub provider_id : Option String
  pub verifier_key : Option String
  pub verifier_label : Option String
  pub executed_provider_key : Option (Option String)
  pub executed_provider_label : Option String
  pub planned_provider_key : Option String
  pub preferred_provider_key : Option String
  pub task_status : Option (Option String)
  pub audit_status : Option (Option String)
  pub outcome_color : Option String
  pub status : Option String
  pub reason_codes : List String
  pub confidence : RawNumber F
  pub verification_confidence : RawNumber F
  pub manual_review_recommended : Bool
  pub assurance_class : Option String
  pub explanation : Option String

-- A dict, or a list of which the items that are no dicts are none, or another value
pub data ConnectorResult (F : Type 0) : Type 0 where
  nothing : ConnectorResult F
  single : Item F → ConnectorResult F
  several : List (Option (Item F)) → ConnectorResult F

abbrev flat : Option (Option String) → Option String
flat none = none
flat (some value) = value

abbrev is_there : Option (Option String) → Bool
is_there none = false
is_there (some value) = true

abbrev with_malformed : Bool → List String → List String
with_malformed true codes = dedupe (codes ++ "PROVIDER_RESULT_MALFORMED" ∷ [])
with_malformed false codes = codes

-- `_normalize_provider_status`, with whether it was malformed
unfoldable pub provider_status : Option String → VerifierStatus × Bool
provider_status value =
    if word value == "VERIFIED"
    then (verified, false)
    else if word value == "MISMATCH"
    then (mismatch, false)
    else if word value == "TIMEOUT"
    then (timeout, false)
    else if word value == "ERROR"
    then (error, false)
    else if word value == "SKIPPED"
    then (skipped, false)
    else if word value == "NOT_APPLICABLE"
    then (not_applicable, false)
    else (error, true)

module _ {F : Type 0} where
  abbrev dicts : List (Option (Item F)) → List (Item F)
  dicts [] = []
  dicts (none ∷ items) = dicts items
  dicts (some x ∷ items) = x ∷ dicts items

  -- `_normalize_connector_results`
  abbrev pub items_of : ConnectorResult F → List (Item F)
  items_of nothing = []
  items_of (single x) = x ∷ []
  items_of (several items) = dicts items

  abbrev pub is_task_result : Item F → Bool
  is_task_result x =
      is_there x.task_status || is_there x.audit_status || is_there x.executed_provider_key

  -- `_has_task_result_shape`
  abbrev pub has_task_result_shape : ConnectorResult F → Bool
  has_task_result_shape result = any is_task_result (items_of result)

  abbrev number_or : RawNumber F → Option F → Option F
  number_or absent other = other
  number_or blank other = none
  number_or unreadable other = none
  number_or (given n) other = some n

  abbrev given_number : RawNumber F → Option F
  given_number absent = none
  given_number blank = none
  given_number unreadable = none
  given_number (given n) = some n

  -- `_safe_canonical_result`; a number that cannot be read counts as 0.0 later
  unfoldable pub safe_canonical_result : Item F → TaskResult F
  safe_canonical_result x = record {
    task_id =
        or_else x.task_id (or_else x.connector_id (or_else x.provider_key (some "connector")));
    credential_id = or_else x.credential_id x.field_id;
    claim_id = none;
    field_id = or_else x.field_id x.credential_id;
    audit_status = or_else (flat x.audit_status) x.status;
    outcome_color = x.outcome_color;
    task_status = flat x.task_status;
    status = x.status;
    executed_provider_key = flat x.executed_provider_key;
    planned_provider_key = x.planned_provider_key;
    preferred_provider_key = x.preferred_provider_key;
    connector_id = or_else x.connector_id x.provider_key;
    provider_id = x.provider_id;
    verifier_key = x.verifier_key;
    executed_provider_label = x.executed_provider_label;
    planned_provider_label = none;
    preferred_provider_label = none;
    verifier_label = x.verifier_label;
    reason_codes = x.reason_codes;
    confidence = some (number_or x.confidence (given_number x.verification_confidence));
    verification_confidence = none;
    manual_review_recommended = x.manual_review_recommended;
  }

  -- `_canonical_task_results_for_trust`
  abbrev pub canonical_results : List (Item F) → List (TaskResult F)
  canonical_results [] = []
  canonical_results (x ∷ items) = safe_canonical_result x ∷ canonical_results items

module _ {F : Type 0} ⦃ops : Floats F⦄ where
  -- `_safe_float`, with whether it was malformed
  abbrev pub safe_float : RawNumber F → F → F × Bool
  safe_float absent default = (default, false)
  safe_float blank default = (default, false)
  safe_float unreadable default = (float_zero, true)
  safe_float (given n) default = (n, false)

  abbrev task_status_of : Item F → VerifierStatus × F
  task_status_of x =
      if word (flat x.audit_status) == "VERIFIED"
      then (verified, ops.decimal 95 2)
      else if word (flat x.audit_status) == "MISMATCH"
      then (mismatch, float_zero)
      else if word (flat x.task_status) == "SKIPPED"
      then (skipped, float_zero)
      else if contains x.reason_codes "TIMEOUT"
      then (timeout, ops.decimal 20 2)
      else (error, ops.decimal 35 2)

  abbrev task_field : Item F → String
  task_field x = or_empty (or_else x.credential_id (or_else x.field_id (some "dummy")))

  -- `_verifier_result_from_task_result`; the model's validator clamps the confidence
  unfoldable pub result_of_task : Item F → String × VerifierResult F
  unfolding clamp dedupe
  result_of_task x =
      let (status, default) = task_status_of x in
      let (confidence, malformed) = safe_float x.confidence default in
      (
        task_field x,
        record {
          connector_id = or_empty (
              or_else (flat x.executed_provider_key)
                (or_else x.planned_provider_key (or_else x.verifier_key (some "provider"))));
          status = status;
          verification_confidence = clamp (some confidence);
          reason_codes = with_malformed malformed x.reason_codes;
          audit_message = or_empty x.explanation;
          high_assurance = x.planned_provider_key == some "entra_verified_id";
        },
      )

  -- the other branch of `_normalize_verifier_results`
  unfoldable pub result_of_connector : Item F → String × VerifierResult F
  unfolding provider_status clamp dedupe
  result_of_connector x =
      let (status, bad_status) = provider_status x.status in
      let (confidence, bad_confidence) =
        safe_float x.verification_confidence (if bad_status then float_zero else float_one) in
      (
        or_empty (or_else x.field_id (some "dummy")),
        record {
          connector_id =
              or_empty (or_else x.connector_id (or_else x.provider_key (some "provider")));
          status = status;
          verification_confidence = clamp (some confidence);
          reason_codes = with_malformed (bad_status || bad_confidence) x.reason_codes;
          audit_message = "";
          high_assurance = x.assurance_class == some "HIGH";
        },
      )

  -- `_normalize_verifier_results`, each result with the id of its field
  unfoldable pub verifier_results : List (Item F) → List (String × VerifierResult F)
  unfolding result_of_task result_of_connector
  verifier_results [] = []
  verifier_results (x ∷ items) =
      (if is_task_result x then result_of_task x else result_of_connector x)
      ∷ verifier_results items

  abbrev pub just_results : List (String × VerifierResult F) → List (VerifierResult F)
  just_results [] = []
  just_results (e ∷ results) = e.1 ∷ just_results results
  -- `verifier_by_field`, to which later results of a field are put in the place of earlier ones
