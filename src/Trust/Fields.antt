-- ===== src/Trust/Fields.antt =====
-- trust/trust_engine.py: the decision on one field and the roll-up of all fields.
pub mod Overrides
pub mod Rollup
pub mod Unverified
use verification_engine.Base.{
  Bool, Eq, Floats, List, Option, String, [], any, bool_eq, dedupe, float_zero, if◌then◌else◌,
  nat_eq, none, not, option_eq, select, some, string_eq, strip, true, truthy, ◌&&◌, ◌++◌, ◌==◌, ◌∷◌,
}
use verification_engine.Trust.Claims.{Color, amber, clamp, color_eq, green, red}

-- the statuses of VerifierResult
pub data VerifierStatus : Type 0 where
  verified mismatch timeout error skipped not_applicable : VerifierStatus

VerifierStatus-discrete : Discrete VerifierStatus
VerifierStatus-discrete = hlevel

instance unfoldable pub verifier_status_eq : Eq VerifierStatus
unfolding VerifierStatus-discrete
verifier_status_eq = record { dec = VerifierStatus-discrete }

pub record VerifierResult (F : Type 0) : Type 0 where
  pub connector_id : String
  pub status : VerifierStatus
  pub verification_confidence : F
  pub reason_codes : List String
  pub audit_message : String
  pub high_assurance : Bool

-- FieldDecision; its bounding boxes are attached elsewhere
pub record FieldDecision (F : Type 0) : Type 0 where
  pub field_id : String
  pub label : String
  pub extracted_value : String
  pub normalized_value : String
  pub status : Color
  pub final_confidence : F
  pub extraction_confidence : F
  pub ai_confidence : F
  pub verification_confidence : F
  pub grounding_confidence : F
  pub reason_codes : List String
  pub source_api : Option String
  pub audit_message : String

-- The arguments of `determine_field_decision`.
pub record FieldInput (F : Type 0) : Type 0 where
  pub field_id : String
  pub label : String
  pub extracted_value : String
  pub normalized_value : String
  pub extraction_confidence : F
  pub ai_confidence : F
  pub grounding_confidence : F
  pub verifier_result : Option (VerifierResult F)
  pub mandatory : Bool
  pub unsafe_or_malformed : Bool

abbrev or_reason : List String → String → List String
or_reason [] default = default ∷ []
or_reason (c ∷ codes) default = c ∷ codes

module _ {F : Type 0} ⦃ops : Floats F⦄ where
  abbrev pub verification_confidence_of : Option (VerifierResult F) → F
  verification_confidence_of none = float_zero
  verification_confidence_of (some r) = r.verification_confidence

  abbrev source_api_of : Option (VerifierResult F) → Option String
  source_api_of none = none
  source_api_of (some r) = some r.connector_id

  abbrev audit_message_of : Option (VerifierResult F) → String
  audit_message_of none = "No external verifier evidence provided."
  audit_message_of (some r) = r.audit_message

  -- `_build_decision`; the model's validator clamps the confidences
  abbrev pub build_decision : FieldInput F → Color → F → List String → String → FieldDecision F
  build_decision input status final_confidence reason_codes audit_message = record {
    field_id = input.field_id;
    label = input.label;
    extracted_value = input.extracted_value;
    normalized_value = input.normalized_value;
    status = status;
    final_confidence = clamp (some final_confidence);
    extraction_confidence = clamp (some input.extraction_confidence);
    ai_confidence = clamp (some input.ai_confidence);
    verification_confidence = clamp (some (verification_confidence_of input.verifier_result));
    grounding_confidence = clamp (some input.grounding_confidence);
    reason_codes = reason_codes;
    source_api = source_api_of input.verifier_result;
    audit_message = audit_message;
  }

  -- The weighted sum 0.40 e + 0.25 a + 0.25 v + 0.10 g, added from the left.
  unfoldable pub fuse : (extraction ai verification grounding : F) → F
  fuse extraction ai verification grounding =
      ops.add
        (ops.add (ops.add (ops.mul (ops.decimal 40 2) extraction) (ops.mul (ops.decimal 25 2) ai))
          (ops.mul (ops.decimal 25 2) verification))
        (ops.mul (ops.decimal 10 2) grounding)

  abbrev pub fused : FieldInput F → F
  fused input =
      fuse input.extraction_confidence input.ai_confidence
        (verification_confidence_of input.verifier_result) input.grounding_confidence

  abbrev is_unverified : Option (VerifierResult F) → Bool
  is_unverified none = true
  is_unverified (some r) = r.status == skipped

  -- sections 2 and 3 of the function: fusion and thresholds
  unfoldable pub decide_by_score : FieldInput F → FieldDecision F
  decide_by_score input =
      if ops.le (ops.decimal 80 2) (fused input)
      then build_decision input green (fused input)
          (if is_unverified input.verifier_result then "UNVERIFIED_HIGH_CONFIDENCE" ∷ [] else [])
          (audit_message_of input.verifier_result)
      else if ops.le (ops.decimal 40 2) (fused input)
      then build_decision input amber (fused input) ("LOW_CONFIDENCE_REVIEW_REQUIRED" ∷ [])
          (audit_message_of input.verifier_result)
      else build_decision input red (fused input) ("INSUFFICIENT_CONFIDENCE" ∷ [])
          (audit_message_of input.verifier_result)

  -- the overrides by the verifier's status; the rest of the function is the last argument
  unfoldable pub decide_by_verifier :
      FieldInput F → Option (VerifierResult F) → FieldDecision F → FieldDecision F
  decide_by_verifier input none rest = rest
  decide_by_verifier input (some r) rest =
      if r.status == mismatch
      then build_decision input red float_zero (or_reason r.reason_codes "VERIFIER_MISMATCH")
          r.audit_message
      else if r.status == timeout
      then (if r.high_assurance
          then build_decision input red float_zero
              (or_reason r.reason_codes "MANDATORY_VERIFIER_TIMEOUT") r.audit_message
          else build_decision input amber r.verification_confidence
              (or_reason r.reason_codes "OPTIONAL_VERIFIER_TIMEOUT") r.audit_message)
      else if r.status == error
      then build_decision input (if r.high_assurance then red else amber) r.verification_confidence
          (or_reason r.reason_codes "VERIFIER_ERROR") r.audit_message
      else rest

  abbrev pub is_missing : FieldInput F → Bool
  is_missing input = input.mandatory && not (truthy (strip input.extracted_value))

  unfoldable pub determine_field_decision : FieldInput F → FieldDecision F
  determine_field_decision input =
      if input.unsafe_or_malformed
      then build_decision input red float_zero ("UNSAFE_DOCUMENT" ∷ [])
          "Document flagged as unsafe or malformed."
      else if is_missing input
      then build_decision input red float_zero ("MISSING_MANDATORY_FIELD" ∷ [])
          "Mandatory field is missing from extraction."
      else decide_by_verifier input input.verifier_result (decide_by_score input)

-- the verdict of `build_final_verdict`
pub record Verdict : Type 0 where
  pub outcome : Color
  pub reason_codes : List String
  pub connector_ids : List String
  pub explanation : String
  pub risk_level : String

module _ {F : Type 0} where
  abbrev pub decided : Color → FieldDecision F → Bool
  decided c d = d.status == c

  abbrev pub open_codes : List (FieldDecision F) → List String
  open_codes [] = []
  open_codes (d ∷ ds) = (if not (d.status == green) then d.reason_codes else []) ++ open_codes ds

  abbrev connectors : List (VerifierResult F) → List String
  connectors [] = []
  connectors (r ∷ rs) = r.connector_id ∷ connectors rs

  -- Python leaves the order of the set of connector ids open; here it is that of first occurrence.
  unfoldable pub build_final_verdict :
      List (FieldDecision F) → List (VerifierResult F) → Bool → List String → Verdict
  build_final_verdict decisions results unsafe_or_malformed document_reason_codes =
      let connector_ids = dedupe (select truthy (connectors results)) in
      let reasons = dedupe (document_reason_codes ++ open_codes decisions) in
      if unsafe_or_malformed
      then record {
        outcome = red;
        reason_codes = document_reason_codes ++ "UNSAFE_DOCUMENT" ∷ [];
        connector_ids = connector_ids;
        explanation =
            "Document cannot be processed safely due to malware or malformed PDF structure.";
        risk_level = "HIGH";
      }
      else if any (decided red) decisions
      then record {
        outcome = red;
        reason_codes = reasons;
        connector_ids = connector_ids;
        explanation =
            "Critical mismatch found between document fields and verifier sources, or mandatory evidence failed.";
        risk_level = "HIGH";
      }
      else if any (decided amber) decisions
      then record {
        outcome = amber;
        reason_codes = reasons;
        connector_ids = connector_ids;
        explanation =
            "Document requires manual review due to ambiguous extraction, low AI confidence, or missing optional verifiers.";
        risk_level = "MEDIUM";
      }
      else record {
        outcome = green;
        reason_codes = reasons;
        connector_ids = connector_ids;
        explanation = "All mandatory claims are grounded, verified, and not contradicted.";
        risk_level = "LOW";
      }
