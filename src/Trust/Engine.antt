-- ===== src/Trust/Engine.antt =====
-- trust/trust_engine.py, evaluate_trust: fields and connector results are normalised, decided one by
-- one and as claims, and one of the two verdicts is given. Values are texts.
pub mod Mandatory
use verification_engine.Trust.Findings.{FinalVerdict, TrustFindingsResult, build_trust_findings}
use verification_engine.Trust.Items.{
  ConnectorResult, Item, canonical_results, has_task_result_shape, items_of, just_results,
  safe_canonical_result, verifier_results,
}
use verification_engine.Base.{
  Bool, Floats, List, Option, String, [], bool_eq, contains, false, float_one, float_zero, get_key,
  if◌then◌else◌, nat_eq, none, not, option_eq, or_else, or_empty, put_key, replace_char, some,
  string_eq, strip, title, true, truthy, ℕ, ◌&&◌, ◌++◌, ◌==◌, ◌||◌, ◌∷◌,
}
use verification_engine.Trust.Claims.{Claim, ClaimFinding, Color, color_eq, green}
use verification_engine.Trust.Fields.{
  FieldDecision, Verdict, VerifierResult, build_final_verdict, determine_field_decision,
  verifier_status_eq,
}

pub record TrustField (F : Type 0) : Type 0 where
  pub value : String
  pub confidence : F
  pub mandatory : Bool

-- An entry of a list of fields
pub record ListedField (F : Type 0) : Type 0 where
  pub name : Option String
  pub field_id : Option String
  pub value : Option String
  pub confidence : Option F
  pub is_mandatory : Bool

pub data RawFields (F : Type 0) : Type 0 where
  no_fields : RawFields F
  by_name : List (String × String) → RawFields F
  listed : List (Option (ListedField F)) → RawFields F

pub record TrustInput (F : Type 0) : Type 0 where
  pub fields : RawFields F
  pub confidence : List (String × F)

-- The dict of fields
abbrev pub Fields : Type 0 → Type 0
Fields F = List (String × TrustField F)

module _ {F : Type 0} where
  abbrev pub default_at : Option (TrustField F) → String → TrustField F → Fields F → Fields F
  default_at (some old) key field fields = fields
  default_at none key field fields = fields ++ ((key, field) ∷ [])

  -- `fields.setdefault(field_id, …)`
  abbrev pub set_default : String → TrustField F → Fields F → Fields F
  set_default key field fields = default_at (get_key key fields) key field fields

  -- The arguments of one claim of `_claims_from_trust_fields`
  unfoldable pub claim_of : String × TrustField F → Claim F
  unfolding title replace_char strip
  claim_of (field_id, field) = record {
    claim_id = some field_id;
    credential_id = some field_id;
    field_id = some field_id;
    label = some (title (replace_char b'_' " " field_id));
    canonical_label = none;
    claim_type = some "generic_claim";
    requires_verification = some field.mandatory;
    has_extracted_value = some (truthy (strip field.value));
    ai_confidence = some field.confidence;
    confidence = some field.confidence;
    extraction_confidence = none;
    reason_codes = [];
  }

  abbrev pub claims_of : List (String × TrustField F) → List (Claim F)
  claims_of [] = []
  claims_of (e ∷ fields) = claim_of e ∷ claims_of fields

module _ {F : Type 0} ⦃ops : Floats F⦄ where
  abbrev pub by_field :
      List (String × VerifierResult F)
      → List (String × VerifierResult F)
      → List (String × VerifierResult F)
  by_field table [] = table
  by_field table (e ∷ results) =
      by_field (if truthy e.0 && not (e.0 == "dummy") then put_key e.0 e.1 table else table) results

  abbrev or_primary :
      Option (VerifierResult F) → List (VerifierResult F) → Option (VerifierResult F)
  or_primary (some r) results = some r
  or_primary none [] = none
  or_primary none (r ∷ results) = some r

  abbrev confidence_or_zero : Option F → F
  confidence_or_zero none = float_zero
  confidence_or_zero (some n) = n

  abbrev fields_by_name :
      List String → List (String × F) → List (String × String) → Fields F → Fields F
  fields_by_name required confidences [] fields = fields
  fields_by_name required confidences (e ∷ raw) fields = fields_by_name required confidences raw (
      put_key e.0
        (record {
          value = e.1;
          confidence = confidence_or_zero (get_key e.0 confidences);
          mandatory = contains required e.0;
        })
        fields)

  abbrev put_listed : List String → ListedField F → Fields F → Fields F
  put_listed required x fields =
      let key = or_empty (or_else x.name x.field_id) in
      if truthy key
      then put_key key
          (record {
            value = or_empty x.value;
            confidence = confidence_or_zero x.confidence;
            mandatory = x.is_mandatory || contains required key;
          })
          fields
      else fields

  abbrev fields_listed : List String → List (Option (ListedField F)) → Fields F → Fields F
  fields_listed required [] fields = fields
  fields_listed required (none ∷ raw) fields = fields_listed required raw fields
  fields_listed required (some x ∷ raw) fields =
      fields_listed required raw (put_listed required x fields)

  abbrev pub raw_fields : List String → TrustInput F → Fields F
  raw_fields required input = elim input.fields [
    | no_fields ↦ []
    | by_name raw ↦ fields_by_name required input.confidence raw []
    | listed raw ↦ fields_listed required raw []
  ]

  abbrev pub with_required : List String → Fields F → Fields F
  with_required [] fields = fields
  with_required (k ∷ required) fields =
      with_required required
        (set_default k (record { value = ""; confidence = float_zero; mandatory = true }) fields)

  -- `_normalize_trust_fields`
  unfoldable pub normalize_trust_fields : TrustInput F → List String → List (String × TrustField F)
  unfolding put_key get_key
  normalize_trust_fields input required = with_required required (raw_fields required input)

  -- The decision on one field
  unfoldable pub decide_field :
      List (String × VerifierResult F)
      → List (VerifierResult F)
      → String × TrustField F
      → FieldDecision F
  unfolding determine_field_decision get_key
  decide_field table results (field_id, field) = determine_field_decision (record {
    field_id = field_id;
    label = field_id;
    extracted_value = field.value;
    normalized_value = field.value;
    extraction_confidence = field.confidence;
    ai_confidence = field.confidence;
    grounding_confidence = float_one;
    verifier_result = or_primary (get_key field_id table) results;
    mandatory = field.mandatory;
    unsafe_or_malformed = false;
  })

  abbrev pub decisions_on :
      List (String × VerifierResult F)
      → List (VerifierResult F)
      → List (String × TrustField F)
      → List (FieldDecision F)
  decisions_on table results [] = []
  decisions_on table results (e ∷ fields) =
      decide_field table results e ∷ decisions_on table results fields

-- What `evaluate_trust` returns
pub record TrustEvaluation (F : Type 0) : Type 0 where
  pub outcome : Color
  pub reason_codes : List String
  pub connector_ids : List String
  pub explanation : String
  pub risk_level : String
  pub claim_findings : List (ClaimFinding F)
  pub green_count : ℕ
  pub amber_count : ℕ
  pub red_count : ℕ
  pub verifier_backed_evidence : Bool

-- A verdict of the fields as the payload, in the columns of the canonical one
abbrev pub as_final : Verdict → FinalVerdict
as_final v = record {
  outcome = v.outcome;
  reason_codes = v.reason_codes;
  connector_ids = v.connector_ids;
  explanation = v.explanation;
  risk_level = v.risk_level;
}

module _ {F : Type 0} where
  abbrev pub evaluation_of : FinalVerdict → TrustFindingsResult F → TrustEvaluation F
  evaluation_of verdict canonical = record {
    outcome = verdict.outcome;
    reason_codes = if verdict.outcome == green then [] else verdict.reason_codes;
    connector_ids = verdict.connector_ids;
    explanation = verdict.explanation;
    risk_level = verdict.risk_level;
    claim_findings = canonical.claim_findings;
    green_count = canonical.green_count;
    amber_count = canonical.amber_count;
    red_count = canonical.red_count;
    verifier_backed_evidence = canonical.verifier_backed_evidence;
  }

module _ {F : Type 0} ⦃ops : Floats F⦄ where
  -- The verdict by fields
  unfoldable pub fields_verdict : List (Item F) → List (String × TrustField F) → Verdict
  unfolding build_final_verdict verifier_results decide_field put_key
  fields_verdict items fields =
      let results = verifier_results items in
      build_final_verdict (decisions_on (by_field [] results) (just_results results) fields)
        (just_results results) false []

  -- The verdict by claims
  unfoldable pub claims_verdict :
      List (Item F) → List (String × TrustField F) → List String → TrustFindingsResult F
  unfolding build_trust_findings claim_of safe_canonical_result
  claims_verdict items fields required_fields =
      build_trust_findings (claims_of fields) (canonical_results items) required_fields

  -- `evaluate_trust`, of whose policy the required fields are read
  unfoldable pub evaluate_trust : TrustInput F → ConnectorResult F → List String → TrustEvaluation F
  unfolding normalize_trust_fields fields_verdict claims_verdict
  evaluate_trust trust_input connector_result required_fields =
      let fields = normalize_trust_fields trust_input required_fields in
      let items = items_of connector_result in
      let canonical = claims_verdict items fields required_fields in
      evaluation_of
        (if has_task_result_shape connector_result
          then canonical.final_verdict
          else as_final (fields_verdict items fields))
        canonical
