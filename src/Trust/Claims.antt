-- ===== src/Trust/Claims.antt =====
-- trust/findings.py: the finding of one claim. The dicts that the code reads are records of the
-- keys that it reads; a key whose absence matters beside None is an option of an option. Bounding
-- boxes are copied for display only and are left out.
pub mod Best
use verification_engine.Base.{
  Bool, Eq, Floats, List, Option, String, [], any, bool_eq, contains, false, float_max, float_min,
  float_one, float_zero, if◌then◌else◌, nat_eq, none, option_eq, or_else, or_empty, or_zero,
  present, replace_char, some, string_eq, strip, title, true, truthy, upper, ◌&&◌, ◌++◌, ◌<>◌, ◌==◌,
  ◌||◌, ◌∷◌,
}
use verification_engine.Trust.Codes.{
  dedupe_codes, manual_review_reason_codes, safe_identifier, safe_reason_codes, safe_string,
}

-- ClaimFindingStatus
pub data Color : Type 0 where
  green amber red : Color

Color-discrete : Discrete Color
Color-discrete = hlevel

instance unfoldable pub color_eq : Eq Color
unfolding Color-discrete
color_eq = record { dec = Color-discrete }

pub record Claim (F : Type 0) : Type 0 where
  pub claim_id : Option String
  pub credential_id : Option String
  pub field_id : Option String
  pub label : Option String
  pub canonical_label : Option String
  pub claim_type : Option String
  pub requires_verification : Option Bool
  pub has_extracted_value : Option Bool
  pub ai_confidence : Option F
  pub confidence : Option F
  pub extraction_confidence : Option F
  pub reason_codes : List String

pub record TaskResult (F : Type 0) : Type 0 where
  pub task_id : Option String
  pub credential_id : Option String
  pub claim_id : Option String
  pub field_id : Option String
  pub audit_status : Option String
  pub outcome_color : Option String
  pub task_status : Option String
  pub status : Option String
  pub executed_provider_key : Option String
  pub planned_provider_key : Option String
  pub preferred_provider_key : Option String
  pub connector_id : Option String
  pub provider_id : Option String
  pub verifier_key : Option String
  pub executed_provider_label : Option String
  pub planned_provider_label : Option String
  pub preferred_provider_label : Option String
  pub verifier_label : Option String
  pub reason_codes : List String
  pub confidence : Option (Option F)
  pub verification_confidence : Option F
  pub manual_review_recommended : Bool

pub record ClaimFinding (F : Type 0) : Type 0 where
  pub finding_id : String
  pub claim_id : String
  pub credential_id : String
  pub field_id : Option String
  pub label : String
  pub claim_type : String
  pub status : Color
  pub ai : F
  pub verifier : F
  pub final : F
  pub reason_codes : List String
  pub explanation : String
  pub source_provider_id : Option String
  pub source_provider_label : Option String
  pub verifier_refs : List String
  pub manual_review_required : Bool

-- `_first_present` over the values of the keys
abbrev pub first_present : List (Option String) → Option String
first_present [] = none
first_present (none ∷ values) = first_present values
first_present (some value ∷ values) = if truthy value then some value else first_present values

abbrev first_number {ℓ} : {F : Type ℓ} → List (Option F) → Option F
first_number [] = none
first_number (none ∷ values) = first_number values
first_number (some value ∷ values) = some value

-- `bool(claim.get("requires_verification", True))`
abbrev pub true_unless : Option Bool → Bool
true_unless none = true
true_unless (some b) = b

-- `str(value or "").upper()`
abbrev pub word : Option String → String
word value = upper (or_empty value)

-- `[str(code).strip().upper() for code in codes if str(code).strip()]`
unfoldable pub plain_codes : List String → List String
unfolding strip upper
plain_codes [] = []
plain_codes (code ∷ codes) =
    let rest = plain_codes codes in if truthy (strip code) then upper (strip code) ∷ rest else rest

abbrev pub manual_routes : List String
manual_routes =
    "NO_PROVIDER_AVAILABLE" ∷ "NO_EXECUTABLE_PROVIDER" ∷ "MANUAL_REVIEW_REQUIRED"
    ∷ "MANUAL_REVIEW_PROVIDER_SELECTED" ∷ "PROVIDER_NOT_REGISTERED" ∷ "VERIFIER_NOT_REGISTERED" ∷ []

abbrev pub or_codes : List String → List String → List String
or_codes [] ys = ys
or_codes (x ∷ xs) ys = x ∷ xs

module _ {F : Type 0} where
  -- `_is_required_claim_missing`
  unfoldable pub is_required_claim_missing : Claim F → Bool
  is_required_claim_missing claim =
      true_unless claim.requires_verification && claim.has_extracted_value == some false

  -- `_has_verifier_evidence`
  unfoldable pub has_verifier_evidence : TaskResult F → Bool
  has_verifier_evidence result =
      present result.task_id
      && (present result.executed_provider_key
          || present result.planned_provider_key
          || present result.preferred_provider_key
          || present result.verifier_key
          || present result.connector_id
          || present result.provider_id)

  -- the test of the RED branch
  unfoldable pub is_contradicted : TaskResult F → Bool
  is_contradicted result =
      word result.audit_status == "MISMATCH"
      || word result.outcome_color == "RED"
      || contains ("MISMATCH" ∷ "MISMATCHED" ∷ []) (word result.status)

  -- the test of the GREEN branch
  unfoldable pub is_matched : TaskResult F → Bool
  is_matched result =
      (word result.audit_status == "VERIFIED"
        || contains ("VERIFIED" ∷ "MATCHED" ∷ []) (word result.status))
      && (contains ("" ∷ "GREEN" ∷ []) (word result.outcome_color)
          || contains ("VERIFIED" ∷ "MATCHED" ∷ []) (word result.status))
      && has_verifier_evidence result

  -- the reasons of the AMBER branches
  unfoldable pub unsettled_reasons : TaskResult F → List String
  unfolding plain_codes
  unsettled_reasons result =
      if word result.audit_status == "MANUAL_REVIEW" || word result.task_status == "MANUAL_REVIEW"
      then "MANUAL_REVIEW_REQUIRED" ∷ []
      else if word result.task_status == "SKIPPED"
          || word result.audit_status == "NOT_APPLICABLE"
          || contains ("SKIPPED" ∷ "NOT_APPLICABLE" ∷ []) (word result.status)
      then "NO_EXECUTABLE_PROVIDER" ∷ []
      else if contains ("FAILED" ∷ "ERROR" ∷ "TIMEOUT" ∷ []) (word result.task_status)
          || contains ("ERROR" ∷ "TIMEOUT" ∷ "UNAVAILABLE" ∷ []) (word result.status)
      then (if any (contains manual_routes) (plain_codes result.reason_codes)
          then or_codes (plain_codes result.reason_codes) ("MANUAL_REVIEW_REQUIRED" ∷ [])
          else "PROVIDER_UNAVAILABLE" ∷ [])
      else "NO_VERIFIER_EVIDENCE" ∷ []

  abbrev pub status_of_result : TaskResult F → Color × List String
  status_of_result result =
      if is_contradicted result
      then (red, "VERIFIER_MISMATCH" ∷ [])
      else if is_matched result
      then (green, "VERIFIER_EVIDENCE_MATCHED" ∷ [])
      else (amber, unsettled_reasons result)

  -- `_status_and_reasons`
  unfoldable pub status_and_reasons : Claim F → Option (TaskResult F) → Color × List String
  status_and_reasons claim result =
      if is_required_claim_missing claim
      then (amber, "REQUIRED_CLAIM_MISSING" ∷ "MANUAL_REVIEW_REQUIRED" ∷ [])
      else elim result [
        | none ↦ (
          amber,
          "NO_VERIFIER_EVIDENCE" ∷ "AI_ONLY_EVIDENCE" ∷ "LOW_CONFIDENCE_REVIEW_REQUIRED" ∷ [],
        )
        | some r ↦ status_of_result r
      ]

  -- `_requires_manual_review`
  unfoldable pub requires_manual_review : Color → List String → Option (TaskResult F) → Bool
  requires_manual_review status reason_codes result =
      status == amber
      && (elim result [ none ↦ false | some r ↦ r.manual_review_recommended ]
          || any (contains manual_review_reason_codes) reason_codes)

  -- `_safe_explanation`
  unfoldable pub safe_explanation : Color → Option (TaskResult F) → String
  safe_explanation green result = "Verifier evidence matched this claim."
  safe_explanation red result = "Verifier evidence contradicted this claim."
  safe_explanation amber none = "This claim lacks verifier evidence and requires manual review."
  safe_explanation amber (some r) =
      "This claim requires manual review because verifier evidence is missing or unavailable."

  abbrev pub codes_of : Option (TaskResult F) → List String
  codes_of none = []
  codes_of (some r) = r.reason_codes

  abbrev provider_of : Option (TaskResult F) → Option String
  provider_of none = none
  provider_of (some r) = first_present (
      r.executed_provider_key ∷ r.planned_provider_key ∷ r.preferred_provider_key ∷ r.connector_id
      ∷ r.provider_id ∷ r.verifier_key ∷ [])

  abbrev provider_label_of : Option (TaskResult F) → Option String
  provider_label_of none = none
  provider_label_of (some r) = first_present (
      r.executed_provider_label ∷ r.planned_provider_label ∷ r.preferred_provider_label
      ∷ r.verifier_label ∷ [])

  reasons_with : Option (TaskResult F) → (explicit default_reasons : List String) → List String
  unfolding dedupe_codes
  reasons_with none explicit default_reasons = dedupe_codes (explicit ++ default_reasons)
  reasons_with (some r) explicit default_reasons = or_codes explicit (dedupe_codes default_reasons)

  -- `[str(result["task_id"])] if result and result.get("task_id") else []`
  abbrev pub refs_of : Option (TaskResult F) → List String
  refs_of none = []
  refs_of (some r) = if present r.task_id then or_empty r.task_id ∷ [] else []

module _ {F : Type 0} ⦃ops : Floats F⦄ where
  -- `_clamp`
  unfoldable pub clamp : Option F → F
  clamp value = float_max float_zero (float_min float_one (or_zero value))

  abbrev confidence_of : Option (TaskResult F) → F
  confidence_of none = float_zero
  confidence_of (some r) = elim r.confidence [
    | none ↦ clamp r.verification_confidence
    | some c ↦ clamp c
  ]

  -- `_build_claim_finding`; the confidences are clamped once more by the model's validator
  unfoldable pub build_claim_finding : Claim F → Option (TaskResult F) → ClaimFinding F
  unfolding reasons_with
  build_claim_finding claim result =
      let claim_id =
        or_empty (or_else claim.claim_id (or_else claim.credential_id claim.field_id)) in
      let credential_id = or_empty (or_else claim.credential_id (some claim_id)) in
      let missing = is_required_claim_missing claim in
      let evidence = if missing then none else result in
      let (status, default_reasons) = status_and_reasons claim evidence in
      let explicit =
        dedupe_codes
          (safe_reason_codes claim.reason_codes ++ safe_reason_codes (codes_of evidence)) in
      let reasons = reasons_with evidence explicit default_reasons in
      let ai = clamp (
        first_number (claim.ai_confidence ∷ claim.confidence ∷ claim.extraction_confidence ∷ [])) in
      let verifier = confidence_of evidence in
      let named = or_empty (or_else (some claim_id) (some credential_id)) in
      record {
        finding_id = "finding-" <> named;
        claim_id = named;
        credential_id = credential_id;
        field_id = safe_string claim.field_id;
        label = or_empty (
            or_else
              (safe_string (or_else claim.label (or_else claim.canonical_label (some "Claim"))))
              (some "Claim"));
        claim_type = or_empty (
            or_else (safe_string (or_else claim.claim_type (some "generic_claim")))
              (some "generic_claim"));
        status = status;
        ai = clamp (some ai);
        verifier = clamp (some verifier);
        final = elim evidence [
          | none ↦ clamp (some (float_min ai (ops.decimal 79 2)))
          | some r ↦ clamp (some verifier)
        ];
        reason_codes = reasons;
        explanation = safe_explanation status evidence;
        source_provider_id = safe_string (provider_of evidence);
        source_provider_label = safe_string (provider_label_of evidence);
        verifier_refs = refs_of evidence;
        manual_review_required = requires_manual_review status reasons evidence;
      }

  -- `_missing_required_finding`
  unfoldable pub missing_required_finding : String → ClaimFinding F
  missing_required_finding claim_id =
      let safe_id = or_empty (or_else (safe_identifier claim_id) (some "required-claim")) in
      record {
        finding_id = "finding-" <> safe_id;
        claim_id = safe_id;
        credential_id = safe_id;
        field_id = some safe_id;
        label = title (replace_char b'-' " " (replace_char b'_' " " safe_id));
        claim_type = "generic_claim";
        status = amber;
        ai = float_zero;
        verifier = float_zero;
        final = float_zero;
        reason_codes = "REQUIRED_CLAIM_MISSING" ∷ "MANUAL_REVIEW_REQUIRED" ∷ [];
        explanation =
            "This required claim is missing verifier-ready evidence and requires manual review.";
        source_provider_id = none;
        source_provider_label = none;
        verifier_refs = [];
        manual_review_required = true;
      }
