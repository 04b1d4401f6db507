-- ===== src/Tests/Trust.antt =====
-- Concrete claims, fields and results: backend/app/trust.
use mathlib.Core.List.{Memᴰ}
use verification_engine.Base.{
  All, Floats, IsDistinct, List, Option, String, [], any, bool_eq, contains, false, myriad_floats,
  nat_eq, none, not, option_eq, refl, some, string_eq, true, upper, ℕ, ◌&&◌, ◌==◌, ◌||◌, ◌↔◌, ◌∷◌,
  ◌≡◌, ◌≢◌,
}
use verification_engine.Trust.Codes.{normalize_reason_code}
use verification_engine.Trust.Claims.{
  Claim, TaskResult, amber, build_claim_finding, color_eq, green, has_verifier_evidence,
  is_contradicted, is_matched, is_required_claim_missing, red, status_and_reasons,
}
use verification_engine.Trust.Findings.{
  build_result, build_trust_findings, finding_for, findings_for, is_backed, judge, missing_ids,
  present_keys, required_ids,
}
use verification_engine.Trust.Fields.{
  FieldDecision, FieldInput, VerifierResult, VerifierStatus, build_final_verdict, decided,
  determine_field_decision, verifier_status_eq,
}
use verification_engine.Trust.Claims.Best.{best_from, best_result_for_claim, candidates_for}
use verification_engine.Trust.Findings.Evidence.{IsSupported, green_needs_evidence}
use verification_engine.Trust.Findings.Contradiction.{
  contradiction_not_masked, contradicts, red_iff_contradicted,
}
use verification_engine.Trust.Fields.Rollup.{verdict_reasons, verdict_rollup}
use verification_engine.Trust.Fields.Unverified.{myriad_laws, unverified_not_green}

instance unfoldable test_floats : Floats ℕ
test_floats = myriad_floats

-- A code that names raw content with a space passes, since separators become "_" after the test.
raw_document_passes : normalize_reason_code "raw document" ≡ some "RAW_DOCUMENT"
unfolding normalize_reason_code nat_eq string_eq
raw_document_passes = refl

abbrev name_claim : Claim ℕ
name_claim = record {
  claim_id = some "c1";
  credential_id = some "cred1";
  field_id = none;
  label = some "Name";
  canonical_label = none;
  claim_type = some "identity";
  requires_verification = some true;
  has_extracted_value = some true;
  ai_confidence = some 9000;
  confidence = none;
  extraction_confidence = none;
  reason_codes = [];
}

abbrev result_of : String → String → TaskResult ℕ
result_of status color = record {
  task_id = some "t1";
  credential_id = some "cred1";
  claim_id = none;
  field_id = none;
  audit_status = some status;
  outcome_color = some color;
  task_status = some "SUCCEEDED";
  status = none;
  executed_provider_key = some "local_mock";
  planned_provider_key = none;
  preferred_provider_key = none;
  connector_id = none;
  provider_id = none;
  verifier_key = some "identity_db";
  executed_provider_label = none;
  planned_provider_label = none;
  preferred_provider_label = none;
  verifier_label = none;
  reason_codes = [];
  confidence = some (some 9500);
  verification_confidence = none;
  manual_review_recommended = false;
}

abbrev matching_result : TaskResult ℕ
matching_result = result_of "VERIFIED" "green"

abbrev mismatching_result : TaskResult ℕ
mismatching_result = result_of "MISMATCH" "red"

matched_is_green :
    (build_trust_findings (name_claim ∷ []) (matching_result ∷ []) ("c1" ∷ [])).overall_outcome
    ≡ green
unfolding build_trust_findings build_result best_result_for_claim judge color_eq build_claim_finding
    status_and_reasons is_required_claim_missing option_eq bool_eq candidates_for string_eq
    is_contradicted upper best_from is_matched has_verifier_evidence missing_ids required_ids
matched_is_green = refl

green_needs_evidence_example :
    All
      (λ claim. IsSupported claim (best_result_for_claim claim (matching_result ∷ [])))
      (name_claim ∷ [])
    × All
        (λ k.
          contains (present_keys (findings_for (matching_result ∷ []) (name_claim ∷ []))) k ≡ true)
        (required_ids ("c1" ∷ []) (name_claim ∷ []))
    × (any is_backed (findings_for (matching_result ∷ []) (name_claim ∷ [])) ≡ true)
green_needs_evidence_example =
    green_needs_evidence (name_claim ∷ []) (matching_result ∷ []) ("c1" ∷ []) matched_is_green

abbrev both_results : List (TaskResult ℕ)
both_results = matching_result ∷ mismatching_result ∷ []

contradiction_not_masked_example : (finding_for both_results name_claim).status ≡ red
unfolding is_required_claim_missing option_eq bool_eq string_eq upper candidates_for
contradiction_not_masked_example =
    contradiction_not_masked name_claim both_results mismatching_result refl
      (Memᴰ.tail (Memᴰ.head refl)) refl

red_iff_contradicted_example :
    ((build_trust_findings (name_claim ∷ []) both_results []).overall_outcome ≡ red) ↔ (
      any (λ claim. contradicts claim (best_result_for_claim claim both_results)) (name_claim ∷ [])
      ≡ true)
red_iff_contradicted_example = red_iff_contradicted (name_claim ∷ []) both_results []

abbrev field_input : Option (VerifierResult ℕ) → FieldInput ℕ
field_input result = record {
  field_id = "f1";
  label = "Name";
  extracted_value = "A";
  normalized_value = "A";
  extraction_confidence = 10000;
  ai_confidence = 10000;
  grounding_confidence = 10000;
  verifier_result = result;
  mandatory = true;
  unsafe_or_malformed = false;
}

abbrev mismatch_report : VerifierResult ℕ
mismatch_report = record {
  connector_id = "local_mock";
  status = VerifierStatus.mismatch;
  verification_confidence = 10000;
  reason_codes = [];
  audit_message = "";
  high_assurance = true;
}

abbrev decisions : List (FieldDecision ℕ)
decisions = determine_field_decision (field_input (some mismatch_report)) ∷ []

verdict_rollup_example :
    (((build_final_verdict decisions (mismatch_report ∷ []) false ("EXTRA" ∷ [])).outcome ≡ red)
      ↔ ((false || any (decided red) decisions) ≡ true))
    × (((build_final_verdict decisions (mismatch_report ∷ []) false ("EXTRA" ∷ [])).outcome ≡ green)
        ↔ ((false || any (decided red) decisions || any (decided amber) decisions) ≡ false))
verdict_rollup_example = verdict_rollup decisions (mismatch_report ∷ []) false ("EXTRA" ∷ [])

verdict_reasons_example :
    IsDistinct
      (build_final_verdict decisions (mismatch_report ∷ []) false ("EXTRA" ∷ [])).reason_codes
    × ((c : String)
        → contains
            (build_final_verdict decisions (mismatch_report ∷ []) false ("EXTRA" ∷ [])).reason_codes
            c
          ≡ (contains ("EXTRA" ∷ []) c
              || any (λ d. not (d.status == green) && contains d.reason_codes c) decisions))
verdict_reasons_example = verdict_reasons decisions (mismatch_report ∷ []) ("EXTRA" ∷ [])

unverified_not_green_example : (determine_field_decision (field_input none)).status ≢ green
unfolding test_floats
unverified_not_green_example =
    unverified_not_green myriad_laws (field_input none) refl refl refl refl
