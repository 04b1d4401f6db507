-- ===== src/Tests/Engine.antt =====
-- A document whose one field a registry verified: backend/app/trust/trust_engine.py.
use verification_engine.Base.{
  All, Floats, String, [], bool_eq, contains, false, get_key, myriad_floats, nat_eq, none, not,
  option_eq, put_key, refl, some, string_eq, strip, true, upper, ℕ, ◌||◌, ◌∷◌, ◌≡◌, ◌⊎◌,
}
use verification_engine.Trust.Claims.{
  build_claim_finding, color_eq, green, has_verifier_evidence, is_contradicted, is_matched,
  is_required_claim_missing, red, status_and_reasons,
}
use verification_engine.Trust.Claims.Best.{
  best_from, best_result_for_claim, candidates_for, priority, ranks_below,
}
use verification_engine.Trust.Findings.{
  build_result, build_trust_findings, judge, missing_ids, required_ids,
}
use verification_engine.Trust.Findings.Evidence.{IsSupported}
use verification_engine.Trust.Fields.{
  build_final_verdict, decide_by_score, decide_by_verifier, determine_field_decision, fuse,
  verifier_status_eq,
}
use verification_engine.Trust.Items.{
  Item, absent, canonical_results, given, has_task_result_shape, items_of, nothing, single,
}
use verification_engine.Trust.Engine.{
  TrustEvaluation, TrustInput, by_name, claims_of, decide_field, evaluate_trust, fields_verdict,
  normalize_trust_fields,
}
use verification_engine.Trust.Engine.Mandatory.{HasValue, evaluate_trust-green, names}

instance unfoldable engine_floats : Floats ℕ
engine_floats = myriad_floats

abbrev verified_item : Item ℕ
verified_item = record {
  task_id = some "t1";
  credential_id = some "name";
  field_id = none;
  connector_id = none;
  provider_key = none;
  provider_id = none;
  verifier_key = some "identity_db";
  verifier_label = none;
  executed_provider_key = some (some "local_mock");
  executed_provider_label = none;
  planned_provider_key = none;
  preferred_provider_key = none;
  task_status = none;
  audit_status = some (some "VERIFIED");
  outcome_color = none;
  status = none;
  reason_codes = [];
  confidence = given 9500;
  verification_confidence = absent;
  manual_review_recommended = false;
  assurance_class = none;
  explanation = none;
}

abbrev trust_input : TrustInput ℕ
trust_input = record { fields = by_name (("name", "Ada") ∷ []); confidence = ("name", 9900) ∷ [] }

abbrev evaluated : TrustEvaluation ℕ
evaluated = evaluate_trust trust_input (single verified_item) ("name" ∷ [])

evaluated-green : evaluated.outcome ≡ green
unfolding evaluate_trust build_trust_findings build_result best_result_for_claim judge color_eq
    build_claim_finding status_and_reasons is_required_claim_missing option_eq bool_eq
    candidates_for string_eq is_contradicted upper best_from is_matched has_verifier_evidence
    missing_ids required_ids engine_floats ranks_below nat_eq priority
evaluated-green = refl

evaluate_trust-green_example :
    (evaluated.reason_codes ≡ [])
    × All HasValue (normalize_trust_fields trust_input ("name" ∷ []))
    × ((k : String)
        → (not (contains ("name" ∷ []) k)
            || contains (names (normalize_trust_fields trust_input ("name" ∷ []))) k)
          ≡ true)
    × ((has_task_result_shape (single verified_item) ≡ false)
        ⊎ All
            (λ claim.
              IsSupported claim
                (best_result_for_claim claim (canonical_results (items_of (single verified_item)))))
            (claims_of (normalize_trust_fields trust_input ("name" ∷ []))))
evaluate_trust-green_example =
    evaluate_trust-green trust_input (single verified_item) ("name" ∷ []) evaluated-green

missing_name : (evaluate_trust trust_input nothing ("name" ∷ "date" ∷ [])).outcome ≡ red
unfolding evaluate_trust normalize_trust_fields fields_verdict build_final_verdict decide_field
    determine_field_decision color_eq option_eq bool_eq string_eq engine_floats put_key get_key
    strip decide_by_verifier decide_by_score fuse
missing_name = refl
