-- ===== src/Trust/Findings.antt =====
-- trust/findings.py: the findings of all claims and the document's verdict.
pub mod Evidence
pub mod Contradiction
use Prim.Native.Nat.{Ordering}
use Prim.Native.String.{compare}
use verification_engine.Base.{
  Bool, Floats, List, String, [], all, any, bool_eq, contains, count, dedupe, if◌then◌else◌, ltb,
  nat_eq, nonempty, not, option_eq, or_else, or_empty, select, string_eq, truthy, ℕ, ◌&&◌, ◌++◌,
  ◌==◌, ◌||◌, ◌∷◌,
}
use verification_engine.Trust.Codes.{dedupe_codes, safe_string}
use verification_engine.Trust.Claims.{
  Claim, ClaimFinding, Color, TaskResult, amber, build_claim_finding, color_eq, green,
  missing_required_finding, or_codes, red, true_unless,
}
use verification_engine.Trust.Claims.Best.{best_result_for_claim}

-- FinalVerdict, of agent_orchestration/schemas.py, with the fields that are set here
pub record FinalVerdict : Type 0 where
  pub outcome : Color
  pub reason_codes : List String
  pub connector_ids : List String
  pub explanation : String
  pub risk_level : String

pub record TrustFindingsResult (F : Type 0) : Type 0 where
  pub overall_outcome : Color
  pub final_verdict : FinalVerdict
  pub claim_findings : List (ClaimFinding F)
  pub green_count : ℕ
  pub amber_count : ℕ
  pub red_count : ℕ
  pub reason_codes : List String
  pub verifier_backed_evidence : Bool

-- `sorted(…)` of texts, by code points
unfoldable pub insert_text : String → List String → List String
insert_text s [] = s ∷ []
insert_text s (t ∷ ts) =
    let rest = insert_text s ts in elim (compare s t) [ Ordering.gt ↦ t ∷ rest | _ ↦ s ∷ t ∷ ts ]

unfoldable pub sort_texts : List String → List String
unfolding insert_text
sort_texts [] = []
sort_texts (s ∷ ss) = insert_text s (sort_texts ss)

verdict_codes : Color → List String → List String
unfolding dedupe_codes
verdict_codes green codes = dedupe_codes (codes ++ "ALL_REQUIRED_CHECKS_MATCHED" ∷ [])
verdict_codes amber codes = or_codes codes ("NO_VERIFIER_EVIDENCE" ∷ [])
verdict_codes red codes = codes

module _ {F : Type 0} where
  -- `_claim_key`
  unfoldable pub claim_key : Claim F → String
  unfolding safe_string
  claim_key claim =
      or_empty (safe_string (or_else claim.credential_id (or_else claim.claim_id claim.field_id)))

  abbrev pub claim_keys : List (Claim F) → List String
  claim_keys [] = []
  claim_keys (claim ∷ claims) =
      let rest = claim_keys claims in
      if true_unless claim.requires_verification then claim_key claim ∷ rest else rest

  -- `set(required_claim_ids or [])`, or else the keys of the claims that want verification
  unfoldable pub required_ids : List String → List (Claim F) → List String
  required_ids [] claims = claim_keys claims
  required_ids (k ∷ ks) claims = k ∷ ks

  abbrev pub finding_keys : ClaimFinding F → List String
  finding_keys f = select truthy (f.claim_id ∷ f.credential_id ∷ or_empty f.field_id ∷ [])

  abbrev pub present_keys : List (ClaimFinding F) → List String
  present_keys [] = []
  present_keys (f ∷ fs) = finding_keys f ++ present_keys fs

  -- `sorted(required_claim_ids - present)`
  unfoldable pub missing_ids : List String → List (ClaimFinding F) → List String
  unfolding sort_texts dedupe
  missing_ids required findings =
      sort_texts (dedupe (select (λ k. not (contains (present_keys findings) k)) required))

  abbrev pub has_color : Color → ClaimFinding F → Bool
  has_color c f = f.status == c

  abbrev pub is_backed : ClaimFinding F → Bool
  is_backed f = f.status == green && nonempty f.verifier_refs

  abbrev is_required : List String → ClaimFinding F → Bool
  is_required required f = contains required f.claim_id || contains required f.credential_id

  abbrev connector_texts : List (ClaimFinding F) → List String
  connector_texts [] = []
  connector_texts (f ∷ fs) = or_empty f.source_provider_id ∷ connector_texts fs

  abbrev all_codes : List (ClaimFinding F) → List String
  all_codes [] = []
  all_codes (f ∷ fs) = f.reason_codes ++ all_codes fs

  -- outcome, explanation and risk level
  unfoldable pub judge : List (ClaimFinding F) → List String → Color × String × String
  judge findings required =
      if ltb 0 (count (has_color red) findings)
      then (red, "At least one required claim has verifier-backed contradictory evidence.", "HIGH")
      else if ltb 0 (count (has_color amber) findings)
      then (
        amber, "At least one claim requires manual review or lacks executable verifier evidence.",
        "MEDIUM",
      )
      else if nonempty (select (is_required required) findings)
          && all (has_color green) (select (is_required required) findings)
          && any is_backed findings
      then (green, "All required claims have verifier-backed matching evidence.", "LOW")
      else (amber, "Required claims do not yet have verifier-backed evidence.", "MEDIUM")

  -- `_build_result`
  unfoldable pub build_result : List (ClaimFinding F) → List String → TrustFindingsResult F
  unfolding verdict_codes
  build_result findings required =
      let (outcome, explanation, risk_level) = judge findings required in
      let codes = verdict_codes outcome (dedupe_codes (all_codes findings)) in
      record {
        overall_outcome = outcome;
        final_verdict = record {
          outcome = outcome;
          reason_codes = codes;
          connector_ids = dedupe_codes (connector_texts findings);
          explanation = explanation;
          risk_level = risk_level;
        };
        claim_findings = findings;
        green_count = count (has_color green) findings;
        amber_count = count (has_color amber) findings;
        red_count = count (has_color red) findings;
        reason_codes = codes;
        verifier_backed_evidence = any is_backed findings;
      }

module _ {F : Type 0} ⦃ops : Floats F⦄ where
  abbrev pub finding_for : List (TaskResult F) → Claim F → ClaimFinding F
  finding_for results claim = build_claim_finding claim (best_result_for_claim claim results)

  abbrev pub findings_for : List (TaskResult F) → List (Claim F) → List (ClaimFinding F)
  findings_for results [] = []
  findings_for results (claim ∷ claims) = finding_for results claim ∷ findings_for results claims

  abbrev pub missing_findings : List String → List (ClaimFinding F)
  missing_findings [] = []
  missing_findings (k ∷ ks) = missing_required_finding k ∷ missing_findings ks

  -- `build_trust_findings`
  unfoldable pub build_trust_findings :
      List (Claim F) → List (TaskResult F) → List String → TrustFindingsResult F
  build_trust_findings claims results required_claim_ids =
      let required = required_ids required_claim_ids claims in
      let findings = findings_for results claims in
      build_result (findings ++ missing_findings (missing_ids required findings)) required
