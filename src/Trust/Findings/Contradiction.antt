-- ===== src/Trust/Findings/Contradiction.antt =====
-- A result that contradicts a claim is not hidden by better ones.
use mathlib.Core.Path.{subst}
use mathlib.Core.List.{Memᴰ}
use native.Mathlib.Nat.{le_trans}
use verification_engine.Base.{
  Bool, Floats, List, Option, String, [], any, ap, arith, bool_eq, count, count-append, false,
  if◌then◌else◌, ltb, nat_eq, none, not, option_eq, refl, some, string_eq, sym, true, ◌&&◌, ◌++◌,
  ◌==◌, ◌||◌, ◌↔◌, ◌∙◌, ◌∷◌, ◌≡◌, ◌≤◌,
}
use verification_engine.Trust.Claims.{
  Claim, Color, TaskResult, color_eq, is_contradicted, is_required_claim_missing,
  missing_required_finding, red, status_and_reasons, word,
}
use verification_engine.Trust.Claims.Best.{
  best_from, best_of, best_result_for_claim, candidates_for, priority, ranks_below,
}
use verification_engine.Trust.Findings.{
  build_result, build_trust_findings, finding_for, findings_for, has_color, missing_findings,
  missing_ids, required_ids,
}
use verification_engine.Trust.Findings.Evidence.{finding-status, judge-red}

module _ {F : Type 0} where
  -- The claim has its value, and its best result contradicts it.
  abbrev pub contradicts : Claim F → Option (TaskResult F) → Bool
  contradicts claim none = false
  contradicts claim (some r) = not (is_required_claim_missing claim) && is_contradicted r

  status-red :
      (claim : Claim F) (result : Option (TaskResult F))
      → ((status_and_reasons claim (if is_required_claim_missing claim then none else result)).0
          == red)
        ≡ contradicts claim result
  unfolding status_and_reasons
  status-red claim none = ground arith
  status-red claim (some r) = ground arith

  priority-le : (r : TaskResult F) → priority r ≤ 4
  unfolding priority
  priority-le r = ground arith

  priority-contradicted : (r : TaskResult F) → priority r ≡ 4 → is_contradicted r ≡ true
  unfolding priority is_contradicted
  priority-contradicted r h = ground arith

  priority-top :
      (r : TaskResult F)
      → (word r.audit_status == "MISMATCH" || word r.outcome_color == "RED") ≡ true
      → priority r ≡ 4
  unfolding priority
  priority-top r h = ground arith

  contradicts-some :
      (claim : Claim F) (r : TaskResult F)
      → is_required_claim_missing claim ≡ false
      → is_contradicted r ≡ true
      → contradicts claim (some r) ≡ true
  contradicts-some claim r has_value contradicted = ground arith

is_red : {c : Color} → (c == red) ≡ true → c ≡ red
is_red h = ground arith

module _ (F : Type 0) ⦃ops : Floats F⦄ where
  missing_findings-red :
      (ks : List String) → count (has_color red) (missing_findings {F = F} ks) ≡ 0
  unfolding missing_required_finding
  missing_findings-red [] = refl
  missing_findings-red (k ∷ ks) = ground (arith, missing_findings-red ks)

module _ {F : Type 0} ⦃ops : Floats F⦄ where
  abbrev winner : TaskResult F → TaskResult F → TaskResult F
  winner best r = if ranks_below best r then r else best

  winner-ge :
      (best r : TaskResult F)
      → (priority best ≤ priority (winner best r)) × (priority r ≤ priority (winner best r))
  unfolding ranks_below
  winner-ge best r = ground arith

  best_from-ge :
      (best : TaskResult F) (rest : List (TaskResult F))
      → priority best ≤ priority (best_from best rest)
  unfolding best_from
  best_from-ge best [] = omega arith
  best_from-ge best (r ∷ rest) = le_trans (winner-ge best r).0 (best_from-ge (winner best r) rest)

  best_from-mem :
      (best r : TaskResult F) (rest : List (TaskResult F))
      → Memᴰ r rest
      → priority r ≤ priority (best_from best rest)
  unfolding best_from
  best_from-mem best r [] m = elim m [ ]
  best_from-mem best r (q ∷ rest) (Memᴰ.head same) =
      subst (λ x. priority x ≤ priority (best_from (winner best q) rest)) (sym same)
        (le_trans (winner-ge best q).1 (best_from-ge (winner best q) rest))
  best_from-mem best r (q ∷ rest) (Memᴰ.tail m) = best_from-mem (winner best q) r rest m

  best_of-mem :
      (r : TaskResult F) (found : List (TaskResult F))
      → Memᴰ r found
      → (b : TaskResult F) × (best_of found ≡ some b) × (priority r ≤ priority b)
  best_of-mem r [] m = elim m [ ]
  best_of-mem r (q ∷ rest) (Memᴰ.head same) = (
    best_from q rest,
    refl,
    subst (λ x. priority x ≤ priority (best_from q rest)) (sym same) (best_from-ge q rest),
  )
  best_of-mem r (q ∷ rest) (Memᴰ.tail m) = (best_from q rest, refl, best_from-mem q r rest m)

  finding-red :
      (results : List (TaskResult F)) (claim : Claim F)
      → ((finding_for results claim).status == red)
        ≡ contradicts claim (best_result_for_claim claim results)
  finding-red results claim =
      ap (λ c. c == red) (finding-status claim (best_result_for_claim claim results))
      ∙ status-red claim (best_result_for_claim claim results)

  -- Among the candidates of a claim that has its value, one whose audit is a MISMATCH or whose
  -- colour is RED makes the claim's finding RED, whatever the other candidates say.
  pub contradiction_not_masked :
      (claim : Claim F) (results : List (TaskResult F)) (r : TaskResult F)
      → is_required_claim_missing claim ≡ false
      → Memᴰ r (candidates_for claim results)
      → (word r.audit_status == "MISMATCH" || word r.outcome_color == "RED") ≡ true
      → (finding_for results claim).status ≡ red
  unfolding best_result_for_claim
  contradiction_not_masked claim results r has_value candidate mismatch =
      let (b, best, above) = best_of-mem r (candidates_for claim results) candidate in
      let top : priority b ≡ 4 = omega (arith, above, priority-le b, priority-top r mismatch) in
      is_red (
        finding-red results claim
        ∙ ap (contradicts claim) best
        ∙ contradicts-some claim b has_value (priority-contradicted b top))

  count-red :
      (results : List (TaskResult F)) (claims : List (Claim F))
      → (ltb 0 (count (has_color red) (findings_for results claims)))
        ≡ any (λ claim. contradicts claim (best_result_for_claim claim results)) claims
  count-red results [] = refl
  count-red results (claim ∷ claims) =
      ground (arith, finding-red results claim, count-red results claims)

  -- The document is RED exactly if the best result of some claim that has its value contradicts it.
  pub red_iff_contradicted :
      (claims : List (Claim F)) (results : List (TaskResult F)) (required : List String)
      → ((build_trust_findings claims results required).overall_outcome ≡ red)
        ↔ (any (λ claim. contradicts claim (best_result_for_claim claim results)) claims ≡ true)
  unfolding build_trust_findings build_result
  red_iff_contradicted claims results required =
      let findings = findings_for results claims in
      let missing = missing_ids (required_ids required claims) findings in
      ground (
        arith,
        count-red results claims,
        missing_findings-red F missing,
        count-append (has_color red) findings (missing_findings missing),
        judge-red (findings ++ missing_findings missing) (required_ids required claims),
      )
