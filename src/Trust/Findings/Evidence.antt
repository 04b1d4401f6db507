-- ===== src/Trust/Findings/Evidence.antt =====
-- What the document's verdict rests on.

use verification_engine.Base.{
  All, Bool, Floats, List, Option, String, [], any, any-append, arith, bool_eq, contains, count,
  count-append, dedupe, false, if◌then◌else◌, nat_eq, none, nonempty, not, option_eq, refl, select,
  some, string_eq, sym, true, ◌++◌, ◌<◌, ◌==◌, ◌↔◌, ◌∙◌, ◌∷◌, ◌≡◌,
}
use verification_engine.Trust.Claims.{
  Claim, ClaimFinding, Color, TaskResult, amber, build_claim_finding, color_eq, green,
  has_verifier_evidence, is_contradicted, is_matched, is_required_claim_missing,
  missing_required_finding, red, status_and_reasons,
}
use verification_engine.Trust.Claims.Best.{best_result_for_claim}
use verification_engine.Trust.Findings.{
  build_result, build_trust_findings, finding_for, findings_for, has_color, insert_text, is_backed,
  judge, missing_findings, missing_ids, present_keys, required_ids, sort_texts,
}

insert_text-nonempty : (s : String) (ts : List String) → nonempty (insert_text s ts) ≡ true
unfolding insert_text
insert_text-nonempty s [] = refl
insert_text-nonempty s (t ∷ ts) = ground arith

sort_texts-nonempty : (ts : List String) → nonempty (sort_texts ts) ≡ nonempty ts
unfolding sort_texts
sort_texts-nonempty [] = refl
sort_texts-nonempty (s ∷ ss) = insert_text-nonempty s (sort_texts ss)

dedupe-nonempty : (ts : List String) → nonempty (dedupe ts) ≡ nonempty ts
unfolding dedupe
dedupe-nonempty [] = refl
dedupe-nonempty (t ∷ ts) = refl

select-none :
    (p : String → Bool) (ts : List String)
    → nonempty (select (λ t. not (p t)) ts) ≡ false
    → All (λ t. p t ≡ true) ts
select-none p [] h = tt
select-none p (t ∷ ts) h = (ground arith, select-none p ts (ground arith))

module _ {F : Type 0} where
  -- The claim has its value, and its best result carries evidence and contradicts nothing.
  abbrev pub IsSupported : Claim F → Option (TaskResult F) → Type 0
  IsSupported claim result =
      (r : TaskResult F) × (result ≡ some r)
      × (has_verifier_evidence r ≡ true)
      × (is_contradicted r ≡ false)
      × (is_required_claim_missing claim ≡ false)

  is_matched-evidence : (r : TaskResult F) → is_matched r ≡ true → has_verifier_evidence r ≡ true
  unfolding is_matched
  is_matched-evidence r h = ground arith

  status-green :
      (claim : Claim F) (result : Option (TaskResult F))
      → (status_and_reasons claim (if is_required_claim_missing claim then none else result)).0
        ≡ green
      → IsSupported claim result
  unfolding status_and_reasons
  status-green claim none h = ground arith
  status-green claim (some r) h =
      (r, refl, ground (arith, is_matched-evidence r), ground arith, ground arith)

  missing_ids-none :
      (required : List String) (findings : List (ClaimFinding F))
      → nonempty (missing_ids required findings) ≡ false
      → All (λ k. contains (present_keys findings) k ≡ true) required
  unfolding missing_ids
  missing_ids-none required findings h =
      select-none (contains (present_keys findings)) required
        (sym (dedupe-nonempty _) ∙ sym (sort_texts-nonempty _) ∙ h)

  judge-green :
      (findings : List (ClaimFinding F)) (required : List String)
      → (judge findings required).0 ≡ green
      → (count (has_color red) findings ≡ 0)
        × (count (has_color amber) findings ≡ 0)
        × (any is_backed findings ≡ true)
  unfolding judge
  judge-green findings required h = (ground arith, ground arith, ground arith)

  pub judge-red :
      (findings : List (ClaimFinding F)) (required : List String)
      → ((judge findings required).0 ≡ red) ↔ (0 < count (has_color red) findings)
  unfolding judge
  judge-red findings required = ground arith

green_of_rest : (c : Color) → (c == red) ≡ false → (c == amber) ≡ false → c ≡ green
green_of_rest c not_red not_amber = ground arith

module _ (F : Type 0) ⦃ops : Floats F⦄ where
  missing_findings-amber :
      (ks : List String)
      → count (has_color amber) (missing_findings {F = F} ks) ≡ 0
      → nonempty ks ≡ false
  unfolding missing_required_finding
  missing_findings-amber [] h = refl
  missing_findings-amber (k ∷ ks) h = ground arith

  pub missing_findings-unbacked :
      (ks : List String) → any is_backed (missing_findings {F = F} ks) ≡ false
  unfolding missing_required_finding
  missing_findings-unbacked [] = refl
  missing_findings-unbacked (k ∷ ks) = ground (arith, missing_findings-unbacked ks)

module _ {F : Type 0} ⦃ops : Floats F⦄ where
  pub finding-status :
      (claim : Claim F) (result : Option (TaskResult F))
      → (build_claim_finding claim result).status
        ≡ (status_and_reasons claim (if is_required_claim_missing claim then none else result)).0
  unfolding build_claim_finding
  finding-status claim result = refl

  findings-IsSupported :
      (results : List (TaskResult F)) (claims : List (Claim F))
      → count (has_color red) (findings_for results claims) ≡ 0
      → count (has_color amber) (findings_for results claims) ≡ 0
      → All (λ claim. IsSupported claim (best_result_for_claim claim results)) claims
  findings-IsSupported results [] no_red no_amber = tt
  findings-IsSupported results (claim ∷ claims) no_red no_amber = (
    status-green claim (best_result_for_claim claim results) (
        sym (finding-status claim (best_result_for_claim claim results))
        ∙ green_of_rest (finding_for results claim).status (ground arith) (ground arith)),
    findings-IsSupported results claims (ground arith) (ground arith),
  )

  -- A GREEN verdict: every claim has its value and a best result that carries verifier evidence and
  -- contradicts nothing, every required id stands in the finding of some claim, and some GREEN
  -- finding of a claim names the task that verified it.
  pub green_needs_evidence :
      (claims : List (Claim F)) (results : List (TaskResult F)) (required : List String)
      → (build_trust_findings claims results required).overall_outcome ≡ green
      → All (λ claim. IsSupported claim (best_result_for_claim claim results)) claims
        × All
            (λ k. contains (present_keys (findings_for results claims)) k ≡ true)
            (required_ids required claims)
        × (any is_backed (findings_for results claims) ≡ true)
  unfolding build_trust_findings build_result
  green_needs_evidence claims results required h =
      let findings = findings_for results claims in
      let missing = missing_ids (required_ids required claims) findings in
      let (no_red, no_amber, backed) =
        judge-green (findings ++ missing_findings missing) (required_ids required claims) h in
      (
        findings-IsSupported results claims
            (omega
              (arith, no_red, count-append (has_color red) findings (missing_findings missing)))
            (omega (
              arith,
              no_amber,
              count-append (has_color amber) findings (missing_findings missing),
            )),
        missing_ids-none (required_ids required claims) findings (
            missing_findings-amber F missing (
              omega (
                arith,
                no_amber,
                count-append (has_color amber) findings (missing_findings missing),
              ))),
        ground (
          arith,
          any-append is_backed findings (missing_findings missing),
          missing_findings-unbacked F missing,
        ),
      )
