-- ===== src/Execution/Bundles/Verdict.antt =====
-- verifier_execution/executor.py: what the bundles and the summary of a plan say about its results.
use mathlib.Core.Path.{subst}
use verification_engine.Base.{
  All, Bool, Floats, List, String, [], any, arith, bool_eq, false, if◌then◌else◌, nat_eq, option_eq,
  refl, select, string_eq, sym, true, ◌&&◌, ◌==◌, ◌||◌, ◌∙◌, ◌∷◌, ◌≡◌, ◌≤◌, ◌⊎◌,
}
use verification_engine.Execution.{CheckResult, Credential, Task}
use verification_engine.Execution.Bundles.{
  Bundle, audit_priority, build_bundles, bundle_for, is_about, rates_below, top_from,
}

abbrev empty_text : Bool → String
empty_text b = if b then "UNVERIFIED" else "NOT_APPLICABLE"

empty_status : (b : Bool) → (empty_text b == "MISMATCH") ≡ false
unfolding string_eq
empty_status true = refl
empty_status false = refl

module _ {F : Type 0} ⦃ops : Floats F⦄ where
  abbrev pub is_mismatch : CheckResult F → Bool
  is_mismatch r = r.audit_status == "MISMATCH"

  mismatch_or_lower :
      (r : CheckResult F)
      → (is_mismatch r ≡ true × audit_priority r.audit_status ≡ 60)
        ⊎ (is_mismatch r ≡ false × audit_priority r.audit_status ≤ 50)
  unfolding audit_priority
  mismatch_or_lower r = ground arith

  mismatch_stays :
      (best r : CheckResult F)
      → is_mismatch (if rates_below best r then r else best) ≡ (is_mismatch best || is_mismatch r)
  unfolding rates_below
  mismatch_stays best r = ground (arith, mismatch_or_lower best, mismatch_or_lower r)

  top_from-mismatch :
      (best : CheckResult F) (results : List (CheckResult F))
      → is_mismatch (top_from best results) ≡ (is_mismatch best || any is_mismatch results)
  unfolding top_from
  top_from-mismatch best [] = ground arith
  top_from-mismatch best (r ∷ rest) = ground (
    arith,
    mismatch_stays best r,
    top_from-mismatch (if rates_below best r then r else best) rest,
  )

  bundle_for-mismatch :
      (c : Credential F) (selected : List String) (results : List (CheckResult F))
      → ((bundle_for c selected results).final_audit_status == "MISMATCH") ≡ any is_mismatch results
  unfolding bundle_for
  bundle_for-mismatch c selected [] = empty_status c.requires_verification
  bundle_for-mismatch c selected (r ∷ rest) = top_from-mismatch r rest

  bundle_for-credential_id :
      (c : Credential F) (selected : List String) (results : List (CheckResult F))
      → (bundle_for c selected results).credential_id ≡ c.credential_id
  unfolding bundle_for
  bundle_for-credential_id c selected [] = refl
  bundle_for-credential_id c selected (r ∷ rest) = refl

  abbrev pub mismatched : String → CheckResult F → Bool
  mismatched credential_id r = is_about credential_id r && is_mismatch r

  any-select :
      (p q : CheckResult F → Bool) (results : List (CheckResult F))
      → any q (select p results) ≡ any (λ r. p r && q r) results
  any-select p q [] = refl
  any-select p q (r ∷ rest) = ground (arith, any-select p q rest)

  -- The bundle says MISMATCH exactly if a result of its credential does.
  abbrev pub IsDecided : List (CheckResult F) → Bundle F → Type 0
  IsDecided results b =
      (b.final_audit_status == "MISMATCH") ≡ any (mismatched b.credential_id) results

  bundle_for-IsDecided :
      (c : Credential F) (selected : List String) (results : List (CheckResult F))
      → IsDecided results (bundle_for c selected (select (is_about c.credential_id) results))
  bundle_for-IsDecided c selected results =
      let about = select (is_about c.credential_id) results in
      subst
        (λ k.
          ((bundle_for c selected about).final_audit_status == "MISMATCH")
          ≡ any (mismatched k) results)
        (sym (bundle_for-credential_id c selected about))
        (bundle_for-mismatch c selected about
          ∙ any-select (is_about c.credential_id) is_mismatch results)

  -- For every credentials, tasks and results, each bundle that the executor builds has the audit
  -- status MISMATCH exactly if some result of the bundle's credential has it: no other result of
  -- the credential, whatever its status and confidence, hides a mismatch.
  pub build_bundles-mismatch :
      (credentials : List (Credential F)) (tasks : List Task) (results : List (CheckResult F))
      → All (IsDecided results) (build_bundles credentials tasks results)
  unfolding build_bundles
  build_bundles-mismatch [] tasks results = tt
  build_bundles-mismatch (c ∷ credentials) tasks results =
      (bundle_for-IsDecided c _ results, build_bundles-mismatch credentials tasks results)
