-- ===== src/Trust/Fields/Rollup.antt =====
-- The verdict over all fields.
use mathlib.Core.Path.{subst}
use verification_engine.Base.{
  Bool, Bool-cases, IsDistinct, List, String, [], any, ap, arith, bool_eq, contains,
  contains-append, contains-dedupe, dedupe, dedupe-IsDistinct, false, inl, inr, nat_eq, not,
  option_eq, refl, string_eq, sym, true, ◌&&◌, ◌++◌, ◌==◌, ◌||◌, ◌↔◌, ◌∙◌, ◌∷◌, ◌≡◌,
}
use verification_engine.Trust.Claims.{amber, color_eq, green, red}
use verification_engine.Trust.Fields.{
  FieldDecision, VerifierResult, build_final_verdict, decided, open_codes, verifier_status_eq,
}

module _ {F : Type 0} where
  -- The verdict is RED exactly if the document is unsafe or some field is RED, and GREEN exactly if
  -- the document is safe and no field is RED or AMBER.
  pub verdict_rollup :
      (decisions : List (FieldDecision F)) (results : List (VerifierResult F)) (unsafe : Bool)
      (codes : List String)
      → (((build_final_verdict decisions results unsafe codes).outcome ≡ red)
          ↔ ((unsafe || any (decided red) decisions) ≡ true))
        × (((build_final_verdict decisions results unsafe codes).outcome ≡ green)
            ↔ ((unsafe || any (decided red) decisions || any (decided amber) decisions) ≡ false))
  unfolding build_final_verdict
  verdict_rollup decisions results unsafe codes = (ground arith, ground arith)

  open_codes-from :
      (decisions : List (FieldDecision F)) (c : String)
      → contains (open_codes decisions) c
        ≡ any (λ d. not (d.status == green) && contains d.reason_codes c) decisions
  open_codes-from [] c = refl
  open_codes-from (d ∷ decisions) c = elim (Bool-cases (d.status == green)) [
    | inl e ↦ ground (arith, open_codes-from decisions c)
    | inr e ↦ ground (
      arith,
      open_codes-from decisions c,
      contains-append d.reason_codes (open_codes decisions) c,
    )
  ]

  -- For a safe document the verdict's reason codes are, without repetition, those that were given
  -- and those of the fields that are not GREEN.
  pub verdict_reasons :
      (decisions : List (FieldDecision F)) (results : List (VerifierResult F)) (codes : List String)
      → IsDistinct (build_final_verdict decisions results false codes).reason_codes
        × ((c : String)
            → contains (build_final_verdict decisions results false codes).reason_codes c ≡ (
                contains codes c
                || any (λ d. not (d.status == green) && contains d.reason_codes c) decisions))
  unfolding build_final_verdict
  verdict_reasons decisions results codes = (
    reasons_kept (λ r. IsDistinct r) (dedupe-IsDistinct (codes ++ open_codes decisions)),
    λ c.
        reasons_kept
          (λ r. contains r c ≡ (
            contains codes c
            || any (λ d. not (d.status == green) && contains d.reason_codes c) decisions))
          (contains-dedupe (codes ++ open_codes decisions) c
            ∙ contains-append codes (open_codes decisions) c
            ∙ ap (λ b. contains codes c || b) (open_codes-from decisions c)),
  )
    where
      reasons_eq :
          (build_final_verdict decisions results false codes).reason_codes
          ≡ dedupe (codes ++ open_codes decisions)
      reasons_eq = ground arith

      reasons_kept :
          (P : List String → Type 0)
          → P (dedupe (codes ++ open_codes decisions))
          → P (build_final_verdict decisions results false codes).reason_codes
      reasons_kept P h = subst P (sym reasons_eq) h
