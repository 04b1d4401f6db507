-- ===== src/Trust/Fields/Overrides.antt =====
-- Hard policy comes before confidence, and confidence alone does not make a field GREEN.
use verification_engine.Base.{
  Bool, Floats, Option, [], arith, bool_eq, contains, false, nat_eq, none, not, option_eq, some,
  string_eq, true, ◌↔◌, ◌∷◌, ◌≡◌,
}
use verification_engine.Trust.Claims.{color_eq, green}
use verification_engine.Trust.Fields.{
  FieldDecision, FieldInput, VerifierResult, decide_by_score, decide_by_verifier,
  determine_field_decision, error, fused, is_missing, mismatch, timeout, verifier_status_eq,
}

module _ {F : Type 0} ⦃ops : Floats F⦄ where
  decide_by_score-green :
      (input : FieldInput F)
      → ((decide_by_score input).status ≡ green) ↔ (ops.le (ops.decimal 80 2) (fused input) ≡ true)
  unfolding decide_by_score
  decide_by_score-green input = ground arith

  abbrev pub settled : Option (VerifierResult F) → Bool
  settled none = true
  settled (some r) = not (contains (mismatch ∷ timeout ∷ error ∷ []) r.status)

  decide_by_verifier-green :
      (input : FieldInput F) (result : Option (VerifierResult F)) (rest : FieldDecision F)
      → ((decide_by_verifier input result rest).status ≡ green)
        ↔ ((settled result ≡ true) × (rest.status ≡ green))
  unfolding decide_by_verifier
  decide_by_verifier-green input none rest = ground arith
  decide_by_verifier-green input (some r) rest = ground arith

  pub green_iff_no_override :
      (input : FieldInput F)
      → ((determine_field_decision input).status ≡ green) ↔ (
          (input.unsafe_or_malformed ≡ false)
          × (is_missing input ≡ false)
          × (settled input.verifier_result ≡ true)
          × (ops.le (ops.decimal 80 2) (fused input) ≡ true))
  unfolding determine_field_decision
  green_iff_no_override input = ground (
    arith,
    decide_by_score-green input,
    decide_by_verifier-green input input.verifier_result (decide_by_score input),
  )
