-- ===== src/Trust/Engine/Mandatory.antt =====
-- trust/trust_engine.py, evaluate_trust: a GREEN document has all its mandatory fields.
use verification_engine.Trust.Fields.Rollup.{verdict_rollup}
use verification_engine.Trust.Claims.Best.{best_result_for_claim}
use verification_engine.Base.{
  All, Bool, Bool-cases, Floats, List, Option-cases, String, [], any, ap, arith, bool_eq, contains,
  false, float_zero, get_key, if_either, if◌then◌else◌, inl, inr, nat_eq, not, option_eq, refl,
  some, string_eq, strip, sym, true, truthy, ◌&&◌, ◌++◌, ◌==◌, ◌||◌, ◌∙◌, ◌∷◌, ◌≡◌, ◌⊎◌,
}
use verification_engine.Trust.Claims.{
  Claim, TaskResult, color_eq, green, is_required_claim_missing, red,
}
use verification_engine.Trust.Findings.{FinalVerdict, build_result, build_trust_findings}
use verification_engine.Trust.Findings.Evidence.{IsSupported, green_needs_evidence}
use verification_engine.Trust.Fields.{
  VerifierResult, decided, determine_field_decision, verifier_status_eq,
}
use verification_engine.Trust.Items.{
  ConnectorResult, Item, canonical_results, has_task_result_shape, items_of, just_results,
  verifier_results,
}
use verification_engine.Trust.Engine.{
  Fields, TrustField, TrustInput, as_final, by_field, claim_of, claims_of, claims_verdict,
  decide_field, decisions_on, default_at, evaluate_trust, fields_verdict, normalize_trust_fields,
  raw_fields, set_default, with_required,
}

-- The field is there, or need not be.
abbrev pub HasValue : {F : Type 0} → String × TrustField F → Type 0
HasValue (field_id, field) = (field.mandatory && not (truthy (strip field.value))) ≡ false

bools : (m t : Bool) → (m && some t == some false) ≡ false → (m && not t) ≡ false
bools m t h = ground arith

abbrev pub names : {F : Type 0} → Fields F → List String
names [] = []
names (e ∷ fields) = e.0 ∷ names fields

module _ {F : Type 0} where
  names-added :
      (k j : String) (field : TrustField F) (fields : Fields F)
      → contains (names (fields ++ ((k, field) ∷ []))) j ≡ (contains (names fields) j || j == k)
  names-added k j field [] = ground arith
  names-added k j field (e ∷ fields) = ground (arith, names-added k j field fields)

  names-found :
      (k : String) (old : TrustField F) (fields : Fields F)
      → get_key k fields ≡ some old
      → contains (names fields) k ≡ true
  unfolding get_key
  names-found k old [] found = ground arith
  names-found k old (e ∷ fields) found = ground (arith, names-found k old fields)

  names-set_default :
      (k j : String) (field : TrustField F) (fields : Fields F)
      → (contains (names fields) j || j == k) ≡ true
      → contains (names (set_default k field fields)) j ≡ true
  names-set_default k j field fields h = elim (Option-cases (get_key k fields)) [
    | inl e ↦
        ap (λ o. contains (names (default_at o k field fields)) j) e
        ∙ names-added k j field fields
        ∙ h
    | inr (old, e) ↦
        ap (λ o. contains (names (default_at o k field fields)) j) e
        ∙ ground (arith, h, names-found k old fields e)
  ]

module _ {F : Type 0} ⦃ops : Floats F⦄ where
  decide_field-HasValue :
      (table : List (String × VerifierResult F)) (results : List (VerifierResult F))
      (e : String × TrustField F)
      → ((decide_field table results e).status == red) ≡ false
      → HasValue e
  unfolding decide_field determine_field_decision
  decide_field-HasValue table results (field_id, field) h =
      elim (Bool-cases (field.mandatory && not (truthy (strip field.value)))) [
        | inr e ↦ e
        | inl e ↦ ground (arith, e)
      ]

  decisions_on-HasValue :
      (table : List (String × VerifierResult F)) (results : List (VerifierResult F))
      (fields : List (String × TrustField F))
      → any (decided red) (decisions_on table results fields) ≡ false
      → All HasValue fields
  decisions_on-HasValue table results [] h = tt
  decisions_on-HasValue table results (e ∷ fields) h = (
    decide_field-HasValue table results e (ground arith),
    decisions_on-HasValue table results fields (ground arith),
  )

  claims-HasValue :
      (results : List (TaskResult F)) (fields : List (String × TrustField F))
      → All (λ claim. IsSupported claim (best_result_for_claim claim results)) (claims_of fields)
      → All HasValue fields
  unfolding claim_of is_required_claim_missing
  claims-HasValue results [] h = tt
  claims-HasValue results ((field_id, field) ∷ fields) h =
      (bools field.mandatory (truthy (strip field.value)) h.0.4, claims-HasValue results fields h.1)

  canonical_outcome :
      (claims : List (Claim F)) (results : List (TaskResult F)) (required : List String)
      → (build_trust_findings claims results required).final_verdict.outcome
        ≡ (build_trust_findings claims results required).overall_outcome
  unfolding build_trust_findings build_result
  canonical_outcome claims results required = refl

  fields_verdict-HasValue :
      (items : List (Item F)) (fields : List (String × TrustField F))
      → (fields_verdict items fields).outcome ≡ green
      → All HasValue fields
  unfolding fields_verdict
  fields_verdict-HasValue items fields h =
      let results = verifier_results items in
      let table = by_field [] results in
      let decisions = decisions_on table (just_results results) fields in
      let (_, (green_only, _)) = verdict_rollup decisions (just_results results) false [] in
      decisions_on-HasValue table (just_results results) fields (ground (arith, green_only h))

  claims-IsSupported :
      (items : List (Item F)) (fields : List (String × TrustField F)) (required : List String)
      → (claims_verdict items fields required).final_verdict.outcome ≡ green
      → All
          (λ claim. IsSupported claim (best_result_for_claim claim (canonical_results items)))
          (claims_of fields)
  unfolding claims_verdict
  claims-IsSupported items fields required h =
      (green_needs_evidence (claims_of fields) (canonical_results items) required
        (sym (canonical_outcome (claims_of fields) (canonical_results items) required) ∙ h)).0

  claims_verdict-HasValue :
      (items : List (Item F)) (fields : List (String × TrustField F)) (required : List String)
      → (claims_verdict items fields required).final_verdict.outcome ≡ green
      → All HasValue fields
  claims_verdict-HasValue items fields required h =
      claims-HasValue (canonical_results items) fields (claims-IsSupported items fields required h)

  names-with_required :
      (required : List String) (fields : Fields F) (j : String)
      → (contains (names fields) j || contains required j) ≡ true
      → contains (names (with_required required fields)) j ≡ true
  names-with_required [] fields j h = ground (arith, h)
  names-with_required (k ∷ required) fields j h =
      names-with_required required
        (set_default k (record { value = ""; confidence = float_zero; mandatory = true }) fields) j
        (elim (Bool-cases (contains required j)) [
          | inl e ↦ ground (arith, e)
          | inr e ↦
              rw
                (names-set_default k j
                  (record { value = ""; confidence = float_zero; mandatory = true }) fields
                  (ground (arith, h, e)))
                refl
        ])

  required_named :
      (trust_input : TrustInput F) (required_fields : List String) (k : String)
      → (not (contains required_fields k)
          || contains (names (normalize_trust_fields trust_input required_fields)) k)
        ≡ true
  unfolding normalize_trust_fields
  required_named trust_input required_fields k = elim (Bool-cases (contains required_fields k)) [
    | inr e ↦ ground (arith, e)
    | inl e ↦ ground (
      arith,
      names-with_required required_fields (raw_fields required_fields trust_input) k
          (ground (arith, e)),
    )
  ]

  -- Whatever the fields, the results and their shape: an evaluation that is GREEN has no reason
  -- codes; every mandatory field has a value that is not blank, and every required field is one of
  -- the fields; and if there are results of tasks, each field's claim has a best result that carries
  -- verifier evidence and contradicts nothing.
  pub evaluate_trust-green :
      (trust_input : TrustInput F) (connector_result : ConnectorResult F)
      (required_fields : List String)
      → (evaluate_trust trust_input connector_result required_fields).outcome ≡ green
      → ((evaluate_trust trust_input connector_result required_fields).reason_codes ≡ [])
        × All HasValue (normalize_trust_fields trust_input required_fields)
        × ((k : String)
            → (not (contains required_fields k)
                || contains (names (normalize_trust_fields trust_input required_fields)) k)
              ≡ true)
        × ((has_task_result_shape connector_result ≡ false)
            ⊎ All
                (λ claim.
                  IsSupported claim
                    (best_result_for_claim claim (canonical_results (items_of connector_result))))
                (claims_of (normalize_trust_fields trust_input required_fields)))
  unfolding evaluate_trust color_eq
  evaluate_trust-green trust_input connector_result required_fields h =
      let fields = normalize_trust_fields trust_input required_fields in
      let items = items_of connector_result in
      let verdict =
        if has_task_result_shape connector_result
        then (claims_verdict items fields required_fields).final_verdict
        else as_final (fields_verdict items fields) in
      (
        rw h refl,
        if_either (λ (v : FinalVerdict). v.outcome ≡ green → All HasValue fields)
            (has_task_result_shape connector_result)
            (claims_verdict items fields required_fields).final_verdict
            (as_final (fields_verdict items fields))
            (λ _. claims_verdict-HasValue items fields required_fields)
            (λ _. fields_verdict-HasValue items fields) h,
        λ k. required_named trust_input required_fields k,
        if_either
            (λ (v : FinalVerdict).
              v.outcome ≡ green
              → (has_task_result_shape connector_result ≡ false)
                ⊎ All
                    (λ claim.
                      IsSupported claim (best_result_for_claim claim (canonical_results items)))
                    (claims_of fields))
            (has_task_result_shape connector_result)
            (claims_verdict items fields required_fields).final_verdict
            (as_final (fields_verdict items fields))
            (λ _ outcome. inr (claims-IsSupported items fields required_fields outcome))
            (λ fieldwise _. inl fieldwise) h,
      )
