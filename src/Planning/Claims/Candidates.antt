-- ===== src/Planning/Claims/Candidates.antt =====
-- verifier_execution/registry.py, get_provider_candidates: every candidate can answer.

use verification_engine.Base.{
  All, All-append, Bool, List, Option, String, [], bool_eq, false, if_either, if◌then◌else◌, nat_eq,
  none, nonempty, not, option_eq, refl, select, some, string_eq, true, ◌==◌, ◌∷◌, ◌≡◌, ◌⊎◌,
}
use verification_engine.Providers.Environment.{Environment}
use verification_engine.Providers.Policy.{manual_only}
use verification_engine.Providers.Policy.Loading.{Parsers, load_provider_runtime_policy}
use verification_engine.Providers.Registry.{
  Provider, Registry, build_default_provider_registry, get_capabilities, http_json, key_of,
  local_mock, supports,
}
use verification_engine.Providers.Registry.Live.{
  IsPermitted, IsSwitchedOn, default_registry-Permitted, is_live,
}
use verification_engine.Planning.Claims.{
  ProviderCandidate, candidate_of, candidates_from, canonical_claim_type, category_for_claim_type,
  get_provider_candidates, manual_candidate, or_manual, preferred_first,
  preferred_provider_for_assurance, providers_of, verifier_key_for_claim_type,
}

-- The candidate for manual review; or that of a provider which supports the claim's verifier and
-- category, and which the environment switches on if it would be called for real.
pub data IsCandidate (parsers : Parsers) (getenv : Environment) (verifier_key category : String)
    (c : ProviderCandidate) : Type 0 where
  by_hand :
      c.provider_key ≡ "manual_review"
      → c.verifier_key ≡ "manual_review"
      → IsCandidate parsers getenv verifier_key category c
  by_provider :
      (p : Provider)
      → c.provider_key ≡ key_of p
      → c.verifier_key ≡ verifier_key
      → supports verifier_key category p ≡ true
      → (is_live p ≡ false) ⊎ IsSwitchedOn parsers getenv (key_of p)
      → IsCandidate parsers getenv verifier_key category c

All-select :
    (P : Provider → Type 0) (q : Provider → Bool) (ps : List Provider)
    → All P ps
    → All P (select q ps)
All-select P q [] h = tt
All-select P q (p ∷ ps) h =
    if_either (All P) (q p) (p ∷ select q ps) (select q ps) (λ _. (h.0, All-select P q ps h.1))
      (λ _. All-select P q ps h.1)

All-preferred_first :
    (P : Provider → Type 0) (preferred : Option String) (ps : List Provider)
    → All P ps
    → All P (preferred_first preferred ps)
All-preferred_first P none ps h = h
All-preferred_first P (some key) ps h =
    All-append P (select (λ p. key_of p == key) ps) (select (λ p. not (key_of p == key)) ps)
      (All-select P (λ p. key_of p == key) ps h) (All-select P (λ p. not (key_of p == key)) ps h)

All-providers_of :
    (P : Provider → Type 0) (registry : Registry)
    → All (λ e. P e.1) registry
    → All P (providers_of registry)
All-providers_of P [] h = tt
All-providers_of P (e ∷ rest) h = (h.0, All-providers_of P rest h.1)

capability_key : (p : Provider) → (get_capabilities p).provider_key ≡ key_of p
unfolding get_capabilities
capability_key (http_json key label verifiers categories config) = refl
capability_key (local_mock config) = refl

module _ (parsers : Parsers) (getenv : Environment) where
  candidates_from-All :
      (claim_type verifier_key category : String) (ps : List Provider)
      → All (IsPermitted parsers getenv) ps
      → All
          (IsCandidate parsers getenv verifier_key category)
          (candidates_from claim_type verifier_key category ps)
  unfolding candidate_of
  candidates_from-All claim_type verifier_key category [] h = tt
  candidates_from-All claim_type verifier_key category (p ∷ ps) h =
      if_either (All (IsCandidate parsers getenv verifier_key category))
        (supports verifier_key category p)
        (candidate_of claim_type verifier_key category p
          ∷ candidates_from claim_type verifier_key category ps)
        (candidates_from claim_type verifier_key category ps)
        (λ fits. (
          by_provider p (capability_key p) refl fits h.0,
          candidates_from-All claim_type verifier_key category ps h.1,
        ))
        (λ _. candidates_from-All claim_type verifier_key category ps h.1)

  or_manual-All :
      (verifier_key category : String) (manual_label : Option String) (cs : List ProviderCandidate)
      → All (IsCandidate parsers getenv verifier_key category) cs
      → (nonempty (or_manual manual_label cs) ≡ true)
        × All (IsCandidate parsers getenv verifier_key category) (or_manual manual_label cs)
  unfolding manual_candidate
  or_manual-All verifier_key category manual_label [] h = (refl, (by_hand refl refl, tt))
  or_manual-All verifier_key category manual_label (c ∷ cs) h = (refl, h)

-- For every environment, claim type, assurance and category of the context: there is a candidate,
-- and each one is the one for manual review, or that of a provider which supports the claim's
-- verifier and category, and which the environment switches on if it would be called for real.
pub get_provider_candidates-AreCandidates :
    (parsers : Parsers) (getenv : Environment) (manual_label : Option String)
    (claim_type assurance_required : String) (explicit : Option String)
    → (nonempty (
          get_provider_candidates
            (build_default_provider_registry (load_provider_runtime_policy parsers getenv))
            (load_provider_runtime_policy parsers getenv)
            manual_label
            claim_type
            assurance_required
            explicit)
        ≡ true)
      × All
          (IsCandidate parsers getenv
            (verifier_key_for_claim_type (canonical_claim_type claim_type))
            (category_for_claim_type (canonical_claim_type claim_type) explicit))
          (get_provider_candidates
            (build_default_provider_registry (load_provider_runtime_policy parsers getenv))
            (load_provider_runtime_policy parsers getenv)
            manual_label
            claim_type
            assurance_required
            explicit)
unfolding get_provider_candidates manual_candidate
get_provider_candidates-AreCandidates parsers getenv manual_label claim_type assurance_required
      explicit =
    let policy = load_provider_runtime_policy parsers getenv in
    let normalized = canonical_claim_type claim_type in
    let verifier_key = verifier_key_for_claim_type normalized in
    let category = category_for_claim_type normalized explicit in
    let preferred = preferred_provider_for_assurance assurance_required verifier_key in
    let providers =
      preferred_first preferred (providers_of (build_default_provider_registry policy)) in
    if_either
      (λ (cs : List ProviderCandidate).
        (nonempty cs ≡ true) × All (IsCandidate parsers getenv verifier_key category) cs)
      (policy.transition_config.provider_operating_mode == manual_only)
      (manual_candidate manual_label "MANUAL_REVIEW_ONLY" "MANUAL_REVIEW_ONLY" ∷ [])
      (or_manual manual_label (
        if verifier_key == "manual_review"
        then []
        else candidates_from normalized verifier_key category providers))
      (λ _. (refl, (by_hand refl refl, tt)))
      (λ _. or_manual-All parsers getenv verifier_key category manual_label _ (
        if_either (All (IsCandidate parsers getenv verifier_key category))
          (verifier_key == "manual_review") []
          (candidates_from normalized verifier_key category providers) (λ _. tt)
          (λ _. candidates_from-All parsers getenv normalized verifier_key category providers (
            All-preferred_first (IsPermitted parsers getenv) preferred _ (
              All-providers_of (IsPermitted parsers getenv) _
                (default_registry-Permitted parsers getenv))))))
