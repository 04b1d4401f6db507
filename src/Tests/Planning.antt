-- ===== src/Tests/Planning.antt =====
-- A credential and a claim in an environment with a live provider: backend/app/verification_domain
-- and backend/app/verifier_execution.
use verification_engine.Base.{All, bool_eq, nat_eq, none, nonempty, option_eq, string_eq, true, ◌≡◌}
use verification_engine.Providers.Policy.Loading.{load_provider_runtime_policy}
use verification_engine.Providers.Registry.{build_default_provider_registry}
use verification_engine.Planning.Routing.{Credential, route}
use verification_engine.Planning.Routing.Plans.{IsPlanned, route-IsPlanned}
use verification_engine.Planning.Claims.{
  canonical_claim_type, category_for_claim_type, get_provider_candidates,
  verifier_key_for_claim_type,
}
use verification_engine.Planning.Claims.Candidates.{
  IsCandidate, get_provider_candidates-AreCandidates,
}
use verification_engine.Tests.Providers.{live_environment, parsers}

abbrev identity_card : Credential
identity_card = record {
  credential_id = "c1";
  category = "identity";
  requires_verification = true;
  verification_reason = none;
}

route-IsPlanned_example : IsPlanned parsers live_environment identity_card (
    route
      (build_default_provider_registry (load_provider_runtime_policy parsers live_environment))
      (load_provider_runtime_policy parsers live_environment)
      identity_card)
route-IsPlanned_example = route-IsPlanned parsers live_environment identity_card

get_provider_candidates-AreCandidates_example :
    (nonempty (
        get_provider_candidates
          (build_default_provider_registry (load_provider_runtime_policy parsers live_environment))
          (load_provider_runtime_policy parsers live_environment)
          none
          "Name"
          "LOW"
          none)
      ≡ true)
    × All
        (IsCandidate parsers live_environment
          (verifier_key_for_claim_type (canonical_claim_type "Name"))
          (category_for_claim_type (canonical_claim_type "Name") none))
        (get_provider_candidates
          (build_default_provider_registry (load_provider_runtime_policy parsers live_environment))
          (load_provider_runtime_policy parsers live_environment)
          none
          "Name"
          "LOW"
          none)
get_provider_candidates-AreCandidates_example =
    get_provider_candidates-AreCandidates parsers live_environment none "Name" "LOW" none
