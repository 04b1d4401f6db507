-- ===== src/Planning/Routing.antt =====
-- verification_domain/routing.py, RuleBasedVerifierRouter: the route of one credential.
pub mod Plans
use verification_engine.Base.{
  Bool, List, Option, String, [], bool_eq, contains, false, get_key, if◌then◌else◌, nat_eq, none,
  not, option_eq, or_else, or_empty, some, string_eq, true, ◌&&◌, ◌<>◌, ◌==◌, ◌∷◌,
}
use verification_engine.Providers.Policy.{
  ProviderRuntimePolicy, demo_mock, external_configured, manual_only,
}
use verification_engine.Providers.Registry.{
  Provider, Registry, find_provider, get_capabilities, key_of, supports,
}

-- Of ExtractedCredential what the router reads.
pub record Credential : Type 0 where
  pub credential_id : String
  pub category : String
  pub requires_verification : Bool
  pub verification_reason : Option String

pub record VerifierRouteDecision : Type 0 where
  pub credential_id : String
  pub selected_verifier_key : String
  pub selected_verifier_label : String
  pub route_reason : String
  pub preferred_provider_key : Option String
  pub preferred_provider_label : Option String
  pub planned_provider_key : Option String
  pub planned_provider_label : Option String
  pub planned_execution_mode : Option String
  pub planned_is_live_result : Bool
  pub planned_is_mock_result : Bool
  pub planned_is_demo_result : Bool
  pub fallback_reason : Option String
  pub fallback_verifiers : List String
  pub manual_review_recommended : Bool

-- ROUTE_BY_CATEGORY; FALLBACKS_BY_CATEGORY gives ["manual_review"] for each category and for
-- "unknown", which is also its default.
unfoldable pub route_by_category : List (String × (String × String))
route_by_category =
    ("identity", ("identity_db", "Identity Database"))
    ∷ ("address", ("address_check", "Address Check"))
    ∷ ("passport", ("passport_db", "Passport Database"))
    ∷ ("license", ("license_registry", "License Registry"))
    ∷ ("academic", ("academic_registry", "Academic Registry"))
    ∷ ("financial", ("financial_registry", "Financial Registry"))
    ∷ ("tax", ("tax_authority", "Tax Authority"))
    ∷ ("certificate", ("certificate_registry", "Certificate Registry"))
    ∷ []

abbrev pub fallbacks : List String
fallbacks = "manual_review" ∷ []

abbrev pub entra_key : String
entra_key = "entra_verified_id"

abbrev pub entra_label : String
entra_label = "Microsoft Entra Verified ID"

-- `preferred_provider_for_category`
unfoldable pub preferred_provider_for_category : String → Option String × Option String
preferred_provider_for_category category =
    if contains ("identity" ∷ "academic" ∷ "certificate" ∷ []) category
    then (some entra_key, some entra_label)
    else (none, none)

-- `_resolve_planned_execution_mode`
unfoldable pub planned_mode : (provider_key provider_operating_mode : String) → String
planned_mode provider_key provider_operating_mode =
    if provider_key == "local_mock"
    then "LOCAL_MOCK"
    else if provider_operating_mode == demo_mock
    then "DEMO_PROVIDER"
    else if provider_operating_mode == external_configured
    then "LIVE_PROVIDER"
    else "PROVIDER"

-- `_resolve_planned_fallback_reason`
unfoldable pub planned_fallback_reason :
    (provider_key provider_operating_mode : String) → Option String → Option String
planned_fallback_reason provider_key provider_operating_mode preferred_provider_key =
    let local = provider_key == "local_mock" in
    let entra_first = preferred_provider_key == some entra_key in
    if local && provider_operating_mode == demo_mock
    then some "LOCAL_DEMO_VERIFICATION"
    else if entra_first && local
    then some "ENTRA_NOT_CONFIGURED"
    else if entra_first && not (provider_key == entra_key)
    then some "SUPPLEMENTARY_PROVIDER_USED"
    else if local && not (provider_operating_mode == external_configured)
    then some "LIVE_PROVIDER_DISABLED"
    else none

abbrev not_executable_from : (verifier_key category : String) → Option Provider → Bool
not_executable_from verifier_key category none = true
not_executable_from verifier_key category (some preferred) =
    not (supports verifier_key category preferred)

-- `_preferred_provider_not_executable`
unfoldable pub preferred_provider_not_executable :
    Registry → String → (verifier_key category : String) → Bool
unfolding get_key supports
preferred_provider_not_executable registry preferred_provider_key verifier_key category =
    not_executable_from verifier_key category (get_key preferred_provider_key registry)

-- `_resolve_no_provider_fallback_reason`
unfoldable pub no_provider_fallback_reason :
    Option String → String → Registry → (verifier_key category : String) → String
unfolding preferred_provider_not_executable
no_provider_fallback_reason preferred provider_operating_mode registry verifier_key category =
    if provider_operating_mode == manual_only
    then "MANUAL_REVIEW_ONLY"
    else if preferred == some entra_key
        && preferred_provider_not_executable registry entra_key verifier_key category
    then "ENTRA_NOT_CONFIGURED"
    else if not (provider_operating_mode == external_configured)
    then "LIVE_PROVIDER_DISABLED"
    else "NO_EXECUTABLE_PROVIDER"

-- `_build_provider_note`; an Entra-first category has Entra's label
unfoldable pub provider_note :
    (category provider_key provider_label : String)
    → Option String
    → (planned_execution_mode : String) → Option String
    → String
provider_note category key label preferred mode fallback =
    let entra_first = preferred == some entra_key in
    if entra_first && key == entra_key
    then (if mode == "DEMO_PROVIDER"
        then entra_label <> " remains the preferred VC trust rail for category '" <> category
          <> "', and this environment will run its seeded demo path rather than a live provider call."
        else entra_label <> " is the primary VC trust rail for category '" <> category
          <> "' and will be attempted first.")
    else if entra_first && key == "local_mock"
    then (if fallback == some "LOCAL_DEMO_VERIFICATION"
        then entra_label <> " is the preferred VC trust rail for category '" <> category
          <> "', but this environment is running in bounded demo mode and the local mock verifier will execute."
        else entra_label <> " is the preferred VC trust rail for category '" <> category
          <> "', but it is not enabled in this environment, so the bounded local mock path will be used.")
    else if entra_first
    then entra_label <> " is preferred for category '" <> category
      <> "', but supplementary provider '" <> label <> "' will be used in this environment."
    else if key == "local_mock"
    then (if fallback == some "LOCAL_DEMO_VERIFICATION"
        then "This environment is running in bounded demo mode, so the local mock verifier will execute."
        else "No external provider is enabled, so the bounded local mock path will be used.")
    else "Enabled provider '" <> label <> "' will be attempted first."

-- The decision for a credential that needs no verification.
unfoldable pub not_required : Credential → VerifierRouteDecision
not_required c = record {
  credential_id = c.credential_id;
  selected_verifier_key = "not_required";
  selected_verifier_label = "No Verification Needed";
  route_reason = or_empty (
      or_else c.verification_reason (
        some
          "The deterministic planner marked this field as out of scope for direct verification."));
  preferred_provider_key = none;
  preferred_provider_label = none;
  planned_provider_key = none;
  planned_provider_label = none;
  planned_execution_mode = none;
  planned_is_live_result = false;
  planned_is_mock_result = false;
  planned_is_demo_result = false;
  fallback_reason = none;
  fallback_verifiers = [];
  manual_review_recommended = false;
}

-- The decision for manual review.
unfoldable pub manual_route :
    Credential → String → Option String × Option String → String → VerifierRouteDecision
manual_route c route_reason preferred fallback_reason = record {
  credential_id = c.credential_id;
  selected_verifier_key = "manual_review";
  selected_verifier_label = "Manual Review";
  route_reason = route_reason;
  preferred_provider_key = preferred.0;
  preferred_provider_label = preferred.1;
  planned_provider_key = none;
  planned_provider_label = none;
  planned_execution_mode = some "MANUAL_REVIEW";
  planned_is_live_result = false;
  planned_is_mock_result = false;
  planned_is_demo_result = false;
  fallback_reason = some fallback_reason;
  fallback_verifiers = fallbacks;
  manual_review_recommended = true;
}

abbrev no_provider_reason : Credential → String → Option String → String
no_provider_reason c verifier_key preferred =
    if preferred == some entra_key
    then "Category '" <> c.category <> "' is Entra-first, but " <> entra_label
      <> " is not executable and no supplementary provider path is enabled."
    else "Category '" <> c.category <> "' maps to verifier '" <> verifier_key
      <> "', but no executable provider path is enabled."

-- The decision for the provider that was found.
unfoldable pub provider_route :
    Credential → String × String → Option String × Option String → Provider → VerifierRouteDecision
unfolding planned_mode planned_fallback_reason provider_note get_capabilities
provider_route c verifier preferred provider =
    let capability = get_capabilities provider in
    let mode = planned_mode (key_of provider) capability.operating_mode in
    let reason = planned_fallback_reason (key_of provider) capability.operating_mode preferred.0 in
    record {
      credential_id = c.credential_id;
      selected_verifier_key = verifier.0;
      selected_verifier_label = verifier.1;
      route_reason =
          "Category '"
          <> c.category
          <> "' maps to verifier '"
          <> verifier.0
          <> "'. "
          <> provider_note c.category (key_of provider) capability.provider_label preferred.0 mode
              reason;
      preferred_provider_key = preferred.0;
      preferred_provider_label = preferred.1;
      planned_provider_key = some (key_of provider);
      planned_provider_label = some capability.provider_label;
      planned_execution_mode = some mode;
      planned_is_live_result = mode == "LIVE_PROVIDER";
      planned_is_mock_result = key_of provider == "local_mock";
      planned_is_demo_result = capability.operating_mode == demo_mock;
      fallback_reason = reason;
      fallback_verifiers = fallbacks;
      manual_review_recommended = key_of provider == "local_mock" && c.category == "unknown";
    }

module _ (registry : Registry) (policy : ProviderRuntimePolicy) (c : Credential) where
  -- The route of a category that maps to the verifier, with the provider that was found for it.
  unfoldable pub route_with : String × String → Option Provider → VerifierRouteDecision
  unfolding manual_route provider_route no_provider_fallback_reason preferred_provider_for_category
  route_with verifier none =
      let preferred = preferred_provider_for_category c.category in
      manual_route c (no_provider_reason c verifier.0 preferred.0) preferred (
        no_provider_fallback_reason preferred.0 policy.transition_config.provider_operating_mode
          registry verifier.0 c.category)
  route_with verifier (some provider) =
      provider_route c verifier (preferred_provider_for_category c.category) provider

  unfoldable pub route_category : Option (String × String) → VerifierRouteDecision
  unfolding route_with find_provider manual_route preferred_provider_for_category
  route_category none =
      manual_route c "No deterministic external verifier is configured for this category yet."
        (none, none) "NO_EXECUTABLE_PROVIDER"
  route_category (some verifier) =
      route_with verifier (
        find_provider registry verifier.0 c.category (preferred_provider_for_category c.category).0)

  -- `route`, with the registry and the policy that the router was made with
  unfoldable pub route : VerifierRouteDecision
  unfolding not_required route_category get_key route_by_category
  route =
      if c.requires_verification
      then route_category (get_key c.category route_by_category)
      else not_required c
