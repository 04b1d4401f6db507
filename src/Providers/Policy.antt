-- ===== src/Providers/Policy.antt =====
-- verifier_providers/policies.py: the policy that the environment gives, and which providers it
-- enables.
pub mod Loading
use verification_engine.Base.{
  Bool, List, Option, String, [], bool_eq, contains, false, get_key, if◌then◌else◌, nat_eq, none,
  nonempty, not, option_eq, or_else, or_empty, present, select, some, string_eq, strip, truthy,
  upper, ℕ, ◌&&◌, ◌++◌, ◌<>◌, ◌==◌, ◌||◌, ◌∷◌,
}
use verification_engine.Providers.Environment.{Environment, read_bool, read_csv}

abbrev pub demo_mock : String
demo_mock = "DEMO_MOCK"

abbrev pub local_mock_mode : String
local_mock_mode = "LOCAL_MOCK"

abbrev pub external_configured : String
external_configured = "EXTERNAL_CONFIGURED"

abbrev pub live_disabled : String
live_disabled = "LIVE_DISABLED"

abbrev pub manual_only : String
manual_only = "MANUAL_ONLY"

pub record TransitionConfig : Type 0 where
  pub preferred_provider_rail : String
  pub provider_operating_mode : String
  pub enabled_provider_modes : List String
  pub demo_profile_key : Option String
  pub live_provider_enabled : Bool
  pub fallback_policy : String
  pub manual_review_policy : String
  pub execution_environment_label : String
  pub provider_transition_notes : List String

pub record ProviderConfig : Type 0 where
  pub provider_key : String
  pub provider_label : String
  pub enabled : Bool
  pub base_url : Option String
  pub timeout_ms : ℕ
  pub retry_budget : ℕ
  pub outbound_mode : String
  pub allow_document_upload : Bool
  pub field_lookup_preferred : Bool
  pub require_minimization : Bool
  pub domain_allowlist : List String
  pub api_key : Option String
  pub demo_enabled : Bool
  pub operating_mode : String
  pub execution_environment_label : String

pub record ProviderRuntimePolicy : Type 0 where
  pub external_provider_enabled : Bool
  pub enabled_provider_keys : List String
  pub default_timeout_ms : ℕ
  pub default_retry_budget : ℕ
  pub request_size_limit_bytes : ℕ
  pub response_size_limit_bytes : ℕ
  pub global_domain_allowlist : List String
  pub provider_configs : List (String × ProviderConfig)
  pub transition_config : TransitionConfig

-- What a policy without configuration for a key says, and with one.
abbrev pub enabled_with : ProviderRuntimePolicy → String → Option ProviderConfig → Bool
enabled_with policy provider_key none = false
enabled_with policy provider_key (some config) =
    let mode = policy.transition_config.provider_operating_mode in
    let listed = contains policy.enabled_provider_keys provider_key in
    if mode == demo_mock
    then config.demo_enabled && (not (nonempty policy.enabled_provider_keys) || listed)
    else if not (mode == external_configured)
    then false
    else policy.external_provider_enabled && config.enabled && present config.base_url && listed

-- `is_provider_enabled`; `should_register_provider` is the same test
unfoldable pub is_provider_enabled : ProviderRuntimePolicy → String → Bool
unfolding get_key
is_provider_enabled policy provider_key =
    if provider_key == "local_mock"
    then not (policy.transition_config.provider_operating_mode == manual_only)
    else enabled_with policy provider_key (get_key provider_key policy.provider_configs)

-- `_resolve_provider_operating_mode`
unfoldable pub resolve_provider_operating_mode : Option String → Bool → String
resolve_provider_operating_mode requested_mode live_provider_enabled =
    let requested = upper (strip (or_empty requested_mode)) in
    if live_provider_enabled
      && contains ("" ∷ local_mock_mode ∷ live_disabled ∷ external_configured ∷ []) requested
    then external_configured
    else if contains
        (demo_mock ∷ local_mock_mode ∷ external_configured ∷ live_disabled ∷ manual_only ∷ [])
        requested
    then requested
    else if live_provider_enabled
    then external_configured
    else live_disabled

-- `_default_enabled_provider_keys`
unfoldable pub default_enabled_provider_keys : String → List String
default_enabled_provider_keys operating_mode =
    if operating_mode == demo_mock || operating_mode == external_configured
    then "entra_verified_id" ∷ "identity_http" ∷ "academic_registry_http" ∷ "local_mock" ∷ []
    else if operating_mode == manual_only
    then []
    else "local_mock" ∷ []

-- `_default_environment_label`
unfoldable pub default_environment_label : String → String
default_environment_label operating_mode =
    if operating_mode == demo_mock
    then "POC demo environment"
    else if operating_mode == external_configured
    then "External provider environment"
    else if operating_mode == manual_only
    then "Manual review environment"
    else if operating_mode == local_mock_mode
    then "Local mock environment"
    else "Live-disabled environment"

-- `_default_transition_note`
unfoldable pub default_transition_note : String → String
default_transition_note operating_mode =
    if operating_mode == demo_mock
    then "Demo-mock mode is active. Provider results are seeded and normalized locally for presentation."
    else if operating_mode == external_configured
    then "External provider execution is configured. Live outbound calls remain bounded by the provider policy layer."
    else if operating_mode == local_mock_mode
    then "Local mock mode is active. No external provider calls will be attempted."
    else if operating_mode == manual_only
    then "Manual-only mode is active. Credentials without existing evidence should route to manual review."
    else "Live provider execution is disabled. Supplementary mock or manual fallback paths remain available."

-- `[note for note in notes if note]`
abbrev pub nonblank : List String → List String
nonblank xs = select truthy xs

abbrev seeded_note : String → Option String → List String
seeded_note operating_mode none = []
seeded_note operating_mode (some demo_profile_key) =
    if operating_mode == demo_mock && truthy demo_profile_key
    then ("Seeded demo profile '" <> demo_profile_key
        <> "' will be used when the session does not persist an override.")
      ∷ []
    else []

-- `x or None`
abbrev or_none : Option String → Option String
or_none none = none
or_none (some s) = if truthy s then some s else none

abbrev explicit_note : Option String → List String
explicit_note none = []
explicit_note (some s) = if truthy s then strip s ∷ [] else []

-- `os.getenv(name, default)`
abbrev pub getenv_or : Option String → String → String
getenv_or none default = default
getenv_or (some value) default = value

-- `_build_transition_config`
unfoldable pub build_transition_config : Environment → Bool → TransitionConfig
unfolding resolve_provider_operating_mode default_environment_label default_transition_note
    read_bool read_csv
build_transition_config getenv external_provider_enabled =
    let live = read_bool getenv "VERIFIER_LIVE_PROVIDER_ENABLED" external_provider_enabled in
    let mode =
      resolve_provider_operating_mode
        (or_else (getenv "VERIFIER_PROVIDER_OPERATING_MODE") (getenv "PROVIDER_OPERATING_MODE"))
        live in
    let profile =
      or_none (or_else (getenv "VERIFIER_DEMO_PROFILE_KEY") (getenv "DEMO_PROFILE_KEY")) in
    record {
      preferred_provider_rail = or_empty (
          or_else
            (some
              (strip (getenv_or (getenv "VERIFIER_PREFERRED_PROVIDER_RAIL") "entra_verified_id")))
            (some "entra_verified_id"));
      provider_operating_mode = mode;
      enabled_provider_modes =
          nonblank (read_csv getenv "VERIFIER_ENABLED_PROVIDER_MODES" (mode ∷ []));
      demo_profile_key = profile;
      live_provider_enabled = live && mode == external_configured;
      fallback_policy =
          getenv_or (getenv "VERIFIER_FALLBACK_POLICY") "SUPPLEMENTARY_THEN_LOCAL_MOCK";
      manual_review_policy =
          getenv_or (getenv "VERIFIER_MANUAL_REVIEW_POLICY") "RECOMMEND_ON_UNCERTAINTY";
      execution_environment_label = or_empty (
          or_else (getenv "VERIFIER_EXECUTION_ENVIRONMENT_LABEL") (
            or_else (getenv "EXECUTION_ENVIRONMENT_LABEL")
              (some (default_environment_label mode))));
      provider_transition_notes = nonblank (
          (default_transition_note mode ∷ [])
          ++ explicit_note (
              or_else (getenv "VERIFIER_PROVIDER_TRANSITION_NOTES")
                (getenv "PROVIDER_TRANSITION_NOTES"))
          ++ seeded_note mode profile);
    }
