-- ===== src/Providers/Registry.antt =====
-- verifier_providers/registry.py and providers/*.py: the providers that are registered, what they
-- support, and the one that is found for a verifier.
pub mod Found
pub mod Live
use verification_engine.Base.{
  Bool, List, Option, String, [], bool_eq, contains, false, get_key, if◌then◌else◌, nat_eq, none,
  nonempty, not, option_eq, present, put_key, some, string_eq, true, truthy, ℕ, ◌&&◌, ◌==◌, ◌||◌,
  ◌∷◌,
}
use verification_engine.Providers.Policy.{
  ProviderConfig, ProviderRuntimePolicy, demo_mock, external_configured, is_provider_enabled,
}
use verification_engine.Providers.Policy.Loading.{build_local_mock_config}

-- GenericHttpJsonProvider with what its subclasses set, and LocalMockProvider
pub data Provider : Type 0 where
  http_json :
      (provider_key provider_label : String)
      (supported_verifier_keys supported_categories : List String)
      → ProviderConfig
      → Provider
  local_mock : ProviderConfig → Provider

pub record ProviderCapability : Type 0 where
  pub provider_key : String
  pub provider_label : String
  pub supported_verifier_keys : List String
  pub supported_categories : List String
  pub supports_batch : Bool
  pub supports_partial_match : Bool
  pub supports_document_upload : Bool
  pub supports_field_lookup : Bool
  pub requires_credentials : Bool
  pub default_timeout_ms : ℕ
  pub enabled : Bool
  pub operating_mode : String
  pub execution_environment_label : String
  pub demo_supported : Bool

abbrev pub key_of : Provider → String
key_of (http_json key label verifiers categories config) = key
key_of (local_mock config) = "local_mock"

abbrev pub local_verifier_keys : List String
local_verifier_keys =
    "identity_db" ∷ "address_check" ∷ "passport_db" ∷ "academic_registry" ∷ "certificate_registry"
    ∷ "license_registry" ∷ "financial_registry" ∷ "tax_authority" ∷ []

abbrev pub local_categories : List String
local_categories =
    "identity" ∷ "address" ∷ "passport" ∷ "academic" ∷ "certificate" ∷ "license" ∷ "financial"
    ∷ "tax" ∷ []

-- `get_capabilities`
unfoldable pub get_capabilities : Provider → ProviderCapability
get_capabilities (http_json key label verifiers categories config) = record {
  provider_key = key;
  provider_label = label;
  supported_verifier_keys = verifiers;
  supported_categories = categories;
  supports_batch = false;
  supports_partial_match = true;
  supports_document_upload = config.allow_document_upload;
  supports_field_lookup = true;
  requires_credentials = config.operating_mode == external_configured;
  default_timeout_ms = config.timeout_ms;
  enabled =
      config.operating_mode == demo_mock && config.demo_enabled
      || config.enabled && present config.base_url;
  operating_mode = config.operating_mode;
  execution_environment_label = config.execution_environment_label;
  demo_supported = config.demo_enabled;
}
get_capabilities (local_mock config) = record {
  provider_key = "local_mock";
  provider_label = "Local Mock Provider";
  supported_verifier_keys = local_verifier_keys;
  supported_categories = local_categories;
  supports_batch = false;
  supports_partial_match = true;
  supports_document_upload = false;
  supports_field_lookup = true;
  requires_credentials = false;
  default_timeout_ms = config.timeout_ms;
  enabled = config.enabled;
  operating_mode = config.operating_mode;
  execution_environment_label = config.execution_environment_label;
  demo_supported = true;
}

-- `supports`
unfoldable pub supports : String → String → Provider → Bool
unfolding get_capabilities
supports verifier_key category provider =
    let capability = get_capabilities provider in
    capability.enabled
    && contains capability.supported_verifier_keys verifier_key
    && (not (nonempty capability.supported_categories)
        || contains capability.supported_categories category)

-- `ProviderRegistry`: the dict of its providers
abbrev pub Registry : Type 0
Registry = List (String × Provider)

abbrev pub register : Provider → Registry → Registry
register provider registry = put_key (key_of provider) provider registry

abbrev pub registered_if : Bool → Option Provider → Registry → Registry
registered_if allowed none registry = registry
registered_if allowed (some provider) registry =
    if allowed then register provider registry else registry

abbrev pub with_config : (ProviderConfig → Provider) → Option ProviderConfig → Option Provider
with_config make none = none
with_config make (some config) = some (make config)

abbrev pub entra_verified_id : ProviderConfig → Provider
entra_verified_id =
    http_json "entra_verified_id" "Microsoft Entra Verified ID"
      ("identity_db" ∷ "academic_registry" ∷ "certificate_registry" ∷ [])
      ("identity" ∷ "academic" ∷ "certificate" ∷ [])

abbrev pub identity_http : ProviderConfig → Provider
identity_http =
    http_json "identity_http" "Supplementary Identity HTTP Provider" ("identity_db" ∷ [])
      ("identity" ∷ [])

abbrev pub academic_registry_http : ProviderConfig → Provider
academic_registry_http =
    http_json "academic_registry_http" "Supplementary Academic Registry HTTP Provider"
      ("academic_registry" ∷ []) ("academic" ∷ "certificate" ∷ [])

abbrev pub register_http :
    ProviderRuntimePolicy → String → (ProviderConfig → Provider) → Registry → Registry
register_http policy key make registry =
    registered_if (is_provider_enabled policy key)
      (with_config make (get_key key policy.provider_configs)) registry

-- `build_default_provider_registry` of the policy that was loaded
unfoldable pub build_default_provider_registry : ProviderRuntimePolicy → Registry
unfolding is_provider_enabled
build_default_provider_registry policy =
    registered_if (is_provider_enabled policy "local_mock")
      (some (local_mock (build_local_mock_config policy.transition_config)))
      (register_http policy "academic_registry_http" academic_registry_http (
        register_http policy "identity_http" identity_http
          (register_http policy "entra_verified_id" entra_verified_id [])))

-- The first provider in the dict's order that supports the verifier and the category.
unfoldable pub first_supporting : String → String → Registry → Option Provider
first_supporting verifier_key category [] = none
first_supporting verifier_key category (e ∷ rest) =
    if supports verifier_key category e.1
    then some e.1
    else first_supporting verifier_key category rest

abbrev pub preferred_in : Registry → Option String → Option Provider
preferred_in registry none = none
preferred_in registry (some key) = if truthy key then get_key key registry else none

abbrev pub supporting : String → String → Option Provider → Option Provider → Option Provider
supporting verifier_key category none other = other
supporting verifier_key category (some provider) other =
    if supports verifier_key category provider then some provider else other

-- `find_provider`
unfoldable pub find_provider :
    Registry → (verifier_key category : String) → Option String → Option Provider
unfolding first_supporting supports get_key
find_provider registry verifier_key category preferred_provider_key =
    supporting verifier_key category (preferred_in registry preferred_provider_key)
      (first_supporting verifier_key category registry)
