-- ===== src/Providers/Registry/Live.antt =====
-- verifier_providers: what the environment must say before a provider may be called for real.
use mathlib.Core.Path.{subst}
use verification_engine.Base.{
  All, Bool, Bool-cases, Option, String, [], ap, apart, arith, bool_eq, contains, false, get_key,
  if_either, if◌then◌else◌, inl, inr, nat_eq, not, option_eq, present, refl, some, string_eq, sym,
  true, ◌&&◌, ◌<>◌, ◌==◌, ◌∙◌, ◌∷◌, ◌≡◌, ◌⊎◌,
}
use verification_engine.Providers.Environment.{Environment, read_bool}
use verification_engine.Providers.Policy.{
  ProviderConfig, ProviderRuntimePolicy, demo_mock, enabled_with, external_configured,
  is_provider_enabled, manual_only,
}
use verification_engine.Providers.Policy.Loading.{
  Parsers, build_local_mock_config, build_provider_config, env_prefix, load_provider_runtime_policy,
}
use verification_engine.Providers.Registry.{
  Provider, Registry, academic_registry_http, build_default_provider_registry, entra_verified_id,
  find_provider, get_capabilities, identity_http, key_of, local_mock, register, register_http,
  registered_if, supports, with_config,
}
use verification_engine.Providers.Registry.Found.{All-put_key, find_provider-All}

abbrev is_local : String → Bool
is_local key = key == "local_mock"

-- A provider that would be called for real: not the local one, in the mode for external providers.
abbrev pub is_live : Provider → Bool
is_live p =
    not (key_of p == "local_mock") && (get_capabilities p).operating_mode == external_configured

-- The environment switches external providers on, and this one, and gives it an address; and its
-- key is among the enabled ones.
pub record IsSwitchedOn (parsers : Parsers) (getenv : Environment) (key : String) : Type 0 where
  pub externals : read_bool getenv "VERIFIER_EXTERNAL_PROVIDER_ENABLED" false ≡ true
  pub provider : read_bool getenv (env_prefix key <> "_ENABLED") false ≡ true
  pub address : present (getenv (env_prefix key <> "_BASE_URL")) ≡ true
  pub listed :
      contains (load_provider_runtime_policy parsers getenv).enabled_provider_keys key ≡ true

abbrev pub IsPermitted : Parsers → Environment → Provider → Type 0
IsPermitted parsers getenv p = (is_live p ≡ false) ⊎ IsSwitchedOn parsers getenv (key_of p)

enabled_with-external :
    (policy : ProviderRuntimePolicy) (key : String) (config : ProviderConfig)
    → enabled_with policy key (some config) ≡ true
    → (policy.transition_config.provider_operating_mode == external_configured) ≡ true
    → (policy.external_provider_enabled ≡ true)
      × (config.enabled ≡ true)
      × (present config.base_url ≡ true)
      × (contains policy.enabled_provider_keys key ≡ true)
enabled_with-external policy key config h external = ground (
  arith,
  apart policy.transition_config.provider_operating_mode demo_mock external_configured refl,
)

module _ (parsers : Parsers) (getenv : Environment) where
  abbrev pub policy : ProviderRuntimePolicy
  policy = load_provider_runtime_policy parsers getenv

  abbrev pub Permitted : Registry → Type 0
  Permitted registry = All (λ e. IsPermitted parsers getenv e.1) registry

  policy_externals :
      policy.external_provider_enabled ≡ read_bool getenv "VERIFIER_EXTERNAL_PROVIDER_ENABLED" false
  unfolding load_provider_runtime_policy
  policy_externals = refl

  http_IsPermitted :
      (key : String) (make : ProviderConfig → Provider) (config : ProviderConfig)
      → (key == "local_mock") ≡ false
      → key_of (make config) ≡ key
      → (get_capabilities (make config)).operating_mode
        ≡ policy.transition_config.provider_operating_mode
      → config.enabled ≡ read_bool getenv (env_prefix key <> "_ENABLED") false
      → config.base_url ≡ getenv (env_prefix key <> "_BASE_URL")
      → enabled_with policy key (some config) ≡ true
      → IsPermitted parsers getenv (make config)
  http_IsPermitted key make config remote named mode enabled address h =
      elim (Bool-cases (is_live (make config))) [
        | inr idle ↦ inl idle
        | inl live ↦
            let (externals, on, address_given, listed) =
              enabled_with-external policy key config h (external_mode live) in
            inr (
              subst (IsSwitchedOn parsers getenv) (sym named) (record {
                externals = sym policy_externals ∙ externals;
                provider = sym enabled ∙ on;
                address = ap present (sym address) ∙ address_given;
                listed = listed;
              }))
      ]
    where
      external_mode :
          is_live (make config) ≡ true
          → (policy.transition_config.provider_operating_mode == external_configured) ≡ true
      external_mode live = ground (arith, mode)

  registered_if-Permitted :
      (b : Bool) (p : Provider) (registry : Registry)
      → (b ≡ true → IsPermitted parsers getenv p)
      → Permitted registry
      → Permitted (registered_if b (some p) registry)
  registered_if-Permitted b p registry h hs =
      if_either Permitted b (register p registry) registry
        (λ allowed. All-put_key (IsPermitted parsers getenv) (key_of p) p registry (h allowed) hs)
        (λ _. hs)

  abbrev config_of : String → String → ProviderConfig
  config_of key label =
      build_provider_config parsers getenv key label policy.default_timeout_ms
        policy.default_retry_budget policy.global_domain_allowlist policy.transition_config

  config_facts :
      (key label : String)
      → ((config_of key label).enabled ≡ read_bool getenv (env_prefix key <> "_ENABLED") false)
        × ((config_of key label).base_url ≡ getenv (env_prefix key <> "_BASE_URL"))
        × ((config_of key label).operating_mode ≡ policy.transition_config.provider_operating_mode)
  unfolding build_provider_config
  config_facts key label = (refl, refl, refl)

  configs :
      policy.provider_configs
      ≡ ("entra_verified_id", config_of "entra_verified_id" "Microsoft Entra Verified ID")
        ∷ ("identity_http", config_of "identity_http" "Supplementary Identity HTTP Provider")
        ∷ (
          "academic_registry_http",
          config_of "academic_registry_http" "Supplementary Academic Registry HTTP Provider",
        )
        ∷ []
  unfolding load_provider_runtime_policy build_provider_config
  configs = refl

  enabled_config :
      (key : String) (config : ProviderConfig)
      → (key == "local_mock") ≡ false
      → get_key key policy.provider_configs ≡ some config
      → is_provider_enabled policy key ≡ true
      → enabled_with policy key (some config) ≡ true
  unfolding is_provider_enabled
  enabled_config key config remote found allowed =
      subst (λ o. enabled_with policy key o ≡ true) found
        (ap
            (λ (b : Bool).
              if b
              then not (policy.transition_config.provider_operating_mode == manual_only)
              else enabled_with policy key (get_key key policy.provider_configs))
            (sym remote)
          ∙ allowed)

  register_http-Permitted :
      (key label : String) (make : ProviderConfig → Provider) (registry : Registry)
      → (key == "local_mock") ≡ false
      → get_key key policy.provider_configs ≡ some (config_of key label)
      → key_of (make (config_of key label)) ≡ key
      → (get_capabilities (make (config_of key label))).operating_mode
        ≡ (config_of key label).operating_mode
      → Permitted registry
      → Permitted (register_http policy key make registry)
  register_http-Permitted key label make registry remote found named mode hs =
      subst
        (λ o.
          Permitted (registered_if (is_provider_enabled policy key) (with_config make o) registry))
        (sym found)
        (registered_if-Permitted (is_provider_enabled policy key) (make (config_of key label))
          registry
          (λ allowed.
            http_IsPermitted key make (config_of key label) remote named
              (mode ∙ (config_facts key label).2) (config_facts key label).0
              (config_facts key label).1
              (enabled_config key (config_of key label) remote found allowed))
          hs)

  config_lookups :
      (get_key "entra_verified_id" policy.provider_configs
        ≡ some (config_of "entra_verified_id" "Microsoft Entra Verified ID"))
      × (get_key "identity_http" policy.provider_configs
          ≡ some (config_of "identity_http" "Supplementary Identity HTTP Provider"))
      × (get_key "academic_registry_http" policy.provider_configs
          ≡ some
              (config_of "academic_registry_http" "Supplementary Academic Registry HTTP Provider"))
  unfolding get_key string_eq
  config_lookups = (
    ap (get_key "entra_verified_id") configs,
    ap (get_key "identity_http") configs,
    ap (get_key "academic_registry_http") configs,
  )

  remote_keys :
      (is_local "entra_verified_id" ≡ false)
      × (is_local "identity_http" ≡ false)
      × (is_local "academic_registry_http" ≡ false)
      × (is_local "local_mock" ≡ true)
  unfolding string_eq
  remote_keys = (refl, refl, refl, refl)

  pub default_registry-Permitted : Permitted (build_default_provider_registry policy)
  unfolding build_default_provider_registry get_capabilities
  default_registry-Permitted =
      let (entra, identity, academic) = config_lookups in
      let (entra_key, identity_key, academic_key, local_key) = remote_keys in
      registered_if-Permitted (is_provider_enabled policy "local_mock")
        (local_mock (build_local_mock_config policy.transition_config)) _
        (λ _. inl (rw local_key refl))
        (register_http-Permitted "academic_registry_http"
          "Supplementary Academic Registry HTTP Provider" academic_registry_http _ academic_key
          academic refl refl
          (register_http-Permitted "identity_http" "Supplementary Identity HTTP Provider"
            identity_http _ identity_key identity refl refl
            (register_http-Permitted "entra_verified_id" "Microsoft Entra Verified ID"
              entra_verified_id _ entra_key entra refl refl tt)))

-- For every environment and request: a provider that the default registry finds for a verifier and
-- a category supports them; and if it would be called for real, the environment says so: external
-- providers and this one are switched on, it has an address, and its key is among the enabled ones.
pub find_provider-IsPermitted :
    (parsers : Parsers) (getenv : Environment) (verifier_key category : String)
    (preferred : Option String) (p : Provider)
    → find_provider
        (build_default_provider_registry (load_provider_runtime_policy parsers getenv))
        verifier_key
        category
        preferred
      ≡ some p
    → (supports verifier_key category p ≡ true)
      × ((is_live p ≡ false) ⊎ IsSwitchedOn parsers getenv (key_of p))
find_provider-IsPermitted parsers getenv verifier_key category preferred p found =
    let (permitted, supported) =
      find_provider-All (IsPermitted parsers getenv)
        (build_default_provider_registry (load_provider_runtime_policy parsers getenv)) verifier_key
        category preferred p (default_registry-Permitted parsers getenv) found in
    (supported, permitted)
