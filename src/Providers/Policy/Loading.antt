-- ===== src/Providers/Policy/Loading.antt =====
-- verifier_providers/policies.py: the policy that is read from the environment.
use verification_engine.Base.{
  List, Option, String, [], bool_eq, false, if◌then◌else◌, nat_eq, none, nonempty, option_eq,
  present, some, string_eq, true, upper, ℕ, ◌++◌, ◌<>◌, ◌∷◌,
}
use verification_engine.Providers.Environment.{
  Environment, normalize_domain_allowlist, read_bool, read_csv, read_int,
}
use verification_engine.Providers.Policy.{
  ProviderConfig, ProviderRuntimePolicy, TransitionConfig, build_transition_config,
  default_enabled_provider_keys, getenv_or, nonblank,
}

-- `int`, cut off below at 0 and none on a ValueError, and `urlparse(…).hostname`
pub record Parsers : Type 0 where
  pub int_of : String → Option ℕ
  pub url_host : String → Option String

abbrev pub env_prefix : String → String
env_prefix provider_key = "VERIFIER_PROVIDER_" <> upper provider_key

abbrev base_url_values : Option String → List String
base_url_values none = []
base_url_values (some base_url) = base_url ∷ []

-- `_build_provider_config`
unfoldable pub build_provider_config :
    Parsers
    → Environment
    → (provider_key provider_label : String) (default_timeout_ms default_retry_budget : ℕ)
    → List String
    → TransitionConfig
    → ProviderConfig
unfolding read_bool read_int read_csv normalize_domain_allowlist
build_provider_config parsers getenv provider_key provider_label default_timeout_ms
      default_retry_budget global_domain_allowlist transition_config =
    let prefix = env_prefix provider_key in
    let base_url = getenv (prefix <> "_BASE_URL") in
    let explicit =
      normalize_domain_allowlist parsers.url_host
        (read_csv getenv (prefix <> "_DOMAIN_ALLOWLIST") []) in
    record {
      provider_key = provider_key;
      provider_label = provider_label;
      enabled = read_bool getenv (prefix <> "_ENABLED") false;
      base_url = base_url;
      timeout_ms = read_int parsers.int_of getenv (prefix <> "_TIMEOUT_MS") default_timeout_ms;
      retry_budget =
          read_int parsers.int_of getenv (prefix <> "_RETRY_BUDGET") default_retry_budget;
      outbound_mode = getenv_or (getenv (prefix <> "_OUTBOUND_MODE")) "HTTP_JSON";
      allow_document_upload = read_bool getenv (prefix <> "_ALLOW_DOCUMENT_UPLOAD") false;
      field_lookup_preferred = read_bool getenv (prefix <> "_FIELD_LOOKUP_REQUIRED") true;
      require_minimization = read_bool getenv (prefix <> "_REQUIRE_MINIMIZATION") true;
      domain_allowlist =
          if nonempty explicit
          then explicit
          else if present base_url
          then normalize_domain_allowlist parsers.url_host
              (base_url_values base_url ++ global_domain_allowlist)
          else global_domain_allowlist;
      api_key = getenv (prefix <> "_API_KEY");
      demo_enabled = read_bool getenv (prefix <> "_DEMO_ENABLED") true;
      operating_mode = transition_config.provider_operating_mode;
      execution_environment_label = transition_config.execution_environment_label;
    }

-- `build_local_mock_config` of a transition configuration
abbrev pub build_local_mock_config : TransitionConfig → ProviderConfig
build_local_mock_config transition_config = record {
  provider_key = "local_mock";
  provider_label = "Local Mock Provider";
  enabled = true;
  base_url = none;
  timeout_ms = 50;
  retry_budget = 0;
  outbound_mode = "LOCAL_ONLY";
  allow_document_upload = false;
  field_lookup_preferred = true;
  require_minimization = true;
  domain_allowlist = [];
  api_key = none;
  demo_enabled = true;
  operating_mode = transition_config.provider_operating_mode;
  execution_environment_label = transition_config.execution_environment_label;
}

-- `keys or default`
abbrev or_keys : List String → List String → List String
or_keys [] default = default
or_keys (x ∷ xs) default = x ∷ xs

-- `load_provider_runtime_policy`
unfoldable pub load_provider_runtime_policy : Parsers → Environment → ProviderRuntimePolicy
unfolding build_provider_config build_transition_config default_enabled_provider_keys read_bool
    read_int read_csv
load_provider_runtime_policy parsers getenv =
    let external = read_bool getenv "VERIFIER_EXTERNAL_PROVIDER_ENABLED" false in
    let timeout = read_int parsers.int_of getenv "VERIFIER_PROVIDER_DEFAULT_TIMEOUT_MS" 3000 in
    let budget = read_int parsers.int_of getenv "VERIFIER_PROVIDER_DEFAULT_RETRY_BUDGET" 0 in
    let allowlist = read_csv getenv "VERIFIER_PROVIDER_DOMAIN_ALLOWLIST" [] in
    let transition = build_transition_config getenv external in
    let default = default_enabled_provider_keys transition.provider_operating_mode in
    let config_of = λ (key : String) (label : String).
      build_provider_config parsers getenv key label timeout budget allowlist transition in
    record {
      external_provider_enabled = external;
      enabled_provider_keys =
          or_keys (nonblank (read_csv getenv "VERIFIER_ENABLED_PROVIDERS" default)) default;
      default_timeout_ms = timeout;
      default_retry_budget = budget;
      request_size_limit_bytes =
          read_int parsers.int_of getenv "VERIFIER_PROVIDER_REQUEST_SIZE_LIMIT_BYTES" 32768;
      response_size_limit_bytes =
          read_int parsers.int_of getenv "VERIFIER_PROVIDER_RESPONSE_SIZE_LIMIT_BYTES" 65536;
      global_domain_allowlist = allowlist;
      provider_configs =
          ("entra_verified_id", config_of "entra_verified_id" "Microsoft Entra Verified ID")
          ∷ ("identity_http", config_of "identity_http" "Supplementary Identity HTTP Provider")
          ∷ (
            "academic_registry_http",
            config_of "academic_registry_http" "Supplementary Academic Registry HTTP Provider",
          )
          ∷ [];
      transition_config = transition;
    }
