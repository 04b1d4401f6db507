-- ===== src/Tests/Providers.antt =====
-- Concrete payloads, replies and environments: backend/app/verifier_providers.
use verification_engine.Base.{
  List, String, [], arith, bool_eq, err, false, get_key, if◌then◌else◌, lower, nat_eq, none, ok,
  option_eq, put_key, refl, some, string_eq, strip, text_length, true, upper, ℕ, ◌==◌, ◌∷◌, ◌≡◌,
  ◌⊎◌,
}
use verification_engine.Json.{Fields, bytes, dict, end, field, text}
use verification_engine.Providers.Minimize.{
  cut_text, is_sensitive_key, minimize_payload, sensitive_keys,
}
use verification_engine.Providers.Minimize.Bounds.{IsMinimal, minimize_payload-IsMinimal}
use verification_engine.Providers.Http.{
  Body, CallResult, HttpError, Reply, Url, answered, attempts_from, http_error, parse_json,
  post_json, settle_reply, validate_url,
}
use verification_engine.Providers.Http.Calls.{IsDecidedBy, is_blocked, post_json-IsDecidedBy}
use verification_engine.Providers.Environment.{Environment}
use verification_engine.Providers.Policy.{ProviderConfig, ProviderRuntimePolicy}
use verification_engine.Providers.Policy.Loading.{
  Parsers, build_provider_config, load_provider_runtime_policy,
}
use verification_engine.Providers.Registry.{
  Provider, build_default_provider_registry, find_provider, identity_http, supports,
}
use verification_engine.Providers.Registry.Live.{IsSwitchedOn, find_provider-IsPermitted, is_live}

abbrev lookup : Fields ℕ
lookup =
    field "name" (text " Ada ") (
      field "Raw_Text" (text "all of it")
        (field "scan" bytes (field "skip" (text "[omitted]") end)))

minimize_payload-IsMinimal_example : IsMinimal 160 (minimize_payload false 160 lookup).0
minimize_payload-IsMinimal_example = minimize_payload-IsMinimal 160 lookup (omega arith)

minimized_lookup : minimize_payload false 160 lookup ≡ (
  dict (
      field "name"
        (text "Ada")
        (field "Raw_Text" (text "[redacted]") (field "scan" (text "[redacted-bytes]") end))),
  true,
)
unfolding minimize_payload cut_text is_sensitive_key sensitive_keys string_eq lower text_length
    strip
minimized_lookup = refl

abbrev bank : Url
bank = record { scheme = "https"; hostname = some "Bank.example" }

abbrev empty_body : Body ℕ
empty_body = record { size = 0; loaded = none }

-- A server that is busy once, and then answers.
abbrev busy_once : ℕ → Reply ℕ
busy_once attempt =
    if attempt == 0 then http_error 503 "busy" empty_body else answered (some 200) empty_body

abbrev call : ℕ → CallResult ℕ
call retry_budget = post_json 100 100 bank 10 retry_budget ("bank.example" ∷ []) busy_once

retried_once : call 2 ≡ (ok (record { payload = end; http_status = some 200; retry_count = 1 }), 2)
unfolding post_json validate_url attempts_from settle_reply parse_json nat_eq string_eq lower
retried_once = refl

post_json-IsDecidedBy_example :
    ((is_blocked 100 10 bank ("bank.example" ∷ []) ≡ true)
      × ((e : HttpError) × (call 2 ≡ (err e, 0))))
    ⊎ ((is_blocked 100 10 bank ("bank.example" ∷ []) ≡ false)
        × ((last place : ℕ) × IsDecidedBy 100 busy_once 2 0 last place (call 2)))
post_json-IsDecidedBy_example =
    post_json-IsDecidedBy 100 100 bank 10 2 ("bank.example" ∷ []) busy_once

abbrev settings : List (String × String)
settings =
    ("VERIFIER_EXTERNAL_PROVIDER_ENABLED", "Yes")
    ∷ ("VERIFIER_PROVIDER_IDENTITY_HTTP_ENABLED", "1")
    ∷ ("VERIFIER_PROVIDER_IDENTITY_HTTP_BASE_URL", "https://id.example")
    ∷ []

abbrev pub live_environment : Environment
live_environment name = get_key name settings

abbrev pub parsers : Parsers
parsers = record { int_of = λ s. none; url_host = λ s. none }

abbrev live_policy : ProviderRuntimePolicy
live_policy = load_provider_runtime_policy parsers live_environment

abbrev identity_config : ProviderConfig
identity_config =
    build_provider_config parsers live_environment "identity_http"
      "Supplementary Identity HTTP Provider" 3000 0 [] live_policy.transition_config

abbrev identity_provider : Provider
identity_provider = identity_http identity_config

identity_provider-found :
    find_provider (build_default_provider_registry live_policy) "identity_db" "identity" none
    ≡ some identity_provider
unfolding find_provider build_default_provider_registry load_provider_runtime_policy string_eq
    get_key put_key lower strip upper
identity_provider-found = refl

find_provider-IsPermitted_example :
    (supports "identity_db" "identity" identity_provider ≡ true)
    × ((is_live identity_provider ≡ false) ⊎ IsSwitchedOn parsers live_environment "identity_http")
find_provider-IsPermitted_example =
    find_provider-IsPermitted parsers live_environment "identity_db" "identity" none
      identity_provider identity_provider-found
