-- ===== src/Providers/Runtime.antt =====
-- verifier_providers/service.py: the attempts of a run of providers, their traces, and what is kept
-- of them with the session. The providers' own code is an argument, as are the encoder and the
-- decoder of a collection of traces. Times, the metadata of a request and the summaries of responses
-- are left out, of which only the outbound mode and the number of retries are read here.
use verification_engine.Base.{
  Bool, List, Option, Result, String, [], bool_eq, err, false, if◌then◌else◌, nat_eq, none,
  nonempty, not, ok, option_eq, or_else, or_empty, present, some, string_eq, strip, text_take, true,
  truthy, ℕ, ◌++◌, ◌==◌, ◌∷◌,
}
use verification_engine.Json.{Fields, Json}
use verification_engine.Providers.Minimize.{minimize_payload}
use verification_engine.Providers.Registry.{
  Provider, Registry, find_provider, get_capabilities, key_of,
}

pub record ProviderRequest (F : Type 0) : Type 0 where
  pub request_id : String
  pub session_id : String
  pub task_id : String
  pub verifier_key : String
  pub provider_key : String
  pub input_payload : Json F
  pub redacted_payload : Json F
  pub timeout_ms : ℕ

pub record ProviderResponse (F : Type 0) : Type 0 where
  pub technical_status : String
  pub http_status : Option ℕ
  pub outbound_mode : Option String
  pub retry_count : ℕ
  pub operating_mode : String
  pub demo_profile_key : Option String
  pub execution_environment_label : Option String
  pub transition_notes : List String
  pub is_mock_result : Bool
  pub is_demo_result : Bool
  pub is_live_result : Bool

pub record ProviderExecutionTrace : Type 0 where
  pub request_id : String
  pub provider_key : String
  pub provider_label : String
  pub verifier_key : String
  pub technical_status : String
  pub redaction_applied : Bool
  pub outbound_mode : String
  pub retry_count : ℕ
  pub error_summary : Option String
  pub http_status : Option ℕ
  pub fallback_used : Bool
  pub provider_operating_mode : String
  pub demo_profile_key : Option String
  pub execution_environment_label : Option String
  pub transition_notes : List String
  pub is_mock_result : Bool
  pub is_demo_result : Bool
  pub is_live_result : Bool

pub record ProviderAttemptOutcome (F : Type 0) : Type 0 where
  pub provider_key : String
  pub provider_label : String
  pub response : ProviderResponse F
  pub trace : ProviderExecutionTrace

-- ProviderExecutionTraceCollection
pub record TraceCollection : Type 0 where
  pub session_id : String
  pub document_type : String
  pub traces : List ProviderExecutionTrace

-- SessionProviderOperatingMode, as far as a trace takes from it
pub record OperatingContext : Type 0 where
  pub provider_operating_mode : String
  pub demo_profile_key : Option String
  pub execution_environment_label : String
  pub provider_transition_notes : List String

-- What changes in ProviderExecutionRuntime
pub record Runtime : Type 0 where
  pub traces : List ProviderExecutionTrace
  pub error : Option String

-- What a provider's `execute` gives or raises, and its `normalize_response` after an exception
pub record ProviderCode (F : Type 0) : Type 0 where
  pub execute : Provider → ProviderRequest F → Result String (ProviderResponse F)
  pub failed_response : Provider → ProviderRequest F → String → ProviderResponse F

abbrev or_list : List String → List String → List String
or_list [] other = other
or_list (x ∷ xs) other = x ∷ xs

-- `_resolve_trace_outbound_mode`
unfoldable pub trace_outbound_mode : {F : Type 0} → String → ProviderResponse F → String
trace_outbound_mode provider_key response =
    let explicit = strip (or_empty response.outbound_mode) in
    if truthy explicit
    then explicit
    else if provider_key == "local_mock"
    then "LOCAL_ONLY"
    else if response.is_demo_result
    then "LOCAL_ONLY"
    else "HTTP_JSON"

module _ {F : Type 0} (code : ProviderCode F) (context : OperatingContext) where
  unfoldable pub trace_of :
      Provider
      → ProviderRequest F
      → Bool
      → ProviderResponse F
      → Option String
      → ProviderExecutionTrace
  unfolding trace_outbound_mode get_capabilities
  trace_of provider request redaction_applied response error_summary = record {
    request_id = request.request_id;
    provider_key = key_of provider;
    provider_label = (get_capabilities provider).provider_label;
    verifier_key = request.verifier_key;
    technical_status = response.technical_status;
    redaction_applied = redaction_applied;
    outbound_mode = trace_outbound_mode (key_of provider) response;
    retry_count = response.retry_count;
    error_summary = error_summary;
    http_status = response.http_status;
    fallback_used = false;
    provider_operating_mode =
        or_empty (or_else (some response.operating_mode) (some context.provider_operating_mode));
    demo_profile_key = or_else response.demo_profile_key context.demo_profile_key;
    execution_environment_label =
        or_else response.execution_environment_label (some context.execution_environment_label);
    transition_notes = or_list response.transition_notes context.provider_transition_notes;
    is_mock_result = response.is_mock_result;
    is_demo_result = response.is_demo_result;
    is_live_result = response.is_live_result;
  }

  -- The response of an attempt, the exception that is reported with it, and the runtime's error
  abbrev answered_by :
      Provider
      → ProviderRequest F
      → Result String (ProviderResponse F)
      → Option String
      → ProviderResponse F × Option String × Option String
  answered_by provider request (ok response) error = (response, none, error)
  answered_by provider request (err exception) error = (
    code.failed_response provider request exception,
    some (text_take 240 exception),
    some exception,
  )

  abbrev traced :
      Provider
      → ProviderRequest F
      → Bool
      → ProviderResponse F × Option String × Option String
      → Runtime
      → Option (ProviderAttemptOutcome F) × Runtime
  traced provider request redaction_applied (response, error_summary, error) runtime =
      let trace = trace_of provider request redaction_applied response error_summary in
      (
        some (record {
          provider_key = key_of provider;
          provider_label = (get_capabilities provider).provider_label;
          response = response;
          trace = trace;
        }),
        record { traces = runtime.traces ++ (trace ∷ []); error = error },
      )

  -- `provider.prepare_request` with the minimised payload and a new `request_id`
  unfoldable pub prepared :
      Provider → (request_id session_id task_id verifier_key : String) → Json F → ProviderRequest F
  unfolding get_capabilities
  prepared provider request_id session_id task_id verifier_key payload = record {
    request_id = request_id;
    session_id = session_id;
    task_id = task_id;
    verifier_key = verifier_key;
    provider_key = key_of provider;
    input_payload = payload;
    redacted_payload = payload;
    timeout_ms = (get_capabilities provider).default_timeout_ms;
  }

  unfoldable pub attempt_with :
      Provider
      → (request_id session_id task_id verifier_key : String) → Fields F
      → Runtime
      → Option (ProviderAttemptOutcome F) × Runtime
  unfolding minimize_payload prepared trace_of get_capabilities
  attempt_with provider request_id session_id task_id verifier_key input_payload runtime =
      let (payload, redaction_applied) =
        minimize_payload (get_capabilities provider).supports_document_upload 160 input_payload in
      let request = prepared provider request_id session_id task_id verifier_key payload in
      traced provider request redaction_applied
        (answered_by provider request (code.execute provider request) runtime.error) runtime

  -- `attempt_verification`
  unfoldable pub attempt_verification :
      Registry
      → (request_id session_id task_id verifier_key category : String) → Option String
      → Fields F
      → Runtime
      → Option (ProviderAttemptOutcome F) × Runtime
  unfolding find_provider attempt_with
  attempt_verification registry request_id session_id task_id verifier_key category preferred
        input_payload runtime =
      elim (find_provider registry verifier_key category preferred) [
        | none ↦ (none, runtime)
        | some provider ↦
            attempt_with provider request_id session_id task_id verifier_key input_payload runtime
      ]

-- `mark_fallback_used`: the first trace of the request
unfoldable pub mark_fallback_used :
    String → List ProviderExecutionTrace → List ProviderExecutionTrace
mark_fallback_used request_id [] = []
mark_fallback_used request_id (t ∷ ts) =
    let rest = mark_fallback_used request_id ts in
    if t.request_id == request_id then (record t { fallback_used = true }) ∷ ts else t ∷ rest

-- `infer_status`
unfoldable pub infer_status : Runtime → String
infer_status runtime =
    if not (nonempty runtime.traces)
    then "NOT_STARTED"
    else if present runtime.error
    then "FAILED"
    else "READY"

-- `build_trace_collection`
abbrev pub build_trace_collection : (session_id document_type : String) → Runtime → TraceCollection
build_trace_collection session_id document_type runtime = record {
  session_id = session_id;
  document_type = document_type;
  traces = runtime.traces;
}
