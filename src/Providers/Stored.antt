-- ===== src/Providers/Stored.antt =====
-- verifier_providers/service.py: the columns of a session on its providers, what a failure leaves in
-- them, and what is read from them. A payload column holds a dict or NULL. A run itself persists
-- nothing here: its artifacts are only returned.
pub mod Readback
use verification_engine.Base.{
  Bool, List, Option, String, [], any, bool_eq, contains, dedupe, false, if◌then◌else◌, length,
  nat_eq, none, nonempty, not, option_eq, or_else, or_empty, present, select, some, string_eq, true,
  truthy, ℕ, ◌&&◌, ◌==◌, ◌||◌, ◌∷◌,
}
use verification_engine.Json.{Fields, end, field}
use verification_engine.Trust.Findings.{sort_texts}
use verification_engine.Providers.Runtime.{ProviderExecutionTrace, TraceCollection}

-- `model_dump(mode="json")` and `model_validate` of a collection, none where it raises
pub record TraceCodec (F : Type 0) : Type 0 where
  pub dump : TraceCollection → Fields F
  pub load : Fields F → Option TraceCollection

-- The columns of a session that are written or read here
pub record ProviderColumns (F : Type 0) : Type 0 where
  pub id : String
  pub status : String
  pub extraction_document_type : Option String
  pub provider_execution_traces_payload : Option (Fields F)
  pub provider_execution_status : Option String
  pub provider_execution_error : Option String
  pub provider_operating_mode : Option String
  pub demo_profile_key : Option String
  pub execution_environment_label : Option String
  pub provider_transition_notes : Option (List String)

-- The arguments of `persist_provider_execution_artifacts`; none is _UNSET
pub record Artifacts : Type 0 where
  pub provider_execution_traces : Option (Option TraceCollection)
  pub provider_execution_status : Option (Option String)
  pub provider_execution_error : Option (Option String)
  pub provider_operating_mode : Option (Option String)
  pub demo_profile_key : Option (Option String)
  pub execution_environment_label : Option (Option String)
  pub provider_transition_notes : Option (Option (List String))

abbrev pub set_or {ℓ} : {A : Type ℓ} → Option A → A → A
set_or none old = old
set_or (some new) old = new

abbrev pub is_dict : {F : Type 0} → Option (Fields F) → Bool
is_dict none = false
is_dict (some end) = false
is_dict (some (field k x rest)) = true

-- What `mark_provider_execution_failure` hands over.
abbrev pub failure_artifacts : String → Artifacts
failure_artifacts error = record {
  provider_execution_traces = none;
  provider_execution_status = some (some "FAILED");
  provider_execution_error = some (some error);
  provider_operating_mode = none;
  demo_profile_key = none;
  execution_environment_label = none;
  provider_transition_notes = none;
}

abbrev pub or_empty_collection :
    {F : Type 0} → ProviderColumns F → Option TraceCollection → TraceCollection
or_empty_collection s (some c) = c
or_empty_collection s none = record {
  session_id = s.id;
  document_type = or_empty (or_else s.extraction_document_type (some "unknown"));
  traces = [];
}

module _ {F : Type 0} (codec : TraceCodec F) where
  abbrev dump_model : Option TraceCollection → Option (Fields F)
  dump_model none = none
  dump_model (some c) = some (codec.dump c)

  abbrev dumped : Option (Option TraceCollection) → Option (Option (Fields F))
  dumped none = none
  dumped (some c) = some (dump_model c)

  -- `persist_provider_execution_artifacts`
  unfoldable pub persist : Artifacts → ProviderColumns F → ProviderColumns F
  persist a s = record s {
    provider_execution_traces_payload =
        set_or (dumped a.provider_execution_traces) s.provider_execution_traces_payload;
    provider_execution_status = set_or a.provider_execution_status s.provider_execution_status;
    provider_execution_error = set_or a.provider_execution_error s.provider_execution_error;
    provider_operating_mode = set_or a.provider_operating_mode s.provider_operating_mode;
    demo_profile_key = set_or a.demo_profile_key s.demo_profile_key;
    execution_environment_label =
        set_or a.execution_environment_label s.execution_environment_label;
    provider_transition_notes = set_or a.provider_transition_notes s.provider_transition_notes;
  }

  -- `mark_provider_execution_failure`, the one place that persists artifacts
  unfoldable pub mark_provider_execution_failure : String → ProviderColumns F → ProviderColumns F
  unfolding persist
  mark_provider_execution_failure error s = persist (failure_artifacts error) s

  -- `_load_model`
  abbrev pub load_model : Option (Fields F) → Option TraceCollection
  load_model none = none
  load_model (some payload) = codec.load payload

  -- `get_provider_execution_traces_for_session`
  unfoldable pub stored_traces : ProviderColumns F → TraceCollection
  stored_traces s = or_empty_collection s (load_model s.provider_execution_traces_payload)

abbrev pub counts_as : Bool → String → Bool
counts_as stored status = truthy status && (not (status == "NOT_STARTED") || stored)

-- `_infer_provider_status`
unfoldable pub infer_provider_status : {F : Type 0} → ProviderColumns F → TraceCollection → String
infer_provider_status s traces =
    let explicit = or_empty s.provider_execution_status in
    if counts_as (is_dict s.provider_execution_traces_payload) explicit
    then explicit
    else if present s.provider_execution_error
    then "FAILED"
    else if nonempty traces.traces
    then "READY"
    else "NOT_STARTED"

-- SessionProviderExecutionStatus, without what it copies from the operating mode
pub record ExecutionStatus : Type 0 where
  pub provider_execution_status : String
  pub provider_execution_error : Option String
  pub traces_available : Bool
  pub trace_count : ℕ
  pub provider_keys_used : List String
  pub outbound_attempted : Bool
  pub fallback_used : Bool

abbrev pub provider_keys : List ProviderExecutionTrace → List String
provider_keys [] = []
provider_keys (t ∷ ts) = t.provider_key ∷ provider_keys ts

abbrev pub went_out : ProviderExecutionTrace → Bool
went_out t = not (contains ("DISABLED" ∷ "LOCAL_ONLY" ∷ []) t.outbound_mode)

-- `get_provider_execution_status_for_session`
unfoldable pub execution_status : {F : Type 0} → TraceCodec F → ProviderColumns F → ExecutionStatus
unfolding stored_traces infer_provider_status sort_texts dedupe
execution_status codec s =
    let collection = stored_traces codec s in
    record {
      provider_execution_status = infer_provider_status s collection;
      provider_execution_error = s.provider_execution_error;
      traces_available = is_dict s.provider_execution_traces_payload || nonempty collection.traces;
      trace_count = length collection.traces;
      provider_keys_used = sort_texts (dedupe (select truthy (provider_keys collection.traces)));
      outbound_attempted = any went_out collection.traces;
      fallback_used = any (λ t. t.fallback_used) collection.traces;
    }
