-- ===== src/Tests/Runs.antt =====
-- The columns that one attempt of the local provider leaves: backend/app/verifier_providers/service.py.
use verification_engine.Base.{
  Option, [], bool_eq, false, nat_eq, none, option_eq, refl, some, string_eq, true, ◌∷◌, ◌≡◌,
}
use verification_engine.Json.{Fields, Json, bytes, dict, end, field, flag, list, null, number, text}
use verification_engine.Providers.Runtime.{
  ProviderExecutionTrace, Runtime, TraceCollection, build_trace_collection,
}
use verification_engine.Providers.Stored.{
  ProviderColumns, TraceCodec, execution_status, infer_provider_status,
  mark_provider_execution_failure, stored_traces,
}
use verification_engine.Providers.Stored.Readback.{
  IsSummaryOf, mark_provider_execution_failure-execution_status,
}

-- A codec that keeps the collection as the one value of its dict.
abbrev dump_collection : TraceCollection → Fields TraceCollection
dump_collection c = field "collection" (number c) end

load_value : Json TraceCollection → Option TraceCollection
load_value null = none
load_value (flag b) = none
load_value (number c) = some c
load_value (text s) = none
load_value bytes = none
load_value (list items) = none
load_value (dict fields) = none

load_collection : Fields TraceCollection → Option TraceCollection
unfolding load_value
load_collection end = none
load_collection (field k x rest) = load_value x

abbrev whole_codec : TraceCodec TraceCollection
whole_codec = record { dump = dump_collection; load = load_collection }

abbrev local_trace : ProviderExecutionTrace
local_trace = record {
  request_id = "r1";
  provider_key = "local_mock";
  provider_label = "Local Mock Provider";
  verifier_key = "identity_db";
  technical_status = "SUCCESS";
  redaction_applied = false;
  outbound_mode = "LOCAL_ONLY";
  retry_count = 0;
  error_summary = none;
  http_status = none;
  fallback_used = false;
  provider_operating_mode = "LOCAL_MOCK";
  demo_profile_key = none;
  execution_environment_label = none;
  transition_notes = [];
  is_mock_result = true;
  is_demo_result = false;
  is_live_result = false;
}

abbrev run : Runtime
run = record { traces = local_trace ∷ []; error = none }

abbrev fresh_columns : ProviderColumns TraceCollection
fresh_columns = record {
  id = "s1";
  status = "VERIFYING";
  extraction_document_type = none;
  provider_execution_traces_payload = none;
  provider_execution_status = none;
  provider_execution_error = none;
  provider_operating_mode = none;
  demo_profile_key = none;
  execution_environment_label = none;
  provider_transition_notes = none;
}

-- Columns that hold the traces of the run.
abbrev traced_columns : ProviderColumns TraceCollection
traced_columns = record fresh_columns {
  provider_execution_traces_payload =
      some (dump_collection (build_trace_collection "s1" "degree" run));
}

abbrev failed_columns : ProviderColumns TraceCollection
failed_columns = mark_provider_execution_failure whole_codec "timed out" traced_columns

mark_provider_execution_failure-execution_status_example :
    ((execution_status whole_codec failed_columns).provider_execution_status ≡ "FAILED")
    × ((execution_status whole_codec failed_columns).provider_execution_error ≡ some "timed out")
    × IsSummaryOf
        (stored_traces whole_codec traced_columns)
        (execution_status whole_codec failed_columns)
mark_provider_execution_failure-execution_status_example =
    mark_provider_execution_failure-execution_status whole_codec "timed out" traced_columns

traced_status : (execution_status whole_codec traced_columns).provider_execution_status ≡ "READY"
unfolding execution_status stored_traces infer_provider_status load_collection load_value string_eq
traced_status = refl

-- A session of which nothing was persisted
fresh_status :
    (execution_status whole_codec fresh_columns).provider_execution_status ≡ "NOT_STARTED"
unfolding execution_status stored_traces infer_provider_status string_eq
fresh_status = refl
