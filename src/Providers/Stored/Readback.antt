-- ===== src/Providers/Stored/Readback.antt =====
-- verifier_providers/service.py: what is shown of a session whose providers failed.
use mathlib.Core.Path.{subst}
use verification_engine.Trust.Findings.{insert_text, sort_texts}
use verification_engine.Base.{
  List, Option, String, [], any, ap, arith, bool_eq, contains, contains-dedupe, dedupe, length,
  nat_eq, none, nonempty, option_eq, refl, select, some, string_eq, true, truthy, ◌&&◌, ◌==◌, ◌||◌,
  ◌∙◌, ◌∷◌, ◌≡◌,
}
use verification_engine.Providers.Runtime.{TraceCollection}
use verification_engine.Providers.Stored.{
  ExecutionStatus, ProviderColumns, TraceCodec, execution_status, infer_provider_status, load_model,
  mark_provider_execution_failure, or_empty_collection, persist, provider_keys, stored_traces,
  went_out,
}

contains-insert_text :
    (s : String) (ss : List String) (k : String)
    → contains (insert_text s ss) k ≡ (k == s || contains ss k)
unfolding insert_text
contains-insert_text s [] k = refl
contains-insert_text s (t ∷ ss) k = ground (arith, contains-insert_text s ss k)

contains-sort_texts : (ss : List String) (k : String) → contains (sort_texts ss) k ≡ contains ss k
unfolding sort_texts
contains-sort_texts [] k = refl
contains-sort_texts (s ∷ ss) k =
    contains-insert_text s (sort_texts ss) k ∙ ap (λ b. k == s || b) (contains-sort_texts ss k)

contains-select-truthy :
    (ss : List String) (k : String) → contains (select truthy ss) k ≡ (truthy k && contains ss k)
contains-select-truthy [] k = ground arith
contains-select-truthy (s ∷ ss) k = elim (string_eq.dec k s) [
  | yes e ↦ ground (arith, contains-select-truthy ss k, ap truthy e)
  | no n ↦ ground (arith, contains-select-truthy ss k)
]

-- What a status is to say of the stored traces: their number, the providers that have a key and a
-- trace, and whether a trace went out or used a fallback.
pub record IsSummaryOf (collection : TraceCollection) (x : ExecutionStatus) : Type 0 where
  pub available : nonempty collection.traces ≡ true → x.traces_available ≡ true
  pub number : x.trace_count ≡ length collection.traces
  pub providers :
      (k : String)
      → contains x.provider_keys_used k ≡ (truthy k && contains (provider_keys collection.traces) k)
  pub outbound : x.outbound_attempted ≡ any went_out collection.traces
  pub fallback : x.fallback_used ≡ any (λ t. t.fallback_used) collection.traces

module _ {F : Type 0} (codec : TraceCodec F) (error : String) (s : ProviderColumns F) where
  abbrev pub marked : ProviderColumns F
  marked = mark_provider_execution_failure codec error s

  same_default :
      (o : Option TraceCollection) → or_empty_collection marked o ≡ or_empty_collection s o
  unfolding mark_provider_execution_failure persist
  same_default none = refl
  same_default (some c) = refl

  traces_kept : stored_traces codec marked ≡ stored_traces codec s
  unfolding mark_provider_execution_failure persist stored_traces
  traces_kept = same_default (load_model codec s.provider_execution_traces_payload)

  IsSummaryOf-marked : IsSummaryOf (stored_traces codec marked) (execution_status codec marked)
  unfolding execution_status
  IsSummaryOf-marked =
      let collection = stored_traces codec marked in
      record {
        available = λ some_there. ground (arith, some_there);
        number = refl;
        providers = λ k.
            contains-sort_texts (dedupe (select truthy (provider_keys collection.traces))) k
            ∙ contains-dedupe (select truthy (provider_keys collection.traces)) k
            ∙ contains-select-truthy (provider_keys collection.traces) k;
        outbound = refl;
        fallback = refl;
      }

  failure_shown :
      ((execution_status codec marked).provider_execution_status ≡ "FAILED")
      × ((execution_status codec marked).provider_execution_error ≡ some error)
  unfolding execution_status infer_provider_status mark_provider_execution_failure persist string_eq
  failure_shown = (refl, refl)

  -- Whatever a session's columns held: once a failure of its providers is marked, the status that is
  -- shown is FAILED with that error, and it still summarises the traces that were stored before.
  pub mark_provider_execution_failure-execution_status :
      ((execution_status codec marked).provider_execution_status ≡ "FAILED")
      × ((execution_status codec marked).provider_execution_error ≡ some error)
      × IsSummaryOf (stored_traces codec s) (execution_status codec marked)
  mark_provider_execution_failure-execution_status = (
    failure_shown.0,
    failure_shown.1,
    subst (λ (c : TraceCollection). IsSummaryOf c (execution_status codec marked)) traces_kept
        IsSummaryOf-marked,
  )
