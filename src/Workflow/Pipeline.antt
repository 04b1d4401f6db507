-- ===== src/Workflow/Pipeline.antt =====
-- workflow/service.py, run_worker_pipeline and what it calls: one worker takes a leased session
-- from extraction to a verdict. The stages are parameters, as they are in the code. A stage acts on
-- the table (the default extraction writes a heartbeat) and may raise. The commits follow each
-- statement at once, so the table is the committed one. Heartbeats of the background thread go by
-- `update_heartbeat` and are not part of the run.
pub mod Release
pub mod Ending
use verification_engine.Base.{
  Bool, List, Option, Result, String, bool_eq, err, false, if◌then◌else◌, ltb, nat_eq, none, ok,
  option_eq, string_eq, true, ℕ,
}
use verification_engine.Workflow.States.{
  SessionState, TransitionError, pending_human_review, state_eq,
}
use verification_engine.Workflow.Failures.{FailureClassification, classify_failure}
use verification_engine.Workflow.Sessions.{
  Completion, Sessions, complete_processing, fail_processing, update_heartbeat, update_worker_phase,
}

-- A WorkflowProcessingError with its type and the assurance class of its context, or any other
-- exception, which the run's handler knows by the `failure_type` at the time.
pub data Raised : Type 0 where
  workflow_error : (error_type : String) (assurance_class : Option String) → Raised
  other_error : Raised
  other_under : (failure_type : String) → Raised

pub record TrustResult : Type 0 where
  pub outcome : String
  pub reason_codes : List String
  pub connector_ids : List String

abbrev pub Action : Type 0 → Type 0
Action A = Sessions → Result Raised A × Sessions

module _ {A B : Type 0} where
  abbrev pub after_step : (A → Action B) → Result Raised A × Sessions → Result Raised B × Sessions
  after_step f (ok a, db) = f a db
  after_step f (err e, db) = (err e, db)

  infixl 5 ◌>>=◌ ◌>>◌
  unfoldable pub ◌>>=◌ : Action A → (A → Action B) → Action B
  ◌>>=◌ m f db = after_step f (m db)

  abbrev pub ◌>>◌ : Action A → Action B → Action B
  m >> n = m >>= λ _. n

module _ {A : Type 0} where
  unfoldable pub pure : A → Action A
  pure a db = (ok a, db)

  abbrev pub tagged : String → Result Raised A × Sessions → Result Raised A × Sessions
  tagged failure_type (err other_error, db) = (err (other_under failure_type), db)
  tagged failure_type (err (other_under t), db) = (err (other_under t), db)
  tagged failure_type (err (workflow_error t c), db) = (err (workflow_error t c), db)
  tagged failure_type (ok a, db) = (ok a, db)

  -- A step that runs while the variable `failure_type` has this value, which the handler at the end
  -- finds when any other exception arrives.
  unfoldable pub under : String → Action A → Action A
  under failure_type m db = tagged failure_type (m db)

abbrev pub lift_transition :
    {A : Type 0} → Result TransitionError A × Sessions → Result Raised A × Sessions
lift_transition (ok a, db) = (ok a, db)
lift_transition (err e, db) = (err other_error, db)

-- `_HeartbeatRunner.__enter__`: RuntimeError if the lease is not this worker's
unfoldable pub enter_heartbeat : ℕ → String → String → Action Unit
unfolding update_heartbeat
enter_heartbeat now session_id worker_id db =
    let (rows, db') = update_heartbeat now session_id worker_id db in
    if ltb 0 rows then (ok tt, db') else (err other_error, db')

-- `with heartbeat_runner`, a nullcontext where the interval is not positive
unfoldable pub with_heartbeat : Bool → ℕ → String → String → Action Unit
unfolding enter_heartbeat
with_heartbeat true now session_id worker_id db = enter_heartbeat now session_id worker_id db
with_heartbeat false now session_id worker_id db = (ok tt, db)

-- `update_worker_phase`, with its commit
unfoldable pub enter_phase : ℕ → String → String → String → Action Unit
unfolding update_worker_phase
enter_phase now session_id worker_id phase db =
    (ok tt, update_worker_phase now session_id worker_id phase db)

-- `complete_processing` of the service
unfoldable pub complete : ℕ → String → TrustResult → Option Completion → Action SessionState
unfolding complete_processing
complete now session_id trust extra db = lift_transition (
    complete_processing now session_id pending_human_review trust.outcome trust.reason_codes
      trust.connector_ids extra db)

-- The handler wraps another exception into a WorkflowProcessingError of the `failure_type`, for the
-- classification only: what it raises anew is the exception itself.
abbrev pub classify : Raised → FailureClassification
classify (workflow_error t c) = classify_failure t c
classify other_error = classify_failure "unknown_processing_error" none
classify (other_under failure_type) = classify_failure failure_type none

abbrev pub with_classification :
    FailureClassification
    → Result Raised SessionState × Sessions
    → Result Raised FailureClassification × Sessions
with_classification c (ok _, db) = (ok c, db)
with_classification c (err e, db) = (err e, db)

-- `handle_processing_failure`
unfoldable pub handle_processing_failure : ℕ → String → Raised → Action FailureClassification
unfolding fail_processing
handle_processing_failure now session_id error db = with_classification (classify error) (
    lift_transition
      (fail_processing now session_id (classify error).state (classify error).reason_codes db))

-- The stages of a run, and whether its heartbeat has a positive interval. `evaluate` is the scoring with the default runtime's verifier results, and
-- `completion_values` the audit bundle of the default runtime, or None.
pub record Stages (E G P C : Type 0) : Type 0 where
  pub extraction : Action E
  pub grounding : E → Action G
  pub load_policy : G → Action P
  pub connector_eval : G → P → Action C
  pub evaluate : G → C → P → Action TrustResult
  pub completion_values : TrustResult → Action (Option Completion)
  pub has_heartbeat : Bool

module _ {E G P C : Type 0} (stages : Stages E G P C) (clock : ℕ → ℕ)
    (session_id worker_id : String) where
  -- the body of the `try`; the calls of the clock are numbered
  unfoldable pub pipeline_body : Action TrustResult
  pipeline_body = do
    under "unknown_processing_error"
        (with_heartbeat stages.has_heartbeat (clock 0) session_id worker_id)
    under "unknown_processing_error" (enter_phase (clock 1) session_id worker_id "EXTRACTING")
    extraction_data ← under "extraction_crash" stages.extraction
    under "extraction_crash" (enter_phase (clock 2) session_id worker_id "GROUNDING")
    grounded_data ← under "extraction_crash" (stages.grounding extraction_data)
    under "extraction_crash" (enter_phase (clock 3) session_id worker_id "CONNECTOR_EVAL")
    policy ← under "extraction_crash" (stages.load_policy grounded_data)
    responses ← under "transient_connector_error" (stages.connector_eval grounded_data policy)
    under "transient_connector_error" (enter_phase (clock 4) session_id worker_id "TRUST_SCORING")
    trust ← under "unknown_processing_error" (stages.evaluate grounded_data responses policy)
    extra ← under "unknown_processing_error" (stages.completion_values trust)
    under "unknown_processing_error" (complete (clock 5) session_id trust extra)
    pure trust

  abbrev pub reraise :
      Raised → Result Raised FailureClassification × Sessions → Result Raised TrustResult × Sessions
  reraise e (ok _, db) = (err e, db)
  reraise e (err e', db) = (err e', db)

  abbrev pub on_failure :
      Result Raised TrustResult × Sessions → Result Raised TrustResult × Sessions
  on_failure (ok trust, db) = (ok trust, db)
  on_failure (err e, db) = reraise e (handle_processing_failure (clock 6) session_id e db)

  unfoldable pub run_worker_pipeline : Action TrustResult
  run_worker_pipeline db = on_failure (pipeline_body db)
