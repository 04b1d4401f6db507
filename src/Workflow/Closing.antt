-- ===== src/Workflow/Closing.antt =====
-- workflow/runtime.py, close_session, and cleanup/controller.py: a reviewed session is closed, its
-- document deleted and its sensitive columns cleared. Deleting the files is an argument.
pub mod Purged
use verification_engine.Base.{
  List, Option, Result, String, [], bool_eq, contains, err, if◌then◌else◌, ltb, nat_eq, none, ok,
  option_eq, select, some, string_eq, truthy, update, ℕ, ◌&&◌, ◌++◌, ◌==◌, ◌∷◌,
}
use verification_engine.Workflow.States.{
  SessionState, TransitionError, failed_purged, pending_cleanup, purge_complete, state_eq,
}
use verification_engine.Workflow.Sessions.{
  Session, Sessions, any_lease, find_session, transition_state,
}

-- PurgeTrackingRecord
pub record PurgeRecord : Type 0 where
  pub purge_id : String
  pub session_id : String
  pub purge_status : String
  pub started_at : ℕ
  pub completed_at : Option ℕ
  pub error_message : Option String

-- The tables: the sessions, their sensitive columns by session id and by name, the purges.
pub record Store (V : Type 0) : Type 0 where
  pub sessions : Sessions
  pub columns : String → String → Option V
  pub purges : List PurgeRecord

-- SENSITIVE_SESSION_CLEANUP_VALUES; file_path is a column of Session here
unfoldable pub sensitive_columns : List String
sensitive_columns =
    "filename" ∷ "extraction_payload" ∷ "connector_payload" ∷ "document_profile_payload"
    ∷ "generalized_credentials_payload" ∷ "verification_plan_payload"
    ∷ "verification_task_results_payload" ∷ "credential_verification_bundles_payload"
    ∷ "verification_execution_summary_payload" ∷ "credential_audits_payload"
    ∷ "verification_summary_payload" ∷ "workspace_payload" ∷ "generalized_analysis_status"
    ∷ "generalized_analysis_error" ∷ "agent_document_understanding_payload"
    ∷ "agent_credential_candidates_payload" ∷ "agent_route_recommendations_payload"
    ∷ "agent_explanations_payload" ∷ "agent_run_summary_payload" ∷ "agent_run_status"
    ∷ "agent_run_error" ∷ "provider_execution_traces_payload" ∷ "provider_execution_status"
    ∷ "provider_execution_error" ∷ "provider_operating_mode" ∷ "demo_profile_key"
    ∷ "execution_environment_label" ∷ "provider_transition_notes" ∷ "verification_execution_status"
    ∷ "verification_execution_error" ∷ []

unfoldable pub clear_columns :
    {V : Type 0} → String → (String → String → Option V) → String → String → Option V
clear_columns session_id columns j name =
    if j == session_id && contains sensitive_columns name then none else columns j name

-- `start_cleanup`; `purge_id` is a new key
unfoldable pub start_cleanup :
    ℕ → (purge_id session_id : String) → List PurgeRecord → List PurgeRecord
start_cleanup now purge_id session_id purges =
    purges
    ++ (record {
      purge_id = purge_id;
      session_id = session_id;
      purge_status = "IN_PROGRESS";
      started_at = now;
      completed_at = none;
      error_message = none;
    }
        ∷ [])

abbrev newer_purge : PurgeRecord → Option PurgeRecord → PurgeRecord
newer_purge r none = r
newer_purge r (some q) = if ltb r.started_at q.started_at then q else r

abbrev newest_purge : List PurgeRecord → Option PurgeRecord
newest_purge [] = none
newest_purge (r ∷ rs) = some (newer_purge r (newest_purge rs))

abbrev settled : ℕ → String → Option String → PurgeRecord → PurgeRecord
settled now purge_status error r = record r {
  purge_status = purge_status;
  completed_at = some now;
  error_message = error;
}

abbrev settle_newest :
    ℕ → String → Option String → Option PurgeRecord → List PurgeRecord → List PurgeRecord
settle_newest now purge_status error none purges = purges
settle_newest now purge_status error (some r) purges =
    update (λ q. q.purge_id == r.purge_id) (settled now purge_status error) purges

-- `complete_cleanup` and `fail_cleanup`: the session's latest purge is settled.
unfoldable pub settle_cleanup :
    ℕ → (purge_status : String) → Option String → String → List PurgeRecord → List PurgeRecord
settle_cleanup now purge_status error session_id purges =
    settle_newest now purge_status error
      (newest_purge (select (λ r. r.session_id == session_id) purges)) purges

-- The further columns of the three transitions.
abbrev pub begin_purge : ℕ → Session → Session
begin_purge now s = record s { purge_status = some "IN_PROGRESS"; closed_at = some now }

abbrev pub complete_purge : Session → Session
complete_purge s = record s {
  file_path = none;
  worker_phase = none;
  lease_holder_id = none;
  heartbeat_at = none;
  purge_status = some "COMPLETED";
  purge_error = none;
}

abbrev pub fail_purge : String → Session → Session
fail_purge error s = record s { purge_status = some "FAILED"; purge_error = some error }

abbrev pub path_of : Option Session → Option String
path_of none = none
path_of (some s) = s.file_path

-- The exception of deleting a session's file with its security artifacts, if it has a file.
abbrev pub deletion_error : (String → Option String) → Option String → Option String
deletion_error delete none = none
deletion_error delete (some path) = if truthy path then delete path else none

-- What a call gives or raises, and the tables after it.
abbrev pub Closed : Type 0 → Type 0
Closed V = Result TransitionError Unit × Store V

module _ {V : Type 0} (message_of : TransitionError → String) (delete : String → Option String)
    (now : ℕ) (session_id : String) where
  -- The handler of the exceptions; where it raises itself, what was committed stays.
  unfoldable pub after_failure :
      String → Store V → Result TransitionError SessionState × Sessions → Closed V
  unfolding settle_cleanup
  after_failure error store (err e, db) = (err e, store)
  after_failure error store (ok _, db) = (
    ok tt,
    record store {
      sessions = db;
      purges = settle_cleanup now "FAILED" (some error) session_id store.purges;
    },
  )

  unfoldable pub fail_close : String → Store V → Closed V
  unfolding after_failure transition_state
  fail_close error store =
      after_failure error store
        (transition_state now session_id failed_purged (fail_purge error) any_lease store.sessions)

  unfoldable pub after_purge : Store V → Result TransitionError SessionState × Sessions → Closed V
  unfolding fail_close clear_columns settle_cleanup
  after_purge store (err e, db) = fail_close (message_of e) store
  after_purge store (ok _, db) = (
    ok tt,
    record {
      sessions = db;
      columns = clear_columns session_id store.columns;
      purges = settle_cleanup now "COMPLETED" none session_id store.purges;
    },
  )

  unfoldable pub purge_from : Store V → Option String → Closed V
  unfolding after_purge fail_close transition_state
  purge_from store (some error) = fail_close error store
  purge_from store none =
      after_purge store
        (transition_state now session_id purge_complete complete_purge any_lease store.sessions)

  -- The `try` block and its handler, after the first commit.
  unfoldable pub purge : Store V → Closed V
  unfolding purge_from
  purge store =
      purge_from store (deletion_error delete (path_of (find_session session_id store.sessions)))

  unfoldable pub after_opening :
      String → Store V → Result TransitionError SessionState × Sessions → Closed V
  unfolding purge start_cleanup
  after_opening purge_id store (err e, db) = (err e, store)
  after_opening purge_id store (ok _, db) =
      purge (record store {
        sessions = db;
        purges = start_cleanup now purge_id session_id store.purges;
      })

  -- `close_session`. One reading of the clock stands for all. Where the first transition raises,
  -- nothing has been committed.
  unfoldable pub close_session : String → Store V → Closed V
  unfolding after_opening transition_state
  close_session purge_id store =
      after_opening purge_id store
        (transition_state now session_id pending_cleanup (begin_purge now) any_lease store.sessions)
