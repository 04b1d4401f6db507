-- ===== src/Workflow/Sessions.antt =====
-- sessions/models.py (the columns that the workflow reads or writes) and workflow/repository.py.
-- Times are microseconds. A statement takes the table and gives the new one; a raise leaves it.
pub mod Laws
pub mod Leases
pub mod Lifecycle
pub mod Races
use verification_engine.Base.{
  Bool, HasUniqueKeys, List, Option, Result, String, [], any, contains, count, err, false, find,
  if◌then◌else◌, ltb, nat_eq, none, ok, option_eq, some, string_eq, true, update, ℕ, ◌&&◌, ◌+◌,
  ◌==◌, ◌∷◌,
}
use verification_engine.Workflow.States.{
  SessionState, TransitionError, abandoned_verifying, atomic_transition_failed, failed_retriable,
  invalid_transition, session_not_found, state_eq, uploaded_pending_review, validate_transition,
  verifying,
}

pub record Session : Type 0 where
  pub id : String
  pub status : SessionState
  pub user_id : String
  pub file_path : Option String
  pub worker_phase : Option String
  pub lease_id : Option String
  pub lease_holder_id : Option String
  pub lease_acquired_at : Option ℕ
  pub heartbeat_at : Option ℕ
  pub trust_outcome : Option String
  pub reason_codes : List String
  pub connector_ids : List String
  pub document_commitment : Option String
  pub audit_receipt_id : Option String
  pub purge_status : Option String
  pub purge_error : Option String
  pub verified_at : Option ℕ
  pub closed_at : Option ℕ
  pub updated_at : ℕ

abbrev pub Sessions : Type 0
Sessions = List Session

abbrev pub key : Session → String
key s = s.id

abbrev pub find_session : String → Sessions → Option Session
find_session = find key

abbrev pub HasUniqueIds : Sessions → Type 0
HasUniqueIds = HasUniqueKeys key

-- `get_session_state_and_version`, of which the callers read the state
unfoldable pub get_session_state : Sessions → String → Option SessionState
get_session_state db session_id = elim (find_session session_id db) [
  | none ↦ none
  | some s ↦ some s.status
]

-- LEASE_ACQUIRABLE_STATES
abbrev pub lease_acquirable_states : List SessionState
lease_acquirable_states = uploaded_pending_review ∷ failed_retriable ∷ []

-- What a transition demands of the lease: `require_lease_id` and `require_null_lease`.
pub data LeaseGuard : Type 0 where
  any_lease null_lease : LeaseGuard
  lease_of : String → LeaseGuard

abbrev pub lease_permits : LeaseGuard → Session → Bool
lease_permits any_lease s = true
lease_permits null_lease s = s.lease_id == none
lease_permits (lease_of l) s = s.lease_id == some l

-- The WHERE clause of the conditional UPDATE.
abbrev pub unchanged_since : String → SessionState → LeaseGuard → Session → Bool
unchanged_since session_id current lease_guard s =
    s.id == session_id && s.status == current && lease_permits lease_guard s

-- The conditional UPDATE and its check. `extra` sets the further columns.
unfoldable pub swap_state :
    ℕ
    → String
    → (current next : SessionState) → (Session → Session)
    → LeaseGuard
    → Sessions
    → Result TransitionError SessionState × Sessions
swap_state now session_id current next extra lease_guard db =
    let hit = unchanged_since session_id current lease_guard in
    if any hit db
    then (ok current, update hit (λ s. extra (record s { status = next; updated_at = now })) db)
    else (err (atomic_transition_failed current next), db)

validated :
    Result TransitionError Unit
    → Result TransitionError SessionState × Sessions
    → Sessions
    → Result TransitionError SessionState × Sessions
validated (ok _) swapped db = swapped
validated (err e) swapped db = (err e, db)

unfoldable pub transition_state :
    ℕ
    → String
    → SessionState
    → (Session → Session)
    → LeaseGuard
    → Sessions
    → Result TransitionError SessionState × Sessions
unfolding validated swap_state validate_transition get_session_state
transition_state now session_id next extra lease_guard db = elim (get_session_state db session_id) [
  | none ↦ (err session_not_found, db)
  | some current ↦
      validated (validate_transition current next)
        (swap_state now session_id current next extra lease_guard db) db
]

-- The columns that `acquire_lease` sets.
abbrev pub take_lease : ℕ → String → Session → Session
take_lease now worker_id s = record s {
  lease_id = some worker_id;
  lease_holder_id = some worker_id;
  lease_acquired_at = some now;
}

-- An InvalidStateTransitionError would leave the function; from an acquirable state there is none.
lease_result :
    Result TransitionError SessionState × Sessions → Result TransitionError Bool × Sessions
lease_result (ok _, db) = (ok true, db)
lease_result (err (invalid_transition s t), db) = (err (invalid_transition s t), db)
lease_result (err session_not_found, db) = (ok false, db)
lease_result (err (atomic_transition_failed s t), db) = (ok false, db)

unfoldable pub acquire_lease :
    ℕ → String → String → Sessions → Result TransitionError Bool × Sessions
unfolding lease_result transition_state
acquire_lease now session_id worker_id db = elim (get_session_state db session_id) [
  | none ↦ (ok false, db)
  | some current ↦
      if contains lease_acquirable_states current
      then lease_result
          (transition_state now session_id verifying (take_lease now worker_id) null_lease db)
      else (ok false, db)
]

abbrev pub leased_by : String → String → Session → Bool
leased_by session_id worker_id s = s.id == session_id && s.lease_id == some worker_id

abbrev pub set_phase : ℕ → String → Session → Session
set_phase now worker_phase s = record s { worker_phase = some worker_phase; updated_at = now }

abbrev pub beat : ℕ → Session → Session
beat now s = record s { heartbeat_at = some now; updated_at = now }

unfoldable pub update_worker_phase : ℕ → String → String → String → Sessions → Sessions
update_worker_phase now session_id worker_id worker_phase db =
    update (leased_by session_id worker_id) (set_phase now worker_phase) db

-- The number of rows that were updated, and the table.
unfoldable pub update_heartbeat : ℕ → String → String → Sessions → ℕ × Sessions
update_heartbeat now session_id worker_id db = (
  count (leased_by session_id worker_id) db,
  update (leased_by session_id worker_id) (beat now) db,
)

-- `heartbeat_at IS NOT NULL AND heartbeat_at < now - timeout`, by an addition
abbrev pub expired : ℕ → ℕ → Option ℕ → Bool
expired now timeout none = false
expired now timeout (some t) = ltb (t + timeout) now

abbrev pub stale : ℕ → ℕ → Session → Bool
stale now timeout s = s.status == verifying && expired now timeout s.heartbeat_at

abbrev pub abandon : ℕ → Session → Session
abandon now s = record s {
  status = abandoned_verifying;
  lease_id = none;
  lease_holder_id = none;
  lease_acquired_at = none;
  updated_at = now;
}

-- `timeout` is `timeout_seconds` in microseconds. The table permits the transition that is checked
-- first, so the check never raises.
unfoldable pub mark_stale_sessions : ℕ → ℕ → Sessions → Result TransitionError ℕ × Sessions
unfolding validate_transition
mark_stale_sessions now timeout db = elim (validate_transition verifying abandoned_verifying) [
  | err e ↦ (err e, db)
  | ok _ ↦ (ok (count (stale now timeout) db), update (stale now timeout) (abandon now) db)
]

-- The further columns of a completion: `extra_values` as `_build_completion_values` makes it.
pub record Completion : Type 0 where
  pub commitment : String
  pub receipt_id : String
  pub at : ℕ

abbrev pub add_completion : Option Completion → Session → Session
add_completion none s = s
add_completion (some c) s = record s {
  document_commitment = some c.commitment;
  audit_receipt_id = some c.receipt_id;
  verified_at = some c.at;
}

abbrev pub completed : String → List String → List String → Option Completion → Session → Session
completed outcome reason_codes connector_ids extra s = add_completion extra (record s {
  trust_outcome = some outcome;
  reason_codes = reason_codes;
  connector_ids = connector_ids;
  worker_phase = some "COMPLETED";
  lease_id = none;
  lease_holder_id = none;
  lease_acquired_at = none;
  heartbeat_at = none;
})

unfoldable pub complete_processing :
    ℕ
    → String
    → SessionState
    → String
    → (reason_codes connector_ids : List String) → Option Completion
    → Sessions
    → Result TransitionError SessionState × Sessions
unfolding transition_state
complete_processing now session_id outcome_state outcome reason_codes connector_ids extra db =
    transition_state now session_id outcome_state
      (completed outcome reason_codes connector_ids extra) any_lease db

abbrev pub failed : List String → Session → Session
failed reason_codes s = record s {
  worker_phase = some "FAILED";
  trust_outcome = none;
  reason_codes = reason_codes;
  connector_ids = [];
  lease_id = none;
  lease_holder_id = none;
  lease_acquired_at = none;
  heartbeat_at = none;
}

-- No caller in the worker passes `extra_values`.
unfoldable pub fail_processing :
    ℕ
    → String
    → SessionState
    → List String
    → Sessions
    → Result TransitionError SessionState × Sessions
unfolding transition_state
fail_processing now session_id failure_state reason_codes db =
    transition_state now session_id failure_state (failed reason_codes) any_lease db
