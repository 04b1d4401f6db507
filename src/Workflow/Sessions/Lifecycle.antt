-- ===== src/Workflow/Sessions/Lifecycle.antt =====
-- workflow/repository.py against the lifecycle that the table of transitions specifies.
use verification_engine.Workflow.Sessions.Leases.{
  Statement, Statements, acquire, complete, fail, heartbeat, later, mark_stale, phase, start,
}
use verification_engine.Workflow.Sessions.Laws.{
  KeepsId, acquire_lease-cases, mark_stale_sessions-eq, transition_state-found,
}
use mathlib.Core.Path.{subst, subst₂}
use verification_engine.Base.{
  Bool, Bool-cases, List, Option, Option-cases, Result, String, arith, bool_eq, contains,
  find-update, if_either, inl, inr, nat_eq, none, option_eq, refl, some, string_eq, sym, true,
  update, updated, ℕ, ◌≡◌, ◌⊎◌,
}
use verification_engine.Workflow.States.{
  Allowed, SessionState, TransitionError, abandoned_verifying, allowed_transitions, state_eq,
  verifying,
}
use verification_engine.Workflow.States.Graph.{Walk, here, step}
use verification_engine.Workflow.Sessions.{
  Completion, LeaseGuard, Session, Sessions, abandon, acquire_lease, any_lease, beat,
  complete_processing, completed, fail_processing, failed, find_session, get_session_state, key,
  leased_by, null_lease, set_phase, stale, take_lease, transition_state, unchanged_since,
  update_heartbeat, update_worker_phase,
}

-- The specification, of one session id: it stays unknown, or its state walks in the table.
pub data Lifecycle : Option SessionState → Option SessionState → Type 0 where
  unknown : Lifecycle none none
  walks : {s t : SessionState} → Walk s t → Lifecycle (some s) (some t)

abbrev status_of : Option Session → Option SessionState
status_of none = none
status_of (some s) = some s.status

unchanged : (o : Option Session) → Lifecycle (status_of o) (status_of o)
unchanged none = unknown
unchanged (some s) = walks here

joined : {s t u : SessionState} → Walk s t → Walk t u → Walk s u
joined v here = v
joined v (step w a) = step (joined v w) a

Lifecycle-trans : {a b c : Option SessionState} → Lifecycle a b → Lifecycle b c → Lifecycle a c
Lifecycle-trans unknown unknown = unknown
Lifecycle-trans (walks v) (walks w) = walks (joined v w)

-- An UPDATE that keeps the ids and, on the rows it hits, follows the table.
update-Lifecycle :
    (p : Session → Bool) (f : Session → Session)
    → ((s : Session) → (f s).id ≡ s.id)
    → ((s : Session) → p s ≡ true → Walk s.status (f s).status)
    → (db : Sessions) (session_id : String)
    → Lifecycle
        (status_of (find_session session_id db))
        (status_of (find_session session_id (update p f db)))
update-Lifecycle p f same moves db session_id =
    subst (λ o. Lifecycle (status_of (find_session session_id db)) (status_of o))
      (sym (find-update key p f same session_id db)) (row (find_session session_id db))
  where
    row : (o : Option Session) → Lifecycle (status_of o) (status_of (updated p f o))
    row none = unknown
    row (some s) =
        if_either (λ (r : Session). Lifecycle (some s.status) (some r.status)) (p s) (f s) s
          (λ hit. walks (moves s hit)) (λ _. walks here)

unchanged_since-status :
    (session_id : String) (current : SessionState) (lease_guard : LeaseGuard) (s : Session)
    → unchanged_since session_id current lease_guard s ≡ true
    → s.status ≡ current
unchanged_since-status session_id current lease_guard s h = ground arith

stale-status : (now timeout : ℕ) (s : Session) → stale now timeout s ≡ true → s.status ≡ verifying
stale-status now timeout s h = ground arith

transition_state-legal :
    (now : ℕ) (session_id : String) (next : SessionState) (extra : Session → Session)
    (lease_guard : LeaseGuard) (db : Sessions)
    → ((transition_state now session_id next extra lease_guard db).1 ≡ db)
      ⊎ ((current : SessionState) × Allowed current next
          × ((transition_state now session_id next extra lease_guard db).1
              ≡ update
                  (unchanged_since session_id current lease_guard)
                  (λ r. extra (record r { status = next; updated_at = now }))
                  db))
unfolding transition_state
transition_state-legal now session_id next extra lease_guard db =
    elim (Option-cases (find_session session_id db)) [
      | inl e ↦ inl (ground arith)
      | inr (s, e) ↦ elim (Bool-cases (contains (allowed_transitions s.status) next)) [
        | inr refused ↦ inl (ground arith)
        | inl allowed ↦ elim (transition_state-found now session_id next extra lease_guard db s e) [
          | inl q ↦ inl q
          | inr q ↦ inr (s.status, allowed, q)
        ]
      ]
    ]

-- Two views of the table: a session is not seen to appear, to vanish or to leave the table of
-- transitions.
abbrev Follows : Sessions → Sessions → Type 0
Follows db db' =
    (session_id : String)
    → Lifecycle (status_of (find_session session_id db)) (status_of (find_session session_id db'))

Follows-same : (db db' : Sessions) → db' ≡ db → Follows db db'
Follows-same db db' e =
    subst (Follows db) (sym e) (λ session_id. unchanged (find_session session_id db))

one_step : (s : Session) (t u : SessionState) → s.status ≡ t → Allowed t u → Walk s.status u
one_step s t u e a = subst (λ v. Walk v u) (sym e) (step here a)

transition_state-Follows :
    (now : ℕ) (session_id : String) (next : SessionState) (extra : Session → Session)
    (lease_guard : LeaseGuard) (db : Sessions)
    → KeepsId extra
    → ((s : Session) → (extra s).status ≡ s.status)
    → Follows db (transition_state now session_id next extra lease_guard db).1
transition_state-Follows now session_id next extra lease_guard db keeps_id keeps_status =
    elim (transition_state-legal now session_id next extra lease_guard db) [
      | inl e ↦ Follows-same db _ e
      | inr (current, allowed, e) ↦ subst (Follows db) (sym e) (
          update-Lifecycle (unchanged_since session_id current lease_guard)
            (λ r. extra (record r { status = next; updated_at = now }))
            (λ r. keeps_id (record r { status = next; updated_at = now }))
            (λ r hit.
              subst (Walk r.status)
                (sym (keeps_status (record r { status = next; updated_at = now })))
                (one_step r current next
                  (unchanged_since-status session_id current lease_guard r hit) allowed))
            db)
    ]

completed-keeps :
    (outcome : String) (reason_codes connector_ids : List String) (extra : Option Completion)
    (s : Session)
    → ((completed outcome reason_codes connector_ids extra s).id ≡ s.id)
      × ((completed outcome reason_codes connector_ids extra s).status ≡ s.status)
completed-keeps outcome reason_codes connector_ids none s = (refl, refl)
completed-keeps outcome reason_codes connector_ids (some c) s = (refl, refl)

acquire_lease-Follows :
    (now : ℕ) (session_id worker_id : String) (db : Sessions)
    → Follows db (acquire_lease now session_id worker_id db).1
acquire_lease-Follows now session_id worker_id db =
    elim (acquire_lease-cases now session_id worker_id db) [
      | inl e ↦ Follows-same db _ e
      | inr e ↦ subst (Follows db) (sym e) (
          transition_state-Follows now session_id verifying (take_lease now worker_id) null_lease db
            (λ s. refl) (λ s. refl))
    ]

Statement-Follows : {db db' : Sessions} → Statement db db' → Follows db db'
unfolding update_worker_phase update_heartbeat complete_processing fail_processing
    allowed_transitions state_eq
Statement-Follows (acquire now session_id worker_id db) =
    acquire_lease-Follows now session_id worker_id db
Statement-Follows (phase now session_id worker_id worker_phase db) =
    update-Lifecycle (leased_by session_id worker_id) (set_phase now worker_phase) (λ s. refl)
      (λ s hit. here) db
Statement-Follows (heartbeat now session_id worker_id db) =
    update-Lifecycle (leased_by session_id worker_id) (beat now) (λ s. refl) (λ s hit. here) db
Statement-Follows (mark_stale now timeout db) =
    subst (λ (r : Result TransitionError ℕ × Sessions). Follows db r.1)
      (sym (mark_stale_sessions-eq now timeout db))
      (λ session_id.
        update-Lifecycle (stale now timeout) (abandon now) (λ s. refl)
          (λ s hit. one_step s verifying abandoned_verifying (stale-status now timeout s hit) refl)
          db session_id)
Statement-Follows (complete now session_id state outcome reason_codes connector_ids extra db) =
    transition_state-Follows now session_id state
      (completed outcome reason_codes connector_ids extra) any_lease db
      (λ s. (completed-keeps outcome reason_codes connector_ids extra s).0)
      (λ s. (completed-keeps outcome reason_codes connector_ids extra s).1)
Statement-Follows (fail now session_id state reason_codes db) =
    transition_state-Follows now session_id state (failed reason_codes) any_lease db (λ s. refl)
      (λ s. refl)

state_at :
    (db : Sessions) (session_id : String)
    → status_of (find_session session_id db) ≡ get_session_state db session_id
unfolding get_session_state
state_at db session_id = ground arith

Statements-Follows : {db db' : Sessions} → Statements db db' → Follows db db'
Statements-Follows {db} start session_id = unchanged (find_session session_id db)
Statements-Follows (later run s) session_id =
    Lifecycle-trans (Statements-Follows run session_id) (Statement-Follows s session_id)

-- The repository refines the lifecycle: whatever statements the workers issue, in whatever order
-- and with whatever arguments, the state that `get_session_state_and_version` reports of any id
-- before and after them differs by a walk in the table of transitions, and an id is known after
-- them exactly if it was known before.
pub repository_refinement :
    {db db' : Sessions}
    → Statements db db'
    → (session_id : String)
    → Lifecycle (get_session_state db session_id) (get_session_state db' session_id)
repository_refinement {db} {db'} run session_id =
    subst₂ Lifecycle (state_at db session_id) (state_at db' session_id)
      (Statements-Follows run session_id)
