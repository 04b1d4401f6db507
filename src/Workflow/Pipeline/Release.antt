-- ===== src/Workflow/Pipeline/Release.antt =====
-- However a run of the pipeline ends, it gives the lease up.
use mathlib.Core.Path.{subst}
use verification_engine.Base.{
  Bool, IsDistinct, Option, Result, String, ap, arith, bool_eq, err, false, find-update,
  if◌then◌else◌, keys-update, nat_eq, none, ok, option_eq, refl, some, string_eq, sym, true, update,
  updated, ℕ, ◌∙◌, ◌≡◌,
}
use verification_engine.Workflow.States.{Allowed, SessionState, state_eq, verifying}
use verification_engine.Workflow.Sessions.{
  HasUniqueIds, Session, Sessions, any_lease, beat, find_session, key, leased_by, set_phase,
  transition_state,
}
use verification_engine.Workflow.Sessions.Laws.{
  KeepsId, after, find-after, moved, transition_state-eq,
}
use verification_engine.Workflow.Pipeline.{
  Action, Raised, Stages, TrustResult, enter_heartbeat, enter_phase, other_error, other_under,
  tagged, under, with_heartbeat, workflow_error,
}

-- The session is VERIFYING and leased to the worker.
pub record IsHeld (session_id worker_id : String) (db : Sessions) : Type 0 where
  pub unique_ids : HasUniqueIds db
  pub row : Session
  pub found : find_session session_id db ≡ some row
  pub is_verifying : row.status ≡ verifying
  pub leased : row.lease_id ≡ some worker_id

-- The session is in the given state, with no lease and the given outcome.
pub record IsReleased (session_id : String) (state : SessionState) (outcome : Option String)
    (db : Sessions) : Type 0 where
  pub row : Session
  pub found : find_session session_id db ≡ some row
  pub in_state : row.status ≡ state
  pub no_lease : row.lease_id ≡ none
  pub no_holder : row.lease_holder_id ≡ none
  pub outcome_set : row.trust_outcome ≡ outcome

-- What a stage may do to the table: anything but touch the session's state and lease.
pub record KeepsLease {A : Type 0} (session_id worker_id : String) (m : Action A) : Type 0 where
  pub at : (db : Sessions) → IsHeld session_id worker_id db → IsHeld session_id worker_id (m db).1

pub record StagesKeepLease {E G P C : Type 0} (session_id worker_id : String)
    (stages : Stages E G P C) : Type 0 where
  pub extraction : KeepsLease session_id worker_id stages.extraction
  pub grounding : (e : E) → KeepsLease session_id worker_id (stages.grounding e)
  pub load_policy : (g : G) → KeepsLease session_id worker_id (stages.load_policy g)
  pub connector_eval : (g : G) (p : P) → KeepsLease session_id worker_id (stages.connector_eval g p)
  pub evaluate : (g : G) (c : C) (p : P) → KeepsLease session_id worker_id (stages.evaluate g c p)
  pub completion_values :
      (t : TrustResult) → KeepsLease session_id worker_id (stages.completion_values t)

module _ (session_id worker_id : String) where
  abbrev pub Held : Sessions → Type 0
  Held = IsHeld session_id worker_id

  tagged-table :
      {A : Type 0} (failure_type : String) (r : Result Raised A × Sessions)
      → (tagged failure_type r).1 ≡ r.1
  tagged-table failure_type (ok a, db) = refl
  tagged-table failure_type (err (workflow_error t c), db) = refl
  tagged-table failure_type (err other_error, db) = refl
  tagged-table failure_type (err (other_under t), db) = refl

  pub under-KeepsLease :
      {A : Type 0} (failure_type : String) (m : Action A)
      → KeepsLease session_id worker_id m
      → KeepsLease session_id worker_id (under failure_type m)
  unfolding under
  under-KeepsLease failure_type m keeps = record {
    at = λ db h. subst Held (sym (tagged-table failure_type (m db))) (keeps.at db h);
  }

  update-IsHeld :
      (hit : Session → Bool) (f : Session → Session) (db : Sessions)
      → ((s : Session) → (f s).id ≡ s.id)
      → ((s : Session) → (f s).status ≡ s.status)
      → ((s : Session) → (f s).lease_id ≡ s.lease_id)
      → Held db
      → Held (update hit f db)
  update-IsHeld hit f db same_id same_status same_lease h = record {
    unique_ids = subst IsDistinct (sym (keys-update key hit f same_id db)) h.unique_ids;
    row = if hit h.row then f h.row else h.row;
    found = find-update key hit f same_id session_id db ∙ ap (updated hit f) h.found;
    is_verifying = ground (arith, same_status h.row, h.is_verifying);
    leased = ground (arith, same_lease h.row, h.leased);
  }

  pub enter_phase-KeepsLease :
      (now : ℕ) (phase : String)
      → KeepsLease session_id worker_id (enter_phase now session_id worker_id phase)
  unfolding enter_phase
  enter_phase-KeepsLease now phase = record {
    at = λ db h.
        update-IsHeld (leased_by session_id worker_id) (set_phase now phase) db (λ s. refl)
          (λ s. refl) (λ s. refl) h;
  }

  enter_heartbeat-table :
      (now : ℕ) (db : Sessions)
      → (enter_heartbeat now session_id worker_id db).1
        ≡ update (leased_by session_id worker_id) (beat now) db
  unfolding enter_heartbeat
  enter_heartbeat-table now db = ground arith

  enter_heartbeat-KeepsLease :
      (now : ℕ) → KeepsLease session_id worker_id (enter_heartbeat now session_id worker_id)
  enter_heartbeat-KeepsLease now = record {
    at = λ db h. subst Held (sym (enter_heartbeat-table now db)) (
        update-IsHeld (leased_by session_id worker_id) (beat now) db (λ s. refl) (λ s. refl)
          (λ s. refl) h);
  }

  pub with_heartbeat-KeepsLease :
      (has_heartbeat : Bool) (now : ℕ)
      → KeepsLease session_id worker_id (with_heartbeat has_heartbeat now session_id worker_id)
  unfolding with_heartbeat
  with_heartbeat-KeepsLease true now = enter_heartbeat-KeepsLease now
  with_heartbeat-KeepsLease false now = record { at = λ db h. h }

  -- A transition that clears the lease, from a session that is held.
  pub release :
      (now : ℕ) (next : SessionState) (extra : Session → Session) (outcome : Option String)
      (db : Sessions)
      → KeepsId extra
      → ((s : Session) → (extra s).status ≡ s.status)
      → ((s : Session) → (extra s).lease_id ≡ none)
      → ((s : Session) → (extra s).lease_holder_id ≡ none)
      → ((s : Session) → (extra s).trust_outcome ≡ outcome)
      → Allowed verifying next
      → Held db
      → (db' : Sessions) × (transition_state now session_id next extra any_lease db
          ≡ (ok verifying, db'))
        × IsReleased session_id next outcome db'
  release now next extra outcome db keeps_id status lease holder outcome_of allowed h =
      let s = h.row in
      let moves =
        transition_state-eq now session_id next extra any_lease db keeps_id s h.unique_ids h.found
          (ground (arith, h.is_verifying, allowed)) in
      (
        after now session_id next extra any_lease db keeps_id s.status,
        subst
            (λ st.
              transition_state now session_id next extra any_lease db
              ≡ (ok st, after now session_id next extra any_lease db keeps_id s.status))
            h.is_verifying moves,
        record {
          row = moved now session_id next extra any_lease db keeps_id s;
          found = find-after now session_id next extra any_lease db keeps_id s h.found refl;
          in_state = status (record s { status = next; updated_at = now });
          no_lease = lease (record s { status = next; updated_at = now });
          no_holder = holder (record s { status = next; updated_at = now });
          outcome_set = outcome_of (record s { status = next; updated_at = now });
        },
      )
