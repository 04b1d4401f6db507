-- ===== src/Workflow/Sessions/Leases.antt =====
-- Leases: one worker at a time, and a lease only on a session that is being verified.
use mathlib.Core.Path.{subst}
use verification_engine.Base.{
  All, Bool, List, Option, Result, String, [], arith, false, if◌then◌else◌, inl, inr, nat_eq, none,
  option_eq, refl, some, string_eq, sym, true, update, ℕ, ◌==◌, ◌∷◌, ◌≡◌,
}
use verification_engine.Workflow.States.{SessionState, TransitionError, state_eq, verifying}
use verification_engine.Workflow.Sessions.{
  Completion, LeaseGuard, Session, Sessions, abandon, acquire_lease, any_lease, beat,
  complete_processing, completed, fail_processing, failed, leased_by, mark_stale_sessions,
  null_lease, set_phase, stale, take_lease, transition_state, update_heartbeat, update_worker_phase,
}
use verification_engine.Workflow.Sessions.Laws.{
  acquire_lease-cases, mark_stale_sessions-eq, transition_state-table,
}

-- The statements of the repository, with any arguments, raising or not. Commits and the reads
-- between them change nothing here.
pub data Statement : Sessions → Sessions → Type 0 where
  acquire :
      (now : ℕ) (session_id worker_id : String) (db : Sessions)
      → Statement db (acquire_lease now session_id worker_id db).1
  phase :
      (now : ℕ) (session_id worker_id worker_phase : String) (db : Sessions)
      → Statement db (update_worker_phase now session_id worker_id worker_phase db)
  heartbeat :
      (now : ℕ) (session_id worker_id : String) (db : Sessions)
      → Statement db (update_heartbeat now session_id worker_id db).1
  mark_stale :
      (now timeout : ℕ) (db : Sessions) → Statement db (mark_stale_sessions now timeout db).1
  complete :
      (now : ℕ) (session_id : String) (state : SessionState) (outcome : String)
      (reason_codes connector_ids : List String) (extra : Option Completion) (db : Sessions)
      → Statement db
          (complete_processing now session_id state outcome reason_codes connector_ids extra db).1
  fail :
      (now : ℕ) (session_id : String) (state : SessionState) (reason_codes : List String)
      (db : Sessions)
      → Statement db (fail_processing now session_id state reason_codes db).1

pub data Statements (db : Sessions) : Sessions → Type 0 where
  start : Statements db db
  later : {a b : Sessions} → Statements db a → Statement a b → Statements db b

-- A lease is on a session that is VERIFYING, and its holder is the worker that took it.
pub record HasSoundLease (s : Session) : Type 0 where
  pub verifying_while_leased : (s.lease_id == none) ≡ false → s.status ≡ verifying
  pub holder : s.lease_holder_id ≡ s.lease_id

no_lease : (s : Session) → s.lease_id ≡ none → s.lease_holder_id ≡ none → HasSoundLease s
no_lease s e q = record { verifying_while_leased = λ h. ground arith; holder = ground arith }

All-update :
    (p : Session → Bool) (f : Session → Session) (db : Sessions)
    → ((s : Session) → HasSoundLease s → HasSoundLease (f s))
    → All HasSoundLease db
    → All HasSoundLease (update p f db)
All-update p f [] keep h = tt
All-update p f (s ∷ db) keep h = (sound_row (p s) (keep s h.0) h.0, All-update p f db keep h.1)
  where
    sound_row :
        (b : Bool) → HasSoundLease (f s) → HasSoundLease s → HasSoundLease (if b then f s else s)
    sound_row true hf hs = hf
    sound_row false hf hs = hs

transition_state-All :
    (now : ℕ) (session_id : String) (next : SessionState) (extra : Session → Session)
    (lease_guard : LeaseGuard) (db : Sessions)
    → ((s : Session)
        → HasSoundLease s
        → HasSoundLease (extra (record s { status = next; updated_at = now })))
    → All HasSoundLease db
    → All HasSoundLease (transition_state now session_id next extra lease_guard db).1
transition_state-All now session_id next extra lease_guard db keep h =
    transition_state-table now session_id next extra lease_guard db (All HasSoundLease) h
      λ current. All-update _ _ db keep h

acquire_lease-All :
    (now : ℕ) (session_id worker_id : String) (db : Sessions)
    → All HasSoundLease db
    → All HasSoundLease (acquire_lease now session_id worker_id db).1
acquire_lease-All now session_id worker_id db h =
    elim (acquire_lease-cases now session_id worker_id db) [
      | inl e ↦ subst (All HasSoundLease) (sym e) h
      | inr e ↦ subst (All HasSoundLease) (sym e) (
          transition_state-All now session_id verifying (take_lease now worker_id) null_lease db
            (λ s sound. record { verifying_while_leased = λ _. refl; holder = refl }) h)
    ]

completed-HasSoundLease :
    (outcome : String) (reason_codes connector_ids : List String) (extra : Option Completion)
    (s : Session)
    → HasSoundLease (completed outcome reason_codes connector_ids extra s)
completed-HasSoundLease outcome reason_codes connector_ids none s = no_lease _ refl refl
completed-HasSoundLease outcome reason_codes connector_ids (some c) s = no_lease _ refl refl

Statement-HasSoundLease :
    {db db' : Sessions} → Statement db db' → All HasSoundLease db → All HasSoundLease db'
unfolding update_worker_phase update_heartbeat complete_processing fail_processing
Statement-HasSoundLease (acquire now session_id worker_id db) h =
    acquire_lease-All now session_id worker_id db h
Statement-HasSoundLease (phase now session_id worker_id worker_phase db) h =
    All-update (leased_by session_id worker_id) (set_phase now worker_phase) db
      (λ s sound. record {
        verifying_while_leased = sound.verifying_while_leased;
        holder = sound.holder;
      })
      h
Statement-HasSoundLease (heartbeat now session_id worker_id db) h =
    All-update (leased_by session_id worker_id) (beat now) db
      (λ s sound. record {
        verifying_while_leased = sound.verifying_while_leased;
        holder = sound.holder;
      })
      h
Statement-HasSoundLease (mark_stale now timeout db) h =
    subst (λ (r : Result TransitionError ℕ × Sessions). All HasSoundLease r.1)
      (sym (mark_stale_sessions-eq now timeout db))
      (All-update (stale now timeout) (abandon now) db
        (λ s sound. no_lease (abandon now s) refl refl) h)
Statement-HasSoundLease (complete now session_id state outcome reason_codes connector_ids extra db)
      h =
    transition_state-All now session_id state (completed outcome reason_codes connector_ids extra)
      any_lease db
      (λ s sound.
        completed-HasSoundLease outcome reason_codes connector_ids extra
          (record s { status = state; updated_at = now }))
      h
Statement-HasSoundLease (fail now session_id state reason_codes db) h =
    transition_state-All now session_id state (failed reason_codes) any_lease db
      (λ s sound.
        no_lease (failed reason_codes (record s { status = state; updated_at = now })) refl refl)
      h

-- From a table with sound leases, whatever statements the workers issue in whatever order, every
-- lease is on a session that is VERIFYING and its holder is the worker of the lease.
pub leases_stay_sound :
    {db db' : Sessions} → Statements db db' → All HasSoundLease db → All HasSoundLease db'
leases_stay_sound start h = h
leases_stay_sound (later run s) h = Statement-HasSoundLease s (leases_stay_sound run h)
