-- ===== src/Tests/Workflow.antt =====
-- Concrete sessions and jobs: backend/app/workflow and backend/app/orchestrator.
use verification_engine.Workflow.Sessions.Lifecycle.{Lifecycle, repository_refinement}
use verification_engine.Base.{
  All, Option, String, [], arith, bool_eq, contains, false, nat_eq, none, ok, option_eq, refl, some,
  string_eq, true, ℕ, ◌&&◌, ◌==◌, ◌↔◌, ◌∷◌, ◌≡◌,
}
use verification_engine.Workflow.Sessions.Laws.{
  KeepsId, transition_state-ok, transition_state_ok_iff,
}
use verification_engine.Workflow.States.{
  Allowed, SessionState, allowed_transitions, created, state_eq, uploaded_pending_review, verifying,
}
use verification_engine.Workflow.Sessions.{
  HasUniqueIds, Session, Sessions, acquire_lease, find_session, get_session_state, lease_permits,
  mark_stale_sessions, null_lease, swap_state, take_lease, transition_state,
}
use verification_engine.Workflow.Sessions.Leases.{
  HasSoundLease, acquire, later, leases_stay_sound, mark_stale, start,
}
use verification_engine.Workflow.Sessions.Leases as Leases
use verification_engine.Workflow.Sessions.Races as Races
use verification_engine.Workflow.Sessions.Races.{
  Moves, System, attempt, has_read, holding, lease_mutual_exclusion, outside, put, read,
  standing_after, write,
}
use verification_engine.Workflow.Pipeline.{Action, Stages, TrustResult}

abbrev pub row : String → SessionState → Option String → Session
row session_id status lease = record {
  id = session_id;
  status = status;
  user_id = "u1";
  file_path = some "s1.pdf";
  worker_phase = none;
  lease_id = lease;
  lease_holder_id = lease;
  lease_acquired_at = none;
  heartbeat_at = none;
  trust_outcome = none;
  reason_codes = [];
  connector_ids = [];
  document_commitment = none;
  audit_receipt_id = none;
  purge_status = none;
  purge_error = none;
  verified_at = none;
  closed_at = none;
  updated_at = 0;
}

abbrev pub waiting_row : Session
waiting_row = row "s1" uploaded_pending_review none

abbrev held_row : Session
held_row = row "s1" verifying (some "w1")

abbrev pub other_row : Session
other_row = row "s2" created none

abbrev pub waiting_table : Sessions
waiting_table = waiting_row ∷ other_row ∷ []

abbrev held_table : Sessions
held_table = held_row ∷ other_row ∷ []

waiting_table-HasUniqueIds : HasUniqueIds waiting_table
unfolding string_eq
waiting_table-HasUniqueIds = (refl, (refl, tt))

waiting_table-found : find_session "s1" waiting_table ≡ some waiting_row
unfolding string_eq
waiting_table-found = refl

-- Two workers read, then both issue the conditional update.
abbrev race_start : System
race_start = record { db = waiting_table; at = λ _. outside }

abbrev race_one_read : System
race_one_read = record race_start {
  at = Races.put race_start.at "w1" (has_read uploaded_pending_review);
}

abbrev race_both_read : System
race_both_read = record race_one_read {
  at = Races.put race_one_read.at "w2" (has_read uploaded_pending_review);
}

abbrev race_write : ℕ → String → System → System
race_write now w c = record {
  db = (Races.attempt now "s1" w uploaded_pending_review c.db).1;
  at = Races.put c.at w (standing_after (Races.attempt now "s1" w uploaded_pending_review c.db).0);
}

abbrev race_end : System
race_end = race_write 6 "w2" (race_write 5 "w1" race_both_read)

race_run : Moves "s1" race_start race_end
unfolding get_session_state swap_state string_eq state_eq option_eq
race_run =
    Races.later
      (Races.later
        (Races.later
          (Races.later Races.start (Races.read race_start "w1" uploaded_pending_review refl refl))
          (Races.read race_one_read "w2" uploaded_pending_review refl refl))
        (Races.write 5 race_both_read "w1" uploaded_pending_review refl))
      (Races.write 6 (race_write 5 "w1" race_both_read) "w2" uploaded_pending_review refl)

race_won : race_end.at "w1" ≡ holding
unfolding swap_state string_eq state_eq option_eq
race_won = refl

race_lost : race_end.at "w2" ≡ outside
unfolding swap_state string_eq state_eq option_eq
race_lost = refl

lease_mutual_exclusion_example :
    (◌≡◌ {A = String} "w1" "w1")
    × ((r : Session) × (find_session "s1" race_end.db ≡ some r) × (r.lease_id ≡ some "w1"))
lease_mutual_exclusion_example =
    lease_mutual_exclusion "s1" waiting_table waiting_row race_end waiting_table-HasUniqueIds
      waiting_table-found race_run "w1" "w1" race_won race_won

waiting_table_sound : All HasSoundLease waiting_table
unfolding option_eq
waiting_table_sound = (
  record { verifying_while_leased = λ h. ground arith; holder = refl },
  (record { verifying_while_leased = λ h. ground arith; holder = refl }, tt),
)

leases_stay_sound_example :
    All HasSoundLease (mark_stale_sessions 900 300 (acquire_lease 5 "s1" "w1" waiting_table).1).1
leases_stay_sound_example =
    leases_stay_sound
      (Leases.later (Leases.later Leases.start (Leases.acquire 5 "s1" "w1" waiting_table))
        (Leases.mark_stale 900 300 (acquire_lease 5 "s1" "w1" waiting_table).1))
      waiting_table_sound

repository_refinement_example : Lifecycle (get_session_state waiting_table "s1") (
    get_session_state
      (mark_stale_sessions 900 300 (acquire_lease 5 "s1" "w1" waiting_table).1).1
      "s1")
repository_refinement_example =
    repository_refinement
      (Leases.later (Leases.later Leases.start (Leases.acquire 5 "s1" "w1" waiting_table))
        (Leases.mark_stale 900 300 (acquire_lease 5 "s1" "w1" waiting_table).1))
      "s1"

idle : {A : Type 0} → A → Action A
idle a db = (ok a, db)

abbrev green_result : TrustResult
green_result = record { outcome = "GREEN"; reason_codes = []; connector_ids = "local_mock" ∷ [] }

abbrev idle_stages : Stages Unit Unit Unit Unit
idle_stages = record {
  extraction = idle tt;
  grounding = λ e. idle tt;
  load_policy = λ g. idle tt;
  connector_eval = λ g p. idle tt;
  evaluate = λ g c p. idle green_result;
  completion_values = λ t. idle none;
  has_heartbeat = true;
}

take_lease-KeepsId : KeepsId (take_lease 7 "w1")
take_lease-KeepsId s = refl

transition_state-ok_example :
    (s : Session) × (find_session "s1" waiting_table ≡ some s)
    × (s.status ≡ uploaded_pending_review)
    × Allowed uploaded_pending_review verifying
    × (lease_permits null_lease s ≡ true)
    × (find_session "s1"
          (transition_state 7 "s1" verifying (take_lease 7 "w1") null_lease waiting_table).1
        ≡ some (take_lease 7 "w1" (record s { status = verifying; updated_at = 7 })))
    × ((j : String)
        → (j == "s1") ≡ false
        → find_session j
            (transition_state 7 "s1" verifying (take_lease 7 "w1") null_lease waiting_table).1
          ≡ find_session j waiting_table)
unfolding transition_state swap_state string_eq state_eq option_eq allowed_transitions
transition_state-ok_example =
    transition_state-ok 7 "s1" verifying (take_lease 7 "w1") null_lease waiting_table
      take_lease-KeepsId uploaded_pending_review waiting_table-HasUniqueIds refl

transition_state_ok_iff_example :
    ((transition_state 7 "s1" verifying (take_lease 7 "w1") null_lease waiting_table).0
      ≡ ok uploaded_pending_review)
    ↔ ((contains (allowed_transitions uploaded_pending_review) verifying
          && lease_permits null_lease waiting_row)
        ≡ true)
transition_state_ok_iff_example =
    transition_state_ok_iff 7 "s1" verifying (take_lease 7 "w1") null_lease waiting_table
      take_lease-KeepsId waiting_row waiting_table-HasUniqueIds waiting_table-found
