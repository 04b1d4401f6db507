-- ===== src/Workflow/Closing/Purged.antt =====
-- workflow/runtime.py, close_session: how it ends for every session.
use verification_engine.Workflow.States.Graph.{cleanup_entry}
use mathlib.Core.Path.{subst}
use mathlib.Core.Bool.{false≢true}
use verification_engine.Base.{
  Bool, Bool-cases, IsDistinct, Option, String, ap, arith, bool_eq, contains, err, false,
  if◌then◌else◌, inl, inr, nat_eq, none, ok, option_eq, refl, some, string_eq, sym, true, ℕ, ◌&&◌,
  ◌==◌, ◌∙◌, ◌≡◌,
}
use verification_engine.Workflow.States.{
  SessionState, TransitionError, allowed_transitions, failed_purged, human_final_states,
  invalid_transition, pending_cleanup, purge_complete, state_eq,
}
use verification_engine.Workflow.Sessions.{
  HasUniqueIds, Session, Sessions, any_lease, find_session, transition_state,
}
use verification_engine.Workflow.Sessions.Laws.{
  KeepsId, after, find-after, find-after_ne, keys-after, transition_state-eq,
}
use verification_engine.Workflow.Closing.{
  Closed, Store, after_failure, after_opening, after_purge, begin_purge, clear_columns,
  close_session, complete_purge, deletion_error, fail_close, fail_purge, path_of, purge, purge_from,
  sensitive_columns, start_cleanup,
}

-- The row of a session that was closed: `failure` is the exception of deleting its file.
abbrev pub closed_row : (now : ℕ) (failure : Option String) → Session → Session
closed_row now none s = record s {
  status = purge_complete;
  file_path = none;
  worker_phase = none;
  lease_holder_id = none;
  heartbeat_at = none;
  purge_status = some "COMPLETED";
  purge_error = none;
  closed_at = some now;
  updated_at = now;
}
closed_row now (some error) s = record s {
  status = failed_purged;
  purge_status = some "FAILED";
  purge_error = some error;
  closed_at = some now;
  updated_at = now;
}

-- How it may end. Refused: the session's state is no human decision, and nothing changes. Closed:
-- its row is PURGE_COMPLETE without its file, and its sensitive columns are empty, or FAILED_PURGED
-- with the exception, and its columns as they were; every other row and column is as it was.
pub data IsClosed {V : Type 0} (delete : String → Option String) (now : ℕ) (session_id : String)
    (s : Session) (before : Store V) (c : Closed V) : Type 0 where
  refused :
      (e : TransitionError)
      → contains human_final_states s.status ≡ false
      → c ≡ (err e, before)
      → IsClosed delete now session_id s before c
  closed :
      (failure : Option String)
      → failure ≡ deletion_error delete s.file_path
      → contains human_final_states s.status ≡ true
      → c.0 ≡ ok tt
      → ((j : String)
          → find_session j c.1.sessions ≡ (
              if j == session_id
              then some (closed_row now failure s)
              else find_session j before.sessions))
      → ((j name : String)
          → c.1.columns j name ≡ (
              if j == session_id && contains sensitive_columns name && failure == none
              then none
              else before.columns j name))
      → IsClosed delete now session_id s before c

-- A transition that is permitted, on the whole table.
module _ (now : ℕ) (session_id : String) (next : SessionState) (extra : Session → Session)
    (keeps_id : KeepsId extra) (db : Sessions) (s : Session) (u : HasUniqueIds db)
    (found : find_session session_id db ≡ some s)
    (allowed : contains (allowed_transitions s.status) next ≡ true) where
  abbrev moved_table : Sessions
  moved_table = after now session_id next extra any_lease db keeps_id s.status

  transition_done :
      transition_state now session_id next extra any_lease db ≡ (ok s.status, moved_table)
  transition_done =
      transition_state-eq now session_id next extra any_lease db keeps_id s u found
        (ground (arith, allowed))

  named : (j : String) → (j == session_id) ≡ true → j ≡ session_id
  named j same = ground arith

  rows_after :
      (j : String)
      → find_session j moved_table ≡ (
          if j == session_id
          then some (extra (record s { status = next; updated_at = now }))
          else find_session j db)
  rows_after j = elim (Bool-cases (j == session_id)) [
    | inl same ↦ rw same (
        ap (λ k. find_session k moved_table) (named j same)
        ∙ find-after now session_id next extra any_lease db keeps_id s found refl)
    | inr other ↦
        rw other (find-after_ne now session_id next extra any_lease db keeps_id s.status j other)
  ]

  unique_after : HasUniqueIds moved_table
  unique_after =
      subst IsDistinct (sym (keys-after now session_id next extra any_lease db keeps_id s.status)) u

  row_after :
      find_session session_id moved_table
      ≡ some (extra (record s { status = next; updated_at = now }))
  row_after = find-after now session_id next extra any_lease db keeps_id s found refl

transition_refused :
    (now : ℕ) (session_id : String) (next : SessionState) (extra : Session → Session)
    (db : Sessions) (s : Session)
    → find_session session_id db ≡ some s
    → contains (allowed_transitions s.status) next ≡ false
    → transition_state now session_id next extra any_lease db
      ≡ (err (invalid_transition s.status next), db)
unfolding transition_state
transition_refused now session_id next extra db s found stuck = ground arith

two_rows :
    (b : Bool) (x y z : Option Session)
    → (if b then x else (if b then y else z)) ≡ (if b then x else z)
two_rows true x y z = refl
two_rows false x y z = refl

from_pending :
    (contains (allowed_transitions pending_cleanup) purge_complete ≡ true)
    × (contains (allowed_transitions pending_cleanup) failed_purged ≡ true)
unfolding allowed_transitions state_eq
from_pending = (refl, refl)

cleared :
    {V : Type 0} (a b : Bool) (failure : Option String) (x y : Option V)
    → failure ≡ none
    → (if a && b then x else y) ≡ (if a && b && failure == none then x else y)
cleared a b failure x y e = ground arith

kept :
    {V : Type 0} (a b : Bool) (error : String) (x y : Option V)
    → y ≡ (if a && b && some error == none then x else y)
kept a b error x y = ground arith

not_final :
    (t : SessionState)
    → contains (allowed_transitions t) pending_cleanup ≡ false
    → contains human_final_states t ≡ false
not_final t stuck = elim (Bool-cases (contains human_final_states t)) [
  | inr e ↦ e
  | inl e ↦ absurd (false≢true (sym stuck ∙ (cleanup_entry t).1 e))
]

module _ {V : Type 0} (message_of : TransitionError → String) (delete : String → Option String)
    (now : ℕ) (session_id purge_id : String) (store : Store V) (s : Session)
    (u : HasUniqueIds store.sessions) (found : find_session session_id store.sessions ≡ some s)
    (final : contains human_final_states s.status ≡ true)
    (allowed : contains (allowed_transitions s.status) pending_cleanup ≡ true) where
  abbrev opening : Session
  opening = begin_purge now (record s { status = pending_cleanup; updated_at = now })

  abbrev opened : Sessions
  opened =
      moved_table now session_id pending_cleanup (begin_purge now) (λ r. refl) store.sessions s u
        found allowed

  abbrev middle : Store V
  middle = record store {
    sessions = opened;
    purges = start_cleanup now purge_id session_id store.purges;
  }

  unique_opened : HasUniqueIds opened
  unique_opened =
      unique_after now session_id pending_cleanup (begin_purge now) (λ r. refl) store.sessions s u
        found allowed

  found_opened : find_session session_id opened ≡ some opening
  found_opened =
      row_after now session_id pending_cleanup (begin_purge now) (λ r. refl) store.sessions s u
        found allowed

  -- What the second transition makes of the table, in terms of the one before the first.
  both_rows :
      (next : SessionState) (extra : Session → Session) (keeps_id : KeepsId extra)
      (permitted : contains (allowed_transitions pending_cleanup) next ≡ true) (j : String)
      → find_session j (
          moved_table now session_id next extra keeps_id opened opening unique_opened found_opened
            permitted)
        ≡ (if j == session_id
            then some (extra (record opening { status = next; updated_at = now }))
            else find_session j store.sessions)
  both_rows next extra keeps_id permitted j =
      rows_after now session_id next extra keeps_id opened opening unique_opened found_opened
        permitted j
      ∙ ap
          (λ (o : Option Session).
            if j == session_id
            then some (extra (record opening { status = next; updated_at = now }))
            else o)
          (rows_after now session_id pending_cleanup (begin_purge now) (λ r. refl) store.sessions s
            u found allowed j)
      ∙ two_rows (j == session_id) _ _ _

  purge-eq :
      (failure : Option String)
      → failure ≡ deletion_error delete s.file_path
      → purge message_of delete now session_id middle
        ≡ purge_from message_of delete now session_id middle failure
  unfolding purge
  purge-eq failure e =
      ap (purge_from message_of delete now session_id middle)
        (ap (λ o. deletion_error delete (path_of o)) found_opened ∙ sym e)

  purge_from-IsClosed :
      (failure : Option String)
      → failure ≡ deletion_error delete s.file_path
      → IsClosed delete now session_id s store
          (purge_from message_of delete now session_id middle failure)
  unfolding purge_from after_purge fail_close after_failure clear_columns
  purge_from-IsClosed none e =
      subst (IsClosed delete now session_id s store)
        (sym (
          ap (after_purge message_of delete now session_id middle) (
            transition_done now session_id purge_complete complete_purge (λ r. refl) opened opening
              unique_opened found_opened from_pending.0)))
        (closed none e final refl
          (both_rows purge_complete complete_purge (λ r. refl) from_pending.0)
          (λ j name. cleared (j == session_id) (contains sensitive_columns name) none none _ refl))
  purge_from-IsClosed (some error) e =
      subst (IsClosed delete now session_id s store)
        (sym (
          ap (after_failure message_of delete now session_id error middle) (
            transition_done now session_id failed_purged (fail_purge error) (λ r. refl) opened
              opening unique_opened found_opened from_pending.1)))
        (closed (some error) e final refl
          (both_rows failed_purged (fail_purge error) (λ r. refl) from_pending.1)
          (λ j name. kept (j == session_id) (contains sensitive_columns name) error none _))

-- With unique ids and for a session that is there, whatever deleting its file does: closing it is
-- refused and changes nothing if its state is no human decision; and otherwise it ends, with the
-- session purged or marked as not purged, and all other rows and columns as they were.
pub close_session-IsClosed :
    {V : Type 0} (message_of : TransitionError → String) (delete : String → Option String) (now : ℕ)
    (session_id purge_id : String) (store : Store V) (s : Session)
    → HasUniqueIds store.sessions
    → find_session session_id store.sessions ≡ some s
    → IsClosed delete now session_id s store
        (close_session message_of delete now session_id purge_id store)
unfolding close_session after_opening
close_session-IsClosed message_of delete now session_id purge_id store s u found =
    elim (Bool-cases (contains (allowed_transitions s.status) pending_cleanup)) [
      | inr stuck ↦
          subst (IsClosed delete now session_id s store)
            (sym (
              ap (after_opening message_of delete now session_id purge_id store) (
                transition_refused now session_id pending_cleanup (begin_purge now) store.sessions s
                  found stuck)))
            (refused _ (not_final s.status stuck) refl)
      | inl allowed ↦
          subst (IsClosed delete now session_id s store)
            (sym (
              ap (after_opening message_of delete now session_id purge_id store) (
                transition_done now session_id pending_cleanup (begin_purge now) (λ r. refl)
                  store.sessions s u found allowed)))
            (subst (IsClosed delete now session_id s store)
              (sym (
                purge-eq message_of delete now session_id purge_id store s u found
                  ((cleanup_entry s.status).0 allowed) allowed _ refl))
              (purge_from-IsClosed message_of delete now session_id purge_id store s u found
                ((cleanup_entry s.status).0 allowed) allowed _ refl))
    ]
