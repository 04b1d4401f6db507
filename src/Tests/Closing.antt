-- ===== src/Tests/Closing.antt =====
-- An approved session that is closed: backend/app/workflow/runtime.py.
use verification_engine.Base.{
  Option, String, [], bool_eq, nat_eq, none, option_eq, refl, some, string_eq, ◌∷◌, ◌≡◌,
}
use verification_engine.Workflow.States.{
  TransitionError, allowed_transitions, human_approved, purge_complete, state_eq,
}
use verification_engine.Workflow.Sessions.{
  HasUniqueIds, Session, find_session, get_session_state, transition_state,
}
use verification_engine.Workflow.Closing.{Store, close_session, purge}
use verification_engine.Workflow.Closing.Purged.{IsClosed, close_session-IsClosed}
use verification_engine.Tests.Workflow.{other_row, row}

abbrev approved_row : Session
approved_row = row "s1" human_approved none

abbrev store : Store String
store = record {
  sessions = approved_row ∷ other_row ∷ [];
  columns = λ session_id name. some "kept";
  purges = [];
}

unique_sessions : HasUniqueIds store.sessions
unfolding string_eq
unique_sessions = (refl, (refl, tt))

approved_row-found : find_session "s1" store.sessions ≡ some approved_row
unfolding string_eq
approved_row-found = refl

abbrev delete : String → Option String
delete path = none

abbrev message_of : TransitionError → String
message_of e = "transition"

close_session-IsClosed_example :
    IsClosed delete 9 "s1" approved_row store (close_session message_of delete 9 "s1" "p1" store)
close_session-IsClosed_example =
    close_session-IsClosed message_of delete 9 "s1" "p1" store approved_row unique_sessions
      approved_row-found

purged :
    get_session_state (close_session message_of delete 9 "s1" "p1" store).1.sessions "s1"
    ≡ some purge_complete
unfolding close_session purge transition_state get_session_state string_eq state_eq
    allowed_transitions
purged = refl
