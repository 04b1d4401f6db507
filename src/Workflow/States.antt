-- ===== src/Workflow/States.antt =====
-- sessions/constants.py and workflow/state_machine.py: the states of a session and the transitions
-- between them. A state is the class constant itself; `str.strip` leaves each of them as it is.
pub mod Graph
use verification_engine.Base.{
  Eq, List, Result, [], contains, err, if◌then◌else◌, nat_eq, ok, option_eq, string_eq, true, ◌∷◌,
  ◌≡◌,
}

pub data SessionState : Type 0 where
  created upload_pending uploaded_pending_review verifying : SessionState
  verified_green verified_amber verified_red : SessionState
  pending_human_review human_approved human_rejected manual_review_required : SessionState
  abandoned_verifying failed_retriable failed_purged : SessionState
  pending_cleanup purge_complete : SessionState

SessionState-discrete : Discrete SessionState
SessionState-discrete = hlevel

instance unfoldable pub state_eq : Eq SessionState
unfolding SessionState-discrete
state_eq = record { dec = SessionState-discrete }

-- VERIFIED_STATES
abbrev pub verified_states : List SessionState
verified_states = verified_green ∷ verified_amber ∷ verified_red ∷ []

-- HUMAN_FINAL_STATES
abbrev pub human_final_states : List SessionState
human_final_states = human_approved ∷ human_rejected ∷ manual_review_required ∷ []

-- ALLOWED_TRANSITIONS.get(current, set())
unfoldable pub allowed_transitions : SessionState → List SessionState
allowed_transitions created = upload_pending ∷ []
allowed_transitions upload_pending = uploaded_pending_review ∷ []
allowed_transitions uploaded_pending_review = verifying ∷ []
allowed_transitions verifying =
    verified_green ∷ verified_amber ∷ verified_red ∷ pending_human_review ∷ failed_retriable
    ∷ failed_purged ∷ abandoned_verifying ∷ []
allowed_transitions verified_green = pending_human_review ∷ []
allowed_transitions verified_amber = pending_human_review ∷ []
allowed_transitions verified_red = pending_human_review ∷ []
allowed_transitions pending_human_review =
    human_approved ∷ human_rejected ∷ manual_review_required ∷ []
allowed_transitions human_approved = pending_cleanup ∷ []
allowed_transitions human_rejected = pending_cleanup ∷ []
allowed_transitions manual_review_required = pending_cleanup ∷ []
allowed_transitions pending_cleanup = purge_complete ∷ failed_purged ∷ []
allowed_transitions failed_retriable = verifying ∷ []
allowed_transitions abandoned_verifying = failed_retriable ∷ failed_purged ∷ []
allowed_transitions failed_purged = []
allowed_transitions purge_complete = []

abbrev pub Allowed : SessionState → SessionState → Type 0
Allowed s t = contains (allowed_transitions s) t ≡ true

-- InvalidStateTransitionError and StateTransitionConflictError
pub data TransitionError : Type 0 where
  invalid_transition : (current next : SessionState) → TransitionError
  session_not_found : TransitionError
  atomic_transition_failed : (current next : SessionState) → TransitionError

unfoldable pub validate_transition : SessionState → SessionState → Result TransitionError Unit
unfolding allowed_transitions
validate_transition current next =
    if contains (allowed_transitions current) next
    then ok tt
    else err (invalid_transition current next)
