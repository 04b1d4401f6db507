-- ===== src/Workflow/Pipeline/Ending.antt =====
-- How a run of the pipeline ends.
use verification_engine.Base.{
  Result, String, bool_eq, err, nat_eq, none, ok, option_eq, some, string_eq,
}
use verification_engine.Workflow.States.{pending_human_review, state_eq}
use verification_engine.Workflow.Sessions.{Sessions}
use verification_engine.Workflow.Pipeline.{Raised, TrustResult, classify}
use verification_engine.Workflow.Pipeline.Release.{IsHeld, IsReleased}

module _ (session_id worker_id : String) where
  -- The body returns with the session released to review, or raises with it still held.
  abbrev BodyEnds : Result Raised TrustResult × Sessions → Type 0
  BodyEnds (ok trust, db) = IsReleased session_id pending_human_review (some trust.outcome) db
  BodyEnds (err e, db) = IsHeld session_id worker_id db

  -- The run returns with the session released to review, or raises with it in the state that the
  -- error is classified to.
  abbrev pub RunEnds : Result Raised TrustResult × Sessions → Type 0
  RunEnds (ok trust, db) = IsReleased session_id pending_human_review (some trust.outcome) db
  RunEnds (err e, db) = IsReleased session_id (classify e).state none db
