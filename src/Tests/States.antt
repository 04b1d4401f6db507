-- ===== src/Tests/States.antt =====
-- Concrete walks of the table of transitions, and concrete errors: backend/app/workflow.
use verification_engine.Base.{
  bool_eq, nat_eq, option_eq, refl, some, string_eq, true, ◌*◌, ◌+◌, ◌↔◌, ◌≡◌, ◌≤◌,
}
use verification_engine.Workflow.States.{
  Allowed, allowed_transitions, created, failed_retriable, human_approved, pending_human_review,
  state_eq, upload_pending, uploaded_pending_review, verifying,
}
use verification_engine.Workflow.States.Graph.{
  Walk, here, rank, retries, review_before_decision, step, steps, visits, walk_length_bound,
}
use verification_engine.Workflow.Failures.{classify_failure, classify_failure-legal}

-- upload, verification with one retry, review, approval
abbrev retried_walk : Walk created failed_retriable
unfolding allowed_transitions state_eq
retried_walk =
    step {t = verifying} {u = failed_retriable}
      (step {t = uploaded_pending_review} {u = verifying}
        (step {t = upload_pending} {u = uploaded_pending_review}
          (step {t = created} {u = upload_pending} here refl) refl)
        refl)
      refl

abbrev approved_walk : Walk created human_approved
unfolding allowed_transitions state_eq
approved_walk =
    step {t = pending_human_review} {u = human_approved}
      (step {t = verifying} {u = pending_human_review}
        (step {t = failed_retriable} {u = verifying} retried_walk refl) refl)
      refl

review_before_decision_example : visits pending_human_review approved_walk ≡ true
unfolding state_eq
review_before_decision_example = review_before_decision approved_walk refl

walk_length_bound_example :
    steps approved_walk + rank created ≤ rank human_approved + 3 * retries approved_walk
walk_length_bound_example = walk_length_bound approved_walk

classify_failure-legal_example :
    Allowed verifying (classify_failure "connector_timeout" (some "high")).state
    × (Allowed (classify_failure "connector_timeout" (some "high")).state verifying
        ↔ ((classify_failure "connector_timeout" (some "high")).retriable ≡ true))
classify_failure-legal_example = classify_failure-legal "connector_timeout" (some "high")
