-- ===== src/Workflow/States/Graph.antt =====
-- What the transition table of workflow/state_machine.py means for a session's life.
use mathlib.Core.Path.{subst}
use verification_engine.Base.{
  ==-refl, Bool, arith, contains, if◌then◌else◌, inl, inr, nat_eq, option_eq, string_eq, true, ℕ,
  ◌&&◌, ◌*◌, ◌+◌, ◌==◌, ◌||◌, ◌↔◌, ◌≡◌, ◌≤◌, ◌⊎◌,
}
use verification_engine.Workflow.States.{
  Allowed, SessionState, abandoned_verifying, allowed_transitions, created, failed_purged,
  failed_retriable, human_approved, human_final_states, human_rejected, manual_review_required,
  pending_cleanup, pending_human_review, purge_complete, state_eq, upload_pending,
  uploaded_pending_review, verified_amber, verified_green, verified_red, verifying,
}

-- Walks in the table.
pub data Walk (s : SessionState) : SessionState → Type 0 where
  here : Walk s s
  step : {t u : SessionState} → Walk s t → Allowed t u → Walk s u

abbrev pub visits : {s t : SessionState} → SessionState → Walk s t → Bool
visits {s} v here = s == v
visits {s} {t} v (step w a) = visits v w || t == v

abbrev pub steps : {s t : SessionState} → Walk s t → ℕ
steps here = 0
steps (step w a) = steps w + 1

-- How often a walk enters VERIFYING from FAILED_RETRIABLE.
abbrev pub retries : {s t : SessionState} → Walk s t → ℕ
retries here = 0
retries (step {t = t} {u = u} w a) =
    (if t == failed_retriable && u == verifying then 1 else 0) + retries w

-- The states that only a human decision leads to.
abbrev pub is_reviewed : SessionState → Bool
is_reviewed s = contains human_final_states s || s == pending_cleanup || s == purge_complete

is_reviewed-before :
    (s t : SessionState)
    → Allowed s t
    → is_reviewed t ≡ true
    → (s ≡ pending_human_review) ⊎ (is_reviewed s ≡ true)
unfolding allowed_transitions
is_reviewed-before s t a h = ground arith

visits-last : {s t : SessionState} (w : Walk s t) → visits t w ≡ true
visits-last {s} here = ==-refl s
visits-last {s} {t} (step w a) = ground (arith, ==-refl t)

-- A session that was created reaches a human decision, cleanup or the purge only through
-- PENDING_HUMAN_REVIEW.
pub review_before_decision :
    {t : SessionState} (w : Walk created t)
    → is_reviewed t ≡ true
    → visits pending_human_review w ≡ true
review_before_decision here h = ground arith
review_before_decision (step {t = s} {u = t} w a) h = elim (is_reviewed-before s t a h) [
  | inl e ↦ ground (arith, subst (λ v. visits v w ≡ true) e (visits-last w))
  | inr r ↦ ground (arith, review_before_decision w r)
]

-- Position in the lifecycle.
abbrev pub rank : SessionState → ℕ
rank created = 0
rank upload_pending = 1
rank uploaded_pending_review = 2
rank verifying = 3
rank verified_green = 4
rank verified_amber = 4
rank verified_red = 4
rank abandoned_verifying = 4
rank failed_retriable = 5
rank pending_human_review = 5
rank human_approved = 6
rank human_rejected = 6
rank manual_review_required = 6
rank pending_cleanup = 7
rank failed_purged = 8
rank purge_complete = 8

rank-step :
    (s t : SessionState)
    → Allowed s t
    → rank s + 1 ≤ rank t + (if s == failed_retriable && t == verifying then 3 else 0)
unfolding allowed_transitions
rank-step s t a = ground arith

-- Every walk of the table is short: a session makes at most eight transitions, and three more for
-- each retry of a failed verification.
pub walk_length_bound :
    {s t : SessionState} (w : Walk s t) → steps w + rank s ≤ rank t + 3 * retries w
walk_length_bound here = omega arith
walk_length_bound (step {t = s} {u = t} w a) = ground (arith, rank-step s t a, walk_length_bound w)

-- Cleanup can be entered exactly from the three human decisions.
pub cleanup_entry :
    (s : SessionState) → Allowed s pending_cleanup ↔ (contains human_final_states s ≡ true)
unfolding allowed_transitions
cleanup_entry s = ground arith
