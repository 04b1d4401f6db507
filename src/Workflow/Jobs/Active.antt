-- ===== src/Workflow/Jobs/Active.antt =====
-- At most one active job for a session.
use verification_engine.Base.{
  Bool, Option-cases, String, [], arith, bool_eq, count, if◌then◌else◌, inl, inr, nat_eq, none,
  option_eq, refl, some, string_eq, true, update, ℕ, ◌++◌, ◌+◌, ◌==◌, ◌∷◌, ◌≡◌, ◌≤◌,
}
use verification_engine.Workflow.Jobs.{
  Job, Jobs, begin, dequeue_job, done, enqueue_job, existing_job, expire, failed, finish,
  insert_job, is_active_for, is_pending, is_stale, job_beat, job_status_eq, mark_job_done,
  mark_job_failed, mark_job_skipped, mark_stale_processing_jobs_failed, new_job, oldest, run_by,
  skipped, still_pending, update_job_heartbeat,
}

-- One statement of the queue after another, with any arguments. `insert_late` is the INSERT of an
-- `enqueue_job` whose SELECT saw an earlier table.
pub data JobStep : Jobs → Jobs → Type 0 where
  enqueue :
      (now : ℕ) (job_id session_id : String) (jobs : Jobs)
      → JobStep jobs (enqueue_job now job_id session_id jobs).1
  insert_late :
      (now : ℕ) (job_id session_id : String) (jobs : Jobs)
      → JobStep jobs (insert_job now job_id session_id jobs)
  dequeue :
      (now : ℕ) (worker_id : String) (jobs : Jobs) → JobStep jobs (dequeue_job now worker_id jobs).1
  mark_done :
      (now : ℕ) (job_id : String) (jobs : Jobs) → JobStep jobs (mark_job_done now job_id jobs)
  mark_failed :
      (now : ℕ) (job_id error_message : String) (jobs : Jobs)
      → JobStep jobs (mark_job_failed now job_id error_message jobs)
  mark_skipped :
      (now : ℕ) (job_id error_message : String) (jobs : Jobs)
      → JobStep jobs (mark_job_skipped now job_id error_message jobs)
  beat :
      (now : ℕ) (job_id worker_id : String) (jobs : Jobs)
      → JobStep jobs (update_job_heartbeat now job_id worker_id jobs).1
  mark_stale :
      (now timeout : ℕ) (jobs : Jobs)
      → JobStep jobs (mark_stale_processing_jobs_failed now timeout jobs).1

pub data JobSteps (jobs : Jobs) : Jobs → Type 0 where
  start : JobSteps jobs jobs
  later : {a b : Jobs} → JobSteps jobs a → JobStep a b → JobSteps jobs b

-- The late inserts for a session among the steps.
abbrev pub late_insert : String → {a b : Jobs} → JobStep a b → ℕ
late_insert other (enqueue now job_id session_id jobs) = 0
late_insert other (insert_late now job_id session_id jobs) = if session_id == other then 1 else 0
late_insert other (dequeue now worker_id jobs) = 0
late_insert other (mark_done now job_id jobs) = 0
late_insert other (mark_failed now job_id error_message jobs) = 0
late_insert other (mark_skipped now job_id error_message jobs) = 0
late_insert other (beat now job_id worker_id jobs) = 0
late_insert other (mark_stale now timeout jobs) = 0

abbrev pub late_inserts : String → {a b : Jobs} → JobSteps a b → ℕ
late_inserts other start = 0
late_inserts other (later run s) = late_inserts other run + late_insert other s

abbrev pub active_jobs : String → Jobs → ℕ
active_jobs session_id jobs = count (is_active_for session_id) jobs

-- An update that makes no job active makes no more of them active.
active_jobs-update :
    (session_id : String) (hit : Job → Bool) (f : Job → Job)
    → ((j : Job)
        → hit j ≡ true
        → is_active_for session_id (f j) ≡ true
        → is_active_for session_id j ≡ true)
    → (jobs : Jobs) → active_jobs session_id (update hit f jobs) ≤ active_jobs session_id jobs
active_jobs-update session_id hit f keep [] = omega arith
active_jobs-update session_id hit f keep (j ∷ jobs) =
    ground (arith, keep j, active_jobs-update session_id hit f keep jobs)

count-append :
    (p : Job → Bool) (xs : Jobs) (j : Job)
    → count p (xs ++ j ∷ []) ≡ count p xs + (if p j then 1 else 0)
count-append p [] j = omega arith
count-append p (x ∷ xs) j = omega (arith, count-append p xs j)

pub oldest-none : (p : Job → Bool) (jobs : Jobs) → oldest p jobs ≡ none → count p jobs ≡ 0
unfolding oldest
oldest-none p [] h = refl
oldest-none p (j ∷ jobs) h = ground (arith, oldest-none p jobs)

-- One at most, or as many as before.
enqueue-active :
    (now : ℕ) (job_id session_id other : String) (jobs : Jobs) (n : ℕ)
    → active_jobs other jobs ≤ 1 + n
    → active_jobs other (enqueue_job now job_id session_id jobs).1 ≤ 1 + n
unfolding enqueue_job existing_job insert_job
enqueue-active now job_id session_id other jobs n h = ground (
  arith,
  oldest-none (is_active_for session_id) jobs,
  count-append (is_active_for other) jobs (new_job now job_id session_id),
)

insert_job-active :
    (now : ℕ) (job_id session_id other : String) (jobs : Jobs)
    → active_jobs other (insert_job now job_id session_id jobs)
      ≤ active_jobs other jobs + (if session_id == other then 1 else 0)
unfolding insert_job
insert_job-active now job_id session_id other jobs =
    ground (arith, count-append (is_active_for other) jobs (new_job now job_id session_id))

dequeue-active :
    (now : ℕ) (worker_id other : String) (jobs : Jobs)
    → active_jobs other (dequeue_job now worker_id jobs).1 ≤ active_jobs other jobs
unfolding dequeue_job
dequeue-active now worker_id other jobs = elim (Option-cases (oldest is_pending jobs)) [
  | inl e ↦ ground arith
  | inr (job, e) ↦ ground (
    arith,
    active_jobs-update other (still_pending job) (begin now worker_id job.started_at)
        (λ j h a. ground arith) jobs,
  )
]

JobStep-active :
    (session_id : String) {a b : Jobs} (s : JobStep a b) (n : ℕ)
    → active_jobs session_id a ≤ 1 + n
    → active_jobs session_id b ≤ 1 + n + late_insert session_id s
unfolding mark_job_done mark_job_failed mark_job_skipped update_job_heartbeat
    mark_stale_processing_jobs_failed
JobStep-active other (enqueue now job_id session_id jobs) n h =
    omega (arith, enqueue-active now job_id session_id other jobs n h)
JobStep-active other (insert_late now job_id session_id jobs) n h =
    omega (arith, insert_job-active now job_id session_id other jobs)
JobStep-active other (dequeue now worker_id jobs) n h =
    omega (arith, dequeue-active now worker_id other jobs)
JobStep-active other (mark_done now job_id jobs) n h = omega (
  arith,
  active_jobs-update other (λ j. j.id == job_id) (finish now done none) (λ j e a. ground arith)
      jobs,
)
JobStep-active other (mark_failed now job_id error_message jobs) n h = omega (
  arith,
  active_jobs-update other (λ j. j.id == job_id) (finish now failed (some error_message))
      (λ j e a. ground arith) jobs,
)
JobStep-active other (mark_skipped now job_id error_message jobs) n h = omega (
  arith,
  active_jobs-update other (λ j. j.id == job_id) (finish now skipped (some error_message))
      (λ j e a. ground arith) jobs,
)
JobStep-active other (beat now job_id worker_id jobs) n h = omega (
  arith,
  active_jobs-update other (run_by job_id worker_id) (job_beat now) (λ j e a. ground arith) jobs,
)
JobStep-active other (mark_stale now timeout jobs) n h = omega (
  arith,
  active_jobs-update other (is_stale now timeout) (expire now) (λ j e a. ground arith) jobs,
)

-- Whatever statements run one after another, on a queue with at most one active job for a session:
-- it has at most one more for each insert of an enqueue for that session which acted on what an
-- earlier table had shown. If no such enqueue overlaps with another statement, one stays the most.
pub one_active_job_per_session :
    {jobs jobs' : Jobs} (session_id : String) (run : JobSteps jobs jobs')
    → active_jobs session_id jobs ≤ 1
    → active_jobs session_id jobs' ≤ 1 + late_inserts session_id run
one_active_job_per_session session_id start h = h
one_active_job_per_session session_id (later run s) h = omega (
  arith,
  JobStep-active session_id s (late_inserts session_id run)
      (one_active_job_per_session session_id run h),
)
