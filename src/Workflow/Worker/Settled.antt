-- ===== src/Workflow/Worker/Settled.antt =====
-- worker/worker.py: a job that a pass takes is settled at its end.
use mathlib.Core.Path.{subst}
use mathlib.Core.Option.{none-ne-some, some-injective}
use verification_engine.Base.{
  ==-refl, Bool, List, Option, Option-cases, Result, String, [], ap, arith, bool_eq, contains, err,
  false, find, find-update, if_either, inl, inr, nat_eq, none, ok, option_eq, refl, some, string_eq,
  sym, true, update, updated, ℕ, ◌+◌, ◌==◌, ◌∙◌, ◌∷◌, ◌≡◌, ◌⊎◌,
}
use verification_engine.Workflow.States.{TransitionError, state_eq}
use verification_engine.Workflow.Sessions.{Sessions, acquire_lease}
use verification_engine.Workflow.Jobs.{
  Job, JobStatus, Jobs, begin, claim, dequeue_job, done, finish, is_pending, job_key, job_status_eq,
  mark_job_done, mark_job_failed, mark_job_skipped, mark_terminal, oldest, skipped, still_pending,
}
use verification_engine.Workflow.Pipeline.{
  Raised, Stages, TrustResult, other_error, run_worker_pipeline,
}
use verification_engine.Workflow.Worker.{
  WorkerSettings, WorkerTables, after_lease, fail_job, finish_run, mark_or_fail, mark_stale_work,
  run_worker_once, work_on,
}

find_job-id : (k : String) (jobs : Jobs) (j : Job) → find job_key k jobs ≡ some j → j.id ≡ k
find_job-id k [] j h = ground arith
find_job-id k (i ∷ jobs) j h = ground (arith, find_job-id k jobs j)

find_job-found :
    (k : String) (jobs : Jobs) (j : Job)
    → find job_key k jobs ≡ some j
    → find job_key j.id jobs ≡ some j
find_job-found k jobs j h =
    subst (λ i. find job_key i jobs ≡ some j) (sym (find_job-id k jobs j h)) h

claim-found :
    (now : ℕ) (worker_id : String) (job j : Job) (jobs : Jobs)
    → (claim now worker_id job jobs).0 ≡ some j
    → find job_key j.id (claim now worker_id job jobs).1 ≡ some j
unfolding claim
claim-found now worker_id job j jobs h = ground (
  arith,
  find_job-found job.id (update (still_pending job) (begin now worker_id job.started_at) jobs) j,
)

dequeue_job-found :
    (now : ℕ) (worker_id : String) (j : Job) (jobs : Jobs)
    → (dequeue_job now worker_id jobs).0 ≡ some j
    → find job_key j.id (dequeue_job now worker_id jobs).1 ≡ some j
unfolding dequeue_job
dequeue_job-found now worker_id j jobs h = elim (Option-cases (oldest is_pending jobs)) [
  | inl e ↦ ground arith
  | inr (job, e) ↦ ground (arith, claim-found now worker_id job j jobs)
]

abbrev pub settled_statuses : List JobStatus
settled_statuses = JobStatus.done ∷ JobStatus.failed ∷ JobStatus.skipped ∷ []

-- The job is in a final status.
abbrev pub IsSettled : String → Jobs → Type 0
IsSettled job_id jobs =
    (row : Job) × (find job_key job_id jobs ≡ some row)
    × (contains settled_statuses row.status ≡ true)

mark_terminal-IsSettled :
    (now : ℕ) (j : Job) (status : JobStatus) (message : Option String) (jobs : Jobs)
    → find job_key j.id jobs ≡ some j
    → contains settled_statuses status ≡ true
    → IsSettled j.id (mark_terminal now j.id status message jobs)
unfolding mark_terminal
mark_terminal-IsSettled now j status message jobs found final = (
  finish now status message j,
  find-update job_key (λ i. i.id == j.id) (finish now status message) (λ i. refl) j.id jobs
      ∙ ap (updated (λ i. i.id == j.id) (finish now status message)) found
      ∙ ground (arith, ==-refl j.id),
  final,
)

module _ {E G P C : Type 0} (stages : Stages E G P C) (settings : WorkerSettings) where
  -- The job is settled, or its last mark was refused and it is as it was taken.
  abbrev pub IsHandled : Job → Jobs → Type 0
  IsHandled j jobs =
      IsSettled j.id jobs
      ⊎ ((settings.takes_failure_mark ≡ false) × (find job_key j.id jobs ≡ some j))

  fail_job-IsHandled :
      (j : Job) (e : Raised) (jobs : Jobs)
      → find job_key j.id jobs ≡ some j
      → IsHandled j (fail_job stages settings j e jobs)
  unfolding mark_job_failed
  fail_job-IsHandled j e jobs found =
      if_either (IsHandled j) settings.takes_failure_mark _ _
        (λ _. inl (
          mark_terminal-IsSettled (settings.clock 11) j JobStatus.failed
            (some (settings.describe e)) jobs found (ground arith)))
        (λ refused. inr (refused, found))

  mark_or_fail-IsHandled :
      (j : Job) (mark : Jobs → Jobs) (jobs : Jobs)
      → find job_key j.id jobs ≡ some j
      → IsSettled j.id (mark jobs)
      → IsHandled j (mark_or_fail stages settings j mark jobs)
  mark_or_fail-IsHandled j mark jobs found settled =
      if_either (IsHandled j) settings.takes_mark _ _ (λ _. inl settled)
        (λ _. fail_job-IsHandled j other_error jobs found)

  finish_run-IsHandled :
      (j : Job) (jobs : Jobs) (r : Result Raised TrustResult × Sessions)
      → find job_key j.id jobs ≡ some j
      → IsHandled j (finish_run stages settings j jobs r).jobs
  unfolding mark_job_done
  finish_run-IsHandled j jobs (ok trust, db) found =
      mark_or_fail-IsHandled j (mark_job_done (settings.clock 11) j.id) jobs found
        (mark_terminal-IsSettled (settings.clock 11) j done none jobs found (ground arith))
  finish_run-IsHandled j jobs (err e, db) found = fail_job-IsHandled j e jobs found

  after_lease-IsHandled :
      (j : Job) (jobs : Jobs) (r : Result TransitionError Bool × Sessions)
      → find job_key j.id jobs ≡ some j
      → IsHandled j (after_lease stages settings j jobs r).jobs
  unfolding mark_job_skipped
  after_lease-IsHandled j jobs (ok true, db) found =
      finish_run-IsHandled j jobs
        (run_worker_pipeline stages (λ n. settings.clock (n + 4)) j.session_id settings.worker_id
          db)
        found
  after_lease-IsHandled j jobs (ok false, db) found =
      mark_or_fail-IsHandled j
        (mark_job_skipped (settings.clock 11) j.id "Session lease could not be acquired") jobs found
        (mark_terminal-IsSettled (settings.clock 11) j skipped
          (some "Session lease could not be acquired") jobs found (ground arith))
  after_lease-IsHandled j jobs (err e, db) found = fail_job-IsHandled j other_error jobs found

  work_on-IsHandled :
      (db : Sessions) (r : Option Job × Jobs) (j : Job)
      → ((i : Job) → r.0 ≡ some i → find job_key i.id r.1 ≡ some i)
      → (work_on stages settings db r).0 ≡ some j
      → IsHandled j (work_on stages settings db r).1.jobs
  work_on-IsHandled db (none, jobs) j found h = absurd (none-ne-some j h)
  work_on-IsHandled db (some i, jobs) j found h =
      subst (λ (k : Job). IsHandled k (work_on stages settings db (some i, jobs)).1.jobs)
        (some-injective i j h)
        (after_lease-IsHandled i jobs
          (acquire_lease (settings.clock 3) i.session_id settings.worker_id db) (found i refl))

  -- Whatever the pipeline's stages do, a pass of the worker's loop that takes a job leaves it done,
  -- failed or skipped, unless the database refuses the mark that the handler of exceptions makes;
  -- the job's row is then as the pass took it.
  pub run_worker_once-IsSettled :
      (t : WorkerTables) (j : Job)
      → (run_worker_once stages settings t).0 ≡ some j
      → IsHandled j (run_worker_once stages settings t).1.jobs
  unfolding run_worker_once
  run_worker_once-IsSettled t j h =
      let u = mark_stale_work stages settings t in
      work_on-IsHandled u.sessions (dequeue_job (settings.clock 2) settings.worker_id u.jobs) j
        (λ i. dequeue_job-found (settings.clock 2) settings.worker_id i u.jobs) h
