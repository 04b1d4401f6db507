-- ===== src/Workflow/Worker.antt =====
-- worker/worker.py: one pass of the loop of run_worker, over the tables of sessions and of jobs. The
-- background heartbeat of the job is a statement of its own and not part of the pass.
pub mod Settled
use verification_engine.Base.{
  Bool, Option, Result, String, bool_eq, err, false, if◌then◌else◌, nat_eq, none, ok, option_eq,
  some, string_eq, true, ℕ, ◌+◌,
}
use verification_engine.Workflow.States.{TransitionError, state_eq}
use verification_engine.Workflow.Sessions.{Sessions, acquire_lease, mark_stale_sessions}
use verification_engine.Workflow.Jobs.{
  Job, Jobs, dequeue_job, job_status_eq, mark_job_done, mark_job_failed, mark_job_skipped,
  mark_stale_processing_jobs_failed,
}
use verification_engine.Workflow.Pipeline.{
  Raised, Stages, TrustResult, other_error, run_worker_pipeline,
}

pub record WorkerTables : Type 0 where
  pub sessions : Sessions
  pub jobs : Jobs

-- The settings, in microseconds, the clock, `str(exc)`, and whether the database takes the statement
-- that marks the job, the first time and in the handler of exceptions: after a flush that failed
-- without a rollback it takes none.
pub record WorkerSettings : Type 0 where
  pub worker_id : String
  pub stale_session_timeout : ℕ
  pub stale_job_timeout : ℕ
  pub clock : ℕ → ℕ
  pub describe : Raised → String
  pub takes_mark : Bool
  pub takes_failure_mark : Bool

module _ {E G P C : Type 0} (stages : Stages E G P C) (settings : WorkerSettings) where
  -- `_mark_stale_work`
  unfoldable pub mark_stale_work : WorkerTables → WorkerTables
  mark_stale_work t = record {
    sessions = (mark_stale_sessions (settings.clock 0) settings.stale_session_timeout t.sessions).1;
    jobs =
        (mark_stale_processing_jobs_failed (settings.clock 1) settings.stale_job_timeout t.jobs).1;
  }

  -- The handler of exceptions: a failure to mark the job is only logged.
  abbrev pub fail_job : Job → Raised → Jobs → Jobs
  fail_job job e jobs =
      if settings.takes_failure_mark
      then mark_job_failed (settings.clock 11) job.id (settings.describe e) jobs
      else jobs

  -- The job's mark, or the handler where it raises
  abbrev pub mark_or_fail : Job → (Jobs → Jobs) → Jobs → Jobs
  mark_or_fail job mark jobs =
      if settings.takes_mark then mark jobs else fail_job job other_error jobs

  abbrev pub finish_run : Job → Jobs → Result Raised TrustResult × Sessions → WorkerTables
  finish_run job jobs (ok trust, db) = record {
    sessions = db;
    jobs = mark_or_fail job (mark_job_done (settings.clock 11) job.id) jobs;
  }
  finish_run job jobs (err e, db) = record { sessions = db; jobs = fail_job job e jobs }

  -- The pass past `acquire_lease`
  abbrev pub after_lease : Job → Jobs → Result TransitionError Bool × Sessions → WorkerTables
  after_lease job jobs (ok true, db) = finish_run job jobs (
      run_worker_pipeline stages (λ n. settings.clock (n + 4)) job.session_id settings.worker_id db)
  after_lease job jobs (ok false, db) = record {
    sessions = db;
    jobs =
        mark_or_fail job
          (mark_job_skipped (settings.clock 11) job.id "Session lease could not be acquired") jobs;
  }
  after_lease job jobs (err e, db) = record { sessions = db; jobs = fail_job job other_error jobs }

  abbrev pub work_on : Sessions → Option Job × Jobs → Option Job × WorkerTables
  work_on db (none, jobs) = (none, record { sessions = db; jobs = jobs })
  work_on db (some job, jobs) = (
    some job,
    after_lease job jobs (acquire_lease (settings.clock 3) job.session_id settings.worker_id db),
  )

  -- The body of the loop, with the job that it took
  unfoldable pub run_worker_once : WorkerTables → Option Job × WorkerTables
  run_worker_once t =
      let u = mark_stale_work t in
      work_on u.sessions (dequeue_job (settings.clock 2) settings.worker_id u.jobs)
