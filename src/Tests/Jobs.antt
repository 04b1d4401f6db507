-- ===== src/Tests/Jobs.antt =====
-- Concrete jobs: backend/app/workflow/job_queue.py.
use verification_engine.Base.{
  HasUniqueKeys, [], arith, bool_eq, count, find, nat_eq, none, option_eq, refl, some, string_eq,
  ◌+◌, ◌∷◌, ◌≡◌, ◌≤◌, ◌⊎◌,
}
use verification_engine.Workflow.Jobs.{
  Job, JobStatus, Jobs, begin, claim, dequeue_job, enqueue_job, existing_job, insert_job,
  is_pending, job_key, job_status_eq, new_job, oldest,
}
use verification_engine.Workflow.Jobs.Active as Active
use verification_engine.Workflow.Jobs.Active.{
  JobSteps, active_jobs, enqueue, insert_late, late_inserts, later, one_active_job_per_session,
  start,
}
use verification_engine.Workflow.Jobs.Claims.{IsOldest, claim_once, dequeue_job-exact}

abbrev queued_job : Job
queued_job = new_job 3 "j1" "s1"

abbrev job_table : Jobs
job_table = queued_job ∷ new_job 4 "j2" "s2" ∷ []

job_table-HasUniqueKeys : HasUniqueKeys job_key job_table
unfolding string_eq
job_table-HasUniqueKeys = (refl, (refl, tt))

abbrev overlapping :
    JobSteps job_table (insert_job 9 "j4" "s3" (enqueue_job 8 "j3" "s3" job_table).1)
overlapping =
    Active.later (Active.later Active.start (Active.enqueue 8 "j3" "s3" job_table))
      (Active.insert_late 9 "j4" "s3" (enqueue_job 8 "j3" "s3" job_table).1)

one_active_job_per_session_example :
    active_jobs "s3" (insert_job 9 "j4" "s3" (enqueue_job 8 "j3" "s3" job_table).1)
    ≤ 1 + late_inserts "s3" overlapping
unfolding string_eq job_status_eq
one_active_job_per_session_example = one_active_job_per_session "s3" overlapping (omega arith)

-- Two enqueues that both saw no active job leave two.
both_inserted :
    (existing_job "s3" job_table ≡ none)
    × (active_jobs "s3" (insert_job 9 "j4" "s3" (insert_job 8 "j3" "s3" job_table)) ≡ 2)
unfolding existing_job oldest insert_job string_eq job_status_eq
both_inserted = (refl, refl)

dequeue_job-exact_example :
    (dequeue_job 9 "w1" job_table ≡ (none, job_table)) × (count is_pending job_table ≡ 0)
    ⊎ ((job : Job) × (find job_key job.id job_table ≡ some job)
        × (job.status ≡ JobStatus.pending)
        × IsOldest is_pending job job_table
        × ((dequeue_job 9 "w1" job_table).0 ≡ some (begin 9 "w1" job.started_at job))
        × (find job_key job.id (dequeue_job 9 "w1" job_table).1
            ≡ some (begin 9 "w1" job.started_at job)))
dequeue_job-exact_example = dequeue_job-exact 9 "w1" job_table job_table-HasUniqueKeys

claim_once_example :
    claim 10 "w2" queued_job (claim 9 "w1" queued_job job_table).1
    ≡ (none, (claim 9 "w1" queued_job job_table).1)
claim_once_example = claim_once 9 10 "w1" "w2" queued_job job_table
