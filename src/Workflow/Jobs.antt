-- ===== src/Workflow/Jobs.antt =====
-- workflow/job_queue.py and orchestrator/orchestrator.py: the queue of verification jobs.
-- Times are microseconds. Each function runs as one step; where another statement can come between
-- its own, these are functions too: `existing_job` and `insert_job`, and `claim`.
pub mod Active
pub mod Claims
use verification_engine.Base.{
  Bool, Eq, List, Option, String, [], any, bool_eq, contains, count, false, find, if◌then◌else◌,
  ltb, nat_eq, none, option_eq, some, string_eq, update, ℕ, ◌&&◌, ◌++◌, ◌+◌, ◌==◌, ◌∷◌,
}

pub data JobStatus : Type 0 where
  pending processing done failed skipped : JobStatus

JobStatus-discrete : Discrete JobStatus
JobStatus-discrete = hlevel

instance unfoldable pub job_status_eq : Eq JobStatus
unfolding JobStatus-discrete
job_status_eq = record { dec = JobStatus-discrete }

-- ACTIVE_JOB_STATUSES
abbrev pub active_job_statuses : List JobStatus
active_job_statuses = pending ∷ processing ∷ []

-- VerificationJob
pub record Job : Type 0 where
  pub id : String
  pub session_id : String
  pub status : JobStatus
  pub worker_id : Option String
  pub attempts : ℕ
  pub error_message : Option String
  pub created_at : ℕ
  pub updated_at : ℕ
  pub started_at : Option ℕ
  pub completed_at : Option ℕ
  pub heartbeat_at : Option ℕ

abbrev pub Jobs : Type 0
Jobs = List Job

abbrev pub job_key : Job → String
job_key j = j.id

abbrev earlier : Job → Option Job → Job
earlier j none = j
earlier j (some k) = if ltb k.created_at j.created_at then k else j

-- `.filter(p).order_by(created_at.asc()).first()`; among equal times the first row of the table.
unfoldable pub oldest : (Job → Bool) → Jobs → Option Job
oldest p [] = none
oldest p (j ∷ jobs) = let rest = oldest p jobs in if p j then some (earlier j rest) else rest

abbrev pub is_active_for : String → Job → Bool
is_active_for session_id j = j.session_id == session_id && contains active_job_statuses j.status

abbrev pub new_job : ℕ → String → String → Job
new_job now job_id session_id = record {
  id = job_id;
  session_id = session_id;
  status = pending;
  worker_id = none;
  attempts = 0;
  error_message = none;
  created_at = now;
  updated_at = now;
  started_at = none;
  completed_at = none;
  heartbeat_at = none;
}

-- The SELECT of `enqueue_job`: the session's active job, if there is one.
unfoldable pub existing_job : String → Jobs → Option Job
unfolding oldest
existing_job session_id jobs = oldest (is_active_for session_id) jobs

-- The INSERT of `enqueue_job` and its commit. `job_id` is the fresh uuid4 of the column's default.
-- Nothing in the database keeps a second active job out.
unfoldable pub insert_job : ℕ → String → String → Jobs → Jobs
insert_job now job_id session_id jobs = jobs ++ new_job now job_id session_id ∷ []

-- `enqueue_job` where no other statement comes between the two.
unfoldable pub enqueue_job : ℕ → String → String → Jobs → Job × Jobs
unfolding existing_job insert_job
enqueue_job now job_id session_id jobs = elim (existing_job session_id jobs) [
  | some existing ↦ (existing, jobs)
  | none ↦ (new_job now job_id session_id, insert_job now job_id session_id jobs)
]

abbrev pub is_pending : Job → Bool
is_pending j = j.status == pending

-- `x or y` for a time
abbrev pub or_now : Option ℕ → ℕ → Option ℕ
or_now none now = some now
or_now (some t) now = some t

abbrev pub begin : ℕ → String → Option ℕ → Job → Job
begin now worker_id started_at j = record j {
  status = processing;
  worker_id = some worker_id;
  attempts = j.attempts + 1;
  started_at = or_now started_at now;
  updated_at = now;
  heartbeat_at = some now;
}

abbrev pub still_pending : Job → Job → Bool
still_pending job j = j.id == job.id && j.status == pending

-- The conditional UPDATE of `dequeue_job` for the job that it read, and the refreshed job.
unfoldable pub claim : ℕ → String → Job → Jobs → Option Job × Jobs
claim now worker_id job jobs =
    if any (still_pending job) jobs
    then (
      find job_key job.id (update (still_pending job) (begin now worker_id job.started_at) jobs),
      update (still_pending job) (begin now worker_id job.started_at) jobs,
    )
    else (none, jobs)

unfoldable pub dequeue_job : ℕ → String → Jobs → Option Job × Jobs
unfolding claim oldest
dequeue_job now worker_id jobs = elim (oldest is_pending jobs) [
  | none ↦ (none, jobs)
  | some job ↦ claim now worker_id job jobs
]

abbrev pub finish : ℕ → JobStatus → Option String → Job → Job
finish now status error_message j = record j {
  status = status;
  error_message = error_message;
  completed_at = some now;
  updated_at = now;
  heartbeat_at = none;
}

-- `_mark_terminal`
unfoldable pub mark_terminal : ℕ → String → JobStatus → Option String → Jobs → Jobs
mark_terminal now job_id status error_message jobs =
    update (λ j. j.id == job_id) (finish now status error_message) jobs

unfoldable pub mark_job_done : ℕ → String → Jobs → Jobs
unfolding mark_terminal
mark_job_done now job_id jobs = mark_terminal now job_id done none jobs

unfoldable pub mark_job_failed : ℕ → String → String → Jobs → Jobs
unfolding mark_terminal
mark_job_failed now job_id error_message jobs =
    mark_terminal now job_id failed (some error_message) jobs

unfoldable pub mark_job_skipped : ℕ → String → String → Jobs → Jobs
unfolding mark_terminal
mark_job_skipped now job_id error_message jobs =
    mark_terminal now job_id skipped (some error_message) jobs

abbrev pub run_by : String → String → Job → Bool
run_by job_id worker_id j =
    j.id == job_id && j.worker_id == some worker_id && j.status == processing

abbrev pub job_beat : ℕ → Job → Job
job_beat now j = record j { heartbeat_at = some now; updated_at = now }

unfoldable pub update_job_heartbeat : ℕ → String → String → Jobs → Bool × Jobs
update_job_heartbeat now job_id worker_id jobs =
    (any (run_by job_id worker_id) jobs, update (run_by job_id worker_id) (job_beat now) jobs)

-- `heartbeat_at IS NOT NULL AND heartbeat_at < now - timeout`, by an addition
abbrev pub is_late : ℕ → ℕ → Option ℕ → Bool
is_late now timeout none = false
is_late now timeout (some t) = ltb (t + timeout) now

abbrev pub is_stale : ℕ → ℕ → Job → Bool
is_stale now timeout j = j.status == processing && is_late now timeout j.heartbeat_at

abbrev pub expire : ℕ → Job → Job
expire now j = record j {
  status = failed;
  error_message = some "Worker heartbeat expired";
  completed_at = some now;
  updated_at = now;
}

unfoldable pub mark_stale_processing_jobs_failed : ℕ → ℕ → Jobs → ℕ × Jobs
mark_stale_processing_jobs_failed now timeout jobs =
    (count (is_stale now timeout) jobs, update (is_stale now timeout) (expire now) jobs)

-- What `trigger_processing` returns. `insert` says whether the database took the statements; if it
-- did not, the transaction is rolled back.
unfoldable pub trigger_processing : Bool → ℕ → String → String → Jobs → String × Jobs
unfolding enqueue_job
trigger_processing insert now job_id session_id jobs =
    if insert then ("STARTED", (enqueue_job now job_id session_id jobs).1) else ("FAILED", jobs)
