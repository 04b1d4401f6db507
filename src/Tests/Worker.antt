-- ===== src/Tests/Worker.antt =====
-- One pass of a worker over one job: backend/app/worker/worker.py.
use verification_engine.Tests.Workflow.{waiting_table}
use verification_engine.Base.{
  [], bool_eq, err, nat_eq, none, option_eq, refl, some, string_eq, true, ◌∷◌, ◌≡◌,
}
use verification_engine.Workflow.States.{state_eq}
use verification_engine.Workflow.Jobs.{
  Job, begin, dequeue_job, job_status_eq, mark_stale_processing_jobs_failed, new_job,
}
use verification_engine.Workflow.Pipeline.{Action, Stages, other_error}
use verification_engine.Workflow.Worker.{
  WorkerSettings, WorkerTables, mark_stale_work, run_worker_once,
}
use verification_engine.Workflow.Worker.Settled.{IsHandled, run_worker_once-IsSettled}

abbrev crash : {A : Type 0} → Action A
crash db = (err other_error, db)

-- Every stage raises.
abbrev crashing_stages : Stages Unit Unit Unit Unit
crashing_stages = record {
  extraction = crash;
  grounding = λ e. crash;
  load_policy = λ g. crash;
  connector_eval = λ g p. crash;
  evaluate = λ g c p. crash;
  completion_values = λ t. crash;
  has_heartbeat = true;
}

abbrev settings : WorkerSettings
settings = record {
  worker_id = "w1";
  stale_session_timeout = 60;
  stale_job_timeout = 300;
  clock = λ n. n;
  describe = λ e. "crash";
  takes_mark = true;
  takes_failure_mark = true;
}

abbrev one_job : WorkerTables
one_job = record { sessions = waiting_table; jobs = new_job 0 "j1" "s1" ∷ [] }

abbrev begun_job : Job
begun_job = begin 2 "w1" none (new_job 0 "j1" "s1")

job_is_taken : (run_worker_once crashing_stages settings one_job).0 ≡ some begun_job
unfolding run_worker_once dequeue_job mark_stale_work mark_stale_processing_jobs_failed
    job_status_eq string_eq
job_is_taken = refl

run_worker_once-IsSettled_example :
    IsHandled crashing_stages settings begun_job
      (run_worker_once crashing_stages settings one_job).1.jobs
run_worker_once-IsSettled_example =
    run_worker_once-IsSettled crashing_stages settings one_job begun_job job_is_taken
