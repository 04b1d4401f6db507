-- ===== src/Workflow/Jobs/Claims.antt =====
-- What a worker gets from the queue.
use verification_engine.Base.{
  ==-refl, Bool, HasUniqueKeys, Option, Option-cases, String, [], any, any-eq-matching, arith,
  contains, count, false, find, find-update, first, inl, inr, keys, nat_eq, none, option_eq, refl,
  some, string_eq, true, update, ℕ, ◌∷◌, ◌≡◌, ◌≤◌, ◌⊎◌,
}
use verification_engine.Workflow.Jobs.{
  Job, Jobs, begin, claim, dequeue_job, is_pending, job_key, job_status_eq, oldest, pending,
  still_pending,
}
use verification_engine.Workflow.Jobs.Active.{oldest-none}

-- No job that `p` selects was created before `j`.
abbrev pub IsOldest : (Job → Bool) → Job → Jobs → Type 0
IsOldest p j [] = Unit
IsOldest p j (k ∷ jobs) = (p k ≡ true → j.created_at ≤ k.created_at) × IsOldest p j jobs

IsOldest-mono :
    (p : Job → Bool) (j k : Job) (jobs : Jobs)
    → j.created_at ≤ k.created_at
    → IsOldest p k jobs
    → IsOldest p j jobs
IsOldest-mono p j k [] le h = tt
IsOldest-mono p j k (x ∷ jobs) le h = (λ e. omega (arith, h.0 e), IsOldest-mono p j k jobs le h.1)

IsOldest-none : (p : Job → Bool) (j : Job) (jobs : Jobs) → oldest p jobs ≡ none → IsOldest p j jobs
unfolding oldest
IsOldest-none p j [] h = tt
IsOldest-none p j (k ∷ jobs) h = (λ e. ground arith, IsOldest-none p j jobs (ground arith))

oldest-IsOldest :
    (p : Job → Bool) (jobs : Jobs) (j : Job)
    → oldest p jobs ≡ some j
    → (p j ≡ true) × IsOldest p j jobs
unfolding oldest
oldest-IsOldest p [] j h = ground arith
oldest-IsOldest p (k ∷ jobs) j h = elim (Option-cases (oldest p jobs)) [
  | inl e ↦ (ground arith, (λ q. ground arith, IsOldest-none p j jobs e))
  | inr (m, e) ↦
      let (pm, least) = oldest-IsOldest p jobs m e in
      (ground arith, (λ q. ground arith, IsOldest-mono p j m jobs (ground arith) least))
]

contains-keys :
    (k : String) (jobs : Jobs) (j : Job)
    → find job_key k jobs ≡ some j
    → contains (keys job_key jobs) k ≡ true
contains-keys k [] j h = ground arith
contains-keys k (x ∷ jobs) j h = ground (arith, contains-keys k jobs j)

find-oldest :
    (p : Job → Bool) (jobs : Jobs) (j : Job)
    → HasUniqueKeys job_key jobs
    → oldest p jobs ≡ some j
    → find job_key j.id jobs ≡ some j
unfolding oldest
find-oldest p [] j u h = ground arith
find-oldest p (k ∷ jobs) j u h = elim (Option-cases (oldest p jobs)) [
  | inl e ↦ ground (arith, ==-refl k.id)
  | inr (m, e) ↦ ground (
    arith,
    ==-refl k.id,
    find-oldest p jobs m u.1 e,
    contains-keys m.id jobs m (find-oldest p jobs m u.1 e),
  )
]

still_pending-id : (job j : Job) → still_pending job j ≡ true → j.id ≡ job.id
still_pending-id job j h = ground arith

begin-id : (now : ℕ) (w : String) (at : Option ℕ) (j : Job) → (begin now w at j).id ≡ j.id
begin-id now w at j = refl

claim-eq :
    (now : ℕ) (worker_id : String) (jobs : Jobs) (job : Job)
    → HasUniqueKeys job_key jobs
    → find job_key job.id jobs ≡ some job
    → is_pending job ≡ true
    → claim now worker_id job jobs ≡ (
      some (begin now worker_id job.started_at job),
      update (still_pending job) (begin now worker_id job.started_at) jobs,
    )
unfolding claim
claim-eq now worker_id jobs job u found waits = ground (
  arith,
  ==-refl job.id,
  any-eq-matching job_key job.id (still_pending job) (still_pending-id job) jobs u,
  find-update job_key (still_pending job) (begin now worker_id job.started_at)
      (begin-id now worker_id job.started_at) job.id jobs,
)

-- With unique ids, `dequeue_job` returns nothing exactly if no job is pending. Otherwise it hands
-- out a pending job than which no pending job is older, as the worker's, counted as one more
-- attempt, with its first start kept, and that is the job's row from then on.
pub dequeue_job-exact :
    (now : ℕ) (worker_id : String) (jobs : Jobs)
    → HasUniqueKeys job_key jobs
    → (dequeue_job now worker_id jobs ≡ (none, jobs)) × (count is_pending jobs ≡ 0)
      ⊎ ((job : Job) × (find job_key job.id jobs ≡ some job)
          × (job.status ≡ pending)
          × IsOldest is_pending job jobs
          × ((dequeue_job now worker_id jobs).0 ≡ some (begin now worker_id job.started_at job))
          × (find job_key job.id (dequeue_job now worker_id jobs).1
              ≡ some (begin now worker_id job.started_at job)))
unfolding dequeue_job
dequeue_job-exact now worker_id jobs u = elim (Option-cases (oldest is_pending jobs)) [
  | inl e ↦ inl (ground arith, oldest-none is_pending jobs e)
  | inr (job, e) ↦
      let (waits, least) = oldest-IsOldest is_pending jobs job e in
      let found = find-oldest is_pending jobs job u e in
      let claimed = claim-eq now worker_id jobs job u found waits in
      inr (
        job,
        found,
        ground arith,
        least,
        ground (arith, claimed),
        ground (
          arith,
          claimed,
          ==-refl job.id,
          find-update job_key (still_pending job) (begin now worker_id job.started_at)
              (begin-id now worker_id job.started_at) job.id jobs,
        ),
      )
]

claimed_away :
    (now : ℕ) (worker_id : String) (at : Option ℕ) (job : Job) (jobs : Jobs)
    → any (still_pending job) (update (still_pending job) (begin now worker_id at) jobs) ≡ false
claimed_away now worker_id at job [] = refl
claimed_away now worker_id at job (j ∷ jobs) =
    ground (arith, claimed_away now worker_id at job jobs)

-- Of two workers that both read the same pending job, the second one's conditional update finds
-- nothing and changes nothing.
pub claim_once :
    (now now' : ℕ) (first second : String) (job : Job) (jobs : Jobs)
    → claim now' second job (claim now first job jobs).1 ≡ (none, (claim now first job jobs).1)
unfolding claim
claim_once now now' first second job jobs =
    ground (arith, claimed_away now first job.started_at job jobs)
