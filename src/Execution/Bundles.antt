-- ===== src/Execution/Bundles.antt =====
-- verifier_execution/executor.py, VerificationTaskExecutor: the plan, the bundle of each credential
-- and the summary.
pub mod Verdict
use verification_engine.Base.{
  Bool, Floats, List, Option, String, [], bool_eq, count, dedupe, if◌then◌else◌, length, ltb,
  nat_eq, none, option_eq, or_zero, select, some, string_eq, truthy, ℕ, ◌++◌, ◌==◌, ◌∷◌,
}
use verification_engine.Trust.Findings.{sort_texts}
use verification_engine.Execution.{CheckResult, Credential, Task}
use verification_engine.Execution.Candidates.{Registries, execute_task}

-- `AUDIT_PRIORITY.get(status, 0)`
unfoldable pub audit_priority : String → ℕ
audit_priority status =
    if status == "MISMATCH"
    then 60
    else if status == "VERIFIED"
    then 50
    else if status == "PARTIAL"
    then 40
    else if status == "UNVERIFIED"
    then 30
    else if status == "MANUAL_REVIEW"
    then 20
    else if status == "NOT_APPLICABLE"
    then 10
    else 0

abbrev pub succeeded : String → ℕ
succeeded task_status = if task_status == "SUCCEEDED" then 1 else 0

-- CredentialVerificationBundle
pub record Bundle (F : Type 0) : Type 0 where
  pub credential_id : String
  pub label : String
  pub category : String
  pub selected_task_ids : List String
  pub result_count : ℕ
  pub final_audit_status : String
  pub final_outcome_color : String
  pub explanation : String
  pub reason_codes : List String
  pub best_result : Option (CheckResult F)
  pub all_results : List (CheckResult F)

-- SessionVerificationExecutionSummary, its counts
pub record ExecutionSummary : Type 0 where
  pub total_tasks : ℕ
  pub succeeded_tasks : ℕ
  pub partial_tasks : ℕ
  pub failed_tasks : ℕ
  pub manual_review_tasks : ℕ
  pub skipped_tasks : ℕ
  pub verifier_keys_used : List String

abbrev task_ids : String → List Task → List String
task_ids credential_id [] = []
task_ids credential_id (t ∷ tasks) =
    let rest = task_ids credential_id tasks in
    if t.credential_id == credential_id then t.task_id ∷ rest else rest

module _ {F : Type 0} ⦃ops : Floats F⦄ where
  -- `key(r) < key(q)` for the key of `_build_bundles`
  unfoldable pub rates_below : CheckResult F → CheckResult F → Bool
  rates_below r q =
      if audit_priority r.audit_status == audit_priority q.audit_status
      then if succeeded r.task_status == succeeded q.task_status
        then ops.lt (or_zero r.confidence) (or_zero q.confidence)
        else ltb (succeeded r.task_status) (succeeded q.task_status)
      else ltb (audit_priority r.audit_status) (audit_priority q.audit_status)

  -- `max(results, key=…)` keeps the first of equals.
  unfoldable pub top_from : CheckResult F → List (CheckResult F) → CheckResult F
  top_from best [] = best
  top_from best (r ∷ rest) = top_from (if rates_below best r then r else best) rest

  abbrev pub all_codes : List (CheckResult F) → List String
  all_codes [] = []
  all_codes (r ∷ results) = select truthy r.reason_codes ++ all_codes results

  abbrev pub is_about : String → CheckResult F → Bool
  is_about credential_id r = r.credential_id == credential_id

  -- One pass of the loop of `_build_bundles`, with the results of the credential
  unfoldable pub bundle_for : Credential F → List String → List (CheckResult F) → Bundle F
  bundle_for c selected [] = record {
    credential_id = c.credential_id;
    label = c.label;
    category = c.category;
    selected_task_ids = selected;
    result_count = 0;
    final_audit_status = if c.requires_verification then "UNVERIFIED" else "NOT_APPLICABLE";
    final_outcome_color = if c.requires_verification then "amber" else "neutral";
    explanation =
        if c.requires_verification
        then "A verification result was not produced for this credential."
        else "No verification task was selected for this credential.";
    reason_codes =
        (if c.requires_verification then "NO_TASK_RESULT" else "VERIFICATION_NOT_REQUIRED") ∷ [];
    best_result = none;
    all_results = [];
  }
  bundle_for c selected (r ∷ rest) =
      let best = top_from r rest in
      record {
        credential_id = c.credential_id;
        label = c.label;
        category = c.category;
        selected_task_ids = selected;
        result_count = length (r ∷ rest);
        final_audit_status = best.audit_status;
        final_outcome_color = best.outcome_color;
        explanation = best.explanation;
        reason_codes = dedupe (all_codes (r ∷ rest));
        best_result = some best;
        all_results = r ∷ rest;
      }

  -- `_build_bundles`
  unfoldable pub build_bundles :
      List (Credential F) → List Task → List (CheckResult F) → List (Bundle F)
  build_bundles [] tasks results = []
  build_bundles (c ∷ credentials) tasks results =
      bundle_for c (task_ids c.credential_id tasks) (select (is_about c.credential_id) results)
      ∷ build_bundles credentials tasks results

module _ {F : Type 0} where
  abbrev pub has_status : String → CheckResult F → Bool
  has_status status r = r.task_status == status

  abbrev verifier_keys : List (CheckResult F) → List String
  verifier_keys [] = []
  verifier_keys (r ∷ results) =
      let rest = verifier_keys results in
      if truthy r.verifier_key then r.verifier_key ∷ rest else rest

  -- `_build_summary`, its counts and keys
  unfoldable pub build_summary : List (CheckResult F) → ExecutionSummary
  build_summary results = record {
    total_tasks = length results;
    succeeded_tasks = count (has_status "SUCCEEDED") results;
    partial_tasks = count (has_status "PARTIAL") results;
    failed_tasks = count (has_status "FAILED") results;
    manual_review_tasks = count (has_status "MANUAL_REVIEW") results;
    skipped_tasks = count (has_status "SKIPPED") results;
    verifier_keys_used = sort_texts (dedupe (verifier_keys results));
  }

  -- `{c.credential_id: c for c in credentials}.get(id)`: the last credential of the id
  unfoldable pub credential_of : String → List (Credential F) → Option (Credential F)
  credential_of credential_id [] = none
  credential_of credential_id (c ∷ credentials) =
      or_this c (credential_of credential_id credentials)
    where
      or_this : Credential F → Option (Credential F) → Option (Credential F)
      or_this c (some later) = some later
      or_this c none = if c.credential_id == credential_id then some c else none

  -- The loop of `execute_plan`, with the start and the duration of each task
  unfoldable pub run_tasks :
      Registries F → (String → ℕ × ℕ) → List (Credential F) → List Task → List (CheckResult F)
  run_tasks registries times credentials [] = []
  run_tasks registries times credentials (t ∷ tasks) =
      execute_task registries (times t.task_id) t (credential_of t.credential_id credentials)
      ∷ run_tasks registries times credentials tasks

-- What `execute_plan` returns
pub record PlanExecution (F : Type 0) : Type 0 where
  pub task_results : List (CheckResult F)
  pub credential_bundles : List (Bundle F)
  pub execution_summary : ExecutionSummary

module _ {F : Type 0} ⦃ops : Floats F⦄ where
  -- `execute_plan`
  unfoldable pub execute_plan :
      Registries F → (String → ℕ × ℕ) → List (Credential F) → List Task → PlanExecution F
  execute_plan registries times credentials tasks =
      let results = run_tasks registries times credentials tasks in
      record {
        task_results = results;
        credential_bundles = build_bundles credentials tasks results;
        execution_summary = build_summary results;
      }
