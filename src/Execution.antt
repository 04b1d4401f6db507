-- ===== src/Execution.antt =====
-- verifier_execution/contracts.py and adapters.py: what a verification task and its result hold.
-- The dicts of a task and of a result are association lists in insertion order; of a task's
-- payload the keys that the executor reads are fields.
pub mod Candidates
pub mod Bundles
use verification_engine.Base.{
  Bool, List, Option, String, [], bool_eq, false, nat_eq, none, option_eq, put_key, some, string_eq,
  true, ℕ, ◌||◌, ◌∷◌,
}

-- The values that the executor puts into a result's summary.
pub data Entry (F : Type 0) : Type 0 where
  text : String → Entry F
  texts : List String → Entry F
  flag : Bool → Entry F
  number : F → Entry F
  missing : Entry F

abbrev pub Summary : Type 0 → Type 0
Summary F = List (String × Entry F)

-- `VerificationTask.input_payload`; for one key a None that is there differs from no key.
pub record Payload : Type 0 where
  pub preferred_provider_key : Option (Option String)
  pub preferred_provider_label : Option String
  pub planned_provider_key : Option String
  pub planned_provider_label : Option String
  pub planned_execution_mode : Option String
  pub planned_is_live_result : Bool
  pub planned_is_mock_result : Bool
  pub planned_is_demo_result : Bool
  pub fallback_reason : Option String

-- VerificationTask
pub record Task : Type 0 where
  pub task_id : String
  pub credential_id : String
  pub verifier_key : String
  pub verifier_label : String
  pub verification_type : String
  pub provider_candidates : List String
  pub selected_provider : Option String
  pub planned_provider_key : Option String
  pub preferred_provider_key : Option String
  pub input_payload : Payload

-- BoundingBox
pub record BoundingBox (F : Type 0) : Type 0 where
  pub x0 : Option F
  pub y0 : Option F
  pub x1 : Option F
  pub y1 : Option F

-- ExtractedCredential
pub record Credential (F : Type 0) : Type 0 where
  pub credential_id : String
  pub label : String
  pub category : String
  pub confidence : Option F
  pub bounding_box : Option (BoundingBox F)
  pub requires_verification : Bool

-- VerificationTaskResult, less the fields that the executor never looks at
pub record CheckResult (F : Type 0) : Type 0 where
  pub task_id : String
  pub credential_id : String
  pub verifier_key : String
  pub verifier_label : String
  pub preferred_provider_key : Option String
  pub preferred_provider_label : Option String
  pub planned_provider_key : Option String
  pub planned_provider_label : Option String
  pub executed_provider_key : Option String
  pub executed_provider_label : Option String
  pub execution_mode : Option String
  pub fallback_reason : Option String
  pub task_status : String
  pub audit_status : String
  pub outcome_color : String
  pub explanation : String
  pub reason_codes : List String
  pub missing_fields : List String
  pub raw_result_summary : Summary F
  pub confidence : Option F
  pub executed_at : Option ℕ
  pub latency_ms : Option ℕ
  pub manual_review_recommended : Bool

abbrev pub joined : {A : Type 0} → Option (Option A) → Option A
joined none = none
joined (some x) = x

abbrev pub text_entry : (F : Type 0) → Option String → Entry F
text_entry F none = missing
text_entry F (some s) = text s

-- `task_execution_truth`
unfoldable pub task_execution_truth : (F : Type 0) → Task → Summary F
task_execution_truth F task =
    ("preferred_provider_key", text_entry F (joined task.input_payload.preferred_provider_key))
    ∷ ("preferred_provider_label", text_entry F task.input_payload.preferred_provider_label)
    ∷ ("planned_provider_key", text_entry F task.input_payload.planned_provider_key)
    ∷ ("planned_provider_label", text_entry F task.input_payload.planned_provider_label)
    ∷ ("planned_execution_mode", text_entry F task.input_payload.planned_execution_mode)
    ∷ ("planned_is_live_result", flag task.input_payload.planned_is_live_result)
    ∷ ("planned_is_mock_result", flag task.input_payload.planned_is_mock_result)
    ∷ ("planned_is_demo_result", flag task.input_payload.planned_is_demo_result)
    ∷ ("fallback_reason", text_entry F task.input_payload.fallback_reason)
    ∷ []

module _ {F : Type 0} where
  abbrev pub given : Option F → Bool
  given none = false
  given (some x) = true

  -- `has_grounding`
  abbrev pub has_grounding : Credential F → Bool
  has_grounding c = elim c.bounding_box [
    | none ↦ false
    | some b ↦ given b.x0 || given b.y0 || given b.x1 || given b.y1
  ]

  abbrev pub number_entry : Option F → Entry F
  number_entry none = missing
  number_entry (some x) = number x

  -- `summarize_result`, with `extra` one pair
  unfoldable pub summarize_result : String → Credential F → Task → String × Entry F → Summary F
  summarize_result execution_mode credential task extra = put_key extra.0 extra.1 (
      ("execution_mode", text execution_mode)
      ∷ ("credential_label", text credential.label)
      ∷ ("verification_type", text task.verification_type)
      ∷ ("document_confidence", number_entry credential.confidence)
      ∷ ("has_grounding", flag (has_grounding credential))
      ∷ task_execution_truth F task)
