-- ===== src/Workflow/Issuing.antt =====
-- workflow/service.py, _build_completion_values: after the verdict the worker issues the receipt of
-- its run over the audit tables. The uuid, the nonce and the clock's times are arguments; the read
-- of the file and the hash are the library's.
pub mod Issued
use verification_engine.Base.{
  Bool, Option, Result, String, bool_eq, err, if◌then◌else◌, nat_eq, none, ok, option_eq, some,
  string_eq, truthy, ℕ, ◌&&◌, ◌<>◌,
}
use verification_engine.Json.{Fields}
use verification_engine.Workflow.Sessions.{Completion, Sessions, find_session, key}
use verification_engine.Workflow.Pipeline.{Raised, workflow_error}
use verification_engine.Audit.Receipts.{or_raise}
use verification_engine.Audit.Bundles.{
  AuditTables, Formats, IssuedRow, StoreError, generate_receipt, store_audit_bundle,
}

-- `file_path.exists()`, the file's bytes where they can be read, the SHA-256 digest, and the HMAC's
-- hex digest under the secret key. Bytes are texts here.
pub record Documents : Type 0 where
  pub exists : String → Bool
  pub read_bytes : String → Option String
  pub sha256 : String → String
  pub hmac_hex : String → String

-- `generate_commitment` of audit/hmac_utils.py
unfoldable pub generate_commitment : Documents → (document_bytes nonce scope_tag : String) → String
generate_commitment documents document_bytes nonce scope_tag =
    documents.hmac_hex (scope_tag <> documents.sha256 document_bytes <> nonce)

abbrev pub existing_path : Documents → Option String → Option String
existing_path documents none = none
existing_path documents (some path) =
    if truthy path && documents.exists path then some path else none

-- The path of the session's document, or none where it is missing.
unfoldable pub document_path : Documents → String → Sessions → Option String
document_path documents session_id db = elim (find_session session_id db) [
  | none ↦ none
  | some s ↦ existing_path documents s.file_path
]

abbrev pub document_missing : Raised
document_missing = workflow_error "document_missing" none

abbrev pub audit_store_failure : Raised
audit_store_failure = workflow_error "audit_store_failure" none

abbrev pub settle_store :
    {F : Type 0}
    → Completion
    → Result StoreError (IssuedRow F) × AuditTables F
    → Result Raised Completion × AuditTables F
settle_store completion (ok row, tables) = (ok completion, tables)
settle_store completion (err e, tables) = (err audit_store_failure, tables)

module _ {F : Type 0} (formats : Formats F) (documents : Documents) (issued_at verified_at : ℕ)
    (uuid nonce session_id worker_id : String) (trust : Fields F) where
  -- `receipt["audit_event_id"]` is the uuid.
  abbrev pub completion_of : String → Completion
  completion_of commitment = record { commitment = commitment; receipt_id = uuid; at = verified_at }

  unfoldable pub issue : String → AuditTables F → Result Raised Completion × AuditTables F
  unfolding generate_receipt store_audit_bundle
  issue commitment tables =
      or_raise (generate_receipt formats issued_at uuid session_id worker_id commitment "v1" trust)
        (λ key. (err audit_store_failure, tables))
        λ receipt.
          settle_store (completion_of commitment) (store_audit_bundle formats receipt nonce tables)

  -- The body of the `try`, for the path of the document.
  unfoldable pub issue_for : String → AuditTables F → Result Raised Completion × AuditTables F
  unfolding issue
  issue_for path tables = elim (documents.read_bytes path) [
    | none ↦ (err audit_store_failure, tables)
    | some content ↦ issue (generate_commitment documents content nonce "secuura-session") tables
  ]

  -- `_build_completion_values`
  unfoldable pub build_completion_values :
      Sessions → AuditTables F → Result Raised Completion × AuditTables F
  unfolding issue_for document_path
  build_completion_values db tables = elim (document_path documents session_id db) [
    | none ↦ (err document_missing, tables)
    | some path ↦ issue_for path tables
  ]
