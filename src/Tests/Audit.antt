-- ===== src/Tests/Audit.antt =====
-- Concrete payloads and receipts: backend/app/audit.
use verification_engine.Workflow.Issuing.Issued.{
  IsIssued, build_completion_values-IsIssued, result_keys, row_for,
}
use verification_engine.Workflow.Issuing.{
  Documents, audit_store_failure, build_completion_values, document_missing, document_path,
  generate_commitment, issue, issue_for,
}
use verification_engine.Workflow.Pipeline.{Raised}
use verification_engine.Workflow.Sessions.{Completion, Sessions}
use verification_engine.Audit.Receipts.Summary.{summary_of}
use verification_engine.Audit.Bundles.Stored.{IsStored, store_audit_bundle-IsStored}
use verification_engine.Audit.Bundles.{
  AuditTables, Formats, IssuedRow, build_receipt_hash, flush_error, generate_receipt, is_there,
  issued_row, key_error, missing_key, receipt_fields, required_keys, store_audit_bundle, store_safe,
  takes_rest, takes_row,
}
use verification_engine.Base.{
  All, HasUniqueKeys, Result, String, [], bool_eq, contains, err, false, if◌then◌else◌, keys, lower,
  nat_eq, none, ok, option_eq, refl, some, string_eq, true, ℕ, ◌==◌, ◌↔◌, ◌∷◌, ◌≡◌, ◌⊎◌,
}
use verification_engine.Json.{
  Fields, Json, bytes, dict, end, field, flag, item, list, nil, null, number, text,
}
use verification_engine.Audit.Payloads.{
  assert_audit_safe_payload, audit_unsafe_keys, find_unsafe_key, is_unsafe_key, strip_audit_unsafe,
  strip_fields,
}
use verification_engine.Audit.Payloads.Safe.{assert_audit_safe_payload-ok}
use verification_engine.Audit.Counts.{
  Coerced, FindingCounts, build_finding_counts, coerce_count, counts_from_summary, counts_payload,
  escapes, fields_of, get_field, not_a_count, whole,
}
use verification_engine.Audit.Receipts.{
  Codecs, Ledger, Receipt, Reviewed, receipt_key, upsert_final_review_receipt,
}
use verification_engine.Audit.Receipts.Reviews.{IsReview, upsert_final_review_receipt-IsReview}
use verification_engine.Tests.Workflow.{waiting_row}

-- A response and a note under keys that are written in other ways.
abbrev noted : Json ℕ
noted = dict (
    field "trust_outcome" (text "GREEN") (
      field "Reviewer_Note" (text "call back") (
        field "trace"
          (list (item (dict (field "PROMPT" (text "…") (field "ms" (number 7) end))) nil)) end)))

assert_audit_safe_payload-ok_example :
    (assert_audit_safe_payload noted ≡ ok (strip_audit_unsafe noted))
    × (find_unsafe_key (strip_audit_unsafe noted) ≡ none)
    × ((find_unsafe_key noted ≡ none) ↔ (strip_audit_unsafe noted ≡ noted))
    × (strip_audit_unsafe (strip_audit_unsafe noted) ≡ strip_audit_unsafe noted)
assert_audit_safe_payload-ok_example = assert_audit_safe_payload-ok noted

stripped_note :
    strip_audit_unsafe noted
    ≡ dict (
        field "trust_outcome"
          (text "GREEN")
          (field "trace" (list (item (dict (field "ms" (number 7) end)) nil)) end))
unfolding strip_audit_unsafe is_unsafe_key audit_unsafe_keys string_eq lower
stripped_note = refl

int_of_json : Json ℕ → Coerced
int_of_json null = not_a_count
int_of_json (flag b) = whole (if b then 1 else 0)
int_of_json (number n) = if n == 99 then escapes "OverflowError" else whole n
int_of_json (text s) = not_a_count
int_of_json bytes = not_a_count
int_of_json (list items) = not_a_count
int_of_json (dict fields) = not_a_count

abbrev codecs : Codecs ℕ
codecs = record {
  int_of = int_of_json;
  of_count = λ n. n;
  dumps = λ x. "dumped";
  hmac = λ s. s;
  isoformat = λ t. "2026-01-01";
}

abbrev reviewed_session : Reviewed ℕ
reviewed_session = record {
  session = waiting_row;
  workspace_payload = some (dict (field "summary" (dict (field "green_count" (number 3) end)) end));
  verification_execution_summary_payload = none;
}

abbrev old_receipt : Receipt ℕ
old_receipt = record {
  audit_event_id = "e1";
  session_id = "s1";
  reviewer_ref = "worker";
  document_commitment = "c1";
  trust_outcome = "GREEN";
  reason_codes = [];
  connector_ids = [];
  issued_at = 1;
  key_version = "v1";
  receipt_hash = "h";
  signature = none;
  hash_chain_prev = none;
  reviewer_decision = none;
  reviewer_note_hash = none;
  finding_counts = none;
  approved_at = none;
  rejected_at = none;
  manual_review_at = none;
  created_at = 1;
}

abbrev ledger : Ledger ℕ
ledger = record { receipts = old_receipt ∷ []; events = [] }

unique_receipts : HasUniqueKeys receipt_key ledger.receipts
unique_receipts = (refl, tt)

new_uuid : contains (keys receipt_key ledger.receipts) "e2" ≡ false
unfolding string_eq
new_uuid = refl

upsert_final_review_receipt-IsReview_example :
    ((error : String) × (build_finding_counts codecs.int_of reviewed_session.workspace_payload none
          reviewed_session.session.trust_outcome
        ≡ err error)
      × (upsert_final_review_receipt codecs 5 "e2" "alice" "APPROVED"
            (some "fine")
            reviewed_session
            ledger
          ≡ (err error, reviewed_session, ledger)))
    ⊎ ((found : FindingCounts) × (r : Receipt ℕ) × (build_finding_counts codecs.int_of
            reviewed_session.workspace_payload none reviewed_session.session.trust_outcome
          ≡ ok found)
        × (r.finding_counts ≡ some (counts_payload codecs.of_count found))
        × ((upsert_final_review_receipt codecs 5 "e2" "alice" "APPROVED"
              (some "fine")
              reviewed_session
              ledger).0
            ≡ ok r)
        × ((upsert_final_review_receipt codecs 5 "e2" "alice" "APPROVED"
              (some "fine")
              reviewed_session
              ledger).1.session.audit_receipt_id
            ≡ some r.audit_event_id)
        × IsReview codecs 5 "APPROVED" "s1" ledger.receipts
            (upsert_final_review_receipt codecs 5 "e2" "alice" "APPROVED"
              (some "fine")
              reviewed_session
              ledger).2.receipts
            r)
upsert_final_review_receipt-IsReview_example =
    upsert_final_review_receipt-IsReview codecs 5 "e2" "alice" "APPROVED" (some "fine")
      reviewed_session ledger unique_receipts new_uuid

-- The counts of the workspace come before those that the outcome stands for.
counted_findings :
    build_finding_counts codecs.int_of reviewed_session.workspace_payload none (some "red")
    ≡ ok (record { green = 3; amber = 0; red = 0; unknown = false })
unfolding build_finding_counts counts_from_summary coerce_count get_field string_eq int_of_json
    nat_eq
counted_findings = refl

-- A count of infinity, for which 99 stands here, raises what is not caught.
uncaught_count :
    build_finding_counts codecs.int_of
      (some (dict (field "summary" (dict (field "red_count" (number 99) end)) end)))
      none
      none
    ≡ err "OverflowError"
unfolding build_finding_counts counts_from_summary coerce_count get_field string_eq int_of_json
    nat_eq
uncaught_count = refl

abbrev formats : Formats ℕ
formats = record {
  of_time = λ t. t;
  is_zero = λ n. n == 0;
  dumps = λ x. "dumped";
  hmac = λ s. "signed";
  isoformat = λ t. "2026-01-01";
  str = λ x. "e7";
  b64encode = λ s. s;
  is_time = λ n. true;
  binds = λ row tables. true;
}

abbrev no_rows : AuditTables ℕ
no_rows = record { receipts = []; nonces = []; events = [] }

abbrev trust_result : Fields ℕ
trust_result = field "outcome" (text "GREEN") (
    field "reason_codes" (list nil) (
      field "finding_counts" (dict (field "green" (number 2) (field "raw_text" (text "…") end)))
        end))

-- The dict that a run of the worker stores, and the same one without its key version.
abbrev issued_receipt : Fields ℕ
issued_receipt =
    receipt_fields formats 7 "e7" "s1" "worker" "c1" "v1" (text "GREEN") (list nil) trust_result

generated : generate_receipt formats 7 "e7" "s1" "worker" "c1" "v1" trust_result ≡ ok issued_receipt
unfolding generate_receipt receipt_fields build_receipt_hash missing_key get_field string_eq
generated = refl

generated_without_outcome :
    generate_receipt formats 7 "e7" "s1" "worker" "c1" "v1" end ≡ err "outcome"
unfolding generate_receipt missing_key get_field
generated_without_outcome = refl

generated-IsComplete : missing_key required_keys issued_receipt ≡ none
unfolding receipt_fields build_receipt_hash missing_key required_keys get_field string_eq
generated-IsComplete = refl

store_audit_bundle-IsStored_example :
    ((row : IssuedRow ℕ) × All (λ key. is_there (get_field key issued_receipt) ≡ true) required_keys
      × (takes_row formats row no_rows ≡ true)
      × ((store_audit_bundle formats issued_receipt "nonce" no_rows).0 ≡ ok row)
      × IsStored formats issued_receipt "nonce" no_rows row
          (store_audit_bundle formats issued_receipt "nonce" no_rows).1)
    ⊎ ((key : String) × (missing_key required_keys issued_receipt ≡ some key)
        × (is_there (get_field key issued_receipt) ≡ false)
        × (store_audit_bundle formats issued_receipt "nonce" no_rows
            ≡ (err (key_error key), no_rows)))
    ⊎ (All (λ key. is_there (get_field key issued_receipt) ≡ true) required_keys
        × (takes_row formats (issued_row formats (strip_fields issued_receipt)) no_rows ≡ false)
        × (store_audit_bundle formats issued_receipt "nonce" no_rows ≡ (err flush_error, no_rows)))
store_audit_bundle-IsStored_example =
    store_audit_bundle-IsStored formats issued_receipt "nonce" no_rows

-- The summary of a receipt whose counts hold a note shows them without it.
abbrev annotated_receipt : Receipt ℕ
annotated_receipt = record old_receipt {
  finding_counts = some (dict (field "reviewer_note" (text "…") (field "green" (number 1) end)));
}

shown_counts :
    fields_of (some (strip_audit_unsafe (summary_of codecs annotated_receipt none)))
    ≡ fields_of (
        some (
          summary_of codecs
            (record old_receipt { finding_counts = some (dict (field "green" (number 1) end)) })
            none))
unfolding strip_audit_unsafe is_unsafe_key audit_unsafe_keys summary_of string_eq lower
shown_counts = refl

abbrev documents : Documents
documents = record {
  exists = λ path. true;
  read_bytes = λ path. some "%PDF";
  sha256 = λ content. "d";
  hmac_hex = λ message. "c9";
}

abbrev uploaded : Sessions
uploaded = record waiting_row { file_path = some "/tmp/a.pdf" } ∷ []

abbrev finished : Sessions → AuditTables ℕ → Result Raised Completion × AuditTables ℕ
finished = build_completion_values formats documents 7 8 "e7" "nonce" "s1" "w1" trust_result

build_completion_values-IsIssued_example :
    ((completion : Completion) × ((finished uploaded no_rows).0 ≡ ok completion)
      × IsIssued formats documents 7 8 "e7" "nonce" "s1" "w1" trust_result uploaded no_rows
          completion
          (finished uploaded no_rows).1)
    ⊎ ((document_path documents "s1" uploaded ≡ none)
        × (finished uploaded no_rows ≡ (err document_missing, no_rows)))
    ⊎ ((path : String) × (document_path documents "s1" uploaded ≡ some path)
        × ((documents.read_bytes path ≡ none)
            ⊎ ((lacking : String) × (missing_key result_keys trust_result ≡ some lacking))
            ⊎ ((content : String) × (documents.read_bytes path ≡ some content)
                × (takes_row formats
                      (row_for formats documents 7 8 "e7" "nonce" "s1" "w1" trust_result content)
                      no_rows
                    ≡ false)))
        × (finished uploaded no_rows ≡ (err audit_store_failure, no_rows)))
build_completion_values-IsIssued_example =
    build_completion_values-IsIssued formats documents 7 8 "e7" "nonce" "s1" "w1" trust_result
      uploaded no_rows

completed_row :
    (finished uploaded no_rows).0 ≡ ok (record { commitment = "c9"; receipt_id = "e7"; at = 8 })
unfolding takes_row takes_rest build_completion_values issue_for issue document_path
    generate_receipt receipt_fields build_receipt_hash store_audit_bundle store_safe
    assert_audit_safe_payload strip_audit_unsafe find_unsafe_key is_unsafe_key audit_unsafe_keys
    missing_key required_keys get_field string_eq lower generate_commitment
completed_row = refl

-- A verdict without an outcome is refused by the flush.
null_outcome :
    (build_completion_values formats documents 7 8 "e7" "nonce" "s1" "w1"
      (field "outcome" null (field "reason_codes" (list nil) end))
      uploaded
      no_rows).0
    ≡ err audit_store_failure
unfolding takes_row takes_rest build_completion_values issue_for issue document_path
    generate_receipt receipt_fields build_receipt_hash store_audit_bundle store_safe
    assert_audit_safe_payload strip_audit_unsafe find_unsafe_key is_unsafe_key audit_unsafe_keys
    missing_key required_keys get_field string_eq lower generate_commitment
null_outcome = refl
