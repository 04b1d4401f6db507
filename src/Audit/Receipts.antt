-- ===== src/Audit/Receipts.antt =====
-- audit/service.py: the receipt of a session's review, and the tables audit_receipts and
-- audit_events. The JSON encoder, the HMAC, the dates' format and `int` are the library's, and the
-- database accepts what is flushed.
pub mod Latest
pub mod Reviews
pub mod Summary
use verification_engine.Base.{
  Bool, List, Option, Result, String, [], bool_eq, err, if◌then◌else◌, ltb, nat_eq, none, ok,
  option_eq, or_else, or_empty, present, select, some, string_eq, strip, truthy, update, ℕ, ◌++◌,
  ◌==◌, ◌∷◌,
}
use verification_engine.Json.{Json, dict, end, field, flag, null, text}
use verification_engine.Workflow.Sessions.{Session, key}
use verification_engine.Audit.Payloads.{assert_audit_safe_payload}
use verification_engine.Audit.Counts.{Coerced, FindingCounts, build_finding_counts, counts_payload}

pub record Codecs (F : Type 0) : Type 0 where
  -- `max(0, int(value))`
  pub int_of : Json F → Coerced
  pub of_count : ℕ → F
  -- `json.dumps(…, sort_keys=True, separators=(",", ":"), default=str)`
  pub dumps : Json F → String
  -- `generate_hmac_hex`
  pub hmac : String → String
  pub isoformat : ℕ → String

-- AuditReceiptRecord; times are microseconds
pub record Receipt (F : Type 0) : Type 0 where
  pub audit_event_id : String
  pub session_id : String
  pub reviewer_ref : String
  pub document_commitment : String
  pub trust_outcome : String
  pub reason_codes : List String
  pub connector_ids : List String
  pub issued_at : ℕ
  pub key_version : String
  pub receipt_hash : String
  pub signature : Option String
  pub hash_chain_prev : Option String
  pub reviewer_decision : Option String
  pub reviewer_note_hash : Option String
  pub finding_counts : Option (Json F)
  pub approved_at : Option ℕ
  pub rejected_at : Option ℕ
  pub manual_review_at : Option ℕ
  pub created_at : ℕ

-- AuditEventRecord, without its own key and time
pub record Event (F : Type 0) : Type 0 where
  pub session_id : String
  pub event_type : String
  pub event_data : Json F

pub record Ledger (F : Type 0) : Type 0 where
  pub receipts : List (Receipt F)
  pub events : List (Event F)

-- A session with the two payloads that the counts are read from.
pub record Reviewed (F : Type 0) : Type 0 where
  pub session : Session
  pub workspace_payload : Option (Json F)
  pub verification_execution_summary_payload : Option (Json F)

-- `x or y` for times, which are never falsy
abbrev pub first_time : Option ℕ → Option ℕ → Option ℕ
first_time none other = other
first_time (some t) other = some t

abbrev pub time_if : Bool → ℕ → Option ℕ
time_if b t = if b then some t else none

-- The value of a call, or what is left where it raises.
abbrev pub or_raise : {E A B : Type 0} → Result E A → (E → B) → (A → B) → B
or_raise (err e) raised next = raised e
or_raise (ok a) raised next = next a

module _ {F : Type 0} where
  abbrev pub receipt_key : Receipt F → String
  receipt_key r = r.audit_event_id

  abbrev pub of_session : String → Receipt F → Bool
  of_session session_id r = r.session_id == session_id

  abbrev pub newer : Receipt F → Option (Receipt F) → Receipt F
  newer r none = r
  newer r (some q) = if ltb r.created_at q.created_at then q else r

  abbrev pub newest : List (Receipt F) → Option (Receipt F)
  newest [] = none
  newest (r ∷ rs) = some (newer r (newest rs))

  -- `get_latest_audit_receipt`; the first row where the times are equal
  unfoldable pub get_latest_audit_receipt : List (Receipt F) → String → Option (Receipt F)
  get_latest_audit_receipt receipts session_id = newest (select (of_session session_id) receipts)

  abbrev pub text_or_null : Option String → Json F
  text_or_null none = null
  text_or_null (some s) = text s

  -- `receipt.finding_counts or {}`; the column holds a dict or NULL
  abbrev pub or_empty_dict : Option (Json F) → Json F
  or_empty_dict none = dict end
  or_empty_dict (some x) = x

  -- The receipt of a session that has none.
  abbrev pub fresh_receipt : ℕ → String → String → Session → Receipt F
  fresh_receipt now uuid reviewer_ref s = record {
    audit_event_id = uuid;
    session_id = s.id;
    reviewer_ref = reviewer_ref;
    document_commitment = or_empty (or_else s.document_commitment (some "UNAVAILABLE"));
    trust_outcome = or_empty (or_else s.trust_outcome (some "UNKNOWN"));
    reason_codes = s.reason_codes;
    connector_ids = s.connector_ids;
    issued_at = now;
    key_version = "v1";
    receipt_hash = "PENDING";
    signature = none;
    hash_chain_prev = none;
    reviewer_decision = none;
    reviewer_note_hash = none;
    finding_counts = none;
    approved_at = none;
    rejected_at = none;
    manual_review_at = none;
    created_at = now;
  }

  -- What the session says now, on the receipt that there is.
  abbrev pub refreshed_receipt : String → Session → Receipt F → Receipt F
  refreshed_receipt reviewer_ref s r = record r {
    reviewer_ref = reviewer_ref;
    trust_outcome =
        or_empty (or_else s.trust_outcome (or_else (some r.trust_outcome) (some "UNKNOWN")));
    reason_codes = s.reason_codes;
    connector_ids = s.connector_ids;
  }

  abbrev pub decided : ℕ → String → Option String → Json F → Receipt F → Receipt F
  decided now decision note_hash counts r = record r {
    reviewer_decision = some decision;
    reviewer_note_hash = note_hash;
    finding_counts = some counts;
    approved_at = time_if (decision == "APPROVED") now;
    rejected_at = time_if (decision == "REJECTED") now;
    manual_review_at = time_if (decision == "MANUAL_REVIEW_REQUIRED") now;
  }

  -- `db.add` of a new receipt, or the UPDATE of the one that was changed
  unfoldable pub save_receipt : Receipt F → Option (Receipt F) → List (Receipt F) → List (Receipt F)
  save_receipt r none receipts = receipts ++ (r ∷ [])
  save_receipt r (some old) receipts =
      update (λ q. q.audit_event_id == old.audit_event_id) (λ _. r) receipts

  unfoldable pub decision_data : String → String → Option String → Json F → Json F
  decision_data audit_event_id decision hash counts = dict (
      field "audit_event_id" (text audit_event_id) (
        field "reviewer_decision" (text decision) (
          field "reviewer_note_hash_present" (flag (present hash))
            (field "finding_counts" counts end))))

  abbrev pub recorded :
      Reviewed F → Ledger F → Receipt F → Json F → Result String (Receipt F) × Reviewed F × Ledger F
  recorded s ledger r event_data = (
    ok r,
    record s { session = record s.session { audit_receipt_id = some r.audit_event_id } },
    record {
      receipts =
          save_receipt r (get_latest_audit_receipt ledger.receipts s.session.id) ledger.receipts;
      events =
          ledger.events
          ++ (record {
            session_id = s.session.id;
            event_type = "FINAL_REVIEW_DECISION_RECORDED";
            event_data = event_data;
          }
              ∷ []);
    },
  )

  module _ (codecs : Codecs F) where
    -- `hash_reviewer_note` where the note is not blank
    abbrev pub note_hash : Option String → Option String
    note_hash note =
        if truthy (strip (or_empty note)) then some (codecs.hmac (strip (or_empty note))) else none

    abbrev pub iso_or_none : Option ℕ → Option String
    iso_or_none none = none
    iso_or_none (some t) = some (codecs.isoformat t)

    -- `_decision_timestamp`
    abbrev pub decision_timestamp : Receipt F → Option String
    decision_timestamp r =
        iso_or_none (first_time r.approved_at (first_time r.rejected_at r.manual_review_at))

    -- `build_final_receipt_hash`
    unfoldable pub build_final_receipt_hash : Receipt F → String
    build_final_receipt_hash r = codecs.hmac (
        codecs.dumps (
          dict (
            field "session_id" (text r.session_id) (
              field "document_commitment" (text r.document_commitment) (
                field "trust_outcome" (text r.trust_outcome) (
                  field "reviewer_decision" (text_or_null r.reviewer_decision) (
                    field "reviewer_note_hash" (text_or_null r.reviewer_note_hash) (
                      field "finding_counts" (or_empty_dict r.finding_counts) (
                        field "final_decision_at" (text_or_null (decision_timestamp r)) end)))))))))

    abbrev pub with_hash : Receipt F → Receipt F
    with_hash r = record r { receipt_hash = build_final_receipt_hash r }

    -- The session's receipt with the decision, before it is hashed, from the latest one.
    unfoldable pub review_receipt :
        ℕ
        → (uuid reviewer_ref decision : String) (note : Option String) (counts : Json F) → Session
        → Option (Receipt F)
        → Receipt F
    review_receipt now uuid reviewer_ref decision note counts s none =
        decided now decision (note_hash note) counts (fresh_receipt now uuid reviewer_ref s)
    review_receipt now uuid reviewer_ref decision note counts s (some r) =
        decided now decision (note_hash note) counts (refreshed_receipt reviewer_ref s r)

    -- `upsert_final_review_receipt` past the counts
    unfoldable pub upsert_with :
        ℕ
        → (uuid reviewer_ref decision : String) → Option String
        → Reviewed F
        → Ledger F
        → FindingCounts
        → Result String (Receipt F) × Reviewed F × Ledger F
    unfolding review_receipt save_receipt decision_data build_final_receipt_hash
        get_latest_audit_receipt assert_audit_safe_payload
    upsert_with now uuid reviewer_ref decision note s ledger found =
        or_raise (assert_audit_safe_payload (counts_payload codecs.of_count found))
          (λ key. (err key, s, ledger))
          λ counts.
            let r = with_hash (
              review_receipt now uuid reviewer_ref decision note counts s.session
                (get_latest_audit_receipt ledger.receipts s.session.id)) in
            or_raise
              (assert_audit_safe_payload
                (decision_data r.audit_event_id decision (note_hash note) counts))
              (λ key. (err key, s, ledger)) (recorded s ledger r)

    -- `upsert_final_review_receipt`. `uuid` is what `uuid.uuid4` gives; a receipt is new at `now`.
    -- After an exception nothing has been flushed.
    unfoldable pub upsert_final_review_receipt :
        ℕ
        → (uuid reviewer_ref decision : String) → Option String
        → Reviewed F
        → Ledger F
        → Result String (Receipt F) × Reviewed F × Ledger F
    unfolding upsert_with build_finding_counts
    upsert_final_review_receipt now uuid reviewer_ref decision note s ledger =
        or_raise
          (build_finding_counts codecs.int_of s.workspace_payload
            s.verification_execution_summary_payload s.session.trust_outcome)
          (λ error. (err error, s, ledger))
          (upsert_with now uuid reviewer_ref decision note s ledger)
