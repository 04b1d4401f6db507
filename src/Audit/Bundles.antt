-- ===== src/Audit/Bundles.antt =====
-- audit/receipt_generator.py and store_audit_bundle of audit/service.py: the receipt of a run is
-- built as a dict and stored with its nonce and an event. The flush refuses a row with a NULL in a
-- column that sessions/models.py declares NOT NULL, a time that is no datetime, and what the driver
-- or the database refuses beyond that. A JSON column holds None as JSON's null.
pub mod Stored
use verification_engine.Base.{
  Bool, List, Option, Result, String, [], any, bool_eq, err, false, if◌then◌else◌, keys, nat_eq,
  none, not, ok, option_eq, some, string_eq, true, truthy, ℕ, ◌&&◌, ◌++◌, ◌||◌, ◌∷◌,
}
use verification_engine.Audit.Receipts.{Event, note_hash, or_raise}
use verification_engine.Audit.Counts.{fields_of, get_field}
use verification_engine.Audit.Payloads.{assert_audit_safe_payload}
use verification_engine.Json.{
  Fields, Items, Json, bytes, dict, end, field, flag, item, list, nil, null, number, text,
}

-- AuditReceiptRecord, as store_audit_bundle fills it
pub record IssuedRow (F : Type 0) : Type 0 where
  pub audit_event_id : String
  pub session_id : String
  pub reviewer_ref : Json F
  pub document_commitment : Json F
  pub trust_outcome : Json F
  pub reason_codes : Json F
  pub connector_ids : Json F
  pub issued_at : Json F
  pub key_version : Json F
  pub receipt_hash : Json F
  pub reviewer_decision : Json F
  pub reviewer_note_hash : Json F
  pub finding_counts : Json F
  pub approved_at : Json F
  pub rejected_at : Json F
  pub manual_review_at : Json F

-- SealedNonceRecord
pub record NonceRow : Type 0 where
  pub session_id : String
  pub nonce_value : String

pub record AuditTables (F : Type 0) : Type 0 where
  pub receipts : List (IssuedRow F)
  pub nonces : List NonceRow
  pub events : List (Event F)

-- The library's JSON encoder, HMAC, date formats, `str` and base64, and the database.
pub record Formats (F : Type 0) : Type 0 where
  -- a datetime as a value
  pub of_time : ℕ → F
  -- Python's falsy numbers
  pub is_zero : F → Bool
  pub dumps : Json F → String
  pub hmac : String → String
  pub isoformat : ℕ → String
  pub str : Json F → String
  pub b64encode : String → String
  -- whether the value is a datetime
  pub is_time : F → Bool
  -- whether the driver and the database take a row without NULLs where they are forbidden: its values
  -- can be bound to their columns, its key is new and its session is there
  pub binds : IssuedRow F → AuditTables F → Bool

pub data StoreError : Type 0 where
  key_error : String → StoreError
  unsafe_payload : String → StoreError
  flush_error : StoreError

-- The keys that are read by `receipt[key]`, in that order.
unfoldable pub required_keys : List String
required_keys =
    "audit_event_id" ∷ "session_id" ∷ "reviewer_ref" ∷ "document_commitment" ∷ "trust_outcome"
    ∷ "reason_codes" ∷ "issued_at" ∷ "key_version" ∷ "receipt_hash" ∷ []

module _ {F : Type 0} where
  abbrev pub value_or : Json F → Option (Json F) → Json F
  value_or default none = default
  value_or default (some x) = x

  -- `fields.get(key)` with None for a missing key
  abbrev pub value_at : String → Fields F → Json F
  value_at key fields = value_or null (get_field key fields)

  abbrev pub is_there : Option (Json F) → Bool
  is_there none = false
  is_there (some x) = true

  -- The key of the KeyError that the subscripts raise first.
  unfoldable pub missing_key : List String → Fields F → Option String
  missing_key [] fields = none
  missing_key (key ∷ keys) fields =
      let later = missing_key keys fields in
      if is_there (get_field key fields) then later else some key

  abbrev pub is_empty_items : Items F → Bool
  is_empty_items nil = true
  is_empty_items (item x rest) = false

  abbrev pub is_empty_fields : Fields F → Bool
  is_empty_fields end = true
  is_empty_fields (field key value rest) = false

  module _ (formats : Formats F) where
    -- Bytes count as not empty, since a value does not hold them.
    abbrev pub is_falsy : Json F → Bool
    is_falsy null = true
    is_falsy (flag b) = not b
    is_falsy (number n) = formats.is_zero n
    is_falsy (text s) = not (truthy s)
    is_falsy bytes = false
    is_falsy (list items) = is_empty_items items
    is_falsy (dict fields) = is_empty_fields fields

    -- `finding_counts or {}`
    abbrev pub counts_or_empty : Json F → Json F
    counts_or_empty counts = if is_falsy counts then dict end else counts

    -- `_build_receipt_hash`
    unfoldable pub build_receipt_hash :
        (session_id commitment : String) (outcome decision note_hash counts : Json F)
        (issued_at : ℕ)
        → String
    build_receipt_hash session_id commitment outcome decision note_hash counts issued_at =
        formats.hmac (
          formats.dumps (
            dict (
              field "session_id" (text session_id) (
                field "document_commitment" (text commitment) (
                  field "trust_outcome" outcome (
                    field "reviewer_decision" decision (
                      field "reviewer_note_hash" note_hash (
                        field "finding_counts" (counts_or_empty counts)
                          (field "issued_at" (text (formats.isoformat issued_at)) end)))))))))

    -- The dict that `generate_receipt` returns.
    unfoldable pub receipt_fields :
        (now : ℕ) (uuid session_id reviewer_ref commitment key_version : String)
        (outcome codes : Json F) (trust : Fields F)
        → Fields F
    unfolding build_receipt_hash
    receipt_fields now uuid session_id reviewer_ref commitment key_version outcome codes trust =
        field "audit_event_id" (text uuid) (
          field "session_id" (text session_id) (
            field "reviewer_ref" (text reviewer_ref) (
              field "document_commitment" (text commitment) (
                field "trust_outcome" outcome (
                  field "reason_codes" codes (
                    field "connector_ids" (value_or (list nil) (get_field "connector_ids" trust)) (
                      field "issued_at" (number (formats.of_time now)) (
                        field "key_version" (text key_version) (
                          field "receipt_hash"
                            (text (
                              build_receipt_hash session_id commitment outcome
                                (value_at "reviewer_decision" trust)
                                (value_at "reviewer_note_hash" trust)
                                (value_at "finding_counts" trust) now))
                            (field "reviewer_decision" (value_at "reviewer_decision" trust) (
                              field "reviewer_note_hash" (value_at "reviewer_note_hash" trust) (
                                field "finding_counts" (value_at "finding_counts" trust)
                                  end))))))))))))

    -- `generate_receipt`, with the key of a KeyError. `uuid` is what `uuid.uuid4` gives.
    unfoldable pub generate_receipt :
        (now : ℕ) (uuid session_id reviewer_ref commitment key_version : String) (trust : Fields F)
        → Result String (Fields F)
    unfolding receipt_fields missing_key
    generate_receipt now uuid session_id reviewer_ref commitment key_version trust =
        elim (missing_key ("outcome" ∷ "reason_codes" ∷ []) trust) [
          | some key ↦ err key
          | none ↦ ok (
              receipt_fields now uuid session_id reviewer_ref commitment key_version
                (value_at "outcome" trust) (value_at "reason_codes" trust) trust)
        ]

    abbrev pub issued_row : Fields F → IssuedRow F
    issued_row receipt = record {
      audit_event_id = formats.str (value_at "audit_event_id" receipt);
      session_id = formats.str (value_at "session_id" receipt);
      reviewer_ref = value_at "reviewer_ref" receipt;
      document_commitment = value_at "document_commitment" receipt;
      trust_outcome = value_at "trust_outcome" receipt;
      reason_codes = value_at "reason_codes" receipt;
      connector_ids = value_or (list nil) (get_field "connector_ids" receipt);
      issued_at = value_at "issued_at" receipt;
      key_version = value_at "key_version" receipt;
      receipt_hash = value_at "receipt_hash" receipt;
      reviewer_decision = value_at "reviewer_decision" receipt;
      reviewer_note_hash = value_at "reviewer_note_hash" receipt;
      finding_counts = value_at "finding_counts" receipt;
      approved_at = value_at "approved_at" receipt;
      rejected_at = value_at "rejected_at" receipt;
      manual_review_at = value_at "manual_review_at" receipt;
    }

    abbrev pub issued_data : IssuedRow F → Json F
    issued_data row = dict (
        field "audit_event_id" (text row.audit_event_id) (
          field "trust_outcome" row.trust_outcome
            (field "reason_codes" row.reason_codes (field "connector_ids" row.connector_ids end))))

    abbrev pub with_bundle : String → AuditTables F → IssuedRow F → Json F → AuditTables F
    with_bundle nonce tables row event_data = record {
      receipts = tables.receipts ++ (row ∷ []);
      nonces =
          tables.nonces
          ++ (record { session_id = row.session_id; nonce_value = formats.b64encode nonce } ∷ []);
      events =
          tables.events
          ++ (record {
            session_id = row.session_id;
            event_type = "AUDIT_RECEIPT_ISSUED";
            event_data = event_data;
          }
              ∷ []);
    }

    abbrev pub is_null : Json F → Bool
    is_null null = true
    is_null (flag b) = false
    is_null (number n) = false
    is_null (text s) = false
    is_null bytes = false
    is_null (list items) = false
    is_null (dict fields) = false

    -- The columns without JSON that are NOT NULL; the two ids are texts.
    abbrev pub required_values : IssuedRow F → List (Json F)
    required_values row =
        row.reviewer_ref ∷ row.document_commitment ∷ row.trust_outcome ∷ row.issued_at
        ∷ row.key_version ∷ row.receipt_hash ∷ []

    -- A value that a DateTime column holds
    abbrev pub is_datetime : Json F → Bool
    is_datetime null = false
    is_datetime (flag b) = false
    is_datetime (number n) = formats.is_time n
    is_datetime (text s) = false
    is_datetime bytes = false
    is_datetime (list items) = false
    is_datetime (dict fields) = false

    abbrev pub is_datetime_or_null : Json F → Bool
    is_datetime_or_null x = is_null x || is_datetime x

    -- Whether the further times fit, and the driver and the database take the row.
    unfoldable pub takes_rest : IssuedRow F → AuditTables F → Bool
    takes_rest row tables =
        is_datetime_or_null row.approved_at
        && is_datetime_or_null row.rejected_at
        && is_datetime_or_null row.manual_review_at
        && formats.binds row tables

    -- Whether `db.flush()` takes the row.
    unfoldable pub takes_row : IssuedRow F → AuditTables F → Bool
    unfolding takes_rest
    takes_row row tables =
        not (any is_null (required_values row))
        && (is_datetime row.issued_at && takes_rest row tables)

    abbrev pub flushed :
        String
        → AuditTables F
        → IssuedRow F
        → Json F
        → Result StoreError (IssuedRow F) × AuditTables F
    flushed nonce tables row event_data =
        if takes_row row tables
        then (ok row, with_bundle nonce tables row event_data)
        else (err flush_error, tables)

    -- The rows of a receipt that is safe, or the KeyError or ValueError before any is added.
    unfoldable pub store_safe :
        String → AuditTables F → Fields F → Result StoreError (IssuedRow F) × AuditTables F
    unfolding missing_key assert_audit_safe_payload takes_row
    store_safe nonce tables receipt = elim (missing_key required_keys receipt) [
      | some key ↦ (err (key_error key), tables)
      | none ↦
          or_raise (assert_audit_safe_payload (issued_data (issued_row receipt)))
            (λ key. (err (unsafe_payload key), tables)) (flushed nonce tables (issued_row receipt))
    ]

    -- `store_audit_bundle`; the nonce's bytes are a text
    unfoldable pub store_audit_bundle :
        Fields F → String → AuditTables F → Result StoreError (IssuedRow F) × AuditTables F
    unfolding store_safe assert_audit_safe_payload
    store_audit_bundle receipt nonce tables =
        or_raise (assert_audit_safe_payload (dict receipt))
          (λ key. (err (unsafe_payload key), tables))
          λ safe. store_safe nonce tables (fields_of (some safe))
