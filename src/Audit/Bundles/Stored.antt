-- ===== src/Audit/Bundles/Stored.antt =====
-- audit/service.py, store_audit_bundle: when a receipt is stored, and what the three tables hold.
use mathlib.Core.Bool.{false≢true}
use mathlib.Core.Option.{none-ne-some, some-ne-none}
use verification_engine.Audit.Payloads.Safe.{assert_audit_safe_payload-ok}
use verification_engine.Audit.Bundles.{
  AuditTables, Formats, IssuedRow, flush_error, flushed, is_datetime, is_null, is_there,
  issued_data, issued_row, key_error, missing_key, required_keys, required_values,
  store_audit_bundle, store_safe, takes_rest, takes_row, value_at, value_or, with_bundle,
}
use verification_engine.Audit.Counts.{fields_of, get_field}
use verification_engine.Audit.Payloads.{
  assert_audit_safe_payload, audit_unsafe_keys, find_in_fields, find_unsafe_key, is_unsafe_key,
  strip_audit_unsafe, strip_fields,
}
use verification_engine.Json.{Fields, Json, dict, end, field, list, nil, null, text}
use verification_engine.Base.{
  All, Bool, Bool-cases, List, Option-cases, String, [], any, ap, arith, bool_eq, err, false, inl,
  inr, keys, lower, nat_eq, none, not, ok, option_eq, refl, some, string_eq, sym, true, ◌&&◌, ◌++◌,
  ◌∙◌, ◌∷◌, ◌≡◌, ◌⊎◌,
}

module _ {F : Type 0} where
  get_field-strip :
      (key : String) (fields : Fields F)
      → is_unsafe_key key ≡ false
      → is_there (get_field key (strip_fields fields)) ≡ is_there (get_field key fields)
  unfolding get_field strip_audit_unsafe
  get_field-strip key end h = refl
  get_field-strip key (field k value rest) h = ground (arith, get_field-strip key rest, h)

  missing_key-strip :
      (keys : List String) (fields : Fields F)
      → any is_unsafe_key keys ≡ false
      → missing_key keys (strip_fields fields) ≡ missing_key keys fields
  unfolding missing_key
  missing_key-strip [] fields h = refl
  missing_key-strip (key ∷ keys) fields h =
      ground (arith, get_field-strip key fields, missing_key-strip keys fields, h)

  missing_key-none :
      (keys : List String) (fields : Fields F)
      → missing_key keys fields ≡ none
      → All (λ key. is_there (get_field key fields) ≡ true) keys
  unfolding missing_key
  missing_key-none [] fields h = tt
  missing_key-none (key ∷ keys) fields h = elim (Bool-cases (is_there (get_field key fields))) [
    | inl there ↦ (there, missing_key-none keys fields (ground (arith, there, h)))
    | inr absent ↦ absurd (some-ne-none key (ground (arith, absent, h)))
  ]

  missing_key-some :
      (keys : List String) (fields : Fields F) (lacking : String)
      → missing_key keys fields ≡ some lacking
      → is_there (get_field lacking fields) ≡ false
  unfolding missing_key
  missing_key-some [] fields lacking h = absurd (none-ne-some lacking h)
  missing_key-some (key ∷ keys) fields lacking h =
      ground (arith, missing_key-some keys fields lacking, h)

  value_or-safe :
      (key : String) (default : Json F) (fields : Fields F)
      → find_unsafe_key default ≡ none
      → find_in_fields fields ≡ none
      → find_unsafe_key (value_or default (get_field key fields)) ≡ none
  unfolding get_field find_unsafe_key
  value_or-safe key default end d h = d
  value_or-safe key default (field k value rest) d h =
      ground (arith, value_or-safe key default rest d, h)

  field-safe :
      (key : String) (x : Json F) (rest : Fields F)
      → is_unsafe_key key ≡ false
      → find_unsafe_key x ≡ none
      → find_in_fields rest ≡ none
      → find_in_fields (field key x rest) ≡ none
  unfolding find_unsafe_key
  field-safe key x rest safe h hs = rw safe (rw h hs)

  dict-safe :
      (fields : Fields F) → find_in_fields fields ≡ none → find_unsafe_key (dict fields) ≡ none
  unfolding find_unsafe_key
  dict-safe fields h = h

text-safe : (F : Type 0) (s : String) → find_unsafe_key {F = F} (text s) ≡ none
unfolding find_unsafe_key
text-safe F s = refl

end-safe : (F : Type 0) → find_in_fields {F = F} end ≡ none
unfolding find_unsafe_key
end-safe F = refl

first_two : (a b c : Bool) → (not a && (b && c)) ≡ true → (a ≡ false) × (b ≡ true)
first_two true b c h = (sym h, absurd (false≢true h))
first_two false true c h = (refl, refl)
first_two false false c h = (refl, h)

required_keys-safe : any is_unsafe_key required_keys ≡ false
unfolding required_keys is_unsafe_key audit_unsafe_keys string_eq lower
required_keys-safe = refl

module _ {F : Type 0} (formats : Formats F) where
  -- The values of a row's columns.
  abbrev pub columns : IssuedRow F → List (Json F)
  columns row =
      row.reviewer_ref ∷ row.document_commitment ∷ row.trust_outcome ∷ row.reason_codes
      ∷ row.connector_ids ∷ row.issued_at ∷ row.key_version ∷ row.receipt_hash
      ∷ row.reviewer_decision ∷ row.reviewer_note_hash ∷ row.finding_counts ∷ row.approved_at
      ∷ row.rejected_at ∷ row.manual_review_at ∷ []

  -- One row is added to each table, all three name the session, and none holds an unsafe key.
  pub record IsStored (receipt : Fields F) (nonce : String) (before : AuditTables F)
      (row : IssuedRow F) (after : AuditTables F) : Type 0 where
    pub row_of_receipt : row ≡ issued_row formats (strip_fields receipt)
    pub as_given : find_in_fields receipt ≡ none → row ≡ issued_row formats receipt
    pub no_nulls : any (is_null formats) (required_values formats row) ≡ false
    pub issued_at_time : is_datetime formats row.issued_at ≡ true
    pub row_safe : All (λ (x : Json F). find_unsafe_key x ≡ none) (columns row)
    pub receipts : after.receipts ≡ before.receipts ++ (row ∷ [])
    pub nonces :
        after.nonces
        ≡ before.nonces
          ++ (record { session_id = row.session_id; nonce_value = formats.b64encode nonce } ∷ [])
    pub events :
        after.events
        ≡ before.events
          ++ (record {
            session_id = row.session_id;
            event_type = "AUDIT_RECEIPT_ISSUED";
            event_data = issued_data formats row;
          }
              ∷ [])

  module _ (receipt : Fields F) where
    row : IssuedRow F
    row = issued_row formats (strip_fields receipt)

    safe : find_in_fields (strip_fields receipt) ≡ none
    unfolding find_unsafe_key strip_audit_unsafe
    safe = (assert_audit_safe_payload-ok (dict receipt)).1

    column : (key : String) → find_unsafe_key (value_at key (strip_fields receipt)) ≡ none
    unfolding find_unsafe_key
    column key = value_or-safe key null (strip_fields receipt) refl safe

    connectors : find_unsafe_key row.connector_ids ≡ none
    unfolding find_unsafe_key row
    connectors = value_or-safe "connector_ids" (list nil) (strip_fields receipt) refl safe

    columns-safe : All (λ (x : Json F). find_unsafe_key x ≡ none) (columns row)
    unfolding row
    columns-safe = (
      column "reviewer_ref",
      (
        column "document_commitment",
        (
          column "trust_outcome",
          (
            column "reason_codes",
            (
              connectors,
              (
                column "issued_at",
                (
                  column "key_version",
                  (
                    column "receipt_hash",
                    (
                      column "reviewer_decision",
                      (
                        column "reviewer_note_hash",
                        (
                          column "finding_counts",
                          (
                            column "approved_at",
                            (column "rejected_at", (column "manual_review_at", tt)),
                          ),
                        ),
                      ),
                    ),
                  ),
                ),
              ),
            ),
          ),
        ),
      ),
    )

    issued_data-safe : find_unsafe_key (issued_data formats row) ≡ none
    unfolding row is_unsafe_key audit_unsafe_keys string_eq lower
    issued_data-safe = dict-safe _ (
        field-safe "audit_event_id" _ _ refl (text-safe F row.audit_event_id) (
          field-safe "trust_outcome" _ _ refl (column "trust_outcome") (
            field-safe "reason_codes" _ _ refl (column "reason_codes")
              (field-safe "connector_ids" _ _ refl connectors (end-safe F)))))

    issued_data-stored :
        assert_audit_safe_payload (issued_data formats row) ≡ ok (issued_data formats row)
    issued_data-stored =
        let (stored, _, (same, _), _) = assert_audit_safe_payload-ok (issued_data formats row) in
        stored ∙ ap ok (same issued_data-safe)

    store_safe-stored :
        (nonce : String) (before : AuditTables F)
        → missing_key required_keys (strip_fields receipt) ≡ none
        → store_safe formats nonce before (strip_fields receipt)
          ≡ flushed formats nonce before row (issued_data formats row)
    unfolding store_safe row
    store_safe-stored nonce before e = rw (store_safe, e, issued_data-stored) refl

    flushed-taken :
        (nonce : String) (before : AuditTables F)
        → takes_row formats row before ≡ true
        → flushed formats nonce before row (issued_data formats row)
          ≡ (ok row, with_bundle formats nonce before row (issued_data formats row))
    flushed-taken nonce before t = rw t refl

    flushed-refused :
        (nonce : String) (before : AuditTables F)
        → takes_row formats row before ≡ false
        → flushed formats nonce before row (issued_data formats row) ≡ (err flush_error, before)
    flushed-refused nonce before t = rw t refl

    taken-no_nulls :
        (before : AuditTables F)
        → takes_row formats row before ≡ true
        → (any (is_null formats) (required_values formats row) ≡ false)
          × (is_datetime formats row.issued_at ≡ true)
    unfolding takes_row
    taken-no_nulls before t =
        first_two (any (is_null formats) (required_values formats row))
          (is_datetime formats row.issued_at) (takes_rest formats row before) t

    store_safe-missing :
        (nonce : String) (before : AuditTables F) (key : String)
        → missing_key required_keys (strip_fields receipt) ≡ some key
        → store_safe formats nonce before (strip_fields receipt) ≡ (err (key_error key), before)
    unfolding store_safe
    store_safe-missing nonce before key e = rw (store_safe, e) refl

    store_audit_bundle-eq :
        (nonce : String) (before : AuditTables F)
        → store_audit_bundle formats receipt nonce before
          ≡ store_safe formats nonce before (strip_fields receipt)
    unfolding store_audit_bundle strip_audit_unsafe
    store_audit_bundle-eq nonce before = rw (assert_audit_safe_payload-ok (dict receipt)).0 refl

    missing-stripped :
        missing_key required_keys (strip_fields receipt) ≡ missing_key required_keys receipt
    missing-stripped = missing_key-strip required_keys receipt required_keys-safe

    unstripped : find_in_fields receipt ≡ none → strip_fields receipt ≡ receipt
    unfolding find_unsafe_key strip_audit_unsafe
    unstripped h =
        let (_, _, (same, _), _) = assert_audit_safe_payload-ok (dict receipt) in
        ap (λ (x : Json F). fields_of (some x)) (same h)

    stored :
        (nonce : String) (before : AuditTables F)
        → missing_key required_keys (strip_fields receipt) ≡ none
        → takes_row formats row before ≡ true
        → ((store_audit_bundle formats receipt nonce before).0 ≡ ok row)
          × IsStored receipt nonce before row (store_audit_bundle formats receipt nonce before).1
    unfolding row
    stored nonce before e t =
        let whole =
          store_audit_bundle-eq nonce before
          ∙ store_safe-stored nonce before e
          ∙ flushed-taken nonce before t in
        let (no_nulls, in_time) = taken-no_nulls before t in
        (
          rw whole refl,
          record {
            row_of_receipt = refl;
            as_given = λ h. ap (issued_row formats) (unstripped h);
            no_nulls = no_nulls;
            issued_at_time = in_time;
            row_safe = columns-safe;
            receipts = rw whole refl;
            nonces = rw whole refl;
            events = rw whole refl;
          },
        )

  -- The receipt is stored, as one row with no unsafe key in each table, exactly if it has every key
  -- that is read by a subscript and the flush takes its row, in which no column that forbids it is
  -- NULL and the time of issue is a datetime. Otherwise nothing is added, and the error is the first
  -- key that is missing, or that of the flush.
  pub store_audit_bundle-IsStored :
      (receipt : Fields F) (nonce : String) (before : AuditTables F)
      → ((row : IssuedRow F) × All (λ key. is_there (get_field key receipt) ≡ true) required_keys
          × (takes_row formats row before ≡ true)
          × ((store_audit_bundle formats receipt nonce before).0 ≡ ok row)
          × IsStored receipt nonce before row (store_audit_bundle formats receipt nonce before).1)
        ⊎ ((key : String) × (missing_key required_keys receipt ≡ some key)
            × (is_there (get_field key receipt) ≡ false)
            × (store_audit_bundle formats receipt nonce before ≡ (err (key_error key), before)))
        ⊎ (All (λ key. is_there (get_field key receipt) ≡ true) required_keys
            × (takes_row formats (issued_row formats (strip_fields receipt)) before ≡ false)
            × (store_audit_bundle formats receipt nonce before ≡ (err flush_error, before)))
  unfolding row
  store_audit_bundle-IsStored receipt nonce before =
      elim (Option-cases (missing_key required_keys receipt)) [
        | inr (key, e) ↦ inr (
            inl (
              key,
              e,
              missing_key-some required_keys receipt key e,
              store_audit_bundle-eq receipt nonce before
                  ∙ store_safe-missing receipt nonce before key (missing-stripped receipt ∙ e),
            ))
        | inl e ↦ elim (Bool-cases (takes_row formats (row receipt) before)) [
          | inl t ↦
              let (answered, holds) =
                stored receipt nonce before (missing-stripped receipt ∙ e) t in
              inl (row receipt, missing_key-none required_keys receipt e, t, answered, holds)
          | inr t ↦ inr (
              inr (
                missing_key-none required_keys receipt e,
                t,
                store_audit_bundle-eq receipt nonce before
                    ∙ store_safe-stored receipt nonce before (missing-stripped receipt ∙ e)
                    ∙ flushed-refused receipt nonce before t,
              ))
        ]
      ]
