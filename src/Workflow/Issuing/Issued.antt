-- ===== src/Workflow/Issuing/Issued.antt =====
-- workflow/service.py, _build_completion_values: what the audit tables hold once a run is completed.
use verification_engine.Audit.Bundles.Stored.{IsStored, store_audit_bundle-IsStored}
use verification_engine.Audit.Bundles.{
  AuditTables, Formats, IssuedRow, StoreError, generate_receipt, issued_row, missing_key,
  receipt_fields, required_keys, store_audit_bundle, takes_row, value_at,
}
use verification_engine.Audit.Counts.{get_field}
use verification_engine.Audit.Payloads.{
  audit_unsafe_keys, is_unsafe_key, strip_audit_unsafe, strip_fields,
}
use verification_engine.Workflow.Issuing.{
  Documents, audit_store_failure, build_completion_values, completion_of, document_missing,
  document_path, generate_commitment, issue, issue_for, settle_store,
}
use verification_engine.Workflow.Pipeline.{Raised}
use verification_engine.Workflow.Sessions.{Completion, Sessions}
use verification_engine.Json.{Fields, text}
use verification_engine.Base.{
  List, Option-cases, Result, String, [], ap, arith, bool_eq, err, false, inl, inr, lower, nat_eq,
  none, ok, option_eq, refl, some, string_eq, sym, ℕ, ◌∙◌, ◌∷◌, ◌≡◌, ◌⊎◌,
}
use mathlib.Core.Path.{subst}
use mathlib.Core.Option.{none-ne-some}

abbrev pub result_keys : List String
result_keys = "outcome" ∷ "reason_codes" ∷ []

module _ {F : Type 0} (formats : Formats F) (documents : Documents) (issued_at verified_at : ℕ)
    (uuid nonce session_id worker_id : String) (trust : Fields F) where
  abbrev pub receipt_for : String → Fields F
  receipt_for commitment =
      receipt_fields formats issued_at uuid session_id worker_id commitment "v1"
        (value_at "outcome" trust) (value_at "reason_codes" trust) trust

  -- The document is there and readable, the verdict has its keys, the tables hold the receipt of
  -- this run and this document, and the completion names the two.
  pub record IsIssued (db : Sessions) (before : AuditTables F) (completion : Completion)
      (after : AuditTables F) : Type 0 where
    pub path : String
    pub content : String
    pub row : IssuedRow F
    pub path_there : document_path documents session_id db ≡ some path
    pub content_read : documents.read_bytes path ≡ some content
    pub result_complete : missing_key result_keys trust ≡ none
    pub committed :
        completion.commitment ≡ generate_commitment documents content nonce "secuura-session"
    pub names_receipt : row.audit_event_id ≡ formats.str (text completion.receipt_id)
    pub names_session : row.session_id ≡ formats.str (text session_id)
    pub row_commitment : row.document_commitment ≡ text completion.commitment
    pub row_outcome : row.trust_outcome ≡ strip_audit_unsafe (value_at "outcome" trust)
    pub stored : IsStored formats (receipt_for completion.commitment) nonce before row after

  module _ (commitment : String) where
    generated :
        missing_key result_keys trust ≡ none
        → generate_receipt formats issued_at uuid session_id worker_id commitment "v1" trust
          ≡ ok (receipt_for commitment)
    unfolding generate_receipt
    generated e = rw (generate_receipt, e) refl

    refused :
        (lacking : String)
        → missing_key result_keys trust ≡ some lacking
        → generate_receipt formats issued_at uuid session_id worker_id commitment "v1" trust
          ≡ err lacking
    unfolding generate_receipt
    refused lacking e = rw (generate_receipt, e) refl

    receipt-IsComplete : missing_key required_keys (receipt_for commitment) ≡ none
    unfolding receipt_fields missing_key required_keys get_field string_eq
    receipt-IsComplete = refl

    row_of : IssuedRow F
    row_of = issued_row formats (strip_fields (receipt_for commitment))

    row_values :
        (row_of.audit_event_id ≡ formats.str (text uuid))
        × (row_of.session_id ≡ formats.str (text session_id))
        × (row_of.document_commitment ≡ text commitment)
        × (row_of.trust_outcome ≡ strip_audit_unsafe (value_at "outcome" trust))
    unfolding row_of receipt_fields strip_audit_unsafe is_unsafe_key audit_unsafe_keys get_field
        string_eq lower
    row_values = (refl, refl, refl, refl)

  settle_store-ok :
      (completion : Completion) (row : IssuedRow F)
      (p : Result StoreError (IssuedRow F) × AuditTables F)
      → p.0 ≡ ok row
      → settle_store completion p ≡ (ok completion, p.1)
  settle_store-ok completion row (ok r, tables) h = refl
  settle_store-ok completion row (err e, tables) h = ground arith

  module _ (commitment : String) (before : AuditTables F) where
    abbrev bundle : Result StoreError (IssuedRow F) × AuditTables F
    bundle = store_audit_bundle formats (receipt_for commitment) nonce before

    abbrev issuing : Result Raised Completion × AuditTables F
    issuing =
        issue formats documents issued_at verified_at uuid nonce session_id worker_id trust
          commitment before

    issue-refused :
        (lacking : String)
        → missing_key result_keys trust ≡ some lacking
        → issuing ≡ (err audit_store_failure, before)
    unfolding issue
    issue-refused lacking e = rw (issue, refused commitment lacking e) refl

    issue-stores :
        missing_key result_keys trust ≡ none
        → issuing
          ≡ settle_store
              (completion_of formats documents issued_at verified_at uuid nonce session_id worker_id
                trust commitment)
              bundle
    unfolding issue
    issue-stores e = rw (issue, generated commitment e) refl

    -- The bundle that is stored, read off the receipt, or refused by the flush.
    issue-IsStored :
        missing_key result_keys trust ≡ none
        → ((issuing.0
              ≡ ok (
                  completion_of formats documents issued_at verified_at uuid nonce session_id
                    worker_id trust commitment))
            × IsStored formats (receipt_for commitment) nonce before (row_of commitment) issuing.1)
          ⊎ ((takes_row formats (row_of commitment) before ≡ false)
              × (issuing ≡ (err audit_store_failure, before)))
    unfolding row_of
    issue-IsStored e =
        elim (store_audit_bundle-IsStored formats (receipt_for commitment) nonce before) [
          | inl (row, there, taken, answered, held) ↦
              let whole = issue-stores e ∙ settle_store-ok _ row bundle answered in
              inl (
                ap (λ (p : Result Raised Completion × AuditTables F). p.0) whole,
                subst
                    (λ (t : AuditTables F).
                      IsStored formats (receipt_for commitment) nonce before (row_of commitment) t)
                    (sym (ap (λ (p : Result Raised Completion × AuditTables F). p.1) whole))
                    (subst
                      (λ (r : IssuedRow F).
                        IsStored formats (receipt_for commitment) nonce before r bundle.1)
                      held.row_of_receipt held),
              )
          | inr (inl (lacking, lacks, _, _)) ↦
              absurd (none-ne-some lacking (sym (receipt-IsComplete commitment) ∙ lacks))
          | inr (inr (there, refused_row, raised)) ↦ inr (
            refused_row,
            issue-stores e
                ∙ ap
                    (λ (p : Result StoreError (IssuedRow F) × AuditTables F).
                      settle_store
                        (completion_of formats documents issued_at verified_at uuid nonce session_id
                          worker_id trust commitment)
                        p)
                    raised,
          )
        ]

  abbrev pub building : Sessions → AuditTables F → Result Raised Completion × AuditTables F
  building =
      build_completion_values formats documents issued_at verified_at uuid nonce session_id
        worker_id trust

  module _ (db : Sessions) (before : AuditTables F) where
    absent_document :
        document_path documents session_id db ≡ none
        → building db before ≡ (err document_missing, before)
    unfolding build_completion_values
    absent_document absent = rw (build_completion_values, absent) refl

    unread_document :
        (path : String)
        → document_path documents session_id db ≡ some path
        → documents.read_bytes path ≡ none
        → building db before ≡ (err audit_store_failure, before)
    unfolding build_completion_values issue_for
    unread_document path there unread =
        rw (build_completion_values, there) (rw (issue_for, unread) refl)

    read_document :
        (path content : String)
        → document_path documents session_id db ≡ some path
        → documents.read_bytes path ≡ some content
        → building db before
          ≡ issuing (generate_commitment documents content nonce "secuura-session") before
    unfolding build_completion_values issue_for
    read_document path content there read =
        rw (build_completion_values, there) (rw (issue_for, read) refl)

    document-IsIssued :
        (path content : String)
        → document_path documents session_id db ≡ some path
        → documents.read_bytes path ≡ some content
        → missing_key result_keys trust ≡ none
        → (issuing (generate_commitment documents content nonce "secuura-session") before).0
          ≡ ok (
              completion_of formats documents issued_at verified_at uuid nonce session_id worker_id
                trust
                (generate_commitment documents content nonce "secuura-session"))
        → IsStored formats
            (receipt_for (generate_commitment documents content nonce "secuura-session"))
            nonce
            before
            (row_of (generate_commitment documents content nonce "secuura-session"))
            (issuing (generate_commitment documents content nonce "secuura-session") before).1
        → (completion : Completion) × ((building db before).0 ≡ ok completion)
          × IsIssued db before completion (building db before).1
    document-IsIssued path content there read e answered held =
        let commitment = generate_commitment documents content nonce "secuura-session" in
        let (of_uuid, of_session, of_commitment, of_outcome) = row_values commitment in
        let same = sym (read_document path content there read) in
        (
          completion_of formats documents issued_at verified_at uuid nonce session_id worker_id
              trust commitment,
          ap (λ (p : Result Raised Completion × AuditTables F). p.0) (sym same) ∙ answered,
          record {
            path = path;
            content = content;
            row = row_of commitment;
            path_there = there;
            content_read = read;
            result_complete = e;
            committed = refl;
            names_receipt = of_uuid;
            names_session = of_session;
            row_commitment = of_commitment;
            row_outcome = of_outcome;
            stored =
                subst
                  (λ (p : Result Raised Completion × AuditTables F).
                    IsStored formats (receipt_for commitment) nonce before (row_of commitment) p.1)
                  same held;
          },
        )

  -- The row that the run's receipt makes of a document with this content.
  abbrev pub row_for : String → IssuedRow F
  row_for content =
      issued_row formats
        (strip_fields (receipt_for (generate_commitment documents content nonce "secuura-session")))

  -- A completion is built exactly if the document is there and can be read, the verdict has its
  -- outcome and its reason codes, and the flush takes the receipt's row; it then issues the receipt
  -- of the run. Otherwise the error says whether the document is missing or the receipt could not be
  -- made, and no row is added.
  pub build_completion_values-IsIssued :
      (db : Sessions) (before : AuditTables F)
      → ((completion : Completion) × ((building db before).0 ≡ ok completion)
          × IsIssued db before completion (building db before).1)
        ⊎ ((document_path documents session_id db ≡ none)
            × (building db before ≡ (err document_missing, before)))
        ⊎ ((path : String) × (document_path documents session_id db ≡ some path)
            × ((documents.read_bytes path ≡ none)
                ⊎ ((lacking : String) × (missing_key result_keys trust ≡ some lacking))
                ⊎ ((content : String) × (documents.read_bytes path ≡ some content)
                    × (takes_row formats (row_for content) before ≡ false)))
            × (building db before ≡ (err audit_store_failure, before)))
  unfolding row_of
  build_completion_values-IsIssued db before =
      elim (Option-cases (document_path documents session_id db)) [
        | inl absent ↦ inr (inl (absent, absent_document db before absent))
        | inr (path, there) ↦ elim (Option-cases (documents.read_bytes path)) [
          | inl unread ↦
              inr (inr (path, there, inl unread, unread_document db before path there unread))
          | inr (content, read) ↦
              let commitment = generate_commitment documents content nonce "secuura-session" in
              let reads = read_document db before path content there read in
              elim (Option-cases (missing_key result_keys trust)) [
                | inr (lacking, lacks) ↦ inr (
                    inr (
                      path,
                      there,
                      inr (inl (lacking, lacks)),
                      reads ∙ issue-refused commitment before lacking lacks,
                    ))
                | inl e ↦ elim (issue-IsStored commitment before e) [
                  | inl (answered, held) ↦
                      inl (document-IsIssued db before path content there read e answered held)
                  | inr (refused_row, raised) ↦
                      inr
                        (inr (path, there, inr (inr (content, read, refused_row)), reads ∙ raised))
                ]
              ]
        ]
      ]
