-- ===== src/Audit/Receipts/Summary.antt =====
-- audit/service.py, serialize_audit_summary: what is shown of a receipt.
use verification_engine.Audit.Receipts.{Codecs, Receipt, iso_or_none, or_empty_dict, text_or_null}
use verification_engine.Audit.Payloads.{assert_audit_safe_payload}
use verification_engine.Json.{Fields, Items, Json, dict, end, field, item, list, nil, text}
use verification_engine.Base.{
  List, Option, Result, String, [], bool_eq, nat_eq, option_eq, some, string_eq, ℕ, ◌∷◌,
}

module _ {F : Type 0} where
  abbrev pub texts : List String → Items F
  texts [] = nil
  texts (s ∷ rest) = item (text s) (texts rest)

  module _ (codecs : Codecs F) where
    -- `_serialize_dt`
    abbrev pub serialize_dt : Option ℕ → Json F
    serialize_dt value = text_or_null (iso_or_none codecs value)

    abbrev pub summary_tail : Receipt F → Option String → Fields F
    summary_tail r cleanup_status = field "issued_at" (serialize_dt (some r.issued_at)) (
        field "approved_at" (serialize_dt r.approved_at) (
          field "rejected_at" (serialize_dt r.rejected_at) (
            field "manual_review_at" (serialize_dt r.manual_review_at) (
              field "reviewer_note_hash" (text_or_null r.reviewer_note_hash) (
                field "receipt_hash" (text r.receipt_hash) (
                  field "signature" (text_or_null r.signature) (
                    field "hash_chain_prev" (text_or_null r.hash_chain_prev)
                      (field "cleanup_status" (text_or_null cleanup_status) end))))))))

    -- The dict of `serialize_audit_summary`, before it is made safe.
    unfoldable pub summary_of : Receipt F → Option String → Json F
    summary_of r cleanup_status = dict (
        field "audit_receipt_id" (text r.audit_event_id) (
          field "session_id" (text r.session_id) (
            field "document_commitment" (text r.document_commitment) (
              field "overall_outcome" (text r.trust_outcome) (
                field "reviewer_decision" (text_or_null r.reviewer_decision) (
                  field "finding_counts" (or_empty_dict r.finding_counts) (
                    field "reason_codes" (list (texts r.reason_codes)) (
                      field "connector_ids" (list (texts r.connector_ids))
                        (summary_tail r cleanup_status)))))))))

    unfoldable pub serialize_audit_summary : Receipt F → Option String → Result String (Json F)
    unfolding summary_of assert_audit_safe_payload
    serialize_audit_summary r cleanup_status =
        assert_audit_safe_payload (summary_of r cleanup_status)
