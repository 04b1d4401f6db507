-- ===== src/Audit/Payloads.antt =====
-- audit/service.py, assert_audit_safe_payload: what may be stored in the audit tables.
pub mod Safe
use verification_engine.Base.{
  Bool, List, Option, Result, String, [], bool_eq, contains, err, false, if◌then◌else◌, lower,
  nat_eq, none, ok, option_eq, some, string_eq, true, ◌∷◌,
}
use verification_engine.Json.{
  Fields, Items, Json, bytes, dict, end, field, flag, item, list, nil, null, number, text,
}

-- AUDIT_UNSAFE_KEYS
unfoldable pub audit_unsafe_keys : List String
audit_unsafe_keys =
    "raw_text" ∷ "raw_ocr" ∷ "raw_ocr_text" ∷ "raw_pdf" ∷ "raw_pdf_text" ∷ "gemini_response"
    ∷ "gemini_raw_response" ∷ "full_gemini_response" ∷ "prompt" ∷ "full_prompt" ∷ "response_body"
    ∷ "request_body" ∷ "reviewer_note" ∷ "raw_reviewer_note" ∷ "raw_value" ∷ "normalized_value"
    ∷ "verifier_raw_evidence" ∷ "raw_provider_body" ∷ "raw_response" ∷ []

unfoldable pub is_unsafe_key : String → Bool
is_unsafe_key key = contains audit_unsafe_keys (lower key)

abbrev pub keep_field : {F : Type 0} → Bool → String → Json F → Fields F → Fields F
keep_field true key value rest = rest
keep_field false key value rest = field key value rest

-- `_strip_audit_unsafe`
unfoldable mutual
  pub strip_audit_unsafe : {F : Type 0} → Json F → Json F
  strip_audit_unsafe null = null
  strip_audit_unsafe (flag b) = flag b
  strip_audit_unsafe (number n) = number n
  strip_audit_unsafe (text s) = text s
  strip_audit_unsafe bytes = bytes
  strip_audit_unsafe (list items) = list (strip_items items)
  strip_audit_unsafe (dict fields) = dict (strip_fields fields)

  pub strip_items : {F : Type 0} → Items F → Items F
  strip_items nil = nil
  strip_items (item x rest) = item (strip_audit_unsafe x) (strip_items rest)

  pub strip_fields : {F : Type 0} → Fields F → Fields F
  strip_fields end = end
  strip_fields (field key value rest) =
      keep_field (is_unsafe_key key) key (strip_audit_unsafe value) (strip_fields rest)

abbrev pub first_match : Option String → Option String → Option String
first_match none other = other
first_match (some key) other = some key

-- `_find_unsafe_key`; a key that is found is never the empty text.
unfoldable mutual
  pub find_unsafe_key : {F : Type 0} → Json F → Option String
  find_unsafe_key null = none
  find_unsafe_key (flag b) = none
  find_unsafe_key (number n) = none
  find_unsafe_key (text s) = none
  find_unsafe_key bytes = none
  find_unsafe_key (list items) = find_in_items items
  find_unsafe_key (dict fields) = find_in_fields fields

  pub find_in_items : {F : Type 0} → Items F → Option String
  find_in_items nil = none
  find_in_items (item x rest) = first_match (find_unsafe_key x) (find_in_items rest)

  pub find_in_fields : {F : Type 0} → Fields F → Option String
  find_in_fields end = none
  find_in_fields (field key value rest) =
      if is_unsafe_key key
      then some (lower key)
      else first_match (find_unsafe_key value) (find_in_fields rest)

-- `assert_audit_safe_payload`, with the key that the ValueError names
unfoldable pub assert_audit_safe_payload : {F : Type 0} → Json F → Result String (Json F)
assert_audit_safe_payload payload = elim (find_unsafe_key (strip_audit_unsafe payload)) [
  | none ↦ ok (strip_audit_unsafe payload)
  | some key ↦ err key
]
