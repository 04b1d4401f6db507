-- ===== src/Providers/Minimize.antt =====
-- verifier_providers/policies.py, minimize_payload: what is cut from a payload before it is sent.
pub mod Bounds
use verification_engine.Base.{
  Bool, List, String, [], bool_eq, contains, false, if◌then◌else◌, lower, ltb, nat_eq, not,
  option_eq, string_eq, strip, suc, text_length, text_take, true, zero, ℕ, ◌&&◌, ◌<>◌, ◌==◌, ◌||◌,
  ◌∷◌,
}
use verification_engine.Json.{
  Fields, Items, Json, bytes, dict, end, field, flag, item, list, nil, null, number, text,
}

-- SENSITIVE_KEYS
unfoldable pub sensitive_keys : List String
sensitive_keys =
    "api_key" ∷ "authorization" ∷ "document" ∷ "document_blob" ∷ "document_bytes"
    ∷ "document_content" ∷ "document_text" ∷ "file" ∷ "file_bytes" ∷ "file_content"
    ∷ "full_document" ∷ "full_text" ∷ "raw_document" ∷ "raw_pdf" ∷ "raw_text" ∷ "source_text" ∷ []

unfoldable pub is_sensitive_key : String → Bool
is_sensitive_key key = contains sensitive_keys (lower key)

-- The value under a key, with whether anything was redacted in it.
abbrev pub unless_sensitive : {F : Type 0} → Bool → Json F × Bool → Json F × Bool
unless_sensitive true walked = (text "[redacted]", true)
unless_sensitive false walked = walked

-- `result == "[omitted]"`
abbrev pub is_omitted : {F : Type 0} → Json F → Bool
is_omitted null = false
is_omitted (flag b) = false
is_omitted (number n) = false
is_omitted (text s) = s == "[omitted]"
is_omitted bytes = false
is_omitted (list items) = false
is_omitted (dict fields) = false

abbrev pub keep_result : {F : Type 0} → String → Json F × Bool → Fields F × Bool → Fields F × Bool
keep_result key (result, redacted) (rest, later) =
    (if is_omitted result then rest else field key result rest, redacted || later)

abbrev pub and_items : {F : Type 0} → Json F × Bool → Items F × Bool → Items F × Bool
and_items (result, redacted) (rest, later) = (item result rest, redacted || later)

abbrev pub as_list : {F : Type 0} → Items F × Bool → Json F × Bool
as_list (items, redacted) = (list items, redacted)

abbrev pub as_dict : {F : Type 0} → Fields F × Bool → Json F × Bool
as_dict (fields, redacted) = (dict fields, redacted)

module _ (allow_document_upload : Bool) (max_string_chars : ℕ) where
  unfoldable pub cut_text : {F : Type 0} → String → Json F × Bool
  cut_text s =
      if not allow_document_upload && ltb max_string_chars (text_length s)
      then (text (text_take max_string_chars s <> "...[truncated]"), true)
      else (text s, false)

  -- `_walk`, with the items of a list that are still to be kept
  unfoldable mutual
    unfolding cut_text is_sensitive_key

    pub walk : {F : Type 0} → String → Json F → Json F × Bool
    walk key null =
        unless_sensitive (is_sensitive_key key && not allow_document_upload) (null, false)
    walk key (flag b) =
        unless_sensitive (is_sensitive_key key && not allow_document_upload) (flag b, false)
    walk key (number n) =
        unless_sensitive (is_sensitive_key key && not allow_document_upload) (number n, false)
    walk key (text s) =
        unless_sensitive (is_sensitive_key key && not allow_document_upload) (cut_text (strip s))
    walk key bytes =
        unless_sensitive (is_sensitive_key key && not allow_document_upload)
          (text "[redacted-bytes]", true)
    walk key (list items) =
        unless_sensitive (is_sensitive_key key && not allow_document_upload)
          (as_list (walk_items 10 key items))
    walk key (dict fields) =
        unless_sensitive (is_sensitive_key key && not allow_document_upload)
          (as_dict (walk_fields fields))

    pub walk_items : {F : Type 0} → ℕ → String → Items F → Items F × Bool
    walk_items left key nil = (nil, false)
    walk_items zero key (item x rest) = (nil, false)
    walk_items (suc left) key (item x rest) = and_items (walk key x) (walk_items left key rest)

    pub walk_fields : {F : Type 0} → Fields F → Fields F × Bool
    walk_fields end = (end, false)
    walk_fields (field key value rest) = keep_result key (walk key value) (walk_fields rest)

  -- `minimize_payload` of a dict; None is the dict with no entry
  unfoldable pub minimize_payload : {F : Type 0} → Fields F → Json F × Bool
  unfolding walk
  minimize_payload payload = walk "" (dict payload)
