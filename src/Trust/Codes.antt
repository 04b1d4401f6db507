-- ===== src/Trust/Codes.antt =====
-- trust/findings.py: reason codes, identifiers and texts as they may be shown.
use Prim.Native.Char.{Char, code}
use verification_engine.Base.{
  All, Bool, List, Option, String, [], arith, bool_eq, dedupe, false, if◌then◌else◌, is_digit,
  is_letter, leb, nat_eq, none, not, occurs_in, option_eq, refl, replace_runs, select, some,
  string_eq, strip, strip_of, true, truthy, upper, ◌&&◌, ◌==◌, ◌||◌, ◌∷◌, ◌≡◌,
}

-- MANUAL_REVIEW_REASON_CODES
abbrev pub manual_review_reason_codes : List String
manual_review_reason_codes =
    "AI_ONLY_EVIDENCE" ∷ "ALL_PROVIDERS_FAILED" ∷ "LOW_CONFIDENCE_REVIEW_REQUIRED"
    ∷ "LOW_CONFIDENCE" ∷ "MANUAL_REVIEW_PROVIDER_SELECTED" ∷ "MANUAL_REVIEW_REQUIRED"
    ∷ "MISSING_CREDENTIAL_REFERENCE" ∷ "NO_EXECUTABLE_PROVIDER" ∷ "NO_PROVIDER_AVAILABLE"
    ∷ "NO_TASK_RESULT" ∷ "NO_VERIFIER_EVIDENCE" ∷ "PROVIDER_CAPABILITY_MISMATCH"
    ∷ "PROVIDER_RESULT_MALFORMED" ∷ "PROVIDER_NOT_REGISTERED" ∷ "PROVIDER_UNAVAILABLE"
    ∷ "REQUIRED_CLAIM_MISSING" ∷ "UNAVAILABLE_VERIFIER" ∷ "VERIFIER_NOT_REGISTERED" ∷ []

-- REASON_CODE_ALIASES
abbrev pub reason_code_aliases : List (String × String)
reason_code_aliases =
    ("CONNECTOR_MISMATCH", "PROVIDER_MISMATCH")
    ∷ ("CRITICAL_VERIFIER_MISMATCH", "PROVIDER_MISMATCH")
    ∷ ("FIELD_LEVEL_EVIDENCE_INSUFFICIENT", "NO_VERIFIER_EVIDENCE")
    ∷ ("LOW_CONFIDENCE_REVIEW_REQUIRED", "LOW_CONFIDENCE")
    ∷ ("MANUAL_REVIEW_RECOMMENDED", "MANUAL_REVIEW_REQUIRED")
    ∷ ("NO_CONNECTOR_EVIDENCE", "NO_VERIFIER_EVIDENCE")
    ∷ ("OPTIONAL_VERIFIER_UNAVAILABLE", "PROVIDER_UNAVAILABLE")
    ∷ ("PROVIDER_VERIFIED", "VERIFIED_BY_PROVIDER")
    ∷ ("REGISTRY_MATCH", "VERIFIED_BY_PROVIDER")
    ∷ ("REGISTRY_MATCHED", "VERIFIED_BY_PROVIDER")
    ∷ ("VERIFIER_EVIDENCE_MATCHED", "VERIFIED_BY_PROVIDER")
    ∷ ("VERIFIER_EXECUTION_FAILED", "PROVIDER_UNAVAILABLE")
    ∷ ("VERIFIER_MISMATCH", "PROVIDER_MISMATCH")
    ∷ []

-- `REASON_CODE_ALIASES.get(candidate, candidate)`
unfoldable pub resolve_alias : List (String × String) → String → String
resolve_alias [] candidate = candidate
resolve_alias ((from, to) ∷ rest) candidate =
    if from == candidate then to else resolve_alias rest candidate

-- The texts that must not be shown.
unfoldable pub is_sensitive : String → Bool
unfolding occurs_in
is_sensitive text =
    occurs_in "RAW_" text
    || occurs_in "SECRET" text
    || occurs_in "PRIVATE" text
    || occurs_in "GEMINI" text
    || occurs_in "PROVIDER_BODY" text

is_upper_or_digit : Char → Bool
unfolding is_digit
is_upper_or_digit c = leb b'A' (code c) && leb (code c) b'Z' || is_digit c

all_code_chars : String → Bool
unfolding is_upper_or_digit
all_code_chars String.[] = true
all_code_chars (String.◌∷◌ c s) = (is_upper_or_digit c || code c == b'_') && all_code_chars s

-- `REASON_CODE_RE.match(candidate)`: ^[A-Z][A-Z0-9_]*$
unfoldable pub is_reason_code : String → Bool
unfolding all_code_chars
is_reason_code String.[] = false
is_reason_code (String.◌∷◌ c s) = leb b'A' (code c) && leb (code c) b'Z' && all_code_chars s

checked_code : String → Option String
unfolding resolve_alias is_reason_code
checked_code candidate =
    let resolved = resolve_alias reason_code_aliases candidate in
    if truthy candidate && is_reason_code resolved then some resolved else none

-- `_normalize_reason_code` of a text
unfoldable pub normalize_reason_code : String → Option String
unfolding strip upper is_sensitive is_upper_or_digit replace_runs strip_of checked_code
normalize_reason_code value =
    let text = strip value in
    if truthy text && not (is_sensitive (upper text))
    then checked_code (strip_of b'_' (replace_runs is_upper_or_digit "_" false (upper text)))
    else none

abbrev keep_some : Option String → List String → List String
keep_some none codes = codes
keep_some (some c) codes = c ∷ codes

-- `_safe_reason_codes`
unfoldable pub safe_reason_codes : List String → List String
unfolding normalize_reason_code
safe_reason_codes [] = []
safe_reason_codes (value ∷ values) =
    keep_some (normalize_reason_code value) (safe_reason_codes values)

-- `_dedupe`: without empty texts, first occurrences in order
unfoldable pub dedupe_codes : List String → List String
unfolding dedupe
dedupe_codes values = dedupe (select truthy values)

-- `_safe_string`
unfoldable pub safe_string : Option String → Option String
unfolding strip
safe_string none = none
safe_string (some value) = if truthy (strip value) then some (strip value) else none

is_identifier_char : Char → Bool
unfolding is_letter is_digit
is_identifier_char c =
    is_letter c
    || is_digit c
    || code c == b'_'
    || code c == b'.'
    || code c == b':'
    || code c == b'-'

-- `_safe_identifier`
unfoldable pub safe_identifier : String → Option String
unfolding safe_string is_sensitive upper replace_runs is_identifier_char strip_of
safe_identifier value = elim (safe_string (some value)) [
  | none ↦ none
  | some text ↦
      if is_sensitive (upper text)
      then none
      else if truthy (strip_of b'-' (replace_runs is_identifier_char "-" false text))
      then some (strip_of b'-' (replace_runs is_identifier_char "-" false text))
      else none
]

normalize_reason_code-form :
    (value code : String) → normalize_reason_code value ≡ some code → is_reason_code code ≡ true
unfolding normalize_reason_code
normalize_reason_code-form value code h = ground arith

-- Every reason code that is let through has the documented form.
safe_reason_codes-form :
    (values : List String) → All (λ code. is_reason_code code ≡ true) (safe_reason_codes values)
unfolding safe_reason_codes
safe_reason_codes-form [] = tt
safe_reason_codes-form (value ∷ values) =
    kept (safe_reason_codes-form values) (normalize_reason_code value)
      (normalize_reason_code-form value)
  where
    kept :
        All (λ c. is_reason_code c ≡ true) (safe_reason_codes values)
        → (o : Option String) → ((c : String) → o ≡ some c → is_reason_code c ≡ true)
        → All (λ c. is_reason_code c ≡ true) (keep_some o (safe_reason_codes values))
    kept rest none h = rest
    kept rest (some c) h = (h c refl, rest)
