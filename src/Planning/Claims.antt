-- ===== src/Planning/Claims.antt =====
-- verifier_execution/registry.py: the verifier of a claim type and the providers that may answer.
pub mod Candidates
use Prim.Native.Char.{Char, code}
use Prim.Native.String.{char_at}
use verification_engine.Base.{
  List, Option, String, [], bool_eq, contains, get_key, if◌then◌else◌, is_digit, is_letter, lower,
  nat_eq, none, not, option_eq, or_empty, replace_char, select, some, string_eq, strip, truthy,
  upper, ◌&&◌, ◌++◌, ◌<>◌, ◌==◌, ◌||◌, ◌∷◌,
}
use verification_engine.Providers.Policy.{
  ProviderRuntimePolicy, demo_mock, external_configured, getenv_or, manual_only,
}
use verification_engine.Providers.Registry.{Provider, Registry, get_capabilities, key_of, supports}

-- CLAIM_TYPE_TO_VERIFIER
unfoldable pub claim_type_to_verifier : List (String × String)
claim_type_to_verifier =
    ("identity", "identity_db")
    ∷ ("person_name", "identity_db")
    ∷ ("document_identifier", "identity_db")
    ∷ ("document_id", "identity_db")
    ∷ ("identity_document", "identity_db")
    ∷ ("issuer_authenticity", "academic_registry")
    ∷ ("organization", "academic_registry")
    ∷ ("institution", "academic_registry")
    ∷ ("academic", "academic_registry")
    ∷ ("credential", "academic_registry")
    ∷ ("qualification", "academic_registry")
    ∷ ("academic_degree", "academic_registry")
    ∷ ("academic_credential", "academic_registry")
    ∷ ("date_validity", "certificate_registry")
    ∷ ("issue_date", "certificate_registry")
    ∷ ("expiry_date", "certificate_registry")
    ∷ ("certificate", "certificate_registry")
    ∷ ("certificate_document", "certificate_registry")
    ∷ ("address", "address_check")
    ∷ ("location", "address_check")
    ∷ ("passport", "passport_db")
    ∷ ("license", "license_registry")
    ∷ ("financial", "financial_registry")
    ∷ ("monetary_amount", "financial_registry")
    ∷ ("amount", "financial_registry")
    ∷ ("tax", "tax_authority")
    ∷ ("status", "manual_review")
    ∷ ("result", "manual_review")
    ∷ ("eligibility", "manual_review")
    ∷ []

-- CLAIM_TYPE_TO_CATEGORY
unfoldable pub claim_type_to_category : List (String × String)
claim_type_to_category =
    ("academic_degree", "academic")
    ∷ ("academic_credential", "academic")
    ∷ ("credential", "academic")
    ∷ ("qualification", "academic")
    ∷ ("certificate_document", "certificate")
    ∷ ("identity_document", "identity")
    ∷ ("person_name", "identity")
    ∷ ("document_identifier", "identity")
    ∷ ("document_id", "identity")
    ∷ ("issuer_authenticity", "academic")
    ∷ ("organization", "academic")
    ∷ ("institution", "academic")
    ∷ ("date_validity", "certificate")
    ∷ ("issue_date", "certificate")
    ∷ ("expiry_date", "certificate")
    ∷ ("location", "address")
    ∷ ("monetary_amount", "financial")
    ∷ ("amount", "financial")
    ∷ []

-- The aliases in `_canonical_claim_type`
unfoldable pub claim_type_aliases : List (String × String)
claim_type_aliases =
    ("name", "person_name")
    ∷ ("id", "document_identifier")
    ∷ ("issuer", "issuer_authenticity")
    ∷ ("credential_title", "credential")
    ∷ ("degree", "credential")
    ∷ ("date", "date_validity")
    ∷ ("address_location", "address")
    ∷ ("money", "monetary_amount")
    ∷ []

abbrev underscore : Char
underscore = char_at "_" 0

-- `s.replace("-", "_").replace(" ", "_")`
joined_words : String → String
unfolding replace_char
joined_words s = replace_char b' ' "_" (replace_char b'-' "_" s)

-- `d.get(key, default)`
unfoldable pub get_or : String → String → List (String × String) → String
unfolding get_key
get_or key default table = getenv_or (get_key key table) default

-- `_canonical_claim_type`
unfoldable pub canonical_claim_type : String → String
unfolding joined_words get_or claim_type_aliases
canonical_claim_type claim_type =
    let normalized = joined_words (lower (strip claim_type)) in
    get_or normalized normalized claim_type_aliases

-- `verifier_key_for_claim_type`
unfoldable pub verifier_key_for_claim_type : String → String
unfolding canonical_claim_type get_or claim_type_to_verifier
verifier_key_for_claim_type claim_type =
    get_or (canonical_claim_type claim_type) "manual_review" claim_type_to_verifier

-- `_category_for_claim_type`, with the category of the context, if there is one
unfoldable pub category_for_claim_type : String → Option String → String
unfolding canonical_claim_type get_or claim_type_to_category
category_for_claim_type claim_type explicit =
    let given = lower (strip (or_empty explicit)) in
    let normalized = canonical_claim_type claim_type in
    let default = if truthy normalized then normalized else "unknown" in
    if truthy given then given else get_or normalized default claim_type_to_category

-- `_preferred_provider_for_assurance`
unfoldable pub preferred_provider_for_assurance :
    (assurance_required verifier_key : String) → Option String
preferred_provider_for_assurance assurance_required verifier_key =
    if contains ("identity_db" ∷ "academic_registry" ∷ "certificate_registry" ∷ []) verifier_key
    then some "entra_verified_id"
    else if upper assurance_required == "HIGH"
    then some "entra_verified_id"
    else none

token_chars : String → String
token_chars String.[] = String.[]
token_chars (String.◌∷◌ c s) =
    String.◌∷◌ (if is_letter c || is_digit c then c else underscore) (token_chars s)

drop_left : String → String
drop_left String.[] = String.[]
drop_left (String.◌∷◌ c s) =
    let rest = drop_left s in if code c == code underscore then rest else String.◌∷◌ c s

drop_right : String → String
drop_right String.[] = String.[]
drop_right (String.◌∷◌ c s) =
    let rest = drop_right s in
    if code c == code underscore && not (truthy rest) then String.[] else String.◌∷◌ c rest

-- `_reason_token`, on ASCII texts
unfoldable pub reason_token : String → String
unfolding token_chars drop_left drop_right is_letter is_digit
reason_token value =
    let token = drop_right (drop_left (token_chars (upper value))) in
    if truthy token then token else "UNKNOWN"

pub record ProviderCandidate : Type 0 where
  pub provider_key : String
  pub provider_label : String
  pub verifier_key : String
  pub reason_codes : List String
  pub fallback_reason : Option String

-- The candidate for manual review, with the label of the registered verifier
unfoldable pub manual_candidate : Option String → (code reason : String) → ProviderCandidate
manual_candidate manual_label code reason = record {
  provider_key = "manual_review";
  provider_label = getenv_or manual_label "Manual Review";
  verifier_key = "manual_review";
  reason_codes = code ∷ "MANUAL_REVIEW_FALLBACK" ∷ [];
  fallback_reason = some reason;
}

unfoldable pub candidate_of :
    (claim_type verifier_key category : String) → Provider → ProviderCandidate
unfolding get_capabilities reason_token
candidate_of claim_type verifier_key category provider =
    let capability = get_capabilities provider in
    let local = capability.provider_key == "local_mock" in
    let mode = capability.operating_mode in
    record {
      provider_key = capability.provider_key;
      provider_label = capability.provider_label;
      verifier_key = verifier_key;
      reason_codes =
          (("CLAIM_TYPE_" <> reason_token claim_type)
            ∷ ("PROVIDER_SUPPORTS_" <> reason_token category)
            ∷ [])
          ++ (if local
              then "SAFE_LOCAL_FALLBACK_CANDIDATE" ∷ []
              else if mode == external_configured
              then "EXTERNAL_PROVIDER_CONFIGURED" ∷ []
              else []);
      fallback_reason =
          if local
          then some
              (if mode == demo_mock then "LOCAL_DEMO_VERIFICATION" else "LIVE_PROVIDER_DISABLED")
          else none;
    }

-- `registry.get` of each key in its dict is the provider under that key.
abbrev pub providers_of : Registry → List Provider
providers_of [] = []
providers_of (e ∷ rest) = e.1 ∷ providers_of rest

-- `sorted` by 0 for the preferred key and by 1 for the others, which is stable
abbrev pub preferred_first : Option String → List Provider → List Provider
preferred_first none providers = providers
preferred_first (some key) providers =
    select (λ p. key_of p == key) providers ++ select (λ p. not (key_of p == key)) providers

abbrev pub candidates_from :
    (claim_type verifier_key category : String) → List Provider → List ProviderCandidate
candidates_from claim_type verifier_key category [] = []
candidates_from claim_type verifier_key category (p ∷ ps) =
    let rest = candidates_from claim_type verifier_key category ps in
    if supports verifier_key category p
    then candidate_of claim_type verifier_key category p ∷ rest
    else rest

abbrev pub or_manual : Option String → List ProviderCandidate → List ProviderCandidate
or_manual manual_label [] =
    manual_candidate manual_label "NO_PROVIDER_AVAILABLE" "NO_EXECUTABLE_PROVIDER" ∷ []
or_manual manual_label (c ∷ cs) = c ∷ cs

-- `get_provider_candidates`, with the registry and the policy that it loads
unfoldable pub get_provider_candidates :
    Registry
    → ProviderRuntimePolicy
    → Option String
    → (claim_type assurance_required : String) → Option String
    → List ProviderCandidate
unfolding canonical_claim_type verifier_key_for_claim_type category_for_claim_type
    preferred_provider_for_assurance manual_candidate candidate_of supports
get_provider_candidates registry policy manual_label claim_type assurance_required explicit =
    let normalized = canonical_claim_type claim_type in
    let verifier_key = verifier_key_for_claim_type normalized in
    let category = category_for_claim_type normalized explicit in
    let preferred = preferred_provider_for_assurance assurance_required verifier_key in
    if policy.transition_config.provider_operating_mode == manual_only
    then manual_candidate manual_label "MANUAL_REVIEW_ONLY" "MANUAL_REVIEW_ONLY" ∷ []
    else or_manual manual_label (
        if verifier_key == "manual_review"
        then []
        else candidates_from normalized verifier_key category
            (preferred_first preferred (providers_of registry)))
