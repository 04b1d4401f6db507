-- ===== src/Providers/Minimize/Bounds.antt =====
-- verifier_providers/policies.py: how much a minimised payload can hold where no document may be
-- uploaded.
use verification_engine.Base.{
  Bool, String, arith, bool_eq, false, if_either, inl, inr, ltb, nat_eq, not, option_eq, refl,
  string_eq, strip, suc, text_length, text_length-append, text_length-take, text_take, true, zero,
  ℕ, ◌&&◌, ◌+◌, ◌<>◌, ◌≡◌, ◌≤◌, ◌⊎◌,
}
use verification_engine.Json.{
  Fields, Items, Json, bytes, dict, end, field, flag, item, list, nil, null, number, text,
}
use verification_engine.Providers.Minimize.{
  as_dict, as_list, cut_text, is_omitted, is_sensitive_key, keep_result, minimize_payload,
  unless_sensitive, walk, walk_fields, walk_items,
}

abbrev pub number_of_items : {F : Type 0} → Items F → ℕ
number_of_items nil = 0
number_of_items (item x rest) = suc (number_of_items rest)

-- No bytes; no text longer than the limit and its mark; no list of more than ten values; under a
-- sensitive key only the mark, and no entry that is the text "[omitted]".
unfoldable mutual
  pub IsMinimal : {F : Type 0} → ℕ → Json F → Type 0
  IsMinimal limit null = Unit
  IsMinimal limit (flag b) = Unit
  IsMinimal limit (number n) = Unit
  IsMinimal limit (text s) = text_length s ≤ limit + 14
  IsMinimal limit bytes = ⊥
  IsMinimal limit (list items) = (number_of_items items ≤ 10) × AreMinimal limit items
  IsMinimal limit (dict fields) = HasMinimalFields limit fields

  pub AreMinimal : {F : Type 0} → ℕ → Items F → Type 0
  AreMinimal limit nil = Unit
  AreMinimal limit (item x rest) = IsMinimal limit x × AreMinimal limit rest

  pub HasMinimalFields : {F : Type 0} → ℕ → Fields F → Type 0
  HasMinimalFields limit end = Unit
  HasMinimalFields limit (field key value rest) =
      IsMinimal limit value
      × ((is_sensitive_key key ≡ false) ⊎ (value ≡ text "[redacted]"))
      × (is_omitted value ≡ false)
      × HasMinimalFields limit rest

redacted_length :
    (text_length "[redacted]" ≡ 10)
    × (text_length "[redacted-bytes]" ≡ 16)
    × (text_length "...[truncated]" ≡ 14)
unfolding text_length
redacted_length = (refl, refl, refl)

module _ {F : Type 0} (limit : ℕ) (big : 2 ≤ limit) where
  -- What holds of a walk under a key.
  abbrev Fits : String → Json F × Bool → Type 0
  Fits key (x, redacted) =
      IsMinimal limit x × ((is_sensitive_key key ≡ false) ⊎ (x ≡ text "[redacted]"))

  fits_of :
      (b : Bool) (walked : Json F × Bool)
      → IsMinimal limit walked.0
      → IsMinimal limit (unless_sensitive (b && not false) walked).0
        × ((b ≡ false) ⊎ ((unless_sensitive (b && not false) walked).0 ≡ text "[redacted]"))
  unfolding IsMinimal
  fits_of true walked h = (omega (arith, redacted_length.0, big), inr refl)
  fits_of false walked h = (h, inl refl)

  unless-Fits :
      (key : String) (walked : Json F × Bool)
      → IsMinimal limit walked.0
      → Fits key (unless_sensitive (is_sensitive_key key && not false) walked)
  unless-Fits key walked h = fits_of (is_sensitive_key key) walked h

abbrev cut : {F : Type 0} → ℕ → String → Json F × Bool
cut limit s = cut_text false limit s

cut-IsMinimal : (F : Type 0) (limit : ℕ) (s : String) → IsMinimal {F = F} limit (cut limit s).0
unfolding IsMinimal cut_text
cut-IsMinimal F limit s =
    if_either (λ (w : Json F × Bool). IsMinimal limit w.0) (not false && ltb limit (text_length s))
      (text (text_take limit s <> "...[truncated]"), true) (text s, false)
      (λ long. omega (
        arith,
        text_length-append (text_take limit s) "...[truncated]",
        text_length-take limit s,
        redacted_length.2,
      ))
      (λ short. ground arith)

keep_minimal :
    {F : Type 0} (limit : ℕ) (big : 2 ≤ limit) (key : String) (x : Json F × Bool)
    (rest : Fields F × Bool)
    → Fits limit big key x
    → HasMinimalFields limit rest.0
    → HasMinimalFields limit (keep_result key x rest).0
unfolding IsMinimal
keep_minimal limit big key x rest (minimal, marked) h =
    if_either (HasMinimalFields limit) (is_omitted x.0) rest.0 (field key x.0 rest.0) (λ _. h)
      (λ kept. (minimal, marked, kept, h))

mutual
  unfolding walk IsMinimal

  walk-Fits :
      {F : Type 0} (limit : ℕ) (big : 2 ≤ limit) (key : String) (x : Json F)
      → Fits limit big key (walk false limit key x)
  walk-Fits limit big key null = unless-Fits limit big key (null, false) tt
  walk-Fits limit big key (flag b) = unless-Fits limit big key (flag b, false) tt
  walk-Fits limit big key (number n) = unless-Fits limit big key (number n, false) tt
  walk-Fits limit big key (text s) =
      unless-Fits limit big key (cut_text false limit (strip s)) (cut-IsMinimal _ limit (strip s))
  walk-Fits limit big key bytes =
      unless-Fits limit big key (text "[redacted-bytes]", true)
        (omega (arith, redacted_length.1, big))
  walk-Fits limit big key (list items) =
      unless-Fits limit big key (as_list (walk_items false limit 10 key items))
        (items-minimal limit big 10 key items)
  walk-Fits limit big key (dict fields) =
      unless-Fits limit big key (as_dict (walk_fields false limit fields))
        (fields-minimal limit big fields)

  items-minimal :
      {F : Type 0} (limit : ℕ) (big : 2 ≤ limit) (left : ℕ) (key : String) (items : Items F)
      → (number_of_items (walk_items false limit left key items).0 ≤ left)
        × AreMinimal limit (walk_items false limit left key items).0
  items-minimal limit big left key nil = (omega arith, tt)
  items-minimal limit big zero key (item x rest) = (omega arith, tt)
  items-minimal limit big (suc left) key (item x rest) =
      let (few, minimal) = items-minimal limit big left key rest in
      (omega (arith, few), ((walk-Fits limit big key x).0, minimal))

  fields-minimal :
      {F : Type 0} (limit : ℕ) (big : 2 ≤ limit) (fields : Fields F)
      → HasMinimalFields limit (walk_fields false limit fields).0
  fields-minimal limit big end = tt
  fields-minimal limit big (field key value rest) =
      keep_minimal limit big key (walk false limit key value) (walk_fields false limit rest)
        (walk-Fits limit big key value) (fields-minimal limit big rest)

-- Where documents may not be uploaded and the limit is at least two characters: whatever the
-- payload holds, at whatever depth, the minimised payload holds no bytes, no text that is longer
-- than the limit and the fourteen characters of its mark, no list of more than ten values, no entry
-- that is the text "[omitted]", and under a sensitive key only the mark "[redacted]".
pub minimize_payload-IsMinimal :
    {F : Type 0} (limit : ℕ) (payload : Fields F)
    → 2 ≤ limit
    → IsMinimal limit (minimize_payload false limit payload).0
unfolding minimize_payload
minimize_payload-IsMinimal limit payload big = (walk-Fits limit big "" (dict payload)).0
