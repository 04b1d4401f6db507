-- ===== src/Audit/Payloads/Safe.antt =====
-- audit/service.py: stripping a payload always makes it safe, and leaves a safe one as it is.
use mathlib.Core.Path.{subst}
use verification_engine.Base.{
  ap, arith, bool_eq, nat_eq, none, ok, option_eq, refl, string_eq, ◌↔◌, ◌≡◌,
}
use verification_engine.Json.{
  Fields, Items, Json, bytes, dict, end, field, flag, item, list, nil, null, number, text,
}
use verification_engine.Audit.Payloads.{
  assert_audit_safe_payload, find_in_fields, find_in_items, find_unsafe_key, strip_audit_unsafe,
  strip_fields, strip_items,
}

mutual
  unfolding strip_audit_unsafe find_unsafe_key

  strip_safe : {F : Type 0} (x : Json F) → find_unsafe_key (strip_audit_unsafe x) ≡ none
  strip_safe null = refl
  strip_safe (flag b) = refl
  strip_safe (number n) = refl
  strip_safe (text s) = refl
  strip_safe bytes = refl
  strip_safe (list items) = strip_items_safe items
  strip_safe (dict fields) = strip_fields_safe fields

  strip_items_safe : {F : Type 0} (xs : Items F) → find_in_items (strip_items xs) ≡ none
  strip_items_safe nil = refl
  strip_items_safe (item x rest) = ground (arith, strip_safe x, strip_items_safe rest)

  strip_fields_safe : {F : Type 0} (xs : Fields F) → find_in_fields (strip_fields xs) ≡ none
  strip_fields_safe end = refl
  strip_fields_safe (field key value rest) =
      ground (arith, strip_safe value, strip_fields_safe rest)

mutual
  unfolding strip_audit_unsafe find_unsafe_key

  strip_same : {F : Type 0} (x : Json F) → find_unsafe_key x ≡ none → strip_audit_unsafe x ≡ x
  strip_same null h = refl
  strip_same (flag b) h = refl
  strip_same (number n) h = refl
  strip_same (text s) h = refl
  strip_same bytes h = refl
  strip_same (list items) h = ap list (strip_items_same items h)
  strip_same (dict fields) h = ap dict (strip_fields_same fields h)

  strip_items_same : {F : Type 0} (xs : Items F) → find_in_items xs ≡ none → strip_items xs ≡ xs
  strip_items_same nil h = refl
  strip_items_same (item x rest) h = ground (arith, strip_same x, strip_items_same rest, h)

  strip_fields_same : {F : Type 0} (xs : Fields F) → find_in_fields xs ≡ none → strip_fields xs ≡ xs
  strip_fields_same end h = refl
  strip_fields_same (field key value rest) h =
      ground (arith, strip_same value, strip_fields_same rest, h)

-- Whatever a payload holds, at whatever depth, `assert_audit_safe_payload` does not raise: it gives
-- the stripped payload, in which no unsafe key is left. Stripping leaves a payload as it is exactly
-- if it holds no unsafe key, and so stripping twice is stripping once.
pub assert_audit_safe_payload-ok :
    {F : Type 0} (payload : Json F)
    → (assert_audit_safe_payload payload ≡ ok (strip_audit_unsafe payload))
      × (find_unsafe_key (strip_audit_unsafe payload) ≡ none)
      × ((find_unsafe_key payload ≡ none) ↔ (strip_audit_unsafe payload ≡ payload))
      × (strip_audit_unsafe (strip_audit_unsafe payload) ≡ strip_audit_unsafe payload)
unfolding assert_audit_safe_payload
assert_audit_safe_payload-ok payload = (
  ground (arith, strip_safe payload),
  strip_safe payload,
  (strip_same payload, λ e. subst (λ x. find_unsafe_key x ≡ none) e (strip_safe payload)),
  strip_same (strip_audit_unsafe payload) (strip_safe payload),
)
