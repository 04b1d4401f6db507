-- ===== src/Base/Lists.antt =====
-- Lists as Python uses them: counting, searching, filtering, `dict.fromkeys`.
use Prim.Native.Nat.{ℕ, suc, ◌+◌}
use mathlib.Core.Path.{◌≡◌, refl}
use mathlib.Core.Bool.{Bool, true, false, not, ◌&&◌, ◌||◌}
use mathlib.Core.Option.{Option, none, some}
use mathlib.Core.List.{List, [], ◌∷◌, ◌++◌}
use native.Mathlib.Omega.{arith}
use verification_engine.Base.Equality.{Eq, contains, if◌then◌else◌}

module _ {ℓ} {A : Type ℓ} where
  abbrev pub length : List A → ℕ
  length [] = 0
  length (x ∷ xs) = suc (length xs)

  abbrev pub any : (A → Bool) → List A → Bool
  any p [] = false
  any p (x ∷ xs) = p x || any p xs

  abbrev pub all : (A → Bool) → List A → Bool
  all p [] = true
  all p (x ∷ xs) = p x && all p xs

  -- `sum(1 for x in xs if p(x))`
  abbrev pub count : (A → Bool) → List A → ℕ
  count p [] = 0
  count p (x ∷ xs) = (if p x then 1 else 0) + count p xs

  -- `[x for x in xs if p(x)]`
  abbrev pub select : (A → Bool) → List A → List A
  select p [] = []
  select p (x ∷ xs) = let rest = select p xs in if p x then x ∷ rest else rest

  -- `next((x for x in xs if p(x)), None)`
  abbrev pub first : (A → Bool) → List A → Option A
  first p [] = none
  first p (x ∷ xs) = if p x then some x else first p xs

  -- `bool(xs)`
  abbrev pub nonempty : List A → Bool
  nonempty [] = false
  nonempty (x ∷ xs) = true

  abbrev pub All {κ} : (A → Type κ) → List A → Type κ
  All P [] = Unit
  All P (x ∷ xs) = P x × All P xs

  pub All-append {κ} : (P : A → Type κ) (xs ys : List A) → All P xs → All P ys → All P (xs ++ ys)
  All-append P [] ys hx hy = hy
  All-append P (x ∷ xs) ys hx hy = (hx.0, All-append P xs ys hx.1 hy)

  pub count-zero : (p : A → Bool) (xs : List A) → count p xs ≡ 0 → All (λ x. p x ≡ false) xs
  count-zero p [] h = tt
  count-zero p (x ∷ xs) h = (ground arith, count-zero p xs (ground arith))

  pub count-append : (p : A → Bool) (xs ys : List A) → count p (xs ++ ys) ≡ count p xs + count p ys
  count-append p [] ys = omega arith
  count-append p (x ∷ xs) ys = omega (arith, count-append p xs ys)

  pub any-append : (p : A → Bool) (xs ys : List A) → any p (xs ++ ys) ≡ (any p xs || any p ys)
  any-append p [] ys = refl
  any-append p (x ∷ xs) ys = ground (arith, any-append p xs ys)

module _ {ℓ} {A : Type ℓ} ⦃e : Eq A⦄ where
  pub contains-append :
      (xs ys : List A) (a : A) → contains (xs ++ ys) a ≡ (contains xs a || contains ys a)
  contains-append [] ys a = refl
  contains-append (x ∷ xs) ys a = ground (arith, contains-append xs ys a)

  -- `list(dict.fromkeys(xs))` past the keys that are there already: first occurrences, in order.
  abbrev pub dedupe_from : List A → List A → List A
  dedupe_from seen [] = []
  dedupe_from seen (x ∷ xs) =
      let old = dedupe_from seen xs in
      let new = x ∷ dedupe_from (x ∷ seen) xs in if contains seen x then old else new

  unfoldable pub dedupe : List A → List A
  dedupe xs = dedupe_from [] xs

  pub contains-dedupe_from :
      (seen xs : List A) (a : A)
      → contains (dedupe_from seen xs) a ≡ (contains xs a && not (contains seen a))
  contains-dedupe_from seen [] a = refl
  contains-dedupe_from seen (x ∷ xs) a =
      ground (arith, contains-dedupe_from seen xs a, contains-dedupe_from (x ∷ seen) xs a)

  pub contains-dedupe : (xs : List A) (a : A) → contains (dedupe xs) a ≡ contains xs a
  unfolding dedupe
  contains-dedupe xs a = ground (arith, contains-dedupe_from [] xs a)

  abbrev pub IsDistinct : List A → Type 0
  IsDistinct [] = Unit
  IsDistinct (x ∷ xs) = (contains xs x ≡ false) × IsDistinct xs

  pub dedupe_from-IsDistinct : (seen xs : List A) → IsDistinct (dedupe_from seen xs)
  dedupe_from-IsDistinct seen [] = tt
  dedupe_from-IsDistinct seen (x ∷ xs) = ground (
    arith,
    dedupe_from-IsDistinct seen xs,
    dedupe_from-IsDistinct (x ∷ seen) xs,
    contains-dedupe_from (x ∷ seen) xs x,
  )

  pub dedupe-IsDistinct : (xs : List A) → IsDistinct (dedupe xs)
  unfolding dedupe
  dedupe-IsDistinct xs = dedupe_from-IsDistinct [] xs
