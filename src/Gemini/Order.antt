-- ===== src/Gemini/Order.antt =====
-- gemini_pool.py, _key_order: the order in which an invocation is to try the configured keys.

use Prim.Native.Nat.{◌%◌}
use mathlib.Core.Bool.{false≢true}
use verification_engine.Base.{
  Bool, Bool-cases, List, Option, Result, String, [], arith, bool_eq, count, count-append, err,
  false, first, if_either, if◌then◌else◌, inl, inr, leb, length, nat_eq, none, not, ok, option_eq,
  refl, select, some, string_eq, suc, sym, true, zero, ℕ, ◌++◌, ◌+◌, ◌==◌, ◌||◌, ◌∙◌, ◌∷◌, ◌≡◌,
}
use verification_engine.Gemini.{
  Environment, KeyEntry, Pool, PoolError, configuration, drop, is_primary, is_round_robin,
  is_secondary, key_order, preferred_first, rotate_valid, rotated, stage_preferred_key_order, take,
}
use verification_engine.Gemini.Rotation.{IsRotation, advance, rotated-IsRotation, rotation}

module _ (p : KeyEntry → Bool) where
  count-preferred_first :
      (q : KeyEntry → Bool) (entries : List KeyEntry)
      → count p (select q entries) + count p (select (λ e. not (q e)) entries) ≡ count p entries
  count-preferred_first q [] = refl
  count-preferred_first q (e ∷ entries) = ground (arith, count-preferred_first q entries)

  count-drop-take :
      (n : ℕ) (entries : List KeyEntry)
      → count p (drop n entries) + count p (take n entries) ≡ count p entries
  count-drop-take zero entries = omega arith
  count-drop-take (suc n) [] = refl
  count-drop-take (suc n) (e ∷ entries) = omega (arith, count-drop-take n entries)

  count-ordered :
      (q : KeyEntry → Bool) (entries : List KeyEntry)
      → count p (preferred_first q entries) ≡ count p entries
  count-ordered q entries =
      count-append p (select q entries) (select (λ e. not (q e)) entries)
      ∙ count-preferred_first q entries

abbrev pub is_supported : Option String → Bool
is_supported none = true
is_supported (some slot) = slot == "primary" || slot == "secondary"

-- An order of the entries, or the refusal of a preferred key of another name.
abbrev pub IsPermuted : Option String → List KeyEntry → Result PoolError (List KeyEntry) → Type 0
IsPermuted preferred entries (ok order) = (p : KeyEntry → Bool) → count p order ≡ count p entries
IsPermuted preferred entries (err e) = (e ≡ configuration) × (is_supported preferred ≡ false)

stage_preferred_key_order-IsPermuted :
    (preferred : Option String) (entries : List KeyEntry)
    → IsPermuted preferred entries (stage_preferred_key_order preferred entries)
unfolding stage_preferred_key_order
stage_preferred_key_order-IsPermuted preferred [] = λ p. refl
stage_preferred_key_order-IsPermuted none (e ∷ entries) =
    λ p. count-ordered p is_primary (e ∷ entries)
stage_preferred_key_order-IsPermuted (some slot) (e ∷ entries) =
    if_either (IsPermuted (some slot) (e ∷ entries)) (slot == "primary") _ _
      (λ h p. count-ordered p is_primary (e ∷ entries))
      (λ h.
        if_either (IsPermuted (some slot) (e ∷ entries)) (slot == "secondary") _ _
          (λ g p. count-ordered p is_secondary (e ∷ entries)) (λ g. (refl, ground arith)))

rotated-IsPermuted :
    (preferred : Option String) (entries : List KeyEntry) (pool : Pool)
    → IsPermuted preferred entries (ok (rotated entries pool).0)
unfolding rotated
rotated-IsPermuted preferred entries pool p =
    if_either (λ (r : List KeyEntry × Pool). count p r.0 ≡ count p entries) (leb (length entries) 1)
      _ _ (λ h. refl)
      (λ h.
        count-append p (drop (pool.rotation_index % length entries) entries)
          (take (pool.rotation_index % length entries) entries)
        ∙ count-drop-take p (pool.rotation_index % length entries) entries)

rotate_valid-IsPermuted :
    (preferred : Option String) (r : Result PoolError (List KeyEntry)) (entries : List KeyEntry)
    (pool : Pool)
    → IsPermuted preferred entries r
    → IsPermuted preferred entries (rotate_valid r entries pool).0
rotate_valid-IsPermuted preferred (err e) entries pool h = h
rotate_valid-IsPermuted preferred (ok order) entries pool h =
    rotated-IsPermuted preferred entries pool

pub key_order-IsPermuted :
    (env : Environment) (preferred : Option String) (entries : List KeyEntry) (pool : Pool)
    → IsPermuted preferred entries (key_order env preferred entries pool).0
unfolding key_order
key_order-IsPermuted env preferred entries pool =
    if_either (λ (r : Result PoolError (List KeyEntry) × Pool). IsPermuted preferred entries r.0)
      (is_round_robin env) _ _
      (λ h.
        rotate_valid-IsPermuted preferred (stage_preferred_key_order preferred entries) entries pool
          (stage_preferred_key_order-IsPermuted preferred entries))
      (λ h. stage_preferred_key_order-IsPermuted preferred entries)

-- The entries of the preferred slot, which is the primary one if none is asked for.
abbrev pub has_slot : Option String → KeyEntry → Bool
has_slot none = is_primary
has_slot (some slot) = if slot == "primary" then is_primary else is_secondary

-- No entry that has the property comes after one that has it not.
abbrev pub ComeFirst : (KeyEntry → Bool) → List KeyEntry → Type 0
ComeFirst p [] = Unit
ComeFirst p (e ∷ order) = (p e ≡ false → count p order ≡ 0) × ComeFirst p order

-- An order of the entries with the preferred slot first, or, under round_robin, the next rotation of
-- the entries; or the refusal of a preferred key of another name.
abbrev pub IsOrder :
    Environment
    → Option String
    → List KeyEntry
    → Pool
    → Result PoolError (List KeyEntry) × Pool
    → Type 0
IsOrder env preferred entries pool (ok order, pool') =
    ((p : KeyEntry → Bool) → count p order ≡ count p entries)
    × (is_round_robin env ≡ false → ComeFirst (has_slot preferred) order)
    × (is_round_robin env ≡ true
        → IsRotation (rotation entries pool) entries order
          × (pool'.rotation_index ≡ pool.rotation_index + advance entries))
IsOrder env preferred entries pool (err e, pool') =
    (e ≡ configuration) × (is_supported preferred ≡ false)

ComeFirst-none : (p : KeyEntry → Bool) (es : List KeyEntry) → count p es ≡ 0 → ComeFirst p es
ComeFirst-none p [] h = tt
ComeFirst-none p (e ∷ es) h = (λ other. omega (arith, h), ComeFirst-none p es (omega (arith, h)))

ComeFirst-append :
    (p : KeyEntry → Bool) (es ys : List KeyEntry) → count p ys ≡ 0 → ComeFirst p (select p es ++ ys)
ComeFirst-append p [] ys h = ComeFirst-none p ys h
ComeFirst-append p (e ∷ es) ys h = elim (Bool-cases (p e)) [
  | inl own ↦ rw own (λ other. ground (arith, own, other), ComeFirst-append p es ys h)
  | inr other ↦ rw other (ComeFirst-append p es ys h)
]

count-others : (p : KeyEntry → Bool) (es : List KeyEntry) → count p (select (λ e. not (p e)) es) ≡ 0
count-others p [] = refl
count-others p (e ∷ es) = ground (arith, count-others p es)

preferred_first-ComeFirst :
    (p : KeyEntry → Bool) (es : List KeyEntry) → ComeFirst p (preferred_first p es)
preferred_first-ComeFirst p es =
    ComeFirst-append p es (select (λ e. not (p e)) es) (count-others p es)

-- An order that is given has the property's entries first.
abbrev OrderedBy : (KeyEntry → Bool) → Result PoolError (List KeyEntry) → Type 0
OrderedBy p (ok order) = ComeFirst p order
OrderedBy p (err e) = Unit

stage-OrderedBy :
    (preferred : Option String) (entries : List KeyEntry)
    → OrderedBy (has_slot preferred) (stage_preferred_key_order preferred entries)
unfolding stage_preferred_key_order
stage-OrderedBy preferred [] = tt
stage-OrderedBy none (e ∷ entries) = preferred_first-ComeFirst is_primary (e ∷ entries)
stage-OrderedBy (some slot) (e ∷ entries) = elim (Bool-cases (slot == "primary")) [
  | inl first ↦ rw first (preferred_first-ComeFirst is_primary (e ∷ entries))
  | inr other ↦ rw other (
      if_either (OrderedBy is_secondary) (slot == "secondary") _ _
        (λ h. preferred_first-ComeFirst is_secondary (e ∷ entries)) (λ h. tt))
]

module _ (env : Environment) (preferred : Option String) (entries : List KeyEntry)
    (pool : Pool) where
  staged-IsOrder :
      (r : Result PoolError (List KeyEntry))
      → is_round_robin env ≡ false
      → IsPermuted preferred entries r
      → OrderedBy (has_slot preferred) r
      → IsOrder env preferred entries pool (r, pool)
  staged-IsOrder (err e) staged permuted ordered = permuted
  staged-IsOrder (ok order) staged permuted ordered =
      (permuted, λ _. ordered, λ robin. absurd (false≢true (sym staged ∙ robin)))

  rotated-IsOrder :
      (r : Result PoolError (List KeyEntry))
      → is_round_robin env ≡ true
      → IsPermuted preferred entries r
      → IsOrder env preferred entries pool (rotate_valid r entries pool)
  rotated-IsOrder (err e) robin permuted = permuted
  rotated-IsOrder (ok order) robin permuted = (
    rotated-IsPermuted preferred entries pool,
    λ staged. absurd (false≢true (sym staged ∙ robin)),
    λ _. rotated-IsRotation entries pool,
  )

  -- The order that an invocation is given holds each configured entry as often as it is configured.
  -- Without round_robin the entries of the preferred slot come first, the primary ones if no slot is
  -- preferred; under round_robin the order is the entries' own from the rotation index on and around
  -- the end, and the index grows by one if there is more than one entry. It is refused only for a
  -- preferred key that is neither primary nor secondary.
  pub key_order-IsOrder : IsOrder env preferred entries pool (key_order env preferred entries pool)
  unfolding key_order
  key_order-IsOrder =
      if_either (IsOrder env preferred entries pool) (is_round_robin env) _ _
        (λ robin.
          rotated-IsOrder (stage_preferred_key_order preferred entries) robin
            (stage_preferred_key_order-IsPermuted preferred entries))
        (λ staged.
          staged-IsOrder (stage_preferred_key_order preferred entries) staged
            (stage_preferred_key_order-IsPermuted preferred entries)
            (stage-OrderedBy preferred entries))
