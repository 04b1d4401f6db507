-- ===== src/Gemini/Rotation.antt =====
-- gemini_pool.py, _round_robin_key_order: the entries from the rotation index on and around the end.

use Prim.Native.Nat.{◌%◌}
use verification_engine.Base.{
  Bool-cases, List, Option, [], ap, arith, bool_eq, if◌then◌else◌, inl, inr, leb, length, nat_eq,
  none, option_eq, refl, some, string_eq, suc, zero, ℕ, ◌++◌, ◌+◌, ◌<◌, ◌∙◌, ◌∷◌, ◌≡◌, ◌≤◌,
}
use verification_engine.Gemini.{KeyEntry, Pool, drop, rotated, take}

abbrev pub entry_at : ℕ → List KeyEntry → Option KeyEntry
entry_at n [] = none
entry_at zero (e ∷ entries) = some e
entry_at (suc n) (e ∷ entries) = entry_at n entries

-- The order is the entries' own, from the entry at `n` on and around the end.
abbrev pub IsRotation : ℕ → List KeyEntry → List KeyEntry → Type 0
IsRotation n entries order =
    ((i : ℕ) → n + i < length entries → entry_at i order ≡ entry_at (n + i) entries)
    × ((i j : ℕ) → i < n → j + n ≡ length entries + i → entry_at j order ≡ entry_at i entries)

-- Where a rotation starts, and by how much the index grows.
abbrev pub rotation : List KeyEntry → Pool → ℕ
rotation entries pool = if leb (length entries) 1 then 0 else pool.rotation_index % length entries

abbrev pub advance : List KeyEntry → ℕ
advance entries = if leb (length entries) 1 then 0 else 1

entry_at-left :
    (i : ℕ) (xs ys : List KeyEntry) → i < length xs → entry_at i (xs ++ ys) ≡ entry_at i xs
entry_at-left i [] ys h = ground arith
entry_at-left zero (x ∷ xs) ys h = refl
entry_at-left (suc i) (x ∷ xs) ys h = entry_at-left i xs ys (omega (arith, h))

entry_at-right :
    (i j : ℕ) (xs ys : List KeyEntry) → j ≡ length xs + i → entry_at j (xs ++ ys) ≡ entry_at i ys
entry_at-right i j [] ys h = ap (λ n. entry_at n ys) (omega (arith, h))
entry_at-right i zero (x ∷ xs) ys h = ground (arith, h)
entry_at-right i (suc j) (x ∷ xs) ys h = entry_at-right i j xs ys (omega (arith, h))

entry_at-take : (i n : ℕ) (es : List KeyEntry) → i < n → entry_at i (take n es) ≡ entry_at i es
entry_at-take i zero es h = ground (arith, h)
entry_at-take i (suc n) [] h = refl
entry_at-take zero (suc n) (e ∷ es) h = refl
entry_at-take (suc i) (suc n) (e ∷ es) h = entry_at-take i n es (omega (arith, h))

same_index : (i k : ℕ) → k ≡ 0 + i → i ≡ k
same_index i k e = omega (arith, e)

entry_at-drop :
    (i k n : ℕ) (es ys : List KeyEntry)
    → k ≡ n + i
    → k < length es
    → entry_at i (drop n es ++ ys) ≡ entry_at k es
entry_at-drop i k zero es ys e h =
    ap (λ m. entry_at m (es ++ ys)) (same_index i k e) ∙ entry_at-left k es ys h
entry_at-drop i k (suc n) [] ys e h = ground (arith, h)
entry_at-drop i zero (suc n) (d ∷ es) ys e h = ground (arith, e)
entry_at-drop i (suc k) (suc n) (d ∷ es) ys e h =
    entry_at-drop i k n es ys (omega (arith, e)) (omega (arith, h))

length-drop : (n : ℕ) (es : List KeyEntry) → n ≤ length es → length (drop n es) + n ≡ length es
length-drop zero es h = omega arith
length-drop (suc n) [] h = ground (arith, h)
length-drop (suc n) (e ∷ es) h = omega (arith, length-drop n es (omega (arith, h)))

drop-IsRotation :
    (n : ℕ) (es : List KeyEntry) → n ≤ length es → IsRotation n es (drop n es ++ take n es)
drop-IsRotation n es l = (
  λ i h. entry_at-drop i (n + i) n es (take n es) refl h,
  λ i j h e.
      entry_at-right i j (drop n es) (take n es) (omega (arith, length-drop n es l, e))
      ∙ entry_at-take i n es h,
)

whole-IsRotation : (es : List KeyEntry) → IsRotation 0 es es
whole-IsRotation es = (λ i h. ap (λ n. entry_at n es) (omega arith), λ i j h e. ground (arith, h))

mod_lem : (a n : ℕ) → 1 < n → a % n < n
mod_lem a n h = grind (arith, h)

pub rotated-IsRotation :
    (entries : List KeyEntry) (pool : Pool)
    → IsRotation (rotation entries pool) entries (rotated entries pool).0
      × ((rotated entries pool).1.rotation_index ≡ pool.rotation_index + advance entries)
unfolding rotated
rotated-IsRotation entries pool = elim (Bool-cases (leb (length entries) 1)) [
  | inl few ↦ rw few (whole-IsRotation entries, omega arith)
  | inr many ↦ rw many (
    drop-IsRotation (pool.rotation_index % length entries) entries
        (omega (arith, mod_lem pool.rotation_index (length entries) (ground (arith, many)))),
    refl,
  )
]
