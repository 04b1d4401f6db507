-- ===== src/Gemini/Keys.antt =====
-- gemini_pool.py: the configured keys.
use mathlib.Core.Path.{subst}
use verification_engine.Base.{
  IsDistinct, List, String, [], ap, arith, bool_eq, contains, contains-append, false, if_either,
  keys, length, nat_eq, not, option_eq, refl, string_eq, strip, suc, sym, true, truthy, ℕ, ◌++◌,
  ◌+◌, ◌||◌, ◌∷◌, ◌≡◌,
}
use verification_engine.Gemini.{
  Environment, KeyEntry, Slot, collect, configured_key_entries, entry_keys, new_entry,
  raw_candidates, with_candidate,
}

-- Every entry has the index of its place, and a key that is not blank.
abbrev pub AreNumbered : ℕ → List KeyEntry → Type 0
AreNumbered n [] = Unit
AreNumbered n (e ∷ entries) = (e.index ≡ n) × (truthy e.key ≡ true) × AreNumbered (suc n) entries

AreNumbered-append :
    (n : ℕ) (entries : List KeyEntry) (e : KeyEntry)
    → AreNumbered n entries
    → e.index ≡ n + length entries
    → truthy e.key ≡ true
    → AreNumbered n (entries ++ e ∷ [])
AreNumbered-append n [] e h i t = (omega arith, t, tt)
AreNumbered-append n (d ∷ entries) e h i t =
    (h.0, h.1, AreNumbered-append (suc n) entries e h.2 (omega arith) t)

entry_keys-append :
    (entries : List KeyEntry) (e : KeyEntry)
    → entry_keys (entries ++ e ∷ []) ≡ entry_keys entries ++ e.key ∷ []
entry_keys-append [] e = refl
entry_keys-append (d ∷ entries) e = ap (λ keys. d.key ∷ keys) (entry_keys-append entries e)

IsDistinct-append :
    (keys : List String) (k : String)
    → IsDistinct keys
    → contains keys k ≡ false
    → IsDistinct (keys ++ k ∷ [])
IsDistinct-append [] k d h = (refl, tt)
IsDistinct-append (x ∷ keys) k d h = (
  ground (arith, contains-append keys (k ∷ []) x, d.0),
  IsDistinct-append keys k d.1 (ground arith),
)

-- The keys differ from each other, and the entries are numbered from 0.
abbrev pub AreSound : List KeyEntry → Type 0
AreSound entries = IsDistinct (entry_keys entries) × AreNumbered 0 entries

module _ (fingerprint : String → String) where
  with_candidate-AreSound :
      (c : Slot × String) (entries : List KeyEntry)
      → AreSound entries
      → AreSound (with_candidate fingerprint c entries)
  unfolding with_candidate
  with_candidate-AreSound (slot, raw_key) entries h =
      if_either AreSound
        (not (truthy (strip raw_key)) || contains (entry_keys entries) (strip raw_key)) _ _
        (λ old. h)
        (λ fresh. (
          subst IsDistinct
              (sym (entry_keys-append entries (new_entry fingerprint slot (strip raw_key) entries)))
              (IsDistinct-append (entry_keys entries) (strip raw_key) h.0 (ground arith)),
          AreNumbered-append 0 entries (new_entry fingerprint slot (strip raw_key) entries) h.1
              (omega arith) (ground arith),
        ))

  collect-AreSound :
      (candidates : List (Slot × String)) (entries : List KeyEntry)
      → AreSound entries
      → AreSound (collect fingerprint candidates entries)
  unfolding collect
  collect-AreSound [] entries h = h
  collect-AreSound (c ∷ candidates) entries h =
      collect-AreSound candidates (with_candidate fingerprint c entries)
        (with_candidate-AreSound c entries h)

  -- Whatever the environment holds, the configured keys are not blank and differ from each other,
  -- and each entry's index is its place.
  pub configured_key_entries-AreSound :
      (env : Environment) → AreSound (configured_key_entries fingerprint env)
  unfolding configured_key_entries
  configured_key_entries-AreSound env = collect-AreSound (raw_candidates env) [] (tt, tt)
