-- ===== src/Base/Tables.antt =====
-- Database tables: rows with a text as primary key, and the statements that the program issues.
use mathlib.Core.Path.{◌≡◌, refl, ap}
use mathlib.Core.Bool.{Bool, true, false}
use mathlib.Core.Option.{Option, none, some}
use mathlib.Core.List.{List, [], ◌∷◌, ◌++◌}
use Prim.Native.String.{String}
use native.Mathlib.Omega.{arith}
use verification_engine.Base.Equality.{
  bool_eq, contains, if◌then◌else◌, nat_eq, option_eq, string_eq, ◌==◌,
}
use verification_engine.Base.Lists.{IsDistinct, any, count, first}

-- A row that may be missing, tested.
abbrev pub matching {ℓ} : {A : Type ℓ} → (A → Bool) → Option A → Bool
matching p none = false
matching p (some r) = p r

-- `UPDATE … WHERE p`
abbrev pub update {ℓ} : {A : Type ℓ} → (A → Bool) → (A → A) → List A → List A
update p f [] = []
update p f (r ∷ rows) = (if p r then f r else r) ∷ update p f rows

abbrev pub updated {ℓ} : {A : Type ℓ} → (A → Bool) → (A → A) → Option A → Option A
updated p f none = none
updated p f (some r) = some (if p r then f r else r)

module _ {ℓ} {A : Type ℓ} (key : A → String) where
  -- `SELECT … WHERE id = k`, the first row
  abbrev pub find : String → List A → Option A
  find k rows = first (λ r. key r == k) rows

  abbrev pub keys : List A → List String
  keys [] = []
  keys (r ∷ rows) = key r ∷ keys rows

  -- the primary key constraint
  abbrev pub HasUniqueKeys : List A → Type 0
  HasUniqueKeys rows = IsDistinct (keys rows)

  module _ (p : A → Bool) (f : A → A) (same : (r : A) → key (f r) ≡ key r) where
    pub find-update :
        (k : String) (rows : List A) → find k (update p f rows) ≡ updated p f (find k rows)
    find-update k [] = refl
    find-update k (r ∷ rows) = ground (arith, same r, find-update k rows)

    pub keys-update : (rows : List A) → keys (update p f rows) ≡ keys rows
    keys-update [] = refl
    keys-update (r ∷ rows) = ground (arith, same r, keys-update rows)

  module _ (k : String) (p : A → Bool) (keyed : (r : A) → p r ≡ true → key r ≡ k) where
    pub none_at : (rows : List A) → contains (keys rows) k ≡ false → any p rows ≡ false
    none_at [] h = refl
    none_at (r ∷ rows) h = ground (arith, keyed r, none_at rows)

    -- With unique keys a statement about one key touches a row iff it touches the row found.
    pub any-eq-matching :
        (rows : List A) → HasUniqueKeys rows → any p rows ≡ matching p (find k rows)
    any-eq-matching [] u = refl
    any-eq-matching (r ∷ rows) u = ground (arith, keyed r, none_at rows, any-eq-matching rows u.1)

    -- Rows of another key are not touched.
    pub find-update_ne :
        (f : A → A) (j : String) (rows : List A)
        → ((r : A) → key (f r) ≡ key r)
        → (j == k) ≡ false
        → find j (update p f rows) ≡ find j rows
    find-update_ne f j [] same ne = refl
    find-update_ne f j (r ∷ rows) same ne =
        ground (arith, keyed r, same r, find-update_ne f j rows same ne)

-- `db.add` of a row: looked up, counted, and its key kept apart.
module _ {ℓ} {A : Type ℓ} (key : A → String) (new : A) where
  pub find-added :
      (k : String) (rows : List A)
      → contains (keys key rows) (key new) ≡ false
      → find key k (rows ++ (new ∷ [])) ≡ (if k == key new then some new else find key k rows)
  find-added k [] h = ground arith
  find-added k (r ∷ rows) h = ground (arith, find-added k rows)

  contains-keys_added :
      (k : String) (rows : List A)
      → (key new == k) ≡ false
      → contains (keys key rows) k ≡ false
      → contains (keys key (rows ++ (new ∷ []))) k ≡ false
  contains-keys_added k [] ne h = ground arith
  contains-keys_added k (r ∷ rows) ne h = ground (arith, contains-keys_added k rows ne)

  pub added-HasUniqueKeys :
      (rows : List A)
      → contains (keys key rows) (key new) ≡ false
      → HasUniqueKeys key rows
      → HasUniqueKeys key (rows ++ (new ∷ []))
  added-HasUniqueKeys [] h u = (refl, tt)
  added-HasUniqueKeys (r ∷ rows) h u = (
    contains-keys_added (key r) rows (ground arith) u.0,
    added-HasUniqueKeys rows (ground arith) u.1,
  )

-- A row that is written in the place of the one with its key.
module _ {ℓ} {A : Type ℓ} (key : A → String) (p : A → Bool) (old new : A)
    (same_key : key new ≡ key old) where
  abbrev put_back : List A → List A
  put_back = update (λ q. key q == key old) (λ _. new)

  keyed : (q : A) → (key q == key old) ≡ true → key q ≡ key old
  keyed q h = ground arith

  put_back-none :
      (rows : List A) → contains (keys key rows) (key old) ≡ false → put_back rows ≡ rows
  put_back-none [] h = refl
  put_back-none (r ∷ rows) h = ground (arith, put_back-none rows)

  find-put_back_ne :
      (k : String) (rows : List A)
      → (k == key old) ≡ false
      → find key k (put_back rows) ≡ find key k rows
  find-put_back_ne k [] ne = refl
  find-put_back_ne k (r ∷ rows) ne = ground (arith, find-put_back_ne k rows, same_key)

  find-put_back_same :
      (rows : List A)
      → find key (key old) rows ≡ some old
      → find key (key old) (put_back rows) ≡ some new
  find-put_back_same [] found = ground arith
  find-put_back_same (r ∷ rows) found = ground (arith, find-put_back_same rows, same_key)

  pub find-put_back :
      (k : String) (rows : List A)
      → find key (key old) rows ≡ some old
      → find key k (put_back rows) ≡ (if k == key old then some new else find key k rows)
  find-put_back k rows found = elim (string_eq.dec k (key old)) [
    | no n ↦ ground (arith, find-put_back_ne k rows)
    | yes e ↦ ground (arith, find-put_back_same rows found, ap (λ j. find key j (put_back rows)) e)
  ]

  pub keys-put_back : (rows : List A) → keys key (put_back rows) ≡ keys key rows
  keys-put_back [] = refl
  keys-put_back (r ∷ rows) = ground (arith, keys-put_back rows, same_key)

  pub count-put_back :
      (rows : List A)
      → HasUniqueKeys key rows
      → find key (key old) rows ≡ some old
      → p new ≡ p old
      → count p (put_back rows) ≡ count p rows
  count-put_back [] u found same = refl
  count-put_back (r ∷ rows) u found same =
      ground (arith, count-put_back rows u.1, put_back-none rows, same)

-- No row matched: nothing changes.
pub update-none {ℓ} :
    {A : Type ℓ} (p : A → Bool) (f : A → A) (rows : List A)
    → any p rows ≡ false
    → update p f rows ≡ rows
update-none p f [] h = refl
update-none p f (r ∷ rows) h = ground (arith, update-none p f rows)

-- `d[key] = value`, on a dict as an association list in insertion order
unfoldable pub put_key : {A : Type 0} → String → A → List (String × A) → List (String × A)
put_key key value [] = (key, value) ∷ []
put_key key value (e ∷ rest) =
    let kept = put_key key value rest in if e.0 == key then (key, value) ∷ rest else e ∷ kept

-- `d.get(key)`
unfoldable pub get_key : {A : Type 0} → String → List (String × A) → Option A
get_key key [] = none
get_key key (e ∷ rest) = if e.0 == key then some e.1 else get_key key rest
