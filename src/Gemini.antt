-- ===== src/Gemini.antt =====
-- agent_orchestration/providers/gemini_pool.py: the pool of API keys. The environment, the clock's
-- readings in microseconds, the hash that gives a fingerprint and the client are arguments.
pub mod Keys
pub mod Rotation
pub mod Order
pub mod Cooldown
pub mod Exhausted
use Prim.Native.Char.{code}
use Prim.Native.Nat.{◌%◌}
use verification_engine.Base.{
  Bool, List, Option, Result, String, [], any, bool_eq, contains, err, false, get_key,
  if◌then◌else◌, leb, length, lower, ltb, nat_eq, none, not, occurs_in, ok, option_eq, or_else,
  or_empty, put_key, select, some, string_eq, strip, suc, true, truthy, zero, ℕ, ◌++◌, ◌+◌, ◌<>◌,
  ◌==◌, ◌||◌, ◌∷◌,
}

-- `os.getenv`
abbrev pub Environment : Type 0
Environment = String → Option String

pub data Slot : Type 0 where
  primary secondary : Slot
  key_slot : ℕ → Slot

-- GeminiKeyEntry
pub record KeyEntry : Type 0 where
  pub slot : Slot
  pub index : ℕ
  pub key : String
  pub fingerprint : String

-- The three errors of the module
pub data PoolError : Type 0 where
  configuration rate_limit invocation : PoolError

abbrev onto_first : List String → String → List String
onto_first [] s = s ∷ []
onto_first (t ∷ ts) s = (s <> t) ∷ ts

-- `s.split(",")`
unfoldable pub split_commas : String → List String
split_commas String.[] = "" ∷ []
split_commas (String.◌∷◌ c s) =
    let rest = split_commas s in
    if code c == 44 then "" ∷ rest else onto_first rest (String.◌∷◌ c String.[])

-- The pairs of GEMINI_API_KEYS, numbered from `n`
unfoldable pub numbered : ℕ → List String → List (Slot × String)
numbered n [] = []
numbered n (value ∷ values) =
    let rest = numbered (suc n) values in
    if truthy (strip value) then (key_slot n, strip value) ∷ rest else rest

-- `raw_candidates`
unfoldable pub raw_candidates : Environment → List (Slot × String)
raw_candidates env =
    numbered 0 (split_commas (or_empty (env "GEMINI_API_KEYS")))
    ++ ((primary, or_empty (env "GEMINI_API_KEY_PRIMARY"))
        ∷ (primary, or_empty (env "GEMINI_API_KEY"))
        ∷ (primary, or_empty (env "GOOGLE_API_KEY"))
        ∷ (primary, or_empty (env "GEMINI_API_KEY_1"))
        ∷ (secondary, or_empty (env "GEMINI_API_KEY_SECONDARY"))
        ∷ (secondary, or_empty (env "GEMINI_API_KEY_2"))
        ∷ [])

abbrev pub entry_keys : List KeyEntry → List String
entry_keys [] = []
entry_keys (e ∷ entries) = e.key ∷ entry_keys entries

-- The slot of a new entry, with the number of entries before it
abbrev slot_at : Slot → ℕ → Slot
slot_at (key_slot n) zero = primary
slot_at (key_slot n) (suc zero) = secondary
slot_at (key_slot n) (suc (suc k)) = key_slot n
slot_at primary k = primary
slot_at secondary k = secondary

module _ (fingerprint : String → String) where
  abbrev pub new_entry : Slot → String → List KeyEntry → KeyEntry
  new_entry slot key entries = record {
    slot = slot_at slot (length entries);
    index = length entries;
    key = key;
    fingerprint = fingerprint key;
  }

  -- One pass of the loop of `_configured_key_entries`; `seen` holds the keys of the entries.
  unfoldable pub with_candidate : Slot × String → List KeyEntry → List KeyEntry
  with_candidate (slot, raw_key) entries =
      if not (truthy (strip raw_key)) || contains (entry_keys entries) (strip raw_key)
      then entries
      else entries ++ new_entry slot (strip raw_key) entries ∷ []

  unfoldable pub collect : List (Slot × String) → List KeyEntry → List KeyEntry
  collect [] entries = entries
  collect (c ∷ candidates) entries = collect candidates (with_candidate c entries)

  -- `_configured_key_entries`
  unfoldable pub configured_key_entries : Environment → List KeyEntry
  configured_key_entries env = collect (raw_candidates env) []

-- The module's variables, the number of clock readings so far, and the calls of the client so far.
pub record Pool : Type 0 where
  pub rotation_index : ℕ
  pub cooldown_until : List (String × ℕ)
  pub readings : ℕ
  pub calls : List KeyEntry

abbrev pub is_primary : KeyEntry → Bool
is_primary e = elim e.slot [ primary ↦ true | secondary ↦ false | key_slot n ↦ false ]

abbrev pub is_secondary : KeyEntry → Bool
is_secondary e = elim e.slot [ primary ↦ false | secondary ↦ true | key_slot n ↦ false ]

abbrev pub preferred_first : (KeyEntry → Bool) → List KeyEntry → List KeyEntry
preferred_first p entries = select p entries ++ select (λ e. not (p e)) entries

-- `_stage_preferred_key_order`
unfoldable pub stage_preferred_key_order :
    Option String → List KeyEntry → Result PoolError (List KeyEntry)
stage_preferred_key_order preferred [] = ok []
stage_preferred_key_order none (e ∷ entries) = ok (preferred_first is_primary (e ∷ entries))
stage_preferred_key_order (some slot) (e ∷ entries) =
    if slot == "primary"
    then ok (preferred_first is_primary (e ∷ entries))
    else if slot == "secondary"
    then ok (preferred_first is_secondary (e ∷ entries))
    else err configuration

abbrev pub take : ℕ → List KeyEntry → List KeyEntry
take zero es = []
take (suc n) [] = []
take (suc n) (e ∷ es) = e ∷ take n es

abbrev pub drop : ℕ → List KeyEntry → List KeyEntry
drop zero es = es
drop (suc n) [] = []
drop (suc n) (e ∷ es) = drop n es

-- `_round_robin_key_order` past its check of the preferred key, with `_next_rotating_index`
unfoldable pub rotated : List KeyEntry → Pool → List KeyEntry × Pool
rotated entries pool = if leb (length entries) 1 then (entries, pool) else (
  drop (pool.rotation_index % length entries) entries
      ++ take (pool.rotation_index % length entries) entries,
  record pool { rotation_index = pool.rotation_index + 1 },
)

abbrev pub rotate_valid :
    Result PoolError (List KeyEntry)
    → List KeyEntry
    → Pool
    → Result PoolError (List KeyEntry) × Pool
rotate_valid (err e) entries pool = (err e, pool)
rotate_valid (ok _) entries pool = (ok (rotated entries pool).0, (rotated entries pool).1)

-- `_pool_strategy() == "round_robin"`
abbrev pub is_round_robin : Environment → Bool
is_round_robin env =
    lower (strip (or_empty (or_else (env "GEMINI_POOL_STRATEGY") (some "stage_preferred"))))
    == "round_robin"

-- `_key_order`, over the configured entries
unfoldable pub key_order :
    Environment → Option String → List KeyEntry → Pool → Result PoolError (List KeyEntry) × Pool
key_order env preferred entries pool =
    if is_round_robin env
    then rotate_valid (stage_preferred_key_order preferred entries) entries pool
    else (stage_preferred_key_order preferred entries, pool)

-- What the client's call ends in: an answer, or an exception with its text
pub data Reply (A : Type 0) : Type 0 where
  answer : A → Reply A
  raised : String → Reply A

-- `_is_rate_limit_error`
unfoldable pub is_rate_limit_error : String → Bool
is_rate_limit_error text =
    any (λ marker. occurs_in marker (lower text))
      ("429" ∷ "resource_exhausted" ∷ "quota" ∷ "rate limit" ∷ "ratelimit" ∷ [])

-- GEMINI_POOL_MAX_RETRIES_PER_KEY
abbrev pub max_retries_per_key : ℕ
max_retries_per_key = 0

abbrev pub until_of : Option ℕ → ℕ
until_of none = 0
until_of (some t) = t

-- `_is_in_cooldown`, and the pool after the reading of the clock
unfoldable pub is_in_cooldown : (ℕ → ℕ) → KeyEntry → Pool → Bool
is_in_cooldown monotonic e pool =
    ltb (monotonic pool.readings) (until_of (get_key e.fingerprint pool.cooldown_until))

abbrev pub tick : Pool → Pool
tick pool = record pool { readings = pool.readings + 1 }

-- The clock, the client, and what `_read_int` gives for GEMINI_POOL_COOLDOWN_SECONDS, in
-- microseconds
pub record World (A : Type 0) : Type 0 where
  pub monotonic : ℕ → ℕ
  pub cooldown : ℕ
  pub client : ℕ → KeyEntry → Reply A

module _ {A : Type 0} (world : World A) where
  -- `_mark_cooling_down`
  unfoldable pub mark_cooling_down : KeyEntry → Pool → Pool
  mark_cooling_down e pool = record pool {
    cooldown_until =
        put_key e.fingerprint (world.monotonic pool.readings + world.cooldown) pool.cooldown_until;
    readings = pool.readings + 1;
  }

  abbrev pub called : KeyEntry → Pool → Pool
  called e pool = record pool { calls = pool.calls ++ e ∷ [] }

  abbrev pub settle :
      (Pool → Result PoolError A × Pool) → KeyEntry → Pool → Reply A → Result PoolError A × Pool
  settle again e pool (answer a) = (ok a, pool)
  settle again e pool (raised text) =
      if is_rate_limit_error text then again (mark_cooling_down e pool) else (err invocation, pool)

  -- `_invoke_with_retries`, with the number of retries left; the sleep before a retry is no event.
  unfoldable pub invoke_with_retries : ℕ → KeyEntry → Pool → Result PoolError A × Pool
  invoke_with_retries zero e pool =
      settle (λ p. (err rate_limit, p)) e (called e pool) (world.client (length pool.calls) e)
  invoke_with_retries (suc left) e pool =
      settle (invoke_with_retries left e) e (called e pool) (world.client (length pool.calls) e)

  abbrev pub fall_back :
      (Pool → Result PoolError A × Pool) → Result PoolError A × Pool → Result PoolError A × Pool
  fall_back others (ok a, pool) = (ok a, pool)
  fall_back others (err rate_limit, pool) = others pool
  fall_back others (err configuration, pool) = (err configuration, pool)
  fall_back others (err invocation, pool) = (err invocation, pool)

  -- The loop of `invoke_gemini_balanced`; `limited` is whether rate_limited_slots has an entry.
  unfoldable pub try_entries : List KeyEntry → Bool → Pool → Result PoolError A × Pool
  try_entries [] limited pool = (err (if limited then rate_limit else configuration), pool)
  try_entries (e ∷ rest) limited pool =
      if is_in_cooldown world.monotonic e pool
      then try_entries rest true (tick pool)
      else fall_back (try_entries rest true) (invoke_with_retries max_retries_per_key e (tick pool))

  abbrev pub try_order : Result PoolError (List KeyEntry) × Pool → Result PoolError A × Pool
  try_order (err e, pool) = (err e, pool)
  try_order (ok order, pool) = try_entries order false pool

  -- `invoke_gemini_balanced`, over the configured entries
  unfoldable pub invoke_gemini_balanced :
      Environment → Option String → List KeyEntry → Pool → Result PoolError A × Pool
  invoke_gemini_balanced env preferred entries pool =
      try_order (key_order env preferred entries pool)
