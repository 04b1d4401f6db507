-- ===== src/Gemini/Cooldown.antt =====
-- gemini_pool.py: what a cooldown does to the invocations that follow, and when one gives up.
use verification_engine.Base.{
  Bool, List, Option, Result, String, [], arith, bool_eq, count, count-append, err, false, get_key,
  if_either, leb, length, nat_eq, ok, option_eq, put_key, some, string_eq, suc, true, zero, ℕ, ◌<◌,
  ◌==◌, ◌∙◌, ◌∷◌, ◌≡◌,
}
use verification_engine.Gemini.{
  Environment, KeyEntry, Pool, PoolError, Reply, World, answer, called, configuration, fall_back,
  invocation, invoke_gemini_balanced, invoke_with_retries, is_in_cooldown, is_rate_limit_error,
  is_round_robin, key_order, mark_cooling_down, max_retries_per_key, raised, rate_limit,
  rotate_valid, rotated, settle, stage_preferred_key_order, tick, try_entries, try_order,
}

get_key-put_key_ne :
    (j k : String) (v : ℕ) (d : List (String × ℕ))
    → (k == j) ≡ false
    → get_key j (put_key k v d) ≡ get_key j d
unfolding get_key put_key
get_key-put_key_ne j k v [] h = ground arith
get_key-put_key_ne j k v (e ∷ d) h = ground (arith, get_key-put_key_ne j k v d)

abbrev pub has_fingerprint : String → KeyEntry → Bool
has_fingerprint fp e = e.fingerprint == fp

-- A fingerprint cools down until the given time, and so many calls went to it.
abbrev pub Rests : String → ℕ → ℕ → Pool → Type 0
Rests fp until n pool =
    (get_key fp pool.cooldown_until ≡ some until) × (count (has_fingerprint fp) pool.calls ≡ n)

module _ {A : Type 0} (world : World A) (fp : String) (until n : ℕ)
    (early : (k : ℕ) → world.monotonic k < until) where
  called-Rests :
      (e : KeyEntry) (pool : Pool)
      → (e.fingerprint == fp) ≡ false
      → Rests fp until n pool
      → Rests fp until n (called world e pool)
  called-Rests e pool other h =
      (h.0, ground (arith, count-append (has_fingerprint fp) pool.calls (e ∷ []), h.1, other))

  mark_cooling_down-Rests :
      (e : KeyEntry) (pool : Pool)
      → (e.fingerprint == fp) ≡ false
      → Rests fp until n pool
      → Rests fp until n (mark_cooling_down world e pool)
  unfolding mark_cooling_down
  mark_cooling_down-Rests e pool other h =
      (get_key-put_key_ne fp e.fingerprint _ pool.cooldown_until other ∙ h.0, h.1)

  settle-Rests :
      (again : Pool → Result PoolError A × Pool) (e : KeyEntry) (pool : Pool) (r : Reply A)
      → (e.fingerprint == fp) ≡ false
      → ((p : Pool) → Rests fp until n p → Rests fp until n (again p).1)
      → Rests fp until n pool
      → Rests fp until n (settle world again e pool r).1
  settle-Rests again e pool (answer a) other keep h = h
  settle-Rests again e pool (raised text) other keep h =
      if_either (λ (r : Result PoolError A × Pool). Rests fp until n r.1) (is_rate_limit_error text)
        _ _ (λ l. keep _ (mark_cooling_down-Rests e pool other h)) (λ l. h)

  invoke_with_retries-Rests :
      (left : ℕ) (e : KeyEntry) (pool : Pool)
      → (e.fingerprint == fp) ≡ false
      → Rests fp until n pool
      → Rests fp until n (invoke_with_retries world left e pool).1
  unfolding invoke_with_retries
  invoke_with_retries-Rests zero e pool other h =
      settle-Rests (λ p. (err rate_limit, p)) e (called world e pool)
        (world.client (length pool.calls) e) other (λ p g. g) (called-Rests e pool other h)
  invoke_with_retries-Rests (suc left) e pool other h =
      settle-Rests (invoke_with_retries world left e) e (called world e pool)
        (world.client (length pool.calls) e) other
        (λ p g. invoke_with_retries-Rests left e p other g) (called-Rests e pool other h)

  fall_back-Rests :
      (others : Pool → Result PoolError A × Pool) (r : Result PoolError A × Pool)
      → ((p : Pool) → Rests fp until n p → Rests fp until n (others p).1)
      → Rests fp until n r.1
      → Rests fp until n (fall_back world others r).1
  fall_back-Rests others (ok a, pool) keep h = h
  fall_back-Rests others (err rate_limit, pool) keep h = keep pool h
  fall_back-Rests others (err configuration, pool) keep h = h
  fall_back-Rests others (err invocation, pool) keep h = h

  -- An entry that is not cooling down has another fingerprint.
  awake-other :
      (e : KeyEntry) (pool : Pool)
      → Rests fp until n pool
      → is_in_cooldown world.monotonic e pool ≡ false
      → (e.fingerprint == fp) ≡ false
  unfolding is_in_cooldown
  awake-other e pool h awake = ground (arith, early pool.readings, h.0)

  try_entries-Rests :
      (entries : List KeyEntry) (limited : Bool) (pool : Pool)
      → Rests fp until n pool
      → Rests fp until n (try_entries world entries limited pool).1
  unfolding try_entries
  try_entries-Rests [] limited pool h = h
  try_entries-Rests (e ∷ rest) limited pool h =
      if_either (λ (r : Result PoolError A × Pool). Rests fp until n r.1)
        (is_in_cooldown world.monotonic e pool) _ _ (λ c. try_entries-Rests rest true (tick pool) h)
        (λ c.
          fall_back-Rests (try_entries world rest true)
            (invoke_with_retries world max_retries_per_key e (tick pool))
            (λ p g. try_entries-Rests rest true p g)
            (invoke_with_retries-Rests max_retries_per_key e (tick pool) (awake-other e pool h c)
              h))

  rotated-Rests :
      (entries : List KeyEntry) (pool : Pool)
      → Rests fp until n pool
      → Rests fp until n (rotated entries pool).1
  unfolding rotated
  rotated-Rests entries pool h =
      if_either (λ (r : List KeyEntry × Pool). Rests fp until n r.1) (leb (length entries) 1) _ _
        (λ l. h) (λ l. h)

  rotate_valid-Rests :
      (r : Result PoolError (List KeyEntry)) (entries : List KeyEntry) (pool : Pool)
      → Rests fp until n pool
      → Rests fp until n (rotate_valid r entries pool).1
  rotate_valid-Rests (err e) entries pool h = h
  rotate_valid-Rests (ok order) entries pool h = rotated-Rests entries pool h

  key_order-Rests :
      (env : Environment) (preferred : Option String) (entries : List KeyEntry) (pool : Pool)
      → Rests fp until n pool
      → Rests fp until n (key_order env preferred entries pool).1
  unfolding key_order
  key_order-Rests env preferred entries pool h =
      if_either (λ (r : Result PoolError (List KeyEntry) × Pool). Rests fp until n r.1)
        (is_round_robin env) _ _
        (λ l. rotate_valid-Rests (stage_preferred_key_order preferred entries) entries pool h)
        (λ l. h)

  try_order-Rests :
      (r : Result PoolError (List KeyEntry) × Pool)
      → Rests fp until n r.1
      → Rests fp until n (try_order world r).1
  try_order-Rests (err e, pool) h = h
  try_order-Rests (ok order, pool) h = try_entries-Rests order false pool h

  -- A key whose cooldown ends after every reading of the clock is left alone: an invocation, with
  -- whatever keys, strategy and preferred key, makes no call with its fingerprint, and keeps the
  -- end of its cooldown.
  pub invoke_gemini_balanced-Rests :
      (env : Environment) (preferred : Option String) (entries : List KeyEntry) (pool : Pool)
      → Rests fp until n pool
      → Rests fp until n (invoke_gemini_balanced world env preferred entries pool).1
  unfolding invoke_gemini_balanced
  invoke_gemini_balanced-Rests env preferred entries pool h =
      try_order-Rests (key_order env preferred entries pool)
        (key_order-Rests env preferred entries pool h)
