-- ===== src/Gemini/Exhausted.antt =====
-- gemini_pool.py: when an invocation gives up because of rate limits.

use mathlib.Core.Path.{subst}
use verification_engine.Base.{
  ==-refl, All, Bool, Bool-cases, List, Option, Result, String, [], ap, arith, bool_eq, count, err,
  false, get_key, if_either, if◌then◌else◌, inl, inr, leb, length, ltb, nat_eq, not, ok, option_eq,
  put_key, refl, some, string_eq, suc, sym, true, zero, ℕ, ◌&&◌, ◌++◌, ◌+◌, ◌<◌, ◌==◌, ◌||◌, ◌∙◌,
  ◌∷◌, ◌≡◌, ◌≤◌,
}
use verification_engine.Gemini.{
  Environment, KeyEntry, Pool, PoolError, Reply, World, answer, called, configuration, fall_back,
  invocation, invoke_gemini_balanced, invoke_with_retries, is_in_cooldown, is_rate_limit_error,
  is_round_robin, key_order, mark_cooling_down, max_retries_per_key, raised, rate_limit,
  rotate_valid, rotated, settle, stage_preferred_key_order, tick, try_entries, try_order, until_of,
}
use verification_engine.Gemini.Order.{IsPermuted, key_order-IsPermuted}

-- Whether the reply is a rate limit error.
abbrev pub was_limited : {A : Type 0} → Reply A → Bool
was_limited (answer a) = false
was_limited (raised text) = is_rate_limit_error text

-- One of the readings of the clock from `lo` up to `hi` lies before `until`.
unfoldable pub read_before : (ℕ → ℕ) → ℕ → ℕ → ℕ → Bool
read_before monotonic until lo zero = false
read_before monotonic until lo (suc hi) =
    (leb lo hi && ltb (monotonic hi) until) || read_before monotonic until lo hi

read_before-there :
    (monotonic : ℕ → ℕ) (until lo n hi : ℕ)
    → lo ≤ n
    → n < hi
    → ltb (monotonic n) until ≡ true
    → read_before monotonic until lo hi ≡ true
unfolding read_before
read_before-there monotonic until lo n zero l h e = ground arith
read_before-there monotonic until lo n (suc hi) l h e = elim (nat_eq.dec n hi) [
  | yes same ↦ ground (arith, e, same, l)
  | no other ↦ ground (arith, read_before-there monotonic until lo n hi l (ground (arith, other)) e)
]

get_key-put_key :
    (j k : String) (v : ℕ) (d : List (String × ℕ))
    → get_key j (put_key k v d) ≡ (if k == j then some v else get_key j d)
unfolding get_key put_key
get_key-put_key j k v [] = ground arith
get_key-put_key j k v (e ∷ d) = ground (arith, get_key-put_key j k v d)

same_place : (i k : ℕ) → k ≡ i + 0 → i ≡ k
same_place i k e = omega (arith, e)

read_before-later :
    (monotonic : ℕ → ℕ) (until lo hi hi' : ℕ)
    → hi ≤ hi'
    → read_before monotonic until lo hi ≡ true
    → read_before monotonic until lo hi' ≡ true
unfolding read_before
read_before-later monotonic until lo hi zero l h = ground (arith, l, h)
read_before-later monotonic until lo hi (suc hi') l h = elim (nat_eq.dec hi (suc hi')) [
  | yes same ↦ subst (λ n. read_before monotonic until lo n ≡ true) same h
  | no other ↦
      ground (arith, read_before-later monotonic until lo hi hi' (ground (arith, l, other)) h)
]

length-append : (calls : List KeyEntry) (e : KeyEntry) → length (calls ++ e ∷ []) ≡ length calls + 1
length-append [] e = refl
length-append (c ∷ calls) e = omega (arith, length-append calls e)

module _ {A : Type 0} (world : World A) where
  -- Among the calls, of which the first here is number `i`, one from number `n` on was made with
  -- the entry's fingerprint and ended in a rate limit error.
  unfoldable pub limited_in : ℕ → ℕ → List KeyEntry → KeyEntry → Bool
  limited_in n i [] d = false
  limited_in n i (c ∷ calls) d =
      (leb n i && c.fingerprint == d.fingerprint && was_limited (world.client i c))
      || limited_in n (suc i) calls d

  limited_in-append :
      (n i k : ℕ) (calls : List KeyEntry) (c d : KeyEntry)
      → k ≡ i + length calls
      → limited_in n i (calls ++ c ∷ []) d ≡ (
          limited_in n i calls d
          || (leb n k && c.fingerprint == d.fingerprint && was_limited (world.client k c)))
  unfolding limited_in
  limited_in-append n i k [] c d e =
      subst
        (λ m.
          ((leb n i && c.fingerprint == d.fingerprint && was_limited (world.client i c)) || false)
          ≡ (leb n m && c.fingerprint == d.fingerprint && was_limited (world.client m c)))
        (same_place i k e) (ground arith)
  limited_in-append n i k (b ∷ calls) c d e =
      ground (arith, limited_in-append n (suc i) k calls c d (omega (arith, e)))

  -- Between the two pools, the key of the entry was rate limited.
  abbrev pub is_limited : Pool → Pool → KeyEntry → Bool
  is_limited start q d = limited_in (length start.calls) 0 q.calls d

  -- Between the two pools, a reading of the clock found the cooldown that the first one holds.
  abbrev pub is_cooling : Pool → Pool → KeyEntry → Bool
  is_cooling start q d =
      read_before world.monotonic (until_of (get_key d.fingerprint start.cooldown_until))
        start.readings q.readings

  -- An entry that was of no use between the two pools.
  abbrev pub is_spent : Pool → Pool → KeyEntry → Bool
  is_spent start q d = is_limited start q d || is_cooling start q d

  module _ (start : Pool) where
    -- What holds of the pool in an invocation that began with `start`.
    record Follows (q : Pool) : Type 0 where
      more_calls : length start.calls ≤ length q.calls
      more_readings : start.readings ≤ q.readings
      cooldowns :
          (d : KeyEntry)
          → is_limited start q d ≡ false
          → get_key d.fingerprint q.cooldown_until ≡ get_key d.fingerprint start.cooldown_until

    -- From one pool to a later one.
    abbrev Grows : Pool → Pool → Type 0
    Grows q q' =
        ((d : KeyEntry) → is_limited start q d ≡ true → is_limited start q' d ≡ true)
        × (q.readings ≤ q'.readings)

    Grows-refl : (q : Pool) → Grows q q
    Grows-refl q = (λ d h. h, omega arith)

    Grows-trans : (a b c : Pool) → Grows a b → Grows b c → Grows a c
    Grows-trans a b c (h, l) (h', l') = (λ d g. h' d (h d g), omega (arith, l, l'))

    Grows-spent :
        (q q' : Pool) (d : KeyEntry)
        → Grows q q'
        → is_spent start q d ≡ true
        → is_spent start q' d ≡ true
    Grows-spent q q' d (h, l) spent = ground (
      arith,
      spent,
      h d,
      read_before-later world.monotonic (until_of (get_key d.fingerprint start.cooldown_until))
          start.readings q.readings q'.readings l,
    )

    called-limited :
        (e d : KeyEntry) (q : Pool)
        → is_limited start (called world e q) d ≡ (
            is_limited start q d
            || (leb (length start.calls) (length q.calls)
                && e.fingerprint == d.fingerprint
                && was_limited (world.client (length q.calls) e)))
    called-limited e d q =
        limited_in-append (length start.calls) 0 (length q.calls) q.calls e d (omega arith)

    tick-Follows : (q : Pool) → Follows q → Follows (tick q)
    tick-Follows q f = record {
      more_calls = f.more_calls;
      more_readings = omega (arith, f.more_readings);
      cooldowns = f.cooldowns;
    }

    called-Follows : (e : KeyEntry) (q : Pool) → Follows q → Follows (called world e q)
    called-Follows e q f = record {
      more_calls = omega (arith, f.more_calls, length-append q.calls e);
      more_readings = f.more_readings;
      cooldowns = λ d h. f.cooldowns d (ground (arith, called-limited e d q, h));
    }

    called-Grows : (e : KeyEntry) (q : Pool) → Grows q (called world e q)
    called-Grows e q = (λ d h. ground (arith, called-limited e d q, h), omega arith)

    -- The entry, and all with its fingerprint, were rate limited.
    abbrev IsRefused : KeyEntry → Pool → Type 0
    IsRefused e q =
        (d : KeyEntry) → (e.fingerprint == d.fingerprint) ≡ true → is_limited start q d ≡ true

    mark-Follows :
        (e : KeyEntry) (q : Pool)
        → IsRefused e q
        → Follows q
        → Follows (mark_cooling_down world e q)
    unfolding mark_cooling_down
    mark-Follows e q refused f = record {
      more_calls = f.more_calls;
      more_readings = omega (arith, f.more_readings);
      cooldowns = λ d h.
          get_key-put_key d.fingerprint e.fingerprint _ q.cooldown_until
          ∙ ground (arith, refused d, h, f.cooldowns d h);
    }

    mark-Grows : (e : KeyEntry) (q : Pool) → Grows q (mark_cooling_down world e q)
    unfolding mark_cooling_down
    mark-Grows e q = (λ d h. h, omega arith)

    -- What a try of an entry leaves: the entry's key rate limited, if it ends in that error.
    abbrev IsTry : KeyEntry → Pool → Result PoolError A × Pool → Type 0
    IsTry e q r = Follows r.1 × Grows q r.1 × (r.0 ≡ err rate_limit → is_limited start r.1 e ≡ true)

    settle-IsTry :
        (again : Pool → Result PoolError A × Pool) (e : KeyEntry) (q : Pool) (r : Reply A)
        → Follows q
        → (was_limited r ≡ true → IsRefused e q)
        → ((p : Pool) → Follows p → is_limited start p e ≡ true → IsTry e p (again p))
        → IsTry e q (settle world again e q r)
    settle-IsTry again e q (answer a) f refused more = (f, Grows-refl q, λ h. ground arith)
    settle-IsTry again e q (raised text) f refused more =
        if_either (IsTry e q) (is_rate_limit_error text) _ _
          (λ l.
            let p = mark_cooling_down world e q in
            let limited = (mark-Grows e q).0 e (refused l e (==-refl e.fingerprint)) in
            let (follows, grows, spent) = more p (mark-Follows e q (refused l) f) limited in
            (follows, Grows-trans q p (again p).1 (mark-Grows e q) grows, spent))
          (λ l. (f, Grows-refl q, λ h. ground arith))

    called-IsRefused :
        (e : KeyEntry) (q : Pool)
        → Follows q
        → was_limited (world.client (length q.calls) e) ≡ true
        → IsRefused e (called world e q)
    called-IsRefused e q f l d same = ground (arith, called-limited e d q, f.more_calls, l, same)

    call-IsTry :
        (again : Pool → Result PoolError A × Pool) (e : KeyEntry) (q : Pool)
        → Follows q
        → ((p : Pool) → Follows p → is_limited start p e ≡ true → IsTry e p (again p))
        → IsTry e q (settle world again e (called world e q) (world.client (length q.calls) e))
    call-IsTry again e q f more =
        let (follows, grows, spent) =
          settle-IsTry again e (called world e q) (world.client (length q.calls) e)
            (called-Follows e q f) (called-IsRefused e q f) more in
        (
          follows,
          Grows-trans q (called world e q)
              (settle world again e (called world e q) (world.client (length q.calls) e)).1
              (called-Grows e q) grows,
          spent,
        )

    invoke_with_retries-IsTry :
        (left : ℕ) (e : KeyEntry) (q : Pool)
        → Follows q
        → IsTry e q (invoke_with_retries world left e q)
    unfolding invoke_with_retries
    invoke_with_retries-IsTry zero e q f =
        call-IsTry (λ p. (err rate_limit, p)) e q f (λ p g l. (g, Grows-refl p, λ h. l))
    invoke_with_retries-IsTry (suc left) e q f =
        call-IsTry (invoke_with_retries world left e) e q f
          (λ p g l. invoke_with_retries-IsTry left e p g)

    abbrev IsSpent : List KeyEntry → Pool → Result PoolError A × Pool → Type 0
    IsSpent entries q r =
        Grows q r.1 × (r.0 ≡ err rate_limit → All (λ e. is_spent start r.1 e ≡ true) entries)

    fall_back-IsSpent :
        (others : Pool → Result PoolError A × Pool) (e : KeyEntry) (rest : List KeyEntry) (q : Pool)
        (r : Result PoolError A × Pool)
        → ((p : Pool) → Follows p → IsSpent rest p (others p))
        → IsTry e q r
        → IsSpent (e ∷ rest) q (fall_back world others r)
    fall_back-IsSpent others e rest q (ok a, p) later (f, g, l) = (g, λ h. ground arith)
    fall_back-IsSpent others e rest q (err rate_limit, p) later (f, g, l) =
        let (grows, spent) = later p f in
        (
          Grows-trans q p (others p).1 g grows,
          λ h. (Grows-spent p (others p).1 e grows (ground (arith, l refl)), spent h),
        )
    fall_back-IsSpent others e rest q (err configuration, p) later (f, g, l) =
        (g, λ h. ground arith)
    fall_back-IsSpent others e rest q (err invocation, p) later (f, g, l) = (g, λ h. ground arith)

    -- An entry that is passed over was rate limited in this invocation, or is cooling since before.
    cooling-spent :
        (e : KeyEntry) (q : Pool)
        → Follows q
        → is_in_cooldown world.monotonic e q ≡ true
        → is_spent start (tick q) e ≡ true
    unfolding is_in_cooldown
    cooling-spent e q f h = elim (Bool-cases (is_limited start q e)) [
      | inl limited ↦ ground (arith, limited)
      | inr other ↦ ground (
        arith,
        read_before-there world.monotonic (until_of (get_key e.fingerprint start.cooldown_until))
            start.readings q.readings (q.readings + 1) f.more_readings (omega arith)
            (ap (λ u. ltb (world.monotonic q.readings) (until_of u)) (sym (f.cooldowns e other))
              ∙ h),
      )
    ]

    tick-Grows : (q : Pool) → Grows q (tick q)
    tick-Grows q = (λ d h. h, omega arith)

    try_entries-IsSpent :
        (entries : List KeyEntry) (limited : Bool) (q : Pool)
        → Follows q
        → IsSpent entries q (try_entries world entries limited q)
    unfolding try_entries
    try_entries-IsSpent [] limited q f = (Grows-refl q, λ h. tt)
    try_entries-IsSpent (e ∷ rest) limited q f =
        if_either (IsSpent (e ∷ rest) q) (is_in_cooldown world.monotonic e q) _ _
          (λ c.
            let r = try_entries world rest true (tick q) in
            let (grows, spent) = try_entries-IsSpent rest true (tick q) (tick-Follows q f) in
            (
              Grows-trans q (tick q) r.1 (tick-Grows q) grows,
              λ h. (Grows-spent (tick q) r.1 e grows (cooling-spent e q f c), spent h),
            ))
          (λ c.
            let r = invoke_with_retries world max_retries_per_key e (tick q) in
            let (grows, spent) =
              fall_back-IsSpent (try_entries world rest true) e rest (tick q) r
                (λ p g. try_entries-IsSpent rest true p g)
                (invoke_with_retries-IsTry max_retries_per_key e (tick q) (tick-Follows q f)) in
            (
              Grows-trans q (tick q) (fall_back world (try_entries world rest true) r).1
                  (tick-Grows q) grows,
              spent,
            ))

  unspent-none :
      (start q : Pool) (entries : List KeyEntry)
      → All (λ e. is_spent start q e ≡ true) entries
      → count (λ e. not (is_spent start q e)) entries ≡ 0
  unspent-none start q [] h = refl
  unspent-none start q (e ∷ entries) h = ground (arith, h.0, unspent-none start q entries h.1)

  Follows-refl : (q : Pool) → Follows q q
  Follows-refl q = record {
    more_calls = omega arith;
    more_readings = omega arith;
    cooldowns = λ d h. refl;
  }

  -- Choosing the order touches the rotation only.
  rotated-Follows : (entries : List KeyEntry) (pool : Pool) → Follows pool (rotated entries pool).1
  unfolding rotated
  rotated-Follows entries pool =
      if_either (λ (r : List KeyEntry × Pool). Follows pool r.1) (leb (length entries) 1) _ _
        (λ h. Follows-refl pool)
        (λ h. record {
          more_calls = omega arith;
          more_readings = omega arith;
          cooldowns = λ d g. refl;
        })

  rotate_valid-Follows :
      (r : Result PoolError (List KeyEntry)) (entries : List KeyEntry) (pool : Pool)
      → Follows pool (rotate_valid r entries pool).1
  rotate_valid-Follows (err e) entries pool = Follows-refl pool
  rotate_valid-Follows (ok order) entries pool = rotated-Follows entries pool

  key_order-Follows :
      (env : Environment) (preferred : Option String) (entries : List KeyEntry) (pool : Pool)
      → Follows pool (key_order env preferred entries pool).1
  unfolding key_order
  key_order-Follows env preferred entries pool =
      if_either (λ (r : Result PoolError (List KeyEntry) × Pool). Follows pool r.1)
        (is_round_robin env) _ _
        (λ h. rotate_valid-Follows (stage_preferred_key_order preferred entries) entries pool)
        (λ h. Follows-refl pool)

  try_order-unspent :
      (preferred : Option String) (entries : List KeyEntry) (start : Pool)
      (r : Result PoolError (List KeyEntry) × Pool)
      → IsPermuted preferred entries r.0
      → Follows start r.1
      → (try_order world r).0 ≡ err rate_limit
      → count (λ e. not (is_spent start (try_order world r).1 e)) entries ≡ 0
  try_order-unspent preferred entries start (err configuration, pool) o f h = ground arith
  try_order-unspent preferred entries start (err rate_limit, pool) o f h = ground (arith, o.0)
  try_order-unspent preferred entries start (err invocation, pool) o f h = ground arith
  try_order-unspent preferred entries start (ok order, pool) o f h =
      sym (o (λ e. not (is_spent start (try_entries world order false pool).1 e)))
      ∙ unspent-none start (try_entries world order false pool).1 order
          ((try_entries-IsSpent start order false pool f).1 h)

  -- An invocation that raises the rate limit error could use no configured entry: for each, either
  -- the client was called in this invocation with a key of the entry's fingerprint and refused it
  -- for its rate limit, or a reading of the clock in this invocation lay before the end of the
  -- cooldown that the entry had when the invocation began.
  pub invoke_gemini_balanced_spent :
      (env : Environment) (preferred : Option String) (entries : List KeyEntry) (pool : Pool)
      → (invoke_gemini_balanced world env preferred entries pool).0 ≡ err rate_limit
      → count
          (λ e. not (is_spent pool (invoke_gemini_balanced world env preferred entries pool).1 e))
          entries
        ≡ 0
  unfolding invoke_gemini_balanced
  invoke_gemini_balanced_spent env preferred entries pool h =
      try_order-unspent preferred entries pool (key_order env preferred entries pool)
        (key_order-IsPermuted env preferred entries pool)
        (key_order-Follows env preferred entries pool) h
