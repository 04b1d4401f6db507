-- ===== src/Tests/Gemini.antt =====
-- Concrete keys and clients: backend/app/agent_orchestration/providers/gemini_pool.py.
use verification_engine.Base.{
  List, String, [], arith, bool_eq, count, err, get_key, if◌then◌else◌, lower, nat_eq, none, not,
  occurs_in, ok, option_eq, put_key, refl, some, string_eq, strip, ℕ, ◌<◌, ◌==◌, ◌∷◌, ◌≡◌,
}
use verification_engine.Gemini.{
  Environment, KeyEntry, Pool, Slot, World, answer, collect, configured_key_entries, entry_keys,
  invoke_gemini_balanced, invoke_with_retries, is_in_cooldown, is_rate_limit_error, key_order,
  mark_cooling_down, numbered, primary, raised, rate_limit, raw_candidates, secondary, split_commas,
  stage_preferred_key_order, try_entries, with_candidate,
}
use verification_engine.Gemini.Keys.{AreSound, configured_key_entries-AreSound}
use verification_engine.Gemini.Order.{IsOrder, key_order-IsOrder}
use verification_engine.Gemini.Cooldown.{Rests, invoke_gemini_balanced-Rests}
use verification_engine.Gemini.Exhausted.{invoke_gemini_balanced_spent, is_spent}

abbrev two_keys : Environment
two_keys name =
    if name == "GEMINI_API_KEYS"
    then some "k1,k2"
    else if name == "GEMINI_API_KEY_2"
    then some "k2"
    else none

abbrev plain : String → String
plain s = s

-- The second name of the second key adds nothing.
two_entries : entry_keys (configured_key_entries plain two_keys) ≡ "k1" ∷ "k2" ∷ []
unfolding configured_key_entries collect raw_candidates numbered split_commas string_eq nat_eq strip
    with_candidate
two_entries = refl

configured_key_entries-AreSound_example : AreSound (configured_key_entries plain two_keys)
configured_key_entries-AreSound_example = configured_key_entries-AreSound plain two_keys

abbrev entry : Slot → ℕ → String → KeyEntry
entry slot index key = record { slot = slot; index = index; key = key; fingerprint = key }

abbrev both_entries : List KeyEntry
both_entries = entry primary 0 "k1" ∷ entry secondary 1 "k2" ∷ []

abbrev fresh_pool : Pool
fresh_pool = record { rotation_index = 0; cooldown_until = []; readings = 0; calls = [] }

-- Every call is refused, at times that pass second by second.
abbrev refusing : World String
refusing = record { monotonic = λ k. k; cooldown = 60; client = λ k e. raised "429 quota exceeded" }

both_refused :
    (invoke_gemini_balanced refusing two_keys (some "secondary") both_entries fresh_pool).0
    ≡ err rate_limit
unfolding invoke_gemini_balanced key_order string_eq lower strip stage_preferred_key_order
    try_entries is_in_cooldown get_key invoke_with_retries is_rate_limit_error occurs_in
    mark_cooling_down put_key
both_refused = refl

invoke_gemini_balanced_spent_example :
    count
      (λ e. not (
        is_spent refusing fresh_pool
          (invoke_gemini_balanced refusing two_keys (some "secondary") both_entries fresh_pool).1
          e))
      both_entries
    ≡ 0
invoke_gemini_balanced_spent_example =
    invoke_gemini_balanced_spent refusing two_keys (some "secondary") both_entries fresh_pool
      both_refused

key_order-IsOrder_example :
    IsOrder two_keys
      (some "secondary")
      both_entries
      fresh_pool
      (key_order two_keys (some "secondary") both_entries fresh_pool)
key_order-IsOrder_example = key_order-IsOrder two_keys (some "secondary") both_entries fresh_pool

-- The clock stands at 5, before the end of the cooldown of the first key.
abbrev answering : World String
answering = record { monotonic = λ k. 5; cooldown = 60; client = λ k e. answer e.key }

abbrev cooling_pool : Pool
cooling_pool = record fresh_pool { cooldown_until = ("k1", 9) ∷ [] }

cooling_pool-Rests : Rests "k1" 9 0 cooling_pool
unfolding get_key string_eq
cooling_pool-Rests = (refl, refl)

five_lt_nine : (k : ℕ) → 5 < 9
five_lt_nine k = omega arith

-- The second key answers instead.
second_answers :
    (invoke_gemini_balanced answering two_keys none both_entries cooling_pool).0 ≡ ok "k2"
unfolding invoke_gemini_balanced key_order string_eq lower strip stage_preferred_key_order
    try_entries is_in_cooldown get_key invoke_with_retries
second_answers = refl

invoke_gemini_balanced-Rests_example :
    Rests "k1" 9 0 (invoke_gemini_balanced answering two_keys none both_entries cooling_pool).1
invoke_gemini_balanced-Rests_example =
    invoke_gemini_balanced-Rests answering "k1" 9 0 five_lt_nine two_keys none both_entries
      cooling_pool cooling_pool-Rests
