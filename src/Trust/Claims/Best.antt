-- ===== src/Trust/Claims/Best.antt =====
-- trust/findings.py: which result of a claim counts.
use verification_engine.Base.{
  Bool, Floats, List, Option, String, [], bool_eq, contains, dedupe, if◌then◌else◌, ltb, nat_eq,
  none, option_eq, some, string_eq, ℕ, ◌&&◌, ◌++◌, ◌==◌, ◌||◌, ◌∷◌,
}
use verification_engine.Trust.Codes.{safe_string}
use verification_engine.Trust.Claims.{Claim, TaskResult, clamp, color_eq, word}

module _ {F : Type 0} where
  -- `result[key] for key in ("credential_id", "claim_id", "field_id")`, each result once per key
  unfoldable pub results_for : String → List (TaskResult F) → List (TaskResult F)
  unfolding safe_string
  results_for key [] = []
  results_for key (r ∷ results) =
      (if safe_string r.credential_id == some key then r ∷ [] else [])
      ++ (if safe_string r.claim_id == some key then r ∷ [] else [])
      ++ (if safe_string r.field_id == some key then r ∷ [] else [])
      ++ results_for key results

  unfoldable pub gather : List (Option String) → List (TaskResult F) → List (TaskResult F)
  unfolding results_for safe_string
  gather [] results = []
  gather (key ∷ rest) results = elim (safe_string key) [
    | none ↦ gather rest results
    | some k ↦ results_for k results ++ gather rest results
  ]

  abbrev or_all : List (TaskResult F) → List (TaskResult F) → List (TaskResult F)
  or_all [] all_results = all_results
  or_all (r ∷ found) all_results = r ∷ found

  -- The candidates of `_best_result_for_claim`. Python leaves the order of the set of keys open;
  -- here it is the order in which they are written.
  unfoldable pub candidates_for : Claim F → List (TaskResult F) → List (TaskResult F)
  unfolding gather dedupe
  candidates_for claim results =
      or_all (gather (dedupe (claim.credential_id ∷ claim.claim_id ∷ claim.field_id ∷ [])) results)
        results

  -- The first component of `_result_priority`.
  unfoldable pub priority : TaskResult F → ℕ
  priority r =
      if word r.audit_status == "MISMATCH" || word r.outcome_color == "RED"
      then 4
      else if word r.audit_status == "VERIFIED" && word r.outcome_color == "GREEN"
      then 3
      else if contains ("PARTIAL" ∷ "UNVERIFIED" ∷ []) (word r.audit_status)
      then 2
      else 1

module _ {F : Type 0} ⦃ops : Floats F⦄ where
  abbrev pub result_confidence : TaskResult F → F
  result_confidence r = elim r.confidence [ none ↦ clamp none | some c ↦ clamp c ]

  -- `_result_priority(r) < _result_priority(q)`, on tuples
  unfoldable pub ranks_below : TaskResult F → TaskResult F → Bool
  ranks_below r q =
      if priority r == priority q
      then ops.lt (result_confidence r) (result_confidence q)
      else ltb (priority r) (priority q)

  -- `max(candidates, key=_result_priority)` keeps the first of equals.
  unfoldable pub best_from : TaskResult F → List (TaskResult F) → TaskResult F
  best_from best [] = best
  best_from best (r ∷ rest) = best_from (if ranks_below best r then r else best) rest

  abbrev pub best_of : List (TaskResult F) → Option (TaskResult F)
  best_of [] = none
  best_of (r ∷ rest) = some (best_from r rest)

  -- `_best_result_for_claim`
  unfoldable pub best_result_for_claim : Claim F → List (TaskResult F) → Option (TaskResult F)
  best_result_for_claim claim results = best_of (candidates_for claim results)
