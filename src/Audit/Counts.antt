-- ===== src/Audit/Counts.antt =====
-- audit/service.py, _build_finding_counts: the counts that a receipt holds.
use verification_engine.Base.{
  Bool, Option, Result, String, [], bool_eq, contains, err, false, if◌then◌else◌, nat_eq, none, not,
  ok, option_eq, or_empty, some, string_eq, true, upper, ℕ, ◌==◌, ◌||◌, ◌∷◌,
}
use verification_engine.Json.{Fields, Json, bytes, dict, end, field, flag, list, null, number, text}

pub record FindingCounts : Type 0 where
  pub green : ℕ
  pub amber : ℕ
  pub red : ℕ
  pub unknown : Bool

-- `max(0, int(value))`, or its exception: a TypeError or ValueError, which are caught, or another
-- one by its name, such as the OverflowError of an infinite float.
pub data Coerced : Type 0 where
  whole : ℕ → Coerced
  not_a_count : Coerced
  escapes : String → Coerced

abbrev pub caught : Coerced → Result String (Option ℕ)
caught (whole n) = ok (some n)
caught not_a_count = ok none
caught (escapes error) = err error

abbrev pub unless_raised :
    {A B : Type 0} → Result String A → (A → Result String B) → Result String B
unless_raised (err error) next = err error
unless_raised (ok a) next = next a

abbrev pub counts_of_outcome : String → FindingCounts
counts_of_outcome outcome =
    let green = if outcome == "GREEN" then 1 else 0 in
    let amber = if outcome == "AMBER" then 1 else 0 in
    let red = if outcome == "RED" then 1 else 0 in
    let unknown = not (contains ("GREEN" ∷ "AMBER" ∷ "RED" ∷ []) outcome) in
    record { green = green; amber = amber; red = red; unknown = unknown }

module _ {F : Type 0} where
  -- `fields.get(key)`
  unfoldable pub get_field : String → Fields F → Option (Json F)
  get_field key end = none
  get_field key (field k value rest) =
      let later = get_field key rest in if k == key then some value else later

  -- `_summary_from_payload`, as the dict's fields
  abbrev pub fields_of : Option (Json F) → Fields F
  fields_of (some (dict fields)) = fields
  fields_of (some null) = end
  fields_of (some (flag b)) = end
  fields_of (some (number n)) = end
  fields_of (some (text s)) = end
  fields_of (some bytes) = end
  fields_of (some (list items)) = end
  fields_of none = end

  abbrev pub summary_from_payload : Option (Json F) → Fields F
  summary_from_payload payload = fields_of (get_field "summary" (fields_of payload))

  module _ (int_of : Json F → Coerced) where
    -- `_coerce_count`, with the name of an exception that it does not catch
    unfoldable pub coerce_count : Option (Json F) → Result String (Option ℕ)
    coerce_count none = ok none
    coerce_count (some null) = ok none
    coerce_count (some (flag b)) = caught (int_of (flag b))
    coerce_count (some (number n)) = caught (int_of (number n))
    coerce_count (some (text s)) = caught (int_of (text s))
    coerce_count (some bytes) = caught (int_of bytes)
    coerce_count (some (list items)) = caught (int_of (list items))
    coerce_count (some (dict fields)) = caught (int_of (dict fields))

    abbrev pub or_zero_count : Option ℕ → ℕ
    or_zero_count none = 0
    or_zero_count (some n) = n

    abbrev pub is_given : Option ℕ → Bool
    is_given none = false
    is_given (some n) = true

    abbrev pub counts_given : (green amber red : Option ℕ) → Option FindingCounts
    counts_given green amber red =
        if is_given green || is_given amber || is_given red
        then some (record {
          green = or_zero_count green;
          amber = or_zero_count amber;
          red = or_zero_count red;
          unknown = false;
        })
        else none

    -- `_counts_from_summary`
    unfoldable pub counts_from_summary : Fields F → Result String (Option FindingCounts)
    counts_from_summary summary =
        unless_raised (coerce_count (get_field "green_count" summary)) λ green.
          unless_raised (coerce_count (get_field "amber_count" summary)) λ amber.
            unless_raised (coerce_count (get_field "red_count" summary))
              λ red. ok (counts_given green amber red)

    abbrev pub or_count :
        Option FindingCounts → Result String FindingCounts → Result String FindingCounts
    or_count (some counts) later = ok counts
    or_count none later = later

    -- `_build_finding_counts` of the session's workspace_payload, its
    -- verification_execution_summary_payload and its trust_outcome
    unfoldable pub build_finding_counts :
        (workspace execution : Option (Json F)) (outcome : Option String)
        → Result String FindingCounts
    unfolding counts_from_summary
    build_finding_counts workspace execution outcome =
        unless_raised (counts_from_summary (summary_from_payload workspace)) λ counts.
          or_count counts (
            unless_raised (counts_from_summary (summary_from_payload execution))
              λ later. or_count later (ok (counts_of_outcome (upper (or_empty outcome)))))

-- The dict of a record of counts; `of_count` is Python's int.
abbrev pub counts_payload : {F : Type 0} → (ℕ → F) → FindingCounts → Json F
counts_payload of_count c = dict (
    field "green" (number (of_count c.green)) (
      field "amber" (number (of_count c.amber)) (
        field "red" (number (of_count c.red))
          (if c.unknown then field "unknown" (flag true) end else end))))
