-- ===== src/Base/Reals.antt =====
-- Python's floats, of which the program's own code is a client: their operations are a parameter.
use mathlib.Core.Bool.{Bool}
use mathlib.Core.Option.{Option, none, some}
use Prim.Native.Nat.{ℕ, ◌+◌, ◌*◌, ◌/◌, ◌^◌}
use verification_engine.Base.Equality.{if◌then◌else◌, ltb, leb}

pub record Floats (F : Type 0) : Type 0 where
  -- `a < b` and `a <= b`; both fail at a NaN
  pub lt : F → F → Bool
  pub le : F → F → Bool
  pub add : F → F → F
  pub mul : F → F → F
  -- the literal n / 10 ^ k
  pub decimal : ℕ → ℕ → F

module _ {F : Type 0} ⦃ops : Floats F⦄ where
  abbrev pub float_zero : F
  float_zero = ops.decimal 0 0

  abbrev pub float_one : F
  float_one = ops.decimal 1 0

  -- `min(a, b)` and `max(a, b)` keep the first of two values that compare equal
  abbrev pub float_min : F → F → F
  float_min a b = if ops.lt b a then b else a

  abbrev pub float_max : F → F → F
  float_max a b = if ops.lt a b then b else a

  -- `x or 0.0`
  abbrev pub or_zero : Option F → F
  or_zero none = float_zero
  or_zero (some x) = x

-- Numbers of the form n / 10 ^ 4, cut off below: an instance to run tests on.
abbrev pub myriad_floats : Floats ℕ
myriad_floats = record {
  lt = ltb;
  le = leb;
  add = λ a b. a + b;
  mul = λ a b. a * b / 10000;
  decimal = λ n k. n * 10000 / 10 ^ k;
}
