-- ===== src/Trust/Fields/Unverified.antt =====
-- Extraction and AI confidence alone do not make a field GREEN.
use mathlib.Core.Bool.{false≢true}
use Prim.Native.Nat.{◌*◌, ◌/◌, ◌^◌}
use verification_engine.Base.{
  Bool, Floats, arith, bool_eq, false, float_one, float_zero, myriad_floats, nat_eq, none,
  option_eq, refl, string_eq, sym, true, ℕ, ◌*◌, ◌∙◌, ◌≡◌, ◌≢◌, ◌≤◌,
}
use verification_engine.Trust.Claims.{color_eq, green}
use verification_engine.Trust.Fields.{
  FieldInput, determine_field_decision, fuse, verifier_status_eq,
}
use verification_engine.Trust.Fields.Overrides.{green_iff_no_override}

-- The literals that are used are at most 1.0 and a multiple of a hundredth.
abbrev pub IsHundredth : ℕ → ℕ → Type 0
IsHundredth n k = (1 ≤ n) × (n ≤ 10 ^ k) × (k ≤ 2)

-- What is used of float arithmetic. `is_finite` is `math.isfinite`. What lies below a finite number
-- is no NaN and not the positive infinity, so that sums of such numbers keep their order, and so do
-- products with a positive literal. The last four are facts on literals: 0.40 + 0.25 and the further
-- sums are finite, and 0.40 + 0.25 + 0.25 * 0.0 + 0.10 < 0.80.
pub record FloatLaws (F : Type 0) ⦃ops : Floats F⦄ : Type 0 where
  pub is_finite : F → Bool
  pub le_refl : (a : F) → is_finite a ≡ true → ops.le a a ≡ true
  pub le_trans : (a b c : F) → ops.le a b ≡ true → ops.le b c ≡ true → ops.le a c ≡ true
  pub add_mono :
      (a b c d : F)
      → is_finite b ≡ true
      → is_finite d ≡ true
      → ops.le a b ≡ true
      → ops.le c d ≡ true
      → ops.le (ops.add a c) (ops.add b d) ≡ true
  pub mul_mono :
      (n k : ℕ) (a b : F)
      → IsHundredth n k
      → is_finite b ≡ true
      → ops.le a b ≡ true
      → ops.le (ops.mul (ops.decimal n k) a) (ops.mul (ops.decimal n k) b) ≡ true
  pub finite_literals : (is_finite float_one ≡ true) × (is_finite float_zero ≡ true)
  pub finite_product :
      (n k : ℕ) (b : F)
      → IsHundredth n k
      → is_finite b ≡ true
      → is_finite (ops.mul (ops.decimal n k) b) ≡ true
  pub finite_sums :
      let two =
        ops.add (ops.mul (ops.decimal 40 2) float_one) (ops.mul (ops.decimal 25 2) float_one) in
      (is_finite two ≡ true)
      × (is_finite (ops.add two (ops.mul (ops.decimal 25 2) float_zero)) ≡ true)
  pub unverified_sum :
      ops.le (ops.decimal 80 2) (fuse float_one float_one float_zero float_one) ≡ false

w40 : IsHundredth 40 2
w40 = (omega arith, omega arith, omega arith)

w25 : IsHundredth 25 2
w25 = (omega arith, omega arith, omega arith)

w10 : IsHundredth 10 2
w10 = (omega arith, omega arith, omega arith)

module _ {F : Type 0} ⦃ops : Floats F⦄ (laws : FloatLaws F) where
  -- The fused confidence is at most that of the reference 1.0, 1.0, 0.0 and 1.0.
  fuse_mono :
      (e a v g : F)
      → ops.le e float_one ≡ true
      → ops.le a float_one ≡ true
      → ops.le v float_zero ≡ true
      → ops.le g float_one ≡ true
      → ops.le (fuse e a v g) (fuse float_one float_one float_zero float_one) ≡ true
  unfolding fuse
  fuse_mono e a v g he ha hv hg =
      let (one, of_zero) = laws.finite_literals in
      let (two, three) = laws.finite_sums in
      laws.add_mono _ _ _ _ three (laws.finite_product 10 2 float_one w10 one)
        (laws.add_mono _ _ _ _ two (laws.finite_product 25 2 float_zero w25 of_zero)
          (laws.add_mono _ _ _ _ (laws.finite_product 40 2 float_one w40 one)
            (laws.finite_product 25 2 float_one w25 one) (laws.mul_mono 40 2 e float_one w40 one he)
            (laws.mul_mono 25 2 a float_one w25 one ha))
          (laws.mul_mono 25 2 v float_zero w25 of_zero hv))
        (laws.mul_mono 10 2 g float_one w10 one hg)

  -- With no verifier result, and with confidences of at most 1.0, no field is GREEN.
  pub unverified_not_green :
      (input : FieldInput F)
      → input.verifier_result ≡ none
      → ops.le input.extraction_confidence float_one ≡ true
      → ops.le input.ai_confidence float_one ≡ true
      → ops.le input.grounding_confidence float_one ≡ true
      → (determine_field_decision input).status ≢ green
  unverified_not_green input unverified he ha hg is_green = false≢true (
      sym laws.unverified_sum
      ∙ laws.le_trans _ _ _ ((green_iff_no_override input).0 is_green).3 (
          rw unverified (
            fuse_mono input.extraction_confidence input.ai_confidence float_zero
              input.grounding_confidence he ha (laws.le_refl _ laws.finite_literals.1) hg)))

myriad_mul : (k a b : ℕ) → a ≤ b → k * a / 10000 ≤ k * b / 10000
myriad_mul k a b h = grind arith

pub myriad_laws : FloatLaws ℕ ⦃ops = myriad_floats⦄
unfolding fuse
myriad_laws = record {
  is_finite = λ a. true;
  le_refl = λ a f. ground arith;
  le_trans = λ a b c p q. ground arith;
  add_mono = λ a b c d f g p q. ground arith;
  mul_mono = λ n k a b w f p. ground (arith, myriad_mul (n * 10000 / 10 ^ k) a b);
  finite_literals = (refl, refl);
  finite_product = λ n k b w f. refl;
  finite_sums = (refl, refl);
  unverified_sum = refl;
}
