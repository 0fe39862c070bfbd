-- ===== src/Fpu/Arith.antt =====
-- Sum, difference, product and fused product-sum of src/fpu.cpp. Each takes its special cases in the
-- order of the source, and has the finite non-zero one in a function of its own.
pub mod Bounds
pub mod Fused
pub mod Product
use zinc_simulator.Prelude.{
  ℕ, ◌+◌, ◌-◌, ◌*◌, ◌/◌, ◌%◌, ◌^◌, bit_and, bit_or, Bool, true, false, not, xor, ◌&&◌, ◌||◌, ltb,
  leb, if◌then◌else◌, ◌==◌, ◌!=◌, Result, ok, err, logic_error, ◌>>=◌,
}
use zinc_simulator.Prelude.Int.{ℤ, pos, ◌+ℤ◌, ◌-ℤ◌, ltb_ℤ}
use zinc_simulator.Word.{u32, u64, ◌<<<◌, ◌>>>◌}
use zinc_simulator.Insn.{RoundingMode, FmaFpType}
use zinc_simulator.Fpu.{FpClass, FpResult}
use zinc_simulator.Fpu.Unpack.{UnpackedFp32, Scaled, to_unsigned, normalize, unpack}
use zinc_simulator.Fpu.Round.{
  fp32_sign_mask, fp32_magnitude_mask, fp32_infinity, fp32_canonical_nan, fp_flag_nv,
  fp32_wide_hidden_bit, UnroundedFp32, packed, sign_bits, is_nan, is_signaling_nan, is_zero,
  is_infinity, is_rdn, shift_right_jam, round_and_pack, round_and_pack_unrounded, propagate_nan,
}

-- Two significands brought to one exponent, the larger of the two.
pub record Aligned : Type 0 where
  pub exponent : ℤ
  pub lhs : ℕ
  pub rhs : ℕ

unfoldable pub align : ℤ → ℤ → (lhs rhs : ℕ) → Aligned
align lhs_exponent rhs_exponent lhs rhs =
    if ltb_ℤ rhs_exponent lhs_exponent
    then record {
      exponent = lhs_exponent;
      lhs = lhs;
      rhs = shift_right_jam rhs (to_unsigned (lhs_exponent -ℤ rhs_exponent));
    }
    else if ltb_ℤ lhs_exponent rhs_exponent
    then record {
      exponent = rhs_exponent;
      lhs = shift_right_jam lhs (to_unsigned (rhs_exponent -ℤ lhs_exponent));
      rhs = rhs;
    }
    else record { exponent = lhs_exponent; lhs = lhs; rhs = rhs }

-- The end of `add_or_sub`, on aligned significands.
unfoldable pub add_aligned : (lhs_sign rhs_sign : Bool) → Aligned → RoundingMode → Result FpResult
add_aligned lhs_sign rhs_sign a rm =
    if not (xor lhs_sign rhs_sign)
    then round_and_pack lhs_sign a.exponent (u64 (a.lhs + a.rhs)) rm
    else if a.lhs == a.rhs
    then ok (packed (if is_rdn rm then fp32_sign_mask else 0) 0)
    else let lhs_has_larger_magnitude = ltb a.rhs a.lhs in
      let result_significand = if lhs_has_larger_magnitude then a.lhs - a.rhs else a.rhs - a.lhs in
      let result_sign = if lhs_has_larger_magnitude then lhs_sign else rhs_sign in
      round_and_pack result_sign a.exponent result_significand rm

unfoldable pub add_or_sub : (lhs_raw rhs_raw : ℕ) → Bool → RoundingMode → Result FpResult
add_or_sub lhs_raw rhs_raw subtract rm = do
  lhs ← unpack lhs_raw
  rhs ← unpack rhs_raw
  let rhs_sign = xor rhs.sign subtract
  let lhs_zero = is_zero lhs.fp_class
  let rhs_zero = is_zero rhs.fp_class
  let lhs_infinity = is_infinity lhs.fp_class
  let rhs_infinity = is_infinity rhs.fp_class
  if is_nan lhs.fp_class || is_nan rhs.fp_class
      then ok (propagate_nan lhs rhs)
      else if lhs_infinity || rhs_infinity
      then if lhs_infinity && rhs_infinity && xor lhs.sign rhs_sign
        then ok (packed fp32_canonical_nan fp_flag_nv)
        else ok (
            packed (bit_or (sign_bits (if lhs_infinity then lhs.sign else rhs_sign)) fp32_infinity)
              0)
      else if lhs_zero && rhs_zero
      then ok (packed (sign_bits (if not (xor lhs.sign rhs_sign) then lhs.sign else is_rdn rm)) 0)
      else if lhs_zero
      then ok (packed (bit_or (bit_and rhs_raw fp32_magnitude_mask) (sign_bits rhs_sign)) 0)
      else if rhs_zero
      then ok (packed lhs_raw 0)
      else add_aligned lhs.sign rhs_sign
          (align lhs.exponent rhs.exponent (lhs.significand <<< 3) (rhs.significand <<< 3)) rm

-- The end of `multiply`, on finite operands other than zero.
unfoldable pub multiply_finite : Bool → (lhs rhs : UnpackedFp32) → RoundingMode → Result FpResult
multiply_finite sign lhs rhs rm =
    let product = u64 (lhs.significand * rhs.significand) in
    let product_at_least_two = bit_and product (1 <<< 47) != 0 in
    let shift = if product_at_least_two then 21 else 20 in
    let exponent =
      lhs.exponent +ℤ rhs.exponent +ℤ (if product_at_least_two then pos 1 else pos 0) in
    round_and_pack sign exponent (shift_right_jam product shift) rm

unfoldable pub multiply : (lhs_raw rhs_raw : ℕ) → RoundingMode → Result FpResult
multiply lhs_raw rhs_raw rm = do
  lhs ← unpack lhs_raw
  rhs ← unpack rhs_raw
  let sign = xor lhs.sign rhs.sign
  let lhs_zero = is_zero lhs.fp_class
  let rhs_zero = is_zero rhs.fp_class
  let lhs_infinity = is_infinity lhs.fp_class
  let rhs_infinity = is_infinity rhs.fp_class
  if is_nan lhs.fp_class || is_nan rhs.fp_class
      then ok (propagate_nan lhs rhs)
      else if (lhs_zero && rhs_infinity) || (lhs_infinity && rhs_zero)
      then ok (packed fp32_canonical_nan fp_flag_nv)
      else if lhs_infinity || rhs_infinity
      then ok (packed (bit_or (sign_bits sign) fp32_infinity) 0)
      else if lhs_zero || rhs_zero
      then ok (packed (sign_bits sign) 0)
      else multiply_finite sign lhs rhs rm

-- A signed magnitude: of `compute_fma`, the sign and the significand before normalisation.
pub record Signed : Type 0 where
  pub sign : Bool
  pub significand : ℕ

unfoldable pub fma_sum : (product_sign addend_sign : Bool) (product addend : ℕ) → Signed
fma_sum product_sign addend_sign product addend =
    if not (xor product_sign addend_sign)
    then record { sign = product_sign; significand = u64 (product + addend) }
    else if leb addend product
    then record { sign = product_sign; significand = product - addend }
    else record { sign = addend_sign; significand = addend - product }

-- The product and the addend of `compute_fma`, aligned.
unfoldable pub fma_aligned : (lhs rhs addend : UnpackedFp32) → Aligned
fma_aligned lhs rhs addend =
    let product = u64 (lhs.significand * rhs.significand) in
    let product_at_least_two = bit_and product (1 <<< 47) != 0 in
    let product_significand = u64 (product <<< (if product_at_least_two then 15 else 16)) in
    let product_exponent =
      lhs.exponent +ℤ rhs.exponent +ℤ (if product_at_least_two then pos 1 else pos 0) in
    let addend_significand = u64 (addend.significand <<< 39) in
    let addend_exponent = if addend_significand == 0 then product_exponent else addend.exponent in
    align product_exponent addend_exponent product_significand addend_significand

unfoldable pub compute_fma :
    (lhs rhs addend : UnpackedFp32) → (product_sign addend_sign : Bool) → Result UnroundedFp32
compute_fma lhs rhs addend product_sign addend_sign =
    let a = fma_aligned lhs rhs addend in
    let sum = fma_sum product_sign addend_sign a.lhs a.rhs in
    if sum.significand == 0
    then ok (record { sign = false; exponent = a.exponent; significand = 0 })
    else (do
      s ←
          normalize 64 (bit_or fp32_wide_hidden_bit (1 <<< 63)) 64
            (record { exponent = a.exponent; significand = sum.significand })
      ok (record {
        sign = sum.sign;
        exponent = s.exponent;
        significand = shift_right_jam s.significand 36;
      }))

abbrev negate_product : FmaFpType → Bool
negate_product FmaFpType.madd = false
negate_product FmaFpType.msub = false
negate_product FmaFpType.nmsub = true
negate_product FmaFpType.nmadd = true

abbrev negate_addend : FmaFpType → Bool
negate_addend FmaFpType.madd = false
negate_addend FmaFpType.msub = true
negate_addend FmaFpType.nmsub = false
negate_addend FmaFpType.nmadd = true

-- The end of `fma`, on finite operands with a product other than zero.
unfoldable pub fma_finite :
    (lhs rhs addend : UnpackedFp32)
    → (product_sign addend_sign : Bool) → RoundingMode
    → Result FpResult
fma_finite lhs rhs addend product_sign addend_sign rm = do
  result ← compute_fma lhs rhs addend product_sign addend_sign
  round_and_pack_unrounded
      (record result { sign = if result.significand == 0 then is_rdn rm else result.sign }) rm

unfoldable pub fma : FmaFpType → (lhs_raw rhs_raw addend_raw : ℕ) → RoundingMode → Result FpResult
fma op lhs_raw rhs_raw addend_raw rm = do
  lhs ← unpack lhs_raw
  rhs ← unpack rhs_raw
  addend ← unpack addend_raw
  let product_sign = xor (xor lhs.sign rhs.sign) (negate_product op)
  let addend_sign = xor addend.sign (negate_addend op)
  let lhs_zero = is_zero lhs.fp_class
  let rhs_zero = is_zero rhs.fp_class
  let lhs_infinity = is_infinity lhs.fp_class
  let rhs_infinity = is_infinity rhs.fp_class
  let addend_infinity = is_infinity addend.fp_class
  let invalid_product = (lhs_zero && rhs_infinity) || (lhs_infinity && rhs_zero)
  let any_nan = is_nan lhs.fp_class || is_nan rhs.fp_class || is_nan addend.fp_class
  let signaling_nan =
      is_signaling_nan lhs.fp_class
      || is_signaling_nan rhs.fp_class
      || is_signaling_nan addend.fp_class
  if any_nan || invalid_product
      then ok
          (packed fp32_canonical_nan (if signaling_nan || invalid_product then fp_flag_nv else 0))
      else if lhs_infinity || rhs_infinity
      then if addend_infinity && xor product_sign addend_sign
        then ok (packed fp32_canonical_nan fp_flag_nv)
        else ok (packed (bit_or (sign_bits product_sign) fp32_infinity) 0)
      else if addend_infinity
      then ok (packed (bit_or (sign_bits addend_sign) fp32_infinity) 0)
      else if lhs_zero || rhs_zero
      then if is_zero addend.fp_class
        then ok (
            packed
              (sign_bits (if not (xor product_sign addend_sign) then product_sign else is_rdn rm))
              0)
        else ok (packed (bit_or (bit_and addend_raw fp32_magnitude_mask) (sign_bits addend_sign)) 0)
      else fma_finite lhs rhs addend product_sign addend_sign rm
