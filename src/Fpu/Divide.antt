-- ===== src/Fpu/Divide.antt =====
-- `divide_unsigned` and `divide` of src/fpu.cpp.
pub mod Quotient
pub mod Ratio
pub mod Bounds
use zinc_simulator.Prelude.{
  ℕ, zero, suc, ◌+◌, ◌-◌, ◌*◌, ◌/◌, ◌%◌, ◌^◌, bit_and, bit_or, Bool, true, false, xor, ◌&&◌, ◌||◌,
  ltb, leb, if◌then◌else◌, ◌==◌, ◌!=◌, Result, ok, ◌>>=◌,
}
use zinc_simulator.Prelude.Int.{pos, ◌-ℤ◌}
use zinc_simulator.Word.{u64, ◌<<<◌, ◌>>>◌}
use zinc_simulator.Insn.{RoundingMode}
use zinc_simulator.Fpu.{FpClass, FpResult}
use zinc_simulator.Fpu.Unpack.{UnpackedFp32, unpack}
use zinc_simulator.Fpu.Round.{
  fp32_infinity, fp32_canonical_nan, fp_flag_nv, fp_flag_dz, packed, sign_bits, is_nan, is_zero,
  is_infinity, round_and_pack, propagate_nan,
}

pub record DivisionResult : Type 0 where
  pub quotient : ℕ
  pub remainder : ℕ

-- The body of the loop, for the digit of the dividend at position `bit`.
unfoldable pub divide_bit : (dividend divisor bit : ℕ) → DivisionResult → DivisionResult
divide_bit dividend divisor bit result =
    let remainder = bit_or (u64 (result.remainder <<< 1)) (bit_and (dividend >>> bit) 1) in
    if leb divisor remainder
    then record { quotient = bit_or result.quotient (1 <<< bit); remainder = remainder - divisor }
    else record { quotient = result.quotient; remainder = remainder }

-- The rounds from position `bits - 1` down to 0.
unfoldable pub divide_loop : (dividend divisor bits : ℕ) → DivisionResult → DivisionResult
divide_loop dividend divisor zero result = result
divide_loop dividend divisor (suc bit) result =
    divide_loop dividend divisor bit (divide_bit dividend divisor bit result)

unfoldable pub divide_unsigned : (dividend divisor : ℕ) → DivisionResult
divide_unsigned dividend divisor =
    divide_loop dividend divisor 64 (record { quotient = 0; remainder = 0 })

-- The end of `divide`, on finite operands other than zero.
unfoldable pub divide_finite : Bool → (lhs rhs : UnpackedFp32) → RoundingMode → Result FpResult
divide_finite sign lhs rhs rm =
    let smaller = ltb lhs.significand rhs.significand in
    let numerator = if smaller then u64 (lhs.significand <<< 1) else lhs.significand in
    let difference = lhs.exponent -ℤ rhs.exponent in
    let exponent = if smaller then difference -ℤ pos 1 else difference in
    let division = divide_unsigned (u64 (numerator <<< 26)) rhs.significand in
    let quotient =
      if division.remainder != 0 then bit_or division.quotient 1 else division.quotient in
    round_and_pack sign exponent quotient rm

unfoldable pub divide : (lhs_raw rhs_raw : ℕ) → RoundingMode → Result FpResult
divide lhs_raw rhs_raw rm = do
  lhs ← unpack lhs_raw
  rhs ← unpack rhs_raw
  let sign = xor lhs.sign rhs.sign
  let lhs_zero = is_zero lhs.fp_class
  let rhs_zero = is_zero rhs.fp_class
  let lhs_infinity = is_infinity lhs.fp_class
  let rhs_infinity = is_infinity rhs.fp_class
  if is_nan lhs.fp_class || is_nan rhs.fp_class
      then ok (propagate_nan lhs rhs)
      else if (lhs_zero && rhs_zero) || (lhs_infinity && rhs_infinity)
      then ok (packed fp32_canonical_nan fp_flag_nv)
      else if rhs_zero
      then ok (packed (bit_or (sign_bits sign) fp32_infinity) fp_flag_dz)
      else if lhs_infinity
      then ok (packed (bit_or (sign_bits sign) fp32_infinity) 0)
      else if lhs_zero || rhs_infinity
      then ok (packed (sign_bits sign) 0)
      else divide_finite sign lhs rhs rm
