-- ===== src/Fpu/SquareRoot.antt =====
-- `square_root_unsigned` and `square_root` of src/fpu.cpp.
pub mod Root
pub mod Bounds
use zinc_simulator.Prelude.{
  ℕ, zero, suc, ◌+◌, ◌-◌, ◌*◌, ◌/◌, ◌%◌, ◌^◌, bit_and, bit_or, Bool, true, false, ltb, leb,
  if◌then◌else◌, ◌==◌, ◌!=◌, Result, ok, err, undefined_behaviour, ◌>>=◌,
}
use zinc_simulator.Prelude.Int.{ℤ, pos, negsuc, ◌-ℤ◌}
use zinc_simulator.Word.{u32, u64, not32, ◌<<<◌, ◌>>>◌}
use zinc_simulator.Insn.{RoundingMode}
use zinc_simulator.Fpu.{FpClass, FpResult}
use zinc_simulator.Fpu.Unpack.{UnpackedFp32, unpack, to_unsigned}
use zinc_simulator.Fpu.Round.{
  fp32_infinity, fp32_canonical_nan, fp_flag_nv, packed, is_nan, is_signaling_nan, is_zero,
  is_infinity, round_and_pack,
}

pub record SquareRootResult : Type 0 where
  pub root : ℕ
  pub remainder : ℕ

-- `while (bit > value) bit >>= 2;`
unfoldable pub first_bit : (fuel value bit : ℕ) → Result ℕ
first_bit zero value bit = err undefined_behaviour
first_bit (suc fuel) value bit = elim (ltb value bit) [
  | true ↦ first_bit fuel value (bit >>> 2)
  | false ↦ ok bit
]

-- The body of the second loop.
unfoldable pub root_bit : ℕ → SquareRootResult → SquareRootResult
root_bit bit r =
    if leb (u64 (r.root + bit)) r.remainder
    then record { root = u64 (r.root >>> 1 + bit); remainder = r.remainder - u64 (r.root + bit) }
    else record { root = r.root >>> 1; remainder = r.remainder }

-- `while (bit != 0) { …; bit >>= 2; }`
unfoldable pub root_loop : (fuel bit : ℕ) → SquareRootResult → Result SquareRootResult
root_loop zero bit r = err undefined_behaviour
root_loop (suc fuel) bit r = elim (bit == 0) [
  | true ↦ ok r
  | false ↦ root_loop fuel (bit >>> 2) (root_bit bit r)
]

unfoldable pub square_root_unsigned : ℕ → Result SquareRootResult
square_root_unsigned value = do
  bit ← first_bit 64 value (1 <<< 62)
  root_loop 64 bit (record { root = 0; remainder = value })

-- `exponent / 2` on an `int32_t`, which rounds towards zero.
abbrev half : ℤ → ℤ
half (pos n) = pos (n / 2)
half (negsuc n) = pos 0 -ℤ pos ((n + 1) / 2)

-- The end of `square_root`, on a positive finite operand.
unfoldable pub root_finite : UnpackedFp32 → RoundingMode → Result FpResult
unfolding ◌-ℤ◌
root_finite operand rm = do
  let odd = bit_and (to_unsigned operand.exponent) 1 != 0
  let significand = if odd then u64 (operand.significand <<< 1) else operand.significand
  let exponent = if odd then operand.exponent -ℤ pos 1 else operand.exponent
  result ← square_root_unsigned (u64 (significand <<< 29))
  round_and_pack false (half exponent)
      (if result.remainder != 0 then bit_or result.root 1 else result.root) rm

unfoldable pub square_root : ℕ → RoundingMode → Result FpResult
square_root raw rm = do
  operand ← unpack raw
  if is_nan operand.fp_class
      then ok
          (packed fp32_canonical_nan (if is_signaling_nan operand.fp_class then fp_flag_nv else 0))
      else if is_zero operand.fp_class
      then ok (packed raw 0)
      else if operand.sign
      then ok (packed fp32_canonical_nan fp_flag_nv)
      else if is_infinity operand.fp_class
      then ok (packed fp32_infinity 0)
      else root_finite operand rm
