-- ===== src/Fpu/Unit.antt =====
-- The entry points of src/fpu.cpp, `Fpu::binary`, `unary`, `convert` and `fma`, as an instance of
-- the interface that the executor takes. A parameter of type `uint32_t` truncates its argument.
pub mod Total
use zinc_simulator.Prelude.{
  ℕ, ◌-◌, ◌*◌, ◌%◌, ◌^◌, bit_and, bit_or, bit_xor, false, true, Result, ok, err, logic_error,
}
use zinc_simulator.Word.{u32, u64, not32, ◌<<<◌}
use zinc_simulator.Insn.{OpFpType, FmaFpType, RoundingMode}
use zinc_simulator.Fpu.{Fpu, FpResult}
use zinc_simulator.Fpu.Round.{fp32_sign_mask, fp32_magnitude_mask, packed}
use zinc_simulator.Fpu.Arith.{add_or_sub, multiply, fma}
use zinc_simulator.Fpu.Divide.{divide}
use zinc_simulator.Fpu.SquareRoot.{square_root}
use zinc_simulator.Fpu.Compare.{compare, min_or_max}
use zinc_simulator.Fpu.Convert.{float_to_integer, integer_to_float}

unfoldable pub binary : OpFpType → (lhs rhs : ℕ) → RoundingMode → Result FpResult
binary OpFpType.add lhs rhs rm = add_or_sub lhs rhs false rm
binary OpFpType.sub lhs rhs rm = add_or_sub lhs rhs true rm
binary OpFpType.mul lhs rhs rm = multiply lhs rhs rm
binary OpFpType.div lhs rhs rm = divide lhs rhs rm
binary OpFpType.min lhs rhs rm = min_or_max lhs rhs false
binary OpFpType.max lhs rhs rm = min_or_max lhs rhs true
binary OpFpType.sgnj lhs rhs rm =
    ok (packed (bit_or (bit_and lhs fp32_magnitude_mask) (bit_and rhs fp32_sign_mask)) 0)
binary OpFpType.sgnjn lhs rhs rm =
    ok (packed (bit_or (bit_and lhs fp32_magnitude_mask) (bit_and (not32 rhs) fp32_sign_mask)) 0)
binary OpFpType.sgnjx lhs rhs rm =
    ok (
      packed (bit_or (bit_and lhs fp32_magnitude_mask) (bit_and (bit_xor lhs rhs) fp32_sign_mask))
        0)
binary OpFpType.eq lhs rhs rm = compare OpFpType.eq lhs rhs
binary OpFpType.lt lhs rhs rm = compare OpFpType.lt lhs rhs
binary OpFpType.le lhs rhs rm = compare OpFpType.le lhs rhs
binary _ lhs rhs rm = err logic_error

unfoldable pub unary : OpFpType → ℕ → RoundingMode → Result FpResult
unary OpFpType.sqrt operand rm = square_root operand rm
unary _ operand rm = err logic_error

unfoldable pub convert : OpFpType → ℕ → RoundingMode → Result FpResult
convert OpFpType.cvt_w_from_s operand rm = float_to_integer OpFpType.cvt_w_from_s (u32 operand) rm
convert OpFpType.cvt_wu_from_s operand rm = float_to_integer OpFpType.cvt_wu_from_s (u32 operand) rm
convert OpFpType.cvt_l_from_s operand rm = float_to_integer OpFpType.cvt_l_from_s (u32 operand) rm
convert OpFpType.cvt_lu_from_s operand rm = float_to_integer OpFpType.cvt_lu_from_s (u32 operand) rm
convert OpFpType.cvt_s_to_w operand rm = integer_to_float OpFpType.cvt_s_to_w operand rm
convert OpFpType.cvt_s_to_wu operand rm = integer_to_float OpFpType.cvt_s_to_wu operand rm
convert OpFpType.cvt_s_to_l operand rm = integer_to_float OpFpType.cvt_s_to_l operand rm
convert OpFpType.cvt_s_to_lu operand rm = integer_to_float OpFpType.cvt_s_to_lu operand rm
convert _ operand rm = err logic_error

-- `operand` of `convert` is a `uint64_t`.
abbrev pub unit : Fpu
unit = record {
  binary = λ op lhs rhs rm. binary op (u32 lhs) (u32 rhs) rm;
  unary = λ op operand rm. unary op (u32 operand) rm;
  convert = λ op operand rm. convert op (u64 operand) rm;
  fma = λ op lhs rhs addend rm. fma op (u32 lhs) (u32 rhs) (u32 addend) rm;
}
