-- ===== src/Fpu.antt =====
-- include/fpu.h and the classification of src/fpu.cpp: what the executor uses of the FPU. Its four
-- arithmetic entry points are an interface, which Fpu/Unit.antt implements; the other children are
-- the code behind them.
pub mod Laws
pub mod Unpack
pub mod Round
pub mod Convert
pub mod Unit
pub mod Compare
pub mod SquareRoot
pub mod Divide
pub mod Arith
use zinc_simulator.Prelude.{ℕ, bit_and, Bool, if◌then◌else◌, ◌==◌, ◌!=◌, Result}
use zinc_simulator.Word.{◌<<<◌, ◌>>>◌}
use zinc_simulator.Insn.{OpFpType, FmaFpType, RoundingMode}

pub record FpResult : Type 0 where
  pub value : ℕ
  pub flags : ℕ

pub data FpClass : Type 0 where
  zero subnormal normal infinity signaling_nan quiet_nan : FpClass

-- `Fpu::binary`, `unary`, `convert` and `fma`.
pub record Fpu : Type 0 where
  pub binary : OpFpType → ℕ → ℕ → RoundingMode → Result FpResult
  pub unary : OpFpType → ℕ → RoundingMode → Result FpResult
  pub convert : OpFpType → ℕ → RoundingMode → Result FpResult
  pub fma : FmaFpType → ℕ → ℕ → ℕ → RoundingMode → Result FpResult

-- `UnpackedFp32(raw).sign_bit()`
unfoldable pub sign_bit : ℕ → Bool
sign_bit raw = bit_and (raw >>> 31) 1 != 0

-- `UnpackedFp32(raw).classification()`
unfoldable pub classification : ℕ → FpClass
classification raw =
    let raw_exponent = bit_and (raw >>> 23) 0xff in
    let fraction = bit_and raw 0x7fffff in
    if raw_exponent == 0xff
    then if fraction == 0
      then FpClass.infinity
      else if bit_and fraction (1 <<< 22) != 0
      then FpClass.quiet_nan
      else FpClass.signaling_nan
    else if raw_exponent == 0
    then if fraction == 0 then FpClass.zero else FpClass.subnormal
    else FpClass.normal
