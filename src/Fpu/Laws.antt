-- ===== src/Fpu/Laws.antt =====
-- What the executor relies on of the FPU: how large its results and its flags are.
use zinc_simulator.Prelude.{ℕ, ◌^◌, ◌<◌, Result, IsFault, Ends}
use zinc_simulator.Insn.{OpFpType, FmaFpType, RoundingMode}
use zinc_simulator.Fpu.{Fpu, FpResult}

abbrev pub IsPacked : Result FpResult → Type 0
IsPacked r = Ends (λ (x : FpResult). (x.value < 2 ^ 64) × (x.flags < 2 ^ 5)) IsFault r

pub record FpuLaws (fpu : Fpu) : Type 0 where
  pub binary_packed :
      (op : OpFpType) (a b : ℕ) (rm : RoundingMode) → IsPacked (fpu.binary op a b rm)
  pub unary_packed : (op : OpFpType) (a : ℕ) (rm : RoundingMode) → IsPacked (fpu.unary op a rm)
  pub convert_packed : (op : OpFpType) (a : ℕ) (rm : RoundingMode) → IsPacked (fpu.convert op a rm)
  pub fma_packed : (op : FmaFpType) (a b d : ℕ) (rm : RoundingMode) → IsPacked (fpu.fma op a b d rm)
