-- ===== src/Fpu/Unit/Total.antt =====
-- The FPU fulfils what the executor relies on, and every operation that the executor asks it for
-- ends: the loops terminate, and nothing but a rounding mode is refused.
use zinc_simulator.Prelude.{
  ℕ, ◌-◌, ◌^◌, ◌<◌, bit_and, bit_or, bit_xor, ◌≡◌, refl, arith, Bool, true, false, ◌||◌, ◌&&◌,
  Result, Fault, logic_error, Ends-weaken, Ends, returns, throws, Ends-map,
}
use zinc_simulator.Word.{u32, u64, not32}
use zinc_simulator.Word.Bits.{bit_or-lt}
use zinc_simulator.Word.Fields.{and_low, and_field}
use zinc_simulator.Insn.{OpFpType, FmaFpType, RoundingMode}
use zinc_simulator.Fpu.{FpResult}
use zinc_simulator.Fpu.Laws.{IsPacked, FpuLaws}
use zinc_simulator.Fpu.Round.Bounds.{is_static, IsRefusal, IsWord}
use zinc_simulator.Fpu.Arith.Bounds.{add_or_sub-Ok, multiply-Ok}
use zinc_simulator.Fpu.Arith.Fused.{fma-Ok}
use zinc_simulator.Fpu.Divide.Bounds.{divide-Ok}
use zinc_simulator.Fpu.SquareRoot.Bounds.{square_root-Ok}
use zinc_simulator.Fpu.Compare.Bounds.{compare-IsWord, min_or_max-IsWord}
use zinc_simulator.Fpu.Convert.Bounds.{
  is_from_integer, is_to_integer, IsLong, integer_to_float-Ok, float_to_integer-Ends,
}
use zinc_simulator.Fpu.Convert.{float_to_integer, integer_to_float}
use zinc_simulator.Fpu.Unit.{binary, unary, convert, unit}

abbrev pub is_binary : OpFpType → Bool
is_binary OpFpType.add = true
is_binary OpFpType.sub = true
is_binary OpFpType.mul = true
is_binary OpFpType.div = true
is_binary OpFpType.min = true
is_binary OpFpType.max = true
is_binary OpFpType.sgnj = true
is_binary OpFpType.sgnjn = true
is_binary OpFpType.sgnjx = true
is_binary OpFpType.eq = true
is_binary OpFpType.lt = true
is_binary OpFpType.le = true
is_binary _ = false

-- Magnitude of one operand, sign of another.
join-IsWord :
    (a s : ℕ)
    → IsWord (record { value = bit_or (bit_and a (2 ^ 31 - 1)) (bit_and s (2 ^ 31)); flags = 0 })
join-IsWord a s = (
  bit_or-lt 32 (bit_and a (2 ^ 31 - 1)) (bit_and s (2 ^ 31)) (omega (arith, and_low 31 a))
      (omega (arith, and_field 31 1 s)),
  omega arith,
)

abbrev pub is_sqrt : OpFpType → Bool
is_sqrt OpFpType.sqrt = true
is_sqrt _ = false

-- `std::logic_error`, for an operation or a rounding mode that is not supported.
abbrev pub IsRefused : Bool → RoundingMode → Fault → Type 0
IsRefused supported rm e = (e ≡ logic_error) × ((supported && is_static rm) ≡ false)

refused :
    {P : FpResult → Type 0} {m : Result FpResult} (supported : Bool) (rm : RoundingMode)
    → Ends P (IsRefusal rm) m
    → Ends P (IsRefused supported rm) m
refused supported rm h = Ends-weaken h (λ x p. p) (λ e (l, s). (l, ground arith))

module _ (a b : ℕ) (rm : RoundingMode) (ha : a < 2 ^ 32) (hb : b < 2 ^ 32) where
  binary-Ends : (op : OpFpType) → Ends IsWord (IsRefused (is_binary op) rm) (binary op a b rm)
  unfolding binary
  binary-Ends OpFpType.add = refused true rm (add_or_sub-Ok a b false rm ha)
  binary-Ends OpFpType.sub = refused true rm (add_or_sub-Ok a b true rm ha)
  binary-Ends OpFpType.mul = refused true rm (multiply-Ok a b rm)
  binary-Ends OpFpType.div = refused true rm (divide-Ok a b rm)
  binary-Ends OpFpType.min = min_or_max-IsWord a b false ha hb
  binary-Ends OpFpType.max = min_or_max-IsWord a b true ha hb
  binary-Ends OpFpType.sgnj = returns (join-IsWord a b)
  binary-Ends OpFpType.sgnjn = returns (join-IsWord a (not32 b))
  binary-Ends OpFpType.sgnjx = returns (join-IsWord a (bit_xor a b))
  binary-Ends OpFpType.eq = compare-IsWord a b OpFpType.eq refl
  binary-Ends OpFpType.lt = compare-IsWord a b OpFpType.lt refl
  binary-Ends OpFpType.le = compare-IsWord a b OpFpType.le refl
  binary-Ends _ = throws (refl, refl)

  unary-Ends : (op : OpFpType) → Ends IsWord (IsRefused (is_sqrt op) rm) (unary op a rm)
  unfolding unary
  unary-Ends OpFpType.sqrt = refused true rm (square_root-Ok a rm ha)
  unary-Ends _ = throws (refl, refl)

abbrev pub is_conversion : OpFpType → Bool
is_conversion op = is_from_integer op || is_to_integer op

module _ (x : ℕ) (rm : RoundingMode) (h : x < 2 ^ 64) where
  to_integer :
      (op : OpFpType)
      → is_to_integer op ≡ true
      → Ends IsLong (IsRefused true rm) (float_to_integer op (u32 x) rm)
  to_integer op g = refused true rm (float_to_integer-Ends op (u32 x) rm g)

  from_integer :
      (op : OpFpType)
      → is_from_integer op ≡ true
      → Ends IsLong (IsRefused true rm) (integer_to_float op x rm)
  from_integer op g =
      refused true rm (Ends-map (integer_to_float-Ok op x rm h g) (λ r (v, f). (omega arith, f)))

  convert-Ends : (op : OpFpType) → Ends IsLong (IsRefused (is_conversion op) rm) (convert op x rm)
  unfolding convert
  convert-Ends OpFpType.cvt_w_from_s = to_integer OpFpType.cvt_w_from_s refl
  convert-Ends OpFpType.cvt_wu_from_s = to_integer OpFpType.cvt_wu_from_s refl
  convert-Ends OpFpType.cvt_l_from_s = to_integer OpFpType.cvt_l_from_s refl
  convert-Ends OpFpType.cvt_lu_from_s = to_integer OpFpType.cvt_lu_from_s refl
  convert-Ends OpFpType.cvt_s_to_w = from_integer OpFpType.cvt_s_to_w refl
  convert-Ends OpFpType.cvt_s_to_wu = from_integer OpFpType.cvt_s_to_wu refl
  convert-Ends OpFpType.cvt_s_to_l = from_integer OpFpType.cvt_s_to_l refl
  convert-Ends OpFpType.cvt_s_to_lu = from_integer OpFpType.cvt_s_to_lu refl
  convert-Ends _ = throws (refl, refl)

-- Every call of the FPU ends, for all operations, operands and rounding modes. It returns a number
-- of 32 bits (a conversion: of 64) and flags of five, or throws `std::logic_error`. It throws
-- only where the entry point does not serve the operation or the standard does not name the mode.
pub unit-Ends :
    (op : OpFpType) (fop : FmaFpType) (a b d : ℕ) (rm : RoundingMode)
    → Ends IsWord (IsRefused (is_binary op) rm) (unit.binary op a b rm)
      × Ends IsWord (IsRefused (is_sqrt op) rm) (unit.unary op a rm)
      × Ends IsLong (IsRefused (is_conversion op) rm) (unit.convert op a rm)
      × Ends IsWord (IsRefused true rm) (unit.fma fop a b d rm)
unit-Ends op fop a b d rm = (
  binary-Ends (u32 a) (u32 b) rm (omega arith) (omega arith) op,
  unary-Ends (u32 a) (u32 b) rm (omega arith) (omega arith) op,
  convert-Ends (u64 a) rm (omega arith) op,
  refused true rm (fma-Ok fop (u32 a) (u32 b) (u32 d) rm),
)

-- The FPU gives the executor what it relies on: results of 64 bits and flags of five.
pub unit-FpuLaws : FpuLaws unit
unit-FpuLaws = record {
  binary_packed = λ op a b rm. word (unit-Ends op FmaFpType.madd a b 0 rm).0;
  unary_packed = λ op a rm. word (unit-Ends op FmaFpType.madd a 0 0 rm).1;
  convert_packed =
      λ op a rm. Ends-weaken (unit-Ends op FmaFpType.madd a 0 0 rm).2 (λ x p. p) (λ e f. tt);
  fma_packed = λ op a b d rm. word (unit-Ends OpFpType.add op a b d rm).3;
}
  where
    word : {G : Fault → Type 0} {m : Result FpResult} → Ends IsWord G m → IsPacked m
    word h = Ends-weaken h (λ x (v, f). (omega arith, f)) (λ e f. tt)
