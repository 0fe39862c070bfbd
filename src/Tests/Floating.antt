-- ===== src/Tests/Floating.antt =====
-- The theorems about the FPU, applied to operands, and some results of it.
use zinc_simulator.Prelude.{
  ◌↔◌, ℕ, ◌+◌, ◌*◌, ◌^◌, ◌≤◌, ◌<◌, ◌≡◌, refl, arith, true, false, if◌then◌else◌, ok, ◌==◌, Ends,
  ◌>>=◌,
}
use zinc_simulator.Prelude.Int.{pos, negsuc, pos_part, ◌+ℤ◌, ltb_ℤ}
use zinc_simulator.Insn.{OpFpType, FmaFpType, RoundingMode}
use zinc_simulator.Fpu.{FpClass, FpResult, classification}
use zinc_simulator.Fpu.Unpack.{UnpackedFp32, unpack, to_bits}
use zinc_simulator.Fpu.Unpack.Value.{is_number, units}
use zinc_simulator.Fpu.Unpack.RoundTrip.{to_bits-unpack, unpack-units}
use zinc_simulator.Fpu.Round.{packed, is_nan}
use zinc_simulator.Fpu.Round.Bounds.{IsWord}
use zinc_simulator.Fpu.Round.Correct.{IsRounding}
use zinc_simulator.Fpu.SquareRoot.{SquareRootResult, square_root_unsigned}
use zinc_simulator.Fpu.SquareRoot.Root.{square_root_unsigned-root}
use zinc_simulator.Fpu.Compare.{compare, min_or_max}
use zinc_simulator.Fpu.Compare.Order.{key, place, eqb_ℤ, leb_ℤ, compare-key, min_or_max-place}
use zinc_simulator.Fpu.Convert.{integer_to_float}
use zinc_simulator.Fpu.Convert.Bounds.{IsLong}
use zinc_simulator.Fpu.Convert.Operand.{integer_of, absolute, is_negative}
use zinc_simulator.Fpu.Convert.Integer.{integer_to_float-IsRounding}
use zinc_simulator.Fpu.Unit.{unit}
use zinc_simulator.Fpu.Unit.Total.{is_binary, is_sqrt, is_conversion, IsRefused, unit-Ends}

-- Five times the least subnormal number.
to_bits-unpack_example : (unpack 5 >>= λ u. ok (to_bits u)) ≡ ok 5
to_bits-unpack_example = to_bits-unpack 5 (omega arith)

subnormal : is_number (classification 5) ≡ true
unfolding classification
subnormal = refl

unpack-units_example :
    (u : UnpackedFp32) × (unpack 5 ≡ ok u)
    × (2 ^ 23 ≤ u.significand)
    × (u.significand < 2 ^ 24)
    × (u.significand * 2 ^ pos_part (u.exponent +ℤ pos 149) ≡ units 5 * 2 ^ 23)
unpack-units_example = unpack-units 5 subnormal

-- The nearest numbers to pi and to a third.
abbrev pi_raw : ℕ
pi_raw = 0x40490fdb

abbrev third_raw : ℕ
third_raw = 0x3eaaaaab

abbrev pi_parts : UnpackedFp32
pi_parts = record {
  sign = false;
  exponent = pos 1;
  significand = 0xc90fdb;
  fp_class = FpClass.normal;
}

abbrev third_parts : UnpackedFp32
third_parts = record {
  sign = false;
  exponent = negsuc 1;
  significand = 0xaaaaab;
  fp_class = FpClass.normal;
}

-- The least number that FCVT.S.L reads.
integer_to_float-IsRounding_example :
    let rm = RoundingMode.rne in
    let z = integer_of OpFpType.cvt_s_to_l 0x8000000000000000 in
    let v = absolute z * 2 ^ 26 in
    let run = integer_to_float OpFpType.cvt_s_to_l 0x8000000000000000 rm in
    if absolute z == 0
    then run ≡ ok (packed 0 0)
    else ((r : FpResult) × (run ≡ ok r) × IsRounding rm (is_negative z) v 1 (pos 0) r)
      × (IsRounding rm (is_negative z) v 1 (pos 0) (packed 0 0) ↔ (run ≡ ok (packed 0 0)))
integer_to_float-IsRounding_example =
    integer_to_float-IsRounding OpFpType.cvt_s_to_l 0x8000000000000000 RoundingMode.rne (packed 0 0)
      (omega arith) refl refl

square_root_unsigned-root_example :
    (x : SquareRootResult) × (square_root_unsigned 1000 ≡ ok x)
    × (x.root * x.root + x.remainder ≡ 1000)
    × (x.remainder ≤ 2 * x.root)
square_root_unsigned-root_example = square_root_unsigned-root 1000 (omega arith)

-- The negative zero and one.
zero_is_no_nan : is_nan (classification 0x80000000) ≡ false
unfolding classification
zero_is_no_nan = refl

one_is_no_nan : is_nan (classification 0x3f800000) ≡ false
unfolding classification
one_is_no_nan = refl

compare-key_example :
    let a : ℕ = 0x80000000 in
    let b : ℕ = 0x3f800000 in
    (compare OpFpType.eq a b ≡ ok (packed (if eqb_ℤ (key a) (key b) then 1 else 0) 0))
    × (compare OpFpType.lt a b ≡ ok (packed (if ltb_ℤ (key a) (key b) then 1 else 0) 0))
    × (compare OpFpType.le a b ≡ ok (packed (if leb_ℤ (key a) (key b) then 1 else 0) 0))
compare-key_example =
    compare-key 0x80000000 0x3f800000 (omega arith) (omega arith) zero_is_no_nan one_is_no_nan

min_or_max-place_example :
    let a : ℕ = 0x80000000 in
    let b : ℕ = 0x3f800000 in
    (min_or_max a b false ≡ ok (packed (if ltb_ℤ (place a) (place b) then a else b) 0))
    × (min_or_max a b true ≡ ok (packed (if ltb_ℤ (place a) (place b) then b else a) 0))
min_or_max-place_example =
    min_or_max-place 0x80000000 0x3f800000 (omega arith) (omega arith) zero_is_no_nan one_is_no_nan

unit-Ends_example :
    let op = OpFpType.div in
    let rm = RoundingMode.rtz in
    Ends IsWord (IsRefused (is_binary op) rm) (unit.binary op 0x3f800000 0x40400000 rm)
    × Ends IsWord (IsRefused (is_sqrt op) rm) (unit.unary op 0x3f800000 rm)
    × Ends IsLong (IsRefused (is_conversion op) rm) (unit.convert op 0x3f800000 rm)
    × Ends IsWord (IsRefused true rm) (unit.fma FmaFpType.nmadd 0x3f800000 0x40400000 5 rm)
unit-Ends_example = unit-Ends OpFpType.div FmaFpType.nmadd 0x3f800000 0x40400000 5 RoundingMode.rtz
