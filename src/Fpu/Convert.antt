-- ===== src/Fpu/Convert.antt =====
-- Conversions between integers and single-precision numbers of src/fpu.cpp.
pub mod Bounds
pub mod Operand
pub mod Integer
use zinc_simulator.Prelude.{
  ℕ, zero, suc, ◌+◌, ◌-◌, ◌*◌, ◌/◌, ◌%◌, ◌^◌, bit_and, bit_or, Bool, true, false, not, ◌&&◌, ◌||◌,
  ltb, leb, if◌then◌else◌, ◌==◌, ◌!=◌, Result, ok, err, undefined_behaviour, logic_error, ◌>>=◌,
}
use zinc_simulator.Prelude.Int.{ℤ, pos, negsuc, ◌+ℤ◌, ◌-ℤ◌, ltb_ℤ}
use zinc_simulator.Word.{u32, u64, not64, sub64, add64, ◌<<<◌, ◌>>>◌}
use zinc_simulator.Insn.{OpFpType, RoundingMode}
use zinc_simulator.Fpu.{FpResult}
use zinc_simulator.Fpu.Unpack.{UnpackedFp32, unpack, to_unsigned}
use zinc_simulator.Fpu.Round.{
  fp_flag_nv, fp_flag_nx, packed, is_nan, is_zero, is_infinity, shift_right_jam, round_and_pack,
}

-- The `switch` of `integer_to_float`: a sign and a magnitude.
pub record Magnitude : Type 0 where
  pub sign : Bool
  pub magnitude : ℕ

unfoldable pub integer_magnitude : OpFpType → ℕ → Result Magnitude
integer_magnitude OpFpType.cvt_s_to_w operand =
    let word = u32 operand in
    let sign = bit_and word (1 <<< 31) != 0 in
    ok (record {
      sign = sign;
      magnitude = if sign then bit_and (add64 (not64 word) 1) 0xffffffff else word;
    })
integer_magnitude OpFpType.cvt_s_to_wu operand =
    ok (record { sign = false; magnitude = u32 operand })
integer_magnitude OpFpType.cvt_s_to_l operand =
    let sign = bit_and operand (1 <<< 63) != 0 in
    ok (record { sign = sign; magnitude = if sign then add64 (not64 operand) 1 else operand })
integer_magnitude OpFpType.cvt_s_to_lu operand = ok (record { sign = false; magnitude = operand })
integer_magnitude _ operand = err logic_error

-- `for (value = magnitude; value > 1; value >>= 1) ++exponent;`
unfoldable pub leading_bit : (fuel value exponent : ℕ) → Result ℕ
leading_bit zero value exponent = err undefined_behaviour
leading_bit (suc fuel) value exponent = elim (ltb 1 value) [
  | true ↦ leading_bit fuel (value >>> 1) (exponent + 1)
  | false ↦ ok exponent
]

unfoldable pub integer_to_float : OpFpType → ℕ → RoundingMode → Result FpResult
integer_to_float op operand rm = do
  m ← integer_magnitude op operand
  if m.magnitude == 0 then ok (packed 0 0) else (do
    exponent ← leading_bit 64 m.magnitude 0
    let significand =
        if ltb 26 exponent
        then shift_right_jam m.magnitude (exponent - 26)
        else u64 (m.magnitude <<< (26 - exponent))
    round_and_pack m.sign (pos exponent) significand rm)

unfoldable pub encode_integer_result : Bool → (magnitude width : ℕ) → ℕ
encode_integer_result sign magnitude width =
    let value = if sign then sub64 0 magnitude else magnitude in
    let word = u32 value in
    if width == 64
    then value
    else if bit_and word (1 <<< 31) != 0
    then bit_or 0xffffffff00000000 word
    else word

-- The first `switch` of `float_to_integer`, and the limits that it sets.
pub record IntegerFormat : Type 0 where
  pub signed_result : Bool
  pub width : ℕ

unfoldable pub integer_format : OpFpType → Result IntegerFormat
integer_format OpFpType.cvt_w_from_s = ok (record { signed_result = true; width = 32 })
integer_format OpFpType.cvt_wu_from_s = ok (record { signed_result = false; width = 32 })
integer_format OpFpType.cvt_l_from_s = ok (record { signed_result = true; width = 64 })
integer_format OpFpType.cvt_lu_from_s = ok (record { signed_result = false; width = 64 })
integer_format _ = err logic_error

abbrev pub signed_max : ℕ → ℕ
signed_max width = if width == 32 then 0x7fffffff else 0x7fffffffffffffff

abbrev pub signed_min_magnitude : ℕ → ℕ
signed_min_magnitude width = if width == 32 then 0x80000000 else 0x8000000000000000

abbrev pub unsigned_max : ℕ → ℕ
unsigned_max width = if width == 32 then 0xffffffff else 0xffffffffffffffff

unfoldable pub invalid_result : IntegerFormat → (nan sign : Bool) → FpResult
invalid_result f nan sign =
    if nan || not sign
    then packed
        (encode_integer_result false
          (if f.signed_result then signed_max f.width else unsigned_max f.width) f.width)
        fp_flag_nv
    else packed
        (if f.signed_result
          then encode_integer_result true (signed_min_magnitude f.width) f.width
          else 0)
        fp_flag_nv

-- What the two branches on the exponent leave: `magnitude`, `inexact` and `overflow`.
pub record Truncated : Type 0 where
  pub magnitude : ℕ
  pub inexact : Bool
  pub overflow : Bool

-- The branch on an exponent of at least 23: nothing is lost.
unfoldable pub scale_up : (shift significand : ℕ) → Truncated
scale_up shift significand =
    if leb 64 shift || ltb (0xffffffffffffffff >>> shift) significand
    then record { magnitude = 0; inexact = false; overflow = true }
    else record { magnitude = u64 (significand <<< shift); inexact = false; overflow = false }

-- The second `switch` of `float_to_integer`. It has no default: another mode rounds towards zero.
unfoldable pub integer_round_up :
    RoundingMode → Bool → (shift magnitude remainder halfway : ℕ) → Result Bool
integer_round_up RoundingMode.rne sign shift magnitude remainder halfway =
    ok (
      ltb shift 64 && (ltb halfway remainder || (remainder == halfway && bit_and magnitude 1 != 0)))
integer_round_up RoundingMode.rtz sign shift magnitude remainder halfway = ok false
integer_round_up RoundingMode.rdn sign shift magnitude remainder halfway =
    ok (sign && remainder != 0)
integer_round_up RoundingMode.rup sign shift magnitude remainder halfway =
    ok (not sign && remainder != 0)
integer_round_up RoundingMode.rmm sign shift magnitude remainder halfway =
    ok (ltb shift 64 && leb halfway remainder)
integer_round_up RoundingMode.dynamic sign shift magnitude remainder halfway = err logic_error
integer_round_up (RoundingMode.reserved n) sign shift magnitude remainder halfway = ok false

-- The branch on an exponent below 23: the digits below the point are rounded off.
unfoldable pub scale_down : RoundingMode → Bool → (shift significand : ℕ) → Result Truncated
scale_down rm sign shift significand = do
  let far = leb 64 shift
  let magnitude = if far then 0 else significand >>> shift
  let remainder = if far then significand else bit_and significand (2 ^ shift - 1)
  let halfway = if far then 0 else 1 <<< (shift - 1)
  let inexact = remainder != 0
  up ← integer_round_up rm sign shift magnitude remainder halfway
  ok (
      if up
      then if magnitude == 0xffffffffffffffff
        then record { magnitude = magnitude; inexact = inexact; overflow = true }
        else record { magnitude = magnitude + 1; inexact = inexact; overflow = false }
      else record { magnitude = magnitude; inexact = inexact; overflow = false })

abbrev pub truncate : RoundingMode → UnpackedFp32 → Result Truncated
truncate rm operand =
    if ltb_ℤ operand.exponent (pos 23)
    then scale_down rm operand.sign (to_unsigned (pos 23 -ℤ operand.exponent)) operand.significand
    else ok (scale_up (to_unsigned (operand.exponent -ℤ pos 23)) operand.significand)

-- Whether the rounded magnitude lies outside the format.
unfoldable pub out_of_range : IntegerFormat → Bool → ℕ → Bool
out_of_range f sign magnitude =
    if f.signed_result
    then ltb (if sign then signed_min_magnitude f.width else signed_max f.width) magnitude
    else (sign && magnitude != 0) || ltb (unsigned_max f.width) magnitude

-- The end of `float_to_integer`, on a finite operand other than zero.
unfoldable pub encode_truncated : IntegerFormat → Bool → Truncated → FpResult
encode_truncated f sign t =
    if t.overflow || out_of_range f sign t.magnitude
    then invalid_result f false sign
    else packed (encode_integer_result sign t.magnitude f.width)
        (if t.inexact then fp_flag_nx else 0)

unfoldable pub float_to_integer : OpFpType → ℕ → RoundingMode → Result FpResult
float_to_integer op operand_raw rm = do
  f ← integer_format op
  operand ← unpack operand_raw
  let nan = is_nan operand.fp_class
  if nan || is_infinity operand.fp_class
      then ok (invalid_result f nan operand.sign)
      else if is_zero operand.fp_class
      then ok (packed 0 0)
      else (do t ← truncate rm operand; ok (encode_truncated f operand.sign t))
