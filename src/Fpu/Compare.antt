-- ===== src/Fpu/Compare.antt =====
-- Comparisons, minimum and maximum of src/fpu.cpp.
pub mod Order
pub mod Bounds
use zinc_simulator.Prelude.{
  ℕ, ◌-◌, ◌*◌, ◌^◌, bit_and, bit_or, Bool, true, false, not, xor, ◌&&◌, ◌||◌, ltb, if◌then◌else◌,
  ◌==◌, ◌!=◌, Result, ok, err, logic_error, ◌>>=◌,
}
use zinc_simulator.Word.{◌<<<◌}
use zinc_simulator.Insn.{OpFpType}
use zinc_simulator.Fpu.{FpResult}
use zinc_simulator.Fpu.Unpack.{unpack}
use zinc_simulator.Fpu.Round.{
  fp32_sign_mask, fp32_magnitude_mask, fp32_canonical_nan, fp_flag_nv, packed, is_nan,
  is_signaling_nan, is_zero,
}

unfoldable pub less_than : (lhs rhs : ℕ) → Bool
less_than lhs rhs =
    let lhs_sign = bit_and lhs fp32_sign_mask != 0 in
    let rhs_sign = bit_and rhs fp32_sign_mask != 0 in
    let lhs_magnitude = bit_and lhs fp32_magnitude_mask in
    let rhs_magnitude = bit_and rhs fp32_magnitude_mask in
    if xor lhs_sign rhs_sign
    then lhs_sign
    else if lhs_sign
    then ltb rhs_magnitude lhs_magnitude
    else ltb lhs_magnitude rhs_magnitude

-- `op != OpFpType::Eq`
abbrev pub is_eq : OpFpType → Bool
is_eq OpFpType.eq = true
is_eq _ = false

-- The `switch` of `compare`.
unfoldable pub compare_by : OpFpType → (both_zero equal less : Bool) → Result Bool
compare_by OpFpType.eq both_zero equal less = ok equal
compare_by OpFpType.lt both_zero equal less = ok (not both_zero && less)
compare_by OpFpType.le both_zero equal less = ok (equal || less)
compare_by _ both_zero equal less = err logic_error

unfoldable pub compare : OpFpType → (lhs_raw rhs_raw : ℕ) → Result FpResult
compare op lhs_raw rhs_raw = do
  lhs ← unpack lhs_raw
  rhs ← unpack rhs_raw
  let invalid = not (is_eq op) || is_signaling_nan lhs.fp_class || is_signaling_nan rhs.fp_class
  let both_zero = is_zero lhs.fp_class && is_zero rhs.fp_class
  let equal = both_zero || lhs_raw == rhs_raw
  if is_nan lhs.fp_class || is_nan rhs.fp_class
      then ok (packed 0 (if invalid then fp_flag_nv else 0))
      else (do
        result ← compare_by op both_zero equal (less_than lhs_raw rhs_raw)
        ok (packed (if result then 1 else 0) 0))

unfoldable pub min_or_max : (lhs_raw rhs_raw : ℕ) → (maximum : Bool) → Result FpResult
min_or_max lhs_raw rhs_raw maximum = do
  lhs ← unpack lhs_raw
  rhs ← unpack rhs_raw
  let lhs_nan = is_nan lhs.fp_class
  let rhs_nan = is_nan rhs.fp_class
  let flags =
      if is_signaling_nan lhs.fp_class || is_signaling_nan rhs.fp_class then fp_flag_nv else 0
  let lhs_less = less_than lhs_raw rhs_raw
  if lhs_nan && rhs_nan
      then ok (packed fp32_canonical_nan flags)
      else if lhs_nan
      then ok (packed rhs_raw flags)
      else if rhs_nan
      then ok (packed lhs_raw flags)
      else if is_zero lhs.fp_class && is_zero rhs.fp_class
      then ok (packed (if maximum then bit_and lhs_raw rhs_raw else bit_or lhs_raw rhs_raw) flags)
      else ok (
          packed
            (if maximum
              then if lhs_less then rhs_raw else lhs_raw
              else if lhs_less
              then lhs_raw
              else rhs_raw)
            flags)
