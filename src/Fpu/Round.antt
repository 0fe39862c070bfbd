-- ===== src/Fpu/Round.antt =====
-- The rounding of src/fpu.cpp: constants, shifts that keep a sticky bit, the rounding modes, and
-- `round_and_pack`, which every arithmetic operation ends in.
pub mod Shift
pub mod Bounds
pub mod Pack
pub mod Encoding
pub mod Exact
pub mod Prepared
pub mod Correct
pub mod Ratio
pub mod Whole
pub mod Unique
use zinc_simulator.Prelude.{
  ℕ, zero, suc, ◌+◌, ◌-◌, ◌*◌, ◌/◌, ◌%◌, ◌^◌, bit_and, bit_or, Bool, true, false, not, ◌&&◌, ◌||◌,
  ltb, leb, if◌then◌else◌, ◌==◌, ◌!=◌, Result, ok, err, undefined_behaviour, logic_error, ◌>>=◌,
}
use zinc_simulator.Prelude.Int.{ℤ, pos, negsuc, ◌+ℤ◌, ◌-ℤ◌, ltb_ℤ}
use zinc_simulator.Word.{u32, u64, ◌<<<◌, ◌>>>◌}
use zinc_simulator.Insn.{RoundingMode}
use zinc_simulator.Fpu.{FpClass, FpResult}
use zinc_simulator.Fpu.Unpack.{UnpackedFp32, Scaled, to_unsigned, normalize}

abbrev pub fp32_sign_mask : ℕ
fp32_sign_mask = 1 <<< 31

abbrev pub fp32_magnitude_mask : ℕ
fp32_magnitude_mask = 2 ^ 31 - 1

abbrev pub fp32_infinity : ℕ
fp32_infinity = 0x7f800000

abbrev pub fp32_max_finite : ℕ
fp32_max_finite = 0x7f7fffff

abbrev pub fp32_canonical_nan : ℕ
fp32_canonical_nan = 0x7fc00000

abbrev pub fp_flag_nx : ℕ
fp_flag_nx = 1 <<< 0

abbrev pub fp_flag_uf : ℕ
fp_flag_uf = 1 <<< 1

abbrev pub fp_flag_of : ℕ
fp_flag_of = 1 <<< 2

abbrev pub fp_flag_dz : ℕ
fp_flag_dz = 1 <<< 3

abbrev pub fp_flag_nv : ℕ
fp_flag_nv = 1 <<< 4

abbrev pub fp32_hidden_bit : ℕ
fp32_hidden_bit = 1 <<< 23

abbrev pub fp32_extended_hidden_bit : ℕ
fp32_extended_hidden_bit = 1 <<< 26

abbrev pub fp32_wide_hidden_bit : ℕ
fp32_wide_hidden_bit = 1 <<< 62

pub record UnroundedFp32 : Type 0 where
  pub sign : Bool
  pub exponent : ℤ
  pub significand : ℕ

abbrev pub packed : ℕ → ℕ → FpResult
packed value flags = record { value = value; flags = flags }

-- `sign ? FP32_SIGN_MASK : 0`
abbrev pub sign_bits : Bool → ℕ
sign_bits sign = if sign then fp32_sign_mask else 0

abbrev pub is_nan : FpClass → Bool
is_nan FpClass.signaling_nan = true
is_nan FpClass.quiet_nan = true
is_nan _ = false

abbrev pub is_signaling_nan : FpClass → Bool
is_signaling_nan FpClass.signaling_nan = true
is_signaling_nan _ = false

-- Comparisons with `FpClass::Zero`, `FpClass::Infinity` and `RoundingMode::Rdn`.
abbrev pub is_zero : FpClass → Bool
is_zero FpClass.zero = true
is_zero _ = false

abbrev pub is_infinity : FpClass → Bool
is_infinity FpClass.infinity = true
is_infinity _ = false

abbrev pub is_rdn : RoundingMode → Bool
is_rdn RoundingMode.rdn = true
is_rdn _ = false

unfoldable pub shift_right_jam : (value distance : ℕ) → ℕ
shift_right_jam value distance =
    if distance == 0
    then value
    else if ltb distance 64
    then bit_or (value >>> distance) (if bit_and value (2 ^ distance - 1) != 0 then 1 else 0)
    else if value != 0
    then 1
    else 0

unfoldable pub should_round_up :
    RoundingMode → Bool → (rounded_significand round_bits : ℕ) → Result Bool
should_round_up RoundingMode.rne sign rounded_significand round_bits =
    ok (ltb 4 round_bits || (round_bits == 4 && bit_and rounded_significand 1 != 0))
should_round_up RoundingMode.rtz sign rounded_significand round_bits = ok false
should_round_up RoundingMode.rdn sign rounded_significand round_bits = ok (sign && round_bits != 0)
should_round_up RoundingMode.rup sign rounded_significand round_bits =
    ok (not sign && round_bits != 0)
should_round_up RoundingMode.rmm sign rounded_significand round_bits = ok (leb 4 round_bits)
should_round_up RoundingMode.dynamic sign rounded_significand round_bits = err logic_error
should_round_up (RoundingMode.reserved n) sign rounded_significand round_bits = err logic_error

-- The first loop of `round_and_pack`: down, while the bit above the hidden one is set.
unfoldable pub narrow : ℕ → Scaled → Result Scaled
narrow zero s = err undefined_behaviour
narrow (suc fuel) s = elim (bit_and s.significand (fp32_extended_hidden_bit <<< 1) == 0) [
  | true ↦ ok s
  | false ↦
      narrow fuel
        (record { exponent = s.exponent +ℤ pos 1; significand = shift_right_jam s.significand 1 })
]

-- Below the least normal exponent, the significand of a subnormal number.
unfoldable pub denormalize : Scaled → Scaled
denormalize s =
    if ltb_ℤ s.exponent (negsuc 125)
    then record {
      exponent = negsuc 125;
      significand = shift_right_jam s.significand (to_unsigned (negsuc 125 -ℤ s.exponent));
    }
    else s

-- The significand without its three round bits, rounded.
unfoldable pub round_significand : RoundingMode → Bool → ℕ → Result ℕ
round_significand rm sign significand = do
  up ← should_round_up rm sign (significand >>> 3) (u32 (bit_and significand 7))
  ok (if up then significand >>> 3 + 1 else significand >>> 3)

-- A carry out of the rounding.
unfoldable pub carry : Scaled → Scaled
carry s =
    if leb (fp32_hidden_bit <<< 1) s.significand
    then record { exponent = s.exponent +ℤ pos 1; significand = s.significand >>> 1 }
    else s

abbrev pub rounds_to_infinity : RoundingMode → Bool → Bool
rounds_to_infinity RoundingMode.rne sign = true
rounds_to_infinity RoundingMode.rmm sign = true
rounds_to_infinity RoundingMode.rup sign = not sign
rounds_to_infinity RoundingMode.rdn sign = sign
rounds_to_infinity _ sign = false

-- The end of `round_and_pack`: overflow, flags and encoding.
unfoldable pub pack : RoundingMode → Bool → (inexact : Bool) → Scaled → FpResult
pack rm sign inexact s =
    if ltb_ℤ (pos 127) s.exponent
    then packed
        (bit_or (sign_bits sign)
          (if rounds_to_infinity rm sign then fp32_infinity else fp32_max_finite))
        (bit_or fp_flag_of fp_flag_nx)
    else let subnormal =
        not (ltb_ℤ (negsuc 125) s.exponent || ltb_ℤ s.exponent (negsuc 125))
        && ltb s.significand fp32_hidden_bit in
      let nx = if inexact then fp_flag_nx else 0 in
      let flags = if subnormal && inexact then bit_or nx fp_flag_uf else nx in
      if s.significand == 0
      then packed (sign_bits sign) flags
      else let fraction = bit_and (u32 s.significand) 0x7fffff in
        let raw_exponent = if subnormal then 0 else to_unsigned (s.exponent +ℤ pos 127) in
        packed (bit_or (bit_or (sign_bits sign) (u32 (raw_exponent <<< 23))) fraction) flags

unfoldable pub round_and_pack : Bool → ℤ → ℕ → RoundingMode → Result FpResult
round_and_pack sign exponent significand rm =
    if significand == 0 then ok (packed (sign_bits sign) 0) else (do
      low ← narrow 64 (record { exponent = exponent; significand = significand })
      high ← normalize 64 fp32_extended_hidden_bit 64 low
      let s = denormalize high
      rounded ← round_significand rm sign s.significand
      let inexact = u32 (bit_and s.significand 7) != 0
      ok (pack rm sign inexact (carry (record { exponent = s.exponent; significand = rounded }))))

abbrev pub round_and_pack_unrounded : UnroundedFp32 → RoundingMode → Result FpResult
round_and_pack_unrounded value rm = round_and_pack value.sign value.exponent value.significand rm

abbrev pub propagate_nan : (lhs rhs : UnpackedFp32) → FpResult
propagate_nan lhs rhs =
    let invalid = is_signaling_nan lhs.fp_class || is_signaling_nan rhs.fp_class in
    packed fp32_canonical_nan (if invalid then fp_flag_nv else 0)
