-- ===== src/Fpu/Unpack.antt =====
-- `class UnpackedFp32` of include/fpu.h and src/fpu.cpp: a single-precision number taken apart into
-- its sign, exponent, significand and class, and put together again. An exponent is an `int32_t`
-- that stays between -400 and 400, so it is an integer with no wrap-around.
pub mod Normalize
pub mod Value
pub mod RoundTrip
pub mod Number
use zinc_simulator.Prelude.{
  ℕ, zero, suc, ◌+◌, ◌-◌, ◌*◌, ◌/◌, ◌%◌, ◌^◌, bit_and, bit_or, Bool, true, false, if◌then◌else◌,
  ◌==◌, ◌!=◌, Result, ok, err, undefined_behaviour, ◌>>=◌,
}
use zinc_simulator.Prelude.Int.{ℤ, pos, negsuc, ◌+ℤ◌, ◌-ℤ◌}
use zinc_simulator.Word.{u32, ◌<<<◌, ◌>>>◌, not32}
use zinc_simulator.Fpu.{FpClass}

pub record UnpackedFp32 : Type 0 where
  pub sign : Bool
  pub exponent : ℤ
  pub significand : ℕ
  pub fp_class : FpClass

-- The two variables that a normalising loop changes.
pub record Scaled : Type 0 where
  pub exponent : ℤ
  pub significand : ℕ

-- `static_cast<unsigned>` of an `int32_t`.
abbrev pub to_unsigned : ℤ → ℕ
to_unsigned (pos n) = u32 n
to_unsigned (negsuc n) = not32 (u32 n)

-- `while ((significand & mask) == 0) { significand <<= 1; --exponent; }` on a number of `w` bits.
-- A loop that outlasts its fuel would go on for ever, which is undefined in C++.
unfoldable pub normalize : (w mask fuel : ℕ) → Scaled → Result Scaled
normalize w mask zero s = err undefined_behaviour
normalize w mask (suc fuel) s = elim (bit_and s.significand mask == 0) [
  | true ↦
      normalize w mask fuel
        (record { exponent = s.exponent -ℤ pos 1; significand = (s.significand <<< 1) % 2 ^ w })
  | false ↦ ok s
]

unfoldable pub unpack : ℕ → Result UnpackedFp32
unpack raw =
    let sign = bit_and (raw >>> 31) 1 != 0 in
    let raw_exponent = bit_and (raw >>> 23) 0xff in
    let fraction = bit_and raw 0x7fffff in
    if raw_exponent == 0xff
    then if fraction == 0
      then ok
          (record { sign = sign; exponent = pos 0; significand = 0; fp_class = FpClass.infinity })
      else ok (record {
        sign = sign;
        exponent = pos 0;
        significand = fraction;
        fp_class =
            if bit_and fraction (1 <<< 22) != 0 then FpClass.quiet_nan else FpClass.signaling_nan;
      })
    else if raw_exponent == 0
    then if fraction == 0
      then ok
          (record { sign = sign; exponent = negsuc 125; significand = 0; fp_class = FpClass.zero })
      else (do
        s ← normalize 32 (1 <<< 23) 32 (record { exponent = negsuc 125; significand = fraction })
        ok (record {
          sign = sign;
          exponent = s.exponent;
          significand = s.significand;
          fp_class = FpClass.subnormal;
        }))
    else ok (record {
      sign = sign;
      exponent = pos raw_exponent -ℤ pos 127;
      significand = bit_or (1 <<< 23) fraction;
      fp_class = FpClass.normal;
    })

-- `to_bits`, by the class of the number.
to_bits_of : FpClass → UnpackedFp32 → ℕ
to_bits_of FpClass.zero x = if x.sign then 1 <<< 31 else 0
to_bits_of FpClass.infinity x = bit_or (if x.sign then 1 <<< 31 else 0) (0xff <<< 23)
to_bits_of FpClass.quiet_nan x =
    let fraction = bit_or (bit_and x.significand 0x7fffff) (1 <<< 22) in
    bit_or (bit_or (if x.sign then 1 <<< 31 else 0) (0xff <<< 23)) fraction
to_bits_of FpClass.signaling_nan x =
    let payload = bit_and (bit_and x.significand 0x7fffff) (not32 (1 <<< 22)) in
    let fraction = if payload == 0 then 1 else payload in
    bit_or (bit_or (if x.sign then 1 <<< 31 else 0) (0xff <<< 23)) fraction
to_bits_of FpClass.normal x =
    let raw_exponent = to_unsigned (x.exponent +ℤ pos 127) in
    let fraction = bit_and x.significand 0x7fffff in
    bit_or (bit_or (if x.sign then 1 <<< 31 else 0) (u32 (raw_exponent <<< 23))) fraction
to_bits_of FpClass.subnormal x =
    let shift = to_unsigned (negsuc 125 -ℤ x.exponent) in
    let fraction = x.significand >>> shift in
    bit_or (if x.sign then 1 <<< 31 else 0) (bit_and fraction 0x7fffff)

unfoldable pub to_bits : UnpackedFp32 → ℕ
unfolding to_bits_of
to_bits x = to_bits_of x.fp_class x
