-- ===== src/Fpu/Unpack/RoundTrip.antt =====
-- `to_bits` puts together what the constructor of `UnpackedFp32` takes apart, and what the parts
-- stand for.
use native.Mathlib.Nat.{mul-div_cancel, one-le-pow}
use zinc_simulator.Prelude.{
  ℕ, ◌+◌, ◌-◌, ◌*◌, ◌/◌, ◌%◌, ◌^◌, ◌≤◌, ◌<◌, bit_and, bit_or, ◌≡◌, ◌∙◌, ap, arith, true, false,
  ◌==◌, if◌then◌else◌, ok, ◌>>=◌,
}
use zinc_simulator.Prelude.Int.{pos, negsuc, ◌+ℤ◌, ◌-ℤ◌, int_laws, pos_part}
use zinc_simulator.Word.{not32, ◌<<<◌}
use zinc_simulator.Word.Fields.{
  and_low, and_split, and_field, or_low, or_field, or-add-and, zero-bit_and,
}
use zinc_simulator.Fpu.{FpClass, sign_bit, classification}
use zinc_simulator.Fpu.Unpack.{UnpackedFp32, to_unsigned, unpack, to_bits_of, to_bits}
use zinc_simulator.Fpu.Unpack.Value.{is_number, units, Parts, unpacked, Parts-IsNumber, Parts-value}

module _ (raw : ℕ) (h : raw < 2 ^ 32) (u : UnpackedFp32) (signed : u.sign ≡ sign_bit raw) where
  abbrev top : ℕ
  top = if u.sign then 1 <<< 31 else 0

  top_lem : top ≡ raw / 2 ^ 31 * 2 ^ 31
  unfolding sign_bit
  top_lem = rw signed (ground (arith, and_low 1 (raw / 2 ^ 31)))

  -- Sign and exponent, then the fraction.
  with_exponent : (x : ℕ) → x < 2 ^ 8 → bit_or top (x * 2 ^ 23) ≡ raw / 2 ^ 31 * 2 ^ 31 + x * 2 ^ 23
  with_exponent x lt = rw top_lem (or_field 23 8 (raw / 2 ^ 31 * 2 ^ 31) x (omega arith) lt)

  with_fraction :
      (x y : ℕ)
      → x < 2 ^ 8
      → y < 2 ^ 23
      → bit_or (bit_or top (x * 2 ^ 23)) y ≡ raw / 2 ^ 31 * 2 ^ 31 + x * 2 ^ 23 + y
  with_fraction x y lt below =
      rw (with_exponent x lt) (or_low 23 (raw / 2 ^ 31 * 2 ^ 31 + x * 2 ^ 23) y (omega arith) below)

  quiet : (y : ℕ) → y < 2 ^ 23 → y / 2 ^ 22 % 2 ≡ 1 → bit_or (bit_and y 0x7fffff) (1 <<< 22) ≡ y
  quiet y lt e = omega (
    arith,
    and_low 23 y,
    ap (λ (t : ℕ). bit_or t (1 <<< 22)) (and_low 23 y ∙ small),
    or-add-and y (1 <<< 22),
    and_field 22 1 y,
  )
    where
      small : y % 2 ^ 23 ≡ y
      small = omega arith

  signaling :
      (y : ℕ)
      → y < 2 ^ 23
      → y / 2 ^ 22 % 2 ≡ 0
      → bit_and (bit_and y 0x7fffff) (not32 (1 <<< 22)) ≡ y
  signaling y lt e = omega (
    arith,
    ap (λ (t : ℕ). bit_and t (not32 (1 <<< 22))) (and_low 23 y ∙ small),
    and_split 22 y 1022 (2 ^ 22 - 1) (omega arith),
    and_low 22 y,
    ap (λ (t : ℕ). bit_and t 1022) empty,
    zero-bit_and 1022,
  )
    where
      small : y % 2 ^ 23 ≡ y
      small = omega arith

      empty : y / 2 ^ 22 ≡ 0
      empty = omega arith

  normal_exponent : (x : ℕ) → x < 2 ^ 8 → to_unsigned (pos x -ℤ pos 127 +ℤ pos 127) ≡ x
  normal_exponent x lt =
      let e : pos x -ℤ pos 127 +ℤ pos 127 ≡ pos x = omega int_laws in rw e (omega arith)

  subnormal_shift : (k : ℕ) → k ≤ 23 → to_unsigned (negsuc 125 -ℤ (negsuc 125 -ℤ pos k)) ≡ k
  subnormal_shift k le =
      let e : negsuc 125 -ℤ (negsuc 125 -ℤ pos k) ≡ pos k = omega int_laws in rw e (omega arith)

  bits_of : (c : FpClass) → Parts c raw u → to_bits_of c u ≡ raw
  unfolding to_bits_of
  bits_of FpClass.zero (e, f, s) = omega (arith, top_lem)
  bits_of FpClass.infinity (e, f) = omega (arith, with_exponent 0xff (omega arith))
  bits_of FpClass.quiet_nan (e, s, q) = rw s (
      rw (quiet (raw % 2 ^ 23) (omega arith) (omega arith))
        (omega (arith, with_fraction 0xff (raw % 2 ^ 23) (omega arith) (omega arith))))
  bits_of FpClass.signaling_nan (e, s, full, q) = rw s (
      rw (signaling (raw % 2 ^ 23) (omega arith) (omega arith)) (
        let some_digit : (raw % 2 ^ 23 == 0) ≡ false = ground arith in
        rw some_digit
          (omega (arith, with_fraction 0xff (raw % 2 ^ 23) (omega arith) (omega arith)))))
  bits_of FpClass.normal (low, high, s, e) =
      rw (s, e)
        (rw (normal_exponent (raw / 2 ^ 23 % 2 ^ 8) (omega arith)) (
          let x = raw / 2 ^ 23 % 2 ^ 8 in
          let y = raw % 2 ^ 23 in
          let fits : x * 2 ^ 23 % 2 ^ 32 ≡ x * 2 ^ 23 = omega arith in
          let low_part : (2 ^ 23 + y) % 2 ^ 23 ≡ y = omega arith in
          rw (fits, and_low 23 (2 ^ 23 + y), low_part)
            (omega (arith, with_fraction x y (omega arith) (omega arith)))))
  bits_of FpClass.subnormal (k, le, low, full, s, e, lo, hi) =
      rw (s, e)
        (rw (subnormal_shift k le) (
          let y = raw % 2 ^ 23 in
          let low_part : y % 2 ^ 23 ≡ y = omega arith in
          let positive : 0 < 2 ^ k = omega (arith, one-le-pow k 2) in
          rw (mul-div_cancel y positive, and_low 23 y, low_part, top_lem)
            (omega (arith, or_low 23 (raw / 2 ^ 31 * 2 ^ 31) y (omega arith) (omega arith)))))

-- Putting an unpacked pattern of 32 bits together gives the pattern back.
pub to_bits-unpack : (raw : ℕ) → raw < 2 ^ 32 → (unpack raw >>= λ u. ok (to_bits u)) ≡ ok raw
unfolding to_bits
to_bits-unpack raw h =
    let (u, e, p) = unpacked raw in rw e (ap ok (bits_of raw h u p.sign_of u.fp_class p.parts))

-- Unpacking a number that is neither zero nor infinite, nor a NaN, returns a significand of exactly
-- 24 digits, and an exponent, that stand for the value of the pattern, which `units` counts in
-- multiples of 2 ^ -149.
pub unpack-units :
    (raw : ℕ)
    → is_number (classification raw) ≡ true
    → (u : UnpackedFp32) × (unpack raw ≡ ok u)
      × (2 ^ 23 ≤ u.significand)
      × (u.significand < 2 ^ 24)
      × (u.significand * 2 ^ pos_part (u.exponent +ℤ pos 149) ≡ units raw * 2 ^ 23)
unpack-units raw h =
    let (u, e, p) = unpacked raw in
    let number = ap is_number p.class_of ∙ h in
    let n = Parts-IsNumber raw u u.fp_class p.parts number in
    (u, e, n.lower, n.upper, Parts-value raw u u.fp_class p.parts number)
