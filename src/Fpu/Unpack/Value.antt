-- ===== src/Fpu/Unpack/Value.antt =====
-- What the constructor of `UnpackedFp32` gives: the class and the sign that the executor reads, and
-- for a finite number a significand of 24 digits and an exponent that stand for the same value.
use native.Mathlib.Nat.{pow-succ', mul_assoc}
use zinc_simulator.Prelude.{
  ◌≢◌, ℕ, zero, suc, ◌+◌, ◌-◌, ◌*◌, ◌/◌, ◌%◌, ◌^◌, ◌≤◌, ◌<◌, bit_and, bit_or, ◌≡◌, refl, sym, ◌∙◌,
  ap, arith, Bool, true, false, ◌==◌, ◌!=◌, if◌then◌else◌, ok, Fault, Ends, returns, Ends-split,
  Ends-bind, Ends-value, ltb,
}
use zinc_simulator.Prelude.Int.{
  ℤ, pos, negsuc, ◌+ℤ◌, ◌-ℤ◌, ◌≤ℤ◌, int_laws, -ℤ_parts, pos_part, neg_part,
}
use zinc_simulator.Word.{◌<<<◌, ◌>>>◌}
use zinc_simulator.Word.Fields.{and_low, or_low, and_field}
use zinc_simulator.Fpu.{FpClass, sign_bit, classification}
use zinc_simulator.Fpu.Unpack.{UnpackedFp32, unpack}
use zinc_simulator.Fpu.Unpack.Normalize.{normalize_loop}

abbrev pub is_number : FpClass → Bool
is_number FpClass.normal = true
is_number FpClass.subnormal = true
is_number _ = false

-- The magnitude of a finite number in multiples of 2 ^ -149, the least that is not zero.
abbrev pub units : ℕ → ℕ
units raw =
    let raw_exponent = raw / 2 ^ 23 % 2 ^ 8 in
    let fraction = raw % 2 ^ 23 in
    if raw_exponent == 0 then fraction else (2 ^ 23 + fraction) * 2 ^ (raw_exponent - 1)

-- A number that is neither zero nor infinite, nor a NaN.
pub record IsNumber (u : UnpackedFp32) : Type 0 where
  pub lower : 2 ^ 23 ≤ u.significand
  pub upper : u.significand < 2 ^ 24
  pub least : negsuc 148 ≤ℤ u.exponent
  pub most : u.exponent ≤ℤ pos 127

-- The significand and the exponent that the constructor gives a number of each class.
abbrev pub Parts : FpClass → ℕ → UnpackedFp32 → Type 0
Parts FpClass.zero raw u = (raw / 2 ^ 23 % 2 ^ 8 ≡ 0) × (raw % 2 ^ 23 ≡ 0) × (u.significand ≡ 0)
Parts FpClass.infinity raw u = (raw / 2 ^ 23 % 2 ^ 8 ≡ 255) × (raw % 2 ^ 23 ≡ 0)
Parts FpClass.quiet_nan raw u =
    (raw / 2 ^ 23 % 2 ^ 8 ≡ 255) × (u.significand ≡ raw % 2 ^ 23) × (raw / 2 ^ 22 % 2 ≡ 1)
Parts FpClass.signaling_nan raw u =
    (raw / 2 ^ 23 % 2 ^ 8 ≡ 255)
    × (u.significand ≡ raw % 2 ^ 23)
    × (raw % 2 ^ 23 ≢ 0)
    × (raw / 2 ^ 22 % 2 ≡ 0)
Parts FpClass.subnormal raw u =
    (k : ℕ) × (k ≤ 23)
    × (raw / 2 ^ 23 % 2 ^ 8 ≡ 0)
    × (raw % 2 ^ 23 ≢ 0)
    × (u.significand ≡ raw % 2 ^ 23 * 2 ^ k)
    × (u.exponent ≡ negsuc 125 -ℤ pos k)
    × (2 ^ 23 ≤ u.significand)
    × (u.significand < 2 ^ 24)
Parts FpClass.normal raw u =
    (raw / 2 ^ 23 % 2 ^ 8 ≢ 0)
    × (raw / 2 ^ 23 % 2 ^ 8 ≢ 255)
    × (u.significand ≡ 2 ^ 23 + raw % 2 ^ 23)
    × (u.exponent ≡ pos (raw / 2 ^ 23 % 2 ^ 8) -ℤ pos 127)

pub record IsUnpacked (raw : ℕ) (u : UnpackedFp32) : Type 0 where
  pub class_of : u.fp_class ≡ classification raw
  pub sign_of : u.sign ≡ sign_bit raw
  pub parts : Parts u.fp_class raw u

module _ (raw : ℕ) where
  abbrev e : ℕ
  e = bit_and (raw >>> 23) 0xff

  abbrev f : ℕ
  f = bit_and raw 0x7fffff

  exponent_field : e ≡ raw / 2 ^ 23 % 2 ^ 8
  exponent_field = and_low 8 (raw / 2 ^ 23)

  fraction_field : f ≡ raw % 2 ^ 23
  fraction_field = and_low 23 raw

  quiet_field : bit_and f (1 <<< 22) ≡ raw / 2 ^ 22 % 2 * 2 ^ 22
  quiet_field = rw fraction_field (omega (arith, and_field 22 1 (raw % 2 ^ 23)))

  hidden : bit_or (1 <<< 23) f ≡ 2 ^ 23 + raw % 2 ^ 23
  hidden = rw fraction_field (or_low 23 (2 ^ 23) (raw % 2 ^ 23) (omega arith) (omega arith))

  nan-Parts :
      (quiet sign : Bool)
      → quiet ≡ (bit_and f (1 <<< 22) != 0)
      → (e == 0xff) ≡ true
      → (f == 0) ≡ false
      → let c = if quiet then FpClass.quiet_nan else FpClass.signaling_nan in
        Parts c raw (record { sign = sign; exponent = pos 0; significand = f; fp_class = c })
  nan-Parts true sign q special full =
      (ground (arith, exponent_field), fraction_field, ground (arith, quiet_field))
  nan-Parts false sign q special full = (
    ground (arith, exponent_field),
    fraction_field,
    ground (arith, fraction_field),
    ground (arith, quiet_field),
  )

  -- The constructor returns, whatever the pattern.
  pub unpack_returns : {F : Fault → Type 0} → Ends (IsUnpacked raw) F (unpack raw)
  unfolding unpack classification sign_bit
  unpack_returns =
      Ends-split (e == 0xff)
        (λ special.
          Ends-split (f == 0)
            (λ empty. returns (record {
              class_of = rw (special, empty) refl;
              sign_of = refl;
              parts = (ground (arith, exponent_field), ground (arith, fraction_field));
            }))
            (λ full. returns (record {
              class_of = rw (special, full) refl;
              sign_of = refl;
              parts = nan-Parts _ _ refl special full;
            })))
        (λ not_special.
          Ends-split (e == 0)
            (λ is_low.
              Ends-split (f == 0)
                (λ empty. returns (record {
                  class_of = rw (not_special, is_low, empty) refl;
                  sign_of = refl;
                  parts = (ground (arith, exponent_field), ground (arith, fraction_field), refl);
                }))
                (λ full.
                  Ends-bind
                    (normalize_loop 32 23 (1 <<< 23) (omega arith) hidden_bit 23 32 _ (omega arith)
                      (ground arith) (omega (arith, fraction_field)))
                    (λ s (k, le, r). returns (record {
                      class_of = rw (not_special, is_low, full) refl;
                      sign_of = refl;
                      parts = (
                        k,
                        le,
                        ground (arith, exponent_field),
                        ground (arith, fraction_field),
                        r.significand ∙ ap (λ (t : ℕ). t * 2 ^ k) fraction_field,
                        r.exponent,
                        r.lower,
                        r.upper,
                      );
                    }))))
            (λ high. returns (record {
              class_of = rw (not_special, high) refl;
              sign_of = refl;
              parts = (
                ground (arith, exponent_field),
                ground (arith, exponent_field),
                hidden,
                ap (λ (t : ℕ). pos t -ℤ pos 127) exponent_field,
              );
            })))
    where
      hidden_bit : (x : ℕ) → x < 2 ^ 24 → (bit_and x (1 <<< 23) == 0) ≡ ltb x (2 ^ 23)
      hidden_bit x h = ground (arith, and_field 23 1 x)

pub pow_add : (a b : ℕ) → 2 ^ (a + b) ≡ 2 ^ a * 2 ^ b
pow_add zero b = let e : 0 + b ≡ b = omega arith in rw e (omega arith)
pow_add (suc a) b =
    let e : suc a + b ≡ suc (a + b) = omega arith in
    rw e (
      rw (pow-succ' 2 (a + b), pow-succ' 2 a)
        (rw (pow_add a b) (sym (mul_assoc 2 (2 ^ a) (2 ^ b)))))

pub unpacked : (raw : ℕ) → (u : UnpackedFp32) × (unpack raw ≡ ok u) × IsUnpacked raw u
unpacked raw = Ends-value (unpack_returns raw {F = λ e. ⊥}) (λ e f. f)

normal_exponent : (x : ℕ) → 0 < x → pos x -ℤ pos 127 +ℤ pos 149 ≡ pos (x - 1 + 23)
normal_exponent x h = omega int_laws

subnormal_exponent : (k : ℕ) → k ≤ 23 → negsuc 125 -ℤ pos k +ℤ pos 149 ≡ pos (23 - k)
subnormal_exponent k h = omega int_laws

module _ (raw : ℕ) (u : UnpackedFp32) where
  pub Parts-IsNumber : (c : FpClass) → Parts c raw u → is_number c ≡ true → IsNumber u
  Parts-IsNumber FpClass.normal (low, high, s, e) h = record {
    lower = omega arith;
    upper = omega arith;
    least =
        omega
          (arith, ap pos_part e, ap neg_part e, -ℤ_parts (pos (raw / 2 ^ 23 % 2 ^ 8)) (pos 127));
    most =
        omega
          (arith, ap pos_part e, ap neg_part e, -ℤ_parts (pos (raw / 2 ^ 23 % 2 ^ 8)) (pos 127));
  }
  Parts-IsNumber FpClass.subnormal (k, le, low, high, s, e, lo, hi) h = record {
    lower = lo;
    upper = hi;
    least = omega (arith, ap pos_part e, ap neg_part e, -ℤ_parts (negsuc 125) (pos k));
    most = omega (arith, ap pos_part e, ap neg_part e, -ℤ_parts (negsuc 125) (pos k));
  }
  Parts-IsNumber FpClass.zero p h = cc
  Parts-IsNumber FpClass.infinity p h = cc
  Parts-IsNumber FpClass.quiet_nan p h = cc
  Parts-IsNumber FpClass.signaling_nan p h = cc

  pub Parts-value :
      (c : FpClass)
      → Parts c raw u
      → is_number c ≡ true
      → u.significand * 2 ^ pos_part (u.exponent +ℤ pos 149) ≡ units raw * 2 ^ 23
  Parts-value FpClass.normal (low, high, s, e) h =
      let x = raw / 2 ^ 23 % 2 ^ 8 in
      let below = x - 1 in
      let biased : u.exponent +ℤ pos 149 ≡ pos (below + 23) =
        ap (λ (t : ℤ). t +ℤ pos 149) e ∙ normal_exponent x (omega arith) in
      let not_low : (x == 0) ≡ false = ground arith in
      rw (biased, not_low, s)
        (omega (
          arith,
          ap (λ (t : ℕ). (2 ^ 23 + raw % 2 ^ 23) * t) (pow_add below 23),
          mul_assoc (2 ^ 23 + raw % 2 ^ 23) (2 ^ below) (2 ^ 23),
        ))
  Parts-value FpClass.subnormal (k, le, low, high, s, e, lo, hi) h =
      let biased : u.exponent +ℤ pos 149 ≡ pos (23 - k) =
        ap (λ (t : ℤ). t +ℤ pos 149) e ∙ subnormal_exponent k le in
      let is_low : (raw / 2 ^ 23 % 2 ^ 8 == 0) ≡ true = ground arith in
      let whole : k + (23 - k) ≡ 23 = omega arith in
      rw (biased, is_low, s)
        (omega (
          arith,
          ap (λ (t : ℕ). raw % 2 ^ 23 * t) (sym (pow_add k (23 - k)) ∙ ap (λ (t : ℕ). 2 ^ t) whole),
          mul_assoc (raw % 2 ^ 23) (2 ^ k) (2 ^ (23 - k)),
        ))
  Parts-value FpClass.zero p h = cc
  Parts-value FpClass.infinity p h = cc
  Parts-value FpClass.quiet_nan p h = cc
  Parts-value FpClass.signaling_nan p h = cc
