-- ===== src/Fpu/Round/Pack.antt =====
-- The end of `round_and_pack`, against a reference that adds the rounded significand to the exponent
-- field.
use zinc_simulator.Prelude.{
  ℕ, ◌+◌, ◌-◌, ◌*◌, ◌/◌, ◌%◌, ◌^◌, ◌≤◌, ◌<◌, bit_and, bit_or, ◌≡◌, ◌⊎◌, inl, inr, refl, ◌∙◌, ap,
  arith, Bool, true, false, not, ◌||◌, ◌==◌, ltb, ltb→lt, lt→ltb, le→ltb, eq→==, ne→==, leb,
  if◌then◌else◌, Bool-cases,
}
use zinc_simulator.Prelude.Int.{ℤ, pos, negsuc, ◌+ℤ◌, ◌-ℤ◌, ltb_ℤ, int_laws}
use zinc_simulator.Word.{u32}
use zinc_simulator.Word.Fields.{and_low, or_low, or_field}
use zinc_simulator.Insn.{RoundingMode}
use zinc_simulator.Fpu.{FpResult}
use zinc_simulator.Fpu.Unpack.{Scaled, to_unsigned}
use zinc_simulator.Fpu.Round.{
  fp32_infinity, fp32_max_finite, rounds_to_infinity, sign_bits, packed, carry, pack,
}

-- The pattern of a rounded significand: added to an exponent field that counts from the least
-- normal number, it carries into the field by itself. From infinity on, the mode decides.
abbrev pub encode : RoundingMode → Bool → (inexact : Bool) → (field rounded : ℕ) → FpResult
encode rm sign inexact field rounded =
    let magnitude = field * 2 ^ 23 + rounded in
    if ltb magnitude fp32_infinity
    then packed (sign_bits sign + magnitude)
        (if inexact then if ltb magnitude (2 ^ 23) then 3 else 1 else 0)
    else packed
        (sign_bits sign + (if rounds_to_infinity rm sign then fp32_infinity else fp32_max_finite)) 5

sign_or : (sign : Bool) (m : ℕ) → m < 2 ^ 31 → bit_or (sign_bits sign) m ≡ sign_bits sign + m
sign_or true m h = or_low 31 (2 ^ 31) m (omega arith) h
sign_or false m h = or_low 31 0 m (omega arith) h

module _ (field : ℕ) where
  abbrev pub exponent_of : ℤ
  exponent_of = pos field -ℤ pos 126

  too_big : ltb_ℤ (pos 127) exponent_of ≡ ltb 253 field
  unfolding ◌-ℤ◌
  too_big = ground arith

  least : not (ltb_ℤ (negsuc 125) exponent_of || ltb_ℤ exponent_of (negsuc 125)) ≡ (field == 0)
  unfolding ◌-ℤ◌
  least = ground arith

  field_of : field < 254 → to_unsigned (exponent_of +ℤ pos 127) ≡ field + 1
  field_of h =
      let e : exponent_of +ℤ pos 127 ≡ pos (field + 1) = omega int_laws in rw e (omega arith)

fields :
    (sign : Bool) (x y : ℕ)
    → x < 2 ^ 8
    → y < 2 ^ 23
    → bit_or (bit_or (sign_bits sign) (x * 2 ^ 23)) y ≡ sign_bits sign + x * 2 ^ 23 + y
fields sign x y p q =
    let e : bit_or (sign_bits sign) (x * 2 ^ 23) ≡ sign_bits sign + x * 2 ^ 23 =
      or_field 23 8 (sign_bits sign) x (ground arith) p in
    rw e (or_low 23 (sign_bits sign + x * 2 ^ 23) y (ground arith) q)

module _ (rm : RoundingMode) (sign inexact : Bool) (field r : ℕ) (lt : r < 2 ^ 24) where
  abbrev small : Scaled
  small = record { exponent = exponent_of field; significand = r }

  pack_overflow :
      253 < field → 2 ^ 23 ≤ r → pack rm sign inexact small ≡ encode rm sign inexact field r
  unfolding pack
  pack_overflow big lo =
      rw
        (
          too_big field,
          lt→ltb 253 field big,
          le→ltb (field * 2 ^ 23 + r) fp32_infinity (omega arith),
        )
        (ap (λ (v : ℕ). packed v 5)
          (sign_or sign (if rounds_to_infinity rm sign then fp32_infinity else fp32_max_finite)
            (ground arith)))

  pack_subnormal :
      field ≡ 0 → r < 2 ^ 23 → pack rm sign inexact small ≡ encode rm sign inexact field r
  unfolding pack
  pack_subnormal low less =
      rw
        (
          too_big field,
          least field,
          le→ltb 253 field (omega arith),
          eq→== field 0 low,
          lt→ltb r (2 ^ 23) less,
          lt→ltb (field * 2 ^ 23 + r) fp32_infinity (omega arith),
          lt→ltb (field * 2 ^ 23 + r) (2 ^ 23) (omega arith),
        )
        (let whole : bit_and (u32 r) 0x7fffff ≡ r =
            and_low 23 (u32 r) ∙ (let e : u32 r % 2 ^ 23 ≡ r = omega arith in e) in
          let value : bit_or (bit_or (sign_bits sign) 0) r ≡ sign_bits sign + r =
            fields sign 0 r (omega arith) less ∙ omega arith in
          ground (arith, whole, value))

  pack_normal :
      field ≤ 253 → 2 ^ 23 ≤ r → pack rm sign inexact small ≡ encode rm sign inexact field r
  unfolding pack
  pack_normal high lo =
      rw
        (
          too_big field,
          least field,
          le→ltb 253 field high,
          le→ltb r (2 ^ 23) lo,
          lt→ltb (field * 2 ^ 23 + r) fp32_infinity (omega arith),
          le→ltb (field * 2 ^ 23 + r) (2 ^ 23) (omega arith),
          ne→== r 0 (omega arith),
        )
        (let hidden : bit_and (u32 r) 0x7fffff ≡ r - 2 ^ 23 =
            and_low 23 (u32 r) ∙ (let e : u32 r % 2 ^ 23 ≡ r - 2 ^ 23 = omega arith in e) in
          let fits : (field + 1) * 2 ^ 23 % 2 ^ 32 ≡ (field + 1) * 2 ^ 23 = omega arith in
          ground (
            arith,
            hidden,
            fits,
            field_of field (omega arith),
            fields sign (field + 1) (r - 2 ^ 23) (omega arith) (omega arith),
          ))

pack_small :
    (rm : RoundingMode) (sign inexact : Bool) (field r : ℕ)
    → r < 2 ^ 24
    → (field ≡ 0) ⊎ (2 ^ 23 ≤ r)
    → pack rm sign inexact (record { exponent = exponent_of field; significand = r })
      ≡ encode rm sign inexact field r
pack_small rm sign inexact field r lt h = elim (Bool-cases (ltb r (2 ^ 23))) [
  | inl less ↦ pack_subnormal rm sign inexact field r lt (ground arith) (ltb→lt _ _ less)
  | inr more ↦ elim (Bool-cases (ltb 253 field)) [
    | inl big ↦ pack_overflow rm sign inexact field r lt (ltb→lt _ _ big) (ground arith)
    | inr fits ↦ pack_normal rm sign inexact field r lt (ground arith) (ground arith)
  ]
]

-- The same with a carry out of the rounding.
pub pack-carry :
    (rm : RoundingMode) (sign inexact : Bool) (field r : ℕ)
    → r ≤ 2 ^ 24
    → (field ≡ 0) ⊎ (2 ^ 23 ≤ r)
    → pack rm sign inexact (carry (record { exponent = exponent_of field; significand = r }))
      ≡ encode rm sign inexact field r
unfolding carry
pack-carry rm sign inexact field r le h = elim (Bool-cases (leb (2 ^ 24) r)) [
  | inr below ↦ rw below (pack_small rm sign inexact field r (ground arith) h)
  | inl full ↦
      let e : r ≡ 2 ^ 24 = ground arith in
      let up : exponent_of field +ℤ pos 1 ≡ exponent_of (field + 1) = omega int_laws in
      let half : r / 2 ≡ 2 ^ 23 = omega arith in
      let same : (field + 1) * 2 ^ 23 + 2 ^ 23 ≡ field * 2 ^ 23 + r = omega arith in
      rw (full, up, half)
        (pack_small rm sign inexact (field + 1) (2 ^ 23) (omega arith) (inr (omega arith))
          ∙ rw same refl)
]
