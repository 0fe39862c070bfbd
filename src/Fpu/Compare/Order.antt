-- ===== src/Fpu/Compare/Order.antt =====
-- The comparisons against the order of the integers: a pattern that is no NaN has a place among them.
use zinc_simulator.Prelude.{
  ℕ, ◌+◌, ◌-◌, ◌/◌, ◌%◌, ◌^◌, ◌<◌, bit_and, bit_or, ◌≡◌, inl, inr, refl, arith, Bool, true, false,
  not, ◌==◌, ◌!=◌, ltb, leb, if◌then◌else◌, Bool-cases, ok,
}
use zinc_simulator.Prelude.Int.{ℤ, pos, negsuc, pos_part, neg_part, sub_ℕ, ltb_ℤ}
use zinc_simulator.Word.Fields.{and_low, and_field}
use zinc_simulator.Insn.{OpFpType}
use zinc_simulator.Fpu.{FpClass, classification}
use zinc_simulator.Fpu.Unpack.Value.{unpacked}
use zinc_simulator.Fpu.Round.{packed, is_nan, is_zero, is_signaling_nan}
use zinc_simulator.Fpu.Compare.{less_than, compare_by, compare, min_or_max}

-- A number of its sign and magnitude: both zeros are 0.
abbrev pub key : ℕ → ℤ
key raw = if ltb raw (2 ^ 31) then pos raw else sub_ℕ 0 (raw - 2 ^ 31)

-- The same with the negative zero just below the positive one.
abbrev pub place : ℕ → ℤ
place raw = if ltb raw (2 ^ 31) then pos raw else negsuc (raw - 2 ^ 31)

abbrev pub eqb_ℤ : ℤ → ℤ → Bool
eqb_ℤ a b = pos_part a + neg_part b == pos_part b + neg_part a

abbrev pub leb_ℤ : ℤ → ℤ → Bool
leb_ℤ a b = leb (pos_part a + neg_part b) (pos_part b + neg_part a)

sign_test : (a : ℕ) → a < 2 ^ 32 → (bit_and a (2 ^ 31) != 0) ≡ not (ltb a (2 ^ 31))
sign_test a h = ground (arith, and_field 31 1 a)

module _ (a b : ℕ) (ha : a < 2 ^ 32) (hb : b < 2 ^ 32) where
  pub less_than-place : less_than a b ≡ ltb_ℤ (place a) (place b)
  unfolding less_than
  less_than-place =
      rw (sign_test a ha, sign_test b hb, and_low 31 a, and_low 31 b)
        (elim (Bool-cases (ltb a (2 ^ 31))) [
          | inl p ↦ elim (Bool-cases (ltb b (2 ^ 31))) [
            | inl q ↦ rw (p, q) (ground arith)
            | inr q ↦ rw (p, q) (ground arith)
          ]
          | inr p ↦ elim (Bool-cases (ltb b (2 ^ 31))) [
            | inl q ↦ rw (p, q) (ground arith)
            | inr q ↦ rw (p, q) (ground arith)
          ]
        ])

  -- Two zeros: `|` keeps a sign, and `&` needs both.
  zeros :
      a % 2 ^ 31 ≡ 0
      → b % 2 ^ 31 ≡ 0
      → (bit_or a b ≡ (if ltb_ℤ (place a) (place b) then a else b))
        × (bit_and a b ≡ (if ltb_ℤ (place a) (place b) then b else a))
  zeros za zb = elim (Bool-cases (a == 0)) [
    | inl p ↦
        let ea : a ≡ 0 = ground arith in
        elim (Bool-cases (b == 0)) [
          | inl q ↦ let eb : b ≡ 0 = ground arith in rw (ea, eb) (refl, refl)
          | inr q ↦ let eb : b ≡ 2 ^ 31 = ground arith in rw (ea, eb) (refl, refl)
        ]
    | inr p ↦
        let ea : a ≡ 2 ^ 31 = ground arith in
        elim (Bool-cases (b == 0)) [
          | inl q ↦ let eb : b ≡ 0 = ground arith in rw (ea, eb) (refl, refl)
          | inr q ↦ let eb : b ≡ 2 ^ 31 = ground arith in rw (ea, eb) (refl, refl)
        ]
  ]

not_signaling : (c : FpClass) → is_nan c ≡ false → is_signaling_nan c ≡ false
not_signaling FpClass.zero h = refl
not_signaling FpClass.subnormal h = refl
not_signaling FpClass.normal h = refl
not_signaling FpClass.infinity h = refl
not_signaling FpClass.signaling_nan h = cc
not_signaling FpClass.quiet_nan h = cc

pub is_zero-classification : (a : ℕ) → a < 2 ^ 32 → is_zero (classification a) ≡ (a % 2 ^ 31 == 0)
unfolding classification
is_zero-classification a h = ground (arith, and_low 8 (a / 2 ^ 23), and_low 23 a)

-- Of two patterns of 32 bits that are no NaNs, FEQ.S, FLT.S and FLE.S give the order of their keys,
-- and raise no flag.
pub compare-key :
    (a b : ℕ)
    → a < 2 ^ 32
    → b < 2 ^ 32
    → is_nan (classification a) ≡ false
    → is_nan (classification b) ≡ false
    → (compare OpFpType.eq a b ≡ ok (packed (if eqb_ℤ (key a) (key b) then 1 else 0) 0))
      × (compare OpFpType.lt a b ≡ ok (packed (if ltb_ℤ (key a) (key b) then 1 else 0) 0))
      × (compare OpFpType.le a b ≡ ok (packed (if leb_ℤ (key a) (key b) then 1 else 0) 0))
unfolding compare compare_by
compare-key a b ha hb na nb =
    let (u, e, p) = unpacked a in
    let (v, f, q) = unpacked b in
    rw (e, f)
      (rw
        (
          p.class_of,
          q.class_of,
          na,
          nb,
          is_zero-classification a ha,
          is_zero-classification b hb,
          less_than-place a b ha hb,
        )
        (ground arith, ground arith, ground arith))

-- Of two patterns of 32 bits that are no NaNs, FMIN.S and FMAX.S return the lesser and the greater,
-- where the negative zero is below the positive one, and raise no flag.
pub min_or_max-place :
    (a b : ℕ)
    → a < 2 ^ 32
    → b < 2 ^ 32
    → is_nan (classification a) ≡ false
    → is_nan (classification b) ≡ false
    → (min_or_max a b false ≡ ok (packed (if ltb_ℤ (place a) (place b) then a else b) 0))
      × (min_or_max a b true ≡ ok (packed (if ltb_ℤ (place a) (place b) then b else a) 0))
unfolding min_or_max
min_or_max-place a b ha hb na nb =
    let (u, e, p) = unpacked a in
    let (v, f, q) = unpacked b in
    rw (e, f)
      (rw
        (
          p.class_of,
          q.class_of,
          na,
          nb,
          not_signaling _ na,
          not_signaling _ nb,
          is_zero-classification a ha,
          is_zero-classification b hb,
          less_than-place a b ha hb,
        )
        (ground (arith, zeros a b ha hb), ground (arith, zeros a b ha hb)))
