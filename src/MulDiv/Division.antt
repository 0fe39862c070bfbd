-- ===== src/MulDiv/Division.antt =====
-- Division and remainder: the law of division, on signed and on unsigned operands.
use zinc_simulator.Prelude.{
  ℕ, ◌+◌, ◌-◌, ◌*◌, ◌/◌, ◌%◌, ◌^◌, ◌≤◌, ◌<◌, ◌≡◌, ◌≢◌, refl, sym, ◌∙◌, arith, Bool, true, false, ok,
  if◌then◌else◌, ◌==◌, ◌&&◌, Bool-cases, inl, inr,
}
use native.Mathlib.Nat.{div-le_self, div-add-mod', mod-lt}
use zinc_simulator.Prelude.Int.{ℤ, pos, sub_ℕ, ◌+ℤ◌, ◌*ℤ◌}
use zinc_simulator.Word.{signed}
use zinc_simulator.Insn.{OpType}
use zinc_simulator.MulDiv.{execute, magnitude, is_negative, with_sign, signed_div, signed_rem}

abbrev pub differ : Bool → Bool → Bool
differ s t = if s then (if t then false else true) else t

-- An integer from its sign and its magnitude.
abbrev from_sign : Bool → ℕ → ℤ
from_sign s m = if s then sub_ℕ 0 m else pos m

signed-magnitude :
    (a : ℕ) → a < 2 ^ 64 → signed 64 a ≡ from_sign (is_negative 64 a) (magnitude 64 a)
signed-magnitude a h = ground arith

signed-with_sign :
    (s : Bool) (m : ℕ)
    → m ≤ 2 ^ 63
    → (s ≡ false → m < 2 ^ 63)
    → signed 64 (with_sign 64 s m) ≡ from_sign s m
signed-with_sign s m h f = ground arith

sign_division :
    (s t : Bool) (m n q r : ℕ)
    → m ≡ q * n + r
    → from_sign s m ≡ from_sign (differ s t) q *ℤ from_sign t n +ℤ from_sign s r
unfolding ◌*ℤ◌ ◌+ℤ◌
sign_division true true m n q r e = ground (arith, e)
sign_division true false m n q r e = ground (arith, e)
sign_division false true m n q r e = ground (arith, e)
sign_division false false m n q r e = ground (arith, e)

quotient_lem : (m n : ℕ) → n ≢ 0 → (m ≡ m / n * n + m % n) × (m % n < n)
quotient_lem m n h = (sym (div-add-mod' m n), mod-lt m (omega arith))

quotient-halves : (m n : ℕ) → 1 < n → m / n * 2 ≤ m
quotient-halves m n h =
    let q = m / n in
    let two : 2 + (n - 2) ≡ n = omega arith in
    let split : q * (2 + (n - 2)) ≡ q * 2 + q * (n - 2) = grind arith in
    let split' = rw two at split in omega (arith, div-add-mod' m n)

with_sign-magnitude :
    (s : Bool) (m : ℕ)
    → m < 2 ^ 63
    → let x = with_sign 64 s m in
      (magnitude 64 x ≡ m) × ((if x == 0 then false else differ (is_negative 64 x) s) ≡ false)
with_sign-magnitude true m h = (ground arith, ground arith)
with_sign-magnitude false m h = (ground arith, ground arith)

magnitude-le : (x : ℕ) → x < 2 ^ 64 → magnitude 64 x ≤ 2 ^ 63
magnitude-le x h = ground arith

module _ (a b : ℕ) (ha : a < 2 ^ 64) (hb : b < 2 ^ 64) (hz : b ≢ 0) where
  abbrev s : Bool
  s = is_negative 64 a

  abbrev t : Bool
  t = is_negative 64 b

  abbrev m : ℕ
  m = magnitude 64 a

  abbrev n : ℕ
  n = magnitude 64 b

  divisor : n ≢ 0
  divisor h = ground arith

  signed_quotient :
      (a == 2 ^ 63 && b == 2 ^ 64 - 1) ≡ false
      → signed 64 (signed_div 64 a b) ≡ from_sign (differ s t) (m / n)
  unfolding signed_div
  signed_quotient ho =
      signed-with_sign (differ s t) (m / n) (omega (arith, div-le_self m n, magnitude-le a ha))
        small
    where
      small : differ s t ≡ false → m / n < 2 ^ 63
      small e = elim (Bool-cases (n == 1)) [
        | inl one ↦ let whole : m < 2 ^ 63 = ground arith in omega (arith, div-le_self m n)
        | inr more ↦ omega (arith, quotient-halves m n (ground arith), magnitude-le a ha)
      ]

  signed_remainder : signed 64 (signed_rem 64 a b) ≡ from_sign s (m % n)
  unfolding signed_rem
  signed_remainder =
      let less = (quotient_lem m n divisor).1 in
      let small = magnitude-le b hb in signed-with_sign s (m % n) (omega arith) (λ _. omega arith)

  remainder_lem :
      let r = signed_rem 64 a b in
      (magnitude 64 r ≡ m % n) × ((if r == 0 then false else differ (is_negative 64 r) s) ≡ false)
  unfolding signed_rem
  remainder_lem =
      let less = (quotient_lem m n divisor).1 in
      let small = magnitude-le b hb in with_sign-magnitude s (m % n) (omega arith)

-- For a divisor other than zero and operands that do not overflow, DIV and REM satisfy the law of
-- division on signed integers; the remainder is smaller than the divisor, and zero or of the sign
-- of the dividend.
pub execute-division :
    (a b : ℕ)
    → a < 2 ^ 64
    → b < 2 ^ 64
    → b ≢ 0
    → (a == 2 ^ 63 && b == 2 ^ 64 - 1) ≡ false
    → (q r : ℕ) × (execute OpType.div a b ≡ ok q)
      × (execute OpType.rem a b ≡ ok r)
      × (signed 64 a ≡ signed 64 q *ℤ signed 64 b +ℤ signed 64 r)
      × (magnitude 64 r < magnitude 64 b)
      × ((if r == 0 then false else differ (is_negative 64 r) (is_negative 64 a)) ≡ false)
unfolding execute
execute-division a b ha hb hz ho =
    let nonzero : (b == 0) ≡ false = ground arith in
    let (e, less) = quotient_lem (magnitude 64 a) (magnitude 64 b) (divisor a b ha hb hz) in
    let (size, sign) = remainder_lem a b ha hb hz in
    (
      signed_div 64 a b,
      signed_rem 64 a b,
      rw (nonzero, ho),
      rw (nonzero, ho),
      signed-magnitude a ha
          ∙ sign_division (is_negative 64 a) (is_negative 64 b) (magnitude 64 a) (magnitude 64 b) _
              _ e
          ∙ sym (
              rw (
                signed_quotient a b ha hb hz ho,
                signed_remainder a b ha hb hz,
                signed-magnitude b hb,
              )),
      rw size less,
      sign,
    )

-- DIVU and REMU satisfy the law of division for every divisor. The remainder is smaller than a
-- divisor other than zero; a division by zero gives the largest quotient and the dividend.
pub execute-division_unsigned :
    (a b : ℕ)
    → (q r : ℕ) × (execute OpType.divu a b ≡ ok q)
      × (execute OpType.remu a b ≡ ok r)
      × (q * b + r ≡ a)
      × (if b == 0 then q ≡ 2 ^ 64 - 1 else r < b)
unfolding execute
execute-division_unsigned a b = elim (Bool-cases (b == 0)) [
  | inl e ↦ (2 ^ 64 - 1, a, rw e, rw e, ground arith, rw e refl)
  | inr e ↦
      let (law, less) = quotient_lem a b (ground arith) in
      (a / b, a % b, rw e, rw e, sym law, rw e less)
]
