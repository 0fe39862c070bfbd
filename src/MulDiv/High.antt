-- ===== src/MulDiv/High.antt =====
-- The upper half of a product: `multiply_high_unsigned` and its signed variants.
use zinc_simulator.Prelude.{
  ℕ, ◌+◌, ◌-◌, ◌*◌, ◌/◌, ◌%◌, ◌^◌, ◌≤◌, ◌<◌, bit_and, ◌≡◌, refl, arith, Bool, true, false, ok,
  if◌then◌else◌, ◌!=◌,
}
use zinc_simulator.Prelude.Int.{pos, ◌+ℤ◌, ◌*ℤ◌}
use zinc_simulator.Word.{signed, sub64, ◌<<<◌}
use zinc_simulator.Word.Fields.{and_field}
use zinc_simulator.Insn.{OpType}
use zinc_simulator.MulDiv.{multiply_high_unsigned, execute, magnitude, is_negative}

grown-product : (a b x y : ℕ) → a * b ≤ (a + x) * (b + y)
grown-product a b x y = grind arith

half-product : (a b : ℕ) → a < 2 ^ 32 → b < 2 ^ 32 → a * b ≤ (2 ^ 32 - 1) * (2 ^ 32 - 1)
half-product a b p q =
    let ea : a + (2 ^ 32 - 1 - a) ≡ 2 ^ 32 - 1 = omega arith in
    let eb : b + (2 ^ 32 - 1 - b) ≡ 2 ^ 32 - 1 = omega arith in
    let h = grown-product a b (2 ^ 32 - 1 - a) (2 ^ 32 - 1 - b) in rw (ea, eb) at h

halves :
    (a0 a1 b0 b1 : ℕ)
    → (a1 * 2 ^ 32 + a0) * (b1 * 2 ^ 32 + b0)
      ≡ a1 * b1 * 2 ^ 64 + (a0 * b1 + a1 * b0) * 2 ^ 32 + a0 * b0
halves a0 a1 b0 b1 = grind arith

pub multiply_high_unsigned_lem :
    (a b : ℕ) → a < 2 ^ 64 → b < 2 ^ 64 → multiply_high_unsigned a b ≡ a * b / 2 ^ 64
unfolding multiply_high_unsigned
multiply_high_unsigned_lem a b p q =
    let a0 = a % 2 ^ 32 in
    let a1 = a / 2 ^ 32 in
    let b0 = b % 2 ^ 32 in
    let b1 = b / 2 ^ 32 in
    let ea : a1 * 2 ^ 32 + a0 ≡ a = omega arith in
    let eb : b1 * 2 ^ 32 + b0 ≡ b = omega arith in
    let split = halves a0 a1 b0 b1 in
    let e : a * b ≡ a1 * b1 * 2 ^ 64 + (a0 * b1 + a1 * b0) * 2 ^ 32 + a0 * b0 =
      rw (ea, eb) at split in
    let h00 = half-product a0 b0 (omega arith) (omega arith) in
    let h01 = half-product a0 b1 (omega arith) (omega arith) in
    let h10 = half-product a1 b0 (omega arith) (omega arith) in
    let h11 = half-product a1 b1 (omega arith) (omega arith) in omega (arith, e, h00, h01, h10, h11)

-- A product and that of the complement of its first factor.
complement-product : (a a' b : ℕ) → a + a' ≡ 2 ^ 64 → a * b + a' * b ≡ 2 ^ 64 * b
complement-product a a' b e =
    let d : (a + a') * b ≡ a * b + a' * b = grind arith in
    let d' : 2 ^ 64 * b ≡ a * b + a' * b = rw e at d in omega arith

quarter-product : (a b : ℕ) → a ≤ 2 ^ 63 → b ≤ 2 ^ 63 → a * b ≤ 2 ^ 63 * 2 ^ 63
quarter-product a b p q =
    let ea : a + (2 ^ 63 - a) ≡ 2 ^ 63 = omega arith in
    let eb : b + (2 ^ 63 - b) ≡ 2 ^ 63 = omega arith in
    let h = grown-product a b (2 ^ 63 - a) (2 ^ 63 - b) in rw (ea, eb) at h

sign-test : (x : ℕ) → x < 2 ^ 64 → (bit_and x (1 <<< 63) != 0) ≡ is_negative 64 x
sign-test x h = ground (arith, and_field 63 1 x)

-- The upper half that `mulh` returns, from the unsigned one.
abbrev corrected : Bool → Bool → ℕ → ℕ → ℕ → ℕ
corrected na nb high a b =
    let high1 = if na then sub64 high b else high in if nb then sub64 high1 a else high1

mulh-execute :
    (a b : ℕ)
    → a < 2 ^ 64
    → b < 2 ^ 64
    → execute OpType.mulh a b
      ≡ ok (corrected (is_negative 64 a) (is_negative 64 b) (a * b / 2 ^ 64) a b)
unfolding execute
mulh-execute a b p q = rw (sign-test a p, sign-test b q, multiply_high_unsigned_lem a b p q)

-- Both halves of the signed product, from the signs, the magnitudes and the unsigned product.
signed_product :
    (a b p m : ℕ)
    → a < 2 ^ 64
    → b < 2 ^ 64
    → m ≤ 2 ^ 126
    → m ≡ magnitude 64 a * magnitude 64 b
    → (is_negative 64 a ≡ false → is_negative 64 b ≡ false → p ≡ m)
    → (is_negative 64 a ≡ true → is_negative 64 b ≡ false → p + m ≡ 2 ^ 64 * b)
    → (is_negative 64 a ≡ false → is_negative 64 b ≡ true → p + m ≡ 2 ^ 64 * a)
    → (is_negative 64 a ≡ true
        → is_negative 64 b ≡ true
        → p + 2 ^ 128 ≡ m + 2 ^ 64 * a + 2 ^ 64 * b)
    → signed 64 a *ℤ signed 64 b
      ≡ pos (2 ^ 64) *ℤ signed 64 (corrected (is_negative 64 a) (is_negative 64 b) (p / 2 ^ 64) a b)
        +ℤ pos (p % 2 ^ 64)
unfolding ◌*ℤ◌ ◌+ℤ◌
signed_product a b p m ha hb hm e h00 h10 h01 h11 = ground arith

signed_product_lem :
    (a b : ℕ)
    → a < 2 ^ 64
    → b < 2 ^ 64
    → signed 64 a *ℤ signed 64 b
      ≡ pos (2 ^ 64)
          *ℤ signed 64 (corrected (is_negative 64 a) (is_negative 64 b) (a * b / 2 ^ 64) a b)
        +ℤ pos (a * b % 2 ^ 64)
signed_product_lem a b p q =
    let a' = 2 ^ 64 - a in
    let b' = 2 ^ 64 - b in
    let ea : a + a' ≡ 2 ^ 64 = omega arith in
    let eb : b + b' ≡ 2 ^ 64 = omega arith in
    let c1 = complement-product a a' b ea in
    let c2 : a * b + a * b' ≡ 2 ^ 64 * a = grind (arith, complement-product b b' a eb) in
    let c3 : a' * b + a' * b' ≡ 2 ^ 64 * a' = grind (arith, complement-product b b' a' eb) in
    let bound = quarter-product (magnitude 64 a) (magnitude 64 b) (ground arith) (ground arith) in
    signed_product a b (a * b) (magnitude 64 a * magnitude 64 b) p q (omega (arith, bound)) refl
      (ground arith) (ground (arith, c1)) (ground (arith, c2)) (ground (arith, c1, c3))

-- On 64-bit operands, MULHU and MUL return the two halves of the unsigned product, and MULH and MUL
-- those of the signed product.
pub execute-product :
    (a b : ℕ)
    → a < 2 ^ 64
    → b < 2 ^ 64
    → (low high high_s : ℕ) × (execute OpType.mul a b ≡ ok low)
      × (execute OpType.mulhu a b ≡ ok high)
      × (execute OpType.mulh a b ≡ ok high_s)
      × (high * 2 ^ 64 + low ≡ a * b)
      × (signed 64 a *ℤ signed 64 b ≡ pos (2 ^ 64) *ℤ signed 64 high_s +ℤ pos low)
unfolding execute
execute-product a b p q = (
  a * b % 2 ^ 64,
  a * b / 2 ^ 64,
  corrected (is_negative 64 a) (is_negative 64 b) (a * b / 2 ^ 64) a b,
  refl,
  rw (multiply_high_unsigned_lem a b p q),
  mulh-execute a b p q,
  omega arith,
  signed_product_lem a b p q,
)
