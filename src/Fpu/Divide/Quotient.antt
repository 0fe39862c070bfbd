-- ===== src/Fpu/Divide/Quotient.antt =====
-- `divide_unsigned` of src/fpu.cpp, digit by digit, against the quotient and the remainder.
use native.Mathlib.Nat.{
  div-add-mod', pow-succ', div-eq_of_lt, div-eq_of_lt-le, one-le-pow, div-div-eq-div-mul,
  mul-div_cancel,
}
use zinc_simulator.Prelude.{
  ℕ, zero, suc, ◌+◌, ◌*◌, ◌/◌, ◌%◌, ◌^◌, ◌≤◌, ◌<◌, bit_and, bit_or, ◌≡◌, refl, sym, ◌∙◌, ap, arith,
  true, leb, Bool-cases, inl, inr,
}
use zinc_simulator.Word.{u64, ◌<<<◌, ◌>>>◌}
use zinc_simulator.Word.Fields.{and_low, or_low, or_field}
use zinc_simulator.Fpu.Divide.{DivisionResult, divide_bit, divide_loop, divide_unsigned}

-- The digits of `n` from `bits` on, divided by `d`: the quotient so far is `q`.
pub record IsDivided (n d bits q : ℕ) (x : DivisionResult) : Type 0 where
  pub quotient : x.quotient ≡ q * 2 ^ bits
  pub law : n / 2 ^ bits ≡ q * d + x.remainder
  pub less : x.remainder < d

leb→le : (a b : ℕ) → leb a b ≡ true → a ≤ b
leb→le a b h = ground arith

add_mul : (q d : ℕ) → (q + 1) * d ≡ q * d + d
add_mul q d = grind arith

module _ (n d : ℕ) (small : d ≤ 2 ^ 63) where
  -- The next digit comes in below the remainder.
  shift_in :
      (bit r : ℕ) → r < d → bit_or (u64 (r <<< 1)) (bit_and (n >>> bit) 1) ≡ 2 * r + n / 2 ^ bit % 2
  shift_in bit r less =
      let whole : u64 (r <<< 1) ≡ 2 * r = omega arith in
      rw (whole, and_low 1 (n / 2 ^ bit))
        (or_low 1 (2 * r) (n / 2 ^ bit % 2) (omega arith) (omega arith))

  next_digit : (bit : ℕ) → n / 2 ^ bit ≡ 2 * (n / 2 ^ suc bit) + n / 2 ^ bit % 2
  next_digit bit = omega (arith, halves)
    where
      halves : n / 2 ^ suc bit ≡ n / 2 ^ bit / 2
      halves =
          let two : 2 ^ suc bit ≡ 2 ^ bit * 2 = omega (arith, pow-succ' 2 bit) in
          rw two (sym (div-div-eq-div-mul n (2 ^ bit) 2))

  -- A digit of the quotient is set.
  set_digit : (bit q : ℕ) → bit_or (q * 2 ^ suc bit) (1 <<< bit) ≡ (2 * q + 1) * 2 ^ bit
  set_digit bit q =
      let even : q * 2 ^ suc bit ≡ 2 * q * 2 ^ bit = rw (pow-succ' 2 bit) (grind arith) in
      let positive : 0 < 2 ^ bit = omega (arith, one-le-pow bit 2) in
      let clear : 2 * q * 2 ^ bit / 2 ^ bit % 2 ^ 1 ≡ 0 =
        rw (mul-div_cancel (2 * q) positive) (omega arith) in
      rw even (or_field bit 1 (2 * q * 2 ^ bit) 1 clear (omega arith) ∙ grind arith)

  divide_bit-IsDivided :
      (bit q : ℕ) (x : DivisionResult)
      → IsDivided n d (suc bit) q x
      → (p : ℕ) × IsDivided n d bit p (divide_bit n d bit x)
  unfolding divide_bit
  divide_bit-IsDivided bit q x inv = elim (Bool-cases (leb d (2 * x.remainder + n / 2 ^ bit % 2))) [
    | inl enough ↦ (
      2 * q + 1,
      rw (shift_in bit x.remainder inv.less, enough)
          (record {
            quotient = ap (λ (t : ℕ). bit_or t (1 <<< bit)) inv.quotient ∙ set_digit bit q;
            law =
                let expand : (2 * q + 1) * d ≡ 2 * (q * d) + d = grind arith in
                omega (arith, next_digit bit, inv.law, leb→le _ _ enough);
            less = omega (arith, inv.less);
          }),
    )
    | inr less ↦ (
      2 * q,
      rw (shift_in bit x.remainder inv.less, less)
          (record {
            quotient = inv.quotient ∙ rw (pow-succ' 2 bit) (grind arith);
            law =
                let expand : 2 * q * d ≡ 2 * (q * d) = grind arith in
                omega (arith, next_digit bit, inv.law);
            less = ground arith;
          }),
    )
  ]

  divide_loop-IsDivided :
      (bits q : ℕ) (x : DivisionResult)
      → IsDivided n d bits q x
      → (p : ℕ) × IsDivided n d 0 p (divide_loop n d bits x)
  unfolding divide_loop
  divide_loop-IsDivided zero q x inv = (q, inv)
  divide_loop-IsDivided (suc bit) q x inv =
      let (p, next) = divide_bit-IsDivided bit q x inv in
      divide_loop-IsDivided bit p (divide_bit n d bit x) next

divides :
    (n d q : ℕ) (x : DivisionResult)
    → IsDivided n d 0 q x
    → (x.quotient ≡ n / d) × (x.remainder ≡ n % d)
divides n d q x inv =
    let law : n ≡ q * d + x.remainder = omega (arith, inv.law) in
    let e : n / d ≡ q = div-eq_of_lt-le d (grind arith) (omega (arith, inv.less, add_mul q d)) in
    (omega (arith, inv.quotient), omega (arith, div-add-mod' n d, ap (λ (t : ℕ). t * d) e))

-- The digit-by-digit division gives the quotient and the remainder, of a dividend of 64 bits by a
-- divisor of at most 2 ^ 63 other than zero.
pub divide_unsigned-div :
    (dividend divisor : ℕ)
    → dividend < 2 ^ 64
    → 0 < divisor
    → divisor ≤ 2 ^ 63
    → ((divide_unsigned dividend divisor).quotient ≡ dividend / divisor)
      × ((divide_unsigned dividend divisor).remainder ≡ dividend % divisor)
unfolding divide_unsigned
divide_unsigned-div n d h pos small =
    let (p, done) = divide_loop-IsDivided n d small 64 0 _ start in divides n d p _ done
  where
    start : IsDivided n d 64 0 (record { quotient = 0; remainder = 0 })
    start = record { quotient = refl; law = rw (div-eq_of_lt h) (omega arith); less = pos }
