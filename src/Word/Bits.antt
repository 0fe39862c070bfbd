-- ===== src/Word/Bits.antt =====
-- The bits of `&`, `|` and `^`, at every position and width.
use Prim.Native.Nat.{digits, bitwise, differ, bit_and-bitwise, bit_or-bitwise, bit_xor-bitwise}
use native.Mathlib.Nat.{le_refl, div-div-eq-div-mul, pow-succ'}
use zinc_simulator.Prelude.{
  ℕ, zero, suc, ◌+◌, ◌-◌, ◌*◌, ◌/◌, ◌%◌, ◌^◌, ◌≤◌, ◌<◌, bit_and, bit_or, bit_xor, min, max, ◌≡◌,
  refl, arith,
}

-- A native operation is `bitwise`, which halves its first operand as long as its fuel lasts. Any
-- fuel that covers the operand gives the same digits, hence an equation for the lowest one.
module _ (base : ℕ → ℕ) (op : ℕ → ℕ → ℕ) where
  same_digits : (x k l y : ℕ) → x ≤ k → x ≤ l → digits base op k x y ≡ digits base op l x y
  same_digits zero zero zero y hk hl = refl
  same_digits zero zero (suc l) y hk hl = refl
  same_digits zero (suc k) zero y hk hl = refl
  same_digits zero (suc k) (suc l) y hk hl = refl
  same_digits (suc x) (suc k) (suc l) y hk hl =
      rw (same_digits (suc x / 2) k l (y / 2) (omega arith) (omega arith))
  same_digits (suc x) zero l y hk hl = absurd (omega arith)
  same_digits (suc x) (suc k) zero y hk hl = absurd (omega arith)

  lowest_digit :
      (x y : ℕ)
      → bitwise base op (suc x) y ≡ op (suc x % 2) (y % 2) + 2 * bitwise base op (suc x / 2) (y / 2)
  lowest_digit x y =
      let half = suc x / 2 in
      omega (arith, same_digits half x half (y / 2) (omega arith) (le_refl half))

pub bit_and_step : (x y : ℕ) → bit_and x y ≡ bit_and (x / 2) (y / 2) * 2 + min (x % 2) (y % 2)
bit_and_step zero y = simp bit_and-bitwise (omega arith)
bit_and_step (suc x) y = simp bit_and-bitwise (omega (arith, lowest_digit (λ _. 0) min x y))

pub bit_or_step : (x y : ℕ) → bit_or x y ≡ bit_or (x / 2) (y / 2) * 2 + max (x % 2) (y % 2)
bit_or_step zero y = simp bit_or-bitwise (omega arith)
bit_or_step (suc x) y = simp bit_or-bitwise (omega (arith, lowest_digit (λ d. d) max x y))

-- Of two binary digits, whether they differ.
abbrev pub differs : ℕ → ℕ → ℕ
differs a b = (a + b) % 2

differ-two : (a b : ℕ) → a < 2 → b < 2 → differ a b ≡ differs a b
differ-two zero zero p q = refl
differ-two zero (suc zero) p q = refl
differ-two (suc zero) zero p q = refl
differ-two (suc zero) (suc zero) p q = refl
differ-two zero (suc (suc b)) p q = absurd (omega arith)
differ-two (suc zero) (suc (suc b)) p q = absurd (omega arith)
differ-two (suc (suc a)) b p q = absurd (omega arith)

pub bit_xor_step : (a b : ℕ) → bit_xor a b ≡ bit_xor (a / 2) (b / 2) * 2 + differs (a % 2) (b % 2)
bit_xor_step zero b = simp bit_xor-bitwise (omega arith)
bit_xor_step (suc a) b =
    rw (← differ-two (suc a % 2) (b % 2) (omega arith) (omega arith))
      (simp bit_xor-bitwise (omega (arith, lowest_digit (λ d. d) differ a b)))

-- The digit of `x` at position `i`.
unfoldable pub bit : ℕ → ℕ → ℕ
bit x i = x / 2 ^ i % 2

pub bit-zero : (x : ℕ) → bit x 0 ≡ x % 2
unfolding bit
bit-zero x = omega arith

pub bit-suc : (x i : ℕ) → bit x (suc i) ≡ bit (x / 2) i
unfolding bit
bit-suc x i = rw (pow-succ' 2 i) (rw (← div-div-eq-div-mul x 2 (2 ^ i)))

pub bit-le : (x i : ℕ) → bit x i ≤ 1
unfolding bit
bit-le x i = omega arith

-- An operation that works digit by digit.
module _ (op f : ℕ → ℕ → ℕ) (small : (a b : ℕ) → a < 2 → b < 2 → f a b < 2)
    (step : (a b : ℕ) → op a b ≡ op (a / 2) (b / 2) * 2 + f (a % 2) (b % 2)) where
  bit-op : (i a b : ℕ) → bit (op a b) i ≡ f (bit a i) (bit b i)
  bit-op zero a b = rw bit-zero (
      rw bit-zero
        (rw bit-zero (omega (arith, step a b, small (a % 2) (b % 2) (omega arith) (omega arith)))))
  bit-op (suc i) a b = rw bit-suc (rw bit-suc (rw bit-suc (rw half (bit-op i (a / 2) (b / 2)))))
    where
      half : op a b / 2 ≡ op (a / 2) (b / 2)
      half = omega (arith, step a b, small (a % 2) (b % 2) (omega arith) (omega arith))

  op-lt : op 0 0 ≡ 0 → (n a b : ℕ) → a < 2 ^ n → b < 2 ^ n → op a b < 2 ^ n
  op-lt e zero a b p q =
      let ea : a ≡ 0 = omega arith in let eb : b ≡ 0 = omega arith in rw (ea, eb, e) (omega arith)
  op-lt e (suc n) a b p q = omega (
    arith,
    step a b,
    pow-succ' 2 n,
    small (a % 2) (b % 2) (omega arith) (omega arith),
    op-lt e n (a / 2) (b / 2) (omega (arith, pow-succ' 2 n)) (omega (arith, pow-succ' 2 n)),
  )

min-small : (a b : ℕ) → a < 2 → b < 2 → min a b < 2
min-small a b p q = omega arith

max-small : (a b : ℕ) → a < 2 → b < 2 → max a b < 2
max-small a b p q = omega arith

differs-small : (a b : ℕ) → a < 2 → b < 2 → differs a b < 2
differs-small a b p q = omega arith

pub bit-bit_and : (i a b : ℕ) → bit (bit_and a b) i ≡ min (bit a i) (bit b i)
bit-bit_and = bit-op bit_and min min-small bit_and_step

pub bit-bit_or : (i a b : ℕ) → bit (bit_or a b) i ≡ max (bit a i) (bit b i)
bit-bit_or = bit-op bit_or max max-small bit_or_step

pub bit-bit_xor : (i a b : ℕ) → bit (bit_xor a b) i ≡ differs (bit a i) (bit b i)
bit-bit_xor = bit-op bit_xor differs differs-small bit_xor_step

pub bit_and-lt : (n a b : ℕ) → a < 2 ^ n → b < 2 ^ n → bit_and a b < 2 ^ n
bit_and-lt = op-lt bit_and min min-small bit_and_step refl

pub bit_or-lt : (n a b : ℕ) → a < 2 ^ n → b < 2 ^ n → bit_or a b < 2 ^ n
bit_or-lt = op-lt bit_or max max-small bit_or_step refl

pub bit_xor-lt : (n a b : ℕ) → a < 2 ^ n → b < 2 ^ n → bit_xor a b < 2 ^ n
bit_xor-lt = op-lt bit_xor differs differs-small bit_xor_step refl

-- Numbers of `n` digits with the same digits are equal.
pub bit_ext : (n a b : ℕ) → a < 2 ^ n → b < 2 ^ n → ((i : ℕ) → i < n → bit a i ≡ bit b i) → a ≡ b
bit_ext zero a b p q h = omega arith
bit_ext (suc n) a b p q h = omega (
  arith,
  rw (bit-zero a, bit-zero b) at (h 0 (omega arith)),
  bit_ext n (a / 2) (b / 2) (omega (arith, pow-succ' 2 n)) (omega (arith, pow-succ' 2 n))
      (λ i lt. rw (← bit-suc a i, ← bit-suc b i) (h (suc i) (omega arith))),
)

half-complement : (n x : ℕ) → (2 ^ suc n - 1 - x) / 2 ≡ 2 ^ n - 1 - x / 2
half-complement n x = omega (arith, pow-succ' 2 n)

-- The complement of a number of `n` digits flips each of them.
pub bit-complement : (n x i : ℕ) → x < 2 ^ n → i < n → bit (2 ^ n - 1 - x) i ≡ 1 - bit x i
bit-complement zero x i p q = absurd (omega arith)
bit-complement (suc n) x zero p q = rw (bit-zero x) (rw bit-zero (omega (arith, pow-succ' 2 n)))
bit-complement (suc n) x (suc i) p q = rw (bit-suc x i) (
    rw bit-suc (
      rw (half-complement n x)
        (bit-complement n (x / 2) i (omega (arith, pow-succ' 2 n)) (omega arith))))
