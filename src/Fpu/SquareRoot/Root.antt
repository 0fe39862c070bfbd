-- ===== src/Fpu/SquareRoot/Root.antt =====
-- `square_root_unsigned` of src/fpu.cpp, two digits of the value at a time: both loops end, with the
-- root and what is left of the value.
use native.Mathlib.Nat.{pow-succ', one-le-pow, pow-le-pow_right}
use zinc_simulator.Prelude.{
  ℕ, zero, suc, ◌+◌, ◌*◌, ◌/◌, ◌^◌, ◌≤◌, ◌<◌, ◌≡◌, refl, arith, true, false, ltb, leb, le→ltb,
  ltb→lt, ne→==, ◌==◌, Bool-cases, inl, inr, ok, Fault, Ends, returns, Ends-bind, Ends-map,
  Ends-value,
}
use zinc_simulator.Word.{u64}
use zinc_simulator.Fpu.SquareRoot.{
  SquareRootResult, first_bit, root_bit, root_loop, square_root_unsigned,
}

-- `bit` with `n` rounds left.
abbrev bit_at : ℕ → ℕ
bit_at zero = 0
bit_at (suc n) = 4 ^ n

bit_at-next : (n : ℕ) → bit_at (suc n) / 2 ^ 2 ≡ bit_at n
bit_at-next zero = refl
bit_at-next (suc n) = omega (arith, pow-succ' 4 n)

-- With `n` rounds left and s = 4 ^ n, the root so far is `p` times 2 ^ n.
pub record IsRooted (v s p : ℕ) (x : SquareRootResult) : Type 0 where
  pub root : x.root ≡ p * s
  pub law : x.remainder + p * p * s ≡ v
  pub less : x.remainder < (2 * p + 1) * s

times : (p s : ℕ) → p * s ≤ p * p * s
times zero s = omega arith
times (suc k) s =
    let e : suc k * suc k * s ≡ suc k * s + k * (suc k * s) = grind arith in omega arith

root_go :
    (fuel bit : ℕ) (x : SquareRootResult)
    → (bit == 0) ≡ false
    → root_loop (suc fuel) bit x ≡ root_loop fuel (bit / 2 ^ 2) (root_bit bit x)
unfolding root_loop
root_go fuel bit x e = rw (e, root_loop) refl

first_stop : (fuel v bit : ℕ) → ltb v bit ≡ false → first_bit (suc fuel) v bit ≡ ok bit
unfolding first_bit
first_stop fuel v bit e = rw (e, first_bit) refl

first_go :
    (fuel v bit : ℕ)
    → ltb v bit ≡ true
    → first_bit (suc fuel) v bit ≡ first_bit fuel v (bit / 2 ^ 2)
unfolding first_bit
first_go fuel v bit e = rw (e, first_bit) refl

module _ (v : ℕ) (h : v < 2 ^ 63) where
  root_bit-IsRooted :
      (s p : ℕ) (x : SquareRootResult)
      → s ≤ 2 ^ 62
      → IsRooted v (4 * s) p x
      → (q : ℕ) × IsRooted v s q (root_bit s x)
  unfolding root_bit
  root_bit-IsRooted s p x small inv =
      let four : p * (4 * s) ≡ 4 * (p * s) = grind arith in
      let square : p * p * (4 * s) ≡ 4 * (p * p * s) = grind arith in
      let bound : (2 * p + 1) * (4 * s) ≡ 8 * (p * s) + 4 * s = grind arith in
      let sum : u64 (x.root + s) ≡ 4 * (p * s) + s = omega (arith, inv.root, inv.law, times p s) in
      let next : u64 (x.root / 2 ^ 1 + s) ≡ 2 * (p * s) + s =
        omega (arith, inv.root, inv.law, times p s) in
      elim (Bool-cases (leb (4 * (p * s) + s) x.remainder)) [
        | inl enough ↦ (
          2 * p + 1,
          rw (sum, next, enough)
              (record {
                root = grind arith;
                law =
                    let e : (2 * p + 1) * (2 * p + 1) * s ≡ 4 * (p * p * s) + 4 * (p * s) + s =
                      grind arith in
                    ground (arith, inv.law);
                less =
                    let e : (2 * (2 * p + 1) + 1) * s ≡ 4 * (p * s) + 3 * s = grind arith in
                    ground (arith, inv.less);
              }),
        )
        | inr short ↦ (
          2 * p,
          rw (sum, short)
              (record {
                root = let e : 2 * p * s ≡ 2 * (p * s) = grind arith in omega (arith, inv.root);
                law =
                    let e : 2 * p * (2 * p) * s ≡ 4 * (p * p * s) = grind arith in
                    omega (arith, inv.law);
                less =
                    let e : (2 * (2 * p) + 1) * s ≡ 4 * (p * s) + s = grind arith in ground arith;
              }),
        )
      ]

  root_loop-Ends :
      {F : Fault → Type 0} (n fuel p : ℕ) (x : SquareRootResult)
      → n < fuel
      → n ≤ 32
      → IsRooted v (4 ^ n) p x
      → Ends (λ (y : SquareRootResult). (q : ℕ) × IsRooted v 1 q y) F (root_loop fuel (bit_at n) x)
  unfolding root_loop
  root_loop-Ends n zero p x m b inv = absurd (omega arith)
  root_loop-Ends zero (suc fuel) p x m b inv = returns (p, inv)
  root_loop-Ends (suc n) (suc fuel) p x m b inv =
      let positive = one-le-pow n 4 in
      let small : 4 ^ n ≤ 2 ^ 62 =
        pow-le-pow_right {n = 4} (omega arith) {i = n} {j = 31} (omega arith) in
      let (q, next) = root_bit-IsRooted (4 ^ n) p x small (rw (pow-succ' 4 n) at inv) in
      rw (root_go fuel (4 ^ n) x (ne→== (4 ^ n) 0 (omega arith))) (
        rw (bit_at-next n)
          (root_loop-Ends n fuel q (root_bit (4 ^ n) x) (omega arith) (omega arith) next))

  first_bit-Ends :
      {F : Fault → Type 0} (n fuel : ℕ)
      → n < fuel
      → v < 4 ^ n
      → Ends
          (λ (bit : ℕ). (k : ℕ) × (k ≤ n) × (bit ≡ bit_at k) × (v < 4 ^ k))
          F
          (first_bit fuel v (bit_at n))
  unfolding first_bit
  first_bit-Ends n zero m b = absurd (omega arith)
  first_bit-Ends zero (suc fuel) m b =
      rw (first_stop fuel v 0 (le→ltb v 0 (omega arith))) (returns (0, omega arith, refl, b))
  first_bit-Ends (suc n) (suc fuel) m b = elim (Bool-cases (ltb v (4 ^ n))) [
    | inl below ↦ rw (first_go fuel v (4 ^ n) below) (
        rw (bit_at-next n) (
          Ends-map (first_bit-Ends n fuel (omega arith) (ltb→lt v (4 ^ n) below))
            (λ bit (k, le, e, lt). (k, omega arith, e, lt))))
    | inr reached ↦ rw (first_stop fuel v (4 ^ n) reached) (returns (suc n, omega arith, refl, b))
  ]

abbrev pub IsRoot : ℕ → SquareRootResult → Type 0
IsRoot value y = (y.root * y.root + y.remainder ≡ value) × (y.remainder ≤ 2 * y.root)

last_round : (value q : ℕ) (y : SquareRootResult) → IsRooted value 1 q y → IsRoot value y
last_round value q y inv =
    let e : y.root ≡ q = omega (arith, inv.root) in
    (rw e (omega (arith, inv.law)), omega (arith, inv.less))

first_round :
    (value k : ℕ)
    → value < 4 ^ k
    → IsRooted value (4 ^ k) 0 (record { root = 0; remainder = value })
first_round value k lt = record { root = omega arith; law = omega arith; less = omega arith }

pub square_root_unsigned-Ends :
    {F : Fault → Type 0} (value : ℕ)
    → value < 2 ^ 63
    → Ends (IsRoot value) F (square_root_unsigned value)
unfolding square_root_unsigned
square_root_unsigned-Ends value h =
    Ends-bind (first_bit-Ends value h 32 64 (omega arith) (omega arith)) (λ bit (k, le, e, lt).
      rw e (
        Ends-map (root_loop-Ends value h k 64 0 _ (omega arith) le (first_round value k lt))
          (λ y (q, inv). last_round value q y inv)))

-- For a value below 2 ^ 63 both loops end, with the integer square root and the rest of the value.
pub square_root_unsigned-root :
    (value : ℕ)
    → value < 2 ^ 63
    → (x : SquareRootResult) × (square_root_unsigned value ≡ ok x)
      × (x.root * x.root + x.remainder ≡ value)
      × (x.remainder ≤ 2 * x.root)
square_root_unsigned-root value h =
    let (x, e, (square, rest)) =
      Ends-value {P = IsRoot value} (square_root_unsigned-Ends value h) (λ x f. f) in
    (x, e, square, rest)
