-- ===== src/Fpu/Round/Prepared.antt =====
-- What the steps before the rounding make of a significand of 27 digits.
use zinc_simulator.Prelude.{
  ℕ, zero, suc, ◌-◌, ◌*◌, ◌/◌, ◌%◌, ◌^◌, ◌≤◌, ◌<◌, ◌≡◌, inl, inr, refl, sym, ◌∙◌, ap, arith, true,
  lt→ltb, Bool-cases,
}
use native.Mathlib.Nat.{one-le-pow, mul-le-mul_right, pow-succ'}
use zinc_simulator.Prelude.Int.{ℤ, pos, negsuc, ◌≤ℤ◌, ◌+ℤ◌, ◌-ℤ◌, ltb_ℤ, int_laws}
use zinc_simulator.Fpu.Unpack.{Scaled, to_unsigned}
use zinc_simulator.Fpu.Unpack.Normalize.{IsShifted}
use zinc_simulator.Fpu.Round.{denormalize}
use zinc_simulator.Fpu.Round.Shift.{sticky, shift_right_jam-sticky}
use zinc_simulator.Fpu.Round.Bounds.{IsPrepared, Narrowed}

distance_lem :
    (e : ℤ)
    → negsuc 999 ≤ℤ e
    → ltb_ℤ e (negsuc 125) ≡ true
    → (b : ℕ) × (to_unsigned (negsuc 125 -ℤ e) ≡ b) × (negsuc 125 ≡ e +ℤ pos b)
unfolding ◌-ℤ◌ ◌+ℤ◌
distance_lem (pos m) least below = absurd (ground arith)
distance_lem (negsuc m) least below = (m - 125, ground arith, ground arith)

-- What denormalisation leaves of a number of 27 digits.
pub denormalize-sticky :
    (s : Scaled)
    → s.significand < 2 ^ 27
    → negsuc 999 ≤ℤ s.exponent
    → let d = denormalize s in
      (b : ℕ) × (d.significand ≡ sticky (s.significand / 2 ^ b) (s.significand % 2 ^ b))
      × (d.exponent ≡ s.exponent +ℤ pos b)
unfolding denormalize
denormalize-sticky s hi least = elim (Bool-cases (ltb_ℤ s.exponent (negsuc 125))) [
  | inl below ↦
      let (b, far, e) = distance_lem s.exponent least below in
      rw below (b, rw far (shift_right_jam-sticky s.significand b (omega arith)), e)
  | inr above ↦ rw above (0, ground arith, omega int_laws)
]

pub narrowed_lem : (s r : Scaled) → s.significand < 2 ^ 27 → Narrowed s r → r ≡ s
narrowed_lem s r h p = let small = lt→ltb s.significand (2 ^ 27) h in rw small at p

pub unshifted : (n k : ℕ) → 2 ^ 26 ≤ n → n * 2 ^ k < 2 ^ 27 → k ≡ 0
unshifted n zero lo hi = refl
unshifted n (suc k) lo hi =
    let more : 2 ^ 26 * 2 ^ suc k ≤ n * 2 ^ suc k = mul-le-mul_right (2 ^ suc k) lo in
    let two : 2 ≤ 2 ^ suc k = omega (arith, pow-succ' 2 k, one-le-pow k 2 (omega arith)) in
    absurd (omega arith)

pub from_start :
    (k : ℕ) (start m s : Scaled)
    → m ≡ start
    → k ≡ 0
    → IsShifted 26 m k s
    → (s.exponent ≡ start.exponent) × (s.significand ≡ start.significand)
from_start k start m s same none p =
    let e : s.exponent ≡ start.exponent -ℤ pos 0 = cc in
    let n : s.significand ≡ start.significand * 2 ^ 0 = cc in (e ∙ omega int_laws, n ∙ omega arith)

-- A significand of 27 digits is not moved by the two loops.
pub unmoved :
    (e : ℤ) (n : ℕ) (s : Scaled)
    → 2 ^ 26 ≤ n
    → n < 2 ^ 27
    → IsPrepared (record { exponent = e; significand = n }) s
    → (s.exponent ≡ e) × (s.significand ≡ n)
unmoved e n s lo hi p =
    let start : Scaled = record { exponent = e; significand = n } in
    let same : p.middle ≡ start = narrowed_lem start p.middle hi p.narrowed in
    let digits : n ≡ p.middle.significand = ap (λ (t : Scaled). t.significand) (sym same) in
    let less : p.middle.significand * 2 ^ p.shift < 2 ^ 27 =
      rw (sym p.shifted.significand) p.shifted.upper in
    let none : p.shift ≡ 0 = unshifted p.middle.significand p.shift (omega arith) less in
    from_start p.shift start p.middle s same none p.shifted
