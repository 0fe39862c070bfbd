-- ===== src/Fpu/Round/Ratio.antt =====
-- A correctly rounded quotient, written with another dividend, divisor and exponent.
use native.Mathlib.Nat.{mul_assoc, pow-succ'}
use mathlib.Core.Path.{subst}
use zinc_simulator.Prelude.{
  ℕ, zero, suc, ◌+◌, ◌*◌, ◌^◌, ◌<◌, ◌≡◌, sym, ◌∙◌, ap, arith, Bool, not, ◌==◌,
}
use zinc_simulator.Prelude.Int.{ℤ, pos, ◌+ℤ◌, int_laws}
use zinc_simulator.Insn.{RoundingMode}
use zinc_simulator.Fpu.{FpResult}
use zinc_simulator.Fpu.Round.Pack.{encode}
use zinc_simulator.Fpu.Round.Shift.{sticky}
use zinc_simulator.Fpu.Round.Exact.{HasDigits-sticky, IsQuotient-sticky, exact-sticky}
use zinc_simulator.Fpu.Round.Correct.{IsRounding}

module _ (rm : RoundingMode) (sign : Bool) (e : ℤ) (x : FpResult) where
  -- A rounding of a quotient with a sticky digit is one of the number.
  pub IsRounding-sticky :
      (q t u w : ℕ)
      → t < u
      → IsRounding rm sign (sticky q t) w e x
      → IsRounding rm sign (q * u + t) (w * u) e x
  IsRounding-sticky q t u w less (j, field, r, digits, quotient, exponent, code) =
      let turn : 2 ^ j * w * u ≡ 2 ^ j * (w * u) = mul_assoc (2 ^ j) w u in
      let exact : (8 * (r * (2 ^ j * (w * u))) == q * u + t)
          ≡ (8 * (r * (2 ^ j * w)) == sticky q t) =
        rw turn at (exact-sticky q t u (2 ^ j * w) r less) in
      (
        j,
        field,
        r,
        rw turn at (HasDigits-sticky q t u (2 ^ j * w) r less field digits),
        rw turn at (IsQuotient-sticky q t u (2 ^ j * w) r less rm sign quotient),
        exponent,
        code ∙ ap (λ (b : Bool). encode rm sign (not b) field r) (sym exact),
      )

  -- Twice the divisor is the next exponent.
  pub IsRounding-half :
      (v u : ℕ) → IsRounding rm sign v (2 * u) (e +ℤ pos 1) x → IsRounding rm sign v u e x
  IsRounding-half v u (j, field, r, digits, quotient, exponent, code) =
      let turn : 2 ^ j * (2 * u) ≡ 2 ^ suc j * u =
        sym (mul_assoc (2 ^ j) 2 u) ∙ ap (λ (w : ℕ). w * u) (omega (arith, pow-succ' 2 j)) in
      (
        suc j,
        field,
        r,
        rw turn at digits,
        rw turn at quotient,
        exponent ∙ omega int_laws,
        code ∙ ap (λ (w : ℕ). encode rm sign (not (8 * (r * w) == v)) field r) turn,
      )

  -- Dividend and divisor, scaled alike.
  pub IsRounding-scaled :
      (v u c : ℕ) → 0 < c → IsRounding rm sign v u e x → IsRounding rm sign (v * c) (u * c) e x
  IsRounding-scaled v u c positive p =
      let none : v * c + 0 ≡ v * c = omega arith in
      rw none at (IsRounding-sticky v 0 c u positive p)

-- A power of two in the divisor, as an exponent.
pub IsRounding-power :
    (rm : RoundingMode) (sign : Bool) (e : ℤ) (x : FpResult) (v u k : ℕ)
    → IsRounding rm sign v (2 ^ k * u) (e +ℤ pos k) x
    → IsRounding rm sign v u e x
IsRounding-power rm sign e x v u zero p =
    let same : e +ℤ pos 0 ≡ e = omega int_laws in
    let one : 2 ^ 0 * u ≡ u = omega arith in rw (same, one) at p
IsRounding-power rm sign e x v u (suc k) p =
    let next : e +ℤ pos (suc k) ≡ e +ℤ pos k +ℤ pos 1 = omega int_laws in
    let twice : 2 ^ suc k * u ≡ 2 * (2 ^ k * u) =
      ap (λ (w : ℕ). w * u) (pow-succ' 2 k) ∙ mul_assoc 2 (2 ^ k) u in
    let q : IsRounding rm sign v (2 * (2 ^ k * u)) (e +ℤ pos k +ℤ pos 1) x =
      rw (next, twice) at p in
    IsRounding-power rm sign e x v u k (IsRounding-half rm sign (e +ℤ pos k) x v (2 ^ k * u) q)

-- All of it: a quotient is one of integers, on a lower exponent.
pub IsRounding-moved :
    (rm : RoundingMode) (sign : Bool) (x : FpResult) (v u : ℕ) (e : ℤ) (v' : ℕ) (e' : ℤ) (c h : ℕ)
    → 0 < c
    → v * c ≡ v'
    → u * c ≡ 2 ^ h * 1
    → e ≡ e' +ℤ pos h
    → IsRounding rm sign v u e x
    → IsRounding rm sign v' 1 e' x
IsRounding-moved rm sign x v u e v' e' c h positive dividend divisor exponent p =
    let q : IsRounding rm sign v' (2 ^ h * 1) e x =
      rw (dividend, divisor) at (IsRounding-scaled rm sign e x v u c positive p) in
    IsRounding-power rm sign e' x v' 1 h
      (subst (λ (t : ℤ). IsRounding rm sign v' (2 ^ h * 1) t x) exponent q)
