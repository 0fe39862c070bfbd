-- ===== src/Fpu/Round/Whole.antt =====
-- `round_and_pack` of src/fpu.cpp as a whole, against the rounding of a number.
use native.Mathlib.Nat.{div-add-mod', mod-lt}
use zinc_simulator.Prelude.{
  ℕ, ◌+◌, ◌*◌, ◌/◌, ◌%◌, ◌^◌, ◌≤◌, ◌<◌, ◌≡◌, arith, Bool, true, ok, Ends-map, Ends-value,
}
use zinc_simulator.Prelude.Int.{ℤ, negsuc, ◌≤ℤ◌}
use zinc_simulator.Insn.{RoundingMode}
use zinc_simulator.Fpu.{FpResult}
use zinc_simulator.Fpu.Unpack.{Scaled}
use zinc_simulator.Fpu.Round.{round_and_pack}
use zinc_simulator.Fpu.Round.Bounds.{is_static, round_and_pack_by}
use zinc_simulator.Fpu.Round.Shift.{sticky}
use zinc_simulator.Fpu.Round.Prepared.{unmoved}
use zinc_simulator.Fpu.Round.Correct.{IsRounding, prepared-IsRounding}
use zinc_simulator.Fpu.Round.Ratio.{IsRounding-sticky}

pub full_digits-IsRounding :
    (sign : Bool) (e : ℤ) (n : ℕ) (rm : RoundingMode)
    → 2 ^ 26 ≤ n
    → n < 2 ^ 27
    → negsuc 999 ≤ℤ e
    → is_static rm ≡ true
    → (x : FpResult) × (round_and_pack sign e n rm ≡ ok x) × IsRounding rm sign n 1 e x
full_digits-IsRounding sign e n rm lo hi least static =
    let start : Scaled = record { exponent = e; significand = n } in
    Ends-value
      (round_and_pack_by sign e n rm (omega arith) (omega arith) (λ s p.
        let (same_e, same_n) = unmoved e n s lo hi p in
        Ends-map (prepared-IsRounding rm sign start s (rw same_e least) p)
          (λ x q. rw (same_e, same_n) at q)))
      (λ x f. cc)

-- `round_and_pack` of a quotient of 27 digits.
pub quotient-IsRounding :
    (sign : Bool) (e : ℤ) (v u : ℕ) (rm : RoundingMode)
    → 0 < u
    → 2 ^ 26 ≤ v / u
    → v / u < 2 ^ 27
    → negsuc 999 ≤ℤ e
    → is_static rm ≡ true
    → (x : FpResult) × (round_and_pack sign e (sticky (v / u) (v % u)) rm ≡ ok x)
      × IsRounding rm sign v u e x
quotient-IsRounding sign e v u rm positive lo hi least static =
    let (x, run, p) =
      full_digits-IsRounding sign e (sticky (v / u) (v % u)) rm (ground arith) (ground arith) least
        static in
    let whole : v / u * u + v % u ≡ v = div-add-mod' v u in
    let turn : 1 * u ≡ u = omega arith in
    (
      x,
      run,
      rw (whole, turn) at (IsRounding-sticky rm sign e x (v / u) (v % u) u 1 (mod-lt v positive) p),
    )

module _ (rm : RoundingMode) (sign : Bool) (e : ℤ) (n : ℕ) where
  abbrev start : Scaled
  start = record { exponent = e; significand = n }
