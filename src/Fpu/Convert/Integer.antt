-- ===== src/Fpu/Convert/Integer.antt =====
-- `integer_to_float` of src/fpu.cpp, against the integer that it reads.
use native.Mathlib.Nat.{
  div-lt_iff_lt-mul, le-div_iff_mul-le, one-le-pow, mul-le-mul_right, pow-succ', mul_assoc,
}
use zinc_simulator.Prelude.{
  ◌↔◌, ℕ, suc, ◌+◌, ◌-◌, ◌*◌, ◌/◌, ◌^◌, ◌≤◌, ◌<◌, ◌≡◌, ◌≢◌, refl, sym, ◌∙◌, ap, arith, Bool, true,
  false, ltb, ◌==◌, if◌then◌else◌, Bool-cases, inl, inr, ok, Ends-value, ne→==,
}
use zinc_simulator.Prelude.Int.{pos, int_laws}
use zinc_simulator.Word.{u64, ◌<<<◌}
use zinc_simulator.Insn.{OpFpType, RoundingMode}
use zinc_simulator.Fpu.{FpResult}
use zinc_simulator.Fpu.Unpack.Value.{pow_add}
use zinc_simulator.Fpu.Round.{packed, shift_right_jam, round_and_pack}
use zinc_simulator.Fpu.Round.Bounds.{is_static}
use zinc_simulator.Fpu.Round.Shift.{shift_right_jam-sticky}
use zinc_simulator.Fpu.Round.Correct.{IsRounding}
use zinc_simulator.Fpu.Round.Whole.{full_digits-IsRounding, quotient-IsRounding}
use zinc_simulator.Fpu.Round.Unique.{returned}
use zinc_simulator.Fpu.Round.Ratio.{IsRounding-moved}
use zinc_simulator.Fpu.Convert.{Magnitude, integer_magnitude, leading_bit, integer_to_float}
use zinc_simulator.Fpu.Convert.Bounds.{is_from_integer, leading_bit-Ends, product-lt}
use zinc_simulator.Fpu.Convert.Operand.{
  integer_of, absolute, is_negative, integer_magnitude_lem, absolute-lt,
}

-- The point after the leading digit, moved to the end.
module _ (rm : RoundingMode) (sign : Bool) (m k : ℕ) where
  move_point :
      (x : FpResult) (v u : ℕ)
      → IsRounding rm sign v u (pos k) x
      → (c : ℕ) → 0 < c
      → v * c ≡ m * 2 ^ 26
      → u * c ≡ 2 ^ k * 1
      → IsRounding rm sign (m * 2 ^ 26) 1 (pos 0) x
  move_point x v u p c positive dividend divisor =
      IsRounding-moved rm sign x v u (pos k) (m * 2 ^ 26) (pos 0) c k positive dividend divisor
        (omega int_laws) p

  -- A magnitude of more than 27 digits.
  long-IsRounding :
      (d : ℕ)
      → k ≡ 26 + d
      → m < 2 ^ 64
      → 2 ^ k ≤ m
      → m < 2 ^ suc k
      → is_static rm ≡ true
      → (x : FpResult) × (round_and_pack sign (pos k) (shift_right_jam m d) rm ≡ ok x)
        × IsRounding rm sign (m * 2 ^ 26) 1 (pos 0) x
  long-IsRounding d same small lo hi static =
      let whole : 2 ^ k ≡ 2 ^ 26 * 2 ^ d = ap (λ (t : ℕ). 2 ^ t) same ∙ pow_add 26 d in
      let next : 2 ^ suc k ≡ 2 * 2 ^ k = pow-succ' 2 k in
      let positive : 0 < 2 ^ d = one-le-pow d 2 (omega arith) in
      let at_least : 2 ^ 26 ≤ m / 2 ^ d =
        (le-div_iff_mul-le {k = 2 ^ d} {x = 2 ^ 26} {y = m} positive).1 (omega arith) in
      let below : m / 2 ^ d < 2 ^ 27 =
        (div-lt_iff_lt-mul {k = 2 ^ d} {x = m} {y = 2 ^ 27} positive).1 (omega arith) in
      let (x, run, p) =
        quotient-IsRounding sign (pos k) m (2 ^ d) rm positive at_least below (omega arith)
          static in
      rw (shift_right_jam-sticky m d small)
        (x, run, move_point x m (2 ^ d) p (2 ^ 26) (omega arith) refl (omega arith))

  -- One of at most 27.
  short-IsRounding :
      (d : ℕ)
      → k + d ≡ 26
      → 2 ^ k ≤ m
      → m < 2 ^ suc k
      → is_static rm ≡ true
      → (x : FpResult) × (round_and_pack sign (pos k) (u64 (m <<< d)) rm ≡ ok x)
        × IsRounding rm sign (m * 2 ^ 26) 1 (pos 0) x
  short-IsRounding d same lo hi static =
      let whole : 2 ^ k * 2 ^ d ≡ 2 ^ 26 = sym (pow_add k d) ∙ ap (λ (t : ℕ). 2 ^ t) same in
      let digits : suc k + d ≡ 27 = omega (arith, same) in
      let positive : 0 < 2 ^ k = one-le-pow k 2 (omega arith) in
      let at_least : 2 ^ 26 ≤ m * 2 ^ d = omega (arith, mul-le-mul_right (2 ^ d) lo, whole) in
      let below : m * 2 ^ d < 2 ^ 27 =
        product-lt m (2 ^ suc k) (2 ^ d) (2 ^ 27) hi
          (sym (pow_add (suc k) d) ∙ ap (λ (t : ℕ). 2 ^ t) digits) (one-le-pow d 2 (omega arith)) in
      let held : u64 (m <<< d) ≡ m * 2 ^ d = omega arith in
      let (x, run, p) =
        full_digits-IsRounding sign (pos k) (m * 2 ^ d) rm at_least below (omega arith) static in
      rw held (
        x,
        run,
        move_point x (m * 2 ^ d) 1 p (2 ^ k) positive
            (mul_assoc m (2 ^ d) (2 ^ k) ∙ ap (λ (t : ℕ). m * t) (omega (arith, whole)))
            (omega arith),
      )

  digits-IsRounding :
      m < 2 ^ 64
      → 2 ^ k ≤ m
      → m < 2 ^ suc k
      → is_static rm ≡ true
      → (x : FpResult) × (round_and_pack sign
            (pos k)
            (if ltb 26 k then shift_right_jam m (k - 26) else u64 (m <<< (26 - k)))
            rm
          ≡ ok x)
        × IsRounding rm sign (m * 2 ^ 26) 1 (pos 0) x
  digits-IsRounding small lo hi static = elim (Bool-cases (ltb 26 k)) [
    | inl long ↦ rw long (long-IsRounding (k - 26) (ground arith) small lo hi static)
    | inr short ↦ rw short (short-IsRounding (26 - k) (ground arith) lo hi static)
  ]

leading :
    (m : ℕ)
    → m ≢ 0
    → m < 2 ^ 64
    → (k : ℕ) × (leading_bit 64 m 0 ≡ ok k) × (2 ^ k ≤ m) × (m < 2 ^ suc k)
leading m some h =
    let (k, run, (j, e, lo, hi)) =
      Ends-value (leading_bit-Ends {F = λ f. ⊥} 64 m 0 some h) (λ e f. f) in
    let same : j ≡ k = omega arith in (k, run, rw same at lo, rw same at hi)

integer-IsRounding :
    (m : Magnitude) (op : OpFpType) (x : ℕ) (rm : RoundingMode)
    → integer_magnitude op x ≡ ok m
    → m.magnitude < 2 ^ 64
    → m.magnitude ≢ 0
    → is_static rm ≡ true
    → (y : FpResult) × (integer_to_float op x rm ≡ ok y)
      × IsRounding rm m.sign (m.magnitude * 2 ^ 26) 1 (pos 0) y
unfolding integer_to_float
integer-IsRounding m op x rm run h some static =
    let (k, found, lo, hi) = leading m.magnitude some h in
    let not_zero : (m.magnitude == 0) ≡ false = ne→== m.magnitude 0 some in
    rw (run, not_zero, found) (digits-IsRounding rm m.sign m.magnitude k h lo hi static)

zero_lem :
    (m : Magnitude) (op : OpFpType) (x : ℕ) (rm : RoundingMode)
    → integer_magnitude op x ≡ ok m
    → (m.magnitude == 0) ≡ true
    → integer_to_float op x rm ≡ ok (packed 0 0)
unfolding integer_to_float
zero_lem m op x rm run none = rw (run, none) refl

-- For each conversion from an integer, an operand of 64 bits and a rounding mode of the standard,
-- `integer_to_float` returns the integer of the conversion's width and signedness, correctly
-- rounded, and no other result is a rounding of it; where it is zero, the positive zero without a
-- flag.
pub integer_to_float-IsRounding :
    (op : OpFpType) (x : ℕ) (rm : RoundingMode) (y : FpResult)
    → x < 2 ^ 64
    → is_from_integer op ≡ true
    → is_static rm ≡ true
    → let z = integer_of op x in
      let sign = is_negative z in
      let v = absolute z * 2 ^ 26 in
      let run = integer_to_float op x rm in
      if absolute z == 0
      then run ≡ ok (packed 0 0)
      else ((r : FpResult) × (run ≡ ok r) × IsRounding rm sign v 1 (pos 0) r)
        × (IsRounding rm sign v 1 (pos 0) y ↔ (run ≡ ok y))
integer_to_float-IsRounding op x rm y h g static =
    let read = integer_magnitude_lem op x h g in
    elim (Bool-cases (absolute (integer_of op x) == 0)) [
      | inl none ↦ rw none (zero_lem _ op x rm read none)
      | inr some ↦
          let found =
            integer-IsRounding _ op x rm read (absolute-lt op x h g) (ground arith) static in
          rw some (found, returned rm _ _ 1 (pos 0) _ y (omega arith) found)
    ]
