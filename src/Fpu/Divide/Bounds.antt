-- ===== src/Fpu/Divide/Bounds.antt =====
-- Division ends in a number of 32 bits and flags of five: its quotient has 27 digits at most.
use native.Mathlib.Nat.{div-lt_iff_lt-mul}
use zinc_simulator.Prelude.{
  ℕ, ◌*◌, ◌/◌, ◌^◌, ◌≤◌, ◌<◌, ◌≡◌, arith, Bool, ltb, ◌!=◌, if◌then◌else◌, returns, Ends-if,
  Ends-split, Ends-bind,
}
use zinc_simulator.Word.{u64, ◌<<<◌}
use zinc_simulator.Insn.{RoundingMode}
use zinc_simulator.Fpu.Unpack.{UnpackedFp32}
use zinc_simulator.Fpu.Unpack.Value.{IsNumber, unpack_returns}
use zinc_simulator.Fpu.Round.Bounds.{sign_bits-lt, round_and_pack-Ends}
use zinc_simulator.Fpu.Arith.Bounds.{
  Ok, or_false, unpacked-IsNumber, signed-lt, nan-IsWord, sticky-lt,
}
use zinc_simulator.Fpu.Divide.{divide_unsigned, divide_finite, divide}
use zinc_simulator.Fpu.Divide.Quotient.{divide_unsigned-div}

-- The numerator is less than twice the denominator.
quotient-lt :
    (n d : ℕ)
    → n < 2 ^ 25
    → 2 ^ 23 ≤ d
    → d < 2 ^ 24
    → n < 2 * d
    → (divide_unsigned (u64 (n <<< 26)) d).quotient < 2 ^ 27
quotient-lt n d small lo hi less =
    let whole : u64 (n <<< 26) ≡ n * 2 ^ 26 = omega arith in
    let below : n * 2 ^ 26 / d < 2 ^ 27 =
      (div-lt_iff_lt-mul {k = d} {x = n * 2 ^ 26} {y = 2 ^ 27} (omega arith)).1 (omega arith) in
    rw whole (
      omega
        (arith, (divide_unsigned-div (n * 2 ^ 26) d (omega arith) (omega arith) (omega arith)).0))

divide_finite-Ok :
    (sign : Bool) (l r : UnpackedFp32) (rm : RoundingMode)
    → IsNumber l
    → IsNumber r
    → Ok rm (divide_finite sign l r rm)
unfolding divide_finite
divide_finite-Ok sign l r rm nl nr =
    let n = if ltb l.significand r.significand then u64 (l.significand <<< 1) else l.significand in
    let small : n < 2 ^ 25 = ground (arith, nl.upper) in
    let less : n < 2 * r.significand = ground (arith, nl.upper, nr.lower) in
    let q = quotient-lt n r.significand small nr.lower nr.upper less in
    let s = sticky-lt ((divide_unsigned (u64 (n <<< 26)) r.significand).remainder != 0) _ q in
    round_and_pack-Ends sign _ _ rm (omega (arith, s))

pub divide-Ok : (a b : ℕ) (rm : RoundingMode) → Ok rm (divide a b rm)
unfolding divide
divide-Ok a b rm = Ends-bind (unpack_returns a) (λ u p. Ends-bind (unpack_returns b) (λ v q.
    Ends-split _ (λ nan. returns (nan-IsWord _))
      (λ nan. Ends-if _ (returns (omega arith, omega arith)) (
        Ends-split _ (λ zr. returns (signed-lt _ _ (omega arith), omega arith))
          (λ zr.
            Ends-split _ (λ il. returns (signed-lt _ _ (omega arith), omega arith))
              (λ il.
                Ends-split _ (λ z. returns (sign_bits-lt _, omega arith))
                  (λ z.
                    let (nl, nr) = or_false _ _ nan in
                    let (zl, ir) = or_false _ _ z in
                    divide_finite-Ok _ u v rm (unpacked-IsNumber p nl il zl)
                      (unpacked-IsNumber q nr ir zr))))))))
