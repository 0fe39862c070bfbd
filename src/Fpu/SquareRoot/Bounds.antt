-- ===== src/Fpu/SquareRoot/Bounds.antt =====
-- The square root ends in a number of 32 bits and flags of five: the root has 27 digits at most.
use zinc_simulator.Prelude.{
  ℕ, ◌*◌, ◌^◌, ◌≤◌, ◌<◌, bit_and, arith, Bool, false, ltb, ltb→lt, ◌!=◌, if◌then◌else◌, Bool-cases,
  inl, inr, returns, Ends-if, Ends-split, Ends-bind,
}
use zinc_simulator.Word.{u64, ◌<<<◌}
use zinc_simulator.Insn.{RoundingMode}
use zinc_simulator.Fpu.Unpack.{UnpackedFp32, to_unsigned}
use zinc_simulator.Fpu.Unpack.Value.{IsNumber, unpack_returns}
use zinc_simulator.Fpu.Round.Bounds.{round_and_pack-Ends}
use zinc_simulator.Fpu.Arith.Bounds.{Ok, unpacked-IsNumber, nan-IsWord, sticky-lt}
use zinc_simulator.Fpu.SquareRoot.{SquareRootResult, root_finite, square_root}
use zinc_simulator.Fpu.SquareRoot.Root.{IsRoot, square_root_unsigned-Ends}

root-lt : (v : ℕ) (x : SquareRootResult) → v < 2 ^ 54 → IsRoot v x → x.root < 2 ^ 27
root-lt v x h (square, rest) = elim (Bool-cases (ltb x.root (2 ^ 27))) [
  | inl small ↦ ltb→lt _ _ small
  | inr big ↦
      let lo : 2 ^ 27 ≤ x.root = ground arith in
      let high : 2 ^ 27 * 2 ^ 27 ≤ x.root * x.root = grind arith in absurd (omega arith)
]

even-lt : (b : Bool) (n : ℕ) → n < 2 ^ 24 → (if b then u64 (n <<< 1) else n) < 2 ^ 25
even-lt b n h = ground arith

root_finite-Ok : (u : UnpackedFp32) (rm : RoundingMode) → IsNumber u → Ok rm (root_finite u rm)
unfolding root_finite
root_finite-Ok u rm n =
    let small = even-lt (bit_and (to_unsigned u.exponent) 1 != 0) u.significand n.upper in
    Ends-bind (square_root_unsigned-Ends _ (omega (arith, small))) (λ x r.
      round_and_pack-Ends false _ _ rm
        (omega (arith, sticky-lt (x.remainder != 0) x.root (root-lt _ x (omega (arith, small)) r))))

pub square_root-Ok : (a : ℕ) (rm : RoundingMode) → a < 2 ^ 32 → Ok rm (square_root a rm)
unfolding square_root
square_root-Ok a rm h = Ends-bind (unpack_returns a) (λ u p.
    Ends-split _ (λ nan. returns (nan-IsWord _))
      (λ nan.
        Ends-split _ (λ z. returns (h, omega arith))
          (λ z. Ends-if _ (returns (omega arith, omega arith)) (
            Ends-split _ (λ inf. returns (omega arith, omega arith))
              (λ inf. root_finite-Ok u rm (unpacked-IsNumber p nan inf z))))))
