-- ===== src/MulDiv/Bounds.antt =====
-- The values of `MulDivUnit` fit 64 bits.
use native.Mathlib.Nat.{div-le_self, mod-le}
use zinc_simulator.Prelude.{ℕ, ◌-◌, ◌^◌, ◌<◌, arith, Fits, returns, throws, Ends-if}
use zinc_simulator.Insn.{OpType}
use zinc_simulator.MulDiv.{multiply_high_unsigned, magnitude, signed_div, signed_rem, execute}

magnitude-lt : (x : ℕ) → x < 2 ^ 64 → magnitude 64 x < 2 ^ 64
magnitude-lt x h = ground arith

module _ (a b : ℕ) (ha : a < 2 ^ 64) (hb : b < 2 ^ 64) where
  high-lt : multiply_high_unsigned a b < 2 ^ 64
  unfolding multiply_high_unsigned
  high-lt = omega arith

  signed_div-lt : signed_div 64 a b < 2 ^ 64
  unfolding signed_div
  signed_div-lt =
      let h = magnitude-lt a ha in ground (arith, div-le_self (magnitude 64 a) (magnitude 64 b))

  signed_rem-lt : signed_rem 64 a b < 2 ^ 64
  unfolding signed_rem
  signed_rem-lt =
      let h = magnitude-lt a ha in ground (arith, mod-le (magnitude 64 a) (magnitude 64 b))

  pub execute-Ends : (t : OpType) → Fits 64 (execute t a b)
  unfolding execute
  execute-Ends OpType.mul = returns (omega arith)
  execute-Ends OpType.mulh = returns (ground (arith, high-lt))
  execute-Ends OpType.mulhsu = returns (ground (arith, high-lt))
  execute-Ends OpType.mulhu = returns high-lt
  execute-Ends OpType.div =
      Ends-if _ (returns {a = 2 ^ 64 - 1} (omega arith))
        (Ends-if _ (returns ha) (returns signed_div-lt))
  execute-Ends OpType.divu = returns (ground (arith, div-le_self a b))
  execute-Ends OpType.rem =
      Ends-if _ (returns ha) (Ends-if _ (returns {a = 0} (omega arith)) (returns signed_rem-lt))
  execute-Ends OpType.remu = returns (ground (arith, mod-le a b))
  execute-Ends _ = throws tt
