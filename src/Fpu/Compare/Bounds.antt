-- ===== src/Fpu/Compare/Bounds.antt =====
-- Comparisons, minimum and maximum end in a number of 32 bits and flags of five, whatever the mode.
use zinc_simulator.Prelude.{
  ℕ, ◌^◌, ◌<◌, ◌≡◌, arith, Bool, true, false, ◌&&◌, if◌then◌else◌, ok, ◌>>=◌, Fault, Ends, returns,
  Ends-if, Ends-bind,
}
use zinc_simulator.Word.Bits.{bit_and-lt, bit_or-lt}
use zinc_simulator.Insn.{OpFpType}
use zinc_simulator.Fpu.Unpack.Value.{unpack_returns}
use zinc_simulator.Fpu.Round.{packed, is_nan}
use zinc_simulator.Fpu.Round.Bounds.{IsWord}
use zinc_simulator.Fpu.Arith.Bounds.{nan-IsWord}
use zinc_simulator.Fpu.Compare.{compare_by, compare, min_or_max}

abbrev pub is_comparison : OpFpType → Bool
is_comparison OpFpType.eq = true
is_comparison OpFpType.lt = true
is_comparison OpFpType.le = true
is_comparison _ = false

flag-lt : (b : Bool) → (if b then 16 else 0) < 2 ^ 5
flag-lt b = ground arith

choose-lt : (b : Bool) (x y : ℕ) → x < 2 ^ 32 → y < 2 ^ 32 → (if b then x else y) < 2 ^ 32
choose-lt b x y p q = ground arith

truth-IsWord : (b : Bool) → IsWord (record { value = if b then 1 else 0; flags = 0 })
truth-IsWord b = ground arith

module _ {F : Fault → Type 0} (a b : ℕ) where
  pub compare-IsWord : (op : OpFpType) → is_comparison op ≡ true → Ends IsWord F (compare op a b)
  unfolding compare compare_by
  compare-IsWord op h = Ends-bind (unpack_returns a) (λ u p.
      Ends-bind (unpack_returns b)
        (λ v q. Ends-if _ (returns (omega arith, flag-lt _)) (by_op op h _ _ _)))
    where
      by_op :
          (op : OpFpType)
          → is_comparison op ≡ true
          → (z e l : Bool)
          → Ends IsWord F (compare_by op z e l >>= λ r. ok (packed (if r then 1 else 0) 0))
      by_op OpFpType.eq h z e l = returns (truth-IsWord _)
      by_op OpFpType.lt h z e l = returns (truth-IsWord _)
      by_op OpFpType.le h z e l = returns (truth-IsWord _)
      by_op _ h z e l = cc

  pub min_or_max-IsWord :
      (maximum : Bool) → a < 2 ^ 32 → b < 2 ^ 32 → Ends IsWord F (min_or_max a b maximum)
  unfolding min_or_max
  min_or_max-IsWord maximum ha hb = Ends-bind (unpack_returns a) (λ u p.
      Ends-bind (unpack_returns b) (λ v q.
        Ends-if (is_nan u.fp_class && is_nan v.fp_class) (returns (nan-IsWord _)) (
          Ends-if _ (returns (hb, flag-lt _)) (
            Ends-if _ (returns (ha, flag-lt _)) (
              Ends-if _
                (returns (
                  choose-lt maximum _ _ (bit_and-lt 32 a b ha hb) (bit_or-lt 32 a b ha hb),
                  flag-lt _,
                ))
                (returns (
                  choose-lt maximum _ _ (choose-lt _ b a hb ha) (choose-lt _ a b ha hb),
                  flag-lt _,
                )))))))
