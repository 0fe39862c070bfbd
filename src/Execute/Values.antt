-- ===== src/Execute/Values.antt =====
-- The values that the integer instructions compute fit their registers.
use native.Mathlib.Nat.{div-le_self, pow-succ'}
use zinc_simulator.Prelude.{
  ℕ, zero, suc, ◌-◌, ◌/◌, ◌^◌, ◌<◌, bit_and, ◌≡◌, arith, Result, ok, err, ltb, ltb→lt, Bool-cases,
  inl, inr, Fits, returns, throws,
}
use zinc_simulator.Word.{◌>>>◌, sra64, sra32}
use zinc_simulator.Word.Bits.{bit_and-lt, bit_or-lt, bit_xor-lt}
use zinc_simulator.Word.Fields.{and_low, div-two-pow-suc}
use zinc_simulator.Insn.{OpType}
use zinc_simulator.MulDiv.Bounds
use zinc_simulator.Execute.{op_imm_value, op_value}
use zinc_simulator.Execute.Words.{op_imm_32_value, op_32_value, word_of, shift_word}

shifted-lt : (w k x : ℕ) → k < w → x < 2 ^ w → x / 2 ^ k < 2 ^ (w - k)
shifted-lt w zero x hk hx =
    let e : w - 0 ≡ w = omega arith in rw e (omega (arith, hx, div-le_self x (2 ^ 0)))
shifted-lt zero (suc k) x hk hx = absurd (omega arith)
shifted-lt (suc w) (suc k) x hk hx =
    let e : suc w - suc k ≡ w - k = omega arith in
    rw (div-two-pow-suc x k, e)
      (shifted-lt w k (x / 2) (omega arith) (omega (arith, pow-succ' 2 w)))

sra64-lt : (x k : ℕ) → x < 2 ^ 64 → k < 64 → sra64 x k < 2 ^ 64
sra64-lt x k hx hk = let h = shifted-lt 64 k x hk hx in ground (arith, h)

sra32-lt : (x k : ℕ) → x < 2 ^ 32 → k < 32 → sra32 x k < 2 ^ 32
sra32-lt x k hx hk = let h = shifted-lt 32 k x hk hx in ground (arith, h)

six_bits-lt : (x : ℕ) → bit_and x 0x3f < 64
six_bits-lt x = omega (arith, and_low 6 x)

five_bits-lt : (x : ℕ) → bit_and x 0x1f < 32
five_bits-lt x = omega (arith, and_low 5 x)

module _ (a b : ℕ) (ha : a < 2 ^ 64) (hb : b < 2 ^ 64) where
  srl-lt : (k : ℕ) → b >>> k < 2 ^ 64
  srl-lt k = omega (arith, div-le_self b (2 ^ k))

  pub op_imm_value-Ends : (t : OpType) → Fits 64 (op_imm_value t a b)
  unfolding op_imm_value
  op_imm_value-Ends OpType.add = returns (omega arith)
  op_imm_value-Ends OpType.slt = returns (ground arith)
  op_imm_value-Ends OpType.sltu = returns (ground arith)
  op_imm_value-Ends OpType.xor = returns (bit_xor-lt 64 b a hb ha)
  op_imm_value-Ends OpType.or = returns (bit_or-lt 64 b a hb ha)
  op_imm_value-Ends OpType.and = returns (bit_and-lt 64 b a hb ha)
  op_imm_value-Ends OpType.sll = returns (omega arith)
  op_imm_value-Ends OpType.srl = returns (srl-lt (bit_and a 0x3f))
  op_imm_value-Ends OpType.sra = returns (sra64-lt b (bit_and a 0x3f) hb (six_bits-lt a))
  op_imm_value-Ends _ = throws tt

module _ (a b : ℕ) (ha : a < 2 ^ 64) (hb : b < 2 ^ 64) where
  pub op_value-Ends : (t : OpType) → Fits 64 (op_value t a b)
  unfolding op_value
  op_value-Ends OpType.add = returns (omega arith)
  op_value-Ends OpType.sub = returns (omega arith)
  op_value-Ends OpType.slt = returns (ground arith)
  op_value-Ends OpType.sltu = returns (ground arith)
  op_value-Ends OpType.xor = returns (bit_xor-lt 64 a b ha hb)
  op_value-Ends OpType.or = returns (bit_or-lt 64 a b ha hb)
  op_value-Ends OpType.and = returns (bit_and-lt 64 a b ha hb)
  op_value-Ends OpType.sll = returns (omega arith)
  op_value-Ends OpType.srl = returns (srl-lt b a hb ha (bit_and b 0x3f))
  op_value-Ends OpType.sra = returns (sra64-lt a (bit_and b 0x3f) ha (six_bits-lt b))
  op_value-Ends (OpType.reserved n) = throws tt
  op_value-Ends OpType.mul = Bounds.execute-Ends a b ha hb OpType.mul
  op_value-Ends OpType.mulh = Bounds.execute-Ends a b ha hb OpType.mulh
  op_value-Ends OpType.mulhsu = Bounds.execute-Ends a b ha hb OpType.mulhsu
  op_value-Ends OpType.mulhu = Bounds.execute-Ends a b ha hb OpType.mulhu
  op_value-Ends OpType.div = Bounds.execute-Ends a b ha hb OpType.div
  op_value-Ends OpType.divu = Bounds.execute-Ends a b ha hb OpType.divu
  op_value-Ends OpType.rem = Bounds.execute-Ends a b ha hb OpType.rem
  op_value-Ends OpType.remu = Bounds.execute-Ends a b ha hb OpType.remu

word_of-Ends : (r : Result ℕ) → Fits 32 (word_of r)
word_of-Ends (ok v) = returns (omega arith)
word_of-Ends (err e) = throws tt

module _ (a b : ℕ) (ha : a < 2 ^ 32) (hb : b < 2 ^ 32) where
  srl_word-lt : (k : ℕ) → b >>> k < 2 ^ 32
  srl_word-lt k = omega (arith, div-le_self b (2 ^ k))

  pub op_imm_32_value-Ends : (t : OpType) → Fits 32 (op_imm_32_value t a b)
  unfolding op_imm_32_value
  op_imm_32_value-Ends OpType.add = returns (omega arith)
  op_imm_32_value-Ends OpType.sll = returns (omega arith)
  op_imm_32_value-Ends OpType.srl = returns (srl_word-lt (bit_and a 0x1f))
  op_imm_32_value-Ends OpType.sra = returns (sra32-lt b (bit_and a 0x1f) hb (five_bits-lt a))
  op_imm_32_value-Ends _ = throws tt

  shift_word-Ends : (k : ℕ) (r : ℕ) → (k < 32 → r < 2 ^ 32) → Fits 32 (shift_word k r)
  shift_word-Ends k r f = elim (Bool-cases (ltb k 32)) [
    | inl e ↦ rw e (returns (f (ltb→lt k 32 e)))
    | inr e ↦ rw e (throws tt)
  ]

module _ (a b : ℕ) (ha : a < 2 ^ 32) (hb : b < 2 ^ 32) where
  pub op_32_value-Ends : (t : OpType) → Fits 32 (op_32_value t a b)
  unfolding op_32_value
  op_32_value-Ends OpType.add = returns (omega arith)
  op_32_value-Ends OpType.sub = returns (omega arith)
  op_32_value-Ends OpType.sll = shift_word-Ends b a hb ha (bit_and b 0x3f) _ (λ h. omega arith)
  op_32_value-Ends OpType.srl =
      shift_word-Ends b a hb ha (bit_and b 0x3f) _ (λ h. srl_word-lt b a hb ha (bit_and b 0x3f))
  op_32_value-Ends OpType.sra =
      shift_word-Ends b a hb ha (bit_and b 0x3f) _ (λ h. sra32-lt a (bit_and b 0x3f) ha h)
  op_32_value-Ends OpType.mul = word_of-Ends _
  op_32_value-Ends OpType.div = word_of-Ends _
  op_32_value-Ends OpType.divu = word_of-Ends _
  op_32_value-Ends OpType.rem = word_of-Ends _
  op_32_value-Ends OpType.remu = word_of-Ends _
  op_32_value-Ends _ = throws tt
