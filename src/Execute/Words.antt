-- ===== src/Execute/Words.antt =====
-- The 32-bit integer instructions of src/execute.cpp. The shift amount of `OpImm32Insn` has five
-- bits and that of `Op32Insn` six: a shift of a 32-bit value by 32 or more is undefined.
use zinc_simulator.Prelude.{
  ℕ, bit_and, ltb, if◌then◌else◌, Result, ok, err, runtime_error, undefined_behaviour, ◌>>=◌, [],
  ◌∷◌,
}
use zinc_simulator.Word.{u32, ◌<<<◌, ◌>>>◌, add32, sub32, widen, sra32}
use zinc_simulator.Insn.{OpType, OpImm32Insn, Op32Insn}
use zinc_simulator.Core.{Core, get_gpr}
use zinc_simulator.MulDiv
use zinc_simulator.Execute.{StepResult, RegType, reg_write, writes}

-- The switch of `OpImm32Insn`, on 32-bit values.
unfoldable pub op_imm_32_value : OpType → ℕ → ℕ → Result ℕ
op_imm_32_value OpType.add imm rs1 = ok (add32 imm rs1)
op_imm_32_value OpType.sll imm rs1 = ok (u32 (rs1 <<< bit_and imm 0x1f))
op_imm_32_value OpType.srl imm rs1 = ok (rs1 >>> bit_and imm 0x1f)
op_imm_32_value OpType.sra imm rs1 = ok (sra32 rs1 (bit_and imm 0x1f))
op_imm_32_value _ imm rs1 = err runtime_error

unfoldable pub execute_op_imm_32 : Core → OpImm32Insn → Result StepResult
execute_op_imm_32 core insn = do
  rs1_val ← get_gpr core insn.rs1
  rd_val ← op_imm_32_value insn.type (u32 insn.imm) (u32 rs1_val)
  ok (writes (reg_write RegType.x insn.rd (widen 32 rd_val) ∷ []))

-- A shift of a 32-bit value by `shamt`.
abbrev pub shift_word : ℕ → ℕ → Result ℕ
shift_word shamt shifted = if ltb shamt 32 then ok shifted else err undefined_behaviour

-- The value that a word instruction of the M extension leaves, cast to 32 bits.
abbrev pub word_of : Result ℕ → Result ℕ
word_of r = do value ← r; ok (u32 value)

-- The switch of `Op32Insn`, on 32-bit values.
unfoldable pub op_32_value : OpType → ℕ → ℕ → Result ℕ
op_32_value OpType.add rs1 rs2 = ok (add32 rs1 rs2)
op_32_value OpType.sub rs1 rs2 = ok (sub32 rs1 rs2)
op_32_value OpType.sll rs1 rs2 =
    let shamt = bit_and rs2 0x3f in shift_word shamt (u32 (rs1 <<< shamt))
op_32_value OpType.srl rs1 rs2 = let shamt = bit_and rs2 0x3f in shift_word shamt (rs1 >>> shamt)
op_32_value OpType.sra rs1 rs2 = let shamt = bit_and rs2 0x3f in shift_word shamt (sra32 rs1 shamt)
op_32_value OpType.mul rs1 rs2 = word_of (MulDiv.execute_word OpType.mul rs1 rs2)
op_32_value OpType.div rs1 rs2 = word_of (MulDiv.execute_word OpType.div rs1 rs2)
op_32_value OpType.divu rs1 rs2 = word_of (MulDiv.execute_word OpType.divu rs1 rs2)
op_32_value OpType.rem rs1 rs2 = word_of (MulDiv.execute_word OpType.rem rs1 rs2)
op_32_value OpType.remu rs1 rs2 = word_of (MulDiv.execute_word OpType.remu rs1 rs2)
op_32_value _ rs1 rs2 = err runtime_error

unfoldable pub execute_op_32 : Core → Op32Insn → Result StepResult
execute_op_32 core insn = do
  rs1_val ← get_gpr core insn.rs1
  rs2_val ← get_gpr core insn.rs2
  rd_val ← op_32_value insn.type (u32 rs1_val) (u32 rs2_val)
  ok (writes (reg_write RegType.x insn.rd (widen 32 rd_val) ∷ []))
