-- ===== src/Execute/Floating.antt =====
-- The floating-point instructions of src/execute.cpp, over the interface of the FPU.
pub mod Bounds
use zinc_simulator.Prelude.{
  ℕ, ◌+◌, ◌*◌, ◌/◌, ◌%◌, ◌^◌, bit_and, bit_or, Bool, true, false, ltb, if◌then◌else◌, ◌==◌, ◌!=◌,
  Result, ok, err, runtime_error, ◌>>=◌, List, [], ◌∷◌, ◌++◌,
}
use zinc_simulator.Word.{u32, ◌<<<◌, add64, widen}
use zinc_simulator.Insn.{
  OpFpType, RoundingMode, rounding_mode, LoadFpInsn, StoreFpInsn, OpFpInsn, FmaFpInsn,
}
use zinc_simulator.Memory.{Memory, get_32}
use zinc_simulator.Csr.{Csr, csr_index}
use zinc_simulator.Core.{Core, get_gpr, get_fpr, get_csr}
use zinc_simulator.Fpu.{Fpu, FpResult, FpClass, sign_bit, classification}
use zinc_simulator.Execute.{
  StepResult, RegType, RegWrite, reg_write, mem_access, normal_step, writes,
}

unfoldable pub execute_load_fp : Core → Memory → LoadFpInsn → Result StepResult
execute_load_fp core mem insn = do
  rs1_val ← get_gpr core insn.rs1
  let addr = add64 rs1_val insn.imm
  loaded ← get_32 mem addr
  ok (
      StepResult.normal (record normal_step {
        reg_writes = reg_write RegType.f insn.rd loaded ∷ [];
        mem_reads = mem_access addr loaded 4 ∷ [];
      }))

pub execute_store_fp : Core → StoreFpInsn → Result StepResult
execute_store_fp core insn = do
  rs1_val ← get_gpr core insn.rs1
  value ← get_fpr core insn.rs2
  ok (
      StepResult.normal
        (record normal_step { mem_writes = mem_access (add64 rs1_val insn.imm) value 4 ∷ [] }))

-- The rounding mode of an instruction, with `frm` for the dynamic one.
pub resolve_rounding_mode : Core → RoundingMode → Result RoundingMode
resolve_rounding_mode core RoundingMode.dynamic = do
  frm ← get_csr core Csr.frm
  if ltb 4 frm then err runtime_error else ok (rounding_mode frm)
resolve_rounding_mode core rm = ok rm

-- `append_fp_flags`: the write to `fflags`, if a flag is raised.
pub fp_flags : Core → FpResult → Result (List RegWrite)
fp_flags core result =
    if result.flags != 0
    then (do
      fflags ← get_csr core Csr.fflags
      ok (reg_write RegType.csr (csr_index Csr.fflags) (bit_or fflags result.flags) ∷ []))
    else ok []

-- The flags, then the result, in a register of the given file.
pub fp_result : Core → RegType → ℕ → Result FpResult → Result StepResult
fp_result core type rd computed = do
  result ← computed
  flags ← fp_flags core result
  ok (writes (flags ++ (reg_write type rd result.value ∷ [])))

-- FCLASS.S: the bit of a class and a sign.
pub class_bit : FpClass → Bool → ℕ
class_bit FpClass.infinity sign = if sign then 1 <<< 0 else 1 <<< 7
class_bit FpClass.normal sign = if sign then 1 <<< 1 else 1 <<< 6
class_bit FpClass.subnormal sign = if sign then 1 <<< 2 else 1 <<< 5
class_bit FpClass.zero sign = if sign then 1 <<< 3 else 1 <<< 4
class_bit FpClass.signaling_nan sign = 1 <<< 8
class_bit FpClass.quiet_nan sign = 1 <<< 9

abbrev pub class_mask : ℕ → ℕ
class_mask raw = class_bit (classification raw) (sign_bit raw)

module _ (fpu : Fpu) where
  pub binary_operands : Core → OpFpInsn → RegType → RoundingMode → Result StepResult
  binary_operands core insn type rm = do
    rs1_val ← get_fpr core insn.rs1
    rs2_val ← get_fpr core insn.rs2
    fp_result core type insn.rd (fpu.binary insn.type rs1_val rs2_val rm)

  pub convert_from : Core → OpFpInsn → RegType → Result ℕ → RoundingMode → Result StepResult
  convert_from core insn type source rm = do
    operand ← source
    fp_result core type insn.rd (fpu.convert insn.type operand rm)

  -- The switch of `OpFpInsn`, with the rounding mode resolved.
  pub op_fp_step : OpFpType → Core → OpFpInsn → RoundingMode → Result StepResult
  op_fp_step OpFpType.sqrt core insn rm = do
    rs1_val ← get_fpr core insn.rs1
    fp_result core RegType.f insn.rd (fpu.unary insn.type rs1_val rm)
  op_fp_step OpFpType.cvt_w_from_s core insn rm =
      convert_from core insn RegType.x (get_fpr core insn.rs1) rm
  op_fp_step OpFpType.cvt_wu_from_s core insn rm =
      convert_from core insn RegType.x (get_fpr core insn.rs1) rm
  op_fp_step OpFpType.cvt_l_from_s core insn rm =
      convert_from core insn RegType.x (get_fpr core insn.rs1) rm
  op_fp_step OpFpType.cvt_lu_from_s core insn rm =
      convert_from core insn RegType.x (get_fpr core insn.rs1) rm
  op_fp_step OpFpType.eq core insn rm = binary_operands core insn RegType.x rm
  op_fp_step OpFpType.lt core insn rm = binary_operands core insn RegType.x rm
  op_fp_step OpFpType.le core insn rm = binary_operands core insn RegType.x rm
  op_fp_step OpFpType.cvt_s_to_w core insn rm =
      convert_from core insn RegType.f (get_gpr core insn.rs1) rm
  op_fp_step OpFpType.cvt_s_to_wu core insn rm =
      convert_from core insn RegType.f (get_gpr core insn.rs1) rm
  op_fp_step OpFpType.cvt_s_to_l core insn rm =
      convert_from core insn RegType.f (get_gpr core insn.rs1) rm
  op_fp_step OpFpType.cvt_s_to_lu core insn rm =
      convert_from core insn RegType.f (get_gpr core insn.rs1) rm
  op_fp_step OpFpType.classify core insn rm = do
    rs1_val ← get_fpr core insn.rs1
    ok (writes (reg_write RegType.x insn.rd (class_mask (u32 rs1_val)) ∷ []))
  op_fp_step OpFpType.move_to_x core insn rm = do
    rs1_val ← get_fpr core insn.rs1
    ok (writes (reg_write RegType.x insn.rd (widen 32 (u32 rs1_val)) ∷ []))
  op_fp_step OpFpType.move_from_x core insn rm = do
    rs1_val ← get_gpr core insn.rs1
    ok (writes (reg_write RegType.f insn.rd (u32 rs1_val) ∷ []))
  op_fp_step _ core insn rm = binary_operands core insn RegType.f rm

  pub execute_op_fp : Core → OpFpInsn → Result StepResult
  execute_op_fp core insn = do
    rm ← resolve_rounding_mode core insn.rm
    op_fp_step insn.type core insn rm

  pub execute_fma_fp : Core → FmaFpInsn → Result StepResult
  execute_fma_fp core insn = do
    rm ← resolve_rounding_mode core insn.rm
    rs1_val ← get_fpr core insn.rs1
    rs2_val ← get_fpr core insn.rs2
    rs3_val ← get_fpr core insn.rs3
    fp_result core RegType.f insn.rd (fpu.fma insn.type rs1_val rs2_val rs3_val rm)
