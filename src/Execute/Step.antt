-- ===== src/Execute/Step.antt =====
-- `Executor::step` of src/execute.cpp: it dispatches on the format, takes an exception, or carries
-- out the register and memory writes in order.
pub mod Preserve
pub mod Invariant
pub mod Outcomes
pub mod Traps
pub mod LoadStore
use zinc_simulator.Prelude.{
  ℕ, ◌+◌, ◌-◌, ◌*◌, ◌/◌, ◌^◌, bit_and, bit_or, Bool, true, false, if◌then◌else◌, ◌==◌, ◌!=◌, ◌&&◌,
  ◌||◌, Result, ok, err, runtime_error, ◌>>=◌, Option, none, some, List, [], ◌∷◌, ◌++◌,
}
use zinc_simulator.Word.{u8, u16, u32, ◌<<<◌, ◌>>>◌, add64, not64}
use zinc_simulator.Insn.{DecodedInsn}
use zinc_simulator.Memory.{Memory, get_32, set_8, set_16, set_32, set_64}
use zinc_simulator.Csr.{Csr, csr_index, csr_of, Privilege, mstatus_fs_mask, mstatus_fs_dirty}
use zinc_simulator.Core.{Core, set_gpr, set_fpr, get_csr, set_csr, take_exception}
use zinc_simulator.Fpu.{Fpu}
use zinc_simulator.Execute.{
  value_or, StepResult, NormalStep, RegType, RegWrite, MemAccess, reg_write, execute_lui,
  execute_auipc, execute_jal, execute_jalr, execute_branch, execute_load, execute_store,
  execute_op_imm, execute_op, execute_misc_mem,
}
use zinc_simulator.Execute.Words.{execute_op_imm_32, execute_op_32}
use zinc_simulator.Execute.System.{execute_system}
use zinc_simulator.Execute.Floating.{
  execute_load_fp, execute_store_fp, execute_op_fp, execute_fma_fp,
}

pub record Commit : Type 0 where
  pub pc : ℕ
  pub insn : ℕ
  pub priv : Privilege
  pub reg_writes : List RegWrite
  pub mem_reads : List MemAccess
  pub mem_writes : List MemAccess

-- The overloads of `Executor::execute`, as `std::visit` selects them.
pub execute : Fpu → Core → Memory → DecodedInsn → Result StepResult
execute fpu core mem (DecodedInsn.lui insn) = ok (execute_lui insn)
execute fpu core mem (DecodedInsn.auipc insn) = ok (execute_auipc core insn)
execute fpu core mem (DecodedInsn.jal insn) = execute_jal core insn
execute fpu core mem (DecodedInsn.jalr insn) = execute_jalr core insn
execute fpu core mem (DecodedInsn.branch insn) = execute_branch core insn
execute fpu core mem (DecodedInsn.load insn) = execute_load core mem insn
execute fpu core mem (DecodedInsn.store insn) = execute_store core insn
execute fpu core mem (DecodedInsn.op_imm insn) = execute_op_imm core insn
execute fpu core mem (DecodedInsn.op insn) = execute_op core insn
execute fpu core mem (DecodedInsn.misc_mem insn) = execute_misc_mem insn
execute fpu core mem (DecodedInsn.system insn) = execute_system core insn
execute fpu core mem (DecodedInsn.op_imm_32 insn) = execute_op_imm_32 core insn
execute fpu core mem (DecodedInsn.op_32 insn) = execute_op_32 core insn
execute fpu core mem (DecodedInsn.load_fp insn) = execute_load_fp core mem insn
execute fpu core mem (DecodedInsn.store_fp insn) = execute_store_fp core insn
execute fpu core mem (DecodedInsn.op_fp insn) = execute_op_fp fpu core insn
execute fpu core mem (DecodedInsn.fma_fp insn) = execute_fma_fp fpu core insn
execute fpu core mem DecodedInsn.invalid = err runtime_error

abbrev pub is_type : RegType → RegType → Bool
is_type RegType.x RegType.x = true
is_type RegType.f RegType.f = true
is_type RegType.csr RegType.csr = true
is_type _ _ = false

-- Drops the writes to x0.
unfoldable pub drop_x0 : List RegWrite → List RegWrite
drop_x0 [] = []
drop_x0 (w ∷ ws) =
    let rest = drop_x0 ws in if is_type RegType.x w.type && w.num == 0 then rest else w ∷ rest

-- Replaces a write to `fcsr` by one to `fflags` and one to `frm`.
unfoldable pub expand_fcsr : List RegWrite → List RegWrite
expand_fcsr [] = []
expand_fcsr (w ∷ ws) =
    let rest = expand_fcsr ws in
    if is_type RegType.csr w.type && w.num == csr_index Csr.fcsr
    then reg_write RegType.csr (csr_index Csr.fflags) (bit_and w.value 0x1f)
      ∷ reg_write RegType.csr (csr_index Csr.frm) (bit_and (w.value >>> 5) 0x7)
      ∷ rest
    else w ∷ rest

-- The predicate of `writes_fp_state`.
pub is_fp_write : RegWrite → Bool
is_fp_write w = elim w.type [
  | RegType.f ↦ true
  | RegType.x ↦ false
  | RegType.csr ↦ (w.num == csr_index Csr.fflags || w.num == csr_index Csr.frm)
]

unfoldable pub writes_fp_state : List RegWrite → Bool
writes_fp_state [] = false
writes_fp_state (w ∷ ws) = is_fp_write w || writes_fp_state ws

-- The write that makes FS dirty, after one to the floating-point state.
pub dirty_fs : Core → List RegWrite → Result (List RegWrite)
dirty_fs core ws =
    if writes_fp_state ws
    then (do
      mstatus ← get_csr core Csr.mstatus
      let new_mstatus = bit_or (bit_and mstatus (not64 mstatus_fs_mask)) mstatus_fs_dirty
      ok (
          if new_mstatus != mstatus
          then ws ++ (reg_write RegType.csr (csr_index Csr.mstatus) new_mstatus ∷ [])
          else ws))
    else ok ws

-- One write of the loop, by its type, with the value that `set_csr` gives back.
pub apply_write_to : RegType → Core → RegWrite → Result (RegWrite × Core)
apply_write_to RegType.x core w = do core' ← set_gpr core w.num w.value; ok (w, core')
apply_write_to RegType.csr core w = do
  (value, core') ← set_csr core (csr_of w.num) w.value
  ok (record w { value = value }, core')
apply_write_to RegType.f core w = do core' ← set_fpr core w.num (u32 w.value); ok (w, core')

abbrev pub apply_reg_write : Core → RegWrite → Result (RegWrite × Core)
apply_reg_write core w = apply_write_to w.type core w

unfoldable pub apply_reg_writes : Core → List RegWrite → Result (List RegWrite × Core)
apply_reg_writes core [] = ok ([], core)
apply_reg_writes core (w ∷ ws) = do
  (w', core1) ← apply_reg_write core w
  (ws', core2) ← apply_reg_writes core1 ws
  ok (w' ∷ ws', core2)

unfoldable pub apply_mem_write : Memory → MemAccess → Result Memory
apply_mem_write mem w =
    if w.size == 1
    then set_8 mem w.addr w.value
    else if w.size == 2
    then set_16 mem w.addr w.value
    else if w.size == 4
    then set_32 mem w.addr w.value
    else if w.size == 8
    then set_64 mem w.addr w.value
    else err runtime_error

unfoldable pub apply_mem_writes : Memory → List MemAccess → Result Memory
apply_mem_writes mem [] = ok mem
apply_mem_writes mem (w ∷ ws) = do mem' ← apply_mem_write mem w; apply_mem_writes mem' ws

-- The part of `step` that follows a normal result.
pub commit : Core → Memory → NormalStep → Result (Option Commit × Core × Memory)
commit core mem result = do
  raw_insn ← get_32 mem core.pc
  reg_writes ← dirty_fs core (expand_fcsr (drop_x0 result.reg_writes))
  let moved = record core {
    pc = value_or result.next_pc (add64 core.pc 4);
    priv = value_or result.next_privilege core.priv;
  }
  (applied, core') ← apply_reg_writes moved reg_writes
  mem' ← apply_mem_writes mem result.mem_writes
  ok (
    some (record {
      pc = core.pc;
      insn = raw_insn;
      priv = core.priv;
      reg_writes = applied;
      mem_reads = result.mem_reads;
      mem_writes = result.mem_writes;
    }),
    core',
    mem',
  )

-- The part of `step` that follows the visit.
pub finish : Core → Memory → StepResult → Result (Option Commit × Core × Memory)
finish core mem (StepResult.exception ex) = do core' ← take_exception core ex; ok (none, core', mem)
finish core mem (StepResult.normal result) = commit core mem result

pub step : Fpu → Core → Memory → DecodedInsn → Result (Option Commit × Core × Memory)
step fpu core mem insn = do result ← execute fpu core mem insn; finish core mem result
