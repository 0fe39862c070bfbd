-- ===== src/Execute/System.antt =====
-- `SystemInsn` of src/execute.cpp: the CSR instructions, MRET and ECALL.
pub mod Bounds
pub mod Return
use zinc_simulator.Prelude.{
  ℕ, ◌+◌, ◌-◌, ◌*◌, ◌/◌, ◌^◌, bit_and, bit_or, Bool, true, false, if◌then◌else◌, ◌==◌, ◌!=◌, ◌&&◌,
  not, Result, ok, err, runtime_error, ◌>>=◌, some, List, [], ◌∷◌,
}
use zinc_simulator.Word.{◌<<<◌, ◌>>>◌, not32, not64}
use zinc_simulator.Insn.{SystemInsnType, SystemInsn}
use zinc_simulator.Csr.{
  Csr, csr_index, csr_of, Privilege, privilege_bits, privilege_of, mstatus_mie_mask,
  mstatus_mpie_mask, mstatus_mpp_mask, mstatus_mprv_mask,
}
use zinc_simulator.Core.{Core, get_gpr, get_csr, has_csr}
use zinc_simulator.Execute.{StepResult, RegType, reg_write, normal_step, writes, trap}

unfoldable pub is_csr_insn : SystemInsnType → Bool
is_csr_insn SystemInsnType.csrrc = true
is_csr_insn SystemInsnType.csrrw = true
is_csr_insn SystemInsnType.csrrs = true
is_csr_insn SystemInsnType.csrrci = true
is_csr_insn SystemInsnType.csrrwi = true
is_csr_insn SystemInsnType.csrrsi = true
is_csr_insn _ = false

-- The writes of a CSR instruction: the old value to `rd`, and the new one if there is a write.
abbrev pub csr_step : SystemInsn → ℕ → Bool → ℕ → StepResult
csr_step insn old writing new = writes (
    reg_write RegType.x insn.rd old
    ∷ (if writing then reg_write RegType.csr insn.csr new ∷ [] else []))

-- The `mstatus` that MRET asks for.
pub mret_mstatus : ℕ → ℕ
mret_mstatus old =
    let mpp = bit_and old mstatus_mpp_mask >>> 11 in
    let s1 =
      if bit_and old mstatus_mpie_mask != 0
      then bit_or old mstatus_mie_mask
      else bit_and old (not64 mstatus_mie_mask) in
    let s2 = bit_and (bit_or s1 mstatus_mpie_mask) (not64 mstatus_mpp_mask) in
    if mpp != privilege_bits Privilege.machine then bit_and s2 (not64 mstatus_mprv_mask) else s2

pub execute_mret : Core → Result StepResult
execute_mret core = do
  mepc ← get_csr core Csr.mepc
  old ← get_csr core Csr.mstatus
  ok (
      StepResult.normal (record normal_step {
        next_pc = some mepc;
        next_privilege = some (privilege_of (bit_and old mstatus_mpp_mask >>> 11));
        reg_writes = reg_write RegType.csr (csr_index Csr.mstatus) (mret_mstatus old) ∷ [];
      }))

unfoldable pub execute_ecall : Privilege → Result StepResult
execute_ecall Privilege.user = ok (trap 8 0)
execute_ecall Privilege.supervisor = err runtime_error
execute_ecall Privilege.machine = ok (trap 11 0)
execute_ecall (Privilege.reserved n) = err runtime_error

-- The switch of `SystemInsn`. `uimm` is a `uint32_t`, so `~uimm` has 32 bits and no others.
unfoldable pub system_step : SystemInsnType → Core → SystemInsn → Result StepResult
system_step SystemInsnType.csrrs core insn = do
  value ← get_gpr core insn.rs1
  old ← get_csr core (csr_of insn.csr)
  ok (csr_step insn old (insn.rs1 != 0) (bit_or old value))
system_step SystemInsnType.csrrc core insn = do
  value ← get_gpr core insn.rs1
  old ← get_csr core (csr_of insn.csr)
  ok (csr_step insn old (insn.rs1 != 0) (bit_and old (not64 value)))
system_step SystemInsnType.csrrw core insn = do
  old ← get_csr core (csr_of insn.csr)
  new ← get_gpr core insn.rs1
  ok (csr_step insn old true new)
system_step SystemInsnType.csrrwi core insn = do
  old ← get_csr core (csr_of insn.csr)
  ok (csr_step insn old true insn.uimm)
system_step SystemInsnType.csrrsi core insn = do
  old ← get_csr core (csr_of insn.csr)
  ok (csr_step insn old (insn.uimm != 0) (bit_or old insn.uimm))
system_step SystemInsnType.csrrci core insn = do
  old ← get_csr core (csr_of insn.csr)
  ok (csr_step insn old (insn.uimm != 0) (bit_and old (not32 insn.uimm)))
system_step SystemInsnType.mret core insn = execute_mret core
system_step SystemInsnType.ecall core insn = execute_ecall core.priv
system_step _ core insn = err runtime_error

unfoldable pub execute_system : Core → SystemInsn → Result StepResult
execute_system core insn =
    if is_csr_insn insn.type && not (has_csr insn.csr)
    then ok (trap 2 0)
    else system_step insn.type core insn
