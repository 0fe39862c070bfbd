-- ===== src/Execute/System/Bounds.antt =====
-- The result of a system instruction fits what the rest of a step asks of it.
use zinc_simulator.Prelude.{
  ℕ, ◌^◌, ◌<◌, bit_and, bit_or, arith, Bool, true, false, if◌then◌else◌, ◌!=◌, returns, throws,
  Ends-if, Ends-bind,
}
use zinc_simulator.Word.{not32, not64}
use zinc_simulator.Word.Bits.{bit_and-lt, bit_or-lt}
use zinc_simulator.Word.Fields.{and_field}
use zinc_simulator.Insn.{SystemInsnType, SystemInsn}
use zinc_simulator.Csr.{
  Csr, csr_of, Privilege, privilege_bits, privilege_of, mstatus_mpp_mask, mstatus_mie_mask,
  mstatus_mpie_mask, mstatus_mprv_mask,
}
use zinc_simulator.Core.{Core}
use zinc_simulator.Core.Shape.{IsSound}
use zinc_simulator.Core.Registers.{get_gpr-Ends, get_csr-Ends}
use zinc_simulator.Execute.Bounds.{StepFits, Fine}
use zinc_simulator.Execute.System.{
  csr_step, system_step, execute_system, execute_mret, execute_ecall, mret_mstatus,
}

csr_step-StepFits :
    (i : SystemInsn) (old : ℕ) (writing : Bool) (new : ℕ)
    → old < 2 ^ 64
    → new < 2 ^ 64
    → StepFits (csr_step i old writing new)
csr_step-StepFits i old true new p q = (omega arith, omega arith, (p, (q, tt)))
csr_step-StepFits i old false new p q = (omega arith, omega arith, (p, tt))

masked-lt : (x mask : ℕ) → x < 2 ^ 64 → bit_and x (not64 mask) < 2 ^ 64
masked-lt x mask h = bit_and-lt 64 x (not64 mask) h (omega arith)

if-lt : (b : Bool) (x y : ℕ) → x < 2 ^ 64 → y < 2 ^ 64 → (if b then x else y) < 2 ^ 64
if-lt true x y p q = p
if-lt false x y p q = q

mret_mstatus-lt : (old : ℕ) → old < 2 ^ 64 → mret_mstatus old < 2 ^ 64
unfolding mret_mstatus
mret_mstatus-lt old h =
    let s1 =
      if bit_and old mstatus_mpie_mask != 0
      then bit_or old mstatus_mie_mask
      else bit_and old (not64 mstatus_mie_mask) in
    let h1 : s1 < 2 ^ 64 =
      if-lt _ _ _ (bit_or-lt 64 old mstatus_mie_mask h (omega arith))
        (masked-lt old mstatus_mie_mask h) in
    let h2 = bit_or-lt 64 s1 mstatus_mpie_mask h1 (omega arith) in
    let h3 = masked-lt (bit_or s1 mstatus_mpie_mask) mstatus_mpp_mask h2 in
    if-lt _ _ _ (masked-lt _ mstatus_mprv_mask h3) h3

privilege_of-lt : (n : ℕ) → n < 4 → privilege_bits (privilege_of n) < 4
unfolding privilege_of
privilege_of-lt n h = ground arith

module _ (c : Core) (sound : IsSound c) where
  execute_mret-Fine : Fine (execute_mret c)
  unfolding execute_mret
  execute_mret-Fine = Ends-bind (get_csr-Ends c Csr.mepc sound) (λ mepc p.
      Ends-bind (get_csr-Ends c Csr.mstatus sound) (λ old q.
        returns
          (p, privilege_of-lt _ (omega (arith, and_field 11 2 old)), (mret_mstatus-lt old q, tt))))

  execute_ecall-Fine : (p : Privilege) → Fine (execute_ecall p)
  unfolding execute_ecall
  execute_ecall-Fine Privilege.user = returns (omega arith, omega arith)
  execute_ecall-Fine Privilege.supervisor = throws tt
  execute_ecall-Fine Privilege.machine = returns (omega arith, omega arith)
  execute_ecall-Fine (Privilege.reserved n) = throws tt

  system_step-Fine : (t : SystemInsnType) (i : SystemInsn) → i.uimm < 32 → Fine (system_step t c i)
  unfolding system_step
  system_step-Fine SystemInsnType.csrrs i h = Ends-bind (get_gpr-Ends c i.rs1 sound) (λ v p.
      Ends-bind (get_csr-Ends c (csr_of i.csr) sound)
        (λ old q. returns (csr_step-StepFits i old (i.rs1 != 0) _ q (bit_or-lt 64 old v q p))))
  system_step-Fine SystemInsnType.csrrc i h = Ends-bind (get_gpr-Ends c i.rs1 sound) (λ v p.
      Ends-bind (get_csr-Ends c (csr_of i.csr) sound)
        (λ old q. returns (csr_step-StepFits i old (i.rs1 != 0) _ q (masked-lt old v q))))
  system_step-Fine SystemInsnType.csrrw i h =
      Ends-bind (get_csr-Ends c (csr_of i.csr) sound) (λ old q.
        Ends-bind (get_gpr-Ends c i.rs1 sound)
          (λ v p. returns (csr_step-StepFits i old true v q p)))
  system_step-Fine SystemInsnType.csrrwi i h =
      Ends-bind (get_csr-Ends c (csr_of i.csr) sound)
        (λ old q. returns (csr_step-StepFits i old true _ q (omega arith)))
  system_step-Fine SystemInsnType.csrrsi i h =
      Ends-bind (get_csr-Ends c (csr_of i.csr) sound) (λ old q.
        returns
          (csr_step-StepFits i old (i.uimm != 0) _ q (bit_or-lt 64 old i.uimm q (omega arith))))
  system_step-Fine SystemInsnType.csrrci i h =
      Ends-bind (get_csr-Ends c (csr_of i.csr) sound) (λ old q. returns (
        csr_step-StepFits i old (i.uimm != 0) _ q
          (bit_and-lt 64 old (not32 i.uimm) q (omega arith))))
  system_step-Fine SystemInsnType.mret i h = execute_mret-Fine
  system_step-Fine SystemInsnType.ecall i h = execute_ecall-Fine c.priv
  system_step-Fine _ i h = throws tt

  pub execute_system-Fine : (i : SystemInsn) → i.uimm < 32 → Fine (execute_system c i)
  unfolding execute_system
  execute_system-Fine i h =
      Ends-if _ (returns (omega arith, omega arith)) (system_step-Fine i.type i h)
