-- ===== src/Execute/Limits.antt =====
-- Where the executor departs from the instruction set: a word shift by a register, CSRRCI, and the
-- floating-point loads and stores.
use zinc_simulator.Prelude.{
  ℕ, ◌/◌, ◌%◌, ◌^◌, ◌<◌, bit_and, ◌≡◌, ◌≢◌, arith, true, false, ok, err, undefined_behaviour,
  assert_failed, if◌then◌else◌, ltb, ◌!=◌, ne→==, Bool-cases, inl, inr,
}
use zinc_simulator.Word.{not32, ◌<<<◌, ◌>>>◌, u32, sra32, add64}
use zinc_simulator.Word.Fields.{and_low, and_narrow}
use zinc_simulator.Word.Bits.{bit_and-lt}
use zinc_simulator.Insn.{OpType, SystemInsnType, SystemInsn, LoadFpInsn}
use zinc_simulator.Memory.{Memory}
use zinc_simulator.Memory.Access.{Width, get-eq}
use zinc_simulator.Csr.{csr_of, csr_index}
use zinc_simulator.Core.{Core}
use zinc_simulator.Core.Shape.{IsWellFormed, get_csr_lem, slot, shown}
use zinc_simulator.Core.Registers.{get_gpr-at}
use zinc_simulator.Execute.Words.{op_32_value}
use zinc_simulator.Execute.System.{system_step, csr_step}
use zinc_simulator.Execute.Floating.{execute_load_fp}

-- The word shifts by a register take six bits of the amount. They are the shifts of the instruction
-- set when bit five of the amount is clear, and undefined when it is set.
pub op_32_value-shift :
    (a b : ℕ)
    → let k = b % 2 ^ 5 in
      (op_32_value OpType.sll a b
        ≡ (if b / 2 ^ 5 % 2 != 0 then err undefined_behaviour else ok (u32 (a <<< k))))
      × (op_32_value OpType.srl a b
          ≡ (if b / 2 ^ 5 % 2 != 0 then err undefined_behaviour else ok (a >>> k)))
      × (op_32_value OpType.sra a b
          ≡ (if b / 2 ^ 5 % 2 != 0 then err undefined_behaviour else ok (sra32 a k)))
unfolding op_32_value
op_32_value-shift a b =
    let six : bit_and b 63 ≡ b % 64 = and_low 6 b in
    elim (Bool-cases (b / 2 ^ 5 % 2 != 0)) [
      | inl set ↦
          let far : ltb (b % 64) 32 ≡ false = ground arith in
          (rw (six, far, set), rw (six, far, set), rw (six, far, set))
      | inr clear ↦
          let near : ltb (b % 64) 32 ≡ true = ground arith in
          let five : b % 64 ≡ b % 32 = ground arith in
          let near' = rw five at near in
          (rw (six, five, near', clear), rw (six, five, near', clear), rw (six, five, near', clear))
    ]

-- CSRRCI keeps no bit of the upper half of a CSR: what it writes is below 2 ^ 32.
pub csrrci_lem :
    (c : Core) (i : SystemInsn)
    → IsWellFormed c
    → csr_index (csr_of i.csr) < 4096
    → i.uimm < 32
    → let old = shown (csr_of i.csr) (c.csrs.at (slot (csr_of i.csr))) in
      (new : ℕ) × (system_step SystemInsnType.csrrci c i ≡ ok (csr_step i old (i.uimm != 0) new))
      × (new < 2 ^ 32)
      × (new ≡ bit_and (old % 2 ^ 32) (not32 i.uimm))
unfolding system_step
csrrci_lem c i wf h hu =
    let old = shown (csr_of i.csr) (c.csrs.at (slot (csr_of i.csr))) in
    (
      bit_and old (not32 i.uimm),
      rw (get_csr_lem c (csr_of i.csr) wf h),
      rw (and_narrow 32 old (not32 i.uimm) (omega arith))
          (bit_and-lt 32 (old % 2 ^ 32) (not32 i.uimm) (omega arith) (omega arith)),
      and_narrow 32 old (not32 i.uimm) (omega arith),
    )

-- A floating-point load from an address that is not a multiple of four fails an assertion.
pub execute_load_fp-misaligned :
    (c : Core) (mem : Memory) (i : LoadFpInsn)
    → IsWellFormed c
    → i.rs1 < 32
    → add64 (c.gprs.at i.rs1) i.imm % 4 ≢ 0
    → execute_load_fp c mem i ≡ err assert_failed
unfolding execute_load_fp
execute_load_fp-misaligned c mem i wf h d =
    let e = get-eq Width.word mem (add64 (c.gprs.at i.rs1) i.imm) in
    rw (get_gpr-at c i.rs1 wf h) (rw e (rw (ne→== _ 0 d)))
