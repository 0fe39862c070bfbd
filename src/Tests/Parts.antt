-- ===== src/Tests/Parts.antt =====
-- The theorems on the parts of the machine, applied to the hart and the memory of the tests.
use zinc_simulator.Prelude.{
  ◌>>=◌, ℕ, ◌+◌, ◌-◌, ◌*◌, ◌/◌, ◌%◌, ◌^◌, ◌<◌, ◌≡◌, refl, arith, false, if◌then◌else◌, ◌==◌, ◌!=◌,
  ◌&&◌, ok, [], ◌∷◌, some,
}
use zinc_simulator.Prelude.Int.{pos, ◌+ℤ◌, ◌*ℤ◌}
use zinc_simulator.Word.{signed, ◌<<<◌}
use zinc_simulator.Word.Bits.{bit}
use zinc_simulator.Insn.{OpType}
use zinc_simulator.Csr.{Csr, csr_index, Privilege, privilege_bits}
use zinc_simulator.Core.{
  Core, Exception, get_gpr, set_gpr, get_csr, set_csr, take_exception, trap_mstatus, legal_mstatus,
}
use zinc_simulator.Core.Shape.{IsWellFormed, stored, shown, slot}
use zinc_simulator.Core.Registers.{set_gpr-get_gpr, set_csr-get_csr}
use zinc_simulator.Core.Status.{legal_mstatus_fields, is_writable_bit, fs}
use zinc_simulator.Core.Trap.{trapped, take_exception_lem, trap_mstatus-bit, is_mpp}
use zinc_simulator.MulDiv.{magnitude, is_negative}
use zinc_simulator.MulDiv
use zinc_simulator.MulDiv.High.{execute-product}
use zinc_simulator.MulDiv.Division.{execute-division, execute-division_unsigned, differ}
use zinc_simulator.Execute.{StepResult, RegType, reg_write, normal_step}
use zinc_simulator.Execute.System.{execute_mret, mret_mstatus}
use zinc_simulator.Execute.System.Return.{trap-mret, mret_mstatus-bit}
use zinc_simulator.Tests.{hart, hart-IsWellFormed}

abbrev illegal : Exception
illegal = record { mcause = 2; mtval = 0 }

take_exception_lem_example :
    (take_exception hart illegal ≡ ok (trapped hart illegal)) × IsWellFormed (trapped hart illegal)
take_exception_lem_example =
    take_exception_lem hart illegal hart-IsWellFormed (omega arith) (omega arith) (omega arith)

trap_mstatus-bit_example : bit (trap_mstatus 0x8 Privilege.machine) 7 ≡ (
    if is_mpp 7
    then bit (privilege_bits Privilege.machine <<< 11) 7
    else if 7 == 3
    then 0
    else if 7 == 7
    then bit 0x8 3
    else bit 0x8 7)
trap_mstatus-bit_example = trap_mstatus-bit 0x8 Privilege.machine 7 (omega arith) (omega arith)

legal_mstatus_fields_example :
    (bit (legal_mstatus 0 0x6000) 13 ≡ (if is_writable_bit 13 then bit 0x6000 13 else bit 0 13))
    × (legal_mstatus 0 0x6000 / 2 ^ 63 ≡ (if fs 0x6000 == 3 then 1 else 0))
legal_mstatus_fields_example = legal_mstatus_fields 0 0x6000 13 (omega arith)

mret_mstatus-bit_example : bit (mret_mstatus 0x80) 3 ≡ (
    if is_mpp 3
    then 0
    else if 3 == 7
    then 1
    else if 3 == 3
    then bit 0x80 7
    else if 3 == 17 && 0x80 / 2 ^ 11 % 4 != 3
    then 0
    else bit 0x80 3)
mret_mstatus-bit_example = mret_mstatus-bit 0x80 3 (omega arith)

trap-mret_example :
    (status : ℕ) × ((take_exception hart illegal >>= execute_mret)
      ≡ ok (
          StepResult.normal (record normal_step {
            next_pc = some 0x80000000;
            next_privilege = some Privilege.machine;
            reg_writes = reg_write RegType.csr (csr_index Csr.mstatus) status ∷ [];
          })))
    × (bit status 3 ≡ bit (hart.csrs.at (csr_index Csr.mstatus)) 3)
trap-mret_example = trap-mret hart illegal hart-IsWellFormed refl (omega arith) (omega arith)

set_gpr-get_gpr_example :
    (c' : Core) × (set_gpr hart 5 9 ≡ ok c')
    × IsWellFormed c'
    × (get_gpr c' 5 ≡ (if 5 == 5 then (if 5 == 0 then ok 0 else ok 9) else get_gpr hart 5))
set_gpr-get_gpr_example =
    set_gpr-get_gpr hart 5 5 9 hart-IsWellFormed (omega arith) (omega arith) (omega arith)

set_csr-get_csr_example :
    let word = stored Csr.frm (hart.csrs.at 3) 5 in
    (r : ℕ) × (c' : Core) × (set_csr hart Csr.frm 5 ≡ ok (r, c'))
    × IsWellFormed c'
    × (get_csr c' Csr.frm ≡ ok r)
    × (get_csr c' Csr.fcsr ≡ (
        if slot Csr.frm == slot Csr.fcsr then ok (shown Csr.fcsr word) else get_csr hart Csr.fcsr))
set_csr-get_csr_example =
    set_csr-get_csr hart Csr.frm Csr.fcsr 5 hart-IsWellFormed refl (omega arith) (omega arith)

execute-product_example :
    (low high high_s : ℕ) × (MulDiv.execute OpType.mul (2 ^ 64 - 3) 5 ≡ ok low)
    × (MulDiv.execute OpType.mulhu (2 ^ 64 - 3) 5 ≡ ok high)
    × (MulDiv.execute OpType.mulh (2 ^ 64 - 3) 5 ≡ ok high_s)
    × (high * 2 ^ 64 + low ≡ (2 ^ 64 - 3) * 5)
    × (signed 64 (2 ^ 64 - 3) *ℤ signed 64 5 ≡ pos (2 ^ 64) *ℤ signed 64 high_s +ℤ pos low)
execute-product_example = execute-product (2 ^ 64 - 3) 5 (omega arith) (omega arith)

execute-division_example :
    (q r : ℕ) × (MulDiv.execute OpType.div (2 ^ 64 - 7) 2 ≡ ok q)
    × (MulDiv.execute OpType.rem (2 ^ 64 - 7) 2 ≡ ok r)
    × (signed 64 (2 ^ 64 - 7) ≡ signed 64 q *ℤ signed 64 2 +ℤ signed 64 r)
    × (magnitude 64 r < magnitude 64 2)
    × ((if r == 0 then false else differ (is_negative 64 r) (is_negative 64 (2 ^ 64 - 7))) ≡ false)
execute-division_example =
    execute-division (2 ^ 64 - 7) 2 (omega arith) (omega arith) (omega arith) refl

execute-division_unsigned_example :
    (q r : ℕ) × (MulDiv.execute OpType.divu 7 0 ≡ ok q)
    × (MulDiv.execute OpType.remu 7 0 ≡ ok r)
    × (q * 0 + r ≡ 7)
    × (if 0 == 0 then q ≡ 2 ^ 64 - 1 else r < 0)
execute-division_unsigned_example = execute-division_unsigned 7 0
