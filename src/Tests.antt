-- ===== src/Tests.antt =====
-- A hart, a memory and an FPU, and the theorems applied to them.
pub mod Parts
pub mod Accesses
mod Floating
use zinc_simulator.Prelude.Int.{◌+ℤ◌}
use zinc_simulator.Prelude.{
  ltb, if◌then◌else◌, ◌==◌, ℕ, ◌+◌, ◌-◌, ◌*◌, ◌/◌, ◌%◌, ◌^◌, ◌≤◌, ◌<◌, ◌≡◌, refl, arith, Bool, true,
  false, ltb, leb, if◌then◌else◌, ◌==◌, ◌!=◌, Result, ok, err, runtime_error, undefined_behaviour,
  assert_failed, Vector, update, filled, AllBelow, List, [], ◌∷◌, none, some, Option, Ends, returns,
  throws, IsFault, inl, inr, bit_and,
}
use zinc_simulator.Prelude.Int.{ℤ, pos, ◌+ℤ◌, ◌*ℤ◌}
use zinc_simulator.Word.{signed, add64, lt_s64, not32, ◌<<<◌, ◌>>>◌, u32, sra32}
use zinc_simulator.Word.Bits.{bit}
use zinc_simulator.Insn.{
  BranchType, MemAccessType, OpType, SystemInsnType, DecodedInsn, BranchInsn, JalInsn, LoadInsn,
  StoreInsn, OpInsn, SystemInsn, LoadFpInsn,
}
use zinc_simulator.Decode.{decode}
use zinc_simulator.Decode.Encoding.{encode}
use zinc_simulator.Decode.RoundTrip.{decode-encode}
use zinc_simulator.Decode.Bounds.{InRange, IsRuntime, decode-Ends}
use zinc_simulator.Memory.{Memory, offset_of, get_32, get_element, bytes_at}
use zinc_simulator.Memory.Access.{Width, size, get, set, written}
use zinc_simulator.Memory.Frame.{get-set, get-set_apart}
use zinc_simulator.Memory.Image.{IsLoaded, IsCleared, load-IsLoaded, clear-IsCleared}
use zinc_simulator.Csr.{Csr, csr_index, Privilege, privilege_bits, mstatus_uxl_rv64}
use zinc_simulator.Core.{Core, Exception, get_gpr, set_gpr, get_csr, set_csr, take_exception, new}
use zinc_simulator.Core.Shape.{IsWellFormed, IsSound}
use zinc_simulator.Core.Registers.{set_gpr-get_gpr, set_csr-get_csr}
use zinc_simulator.Core.Trap.{trapped, take_exception_lem}
use zinc_simulator.MulDiv.{magnitude}
use zinc_simulator.MulDiv
use zinc_simulator.MulDiv.High.{execute-product}
use zinc_simulator.MulDiv.Division.{execute-division, execute-division_unsigned}
use zinc_simulator.Fpu.Unit.{unit}
use zinc_simulator.Fpu.Unit.Total.{unit-FpuLaws}
use zinc_simulator.Execute.{RegType, reg_write, op_value, should_branch}
use zinc_simulator.Execute.Step.{Commit, step}
use zinc_simulator.Execute.Step.Preserve.{IsBytes, Sound}
use zinc_simulator.Execute.Step.Invariant.{step-Ends}
use zinc_simulator.Execute.Step.Outcomes.{step-branch, step-op, step-jal, report, advanced}
use zinc_simulator.Simulator.{run}
use zinc_simulator.Simulator.Invariant.{RunSound, run-Ends}

abbrev pub hart : Core
hart = record {
  priv = Privilege.machine;
  pc = 0x80000000;
  gprs = record { size = 32; at = update (update (λ i. 0) 1 0x80000008) 2 7 };
  fprs = filled 32 0;
  csrs = record { size = 4096; at = update (λ i. 0) (csr_index Csr.mstatus) mstatus_uxl_rv64 };
}

pub hart-IsWellFormed : IsWellFormed hart
hart-IsWellFormed = record {
  gprs_size = refl;
  fprs_size = refl;
  csrs_size = refl;
  zero_reg = refl;
  gprs_fit = λ i. ground arith;
  fprs_fit = λ i. omega arith;
  csrs_fit = λ i. ground arith;
  pc_fits = omega arith;
  fcsr_fits = omega arith;
}

pub hart-IsSound : IsSound hart
hart-IsSound = (hart-IsWellFormed, omega arith)

abbrev pub ram : Memory
ram = record { base = 0x80000000; bytes = record { size = 64; at = λ i. 1 } }

pub ram-IsBytes : IsBytes ram
ram-IsBytes i = omega arith

fetched : get_32 ram 0x80000000 ≡ ok 0x01010101
unfolding get_32 offset_of get_element bytes_at
fetched = refl

abbrev add_insn : OpInsn
add_insn = record { type = OpType.add; rs1 = 1; rs2 = 2; rd = 3 }

abbrev beq_insn : BranchInsn
beq_insn = record { type = BranchType.ne; imm = 16; rs1 = 1; rs2 = 2 }

abbrev jal_insn : JalInsn
jal_insn = record { imm = 2 ^ 64 - 8; rd = 1 }

decode-encode_example : decode (encode (DecodedInsn.op add_insn)) ≡ ok (DecodedInsn.op add_insn)
decode-encode_example =
    decode-encode (DecodedInsn.op add_insn) (refl, omega arith, omega arith, omega arith)

decode-Ends_example : Ends InRange IsRuntime (decode 0x002081b3)
decode-Ends_example = decode-Ends 0x002081b3 (omega arith)

step-Ends_example : Ends Sound IsFault (step unit hart ram (DecodedInsn.op add_insn))
step-Ends_example =
    step-Ends unit hart ram (DecodedInsn.op add_insn) unit-FpuLaws hart-IsSound ram-IsBytes
      (omega arith, omega arith, omega arith)

-- A FENCE at the address of the hart; the word at 0x80000020 is not zero, so the loop ends after it.
abbrev program : Memory
program = record {
  base = 0x80000000;
  bytes = record { size = 64; at = λ i. if i == 0 then 0x0f else if ltb i 4 then 0 else 1 };
}

program-IsBytes : IsBytes program
program-IsBytes i = ground arith

run-Ends_example : Ends RunSound IsFault (run 3 unit 0x80000020 hart program)
run-Ends_example = run-Ends 3 unit 0x80000020 hart program unit-FpuLaws hart-IsSound program-IsBytes

step-op_example :
    step unit hart ram (DecodedInsn.op add_insn)
    ≡ ok (
      some (report hart 0x01010101 (reg_write RegType.x 3 0x8000000f ∷ [])),
      advanced hart 0x80000004 3 0x8000000f,
      ram,
    )
unfolding op_value
step-op_example =
    step-op unit hart ram 0x01010101 hart-IsWellFormed fetched add_insn 0x8000000f (omega arith)
      (omega arith) (omega arith) refl

step-branch_example :
    step unit hart ram (DecodedInsn.branch beq_insn)
    ≡ ok (some (report hart 0x01010101 []), record hart { pc = 0x80000010 }, ram)
unfolding should_branch
step-branch_example =
    step-branch unit hart ram 0x01010101 hart-IsWellFormed fetched beq_insn true (omega arith)
      (omega arith) refl

step-jal_example :
    step unit hart ram (DecodedInsn.jal jal_insn)
    ≡ ok (
      some (report hart 0x01010101 (reg_write RegType.x 1 0x80000004 ∷ [])),
      advanced hart 0x7ffffff8 1 0x80000004,
      ram,
    )
unfolding ◌+ℤ◌
step-jal_example =
    step-jal unit hart ram 0x01010101 hart-IsWellFormed fetched jal_insn (omega arith) (omega arith)
