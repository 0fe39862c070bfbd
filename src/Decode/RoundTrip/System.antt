-- ===== src/Decode/RoundTrip/System.antt =====
-- The round trip for system, fence and floating-point instructions.
use zinc_simulator.Prelude.{
  ℕ, ◌*◌, ◌/◌, ◌%◌, ◌^◌, ◌<◌, bit_or, ◌≡◌, refl, arith, if◌then◌else◌, ◌==◌,
}
use zinc_simulator.Word.{u32, u64, widen}
use zinc_simulator.Insn.{
  DecodedInsn, SystemInsnType, FmaFpType, MiscMemInsn, SystemInsn, OpFpInsn, FmaFpInsn,
  system_insn_type,
}
use zinc_simulator.Decode.{
  get_opcode, decode, decode_as, decode_system, decode_misc_mem, decode_op_fp, decode_fma_fp,
}
use zinc_simulator.Decode.Encoding.{
  IsEncodable, IsSystem, system_funct3, misc_mem_bits, rounding_bits, op_fp_funct7, fma_opcode,
}
use zinc_simulator.Decode.Layout.{layout_i-Reads, Reads-layout}
use zinc_simulator.Decode.RoundTrip.Types.{
  misc_mem_insn_type-bits, rounding_mode-bits, rounding_bits-lt, op_fp_funct7-lt, op_fp_type-bits,
}
use zinc_simulator.Decode.RoundTrip.Control.{RoundTrips}

-- The type that `decode_system` finds from funct3 and the twelve upper bits.
abbrev found_type : ℕ → ℕ → SystemInsnType
found_type funct3 csr =
    if funct3 == 0
    then system_insn_type (u32 (bit_or (u64 (widen 12 csr * 2 ^ 3)) funct3))
    else system_insn_type funct3

abbrev IsFound : SystemInsnType → ℕ → Type 0
IsFound t csr = (system_funct3 t < 2 ^ 3) × (csr < 2 ^ 12) × (found_type (system_funct3 t) csr ≡ t)

system-IsFound : (t : SystemInsnType) (csr : ℕ) → IsSystem t csr → IsFound t csr
unfolding system_insn_type
system-IsFound SystemInsnType.ecall csr h = rw h (omega arith, omega arith, refl)
system-IsFound SystemInsnType.ebreak csr h = rw h (omega arith, omega arith, refl)
system-IsFound SystemInsnType.mret csr h = rw h (omega arith, omega arith, refl)
system-IsFound (SystemInsnType.reserved n) csr h = absurd h
system-IsFound _ csr h = (omega arith, h, refl)

pub system-RoundTrips :
    (i : SystemInsn) → IsEncodable (DecodedInsn.system i) → RoundTrips (DecodedInsn.system i)
unfolding decode decode_as decode_system
system-RoundTrips i (t, hd, h1, hu) =
    let (h3, hc, e) = system-IsFound i.type i.csr t in
    let (r, ei, ec) =
      layout_i-Reads 0b1110011 i.rd (system_funct3 i.type) i.rs1 i.csr (omega arith) hd h3 h1 in
    let whole : i.csr % 2 ^ 12 ≡ i.csr = omega arith in
    rw (r.opcode_eq, r.rd_eq, r.rs1_eq, r.uimm_eq, r.funct3_eq, ei, ec, whole, e, ← hu)

pub misc_mem-RoundTrips :
    (i : MiscMemInsn) → IsEncodable (DecodedInsn.misc_mem i) → RoundTrips (DecodedInsn.misc_mem i)
unfolding decode decode_as decode_misc_mem
misc_mem-RoundTrips i t =
    let (h3, e) = misc_mem_insn_type-bits i.type t in
    let r =
      Reads-layout 0b0001111 0 (misc_mem_bits i.type) 0 0 0 (omega arith) (omega arith) h3
        (omega arith) (omega arith) (omega arith) in
    rw (r.opcode_eq, r.funct3_eq, e)

pub op_fp-RoundTrips :
    (i : OpFpInsn) → IsEncodable (DecodedInsn.op_fp i) → RoundTrips (DecodedInsn.op_fp i)
unfolding decode decode_as decode_op_fp
op_fp-RoundTrips i (t, m, hd, h1, h2) =
    let r =
      Reads-layout 0b1010011 i.rd (rounding_bits i.rm) i.rs1 i.rs2 (op_fp_funct7 i.type)
        (omega arith) hd (rounding_bits-lt i.rm m) h1 h2 (op_fp_funct7-lt i.type) in
    rw (
      r.opcode_eq,
      r.rd_eq,
      r.rs1_eq,
      r.rs2_eq,
      r.funct3_eq,
      r.funct7_eq,
      op_fp_type-bits i.type (rounding_bits i.rm) i.rs2 t,
      rounding_mode-bits i.rm m,
    )

decode-fma : (t : FmaFpType) (w : ℕ) → get_opcode w ≡ fma_opcode t → decode w ≡ decode_fma_fp t w
unfolding decode decode_as
decode-fma FmaFpType.madd w e = rw e
decode-fma FmaFpType.msub w e = rw e
decode-fma FmaFpType.nmsub w e = rw e
decode-fma FmaFpType.nmadd w e = rw e

fma_opcode-lt : (t : FmaFpType) → fma_opcode t < 2 ^ 7
fma_opcode-lt FmaFpType.madd = omega arith
fma_opcode-lt FmaFpType.msub = omega arith
fma_opcode-lt FmaFpType.nmsub = omega arith
fma_opcode-lt FmaFpType.nmadd = omega arith

pub fma_fp-RoundTrips :
    (i : FmaFpInsn) → IsEncodable (DecodedInsn.fma_fp i) → RoundTrips (DecodedInsn.fma_fp i)
unfolding decode_fma_fp
fma_fp-RoundTrips i (m, hd, h1, h2, h3) =
    let r =
      Reads-layout (fma_opcode i.type) i.rd (rounding_bits i.rm) i.rs1 i.rs2 (i.rs3 * 2 ^ 2)
        (fma_opcode-lt i.type) hd (rounding_bits-lt i.rm m) h1 h2 (omega arith) in
    let fmt : i.rs3 * 2 ^ 2 % 2 ^ 2 ≡ 0 = omega arith in
    let third : i.rs3 * 2 ^ 2 / 2 ^ 2 ≡ i.rs3 = omega arith in
    rw (decode-fma i.type _ r.opcode_eq) (
      rw (
        r.rd_eq,
        r.rs1_eq,
        r.rs2_eq,
        r.funct3_eq,
        r.rs3_eq,
        r.fmt_eq,
        fmt,
        third,
        rounding_mode-bits i.rm m,
      ))
