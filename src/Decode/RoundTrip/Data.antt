-- ===== src/Decode/RoundTrip/Data.antt =====
-- The round trip for loads, stores and integer arithmetic.
use zinc_simulator.Prelude.{ℕ, ◌+◌, ◌*◌, ◌/◌, ◌%◌, ◌^◌, ◌<◌, ◌≡◌, arith, inl, inr}
use zinc_simulator.Insn.{
  DecodedInsn, LoadInsn, StoreInsn, OpImmInsn, OpInsn, OpImm32Insn, Op32Insn, LoadFpInsn,
  StoreFpInsn,
}
use zinc_simulator.Decode.{
  decode, decode_as, decode_load, decode_store, decode_op_imm, decode_op, decode_op_imm_32,
  decode_op_32, decode_load_fp, decode_store_fp,
}
use zinc_simulator.Decode.Encoding.{IsEncodable, mem_access_bits, op_funct3, op_funct7}
use zinc_simulator.Decode.Layout.{layout_i-Reads, layout_s-Reads, Reads-layout}
use zinc_simulator.Decode.RoundTrip.Types.{
  mem_access_type-bits, mem_access_bits-lt, op_type-bits, op_bits-lt, imm_op-bits, imm_shift-bits,
}
use zinc_simulator.Decode.RoundTrip.Control.{RoundTrips}

pub load-RoundTrips :
    (i : LoadInsn) → IsEncodable (DecodedInsn.load i) → RoundTrips (DecodedInsn.load i)
unfolding decode decode_as decode_load
load-RoundTrips i (t, hd, h1, hi) =
    let (r, e, _) =
      layout_i-Reads 0b0000011 i.rd (mem_access_bits i.type) i.rs1 i.imm (omega arith) hd
        (mem_access_bits-lt i.type t) h1 in
    rw (r.opcode_eq, r.rd_eq, r.rs1_eq, r.funct3_eq, e, mem_access_type-bits i.type t, ← hi)

pub store-RoundTrips :
    (i : StoreInsn) → IsEncodable (DecodedInsn.store i) → RoundTrips (DecodedInsn.store i)
unfolding decode decode_as decode_store
store-RoundTrips i (t, h1, h2, hi) =
    let (r, e) =
      layout_s-Reads 0b0100011 (mem_access_bits i.type) i.rs1 i.rs2 i.imm (omega arith)
        (mem_access_bits-lt i.type t) h1 h2 in
    rw (r.opcode_eq, r.rs1_eq, r.rs2_eq, r.funct3_eq, e, mem_access_type-bits i.type t, ← hi)

pub load_fp-RoundTrips :
    (i : LoadFpInsn) → IsEncodable (DecodedInsn.load_fp i) → RoundTrips (DecodedInsn.load_fp i)
unfolding decode decode_as decode_load_fp
load_fp-RoundTrips i (hd, h1, hi) =
    let (r, e, _) =
      layout_i-Reads 0b0000111 i.rd 0b010 i.rs1 i.imm (omega arith) hd (omega arith) h1 in
    rw (r.opcode_eq, r.rd_eq, r.rs1_eq, e, ← hi)

pub store_fp-RoundTrips :
    (i : StoreFpInsn) → IsEncodable (DecodedInsn.store_fp i) → RoundTrips (DecodedInsn.store_fp i)
unfolding decode decode_as decode_store_fp
store_fp-RoundTrips i (h1, h2, hi) =
    let (r, e) =
      layout_s-Reads 0b0100111 0b010 i.rs1 i.rs2 i.imm (omega arith) (omega arith) h1 h2 in
    rw (r.opcode_eq, r.rs1_eq, r.rs2_eq, e, ← hi)

pub op-RoundTrips : (i : OpInsn) → IsEncodable (DecodedInsn.op i) → RoundTrips (DecodedInsn.op i)
unfolding decode decode_as decode_op
op-RoundTrips i (t, hd, h1, h2) =
    let (h7, h3) = op_bits-lt i.type t in
    let r =
      Reads-layout 0b0110011 i.rd (op_funct3 i.type) i.rs1 i.rs2 (op_funct7 i.type) (omega arith) hd
        h3 h1 h2 h7 in
    rw (r.opcode_eq, r.rd_eq, r.rs1_eq, r.rs2_eq, r.funct3_eq, r.funct7_eq, op_type-bits i.type t)

pub op_32-RoundTrips :
    (i : Op32Insn) → IsEncodable (DecodedInsn.op_32 i) → RoundTrips (DecodedInsn.op_32 i)
unfolding decode decode_as decode_op_32
op_32-RoundTrips i (t, hd, h1, h2) =
    let (h7, h3) = op_bits-lt i.type t in
    let r =
      Reads-layout 0b0111011 i.rd (op_funct3 i.type) i.rs1 i.rs2 (op_funct7 i.type) (omega arith) hd
        h3 h1 h2 h7 in
    rw (r.opcode_eq, r.rd_eq, r.rs1_eq, r.rs2_eq, r.funct3_eq, r.funct7_eq, op_type-bits i.type t)

-- The upper bits and the amount of a shift, in the twelve bits of its immediate.
module _ (funct7 amount : ℕ) (h7 : funct7 < 2 ^ 7) (even : funct7 % 2 ≡ 0)
    (ha : amount < 2 ^ 6) where
  shift_upper : (funct7 * 2 ^ 5 + amount) / 2 ^ 5 % 2 ^ 7 / 2 ≡ funct7 / 2
  shift_upper = omega arith

  shift_amount :
      (funct7 * 2 ^ 5 + amount) / 2 ^ 5 % 2 ^ 7 % 2 * 2 ^ 5 + (funct7 * 2 ^ 5 + amount) % 2 ^ 5
      ≡ amount
  shift_amount = omega arith

pub op_imm-RoundTrips :
    (i : OpImmInsn) → IsEncodable (DecodedInsn.op_imm i) → RoundTrips (DecodedInsn.op_imm i)
unfolding decode decode_as decode_op_imm
op_imm-RoundTrips i (hd, h1, inl (t, hi)) =
    let (h3, s, even, h7, e, _) = imm_shift-bits i.type t in
    let (r, _, _) =
      layout_i-Reads 0b0010011 i.rd (op_funct3 i.type) i.rs1 (op_funct7 i.type * 2 ^ 5 + i.imm)
        (omega arith) hd h3 h1 in
    rw (
      t,
      r.opcode_eq,
      r.rd_eq,
      r.rs1_eq,
      r.funct3_eq,
      s,
      r.upper_eq,
      r.amount_eq,
      shift_upper (op_funct7 i.type) i.imm h7 even hi,
      shift_amount (op_funct7 i.type) i.imm h7 even hi,
      e,
    )
op_imm-RoundTrips i (hd, h1, inr (t, hi)) =
    let (h3, ns, s, e) = imm_op-bits i.type t in
    let (r, ei, _) =
      layout_i-Reads 0b0010011 i.rd (op_funct3 i.type) i.rs1 i.imm (omega arith) hd h3 h1 in
    rw (ns, r.opcode_eq, r.rd_eq, r.rs1_eq, r.funct3_eq, s, ei, e, ← hi)

pub op_imm_32-RoundTrips :
    (i : OpImm32Insn) → IsEncodable (DecodedInsn.op_imm_32 i) → RoundTrips (DecodedInsn.op_imm_32 i)
unfolding decode decode_as decode_op_imm_32
op_imm_32-RoundTrips i (hd, h1, inl (t, hi)) =
    let (h3, s, even, h7, _, e) = imm_shift-bits i.type t in
    let (r, _, _) =
      layout_i-Reads 0b0011011 i.rd (op_funct3 i.type) i.rs1 (op_funct7 i.type * 2 ^ 5 + i.imm)
        (omega arith) hd h3 h1 in
    let upper : (op_funct7 i.type * 2 ^ 5 + i.imm) / 2 ^ 5 % 2 ^ 7 ≡ op_funct7 i.type =
      omega arith in
    rw (
      t,
      r.opcode_eq,
      r.rd_eq,
      r.rs1_eq,
      r.funct3_eq,
      s,
      r.funct7_eq,
      r.shamt_eq,
      shift_amount (op_funct7 i.type) i.imm h7 even (omega arith),
      upper,
      e,
    )
op_imm_32-RoundTrips i (hd, h1, inr (t, hi)) =
    let (h3, ns, s, e) = imm_op-bits i.type t in
    let (r, ei, _) =
      layout_i-Reads 0b0011011 i.rd (op_funct3 i.type) i.rs1 i.imm (omega arith) hd h3 h1 in
    rw (ns, r.opcode_eq, r.rd_eq, r.rs1_eq, r.funct3_eq, s, ei, e, ← hi)
