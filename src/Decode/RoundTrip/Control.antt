-- ===== src/Decode/RoundTrip/Control.antt =====
-- The round trip for the upper immediates, jumps and branches.
use zinc_simulator.Prelude.{◌≡◌, arith, ok}
use zinc_simulator.Insn.{DecodedInsn, LuiInsn, AuipcInsn, JalInsn, JalrInsn, BranchInsn}
use zinc_simulator.Decode.{
  decode, decode_as, decode_lui, decode_auipc, decode_jal, decode_jalr, decode_branch,
}
use zinc_simulator.Decode.Encoding.{encode, IsEncodable, branch_bits}
use zinc_simulator.Decode.Layout.{layout_u-Reads, layout_j-Reads, layout_i-Reads, layout_b-Reads}
use zinc_simulator.Decode.RoundTrip.Types.{branch_type-bits, branch_bits-lt}

abbrev pub RoundTrips : DecodedInsn → Type 0
RoundTrips i = decode (encode i) ≡ ok i

pub lui-RoundTrips :
    (i : LuiInsn) → IsEncodable (DecodedInsn.lui i) → RoundTrips (DecodedInsn.lui i)
unfolding decode decode_as decode_lui
lui-RoundTrips i (hd, hi) =
    let r = layout_u-Reads 0b0110111 i.rd i.imm (omega arith) hd in rw (r.0, r.1, r.2, ← hi)

pub auipc-RoundTrips :
    (i : AuipcInsn) → IsEncodable (DecodedInsn.auipc i) → RoundTrips (DecodedInsn.auipc i)
unfolding decode decode_as decode_auipc
auipc-RoundTrips i (hd, hi) =
    let r = layout_u-Reads 0b0010111 i.rd i.imm (omega arith) hd in rw (r.0, r.1, r.2, ← hi)

pub jal-RoundTrips :
    (i : JalInsn) → IsEncodable (DecodedInsn.jal i) → RoundTrips (DecodedInsn.jal i)
unfolding decode decode_as decode_jal
jal-RoundTrips i (hd, hi, even) =
    let r = layout_j-Reads 0b1101111 i.rd i.imm (omega arith) hd even in rw (r.0, r.1, r.2, ← hi)

pub jalr-RoundTrips :
    (i : JalrInsn) → IsEncodable (DecodedInsn.jalr i) → RoundTrips (DecodedInsn.jalr i)
unfolding decode decode_as decode_jalr
jalr-RoundTrips i (hd, h1, hi) =
    let (r, e, _) = layout_i-Reads 0b1100111 i.rd 0 i.rs1 i.imm (omega arith) hd (omega arith) h1 in
    rw (r.opcode_eq, r.rd_eq, r.rs1_eq, e, ← hi)

pub branch-RoundTrips :
    (i : BranchInsn) → IsEncodable (DecodedInsn.branch i) → RoundTrips (DecodedInsn.branch i)
unfolding decode decode_as decode_branch
branch-RoundTrips i (t, h1, h2, hi, even) =
    let r =
      layout_b-Reads 0b1100011 (branch_bits i.type) i.rs1 i.rs2 i.imm (omega arith)
        (branch_bits-lt i.type t) h1 h2 even in
    rw (r.0, r.1, r.2, r.3, r.4, branch_type-bits i.type t, ← hi)
