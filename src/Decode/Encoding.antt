-- ===== src/Decode/Encoding.antt =====
-- The instruction formats of RISC-V the other way: where an assembler puts each field. It is the
-- independent description that src/decode.cpp is compared with.
use zinc_simulator.Prelude.{
  ℕ, ◌+◌, ◌*◌, ◌/◌, ◌%◌, ◌^◌, ◌<◌, Bool, true, false, if◌then◌else◌, ◌≡◌, ◌⊎◌,
}
use zinc_simulator.Word.{widen}
use zinc_simulator.Insn.{
  BranchType, MemAccessType, OpType, SystemInsnType, MiscMemInsnType, OpFpType, FmaFpType,
  RoundingMode, DecodedInsn,
}

-- opcode, rd, funct3, rs1, rs2 and funct7, from the lowest bit on.
unfoldable pub layout : ℕ → ℕ → ℕ → ℕ → ℕ → ℕ → ℕ
layout opcode rd funct3 rs1 rs2 funct7 =
    opcode + rd * 2 ^ 7 + funct3 * 2 ^ 12 + rs1 * 2 ^ 15 + rs2 * 2 ^ 20 + funct7 * 2 ^ 25

-- An immediate of 12 bits in place of funct7 and rs2.
abbrev pub layout_i : ℕ → ℕ → ℕ → ℕ → ℕ → ℕ
layout_i opcode rd funct3 rs1 imm = layout opcode rd funct3 rs1 (imm % 2 ^ 5) (imm / 2 ^ 5 % 2 ^ 7)

abbrev pub layout_s : ℕ → ℕ → ℕ → ℕ → ℕ → ℕ
layout_s opcode funct3 rs1 rs2 imm =
    layout opcode (imm % 2 ^ 5) funct3 rs1 rs2 (imm / 2 ^ 5 % 2 ^ 7)

abbrev pub layout_b : ℕ → ℕ → ℕ → ℕ → ℕ → ℕ
layout_b opcode funct3 rs1 rs2 imm =
    layout opcode (imm / 2 % 2 ^ 4 * 2 + imm / 2 ^ 11 % 2) funct3 rs1 rs2
      (imm / 2 ^ 12 % 2 * 2 ^ 6 + imm / 2 ^ 5 % 2 ^ 6)

unfoldable pub layout_u : ℕ → ℕ → ℕ → ℕ
layout_u opcode rd imm = opcode + rd * 2 ^ 7 + imm / 2 ^ 12 % 2 ^ 20 * 2 ^ 12

unfoldable pub layout_j : ℕ → ℕ → ℕ → ℕ
layout_j opcode rd imm =
    opcode
    + rd * 2 ^ 7
    + imm / 2 ^ 12 % 2 ^ 8 * 2 ^ 12
    + imm / 2 ^ 11 % 2 * 2 ^ 20
    + imm / 2 % 2 ^ 10 * 2 ^ 21
    + imm / 2 ^ 20 % 2 * 2 ^ 31

abbrev pub branch_bits : BranchType → ℕ
branch_bits BranchType.eq = 0b000
branch_bits BranchType.ne = 0b001
branch_bits BranchType.lt = 0b100
branch_bits BranchType.ge = 0b101
branch_bits BranchType.ltu = 0b110
branch_bits BranchType.geu = 0b111
branch_bits (BranchType.reserved n) = n

abbrev pub mem_access_bits : MemAccessType → ℕ
mem_access_bits MemAccessType.b = 0b000
mem_access_bits MemAccessType.h = 0b001
mem_access_bits MemAccessType.w = 0b010
mem_access_bits MemAccessType.d = 0b011
mem_access_bits MemAccessType.bu = 0b100
mem_access_bits MemAccessType.hu = 0b101
mem_access_bits MemAccessType.wu = 0b110
mem_access_bits (MemAccessType.reserved n) = n

-- funct7 and funct3 of an arithmetic instruction.
abbrev pub op_funct7 : OpType → ℕ
op_funct7 OpType.sub = 0b0100000
op_funct7 OpType.sra = 0b0100000
op_funct7 OpType.mul = 1
op_funct7 OpType.mulh = 1
op_funct7 OpType.mulhsu = 1
op_funct7 OpType.mulhu = 1
op_funct7 OpType.div = 1
op_funct7 OpType.divu = 1
op_funct7 OpType.rem = 1
op_funct7 OpType.remu = 1
op_funct7 (OpType.reserved n) = n / 8
op_funct7 _ = 0

abbrev pub op_funct3 : OpType → ℕ
op_funct3 OpType.add = 0b000
op_funct3 OpType.sub = 0b000
op_funct3 OpType.sll = 0b001
op_funct3 OpType.slt = 0b010
op_funct3 OpType.sltu = 0b011
op_funct3 OpType.xor = 0b100
op_funct3 OpType.srl = 0b101
op_funct3 OpType.sra = 0b101
op_funct3 OpType.or = 0b110
op_funct3 OpType.and = 0b111
op_funct3 OpType.mul = 0b000
op_funct3 OpType.mulh = 0b001
op_funct3 OpType.mulhsu = 0b010
op_funct3 OpType.mulhu = 0b011
op_funct3 OpType.div = 0b100
op_funct3 OpType.divu = 0b101
op_funct3 OpType.rem = 0b110
op_funct3 OpType.remu = 0b111
op_funct3 (OpType.reserved n) = n % 8

abbrev pub is_op : OpType → Bool
is_op (OpType.reserved n) = false
is_op OpType.add = true
is_op _ = true

-- The operations that take an immediate, and the shifts among them.
abbrev pub is_imm_shift : OpType → Bool
is_imm_shift OpType.sll = true
is_imm_shift OpType.srl = true
is_imm_shift OpType.sra = true
is_imm_shift _ = false

abbrev pub is_imm_op : OpType → Bool
is_imm_op OpType.add = true
is_imm_op OpType.slt = true
is_imm_op OpType.sltu = true
is_imm_op OpType.xor = true
is_imm_op OpType.or = true
is_imm_op OpType.and = true
is_imm_op _ = false

abbrev pub is_branch : BranchType → Bool
is_branch (BranchType.reserved n) = false
is_branch BranchType.eq = true
is_branch _ = true

abbrev pub is_access : MemAccessType → Bool
is_access (MemAccessType.reserved n) = false
is_access MemAccessType.b = true
is_access _ = true

-- The immediate is a signed number of `k` bits, widened.
abbrev pub Fits : ℕ → ℕ → Type 0
Fits k imm = imm ≡ widen k (imm % 2 ^ k)

abbrev pub system_funct3 : SystemInsnType → ℕ
system_funct3 SystemInsnType.csrrw = 0b001
system_funct3 SystemInsnType.csrrs = 0b010
system_funct3 SystemInsnType.csrrc = 0b011
system_funct3 SystemInsnType.csrrwi = 0b101
system_funct3 SystemInsnType.csrrsi = 0b110
system_funct3 SystemInsnType.csrrci = 0b111
system_funct3 _ = 0

-- The twelve upper bits: a CSR operation has any CSR there, the others one number each.
abbrev pub IsSystem : SystemInsnType → ℕ → Type 0
IsSystem SystemInsnType.ecall csr = csr ≡ 0
IsSystem SystemInsnType.ebreak csr = csr ≡ 1
IsSystem SystemInsnType.mret csr = csr ≡ 0x302
IsSystem (SystemInsnType.reserved n) csr = ⊥
IsSystem _ csr = csr < 2 ^ 12

abbrev pub misc_mem_bits : MiscMemInsnType → ℕ
misc_mem_bits MiscMemInsnType.fence = 0
misc_mem_bits MiscMemInsnType.fence_i = 1
misc_mem_bits (MiscMemInsnType.reserved n) = n

abbrev pub is_misc_mem : MiscMemInsnType → Bool
is_misc_mem MiscMemInsnType.fence = true
is_misc_mem MiscMemInsnType.fence_i = true
is_misc_mem (MiscMemInsnType.reserved n) = false

abbrev pub rounding_bits : RoundingMode → ℕ
rounding_bits RoundingMode.rne = 0b000
rounding_bits RoundingMode.rtz = 0b001
rounding_bits RoundingMode.rdn = 0b010
rounding_bits RoundingMode.rup = 0b011
rounding_bits RoundingMode.rmm = 0b100
rounding_bits RoundingMode.dynamic = 0b111
rounding_bits (RoundingMode.reserved n) = n

abbrev pub is_rounding : RoundingMode → Bool
is_rounding (RoundingMode.reserved n) = false
is_rounding RoundingMode.rne = true
is_rounding _ = true

abbrev pub fma_opcode : FmaFpType → ℕ
fma_opcode FmaFpType.madd = 0b1000011
fma_opcode FmaFpType.msub = 0b1000111
fma_opcode FmaFpType.nmsub = 0b1001011
fma_opcode FmaFpType.nmadd = 0b1001111

abbrev pub op_fp_funct7 : OpFpType → ℕ
op_fp_funct7 OpFpType.add = 0b0000000
op_fp_funct7 OpFpType.sub = 0b0000100
op_fp_funct7 OpFpType.mul = 0b0001000
op_fp_funct7 OpFpType.div = 0b0001100
op_fp_funct7 OpFpType.sqrt = 0b0101100
op_fp_funct7 OpFpType.min = 0b0010100
op_fp_funct7 OpFpType.max = 0b0010100
op_fp_funct7 OpFpType.sgnj = 0b0010000
op_fp_funct7 OpFpType.sgnjn = 0b0010000
op_fp_funct7 OpFpType.sgnjx = 0b0010000
op_fp_funct7 OpFpType.eq = 0b1010000
op_fp_funct7 OpFpType.lt = 0b1010000
op_fp_funct7 OpFpType.le = 0b1010000
op_fp_funct7 OpFpType.classify = 0b1110000
op_fp_funct7 OpFpType.move_to_x = 0b1110000
op_fp_funct7 OpFpType.move_from_x = 0b1111000
op_fp_funct7 OpFpType.cvt_w_from_s = 0b1100000
op_fp_funct7 OpFpType.cvt_wu_from_s = 0b1100000
op_fp_funct7 OpFpType.cvt_l_from_s = 0b1100000
op_fp_funct7 OpFpType.cvt_lu_from_s = 0b1100000
op_fp_funct7 OpFpType.cvt_s_to_w = 0b1101000
op_fp_funct7 OpFpType.cvt_s_to_wu = 0b1101000
op_fp_funct7 OpFpType.cvt_s_to_l = 0b1101000
op_fp_funct7 OpFpType.cvt_s_to_lu = 0b1101000

-- What a floating-point operation fixes of funct3 and rs2.
abbrev pub IsOpFp : OpFpType → ℕ → ℕ → Type 0
IsOpFp OpFpType.sqrt funct3 rs2 = rs2 ≡ 0
IsOpFp OpFpType.min funct3 rs2 = funct3 ≡ 0b000
IsOpFp OpFpType.max funct3 rs2 = funct3 ≡ 0b001
IsOpFp OpFpType.sgnj funct3 rs2 = funct3 ≡ 0b000
IsOpFp OpFpType.sgnjn funct3 rs2 = funct3 ≡ 0b001
IsOpFp OpFpType.sgnjx funct3 rs2 = funct3 ≡ 0b010
IsOpFp OpFpType.eq funct3 rs2 = funct3 ≡ 0b010
IsOpFp OpFpType.lt funct3 rs2 = funct3 ≡ 0b001
IsOpFp OpFpType.le funct3 rs2 = funct3 ≡ 0b000
IsOpFp OpFpType.classify funct3 rs2 = (funct3 ≡ 0b001) × (rs2 ≡ 0)
IsOpFp OpFpType.move_to_x funct3 rs2 = (funct3 ≡ 0b000) × (rs2 ≡ 0)
IsOpFp OpFpType.move_from_x funct3 rs2 = (funct3 ≡ 0b000) × (rs2 ≡ 0)
IsOpFp OpFpType.cvt_w_from_s funct3 rs2 = rs2 ≡ 0
IsOpFp OpFpType.cvt_wu_from_s funct3 rs2 = rs2 ≡ 1
IsOpFp OpFpType.cvt_l_from_s funct3 rs2 = rs2 ≡ 2
IsOpFp OpFpType.cvt_lu_from_s funct3 rs2 = rs2 ≡ 3
IsOpFp OpFpType.cvt_s_to_w funct3 rs2 = rs2 ≡ 0
IsOpFp OpFpType.cvt_s_to_wu funct3 rs2 = rs2 ≡ 1
IsOpFp OpFpType.cvt_s_to_l funct3 rs2 = rs2 ≡ 2
IsOpFp OpFpType.cvt_s_to_lu funct3 rs2 = rs2 ≡ 3
IsOpFp _ funct3 rs2 = Unit {0}

-- An assembler: the word that stands for an instruction.
abbrev pub encode : DecodedInsn → ℕ
encode (DecodedInsn.lui i) = layout_u 0b0110111 i.rd i.imm
encode (DecodedInsn.auipc i) = layout_u 0b0010111 i.rd i.imm
encode (DecodedInsn.jal i) = layout_j 0b1101111 i.rd i.imm
encode (DecodedInsn.jalr i) = layout_i 0b1100111 i.rd 0 i.rs1 i.imm
encode (DecodedInsn.branch i) = layout_b 0b1100011 (branch_bits i.type) i.rs1 i.rs2 i.imm
encode (DecodedInsn.load i) = layout_i 0b0000011 i.rd (mem_access_bits i.type) i.rs1 i.imm
encode (DecodedInsn.store i) = layout_s 0b0100011 (mem_access_bits i.type) i.rs1 i.rs2 i.imm
encode (DecodedInsn.op_imm i) =
    layout_i 0b0010011 i.rd (op_funct3 i.type) i.rs1
      (if is_imm_shift i.type then op_funct7 i.type * 2 ^ 5 + i.imm else i.imm)
encode (DecodedInsn.op i) = layout 0b0110011 i.rd (op_funct3 i.type) i.rs1 i.rs2 (op_funct7 i.type)
encode (DecodedInsn.misc_mem i) = layout 0b0001111 0 (misc_mem_bits i.type) 0 0 0
encode (DecodedInsn.system i) = layout_i 0b1110011 i.rd (system_funct3 i.type) i.rs1 i.csr
encode (DecodedInsn.op_imm_32 i) =
    layout_i 0b0011011 i.rd (op_funct3 i.type) i.rs1
      (if is_imm_shift i.type then op_funct7 i.type * 2 ^ 5 + i.imm else i.imm)
encode (DecodedInsn.op_32 i) =
    layout 0b0111011 i.rd (op_funct3 i.type) i.rs1 i.rs2 (op_funct7 i.type)
encode (DecodedInsn.load_fp i) = layout_i 0b0000111 i.rd 0b010 i.rs1 i.imm
encode (DecodedInsn.store_fp i) = layout_s 0b0100111 0b010 i.rs1 i.rs2 i.imm
encode (DecodedInsn.op_fp i) =
    layout 0b1010011 i.rd (rounding_bits i.rm) i.rs1 i.rs2 (op_fp_funct7 i.type)
encode (DecodedInsn.fma_fp i) =
    layout (fma_opcode i.type) i.rd (rounding_bits i.rm) i.rs1 i.rs2 (i.rs3 * 2 ^ 2)
encode DecodedInsn.invalid = 0

-- A shift by a number below 2 ^ k, or an operation with a 12-bit immediate.
abbrev pub IsImmediate : ℕ → OpType → ℕ → Type 0
IsImmediate k type imm =
    ((is_imm_shift type ≡ true) × (imm < 2 ^ k)) ⊎ ((is_imm_op type ≡ true) × Fits 12 imm)

-- The instructions that have an encoding: registers below 32, immediates in the range of their
-- format, an enumerator that the format has.
abbrev pub IsEncodable : DecodedInsn → Type 0
IsEncodable (DecodedInsn.lui i) =
    (i.rd < 32) × (i.imm ≡ widen 32 (i.imm / 2 ^ 12 % 2 ^ 20 * 2 ^ 12))
IsEncodable (DecodedInsn.auipc i) =
    (i.rd < 32) × (i.imm ≡ widen 32 (i.imm / 2 ^ 12 % 2 ^ 20 * 2 ^ 12))
IsEncodable (DecodedInsn.jal i) = (i.rd < 32) × Fits 21 i.imm × (i.imm % 2 ≡ 0)
IsEncodable (DecodedInsn.jalr i) = (i.rd < 32) × (i.rs1 < 32) × Fits 12 i.imm
IsEncodable (DecodedInsn.branch i) =
    (is_branch i.type ≡ true) × (i.rs1 < 32) × (i.rs2 < 32) × Fits 13 i.imm × (i.imm % 2 ≡ 0)
IsEncodable (DecodedInsn.load i) =
    (is_access i.type ≡ true) × (i.rd < 32) × (i.rs1 < 32) × Fits 12 i.imm
IsEncodable (DecodedInsn.store i) =
    (is_access i.type ≡ true) × (i.rs1 < 32) × (i.rs2 < 32) × Fits 12 i.imm
IsEncodable (DecodedInsn.op_imm i) = (i.rd < 32) × (i.rs1 < 32) × IsImmediate 6 i.type i.imm
IsEncodable (DecodedInsn.op i) = (is_op i.type ≡ true) × (i.rd < 32) × (i.rs1 < 32) × (i.rs2 < 32)
IsEncodable (DecodedInsn.misc_mem i) = is_misc_mem i.type ≡ true
IsEncodable (DecodedInsn.system i) =
    IsSystem i.type i.csr × (i.rd < 32) × (i.rs1 < 32) × (i.uimm ≡ i.rs1)
IsEncodable (DecodedInsn.op_imm_32 i) = (i.rd < 32) × (i.rs1 < 32) × IsImmediate 5 i.type i.imm
IsEncodable (DecodedInsn.op_32 i) =
    (is_op i.type ≡ true) × (i.rd < 32) × (i.rs1 < 32) × (i.rs2 < 32)
IsEncodable (DecodedInsn.load_fp i) = (i.rd < 32) × (i.rs1 < 32) × Fits 12 i.imm
IsEncodable (DecodedInsn.store_fp i) = (i.rs1 < 32) × (i.rs2 < 32) × Fits 12 i.imm
IsEncodable (DecodedInsn.op_fp i) =
    IsOpFp i.type (rounding_bits i.rm) i.rs2
    × (is_rounding i.rm ≡ true)
    × (i.rd < 32)
    × (i.rs1 < 32)
    × (i.rs2 < 32)
IsEncodable (DecodedInsn.fma_fp i) =
    (is_rounding i.rm ≡ true) × (i.rd < 32) × (i.rs1 < 32) × (i.rs2 < 32) × (i.rs3 < 32)
IsEncodable DecodedInsn.invalid = ⊥
