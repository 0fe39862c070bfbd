-- ===== src/Insn.antt =====
-- include/decode.h: the instruction formats. An enumeration of the source is a data type with the
-- source's enumerators and `reserved`, for a value that a `static_cast` gives it and that has no
-- enumerator. An `int64_t imm` is its 64-bit pattern.
use zinc_simulator.Prelude.{ℕ, ◌==◌, if◌then◌else◌}

pub data BranchType : Type 0 where
  eq ne lt ge ltu geu : BranchType
  reserved : ℕ → BranchType

unfoldable pub branch_type : ℕ → BranchType
branch_type n =
    if n == 0b000
    then BranchType.eq
    else if n == 0b001
    then BranchType.ne
    else if n == 0b100
    then BranchType.lt
    else if n == 0b101
    then BranchType.ge
    else if n == 0b110
    then BranchType.ltu
    else if n == 0b111
    then BranchType.geu
    else BranchType.reserved n

pub data MemAccessType : Type 0 where
  b h w d bu hu wu : MemAccessType
  reserved : ℕ → MemAccessType

unfoldable pub mem_access_type : ℕ → MemAccessType
mem_access_type n =
    if n == 0b000
    then MemAccessType.b
    else if n == 0b001
    then MemAccessType.h
    else if n == 0b010
    then MemAccessType.w
    else if n == 0b011
    then MemAccessType.d
    else if n == 0b100
    then MemAccessType.bu
    else if n == 0b101
    then MemAccessType.hu
    else if n == 0b110
    then MemAccessType.wu
    else MemAccessType.reserved n

pub data OpType : Type 0 where
  add sub sll slt sltu xor srl sra or and : OpType
  mul mulh mulhsu mulhu div divu rem remu : OpType
  reserved : ℕ → OpType

unfoldable pub op_type : ℕ → OpType
op_type n =
    if n == 0b0000000_000
    then OpType.add
    else if n == 0b0100000_000
    then OpType.sub
    else if n == 0b0000000_001
    then OpType.sll
    else if n == 0b0000000_010
    then OpType.slt
    else if n == 0b0000000_011
    then OpType.sltu
    else if n == 0b0000000_100
    then OpType.xor
    else if n == 0b0000000_101
    then OpType.srl
    else if n == 0b0100000_101
    then OpType.sra
    else if n == 0b0000000_110
    then OpType.or
    else if n == 0b0000000_111
    then OpType.and
    else if n == 0b0000001_000
    then OpType.mul
    else if n == 0b0000001_001
    then OpType.mulh
    else if n == 0b0000001_010
    then OpType.mulhsu
    else if n == 0b0000001_011
    then OpType.mulhu
    else if n == 0b0000001_100
    then OpType.div
    else if n == 0b0000001_101
    then OpType.divu
    else if n == 0b0000001_110
    then OpType.rem
    else if n == 0b0000001_111
    then OpType.remu
    else OpType.reserved n

pub data SystemInsnType : Type 0 where
  ecall ebreak csrrw csrrs csrrc csrrwi csrrsi csrrci mret : SystemInsnType
  reserved : ℕ → SystemInsnType

unfoldable pub system_insn_type : ℕ → SystemInsnType
system_insn_type n =
    if n == 0b000000000000_000
    then SystemInsnType.ecall
    else if n == 0b000000000001_000
    then SystemInsnType.ebreak
    else if n == 0b001
    then SystemInsnType.csrrw
    else if n == 0b010
    then SystemInsnType.csrrs
    else if n == 0b011
    then SystemInsnType.csrrc
    else if n == 0b101
    then SystemInsnType.csrrwi
    else if n == 0b110
    then SystemInsnType.csrrsi
    else if n == 0b111
    then SystemInsnType.csrrci
    else if n == 0b001100000010_000
    then SystemInsnType.mret
    else SystemInsnType.reserved n

pub data MiscMemInsnType : Type 0 where
  fence fence_i : MiscMemInsnType
  reserved : ℕ → MiscMemInsnType

unfoldable pub misc_mem_insn_type : ℕ → MiscMemInsnType
misc_mem_insn_type n =
    if n == 0b000
    then MiscMemInsnType.fence
    else if n == 0b001
    then MiscMemInsnType.fence_i
    else MiscMemInsnType.reserved n

pub data OpFpType : Type 0 where
  add sub mul div sqrt min max sgnj sgnjn sgnjx eq lt le classify move_to_x move_from_x : OpFpType
  cvt_w_from_s cvt_wu_from_s cvt_l_from_s cvt_lu_from_s : OpFpType
  cvt_s_to_w cvt_s_to_wu cvt_s_to_l cvt_s_to_lu : OpFpType

pub data FmaFpType : Type 0 where
  madd msub nmsub nmadd : FmaFpType

pub data RoundingMode : Type 0 where
  rne rtz rdn rup rmm dynamic : RoundingMode
  reserved : ℕ → RoundingMode

unfoldable pub rounding_mode : ℕ → RoundingMode
rounding_mode n =
    if n == 0b000
    then RoundingMode.rne
    else if n == 0b001
    then RoundingMode.rtz
    else if n == 0b010
    then RoundingMode.rdn
    else if n == 0b011
    then RoundingMode.rup
    else if n == 0b100
    then RoundingMode.rmm
    else if n == 0b111
    then RoundingMode.dynamic
    else RoundingMode.reserved n

pub record LuiInsn : Type 0 where
  pub imm : ℕ
  pub rd : ℕ

pub record AuipcInsn : Type 0 where
  pub imm : ℕ
  pub rd : ℕ

pub record JalInsn : Type 0 where
  pub imm : ℕ
  pub rd : ℕ

pub record JalrInsn : Type 0 where
  pub imm : ℕ
  pub rs1 : ℕ
  pub rd : ℕ

pub record BranchInsn : Type 0 where
  pub type : BranchType
  pub imm : ℕ
  pub rs1 : ℕ
  pub rs2 : ℕ

pub record LoadInsn : Type 0 where
  pub type : MemAccessType
  pub imm : ℕ
  pub rs1 : ℕ
  pub rd : ℕ

pub record StoreInsn : Type 0 where
  pub type : MemAccessType
  pub imm : ℕ
  pub rs1 : ℕ
  pub rs2 : ℕ

pub record OpImmInsn : Type 0 where
  pub type : OpType
  pub imm : ℕ
  pub rs1 : ℕ
  pub rd : ℕ

pub record OpInsn : Type 0 where
  pub type : OpType
  pub rs1 : ℕ
  pub rs2 : ℕ
  pub rd : ℕ

pub record MiscMemInsn : Type 0 where
  pub type : MiscMemInsnType

pub record SystemInsn : Type 0 where
  pub type : SystemInsnType
  pub csr : ℕ
  pub rs1 : ℕ
  pub uimm : ℕ
  pub rd : ℕ

pub record OpImm32Insn : Type 0 where
  pub type : OpType
  pub imm : ℕ
  pub rs1 : ℕ
  pub rd : ℕ

pub record Op32Insn : Type 0 where
  pub type : OpType
  pub rs1 : ℕ
  pub rs2 : ℕ
  pub rd : ℕ

pub record LoadFpInsn : Type 0 where
  pub imm : ℕ
  pub rs1 : ℕ
  pub rd : ℕ

pub record StoreFpInsn : Type 0 where
  pub imm : ℕ
  pub rs1 : ℕ
  pub rs2 : ℕ

pub record OpFpInsn : Type 0 where
  pub type : OpFpType
  pub rm : RoundingMode
  pub rs1 : ℕ
  pub rs2 : ℕ
  pub rd : ℕ

pub record FmaFpInsn : Type 0 where
  pub type : FmaFpType
  pub rm : RoundingMode
  pub rs1 : ℕ
  pub rs2 : ℕ
  pub rs3 : ℕ
  pub rd : ℕ

-- The `std::variant` of all formats.
pub data DecodedInsn : Type 0 where
  lui : LuiInsn → DecodedInsn
  auipc : AuipcInsn → DecodedInsn
  jal : JalInsn → DecodedInsn
  jalr : JalrInsn → DecodedInsn
  branch : BranchInsn → DecodedInsn
  load : LoadInsn → DecodedInsn
  store : StoreInsn → DecodedInsn
  op_imm : OpImmInsn → DecodedInsn
  op : OpInsn → DecodedInsn
  misc_mem : MiscMemInsn → DecodedInsn
  system : SystemInsn → DecodedInsn
  op_imm_32 : OpImm32Insn → DecodedInsn
  op_32 : Op32Insn → DecodedInsn
  load_fp : LoadFpInsn → DecodedInsn
  store_fp : StoreFpInsn → DecodedInsn
  op_fp : OpFpInsn → DecodedInsn
  fma_fp : FmaFpInsn → DecodedInsn
  invalid : DecodedInsn
