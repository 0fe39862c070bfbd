-- ===== src/Execute.antt =====
-- src/execute.cpp: the `execute` function of each instruction format. It reads the hart and the
-- memory and describes the step; `Executor::step`, in Execute/Step, carries it out.
pub mod Words
pub mod Values
pub mod Bounds
pub mod System
pub mod Floating
pub mod Step
pub mod Limits
use zinc_simulator.Prelude.{
  ℕ, ◌+◌, ◌-◌, ◌*◌, ◌/◌, ◌%◌, ◌^◌, bit_and, bit_or, bit_xor, Bool, true, false, ltb, leb,
  if◌then◌else◌, ◌==◌, ◌!=◌, ◌&&◌, not, Result, ok, err, runtime_error, undefined_behaviour, ◌>>=◌,
  Option, none, some, List, [], ◌∷◌,
}
use zinc_simulator.Word.{
  u8, u16, u32, u64, ◌<<<◌, ◌>>>◌, add32, sub32, add64, sub64, not64, widen, sra64, sra32, lt_s64,
  signed,
}
use zinc_simulator.Prelude.Int.{ℤ, pos, negsuc, ltb_ℤ, ◌+ℤ◌}
use zinc_simulator.Insn.{
  BranchType, MemAccessType, OpType, SystemInsnType, MiscMemInsnType, LuiInsn, AuipcInsn, JalInsn,
  JalrInsn, BranchInsn, LoadInsn, StoreInsn, OpImmInsn, OpInsn, MiscMemInsn, SystemInsn,
  OpImm32Insn, Op32Insn, LoadFpInsn, StoreFpInsn,
}
use zinc_simulator.Memory.{Memory, get_8, get_16, get_32, get_64}
use zinc_simulator.Csr.{
  Csr, csr_index, csr_of, Privilege, privilege_of, mstatus_mie_mask, mstatus_mpie_mask,
  mstatus_mpp_mask, mstatus_mprv_mask,
}
use zinc_simulator.Core.{Core, Exception, get_gpr, get_fpr, get_csr, has_csr}
use zinc_simulator.MulDiv

pub data RegType : Type 0 where
  x f csr : RegType

pub record RegWrite : Type 0 where
  pub type : RegType
  pub num : ℕ
  pub value : ℕ

pub record MemAccess : Type 0 where
  pub addr : ℕ
  pub value : ℕ
  pub size : ℕ

pub record NormalStep : Type 0 where
  pub next_pc : Option ℕ
  pub next_privilege : Option Privilege
  pub reg_writes : List RegWrite
  pub mem_reads : List MemAccess
  pub mem_writes : List MemAccess

pub data StepResult : Type 0 where
  normal : NormalStep → StepResult
  exception : Exception → StepResult

-- `std::optional::value_or`
abbrev pub value_or {ℓ} : {A : Type ℓ} → Option A → A → A
value_or none d = d
value_or (some a) d = a

abbrev pub reg_write : RegType → ℕ → ℕ → RegWrite
reg_write type num value = record { type = type; num = num; value = value }

abbrev pub mem_access : ℕ → ℕ → ℕ → MemAccess
mem_access addr value size = record { addr = addr; value = value; size = size }

-- A default-constructed `NormalStep`.
abbrev pub normal_step : NormalStep
normal_step = record {
  next_pc = none;
  next_privilege = none;
  reg_writes = [];
  mem_reads = [];
  mem_writes = [];
}

abbrev pub writes : List RegWrite → StepResult
writes ws = StepResult.normal (record normal_step { reg_writes = ws })

abbrev pub trap : ℕ → ℕ → StepResult
trap mcause mtval = StepResult.exception (record { mcause = mcause; mtval = mtval })

pub execute_lui : LuiInsn → StepResult
execute_lui insn = writes (reg_write RegType.x insn.rd insn.imm ∷ [])

pub execute_auipc : Core → AuipcInsn → StepResult
execute_auipc core insn = writes (reg_write RegType.x insn.rd (add64 core.pc insn.imm) ∷ [])

-- Whether an integer is the value of an `int64_t`.
abbrev pub fits_s64 : ℤ → Bool
fits_s64 z = not (ltb_ℤ z (negsuc (2 ^ 63 - 1))) && ltb_ℤ z (pos (2 ^ 63))

-- The sum of two `int64_t`; an overflow is undefined behaviour.
unfoldable pub add_s64 : ℕ → ℕ → Result ℕ
add_s64 a b =
    if fits_s64 (signed 64 a +ℤ signed 64 b) then ok (add64 a b) else err undefined_behaviour

unfoldable pub execute_jal : Core → JalInsn → Result StepResult
execute_jal core insn = do
  next_pc ← add_s64 core.pc insn.imm
  ok (
      StepResult.normal (record normal_step {
        next_pc = some next_pc;
        reg_writes = reg_write RegType.x insn.rd (add64 core.pc 4) ∷ [];
      }))

pub execute_jalr : Core → JalrInsn → Result StepResult
execute_jalr core insn = do
  rs1_val ← get_gpr core insn.rs1
  ok (
      StepResult.normal (record normal_step {
        next_pc = some (add64 rs1_val insn.imm);
        reg_writes = reg_write RegType.x insn.rd (add64 core.pc 4) ∷ [];
      }))

-- The test of `BranchInsn`.
unfoldable pub should_branch : BranchType → ℕ → ℕ → Result Bool
should_branch BranchType.eq a b = ok (a == b)
should_branch BranchType.ge a b = ok (not (lt_s64 a b))
should_branch BranchType.geu a b = ok (leb b a)
should_branch BranchType.lt a b = ok (lt_s64 a b)
should_branch BranchType.ltu a b = ok (ltb a b)
should_branch BranchType.ne a b = ok (a != b)
should_branch (BranchType.reserved n) a b = err runtime_error

pub execute_branch : Core → BranchInsn → Result StepResult
execute_branch core insn = do
  rs1_val ← get_gpr core insn.rs1
  rs2_val ← get_gpr core insn.rs2
  taken ← should_branch insn.type rs1_val rs2_val
  ok (
      StepResult.normal
        (record normal_step { next_pc = if taken then some (add64 core.pc insn.imm) else none }))

unfoldable pub mem_access_aligned : ℕ → MemAccessType → Result Bool
mem_access_aligned addr MemAccessType.b = ok true
mem_access_aligned addr MemAccessType.bu = ok true
mem_access_aligned addr MemAccessType.h = ok (addr % 2 == 0)
mem_access_aligned addr MemAccessType.hu = ok (addr % 2 == 0)
mem_access_aligned addr MemAccessType.w = ok (addr % 4 == 0)
mem_access_aligned addr MemAccessType.wu = ok (addr % 4 == 0)
mem_access_aligned addr MemAccessType.d = ok (addr % 8 == 0)
mem_access_aligned addr (MemAccessType.reserved n) = err runtime_error

-- The switch of `LoadInsn`: the value loaded and the number of bytes read. The alignment test
-- before it has thrown on every other type.
unfoldable pub load_data : Memory → ℕ → MemAccessType → Result (ℕ × ℕ)
load_data mem addr MemAccessType.b = do raw ← get_8 mem addr; ok (widen 8 raw, 1)
load_data mem addr MemAccessType.bu = do raw ← get_8 mem addr; ok (raw, 1)
load_data mem addr MemAccessType.h = do raw ← get_16 mem addr; ok (widen 16 raw, 2)
load_data mem addr MemAccessType.hu = do raw ← get_16 mem addr; ok (raw, 2)
load_data mem addr MemAccessType.w = do raw ← get_32 mem addr; ok (widen 32 raw, 4)
load_data mem addr MemAccessType.wu = do raw ← get_32 mem addr; ok (raw, 4)
load_data mem addr MemAccessType.d = do raw ← get_64 mem addr; ok (raw, 8)
load_data mem addr (MemAccessType.reserved n) = err undefined_behaviour

pub load_step : Memory → ℕ → LoadInsn → Result StepResult
load_step mem addr insn = do
  (loaded, size) ← load_data mem addr insn.type
  ok (
      StepResult.normal (record normal_step {
        reg_writes = reg_write RegType.x insn.rd loaded ∷ [];
        mem_reads = mem_access addr loaded size ∷ [];
      }))

pub execute_load : Core → Memory → LoadInsn → Result StepResult
execute_load core mem insn = do
  rs1_val ← get_gpr core insn.rs1
  let addr = add64 rs1_val insn.imm
  aligned ← mem_access_aligned addr insn.type
  if aligned then load_step mem addr insn else ok (trap 4 addr)

-- The switch of `StoreInsn`: the value stored and its number of bytes.
unfoldable pub store_data : MemAccessType → ℕ → Result (ℕ × ℕ)
store_data MemAccessType.b val = ok (bit_and val 0xff, 1)
store_data MemAccessType.h val = ok (bit_and val 0xffff, 2)
store_data MemAccessType.w val = ok (bit_and val 0xffffffff, 4)
store_data MemAccessType.d val = ok (val, 8)
store_data _ val = err runtime_error

pub store_step : ℕ → ℕ → StoreInsn → Result StepResult
store_step addr val insn = do
  (stored, size) ← store_data insn.type val
  ok (StepResult.normal (record normal_step { mem_writes = mem_access addr stored size ∷ [] }))

pub execute_store : Core → StoreInsn → Result StepResult
execute_store core insn = do
  rs1_val ← get_gpr core insn.rs1
  let addr = add64 rs1_val insn.imm
  val ← get_gpr core insn.rs2
  aligned ← mem_access_aligned addr insn.type
  if aligned then store_step addr val insn else ok (trap 6 addr)

-- The switch of `OpImmInsn`.
pub op_imm_value : OpType → ℕ → ℕ → Result ℕ
op_imm_value OpType.add imm rs1 = ok (add64 imm rs1)
op_imm_value OpType.slt imm rs1 = ok (if lt_s64 rs1 imm then 1 else 0)
op_imm_value OpType.sltu imm rs1 = ok (if ltb rs1 imm then 1 else 0)
op_imm_value OpType.xor imm rs1 = ok (bit_xor rs1 imm)
op_imm_value OpType.or imm rs1 = ok (bit_or rs1 imm)
op_imm_value OpType.and imm rs1 = ok (bit_and rs1 imm)
op_imm_value OpType.sll imm rs1 = ok (u64 (rs1 <<< bit_and imm 0x3f))
op_imm_value OpType.srl imm rs1 = ok (rs1 >>> bit_and imm 0x3f)
op_imm_value OpType.sra imm rs1 = ok (sra64 rs1 (bit_and imm 0x3f))
op_imm_value _ imm rs1 = err runtime_error

pub execute_op_imm : Core → OpImmInsn → Result StepResult
execute_op_imm core insn = do
  rs1_val ← get_gpr core insn.rs1
  rd_val ← op_imm_value insn.type insn.imm rs1_val
  ok (writes (reg_write RegType.x insn.rd rd_val ∷ []))

-- The switch of `OpInsn`.
unfoldable pub op_value : OpType → ℕ → ℕ → Result ℕ
op_value OpType.add rs1 rs2 = ok (add64 rs1 rs2)
op_value OpType.sub rs1 rs2 = ok (sub64 rs1 rs2)
op_value OpType.slt rs1 rs2 = ok (if lt_s64 rs1 rs2 then 1 else 0)
op_value OpType.sltu rs1 rs2 = ok (if ltb rs1 rs2 then 1 else 0)
op_value OpType.xor rs1 rs2 = ok (bit_xor rs1 rs2)
op_value OpType.or rs1 rs2 = ok (bit_or rs1 rs2)
op_value OpType.and rs1 rs2 = ok (bit_and rs1 rs2)
op_value OpType.sll rs1 rs2 = ok (u64 (rs1 <<< bit_and rs2 0x3f))
op_value OpType.srl rs1 rs2 = ok (rs1 >>> bit_and rs2 0x3f)
op_value OpType.sra rs1 rs2 = ok (sra64 rs1 (bit_and rs2 0x3f))
op_value (OpType.reserved n) rs1 rs2 = err runtime_error
op_value type rs1 rs2 = MulDiv.execute type rs1 rs2

pub execute_op : Core → OpInsn → Result StepResult
execute_op core insn = do
  rs1_val ← get_gpr core insn.rs1
  rs2_val ← get_gpr core insn.rs2
  rd_val ← op_value insn.type rs1_val rs2_val
  ok (writes (reg_write RegType.x insn.rd rd_val ∷ []))

pub execute_misc_mem : MiscMemInsn → Result StepResult
execute_misc_mem insn = elim insn.type [
  | MiscMemInsnType.fence ↦ ok (writes [])
  | MiscMemInsnType.fence_i ↦ ok (writes [])
  | MiscMemInsnType.reserved _ ↦ err runtime_error
]
