-- ===== src/Decode/RoundTrip/Types.antt =====
-- Each enumerator is read back from the bits that stand for it.
use zinc_simulator.Prelude.{ℕ, ◌*◌, ◌/◌, ◌%◌, ◌^◌, ◌<◌, false, true, bit_or, ◌≡◌, refl, arith, ok}
use zinc_simulator.Insn.{
  BranchType, MemAccessType, OpType, MiscMemInsnType, OpFpType, RoundingMode, branch_type,
  mem_access_type, op_type, misc_mem_insn_type, rounding_mode,
}
use zinc_simulator.Decode.{op_fp_type, is_shift}
use zinc_simulator.Decode.Encoding.{
  op_funct3, op_funct7, is_op, is_imm_shift, is_imm_op, is_branch, branch_bits, is_access,
  mem_access_bits, misc_mem_bits, is_misc_mem, rounding_bits, is_rounding, op_fp_funct7, IsOpFp,
}

pub op_type-bits :
    (t : OpType) → is_op t ≡ true → op_type (bit_or (op_funct7 t * 2 ^ 3) (op_funct3 t)) ≡ t
unfolding op_type
op_type-bits OpType.add h = refl
op_type-bits (OpType.reserved n) h = cc
op_type-bits _ h = refl

pub op_bits-lt : (t : OpType) → is_op t ≡ true → (op_funct7 t < 2 ^ 7) × (op_funct3 t < 2 ^ 3)
op_bits-lt OpType.add h = omega arith
op_bits-lt (OpType.reserved n) h = cc
op_bits-lt _ h = omega arith

pub branch_type-bits : (t : BranchType) → is_branch t ≡ true → branch_type (branch_bits t) ≡ t
unfolding branch_type
branch_type-bits BranchType.eq h = refl
branch_type-bits (BranchType.reserved n) h = cc
branch_type-bits _ h = refl

pub branch_bits-lt : (t : BranchType) → is_branch t ≡ true → branch_bits t < 2 ^ 3
branch_bits-lt BranchType.eq h = omega arith
branch_bits-lt (BranchType.reserved n) h = cc
branch_bits-lt _ h = omega arith

pub mem_access_type-bits :
    (t : MemAccessType) → is_access t ≡ true → mem_access_type (mem_access_bits t) ≡ t
unfolding mem_access_type
mem_access_type-bits MemAccessType.b h = refl
mem_access_type-bits (MemAccessType.reserved n) h = cc
mem_access_type-bits _ h = refl

pub mem_access_bits-lt : (t : MemAccessType) → is_access t ≡ true → mem_access_bits t < 2 ^ 3
mem_access_bits-lt MemAccessType.b h = omega arith
mem_access_bits-lt (MemAccessType.reserved n) h = cc
mem_access_bits-lt _ h = omega arith

pub rounding_mode-bits :
    (t : RoundingMode) → is_rounding t ≡ true → rounding_mode (rounding_bits t) ≡ t
unfolding rounding_mode
rounding_mode-bits RoundingMode.rne h = refl
rounding_mode-bits (RoundingMode.reserved n) h = cc
rounding_mode-bits _ h = refl

pub rounding_bits-lt : (t : RoundingMode) → is_rounding t ≡ true → rounding_bits t < 2 ^ 3
rounding_bits-lt RoundingMode.rne h = omega arith
rounding_bits-lt (RoundingMode.reserved n) h = cc
rounding_bits-lt _ h = omega arith

pub misc_mem_insn_type-bits :
    (t : MiscMemInsnType)
    → is_misc_mem t ≡ true
    → (misc_mem_bits t < 2 ^ 3) × (misc_mem_insn_type (misc_mem_bits t) ≡ t)
unfolding misc_mem_insn_type
misc_mem_insn_type-bits MiscMemInsnType.fence h = (omega arith, refl)
misc_mem_insn_type-bits MiscMemInsnType.fence_i h = (omega arith, refl)
misc_mem_insn_type-bits (MiscMemInsnType.reserved n) h = cc

pub op_fp_funct7-lt : (t : OpFpType) → op_fp_funct7 t < 2 ^ 7
op_fp_funct7-lt OpFpType.add = omega arith
op_fp_funct7-lt _ = omega arith

pub op_fp_type-bits :
    (t : OpFpType) (funct3 rs2 : ℕ)
    → IsOpFp t funct3 rs2
    → op_fp_type (op_fp_funct7 t) funct3 rs2 ≡ ok t
unfolding op_fp_type
op_fp_type-bits OpFpType.sqrt f r h = rw h
op_fp_type-bits OpFpType.add f r h = refl
op_fp_type-bits OpFpType.sub f r h = refl
op_fp_type-bits OpFpType.mul f r h = refl
op_fp_type-bits OpFpType.div f r h = refl
op_fp_type-bits OpFpType.classify f r h = rw (h.1, h.0)
op_fp_type-bits OpFpType.move_to_x f r h = rw (h.1, h.0)
op_fp_type-bits OpFpType.move_from_x f r h = rw (h.1, h.0)
op_fp_type-bits _ f r h = rw h

-- What the immediate instructions make of an operation: a shift has funct3 1 or 5.
pub imm_op-bits :
    (t : OpType)
    → is_imm_op t ≡ true
    → (op_funct3 t < 2 ^ 3)
      × (is_imm_shift t ≡ false)
      × (is_shift (op_funct3 t) ≡ false)
      × (op_type (op_funct3 t) ≡ t)
unfolding is_shift op_type
imm_op-bits OpType.add h = (omega arith, refl, refl, refl)
imm_op-bits OpType.slt h = (omega arith, refl, refl, refl)
imm_op-bits OpType.sltu h = (omega arith, refl, refl, refl)
imm_op-bits OpType.xor h = (omega arith, refl, refl, refl)
imm_op-bits OpType.or h = (omega arith, refl, refl, refl)
imm_op-bits OpType.and h = (omega arith, refl, refl, refl)
imm_op-bits _ h = cc

pub imm_shift-bits :
    (t : OpType)
    → is_imm_shift t ≡ true
    → (op_funct3 t < 2 ^ 3)
      × (is_shift (op_funct3 t) ≡ true)
      × (op_funct7 t % 2 ≡ 0)
      × (op_funct7 t < 2 ^ 7)
      × (op_type (bit_or (op_funct7 t / 2 * 2 ^ 4) (op_funct3 t)) ≡ t)
      × (op_type (bit_or (op_funct7 t * 2 ^ 3) (op_funct3 t)) ≡ t)
unfolding is_shift op_type
imm_shift-bits OpType.sll h = (omega arith, refl, refl, omega arith, refl, refl)
imm_shift-bits OpType.srl h = (omega arith, refl, refl, omega arith, refl, refl)
imm_shift-bits OpType.sra h = (omega arith, refl, refl, omega arith, refl, refl)
imm_shift-bits _ h = cc
