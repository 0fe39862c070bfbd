-- ===== src/Execute/Bounds.antt =====
-- The result of each instruction fits what the rest of a step asks of it.
use zinc_simulator.Prelude.Int.{◌+ℤ◌}
use zinc_simulator.Word.{signed}
use zinc_simulator.Prelude.{
  ℕ, ◌^◌, ◌<◌, arith, Bool, true, false, Result, ok, err, if◌then◌else◌, none, some, List, [], ◌∷◌,
  AllBelow, IsFault, Ends, returns, throws, Ends-if, Ends-bind,
}
use zinc_simulator.Word.{u32, add64, widen}
use zinc_simulator.Insn.{
  MemAccessType, LuiInsn, AuipcInsn, JalInsn, BranchInsn, JalrInsn, LoadInsn, StoreInsn, OpImmInsn,
  OpInsn, MiscMemInsn, MiscMemInsnType, OpImm32Insn, Op32Insn,
}
use zinc_simulator.Memory.{Memory}
use zinc_simulator.Memory.Access.{Width, get-Ends}
use zinc_simulator.Csr.{Privilege, privilege_bits}
use zinc_simulator.Core.{Core}
use zinc_simulator.Core.Shape.{IsSound}
use zinc_simulator.Core.Registers.{get_gpr-Ends}
use zinc_simulator.Execute.{
  value_or, RegWrite, StepResult, execute_lui, execute_auipc, execute_jal, add_s64, fits_s64,
  execute_jalr, execute_branch, execute_load, load_step, load_data, execute_store, store_step,
  store_data, execute_op_imm, execute_op, execute_misc_mem, should_branch, mem_access_aligned,
}
use zinc_simulator.Execute.Words.{execute_op_imm_32, execute_op_32}
use zinc_simulator.Execute.Values.{
  op_imm_value-Ends, op_value-Ends, op_imm_32_value-Ends, op_32_value-Ends,
}

-- The values of the writes have 64 bits.
abbrev pub WritesFit : List RegWrite → Type 0
WritesFit [] = Unit {0}
WritesFit (w ∷ ws) = (w.value < 2 ^ 64) × WritesFit ws

-- What the rest of `step` needs of a result.
abbrev pub StepFits : StepResult → Type 0
StepFits (StepResult.exception ex) = (ex.mcause < 2 ^ 64) × (ex.mtval < 2 ^ 64)
StepFits (StepResult.normal r) =
    (value_or r.next_pc 0 < 2 ^ 64)
    × (privilege_bits (value_or r.next_privilege Privilege.machine) < 4)
    × WritesFit r.reg_writes

abbrev pub Fine : Result StepResult → Type 0
Fine r = Ends StepFits IsFault r

pub widen-lt : (x : ℕ) → x < 2 ^ 32 → widen 32 x < 2 ^ 64
widen-lt x h = ground arith

-- Any result ends somehow.
pub total-Ends : {A : Type 0} (r : Result A) → Ends (λ _. Unit {0}) IsFault r
total-Ends (ok v) = returns tt
total-Ends (err e) = throws tt

module _ (c : Core) (sound : IsSound c) where
  pub execute_jalr-Fine : (i : JalrInsn) → Fine (execute_jalr c i)
  unfolding execute_jalr
  execute_jalr-Fine i =
      Ends-bind (get_gpr-Ends c i.rs1 sound)
        (λ v q. returns ((omega arith), (omega arith), ((omega arith), tt)))

  taken-lt : (b : Bool) (pc : ℕ) → pc < 2 ^ 64 → value_or (if b then some pc else none) 0 < 2 ^ 64
  taken-lt true pc h = h
  taken-lt false pc h = omega arith

  pub execute_branch-Fine : (i : BranchInsn) → Fine (execute_branch c i)
  unfolding execute_branch
  execute_branch-Fine i = Ends-bind (get_gpr-Ends c i.rs1 sound) (λ a qa.
      Ends-bind (get_gpr-Ends c i.rs2 sound) (λ b qb.
        Ends-bind {Q = λ _. Unit {0}} (total-Ends (should_branch i.type a b))
          (λ taken _. returns (taken-lt taken (add64 c.pc i.imm) (omega arith), omega arith, tt))))

  pub execute_op_imm-Fine : (i : OpImmInsn) → i.imm < 2 ^ 64 → Fine (execute_op_imm c i)
  unfolding execute_op_imm
  execute_op_imm-Fine i h = Ends-bind (get_gpr-Ends c i.rs1 sound) (λ a qa.
      Ends-bind (op_imm_value-Ends i.imm a h qa i.type)
        (λ v q. returns ((omega arith), (omega arith), (q, tt))))

  pub execute_op-Fine : (i : OpInsn) → Fine (execute_op c i)
  unfolding execute_op
  execute_op-Fine i = Ends-bind (get_gpr-Ends c i.rs1 sound) (λ a qa.
      Ends-bind (get_gpr-Ends c i.rs2 sound) (λ b qb.
        Ends-bind (op_value-Ends a b qa qb i.type)
          (λ v q. returns ((omega arith), (omega arith), (q, tt)))))

  pub execute_op_imm_32-Fine : (i : OpImm32Insn) → Fine (execute_op_imm_32 c i)
  unfolding execute_op_imm_32
  execute_op_imm_32-Fine i = Ends-bind (get_gpr-Ends c i.rs1 sound) (λ a qa.
      Ends-bind (op_imm_32_value-Ends (u32 i.imm) (u32 a) (omega arith) (omega arith) i.type)
        (λ v q. returns ((omega arith), (omega arith), (widen-lt v q, tt))))

  pub execute_op_32-Fine : (i : Op32Insn) → Fine (execute_op_32 c i)
  unfolding execute_op_32
  execute_op_32-Fine i = Ends-bind (get_gpr-Ends c i.rs1 sound) (λ a qa.
      Ends-bind (get_gpr-Ends c i.rs2 sound) (λ b qb.
        Ends-bind (op_32_value-Ends (u32 a) (u32 b) (omega arith) (omega arith) i.type)
          (λ v q. returns ((omega arith), (omega arith), (widen-lt v q, tt)))))

  load_data-Ends :
      (mem : Memory) (addr : ℕ) (t : MemAccessType)
      → AllBelow 256 mem.bytes
      → Ends (λ (r : ℕ × ℕ). r.0 < 2 ^ 64) IsFault (load_data mem addr t)
  unfolding load_data
  load_data-Ends mem addr MemAccessType.b h =
      Ends-bind (get-Ends Width.byte mem addr h)
        (λ v q. returns {a = (widen 8 v, 1)} (ground arith))
  load_data-Ends mem addr MemAccessType.bu h =
      Ends-bind (get-Ends Width.byte mem addr h) (λ v q. returns {a = (v, 1)} (omega arith))
  load_data-Ends mem addr MemAccessType.h h =
      Ends-bind (get-Ends Width.half mem addr h)
        (λ v q. returns {a = (widen 16 v, 2)} (ground arith))
  load_data-Ends mem addr MemAccessType.hu h =
      Ends-bind (get-Ends Width.half mem addr h) (λ v q. returns {a = (v, 2)} (omega arith))
  load_data-Ends mem addr MemAccessType.w h =
      Ends-bind (get-Ends Width.word mem addr h)
        (λ v q. returns {a = (widen 32 v, 4)} (ground arith))
  load_data-Ends mem addr MemAccessType.wu h =
      Ends-bind (get-Ends Width.word mem addr h) (λ v q. returns {a = (v, 4)} (omega arith))
  load_data-Ends mem addr MemAccessType.d h =
      Ends-bind (get-Ends Width.double mem addr h) (λ v q. returns {a = (v, 8)} (omega arith))
  load_data-Ends mem addr (MemAccessType.reserved n) h = throws tt

  pub execute_load-Fine :
      (mem : Memory) (i : LoadInsn) → AllBelow 256 mem.bytes → Fine (execute_load c mem i)
  unfolding execute_load load_step
  execute_load-Fine mem i h = Ends-bind (get_gpr-Ends c i.rs1 sound) (λ a qa.
      Ends-bind {Q = λ _. Unit {0}} (total-Ends (mem_access_aligned (add64 a i.imm) i.type))
        (λ aligned _.
          Ends-if aligned
            (Ends-bind (load_data-Ends mem (add64 a i.imm) i.type h)
              (λ r q. returns ((omega arith), (omega arith), (q, tt))))
            (returns ((omega arith), (omega arith)))))

  pub execute_store-Fine : (i : StoreInsn) → Fine (execute_store c i)
  unfolding execute_store store_step
  execute_store-Fine i = Ends-bind (get_gpr-Ends c i.rs1 sound) (λ a qa.
      Ends-bind (get_gpr-Ends c i.rs2 sound) (λ b qb.
        Ends-bind {Q = λ _. Unit {0}} (total-Ends (mem_access_aligned (add64 a i.imm) i.type))
          (λ aligned _.
            Ends-if aligned
              (Ends-bind {Q = λ _. Unit {0}} (total-Ends (store_data i.type b))
                (λ r q. returns ((omega arith), (omega arith), tt)))
              (returns ((omega arith), (omega arith))))))

pub lui-StepFits : (i : LuiInsn) → i.imm < 2 ^ 64 → StepFits (execute_lui i)
unfolding execute_lui
lui-StepFits i h = (omega arith, omega arith, (h, tt))

pub auipc-StepFits : (c : Core) → IsSound c → (i : AuipcInsn) → StepFits (execute_auipc c i)
unfolding execute_auipc
auipc-StepFits c sound i = (omega arith, omega arith, (omega arith, tt))

pub execute_jal-Fine : (c : Core) → IsSound c → (i : JalInsn) → Fine (execute_jal c i)
unfolding execute_jal add_s64
execute_jal-Fine c sound i =
    Ends-bind {Q = λ (pc : ℕ). pc < 2 ^ 64}
      (Ends-if (fits_s64 (signed 64 c.pc +ℤ signed 64 i.imm)) (returns (omega arith)) (throws tt))
      (λ pc h. returns (h, omega arith, (omega arith, tt)))

misc_mem-Fine : (t : MiscMemInsnType) → Fine (execute_misc_mem (record { type = t }))
unfolding execute_misc_mem
misc_mem-Fine MiscMemInsnType.fence = returns (omega arith, omega arith, tt)
misc_mem-Fine MiscMemInsnType.fence_i = returns (omega arith, omega arith, tt)
misc_mem-Fine (MiscMemInsnType.reserved n) = throws tt

pub execute_misc_mem-Fine : (i : MiscMemInsn) → Fine (execute_misc_mem i)
execute_misc_mem-Fine i = misc_mem-Fine i.type
