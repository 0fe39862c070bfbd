-- ===== src/Execute/Step/Invariant.antt =====
-- The invariant of the hart and the memory under a whole step.
use zinc_simulator.Prelude.{IsFault, Ends, returns, throws, Ends-bind}
use zinc_simulator.Insn.{DecodedInsn}
use zinc_simulator.Decode.Bounds.{InRange}
use zinc_simulator.Memory.{Memory}
use zinc_simulator.Core.{Core}
use zinc_simulator.Core.Shape.{IsSound}
use zinc_simulator.Fpu.{Fpu}
use zinc_simulator.Execute.Bounds.{
  Fine, execute_jalr-Fine, execute_branch-Fine, execute_load-Fine, execute_store-Fine,
  execute_op_imm-Fine, execute_op-Fine, execute_op_imm_32-Fine, execute_op_32-Fine, lui-StepFits,
  auipc-StepFits, execute_jal-Fine, execute_misc_mem-Fine,
}
use zinc_simulator.Execute.System.Bounds.{execute_system-Fine}
use zinc_simulator.Fpu.Laws.{FpuLaws}
use zinc_simulator.Execute.Floating.Bounds.{
  execute_load_fp-Fine, execute_store_fp-Fine, execute_op_fp-Fine, execute_fma_fp-Fine,
}
use zinc_simulator.Execute.Step.{execute, step}
use zinc_simulator.Execute.Step.Preserve.{IsBytes, Sound, finish-Ends}

module _ (fpu : Fpu) (laws : FpuLaws fpu) (c : Core) (mem : Memory) (sound : IsSound c)
    (h : IsBytes mem) where
  execute-Fine : (insn : DecodedInsn) → InRange insn → Fine (execute fpu c mem insn)
  unfolding execute
  execute-Fine (DecodedInsn.lui i) (_, p) = returns (lui-StepFits i p)
  execute-Fine (DecodedInsn.auipc i) _ = returns (auipc-StepFits c sound i)
  execute-Fine (DecodedInsn.jal i) _ = execute_jal-Fine c sound i
  execute-Fine (DecodedInsn.jalr i) _ = execute_jalr-Fine c sound i
  execute-Fine (DecodedInsn.branch i) _ = execute_branch-Fine c sound i
  execute-Fine (DecodedInsn.load i) _ = execute_load-Fine c sound mem i h
  execute-Fine (DecodedInsn.store i) _ = execute_store-Fine c sound i
  execute-Fine (DecodedInsn.op_imm i) (_, _, p) = execute_op_imm-Fine c sound i p
  execute-Fine (DecodedInsn.op i) _ = execute_op-Fine c sound i
  execute-Fine (DecodedInsn.misc_mem i) _ = execute_misc_mem-Fine i
  execute-Fine (DecodedInsn.system i) (_, _, p, _) = execute_system-Fine c sound i p
  execute-Fine (DecodedInsn.op_imm_32 i) _ = execute_op_imm_32-Fine c sound i
  execute-Fine (DecodedInsn.op_32 i) _ = execute_op_32-Fine c sound i
  execute-Fine (DecodedInsn.load_fp i) _ = execute_load_fp-Fine c sound mem i h
  execute-Fine (DecodedInsn.store_fp i) _ = execute_store_fp-Fine c sound i
  execute-Fine (DecodedInsn.op_fp i) _ = execute_op_fp-Fine c sound fpu laws i
  execute-Fine (DecodedInsn.fma_fp i) _ = execute_fma_fp-Fine c sound fpu laws i
  execute-Fine DecodedInsn.invalid _ = throws tt

-- A step from a sound hart and memory, of an instruction in range and over an FPU that keeps its
-- laws, throws or ends in a sound hart and memory.
pub step-Ends :
    (fpu : Fpu) (c : Core) (mem : Memory) (insn : DecodedInsn)
    → FpuLaws fpu
    → IsSound c
    → IsBytes mem
    → InRange insn
    → Ends Sound IsFault (step fpu c mem insn)
unfolding step
step-Ends fpu c mem insn laws sound h p =
    Ends-bind (execute-Fine fpu laws c mem sound h insn p) (λ r q. finish-Ends c mem r sound h q)
