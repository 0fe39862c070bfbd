-- ===== src/Execute/Floating/Bounds.antt =====
-- The result of a floating-point instruction fits what the rest of a step asks of it, for an FPU
-- whose results have 64 bits and whose flags have five.
use zinc_simulator.Prelude.{
  ℕ, ◌^◌, ◌<◌, arith, Bool, Result, List, [], ◌∷◌, ◌++◌, AllBelow, IsFault, Ends, returns, Ends-if,
  Ends-bind,
}
use zinc_simulator.Word.{u32, add64}
use zinc_simulator.Word.Bits.{bit_or-lt}
use zinc_simulator.Insn.{OpFpType, RoundingMode, OpFpInsn, FmaFpInsn, LoadFpInsn, StoreFpInsn}
use zinc_simulator.Memory.{Memory}
use zinc_simulator.Memory.Access.{Width, get-Ends}
use zinc_simulator.Csr.{Csr}
use zinc_simulator.Core.{Core}
use zinc_simulator.Core.Shape.{IsSound}
use zinc_simulator.Core.Registers.{get_gpr-Ends, get_fpr-Ends, get_csr-Ends}
use zinc_simulator.Fpu.{Fpu, FpResult, FpClass}
use zinc_simulator.Fpu.Laws.{IsPacked, FpuLaws}
use zinc_simulator.Execute.{RegType, RegWrite}
use zinc_simulator.Execute.Bounds.{Fine, WritesFit, widen-lt, total-Ends}
use zinc_simulator.Execute.Floating.{
  execute_load_fp, execute_store_fp, resolve_rounding_mode, fp_flags, fp_result, class_bit,
  binary_operands, convert_from, op_fp_step, execute_op_fp, execute_fma_fp,
}

class_bit-lt : (k : FpClass) (sign : Bool) → class_bit k sign < 2 ^ 64
unfolding class_bit
class_bit-lt FpClass.infinity sign = ground arith
class_bit-lt FpClass.normal sign = ground arith
class_bit-lt FpClass.subnormal sign = ground arith
class_bit-lt FpClass.zero sign = ground arith
class_bit-lt FpClass.signaling_nan sign = omega arith
class_bit-lt FpClass.quiet_nan sign = omega arith

module _ (c : Core) (sound : IsSound c) where
  pub execute_load_fp-Fine :
      (mem : Memory) (i : LoadFpInsn) → AllBelow 256 mem.bytes → Fine (execute_load_fp c mem i)
  unfolding execute_load_fp
  execute_load_fp-Fine mem i h = Ends-bind (get_gpr-Ends c i.rs1 sound) (λ a p.
      Ends-bind (get-Ends Width.word mem (add64 a i.imm) h)
        (λ v q. returns (omega arith, omega arith, (omega arith, tt))))

  pub execute_store_fp-Fine : (i : StoreFpInsn) → Fine (execute_store_fp c i)
  unfolding execute_store_fp
  execute_store_fp-Fine i = Ends-bind (get_gpr-Ends c i.rs1 sound) (λ a p.
      Ends-bind (get_fpr-Ends c i.rs2 sound) (λ v q. returns (omega arith, omega arith, tt)))

  fp_flags-Ends : (r : FpResult) → r.flags < 2 ^ 5 → Ends WritesFit IsFault (fp_flags c r)
  unfolding fp_flags
  fp_flags-Ends r h =
      Ends-if _
        (Ends-bind (get_csr-Ends c Csr.fflags sound)
          (λ old p. returns (bit_or-lt 64 old r.flags p (omega arith), tt)))
        (returns tt)

  append : (ws vs : List RegWrite) → WritesFit ws → WritesFit vs → WritesFit (ws ++ vs)
  append [] vs p q = q
  append (w ∷ ws) vs (p, ps) q = (p, append ws vs ps q)

  fp_result-Fine :
      (type : RegType) (rd : ℕ) (r : Result FpResult) → IsPacked r → Fine (fp_result c type rd r)
  unfolding fp_result
  fp_result-Fine type rd r h = Ends-bind h (λ x p.
      Ends-bind (fp_flags-Ends x p.1)
        (λ ws q. returns (omega arith, omega arith, append ws _ q (p.0, tt))))

  module _ (fpu : Fpu) (laws : FpuLaws fpu) where
    binary_operands-Fine :
        (i : OpFpInsn) (type : RegType) (rm : RoundingMode) → Fine (binary_operands fpu c i type rm)
    unfolding binary_operands
    binary_operands-Fine i type rm = Ends-bind (get_fpr-Ends c i.rs1 sound) (λ a p.
        Ends-bind (get_fpr-Ends c i.rs2 sound)
          (λ b q. fp_result-Fine type i.rd _ (laws.binary_packed i.type a b rm)))

    convert_from-Fine :
        (i : OpFpInsn) (type : RegType) (source : Result ℕ) (rm : RoundingMode)
        → Fine (convert_from fpu c i type source rm)
    unfolding convert_from
    convert_from-Fine i type source rm =
        Ends-bind {Q = λ _. Unit {0}} (total-Ends source)
          (λ a p. fp_result-Fine type i.rd _ (laws.convert_packed i.type a rm))

    op_fp_step-Fine :
        (t : OpFpType) (i : OpFpInsn) (rm : RoundingMode) → Fine (op_fp_step fpu t c i rm)
    unfolding op_fp_step
    op_fp_step-Fine OpFpType.sqrt i rm =
        Ends-bind (get_fpr-Ends c i.rs1 sound)
          (λ a p. fp_result-Fine RegType.f i.rd _ (laws.unary_packed i.type a rm))
    op_fp_step-Fine OpFpType.cvt_w_from_s i rm = convert_from-Fine i RegType.x _ rm
    op_fp_step-Fine OpFpType.cvt_wu_from_s i rm = convert_from-Fine i RegType.x _ rm
    op_fp_step-Fine OpFpType.cvt_l_from_s i rm = convert_from-Fine i RegType.x _ rm
    op_fp_step-Fine OpFpType.cvt_lu_from_s i rm = convert_from-Fine i RegType.x _ rm
    op_fp_step-Fine OpFpType.eq i rm = binary_operands-Fine i RegType.x rm
    op_fp_step-Fine OpFpType.lt i rm = binary_operands-Fine i RegType.x rm
    op_fp_step-Fine OpFpType.le i rm = binary_operands-Fine i RegType.x rm
    op_fp_step-Fine OpFpType.cvt_s_to_w i rm = convert_from-Fine i RegType.f _ rm
    op_fp_step-Fine OpFpType.cvt_s_to_wu i rm = convert_from-Fine i RegType.f _ rm
    op_fp_step-Fine OpFpType.cvt_s_to_l i rm = convert_from-Fine i RegType.f _ rm
    op_fp_step-Fine OpFpType.cvt_s_to_lu i rm = convert_from-Fine i RegType.f _ rm
    op_fp_step-Fine OpFpType.classify i rm =
        Ends-bind (get_fpr-Ends c i.rs1 sound)
          (λ a p. returns (omega arith, omega arith, (class_bit-lt _ _, tt)))
    op_fp_step-Fine OpFpType.move_to_x i rm =
        Ends-bind (get_fpr-Ends c i.rs1 sound)
          (λ a p. returns (omega arith, omega arith, (widen-lt (u32 a) (omega arith), tt)))
    op_fp_step-Fine OpFpType.move_from_x i rm =
        Ends-bind (get_gpr-Ends c i.rs1 sound)
          (λ a p. returns (omega arith, omega arith, (omega arith, tt)))
    op_fp_step-Fine _ i rm = binary_operands-Fine i RegType.f rm

    pub execute_op_fp-Fine : (i : OpFpInsn) → Fine (execute_op_fp fpu c i)
    unfolding execute_op_fp
    execute_op_fp-Fine i =
        Ends-bind {Q = λ _. Unit {0}} (total-Ends (resolve_rounding_mode c i.rm))
          (λ rm _. op_fp_step-Fine i.type i rm)

    pub execute_fma_fp-Fine : (i : FmaFpInsn) → Fine (execute_fma_fp fpu c i)
    unfolding execute_fma_fp
    execute_fma_fp-Fine i =
        Ends-bind {Q = λ _. Unit {0}} (total-Ends (resolve_rounding_mode c i.rm)) (λ rm _.
          Ends-bind (get_fpr-Ends c i.rs1 sound) (λ a pa.
            Ends-bind (get_fpr-Ends c i.rs2 sound) (λ b pb.
              Ends-bind (get_fpr-Ends c i.rs3 sound)
                (λ d pd. fp_result-Fine RegType.f i.rd _ (laws.fma_packed i.type a b d rm)))))
