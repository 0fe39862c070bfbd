-- ===== src/Execute/Step/Outcomes.antt =====
-- What a step does, format by format.
use zinc_simulator.Prelude.{
  ℕ, ◌-◌, ◌^◌, arith, refl, err, undefined_behaviour, ◌<◌, ◌≡◌, Bool, true, false, Bool-cases, inl,
  inr, ok, if◌then◌else◌, ◌==◌, Option, none, some, List, [], ◌∷◌, update,
}
use zinc_simulator.Word.{add64, signed}
use zinc_simulator.Insn.{DecodedInsn, JalInsn, BranchInsn, OpInsn}
use zinc_simulator.Memory.{Memory, get_32}
use zinc_simulator.Core.{Core}
use zinc_simulator.Core.Shape.{IsWellFormed}
use zinc_simulator.Core.Registers.{get_gpr-at, set_gpr-at}
use zinc_simulator.Fpu.{Fpu}
use zinc_simulator.Execute.{
  RegType, RegWrite, reg_write, normal_step, execute_op, op_value, execute_branch, should_branch,
  execute_jal, add_s64, fits_s64,
}
use zinc_simulator.Prelude.Int.{ℤ, pos, pos_part, neg_part, ltb_ℤ, ◌+ℤ◌}
use zinc_simulator.Execute.Step.{
  Commit, commit, finish, step, execute, drop_x0, expand_fcsr, dirty_fs, writes_fp_state,
  is_fp_write, apply_reg_writes, apply_write_to, apply_mem_writes,
}

-- The hart after a write of a general register and a move to another address.
abbrev pub advanced : Core → ℕ → ℕ → ℕ → Core
advanced c pc rd value = record c {
  pc = pc;
  gprs = if rd == 0 then c.gprs else record { size = c.gprs.size; at = update c.gprs.at rd value };
}

-- The report of a step that ran at the address of the hart.
abbrev pub report : Core → ℕ → List RegWrite → Commit
report c raw ws = record {
  pc = c.pc;
  insn = raw;
  priv = c.priv;
  reg_writes = ws;
  mem_reads = [];
  mem_writes = [];
}

commit-x :
    (c : Core) (mem : Memory) (raw rd value : ℕ) (next : Option ℕ)
    → IsWellFormed c
    → rd < 32
    → get_32 mem c.pc ≡ ok raw
    → commit c mem
        (record normal_step { next_pc = next; reg_writes = reg_write RegType.x rd value ∷ [] })
      ≡ ok (
        some (report c raw (if rd == 0 then [] else reg_write RegType.x rd value ∷ [])),
        advanced c (elim next [ none ↦ add64 c.pc 4 | some pc ↦ pc ]) rd value,
        mem,
      )
unfolding commit drop_x0 expand_fcsr dirty_fs writes_fp_state is_fp_write apply_reg_writes
    apply_write_to apply_mem_writes
commit-x c mem raw rd value none wf h e =
    let moved = record c { pc = add64 c.pc 4 } in
    elim (Bool-cases (rd == 0)) [
      | inl z ↦ rw (e, z)
      | inr z ↦ rw (e, z, set_gpr-at moved rd value wf.gprs_size h z)
    ]
commit-x c mem raw rd value (some pc) wf h e =
    let moved = record c { pc = pc } in
    elim (Bool-cases (rd == 0)) [
      | inl z ↦ rw (e, z)
      | inr z ↦ rw (e, z, set_gpr-at moved rd value wf.gprs_size h z)
    ]

commit-none :
    (c : Core) (mem : Memory) (raw : ℕ) (next : Option ℕ)
    → get_32 mem c.pc ≡ ok raw
    → commit c mem (record normal_step { next_pc = next })
      ≡ ok (
        some (report c raw []),
        record c { pc = elim next [ none ↦ add64 c.pc 4 | some pc ↦ pc ] },
        mem,
      )
unfolding commit drop_x0 expand_fcsr dirty_fs writes_fp_state apply_reg_writes apply_mem_writes
commit-none c mem raw none e = rw e
commit-none c mem raw (some pc) e = rw e

-- The pattern of 64 bits that stands for an integer.
abbrev pub pattern_of : ℤ → ℕ
pattern_of z = if ltb_ℤ z (pos 0) then 2 ^ 64 - neg_part z else pos_part z

add64-pattern_of :
    (a b : ℕ)
    → a < 2 ^ 64
    → b < 2 ^ 64
    → fits_s64 (signed 64 a +ℤ signed 64 b) ≡ true
    → add64 a b ≡ pattern_of (signed 64 a +ℤ signed 64 b)
unfolding ◌+ℤ◌
add64-pattern_of a b ha hb fits = ground arith

module _ (fpu : Fpu) (c : Core) (mem : Memory) (raw : ℕ) (wf : IsWellFormed c)
    (e : get_32 mem c.pc ≡ ok raw) where
  -- A branch goes to its target or to the next instruction, as its test of the two registers says,
  -- and changes nothing else.
  pub step-branch :
      (i : BranchInsn) (taken : Bool)
      → i.rs1 < 32
      → i.rs2 < 32
      → should_branch i.type (c.gprs.at i.rs1) (c.gprs.at i.rs2) ≡ ok taken
      → step fpu c mem (DecodedInsn.branch i)
        ≡ ok
            (some (report c raw []), record c { pc = add64 c.pc (if taken then i.imm else 4) }, mem)
  unfolding step execute finish execute_branch
  step-branch i taken h1 h2 t =
      rw (get_gpr-at c i.rs1 wf h1, get_gpr-at c i.rs2 wf h2, t) (by_case taken)
    where
      by_case :
          (b : Bool)
          → commit c mem
              (record normal_step { next_pc = if b then some (add64 c.pc i.imm) else none })
            ≡ ok
                (some (report c raw []), record c { pc = add64 c.pc (if b then i.imm else 4) }, mem)
      by_case true = commit-none c mem raw (some (add64 c.pc i.imm)) e
      by_case false = commit-none c mem raw none e

  -- JAL writes the address of the next instruction to its destination, unless that is x0, goes to
  -- its target, the sum of the address and the offset as signed integers, and changes nothing else;
  -- where that sum is not a signed integer of 64 bits, it is undefined behaviour.
  pub step-jal :
      (i : JalInsn)
      → i.rd < 32
      → i.imm < 2 ^ 64
      → let target = signed 64 c.pc +ℤ signed 64 i.imm in
        step fpu c mem (DecodedInsn.jal i) ≡ (
          if fits_s64 target
          then ok (
            some (
                report c raw
                  (if i.rd == 0 then [] else reg_write RegType.x i.rd (add64 c.pc 4) ∷ [])),
            advanced c (pattern_of target) i.rd (add64 c.pc 4),
            mem,
          )
          else err undefined_behaviour)
  unfolding step execute finish execute_jal add_s64
  step-jal i h lt = elim (Bool-cases (fits_s64 (signed 64 c.pc +ℤ signed 64 i.imm))) [
    | inl fits ↦
        let same : add64 c.pc i.imm ≡ pattern_of (signed 64 c.pc +ℤ signed 64 i.imm) =
          add64-pattern_of c.pc i.imm wf.pc_fits lt fits in
        rw (fits, same)
          (commit-x c mem raw i.rd (add64 c.pc 4)
            (some (pattern_of (signed 64 c.pc +ℤ signed 64 i.imm))) wf h e)
    | inr over ↦ rw over refl
  ]

  -- A register-register instruction whose operation yields a value writes it to the destination,
  -- unless that is x0, moves to the next instruction and changes nothing else.
  pub step-op :
      (i : OpInsn) (value : ℕ)
      → i.rd < 32
      → i.rs1 < 32
      → i.rs2 < 32
      → op_value i.type (c.gprs.at i.rs1) (c.gprs.at i.rs2) ≡ ok value
      → step fpu c mem (DecodedInsn.op i)
        ≡ ok (
          some (report c raw (if i.rd == 0 then [] else reg_write RegType.x i.rd value ∷ [])),
          advanced c (add64 c.pc 4) i.rd value,
          mem,
        )
  unfolding step execute finish execute_op
  step-op i value h h1 h2 t =
      rw (get_gpr-at c i.rs1 wf h1, get_gpr-at c i.rs2 wf h2, t)
        (commit-x c mem raw i.rd value none wf h e)
