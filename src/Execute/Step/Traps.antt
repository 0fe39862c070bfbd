-- ===== src/Execute/Step/Traps.antt =====
-- The steps that trap, and what the hart looks like afterwards.
use zinc_simulator.Prelude.{ℕ, ◌%◌, ◌<◌, ◌≡◌, ◌≢◌, ◌==◌, ap, arith, Bool, ◌||◌, false, ok, none}
use zinc_simulator.Word.{add64}
use zinc_simulator.Insn.{MemAccessType, DecodedInsn, LoadInsn, StoreInsn}
use zinc_simulator.Memory.{Memory}
use zinc_simulator.Core.{Core, Exception}
use zinc_simulator.Core.Shape.{IsSound}
use zinc_simulator.Core.Registers.{get_gpr-at}
use zinc_simulator.Core.Trap.{trapped, take_exception_lem}
use zinc_simulator.Fpu.{Fpu}
use zinc_simulator.Execute.{execute_load, execute_store, mem_access_aligned}
use zinc_simulator.Execute.Step.{step, execute, finish}

abbrev fault : ℕ → ℕ → Exception
fault mcause mtval = record { mcause = mcause; mtval = mtval }

-- The bytes that a load or a store of a type moves.
abbrev pub width_of : MemAccessType → ℕ
width_of MemAccessType.b = 1
width_of MemAccessType.bu = 1
width_of MemAccessType.h = 2
width_of MemAccessType.hu = 2
width_of MemAccessType.w = 4
width_of MemAccessType.wu = 4
width_of MemAccessType.d = 8
width_of (MemAccessType.reserved n) = 1

misaligned :
    (addr : ℕ) (t : MemAccessType) → addr % width_of t ≢ 0 → mem_access_aligned addr t ≡ ok false
unfolding mem_access_aligned
misaligned addr MemAccessType.b h = absurd (h (omega arith))
misaligned addr MemAccessType.bu h = absurd (h (omega arith))
misaligned addr MemAccessType.h h = ap ok (ground arith)
misaligned addr MemAccessType.hu h = ap ok (ground arith)
misaligned addr MemAccessType.w h = ap ok (ground arith)
misaligned addr MemAccessType.wu h = ap ok (ground arith)
misaligned addr MemAccessType.d h = ap ok (ground arith)
misaligned addr (MemAccessType.reserved n) h = absurd (h (omega arith))

-- The numbers of the CSRs that exist.
abbrev pub is_implemented : ℕ → Bool
is_implemented n =
    n == 0x001
    || n == 0x002
    || n == 0x003
    || n == 0x300
    || n == 0x304
    || n == 0x305
    || n == 0x340
    || n == 0x341
    || n == 0x342
    || n == 0x343
    || n == 0x3a0
    || n == 0x3b0
    || n == 0xf14

module _ (fpu : Fpu) (c : Core) (mem : Memory) (sound : IsSound c) where
  -- A load and a store at an address that is not a multiple of their width trap with causes 4 and 6
  -- and the address, and leave the memory alone.
  pub step_misaligned :
      (i : LoadInsn) (j : StoreInsn)
      → i.rs1 < 32
      → j.rs1 < 32
      → j.rs2 < 32
      → add64 (c.gprs.at i.rs1) i.imm % width_of i.type ≢ 0
      → add64 (c.gprs.at j.rs1) j.imm % width_of j.type ≢ 0
      → (step fpu c mem (DecodedInsn.load i)
          ≡ ok (none, trapped c (fault 4 (add64 (c.gprs.at i.rs1) i.imm)), mem))
        × (step fpu c mem (DecodedInsn.store j)
            ≡ ok (none, trapped c (fault 6 (add64 (c.gprs.at j.rs1) j.imm)), mem))
  unfolding step execute finish execute_load execute_store
  step_misaligned i j h1 h2 h3 p q =
      let (wf, hp) = sound in
      (
        rw (
          get_gpr-at c i.rs1 wf h1,
          misaligned (add64 (c.gprs.at i.rs1) i.imm) i.type p,
          (take_exception_lem c (fault 4 (add64 (c.gprs.at i.rs1) i.imm)) wf hp (omega arith)
              (omega arith)).0,
        ),
        rw (
          get_gpr-at c j.rs1 wf h2,
          get_gpr-at c j.rs2 wf h3,
          misaligned (add64 (c.gprs.at j.rs1) j.imm) j.type q,
          (take_exception_lem c (fault 6 (add64 (c.gprs.at j.rs1) j.imm)) wf hp (omega arith)
              (omega arith)).0,
        ),
      )
