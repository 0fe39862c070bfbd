-- ===== src/Simulator.antt =====
-- src/main.cpp: loading an ELF image and the loop that fetches, decodes and executes. The image is
-- what `ElfLoader::load` gives. The loop runs on fuel; `none` says that the fuel ran out.
pub mod Invariant
use zinc_simulator.Prelude.{
  ℕ, zero, suc, ◌+◌, ◌-◌, ◌*◌, ◌^◌, if◌then◌else◌, ◌!=◌, Result, ok, err, runtime_error, ◌>>=◌,
  Option, none, some, List, [], ◌∷◌, Bool, true, false,
}
use mathlib.Core.Option.{map}
use zinc_simulator.Word.{add64, sub64}
use zinc_simulator.Insn.{DecodedInsn}
use zinc_simulator.Decode.{decode}
use zinc_simulator.Memory.{Memory, length, load, clear, get_32, get_64}
use zinc_simulator.Memory
use zinc_simulator.Core.{Core}
use zinc_simulator.Core
use zinc_simulator.Fpu.{Fpu}
use zinc_simulator.Execute.Step.{Commit, step}

pub record ElfSegment : Type 0 where
  pub addr : ℕ
  pub size : ℕ
  pub contents : List ℕ

pub record ElfImage : Type 0 where
  pub entry : ℕ
  pub tohost : ℕ
  pub segments : List ElfSegment

abbrev pub mem_base : ℕ
mem_base = 0x80000000

abbrev pub mem_size : ℕ
mem_size = 128 * 1024 * 1024

-- The loop over the segments.
unfoldable pub load_segments : Memory → List ElfSegment → Result Memory
load_segments mem [] = ok mem
load_segments mem (seg ∷ segs) = do
  loaded ← load mem seg.addr seg.contents
  cleared ←
      clear loaded (add64 seg.addr (length seg.contents)) (sub64 seg.size (length seg.contents))
  load_segments cleared segs

-- The decoded instruction, unless it is invalid.
pub valid_insn : DecodedInsn → Result DecodedInsn
valid_insn DecodedInsn.invalid = err runtime_error
valid_insn insn = ok insn

-- One turn of the loop: the commit, the state after it, and whether the program has finished.
pub cycle : Fpu → ℕ → Core → Memory → Result (Option Commit × Core × Memory × Bool)
cycle fpu tohost core mem = do
  word ← get_32 mem core.pc
  decoded ← decode word
  insn ← valid_insn decoded
  (committed, core', mem') ← step fpu core mem insn
  flag ← get_64 mem' tohost
  ok (committed, core', mem', flag != 0)

-- What the loop leaves, after a turn that was the last one or not.
pub next_turn :
    Bool
    → Option Commit
    → Core
    → Memory
    → Result (Option (List (Option Commit) × Core × Memory))
    → Result (Option (List (Option Commit) × Core × Memory))
next_turn true committed core mem rest = ok (some (committed ∷ [], core, mem))
next_turn false committed core mem rest = do
  found ← rest
  ok (map (λ (r : List (Option Commit) × Core × Memory). (committed ∷ r.0, r.1, r.2)) found)

unfoldable pub run :
    ℕ → Fpu → ℕ → Core → Memory → Result (Option (List (Option Commit) × Core × Memory))
run zero fpu tohost core mem = ok none
run (suc fuel) fpu tohost core mem = do
  (committed, core', mem', done) ← cycle fpu tohost core mem
  next_turn done committed core' mem' (run fuel fpu tohost core' mem')

-- `main`, on memory that held `garbage` where the constructor of `Core` initialises nothing.
pub main : ℕ → Fpu → (ℕ → ℕ) → ElfImage → Result (Option (List (Option Commit) × Core × Memory))
main fuel fpu garbage image = do
  mem ← load_segments (Memory.new mem_base mem_size) image.segments
  run fuel fpu image.tohost (Core.new garbage image.entry) mem
