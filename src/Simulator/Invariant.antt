-- ===== src/Simulator/Invariant.antt =====
-- The invariant of the hart and the memory under the loop of `main`.
use zinc_simulator.Prelude.{
  ℕ, zero, suc, arith, Bool, true, false, Result, Option, none, some, List, ◌∷◌, IsFault, Ends,
  returns, throws, Ends-bind,
}
use mathlib.Core.Option.{map}
use zinc_simulator.Insn.{DecodedInsn}
use zinc_simulator.Decode.Bounds.{InRange, IsRuntime, decode-Ends}
use zinc_simulator.Memory.{Memory}
use zinc_simulator.Memory.Access.{Width, get-Ends}
use zinc_simulator.Core.{Core}
use zinc_simulator.Core.Shape.{IsSound}
use zinc_simulator.Fpu.{Fpu}
use zinc_simulator.Fpu.Laws.{FpuLaws}
use zinc_simulator.Execute.Step.{Commit}
use zinc_simulator.Execute.Step.Preserve.{IsBytes}
use zinc_simulator.Execute.Step.Invariant.{step-Ends}
use zinc_simulator.Simulator.{valid_insn, cycle, run, next_turn}

any-IsFault : {A : Type 0} {P : A → Type 0} {r : Result A} → Ends P IsRuntime r → Ends P IsFault r
any-IsFault (returns p) = returns p
any-IsFault (throws e) = throws tt

valid_insn-Ends : (insn : DecodedInsn) → InRange insn → Ends InRange IsFault (valid_insn insn)
unfolding valid_insn
valid_insn-Ends DecodedInsn.invalid p = throws tt
valid_insn-Ends _ p = returns p

abbrev Cycle : Type 0
Cycle = Option Commit × Core × Memory × Bool

abbrev CycleSound : Cycle → Type 0
CycleSound (log, core, mem, done) = IsSound core × IsBytes mem

-- The hart and the memory in which the loop ended, if it did.
abbrev pub RunSound : Option (List (Option Commit) × Core × Memory) → Type 0
RunSound none = Unit {0}
RunSound (some (log, core, mem)) = IsSound core × IsBytes mem

module _ (fpu : Fpu) (laws : FpuLaws fpu) (tohost : ℕ) where
  cycle-Ends :
      (c : Core) (mem : Memory)
      → IsSound c
      → IsBytes mem
      → Ends CycleSound IsFault (cycle fpu tohost c mem)
  unfolding cycle
  cycle-Ends c mem sound h = Ends-bind (get-Ends Width.word mem c.pc h) (λ word p.
      Ends-bind (any-IsFault (decode-Ends word (omega arith))) (λ decoded q.
        Ends-bind (valid_insn-Ends decoded q) (λ insn q'.
          Ends-bind (step-Ends fpu c mem insn laws sound h q')
            (λ r s. Ends-bind (get-Ends Width.double r.2 tohost s.1) (λ flag _. returns s)))))

logged :
    (log : Option Commit) (found : Option (List (Option Commit) × Core × Memory))
    → RunSound found
    → RunSound (map (λ (r : List (Option Commit) × Core × Memory). (log ∷ r.0, r.1, r.2)) found)
logged log none p = tt
logged log (some r) p = p

ended-Ends :
    (done : Bool) (log : Option Commit) (c : Core) (mem : Memory)
    (rest : Result (Option (List (Option Commit) × Core × Memory)))
    → IsSound c
    → IsBytes mem
    → Ends RunSound IsFault rest
    → Ends RunSound IsFault (next_turn done log c mem rest)
unfolding next_turn
ended-Ends true log c mem rest sound h p = returns (sound, h)
ended-Ends false log c mem rest sound h p = Ends-bind p (λ found q. returns (logged log found q))

-- The loop, for any number of turns, from a sound hart and memory and over an FPU that keeps its
-- laws: it throws, or has not ended, or ends in a sound hart and memory.
pub run-Ends :
    (fuel : ℕ) (fpu : Fpu) (tohost : ℕ) (c : Core) (mem : Memory)
    → FpuLaws fpu
    → IsSound c
    → IsBytes mem
    → Ends RunSound IsFault (run fuel fpu tohost c mem)
unfolding run
run-Ends zero fpu tohost c mem laws sound h = returns tt
run-Ends (suc fuel) fpu tohost c mem laws sound h =
    Ends-bind (cycle-Ends fpu laws tohost c mem sound h)
      (λ r s. ended-Ends r.3 r.0 r.1 r.2 _ s.0 s.1 (run-Ends fuel fpu tohost r.1 r.2 laws s.0 s.1))
