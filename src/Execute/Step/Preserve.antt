-- ===== src/Execute/Step/Preserve.antt =====
-- The invariant of the hart and of the memory under the writes of a step.
use zinc_simulator.Prelude.{
  ℕ, ◌-◌, ◌/◌, ◌^◌, ◌<◌, bit_and, bit_or, arith, Bool, true, false, if◌then◌else◌, Option, none,
  some, List, [], ◌∷◌, ◌++◌, AllBelow, IsFault, Ends, returns, throws, Ends-if, Ends-bind,
}
use zinc_simulator.Word.{u32, add64, not64}
use zinc_simulator.Word.Bits.{bit_or-lt}
use zinc_simulator.Word.Fields.{and_low, and_split}
use zinc_simulator.Memory.{Memory}
use zinc_simulator.Memory.Access.{Width, set-Ends, get-Ends}
use zinc_simulator.Csr.{
  Csr, csr_index, csr_of, Privilege, privilege_bits, mstatus_fs_dirty, mstatus_fs_mask,
}
use zinc_simulator.Core.{Core}
use zinc_simulator.Core.Shape.{IsSound, at_pc-IsWellFormed}
use zinc_simulator.Core.Trap.{take_exception_lem}
use zinc_simulator.Core.Registers.{set_gpr-Ends, set_fpr-Ends, set_csr-Ends, get_csr-Ends}
use zinc_simulator.Execute.{
  value_or, reg_write, RegType, RegWrite, MemAccess, NormalStep, StepResult,
}
use zinc_simulator.Execute.Bounds.{WritesFit, StepFits}
use zinc_simulator.Execute.Step.{
  drop_x0, expand_fcsr, dirty_fs, apply_write_to, apply_reg_writes, apply_mem_write,
  apply_mem_writes, commit, finish, Commit,
}

-- Every byte of the memory fits.
abbrev pub IsBytes : Memory → Type 0
IsBytes mem = AllBelow 256 mem.bytes

if-WritesFit :
    (b : Bool) (xs ys : List RegWrite)
    → WritesFit xs
    → WritesFit ys
    → WritesFit (if b then xs else ys)
if-WritesFit true xs ys p q = p
if-WritesFit false xs ys p q = q

drop_x0-WritesFit : (ws : List RegWrite) → WritesFit ws → WritesFit (drop_x0 ws)
unfolding drop_x0
drop_x0-WritesFit [] h = tt
drop_x0-WritesFit (w ∷ ws) (h, hs) =
    let rest = drop_x0-WritesFit ws hs in
    if-WritesFit _ (drop_x0 ws) (w ∷ drop_x0 ws) rest (h, rest)

expand_fcsr-WritesFit : (ws : List RegWrite) → WritesFit ws → WritesFit (expand_fcsr ws)
unfolding expand_fcsr
expand_fcsr-WritesFit [] h = tt
expand_fcsr-WritesFit (w ∷ ws) (h, hs) =
    let rest = expand_fcsr-WritesFit ws hs in
    if-WritesFit _
      (reg_write RegType.csr (csr_index Csr.fflags) (bit_and w.value 0x1f)
        ∷ reg_write RegType.csr (csr_index Csr.frm) (bit_and (w.value / 2 ^ 5) 0x7)
        ∷ expand_fcsr ws)
      (w ∷ expand_fcsr ws)
      (omega (arith, and_low 5 w.value), (omega (arith, and_low 3 (w.value / 2 ^ 5)), rest))
      (h, rest)

append-WritesFit :
    (ws : List RegWrite) (w : RegWrite)
    → WritesFit ws
    → w.value < 2 ^ 64
    → WritesFit (ws ++ (w ∷ []))
append-WritesFit [] w hs h = (h, tt)
append-WritesFit (v ∷ ws) w (hv, hs) h = (hv, append-WritesFit ws w hs h)

dirty-lt :
    (mstatus : ℕ) → bit_or (bit_and mstatus (not64 mstatus_fs_mask)) mstatus_fs_dirty < 2 ^ 64
dirty-lt mstatus =
    bit_or-lt 64 (bit_and mstatus (not64 mstatus_fs_mask)) mstatus_fs_dirty
      (omega (
        arith,
        and_split 15 mstatus (2 ^ 49 - 1) (2 ^ 13 - 1) (omega arith),
        and_low 49 (mstatus / 2 ^ 15),
        and_low 13 mstatus,
      ))
      (omega arith)

dirty_fs-Ends :
    (c : Core) (ws : List RegWrite)
    → IsSound c
    → WritesFit ws
    → Ends WritesFit IsFault (dirty_fs c ws)
unfolding dirty_fs
dirty_fs-Ends c ws sound h =
    Ends-if _
      (Ends-bind (get_csr-Ends c Csr.mstatus sound)
        (λ mstatus q. returns (if-WritesFit _ _ ws (append-WritesFit ws _ h (dirty-lt mstatus)) h)))
      (returns h)

apply_write_to-Ends :
    (t : RegType) (c : Core) (w : RegWrite)
    → IsSound c
    → w.value < 2 ^ 64
    → Ends (λ (r : RegWrite × Core). IsSound r.1) IsFault (apply_write_to t c w)
unfolding apply_write_to
apply_write_to-Ends RegType.x c w sound h =
    Ends-bind (set_gpr-Ends c w.num w.value sound h) (λ c' q. returns q)
apply_write_to-Ends RegType.csr c w sound h =
    Ends-bind (set_csr-Ends c (csr_of w.num) w.value sound h) (λ r q. returns q)
apply_write_to-Ends RegType.f c w sound h =
    Ends-bind (set_fpr-Ends c w.num (u32 w.value) sound) (λ c' q. returns q)

apply_reg_writes-Ends :
    (c : Core) (ws : List RegWrite)
    → IsSound c
    → WritesFit ws
    → Ends (λ (r : List RegWrite × Core). IsSound r.1) IsFault (apply_reg_writes c ws)
unfolding apply_reg_writes
apply_reg_writes-Ends c [] sound h = returns sound
apply_reg_writes-Ends c (w ∷ ws) sound (h, hs) =
    Ends-bind (apply_write_to-Ends w.type c w sound h)
      (λ r q. Ends-bind (apply_reg_writes-Ends r.1 ws q hs) (λ r' q'. returns q'))

apply_mem_write-Ends :
    (mem : Memory) (w : MemAccess) → IsBytes mem → Ends IsBytes IsFault (apply_mem_write mem w)
unfolding apply_mem_write
apply_mem_write-Ends mem w h = Ends-if _ (set-Ends Width.byte mem w.addr w.value h) (
    Ends-if _ (set-Ends Width.half mem w.addr w.value h) (
      Ends-if _ (set-Ends Width.word mem w.addr w.value h)
        (Ends-if _ (set-Ends Width.double mem w.addr w.value h) (throws tt))))

apply_mem_writes-Ends :
    (mem : Memory) (ws : List MemAccess)
    → IsBytes mem
    → Ends IsBytes IsFault (apply_mem_writes mem ws)
unfolding apply_mem_writes
apply_mem_writes-Ends mem [] h = returns h
apply_mem_writes-Ends mem (w ∷ ws) h =
    Ends-bind (apply_mem_write-Ends mem w h) (λ mem' q. apply_mem_writes-Ends mem' ws q)

-- The hart and the memory after a step are sound.
abbrev pub Sound : Option Commit × Core × Memory → Type 0
Sound (log, core, mem) = IsSound core × IsBytes mem

value_or-lt : (v : Option ℕ) (d m : ℕ) → value_or v 0 < m → d < m → value_or v d < m
value_or-lt none d m p q = q
value_or-lt (some x) d m p q = p

value_or-privilege :
    (v : Option Privilege) (d : Privilege)
    → privilege_bits (value_or v Privilege.machine) < 4
    → privilege_bits d < 4
    → privilege_bits (value_or v d) < 4
value_or-privilege none d p q = q
value_or-privilege (some x) d p q = p

commit-Ends :
    (c : Core) (mem : Memory) (r : NormalStep)
    → IsSound c
    → IsBytes mem
    → StepFits (StepResult.normal r)
    → Ends Sound IsFault (commit c mem r)
unfolding commit
commit-Ends c mem r sound h (hpc, hpriv, hw) =
    let (wf, hp) = sound in
    let moved = record c {
      pc = value_or r.next_pc (add64 c.pc 4);
      priv = value_or r.next_privilege c.priv;
    } in
    let sound' : IsSound moved = (
      at_pc-IsWellFormed c moved.pc moved.priv wf
          (value_or-lt r.next_pc (add64 c.pc 4) (2 ^ 64) hpc (omega arith)),
      value_or-privilege r.next_privilege c.priv hpriv hp,
    ) in
    let writes = expand_fcsr-WritesFit _ (drop_x0-WritesFit r.reg_writes hw) in
    Ends-bind (get-Ends Width.word mem c.pc h) (λ raw _.
      Ends-bind (dirty_fs-Ends c _ sound writes) (λ ws q.
        Ends-bind (apply_reg_writes-Ends moved ws sound' q) (λ applied q'.
          Ends-bind (apply_mem_writes-Ends mem r.mem_writes h) (λ mem' q''. returns (q', q'')))))

pub finish-Ends :
    (c : Core) (mem : Memory) (r : StepResult)
    → IsSound c
    → IsBytes mem
    → StepFits r
    → Ends Sound IsFault (finish c mem r)
unfolding finish
finish-Ends c mem (StepResult.normal r) sound h fits = commit-Ends c mem r sound h fits
finish-Ends c mem (StepResult.exception ex) (wf, hp) h (h1, h2) =
    let (e, wf') = take_exception_lem c ex wf hp h1 h2 in rw e (returns ((wf', omega arith), h))
