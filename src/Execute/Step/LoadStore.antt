-- ===== src/Execute/Step/LoadStore.antt =====
-- A load after a store of the same width: the value comes back, sign- or zero-extended.
use zinc_simulator.Prelude.{ℕ, ◌%◌, ◌^◌, ◌≡◌, arith, Result, ok, bit_and, ◌>>=◌}
use zinc_simulator.Word.{widen}
use zinc_simulator.Word.Fields.{and_low}
use zinc_simulator.Insn.{MemAccessType}
use zinc_simulator.Memory.{Memory}
use zinc_simulator.Memory.Access.{Width, size}
use zinc_simulator.Memory.Frame.{get-set}
use zinc_simulator.Execute.{load_data, store_data, mem_access}
use zinc_simulator.Execute.Step.{apply_mem_write}

-- The width that a store of each type has, and the value that a load of it shows.
abbrev pub width_of : MemAccessType → Width
width_of MemAccessType.b = Width.byte
width_of MemAccessType.bu = Width.byte
width_of MemAccessType.h = Width.half
width_of MemAccessType.hu = Width.half
width_of MemAccessType.w = Width.word
width_of MemAccessType.wu = Width.word
width_of _ = Width.double

abbrev pub loaded : MemAccessType → ℕ → ℕ
loaded MemAccessType.b v = widen 8 (v % 2 ^ 8)
loaded MemAccessType.bu v = v % 2 ^ 8
loaded MemAccessType.h v = widen 16 (v % 2 ^ 16)
loaded MemAccessType.hu v = v % 2 ^ 16
loaded MemAccessType.w v = widen 32 (v % 2 ^ 32)
loaded MemAccessType.wu v = v % 2 ^ 32
loaded _ v = v % 2 ^ 64

-- The type of the load without sign extension.
abbrev pub unsigned : MemAccessType → MemAccessType
unsigned MemAccessType.b = MemAccessType.bu
unsigned MemAccessType.h = MemAccessType.hu
unsigned MemAccessType.w = MemAccessType.wu
unsigned t = t

-- A store instruction's value, computed and written.
abbrev pub store_insn : MemAccessType → Memory → ℕ → ℕ → Result Memory
store_insn t m addr v = do (x, n) ← store_data t v; apply_mem_write m (mem_access addr x n)

-- After a store of a value, a load of the same type there returns the value cut off to the width
-- and sign-extended, and the load without sign extension returns it cut off.
pub load-store :
    (t : MemAccessType) (m m' : Memory) (addr v : ℕ)
    → store_insn t m addr v ≡ ok m'
    → let n = size (width_of t) in
      (load_data m' addr t ≡ ok (loaded t v, n))
      × (load_data m' addr (unsigned t) ≡ ok (v % 256 ^ n, n))
unfolding store_data apply_mem_write load_data
load-store MemAccessType.b m m' addr v q =
    let g = get-set Width.byte m addr (bit_and v 0xff) q in
    let e : bit_and v 0xff % 256 ≡ v % 256 = omega (arith, and_low 8 v) in (rw (g, e), rw (g, e))
load-store MemAccessType.h m m' addr v q =
    let g = get-set Width.half m addr (bit_and v 0xffff) q in
    let e : bit_and v 0xffff % 65536 ≡ v % 65536 = omega (arith, and_low 16 v) in
    (rw (g, e), rw (g, e))
load-store MemAccessType.w m m' addr v q =
    let g = get-set Width.word m addr (bit_and v 0xffffffff) q in
    let e : bit_and v 0xffffffff % 2 ^ 32 ≡ v % 2 ^ 32 = omega (arith, and_low 32 v) in
    (rw (g, e), rw (g, e))
load-store MemAccessType.d m m' addr v q = let g = get-set Width.double m addr v q in (rw g, rw g)
load-store MemAccessType.bu m m' addr v q = cc
load-store MemAccessType.hu m m' addr v q = cc
load-store MemAccessType.wu m m' addr v q = cc
load-store (MemAccessType.reserved n) m m' addr v q = cc
