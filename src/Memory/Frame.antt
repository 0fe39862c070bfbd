-- ===== src/Memory/Frame.antt =====
-- What a write to RAM changes, and what it leaves alone.
use native.Mathlib.Nat.{mod-mod}
use zinc_simulator.Prelude.{
  ℕ, ◌+◌, ◌*◌, ◌%◌, ◌^◌, ◌<◌, ◌≡◌, refl, ap, ◌∙◌, sym, arith, ok, err, AllBelow, assert_failed,
  undefined_behaviour, ◌↔◌, ◌≢◌,
}
use zinc_simulator.Word.{add64}
use zinc_simulator.Memory.{Memory, offset_of, bytes_at, get_32, get_64, get_element}
use zinc_simulator.Memory.Bytes.{
  Apart, bytes_at-store_at, bytes_at-store_at-Apart, bytes_at-add, store_at-lt,
}
use zinc_simulator.Memory.Access.{
  Width, size, get, set, start, IsMapped, IsValid, written, get-valid, set-ok, get-eq, get-ok,
}

-- Whatever a write of any width stores, a read of that width at that address returns, cut off to
-- the width.
pub get-set :
    (w : Width) (m : Memory) (addr v : ℕ) {m' : Memory}
    → set w m addr v ≡ ok m'
    → get w m' addr ≡ ok (v % 256 ^ size w)
unfolding offset_of
get-set w m addr v e =
    let (valid, same) = set-ok w m addr v e in
    let i = start (size w) (offset_of m addr) in
    let low = v % 256 ^ size w in
    rw same (
      get-valid w (written w m addr v) addr valid
      ∙ ap ok (bytes_at-store_at (size w) m.bytes.at i low ∙ mod-mod v (256 ^ size w)))

-- The bytes that an access of width `w` at `addr` touches, and those of one of width `w'` at
-- `addr'`, do not meet.
abbrev pub AreApart : Memory → Width → ℕ → Width → ℕ → Type 0
AreApart m w addr w' addr' =
    Apart (start (size w) (offset_of m addr)) (size w) (start (size w') (offset_of m addr'))
      (size w')

get_element-written :
    (k : ℕ) (w : Width) (m : Memory) (addr o v : ℕ)
    → Apart (start (size w) (offset_of m addr)) (size w) (start k o) k
    → get_element k (written w m addr v) o ≡ get_element k m o
unfolding get_element
get_element-written k w m addr o v apart = rw (
    bytes_at-store_at-Apart (size w) k m.bytes.at (start (size w) (offset_of m addr)) (start k o)
      (v % 256 ^ size w) apart)

-- A write of any width changes no read, of any width, whose bytes are apart from its own: neither
-- the value nor, where the read faults, the fault.
pub get-set_apart :
    (w w' : Width) (m : Memory) (addr addr' v : ℕ) {m' : Memory}
    → set w m addr v ≡ ok m'
    → AreApart m w addr w' addr'
    → get w' m' addr' ≡ get w' m addr'
unfolding offset_of
get-set_apart w w' m addr addr' v e apart =
    let (valid, same) = set-ok w m addr v e in
    rw same (
      get-eq w' (written w m addr v) addr'
      ∙ rw (get_element-written (size w') w m addr (offset_of m addr') v apart)
          (sym (get-eq w' m addr')))

-- A write keeps the base, the length, and that every entry is a byte.
set_keeps :
    (w : Width) (m : Memory) (addr v : ℕ) {m' : Memory}
    → set w m addr v ≡ ok m'
    → AllBelow 256 m.bytes
    → (m'.base ≡ m.base) × (m'.bytes.size ≡ m.bytes.size) × AllBelow 256 m'.bytes
set_keeps w m addr v e all =
    let (_, same) = set-ok w m addr v e in
    rw same (
      refl,
      refl,
      store_at-lt (size w) m.bytes.at (start (size w) (offset_of m addr)) (v % 256 ^ size w) all,
    )

-- An access of width `w` at `addr` succeeds exactly when it is valid, fails its assertion exactly
-- when the address is not aligned, and is undefined otherwise.
pub get_outcomes :
    (w : Width) (m : Memory) (addr : ℕ)
    → (((r : ℕ) × (get w m addr ≡ ok r)) ↔ IsValid w m addr)
      × ((get w m addr ≡ err assert_failed) ↔ (addr % size w ≢ 0))
      × ((get w m addr ≡ err undefined_behaviour)
          ↔ ((addr % size w ≡ 0) × ¬ IsMapped (size w) m (offset_of m addr)))
unfolding get_element
get_outcomes w m addr = (
  ((λ p. (get-ok w m addr p.0 p.1).0), (λ v. (_, get-valid w m addr v))),
  rw (get-eq w m addr) (ground arith),
  rw (get-eq w m addr) (ground arith),
)

-- The two halves of a 64-bit word are the 32-bit words at its address and four bytes on.
get_64-halves :
    (m : Memory) (addr x : ℕ)
    → m.base % 8 ≡ 0
    → m.base < 2 ^ 64
    → addr < 2 ^ 64
    → get_64 m addr ≡ ok x
    → (lo : ℕ) × (hi : ℕ) × (get_32 m addr ≡ ok lo)
      × (get_32 m (add64 addr 4) ≡ ok hi)
      × (x ≡ lo + 2 ^ 32 * hi)
unfolding offset_of
get_64-halves m addr x b0 b1 a1 e =
    let ((a0, mapped), value) = get-ok Width.double m addr x e in
    let o = offset_of m addr in
    let next : offset_of m (add64 addr 4) ≡ o + 4 = omega arith in
    let at_start : start 4 o ≡ start 8 o = omega arith in
    let at_next : start 4 (o + 4) ≡ start 8 o + 4 = omega arith in
    (
      bytes_at m.bytes.at (start 8 o) 4,
      bytes_at m.bytes.at (start 8 o + 4) 4,
      rw (← at_start) (get-valid Width.word m addr (omega arith, omega arith)),
      rw (← at_next, ← next)
          (get-valid Width.word m (add64 addr 4) (omega arith, rw (next, at_next) (omega arith))),
      value ∙ bytes_at-add 4 4 8 m.bytes.at (start 8 o) refl,
    )
