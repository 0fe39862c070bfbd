-- ===== src/Memory/Access.antt =====
-- Reads and writes of RAM: when they succeed, and what is read back.
use zinc_simulator.Prelude.{
  ℕ, ◌+◌, ◌*◌, ◌/◌, ◌%◌, ◌^◌, ◌≤◌, ◌<◌, ◌≡◌, ◌∙◌, arith, Result, ok, err, assert_failed, AllBelow,
  le→leb, inl, inr, if◌then◌else◌, ◌==◌, Bool-cases, sym, ==_iff, Ends, Ends-if, returns, throws,
  IsFault,
}
use zinc_simulator.Memory.{
  Memory, offset_of, get_element, set_element, bytes_at, store_at, get_8, get_16, get_32, get_64,
  set_8, set_16, set_32, set_64,
}
use zinc_simulator.Memory.Bytes.{bytes_at-lt, store_at-lt}

-- The first index of the element of `k` bytes that `offset` falls into.
abbrev pub start : ℕ → ℕ → ℕ
start k offset = offset / k * k

-- The element lies inside the vector.
abbrev pub IsMapped : ℕ → Memory → ℕ → Type 0
IsMapped k m offset = start k offset + k ≤ m.bytes.size

-- The memory after an element is written.
abbrev pub stored : ℕ → Memory → ℕ → ℕ → Memory
stored k m offset v = record m {
  bytes = record { size = m.bytes.size; at = store_at m.bytes.at (start k offset) k v };
}

module _ (k : ℕ) (m : Memory) (o : ℕ) where
  pub get_element-mapped :
      IsMapped k m o → get_element k m o ≡ ok (bytes_at m.bytes.at (start k o) k)
  unfolding get_element
  get_element-mapped h = rw (le→leb _ _ h)

  pub set_element-mapped : (v : ℕ) → IsMapped k m o → set_element k m o v ≡ ok (stored k m o v)
  unfolding set_element
  set_element-mapped v h = rw (le→leb _ _ h)

  pub set_element-ok :
      (v : ℕ) {m' : Memory} → set_element k m o v ≡ ok m' → IsMapped k m o × (m' ≡ stored k m o v)
  unfolding set_element
  set_element-ok v e = ground arith

-- The four widths of access, with the bytes that each takes.
pub data Width : Type 0 where
  byte half word double : Width

abbrev pub size : Width → ℕ
size Width.byte = 1
size Width.half = 2
size Width.word = 4
size Width.double = 8

abbrev pub get : Width → Memory → ℕ → Result ℕ
get Width.byte = get_8
get Width.half = get_16
get Width.word = get_32
get Width.double = get_64

abbrev pub set : Width → Memory → ℕ → ℕ → Result Memory
set Width.byte = set_8
set Width.half = set_16
set Width.word = set_32
set Width.double = set_64

-- The address is aligned for the width, and the element that it names lies in the memory.
abbrev pub IsValid : Width → Memory → ℕ → Type 0
IsValid w m addr = (addr % size w ≡ 0) × IsMapped (size w) m (offset_of m addr)

pub get-eq :
    (w : Width) (m : Memory) (addr : ℕ)
    → get w m addr ≡ (
        if addr % size w == 0 then get_element (size w) m (offset_of m addr) else err assert_failed)
unfolding get_8 get_16 get_32 get_64
get-eq Width.byte m addr = let e : addr % 1 ≡ 0 = omega arith in rw e
get-eq Width.half m addr = ground arith
get-eq Width.word m addr = ground arith
get-eq Width.double m addr = ground arith

set-eq :
    (w : Width) (m : Memory) (addr v : ℕ)
    → set w m addr v ≡ (
        if addr % size w == 0
        then set_element (size w) m (offset_of m addr) (v % 256 ^ size w)
        else err assert_failed)
unfolding set_8 set_16 set_32 set_64
set-eq Width.byte m addr v = let e : addr % 1 ≡ 0 = omega arith in rw e
set-eq Width.half m addr v = ground arith
set-eq Width.word m addr v = ground arith
set-eq Width.double m addr v = ground arith

-- The memory after an access of width `w` writes `v` at `addr`.
abbrev pub written : Width → Memory → ℕ → ℕ → Memory
written w m addr v = stored (size w) m (offset_of m addr) (v % 256 ^ size w)

pub get-valid :
    (w : Width) (m : Memory) (addr : ℕ)
    → IsValid w m addr
    → get w m addr ≡ ok (bytes_at m.bytes.at (start (size w) (offset_of m addr)) (size w))
get-valid w m addr (aligned, mapped) =
    get-eq w m addr ∙ rw aligned (get_element-mapped (size w) m (offset_of m addr) mapped)

pub set-valid :
    (w : Width) (m : Memory) (addr v : ℕ)
    → IsValid w m addr
    → set w m addr v ≡ ok (written w m addr v)
set-valid w m addr v (aligned, mapped) =
    set-eq w m addr v
    ∙ rw aligned (set_element-mapped (size w) m (offset_of m addr) (v % 256 ^ size w) mapped)

pub set-ok :
    (w : Width) (m : Memory) (addr v : ℕ) {m' : Memory}
    → set w m addr v ≡ ok m'
    → IsValid w m addr × (m' ≡ written w m addr v)
set-ok w m addr v {m'} e = elim (Bool-cases (addr % size w == 0)) [
  | inl aligned ↦
      let e' : set_element (size w) m (offset_of m addr) (v % 256 ^ size w) ≡ ok m' =
        rw aligned at (sym (set-eq w m addr v) ∙ e) in
      let (mapped, same) = set_element-ok (size w) m (offset_of m addr) (v % 256 ^ size w) e' in
      (((==_iff (addr % size w) 0).0 aligned, mapped), same)
  | inr unaligned ↦
      let e' : (if addr % size w == 0
            then set_element (size w) m (offset_of m addr) (v % 256 ^ size w)
            else err assert_failed)
          ≡ ok m' =
        sym (set-eq w m addr v) ∙ e in
      cc (rw unaligned at e')
]

pub get-ok :
    (w : Width) (m : Memory) (addr x : ℕ)
    → get w m addr ≡ ok x
    → IsValid w m addr × (x ≡ bytes_at m.bytes.at (start (size w) (offset_of m addr)) (size w))
unfolding get_element
get-ok w m addr x e =
    let e' : (if addr % size w == 0
          then get_element (size w) m (offset_of m addr)
          else err assert_failed)
        ≡ ok x =
      sym (get-eq w m addr) ∙ e in
    ground arith

-- A write keeps the bytes bytes, and a read gives a number of its width.
pub set-Ends :
    (w : Width) (m : Memory) (addr v : ℕ)
    → AllBelow 256 m.bytes
    → Ends (λ (m' : Memory). AllBelow 256 m'.bytes) IsFault (set w m addr v)
unfolding set_element
set-Ends w m addr v h =
    let fits =
      store_at-lt (size w) m.bytes.at (start (size w) (offset_of m addr)) (v % 256 ^ size w) h in
    rw (set-eq w m addr v) (Ends-if _ (Ends-if _ (returns fits) (throws tt)) (throws tt))

pub get-Ends :
    (w : Width) (m : Memory) (addr : ℕ)
    → AllBelow 256 m.bytes
    → Ends (λ x. x < 256 ^ size w) IsFault (get w m addr)
unfolding get_element
get-Ends w m addr h =
    let fits = bytes_at-lt (size w) m.bytes.at (start (size w) (offset_of m addr)) h in
    rw (get-eq w m addr) (Ends-if _ (Ends-if _ (returns fits) (throws tt)) (throws tt))
