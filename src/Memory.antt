-- ===== src/Memory.antt =====
-- src/ram.cpp and include/ram.h: the simulated RAM, a vector of bytes from the address `base` on.
-- The words of 16, 32 and 64 bits are read through `reinterpret_cast`, on a little-endian host.
-- An access past the vector is undefined in C++; `assert` is on, since the build defines no NDEBUG.
pub mod Bytes
pub mod Access
pub mod Frame
pub mod Image
use zinc_simulator.Prelude.{
  ℕ, zero, suc, ◌+◌, ◌-◌, ◌*◌, ◌/◌, ◌%◌, Bool, ◌&&◌, if◌then◌else◌, ltb, leb, ◌==◌, List, [], ◌∷◌,
  Result, ok, err, undefined_behaviour, assert_failed, ◌>>=◌, ◌>>◌, require, Vector, filled, update,
}
use zinc_simulator.Word.{u8, u16, u32, u64, sub64}

pub record Memory : Type 0 where
  pub base : ℕ
  pub bytes : Vector

-- `Memory::Memory`: `resize` fills with zeros.
pub new : ℕ → ℕ → Memory
new base size = record { base = base; bytes = filled size 0 }

-- `auto offset = addr - base`
unfoldable pub offset_of : Memory → ℕ → ℕ
offset_of m addr = sub64 addr m.base

-- `std::copy` of a list of bytes to the index `i` on.
unfoldable pub copy_to : (ℕ → ℕ) → ℕ → List ℕ → ℕ → ℕ
copy_to f i [] = f
copy_to f i (x ∷ xs) = copy_to (update f i x) (i + 1) xs

abbrev pub length : List ℕ → ℕ
length [] = 0
length (x ∷ xs) = suc (length xs)

unfoldable pub load : Memory → ℕ → List ℕ → Result Memory
load m addr data' =
    let offset = offset_of m addr in
    if leb (offset + length data') m.bytes.size
    then ok
        (record m { bytes = record { size = m.bytes.size; at = copy_to m.bytes.at offset data' } })
    else err undefined_behaviour

-- `std::fill` of `n` bytes from the index `i` on, one after the other, with 0.
unfoldable pub fill_zero : (ℕ → ℕ) → ℕ → ℕ → ℕ → ℕ
fill_zero f i zero = f
fill_zero f i (suc n) = fill_zero (update f i 0) (i + 1) n

unfoldable pub clear : Memory → ℕ → ℕ → Result Memory
clear m addr size =
    let offset = offset_of m addr in
    if leb (offset + size) m.bytes.size
    then ok
        (record m { bytes = record { size = m.bytes.size; at = fill_zero m.bytes.at offset size } })
    else err undefined_behaviour

-- The number that `n` bytes from the index `i` on spell, lowest byte first.
unfoldable pub bytes_at : (ℕ → ℕ) → ℕ → ℕ → ℕ
bytes_at f i zero = 0
bytes_at f i (suc n) = f i + 256 * bytes_at f (i + 1) n

-- The lowest `n` bytes of `v` put at the index `i` on.
unfoldable pub store_at : (ℕ → ℕ) → ℕ → ℕ → ℕ → ℕ → ℕ
store_at f i zero v = f
store_at f i (suc n) v = store_at (update f i (v % 256)) (i + 1) n (v / 256)

-- `reinterpret_cast<const uintN_t*>(data.data())[offset / k]`, for elements of `k` bytes.
unfoldable pub get_element : ℕ → Memory → ℕ → Result ℕ
get_element k m offset =
    let i = offset / k * k in
    if leb (i + k) m.bytes.size then ok (bytes_at m.bytes.at i k) else err undefined_behaviour

unfoldable pub set_element : ℕ → Memory → ℕ → ℕ → Result Memory
set_element k m offset v =
    let i = offset / k * k in
    if leb (i + k) m.bytes.size
    then ok (record m { bytes = record { size = m.bytes.size; at = store_at m.bytes.at i k v } })
    else err undefined_behaviour

pub get_8 : Memory → ℕ → Result ℕ
get_8 m addr = get_element 1 m (offset_of m addr)

pub get_16 : Memory → ℕ → Result ℕ
get_16 m addr = do require (addr % 2 == 0) assert_failed; get_element 2 m (offset_of m addr)

unfoldable pub get_32 : Memory → ℕ → Result ℕ
get_32 m addr = do require (addr % 4 == 0) assert_failed; get_element 4 m (offset_of m addr)

unfoldable pub get_64 : Memory → ℕ → Result ℕ
get_64 m addr = do require (addr % 8 == 0) assert_failed; get_element 8 m (offset_of m addr)

-- The parameter's type cuts the value off.
unfoldable pub set_8 : Memory → ℕ → ℕ → Result Memory
set_8 m addr v = set_element 1 m (offset_of m addr) (u8 v)

pub set_16 : Memory → ℕ → ℕ → Result Memory
set_16 m addr v = do
  require (addr % 2 == 0) assert_failed
  set_element 2 m (offset_of m addr) (u16 v)

pub set_32 : Memory → ℕ → ℕ → Result Memory
set_32 m addr v = do
  require (addr % 4 == 0) assert_failed
  set_element 4 m (offset_of m addr) (u32 v)

pub set_64 : Memory → ℕ → ℕ → Result Memory
set_64 m addr v = do
  require (addr % 8 == 0) assert_failed
  set_element 8 m (offset_of m addr) (u64 v)
