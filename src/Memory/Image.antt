-- ===== src/Memory/Image.antt =====
-- `load` and `clear`: how a segment of a program comes to stand in RAM.
use zinc_simulator.Prelude.{
  ℕ, ◌+◌, ◌≤◌, ◌<◌, ◌≡◌, arith, ok, refl, List, leb, Fault, undefined_behaviour, Ends, Ends-split,
  returns, throws,
}
use zinc_simulator.Memory.{Memory, offset_of, load, clear, length, copy_to}
use zinc_simulator.Memory.Bytes.{
  Apart, nth, copy_to_inside, copy_to_outside, fill_zero_inside, fill_zero_outside,
}

-- The bytes stand from the offset on, in their order, and nothing else has changed.
pub record IsLoaded (m m' : Memory) (offset : ℕ) (data' : List ℕ) : Type 0 where
  pub base_kept : m'.base ≡ m.base
  pub size_kept : m'.bytes.size ≡ m.bytes.size
  pub inside : (k : ℕ) → k < length data' → m'.bytes.at (offset + k) ≡ nth data' k
  pub outside : (j : ℕ) → Apart offset (length data') j 1 → m'.bytes.at j ≡ m.bytes.at j

-- A `load` that succeeds puts its bytes at the offset of the address on, in their order, and
-- changes nothing else.
pub load-IsLoaded :
    (m : Memory) (addr : ℕ) (data' : List ℕ) {m' : Memory}
    → load m addr data' ≡ ok m'
    → IsLoaded m m' (offset_of m addr) data'
unfolding load
load-IsLoaded m addr data' {m'} e =
    let same : m' ≡ record m {
      bytes = record { size = m.bytes.size; at = copy_to m.bytes.at (offset_of m addr) data' };
    } =
      ground arith in
    rw same (record {
      base_kept = refl;
      size_kept = refl;
      inside = copy_to_inside data' m.bytes.at (offset_of m addr);
      outside = copy_to_outside data' m.bytes.at (offset_of m addr);
    })

-- The `size` bytes from the offset on are zero, and nothing else has changed.
pub record IsCleared (m m' : Memory) (offset size : ℕ) : Type 0 where
  pub base_kept : m'.base ≡ m.base
  pub size_kept : m'.bytes.size ≡ m.bytes.size
  pub inside : (k : ℕ) → k < size → m'.bytes.at (offset + k) ≡ 0
  pub outside : (j : ℕ) → Apart offset size j 1 → m'.bytes.at j ≡ m.bytes.at j

-- If the range at the offset of the address lies in the memory, `clear` succeeds, zeroes it and
-- changes nothing else; if it does not, `clear` is undefined behaviour.
pub clear-IsCleared :
    (m : Memory) (addr size : ℕ)
    → let offset = offset_of m addr in
      Ends
        (λ (m' : Memory). (offset + size ≤ m.bytes.size) × IsCleared m m' offset size)
        (λ (f : Fault). (f ≡ undefined_behaviour) × (m.bytes.size < offset + size))
        (clear m addr size)
unfolding clear
clear-IsCleared m addr size =
    let offset = offset_of m addr in
    Ends-split (leb (offset + size) m.bytes.size)
      (λ within. returns (
        ground arith,
        record {
          base_kept = refl;
          size_kept = refl;
          inside = λ k h. fill_zero_inside size k m.bytes.at offset h;
          outside = fill_zero_outside size m.bytes.at offset;
        },
      ))
      (λ past. throws (refl, ground arith))
