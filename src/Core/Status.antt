-- ===== src/Core/Status.antt =====
-- The fields of `mstatus`, bit by bit.
use zinc_simulator.Prelude.{
  ℕ, ◌+◌, ◌-◌, ◌*◌, ◌/◌, ◌%◌, ◌^◌, ◌≤◌, ◌<◌, bit_and, bit_or, min, max, ◌≡◌, refl, arith, true,
  false, Bool, Bool-cases, inl, inr, ◌||◌, if◌then◌else◌, ◌==◌, ==_iff, all_below, all_below_sound,
}
use zinc_simulator.Word.{not64}
use zinc_simulator.Word.Bits.{bit, bit-le, bit-bit_and, bit-bit_or, bit-complement}
use zinc_simulator.Word.Fields.{and_low, and_field, or_field}
use zinc_simulator.Csr.{mstatus_writable_mask, mstatus_sd_mask, mstatus_fs_mask, mstatus_fs_dirty}
use zinc_simulator.Core.{legal_mstatus}

-- MIE, MPIE, MPP, FS and MPRV.
abbrev pub is_writable_bit : ℕ → Bool
is_writable_bit i = i == 3 || i == 7 || i == 11 || i == 12 || i == 13 || i == 14 || i == 17

abbrev pub digit : Bool → ℕ
digit b = if b then 1 else 0

-- The digits of the masks, at every position.
module _ (mask : ℕ) (p : ℕ → Bool) where
  unfoldable pub agrees : ℕ → Bool
  agrees j = bit mask j == digit (p j)

  pub mask-digits : all_below 64 agrees ≡ true → (i : ℕ) → i < 64 → bit mask i ≡ digit (p i)
  unfolding agrees
  mask-digits t i h = (==_iff _ _).0 (all_below_sound 64 agrees i t h)

writable-digits : (i : ℕ) → i < 64 → bit mstatus_writable_mask i ≡ digit (is_writable_bit i)
unfolding all_below bit agrees
writable-digits = mask-digits mstatus_writable_mask is_writable_bit refl

pub sd-digits : (i : ℕ) → i < 64 → bit mstatus_sd_mask i ≡ digit (i == 63)
unfolding all_below bit agrees
sd-digits = mask-digits mstatus_sd_mask (λ i. i == 63) refl

-- The status before SD is worked out.
abbrev merged : ℕ → ℕ → ℕ
merged old value =
    bit_and
      (bit_or (bit_and old (not64 mstatus_writable_mask)) (bit_and value mstatus_writable_mask))
      (not64 mstatus_sd_mask)

choose :
    (b : Bool) (x y : ℕ)
    → x ≤ 1
    → y ≤ 1
    → min (max (min y (1 - digit b)) (min x (digit b))) 1 ≡ (if b then x else y)
choose true x y p q = omega arith
choose false x y p q = omega arith

merged-bit :
    (old value i : ℕ)
    → i < 63
    → bit (merged old value) i ≡ (if is_writable_bit i then bit value i else bit old i)
merged-bit old value i h =
    let w = writable-digits i (omega arith) in
    let s = sd-digits i (omega arith) in
    let cw = bit-complement 64 mstatus_writable_mask i (omega arith) (omega arith) in
    let cs = bit-complement 64 mstatus_sd_mask i (omega arith) (omega arith) in
    let n63 : (i == 63) ≡ false = ground arith in
    rw (bit-bit_and i, bit-bit_or i, bit-bit_and i, bit-bit_and i, cw, cs, w, s, n63)
      (choose (is_writable_bit i) (bit value i) (bit old i) (bit-le value i) (bit-le old i))

-- SD is clear until it is worked out.
merged-lt : (old value : ℕ) → merged old value < 2 ^ 63
merged-lt old value = rw (and_low 63 _) (omega arith)

-- The two digits of FS.
abbrev pub fs : ℕ → ℕ
fs x = x / 2 ^ 13 % 2 ^ 2

fs-digits : (x : ℕ) → fs x ≡ bit x 13 + 2 * bit x 14
unfolding bit
fs-digits x = omega arith

fs-merged : (old value : ℕ) → fs (merged old value) ≡ fs value
fs-merged old value = omega (
  arith,
  fs-digits (merged old value),
  fs-digits value,
  merged-bit old value 13 (omega arith),
  merged-bit old value 14 (omega arith),
)

-- Whether the test of `set_csr` on FS passes.
dirty-test : (x : ℕ) → (bit_and x mstatus_fs_mask == mstatus_fs_dirty) ≡ (fs x == 3)
dirty-test x = ground (arith, and_field 13 2 x)

set-bit :
    (old value i : ℕ)
    → i < 63
    → bit (bit_or (merged old value) mstatus_sd_mask) i
      ≡ (if is_writable_bit i then bit value i else bit old i)
set-bit old value i h =
    let n63 : (i == 63) ≡ false = ground arith in
    rw (bit-bit_or i, sd-digits i (omega arith), n63, merged-bit old value i h) (omega arith)

set-sd : (old value : ℕ) → bit_or (merged old value) mstatus_sd_mask / 2 ^ 63 ≡ 1
set-sd old value =
    let small = merged-lt old value in
    rw (or_field 63 1 (merged old value) 1 (omega arith) (omega arith)) (omega arith)

-- Below SD, a write to `mstatus` takes each writable field from the value and keeps every other
-- bit; SD then tells whether the FS that was written is dirty.
pub legal_mstatus_fields :
    (old value i : ℕ)
    → i < 63
    → (bit (legal_mstatus old value) i ≡ (if is_writable_bit i then bit value i else bit old i))
      × (legal_mstatus old value / 2 ^ 63 ≡ (if fs value == 3 then 1 else 0))
unfolding legal_mstatus
legal_mstatus_fields old value i h =
    rw (dirty-test (merged old value), fs-merged old value)
      (elim (Bool-cases (fs value == 3)) [
        | inl dirty ↦ rw dirty (set-bit old value i h, set-sd old value)
        | inr clean ↦ rw clean (merged-bit old value i h, omega (arith, merged-lt old value))
      ])
