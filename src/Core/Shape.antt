-- ===== src/Core/Shape.antt =====
-- The invariant of the hart's state, and what a write of a CSR stores.
use zinc_simulator.Prelude.{
  ℕ, ◌+◌, ◌-◌, ◌*◌, ◌/◌, ◌%◌, ◌^◌, ◌<◌, bit_and, bit_or, ◌≡◌, ◌∙◌, arith, true, false, Bool, ok,
  AllBelow, update,
}
use zinc_simulator.Word.{not64}
use zinc_simulator.Word.Fields.{and_low, and_field, and_split, or_field, or_low}
use zinc_simulator.Csr.{Privilege, privilege_bits, Csr, csr_index}
use zinc_simulator.Core.{Core, get_csr, set_csr, assign_csr, legal_mstatus}

-- The register files have their lengths, x0 is zero, every register fits its type, and `fcsr` has
-- its eight bits.
pub record IsWellFormed (c : Core) : Type 0 where
  pub gprs_size : c.gprs.size ≡ 32
  pub fprs_size : c.fprs.size ≡ 32
  pub csrs_size : c.csrs.size ≡ 4096
  pub zero_reg : c.gprs.at 0 ≡ 0
  pub gprs_fit : AllBelow (2 ^ 64) c.gprs
  pub fprs_fit : AllBelow (2 ^ 32) c.fprs
  pub csrs_fit : AllBelow (2 ^ 64) c.csrs
  pub pc_fits : c.pc < 2 ^ 64
  pub fcsr_fits : c.csrs.at 3 < 2 ^ 8

-- A well-formed hart at a privilege of two bits.
abbrev pub IsSound : Core → Type 0
IsSound c = IsWellFormed c × (privilege_bits c.priv < 4)

pub at_pc-IsWellFormed :
    (c : Core) (pc : ℕ) (priv : Privilege)
    → IsWellFormed c
    → pc < 2 ^ 64
    → IsWellFormed (record c { pc = pc; priv = priv })
at_pc-IsWellFormed c pc priv wf h = record {
  gprs_size = wf.gprs_size;
  fprs_size = wf.fprs_size;
  csrs_size = wf.csrs_size;
  zero_reg = wf.zero_reg;
  gprs_fit = wf.gprs_fit;
  fprs_fit = wf.fprs_fit;
  csrs_fit = wf.csrs_fit;
  pc_fits = h;
  fcsr_fits = wf.fcsr_fits;
}

-- The CSRs that `set_csr` accepts.
abbrev pub is_writable : Csr → Bool
is_writable Csr.mhartid = false
is_writable (Csr.reserved n) = false
is_writable _ = true

-- The register that holds a CSR: `fflags` and `frm` are fields of `fcsr`.
abbrev pub slot : Csr → ℕ
slot Csr.fflags = 3
slot Csr.frm = 3
slot csr = csr_index csr

-- What the register holds after `value` is written to a CSR, as arithmetic.
abbrev pub stored : Csr → ℕ → ℕ → ℕ
stored Csr.fflags old value = old / 2 ^ 5 * 2 ^ 5 + value % 2 ^ 5
stored Csr.frm old value = old / 2 ^ 8 * 2 ^ 8 + value % 2 ^ 3 * 2 ^ 5 + old % 2 ^ 5
stored Csr.fcsr old value = value % 2 ^ 8
stored Csr.mstatus old value = legal_mstatus old value
stored Csr.mepc old value = value / 2 ^ 2 * 2 ^ 2
stored Csr.mtvec old value = value / 2 ^ 2 * 2 ^ 2
stored _ old value = value

-- What a read of a CSR shows of the register.
abbrev pub shown : Csr → ℕ → ℕ
shown Csr.fflags word = word % 2 ^ 5
shown Csr.frm word = word / 2 ^ 5
shown _ word = word

-- The state with another word in one CSR register.
abbrev pub with_csr : Core → ℕ → ℕ → Core
with_csr c i x = record c { csrs = record { size = c.csrs.size; at = update c.csrs.at i x } }

module _ (old value : ℕ) (h : old < 2 ^ 64) where
  -- The bit code of `set_csr` for the fields of `fcsr`.
  fflags-merge :
      bit_or (bit_and old (not64 0x1f)) (bit_and value 0x1f) ≡ stored Csr.fflags old value
  fflags-merge =
      let e : bit_and old (not64 0x1f) ≡ old / 2 ^ 5 * 2 ^ 5 = omega (arith, and_field 5 59 old) in
      rw (e, and_low 5 value)
        (or_low 5 (old / 2 ^ 5 * 2 ^ 5) (value % 2 ^ 5) (omega arith) (omega arith))

  frm-merge :
      bit_or (bit_and old (not64 0xe0)) (bit_and value 0x7 * 2 ^ 5) ≡ stored Csr.frm old value
  frm-merge =
      let e : bit_and old (not64 0xe0) ≡ old / 2 ^ 8 * 2 ^ 8 + old % 2 ^ 5 = omega (
        arith,
        and_split 8 old (2 ^ 56 - 1) 0x1f (omega arith),
        and_low 56 (old / 2 ^ 8),
        and_low 5 old,
      ) in
      rw (e, and_low 3 value)
        (or_field 5 3 (old / 2 ^ 8 * 2 ^ 8 + old % 2 ^ 5) (value % 2 ^ 3) (omega arith)
            (omega arith)
          ∙ omega arith)

pub aligned-merge :
    (value : ℕ) → value < 2 ^ 64 → bit_and value (not64 0b11) ≡ value / 2 ^ 2 * 2 ^ 2
aligned-merge value h = omega (arith, and_field 2 62 value)

-- Every write to a CSR that `set_csr` accepts succeeds; it stores `stored`, changes nothing else,
-- and returns what a read of the CSR then shows.
pub set_csr_lem :
    (c : Core) (csr : Csr) (value : ℕ)
    → IsWellFormed c
    → is_writable csr ≡ true
    → value < 2 ^ 64
    → let word = stored csr (c.csrs.at (slot csr)) value in
      set_csr c csr value ≡ ok (shown csr word, with_csr c (slot csr) word)
unfolding set_csr assign_csr
set_csr_lem c Csr.fflags value wf t h = rw (
  wf.csrs_size,
  fflags-merge (c.csrs.at 3) value (wf.csrs_fit 3),
  and_low 5 (stored Csr.fflags (c.csrs.at 3) value),
)
set_csr_lem c Csr.frm value wf t h =
    let word = stored Csr.frm (c.csrs.at 3) value in
    let small : word / 2 ^ 5 % 2 ^ 3 ≡ word / 2 ^ 5 = omega (arith, wf.fcsr_fits) in
    rw
      (wf.csrs_size, frm-merge (c.csrs.at 3) value (wf.csrs_fit 3), and_low 3 (word / 2 ^ 5), small)
set_csr_lem c Csr.fcsr value wf t h = rw (wf.csrs_size, and_low 8 value)
set_csr_lem c Csr.mstatus value wf t h = ground arith
set_csr_lem c Csr.mepc value wf t h = ground (arith, aligned-merge value)
set_csr_lem c Csr.mtvec value wf t h = ground (arith, aligned-merge value)
set_csr_lem c Csr.mhartid value wf t h = cc
set_csr_lem c (Csr.reserved n) value wf t h = cc
set_csr_lem c _ value wf t h = ground arith

-- A read of any CSR that exists shows its register.
pub get_csr_lem :
    (c : Core) (csr : Csr)
    → IsWellFormed c
    → csr_index csr < 4096
    → get_csr c csr ≡ ok (shown csr (c.csrs.at (slot csr)))
unfolding get_csr
get_csr_lem c Csr.fflags wf h = rw (wf.csrs_size, and_low 5 (c.csrs.at 3))
get_csr_lem c Csr.frm wf h = rw wf.csrs_size
get_csr_lem c (Csr.reserved n) wf h = ground arith
get_csr_lem c _ wf h = rw wf.csrs_size

-- The levels that the enumeration has an enumerator for.
abbrev pub is_level : Privilege → Bool
is_level (Privilege.reserved n) = false
is_level _ = true
