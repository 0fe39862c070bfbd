-- ===== src/Core.antt =====
-- src/cpu.cpp: the state of the hart and its operations. Registers are vectors, so an index out of
-- range is undefined behaviour; the constructor leaves `csrs` uninitialised but for `mstatus`, so
-- what stood in that memory is an argument of `new`.
pub mod Shape
pub mod Registers
pub mod Status
pub mod Trap
use zinc_simulator.Prelude.{
  ℕ, ◌*◌, ◌/◌, ◌^◌, bit_and, bit_or, Bool, true, false, if◌then◌else◌, ◌==◌, ◌!=◌, Result, ok, err,
  logic_error, ◌>>=◌, Vector, read, write, update, filled,
}
use zinc_simulator.Word.{not64, ◌<<<◌, ◌>>>◌, u32}
use zinc_simulator.Csr.{
  Csr, csr_index, csr_of, Privilege, privilege_bits, mstatus_mie_mask, mstatus_mpie_mask,
  mstatus_mpp_mask, mstatus_fs_mask, mstatus_fs_dirty, mstatus_sd_mask, mstatus_uxl_rv64,
  mstatus_writable_mask,
}

pub record Core : Type 0 where
  pub priv : Privilege
  pub pc : ℕ
  pub gprs : Vector
  pub fprs : Vector
  pub csrs : Vector

pub record Exception : Type 0 where
  pub mcause : ℕ
  pub mtval : ℕ

-- `Core::Core`, over memory that held `garbage`.
pub new : (ℕ → ℕ) → ℕ → Core
new garbage init_pc = record {
  priv = Privilege.machine;
  pc = init_pc;
  gprs = filled 32 0;
  fprs = filled 32 0;
  csrs = record { size = 4096; at = update garbage (csr_index Csr.mstatus) mstatus_uxl_rv64 };
}

pub get_gpr : Core → ℕ → Result ℕ
get_gpr core index = read core.gprs index

pub set_gpr : Core → ℕ → ℕ → Result Core
set_gpr core index value =
    if index == 0
    then ok core
    else (do gprs ← write core.gprs index value; ok (record core { gprs = gprs }))

pub get_fpr : Core → ℕ → Result ℕ
get_fpr core index = read core.fprs index

-- The parameter is a `uint32_t`.
pub set_fpr : Core → ℕ → ℕ → Result Core
set_fpr core index value = do
  fprs ← write core.fprs index (u32 value)
  ok (record core { fprs = fprs })

pub get_csr : Core → Csr → Result ℕ
get_csr core Csr.fflags = do fcsr ← read core.csrs (csr_index Csr.fcsr); ok (bit_and fcsr 0x1f)
get_csr core Csr.frm = do fcsr ← read core.csrs (csr_index Csr.fcsr); ok (fcsr >>> 5)
get_csr core csr = read core.csrs (csr_index csr)

-- `ret = csrs[index] = value`
pub assign_csr : Core → ℕ → ℕ → Result (ℕ × Core)
assign_csr core index value = do
  csrs ← write core.csrs index value
  ok (value, record core { csrs = csrs })

-- The new value of `mstatus`: only the writable fields change, and SD tells whether FS is dirty.
pub legal_mstatus : ℕ → ℕ → ℕ
legal_mstatus old value =
    let merged =
      bit_or (bit_and old (not64 mstatus_writable_mask)) (bit_and value mstatus_writable_mask) in
    let new_value = bit_and merged (not64 mstatus_sd_mask) in
    if bit_and new_value mstatus_fs_mask == mstatus_fs_dirty
    then bit_or new_value mstatus_sd_mask
    else new_value

-- Returns the value that stands in the register afterwards.
pub set_csr : Core → Csr → ℕ → Result (ℕ × Core)
set_csr core Csr.fflags value = do
  old ← read core.csrs (csr_index Csr.fcsr)
  let fcsr = bit_or (bit_and old (not64 0x1f)) (bit_and value 0x1f)
  (_, core') ← assign_csr core (csr_index Csr.fcsr) fcsr
  ok (bit_and fcsr 0x1f, core')
set_csr core Csr.frm value = do
  old ← read core.csrs (csr_index Csr.fcsr)
  let fcsr = bit_or (bit_and old (not64 0xe0)) (bit_and value 0x7 <<< 5)
  (_, core') ← assign_csr core (csr_index Csr.fcsr) fcsr
  ok (bit_and (fcsr >>> 5) 0x7, core')
set_csr core Csr.fcsr value = assign_csr core (csr_index Csr.fcsr) (bit_and value 0xff)
set_csr core Csr.mstatus value = do
  old ← read core.csrs (csr_index Csr.mstatus)
  assign_csr core (csr_index Csr.mstatus) (legal_mstatus old value)
set_csr core Csr.mepc value = assign_csr core (csr_index Csr.mepc) (bit_and value (not64 0b11))
set_csr core Csr.mtvec value = assign_csr core (csr_index Csr.mtvec) (bit_and value (not64 0b11))
set_csr core Csr.pmpcfg0 value = assign_csr core (csr_index Csr.pmpcfg0) value
set_csr core Csr.pmpaddr0 value = assign_csr core (csr_index Csr.pmpaddr0) value
set_csr core Csr.mie value = assign_csr core (csr_index Csr.mie) value
set_csr core Csr.mscratch value = assign_csr core (csr_index Csr.mscratch) value
set_csr core Csr.mcause value = assign_csr core (csr_index Csr.mcause) value
set_csr core Csr.mtval value = assign_csr core (csr_index Csr.mtval) value
set_csr core Csr.mhartid value = err logic_error
set_csr core (Csr.reserved n) value = err logic_error

-- The `mstatus` that `take_exception` asks for.
pub trap_mstatus : ℕ → Privilege → ℕ
trap_mstatus old priv =
    let s1 =
      if bit_and old mstatus_mie_mask != 0
      then bit_or old mstatus_mpie_mask
      else bit_and old (not64 mstatus_mpie_mask) in
    let s2 =
      if bit_and s1 mstatus_fs_mask == mstatus_fs_dirty
      then bit_or s1 mstatus_sd_mask
      else bit_and s1 (not64 mstatus_sd_mask) in
    let s3 = bit_and (bit_and s2 (not64 mstatus_mie_mask)) (not64 mstatus_mpp_mask) in
    bit_or s3 (privilege_bits priv <<< 11)

pub take_exception : Core → Exception → Result Core
take_exception core exception = do
  old ← get_csr core Csr.mstatus
  let mstatus = trap_mstatus old core.priv
  (_, c1) ← set_csr core Csr.mcause exception.mcause
  (_, c2) ← set_csr c1 Csr.mtval exception.mtval
  (_, c3) ← set_csr c2 Csr.mepc c2.pc
  (_, c4) ← set_csr c3 Csr.mstatus mstatus
  mtvec ← get_csr c4 Csr.mtvec
  ok (record c4 { pc = bit_and mtvec (not64 0b11); priv = Privilege.machine })

unfoldable pub has_csr : ℕ → Bool
has_csr n = elim (csr_of n) [ Csr.reserved _ ↦ false | _ ↦ true ]
