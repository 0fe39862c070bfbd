-- ===== src/Csr.antt =====
-- include/cpu.h: the constants of `mstatus`, the CSR numbers and the privilege levels. An
-- enumeration has `reserved` for a value that a `static_cast` gives it and that has no enumerator.
use zinc_simulator.Prelude.{ℕ, bit_or, ◌==◌, if◌then◌else◌}
use zinc_simulator.Word.{◌<<<◌}

abbrev pub mstatus_mie_mask : ℕ
mstatus_mie_mask = 1 <<< 3

abbrev pub mstatus_mpie_mask : ℕ
mstatus_mpie_mask = 1 <<< 7

abbrev pub mstatus_mpp_mask : ℕ
mstatus_mpp_mask = 0b11 <<< 11

abbrev pub mstatus_mprv_mask : ℕ
mstatus_mprv_mask = 1 <<< 17

abbrev pub mstatus_uxl_mask : ℕ
mstatus_uxl_mask = 0b11 <<< 32

abbrev pub mstatus_uxl_rv64 : ℕ
mstatus_uxl_rv64 = 0b10 <<< 32

abbrev pub mstatus_fs_mask : ℕ
mstatus_fs_mask = 0b11 <<< 13

abbrev pub mstatus_fs_dirty : ℕ
mstatus_fs_dirty = 0b11 <<< 13

abbrev pub mstatus_sd_mask : ℕ
mstatus_sd_mask = 1 <<< 63

abbrev pub mstatus_writable_mask : ℕ
mstatus_writable_mask =
    bit_or
      (bit_or (bit_or (bit_or mstatus_mie_mask mstatus_mpie_mask) mstatus_mpp_mask) mstatus_fs_mask)
      mstatus_mprv_mask

pub data Csr : Type 0 where
  fflags frm fcsr mstatus mie mtvec mscratch mepc mcause mtval pmpcfg0 pmpaddr0 mhartid : Csr
  reserved : ℕ → Csr

abbrev pub csr_index : Csr → ℕ
csr_index Csr.fflags = 0x001
csr_index Csr.frm = 0x002
csr_index Csr.fcsr = 0x003
csr_index Csr.mstatus = 0x300
csr_index Csr.mie = 0x304
csr_index Csr.mtvec = 0x305
csr_index Csr.mscratch = 0x340
csr_index Csr.mepc = 0x341
csr_index Csr.mcause = 0x342
csr_index Csr.mtval = 0x343
csr_index Csr.pmpcfg0 = 0x3a0
csr_index Csr.pmpaddr0 = 0x3b0
csr_index Csr.mhartid = 0xf14
csr_index (Csr.reserved n) = n

-- `static_cast<Csr>(n)`
unfoldable pub csr_of : ℕ → Csr
csr_of n =
    if n == 0x001
    then Csr.fflags
    else if n == 0x002
    then Csr.frm
    else if n == 0x003
    then Csr.fcsr
    else if n == 0x300
    then Csr.mstatus
    else if n == 0x304
    then Csr.mie
    else if n == 0x305
    then Csr.mtvec
    else if n == 0x340
    then Csr.mscratch
    else if n == 0x341
    then Csr.mepc
    else if n == 0x342
    then Csr.mcause
    else if n == 0x343
    then Csr.mtval
    else if n == 0x3a0
    then Csr.pmpcfg0
    else if n == 0x3b0
    then Csr.pmpaddr0
    else if n == 0xf14
    then Csr.mhartid
    else Csr.reserved n

pub data Privilege : Type 0 where
  user supervisor machine : Privilege
  reserved : ℕ → Privilege

abbrev pub privilege_bits : Privilege → ℕ
privilege_bits Privilege.user = 0b00
privilege_bits Privilege.supervisor = 0b01
privilege_bits Privilege.machine = 0b11
privilege_bits (Privilege.reserved n) = n

-- `static_cast<Privilege>(n)`
unfoldable pub privilege_of : ℕ → Privilege
privilege_of n =
    if n == 0b00
    then Privilege.user
    else if n == 0b01
    then Privilege.supervisor
    else if n == 0b11
    then Privilege.machine
    else Privilege.reserved n
