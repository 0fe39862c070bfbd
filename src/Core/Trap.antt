-- ===== src/Core/Trap.antt =====
-- `take_exception`: the status that it saves, and the state that it leaves.
use zinc_simulator.Prelude.{
  ℕ, ◌-◌, ◌*◌, ◌/◌, ◌^◌, ◌≤◌, ◌<◌, bit_and, bit_or, min, max, ◌≡◌, refl, ◌∙◌, arith, true, false,
  Bool, ◌||◌, if◌then◌else◌, ◌==◌, ◌!=◌, ==_iff, all_below, all_below_sound, ok,
}
use zinc_simulator.Word.{not64, ◌<<<◌}
use zinc_simulator.Word.Bits.{bit, bit-le, bit-bit_and, bit-bit_or, bit-complement, bit_or-lt}
use zinc_simulator.Word.Fields.{and_field, and_split, and_low}
use zinc_simulator.Csr.{
  mstatus_mie_mask, mstatus_mpie_mask, mstatus_mpp_mask, mstatus_sd_mask, mstatus_fs_mask,
  mstatus_fs_dirty, Privilege, privilege_bits, Csr, csr_index,
}
use zinc_simulator.Core.{Core, Exception, take_exception, trap_mstatus, legal_mstatus}
use zinc_simulator.Core.Shape.{
  IsWellFormed, at_pc-IsWellFormed, aligned-merge, with_csr, set_csr_lem, get_csr_lem,
}
use zinc_simulator.Core.Registers.{set_csr-IsWellFormed}
use zinc_simulator.Core.Status.{digit, mask-digits, agrees, sd-digits}

pub mie-digits : (i : ℕ) → i < 64 → bit mstatus_mie_mask i ≡ digit (i == 3)
unfolding all_below bit agrees
mie-digits = mask-digits mstatus_mie_mask (λ i. i == 3) refl

pub mpie-digits : (i : ℕ) → i < 64 → bit mstatus_mpie_mask i ≡ digit (i == 7)
unfolding all_below bit agrees
mpie-digits = mask-digits mstatus_mpie_mask (λ i. i == 7) refl

abbrev pub is_mpp : ℕ → Bool
is_mpp i = i == 11 || i == 12

pub mpp-digits : (i : ℕ) → i < 64 → bit mstatus_mpp_mask i ≡ digit (is_mpp i)
unfolding all_below bit agrees
mpp-digits = mask-digits mstatus_mpp_mask is_mpp refl

-- A level shifted to MPP has no digit elsewhere.
level-digits : (p i : ℕ) → p < 4 → i < 64 → is_mpp i ≡ false → bit (p <<< 11) i ≡ 0
unfolding bit all_below
level-digits p i hp h e = (==_iff _ 0).0 (rw e at checked)
  where
    checked : (is_mpp i || bit (p <<< 11) i == 0) ≡ true
    checked =
        all_below_sound 64 (λ j. is_mpp j || bit (p <<< 11) j == 0) i
          (all_below_sound 4 (λ q. all_below 64 (λ j. is_mpp j || bit (q <<< 11) j == 0)) p refl hp)
          h

-- Clearing a mask, digit by digit.
pub cleared-bit :
    (x mask i : ℕ)
    → mask < 2 ^ 64
    → i < 64
    → bit (bit_and x (not64 mask)) i ≡ min (bit x i) (1 - bit mask i)
cleared-bit x mask i h p = rw (bit-bit_and i, bit-complement 64 mask i h p)

combine :
    (a b p : Bool) (x m v s : ℕ)
    → x ≤ 1
    → m ≤ 1
    → v ≤ 1
    → (p ≡ false → v ≡ 0)
    → s ≡ (if m != 0 then max x (digit b) else min x (1 - digit b))
    → max (min (min s (1 - digit a)) (1 - digit p)) v
      ≡ (if p then v else if a then 0 else if b then m else x)
combine a b p x m v s hx hm hv hp hs = ground arith

-- The first two steps of the new status: MPIE takes the old MIE, and SD is worked out.
abbrev saved : ℕ → ℕ
saved old =
    if bit_and old mstatus_mie_mask != 0
    then bit_or old mstatus_mpie_mask
    else bit_and old (not64 mstatus_mpie_mask)

abbrev summed : ℕ → ℕ
summed s =
    if bit_and s mstatus_fs_mask == mstatus_fs_dirty
    then bit_or s mstatus_sd_mask
    else bit_and s (not64 mstatus_sd_mask)

mie-test : (old : ℕ) → (bit_and old mstatus_mie_mask != 0) ≡ (bit old 3 != 0)
unfolding bit
mie-test old = ground (arith, and_field 3 1 old)

saved-bit :
    (old i : ℕ)
    → i < 64
    → bit (saved old) i ≡ (
        if bit old 3 != 0
        then max (bit old i) (digit (i == 7))
        else min (bit old i) (1 - digit (i == 7)))
saved-bit old i h = rw (mie-test old) (by_test (bit old 3 != 0))
  where
    by_test :
        (b : Bool)
        → bit (if b then bit_or old mstatus_mpie_mask else bit_and old (not64 mstatus_mpie_mask)) i
          ≡ (if b then max (bit old i) (digit (i == 7)) else min (bit old i) (1 - digit (i == 7)))
    by_test true = rw (bit-bit_or i, mpie-digits i h)
    by_test false = rw (cleared-bit old mstatus_mpie_mask i (omega arith) h, mpie-digits i h)

summed-bit : (s i : ℕ) → i < 63 → bit (summed s) i ≡ bit s i
summed-bit s i h = by_test (bit_and s mstatus_fs_mask == mstatus_fs_dirty)
  where
    n63 : (i == 63) ≡ false
    n63 = ground arith

    by_test :
        (b : Bool)
        → bit (if b then bit_or s mstatus_sd_mask else bit_and s (not64 mstatus_sd_mask)) i
          ≡ bit s i
    by_test true = rw (bit-bit_or i, sd-digits i (omega arith), n63) (omega arith)
    by_test false =
        rw
          (
            cleared-bit s mstatus_sd_mask i (omega arith) (omega arith),
            sd-digits i (omega arith),
            n63,
          )
          (omega (arith, bit-le s i))

-- The status that `take_exception` asks for, at each bit below SD: MPP is the privilege, MIE is
-- clear, MPIE is the old MIE, and every other bit is the old one.
pub trap_mstatus-bit :
    (old : ℕ) (priv : Privilege) (i : ℕ)
    → privilege_bits priv < 4
    → i < 63
    → bit (trap_mstatus old priv) i ≡ (
        if is_mpp i
        then bit (privilege_bits priv <<< 11) i
        else if i == 3
        then 0
        else if i == 7
        then bit old 3
        else bit old i)
unfolding trap_mstatus
trap_mstatus-bit old priv i hp h =
    let level = privilege_bits priv <<< 11 in
    let s2 = summed (saved old) in
    let s3 = bit_and s2 (not64 mstatus_mie_mask) in
    let e4 = cleared-bit s3 mstatus_mpp_mask i (omega arith) (omega arith) in
    let e3 = cleared-bit s2 mstatus_mie_mask i (omega arith) (omega arith) in
    let e : bit (trap_mstatus old priv) i
        ≡ max (min (min (bit (saved old) i) (1 - digit (i == 3))) (1 - digit (is_mpp i)))
            (bit level i) =
      rw (
        bit-bit_or i (bit_and s3 (not64 mstatus_mpp_mask)) level,
        e4,
        e3,
        mie-digits i (omega arith),
        mpp-digits i (omega arith),
        summed-bit (saved old) i h,
      ) in
    e
    ∙ combine (i == 3) (i == 7) (is_mpp i) (bit old i) (bit old 3) (bit level i) (bit (saved old) i)
        (bit-le old i) (bit-le old 3) (bit-le level i)
        (level-digits (privilege_bits priv) i hp (omega arith)) (saved-bit old i (omega arith))

pub trap_mstatus-lt :
    (old : ℕ) (priv : Privilege) → privilege_bits priv < 4 → trap_mstatus old priv < 2 ^ 64
unfolding trap_mstatus
trap_mstatus-lt old priv hp =
    let s3 = bit_and (summed (saved old)) (not64 mstatus_mie_mask) in
    bit_or-lt 64 (bit_and s3 (not64 mstatus_mpp_mask)) (privilege_bits priv <<< 11)
      (omega (
        arith,
        and_split 13 s3 (2 ^ 51 - 1) (2 ^ 11 - 1) (omega arith),
        and_low 51 (s3 / 2 ^ 13),
        and_low 11 s3,
      ))
      (omega arith)

-- The state after a trap, from the state before it.
abbrev pub trapped : Core → Exception → Core
trapped c ex =
    let saved_pc = c.pc / 2 ^ 2 * 2 ^ 2 in
    let old = c.csrs.at (csr_index Csr.mstatus) in
    let status = legal_mstatus old (trap_mstatus old c.priv) in
    let c1 = with_csr c (csr_index Csr.mcause) ex.mcause in
    let c2 = with_csr c1 (csr_index Csr.mtval) ex.mtval in
    let c3 = with_csr c2 (csr_index Csr.mepc) saved_pc in
    let c4 = with_csr c3 (csr_index Csr.mstatus) status in
    record c4 { pc = c.csrs.at (csr_index Csr.mtvec) / 2 ^ 2 * 2 ^ 2; priv = Privilege.machine }

-- A trap succeeds and gives the state `trapped`, which is well formed.
pub take_exception_lem :
    (c : Core) (ex : Exception)
    → IsWellFormed c
    → privilege_bits c.priv < 4
    → ex.mcause < 2 ^ 64
    → ex.mtval < 2 ^ 64
    → (take_exception c ex ≡ ok (trapped c ex)) × IsWellFormed (trapped c ex)
unfolding take_exception
take_exception_lem c ex wf hp h1 h2 =
    let old = c.csrs.at (csr_index Csr.mstatus) in
    let status = trap_mstatus old c.priv in
    let hs = trap_mstatus-lt old c.priv hp in
    let c1 = with_csr c (csr_index Csr.mcause) ex.mcause in
    let wf1 : IsWellFormed c1 = set_csr-IsWellFormed c Csr.mcause ex.mcause wf refl h1 in
    let c2 = with_csr c1 (csr_index Csr.mtval) ex.mtval in
    let wf2 : IsWellFormed c2 = set_csr-IsWellFormed c1 Csr.mtval ex.mtval wf1 refl h2 in
    let c3 = with_csr c2 (csr_index Csr.mepc) (c.pc / 2 ^ 2 * 2 ^ 2) in
    let wf3 : IsWellFormed c3 = set_csr-IsWellFormed c2 Csr.mepc c.pc wf2 refl wf.pc_fits in
    let c4 = with_csr c3 (csr_index Csr.mstatus) (legal_mstatus old status) in
    let wf4 : IsWellFormed c4 = set_csr-IsWellFormed c3 Csr.mstatus status wf3 refl hs in
    (
      rw (
        get_csr_lem c Csr.mstatus wf (omega arith),
        set_csr_lem c Csr.mcause ex.mcause wf refl h1,
        set_csr_lem c1 Csr.mtval ex.mtval wf1 refl h2,
        set_csr_lem c2 Csr.mepc c.pc wf2 refl wf.pc_fits,
        set_csr_lem c3 Csr.mstatus status wf3 refl hs,
        get_csr_lem c4 Csr.mtvec wf4 (omega arith),
        aligned-merge (c.csrs.at (csr_index Csr.mtvec)) (wf.csrs_fit (csr_index Csr.mtvec)),
      ),
      at_pc-IsWellFormed c4 (c.csrs.at (csr_index Csr.mtvec) / 2 ^ 2 * 2 ^ 2) Privilege.machine wf4
          (omega (arith, wf.csrs_fit (csr_index Csr.mtvec))),
    )
