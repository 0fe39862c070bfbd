-- ===== src/Execute/System/Return.antt =====
-- MRET: the status that it asks for, and the return from a trap.
use zinc_simulator.Prelude.{
  ℕ, ◌+◌, ◌-◌, ◌*◌, ◌/◌, ◌%◌, ◌^◌, ◌≤◌, ◌<◌, bit_and, bit_or, min, max, ◌≡◌, refl, ◌∙◌, arith, Bool,
  true, false, ok, if◌then◌else◌, ◌==◌, ◌!=◌, ◌&&◌, some, [], ◌∷◌, all_below, ◌>>=◌,
}
use zinc_simulator.Word.{◌<<<◌, not64}
use zinc_simulator.Word.Bits.{bit, bit-le, bit-bit_or}
use zinc_simulator.Word.Fields.{and_field}
use zinc_simulator.Csr.{
  Csr, csr_index, Privilege, privilege_bits, privilege_of, mstatus_mie_mask, mstatus_mpie_mask,
  mstatus_mpp_mask, mstatus_mprv_mask,
}
use zinc_simulator.Core.{Core, Exception, legal_mstatus, trap_mstatus, take_exception}
use zinc_simulator.Core.Shape.{is_level, IsWellFormed, get_csr_lem}
use zinc_simulator.Core.Status.{digit, agrees, mask-digits, legal_mstatus_fields}
use zinc_simulator.Core.Trap.{
  mie-digits, mpie-digits, mpp-digits, is_mpp, cleared-bit, trap_mstatus-bit, trapped,
  take_exception_lem,
}
use zinc_simulator.Execute.{StepResult, RegType, reg_write, normal_step}
use zinc_simulator.Execute.System.{mret_mstatus, execute_mret}

mprv-digits : (i : ℕ) → i < 64 → bit mstatus_mprv_mask i ≡ digit (i == 17)
unfolding all_below bit agrees
mprv-digits = mask-digits mstatus_mprv_mask (λ i. i == 17) refl

-- The first step of the new status: MIE takes the old MPIE.
abbrev restored : ℕ → ℕ
restored old =
    if bit_and old mstatus_mpie_mask != 0
    then bit_or old mstatus_mie_mask
    else bit_and old (not64 mstatus_mie_mask)

mpie-test : (old : ℕ) → (bit_and old mstatus_mpie_mask != 0) ≡ (bit old 7 != 0)
unfolding bit
mpie-test old = ground (arith, and_field 7 1 old)

restored-bit :
    (old i : ℕ)
    → i < 64
    → bit (restored old) i ≡ (
        if bit old 7 != 0
        then max (bit old i) (digit (i == 3))
        else min (bit old i) (1 - digit (i == 3)))
restored-bit old i h = rw (mpie-test old) (by_test (bit old 7 != 0))
  where
    by_test :
        (b : Bool)
        → bit (if b then bit_or old mstatus_mie_mask else bit_and old (not64 mstatus_mie_mask)) i
          ≡ (if b then max (bit old i) (digit (i == 3)) else min (bit old i) (1 - digit (i == 3)))
    by_test true = rw (bit-bit_or i, mie-digits i h)
    by_test false = rw (cleared-bit old mstatus_mie_mask i (omega arith) h, mie-digits i h)

-- The status after MPP is cleared.
abbrev popped : ℕ → ℕ
popped old = bit_and (bit_or (restored old) mstatus_mpie_mask) (not64 mstatus_mpp_mask)

popped-bit :
    (old i : ℕ)
    → i < 64
    → bit (popped old) i ≡ min (max (bit (restored old) i) (digit (i == 7))) (1 - digit (is_mpp i))
popped-bit old i h = rw (
  cleared-bit (bit_or (restored old) mstatus_mpie_mask) mstatus_mpp_mask i (omega arith) h,
  bit-bit_or i (restored old) mstatus_mpie_mask,
  mpie-digits i h,
  mpp-digits i h,
)

combine :
    (a b p : Bool) (x m s : ℕ)
    → x ≤ 1
    → m ≤ 1
    → s ≡ (if m != 0 then max x (digit a) else min x (1 - digit a))
    → min (max s (digit b)) (1 - digit p) ≡ (if p then 0 else if b then 1 else if a then m else x)
combine a b p x m s hx hm hs = ground arith

-- The status that MRET asks for, at each bit: MPP is clear, MPIE is set, MIE is the old MPIE, MPRV
-- is clear unless the hart returns to machine mode, and every other bit is the old one.
pub mret_mstatus-bit :
    (old i : ℕ)
    → i < 64
    → bit (mret_mstatus old) i ≡ (
        if is_mpp i
        then 0
        else if i == 7
        then 1
        else if i == 3
        then bit old 7
        else if i == 17 && old / 2 ^ 11 % 4 != 3
        then 0
        else bit old i)
unfolding mret_mstatus
mret_mstatus-bit old i h =
    let level : bit_and old mstatus_mpp_mask / 2 ^ 11 ≡ old / 2 ^ 11 % 4 =
      omega (arith, and_field 11 2 old) in
    let plain =
      popped-bit old i h
      ∙ combine (i == 3) (i == 7) (is_mpp i) (bit old i) (bit old 7) (bit (restored old) i)
          (bit-le old i) (bit-le old 7) (restored-bit old i h) in
    rw level (by_level plain (old / 2 ^ 11 % 4 != 3))
  where
    by_level :
        bit (popped old) i
          ≡ (if is_mpp i then 0 else if i == 7 then 1 else if i == 3 then bit old 7 else bit old i)
        → (b : Bool)
        → bit (if b then bit_and (popped old) (not64 mstatus_mprv_mask) else popped old) i ≡ (
            if is_mpp i
            then 0
            else if i == 7
            then 1
            else if i == 3
            then bit old 7
            else if i == 17 && b
            then 0
            else bit old i)
    by_level plain true =
        let e = cleared-bit (popped old) mstatus_mprv_mask i (omega arith) h in
        e ∙ rw (plain, mprv-digits i h) (ground (arith, bit-le old i, bit-le old 7))
    by_level plain false = plain ∙ ground arith

-- The status that a trap leaves.
abbrev pub trapped_status : ℕ → Privilege → ℕ
trapped_status old priv = legal_mstatus old (trap_mstatus old priv)

pub trapped_status-bit :
    (old : ℕ) (priv : Privilege) (i : ℕ)
    → privilege_bits priv < 4
    → i < 18
    → bit (trapped_status old priv) i ≡ (
        if is_mpp i
        then bit (privilege_bits priv <<< 11) i
        else if i == 3
        then 0
        else if i == 7
        then bit old 3
        else bit old i)
trapped_status-bit old priv i hp h =
    let e = (legal_mstatus_fields old (trap_mstatus old priv) i (omega arith)).0 in
    let t = trap_mstatus-bit old priv i hp (omega arith) in ground (arith, e, t)

two-digits : (x : ℕ) → x / 2 ^ 11 % 4 ≡ bit x 11 + 2 * bit x 12
unfolding bit
two-digits x = omega arith

level-back :
    (old : ℕ) (priv : Privilege)
    → privilege_bits priv < 4
    → trapped_status old priv / 2 ^ 11 % 4 ≡ privilege_bits priv
level-back old priv hp =
    let e = two-digits (trapped_status old priv) in
    let e1 = trapped_status-bit old priv 11 hp (omega arith) in
    let e2 = trapped_status-bit old priv 12 hp (omega arith) in
    let d = two-digits (privilege_bits priv <<< 11) in omega arith

level_of :
    (priv : Privilege)
    → is_level priv ≡ true
    → (privilege_bits priv < 4) × (privilege_of (privilege_bits priv) ≡ priv)
unfolding privilege_of
level_of Privilege.user h = (omega arith, refl)
level_of Privilege.supervisor h = (omega arith, refl)
level_of Privilege.machine h = (omega arith, refl)
level_of (Privilege.reserved n) h = cc

-- On a well-formed hart at one of the three levels, taking an exception and then executing MRET
-- goes back to the interrupted instruction (its address, aligned to four) at the interrupted level,
-- and the status that MRET asks for has the interrupted MIE.
pub trap-mret :
    (c : Core) (ex : Exception)
    → IsWellFormed c
    → is_level c.priv ≡ true
    → ex.mcause < 2 ^ 64
    → ex.mtval < 2 ^ 64
    → (status : ℕ) × ((take_exception c ex >>= execute_mret)
        ≡ ok (
            StepResult.normal (record normal_step {
              next_pc = some (c.pc / 4 * 4);
              next_privilege = some c.priv;
              reg_writes = reg_write RegType.csr (csr_index Csr.mstatus) status ∷ [];
            })))
      × (bit status 3 ≡ bit (c.csrs.at (csr_index Csr.mstatus)) 3)
unfolding execute_mret
trap-mret c ex wf named h1 h2 =
    let old = c.csrs.at (csr_index Csr.mstatus) in
    let (hp, back) = level_of c.priv named in
    let (run, wf') = take_exception_lem c ex wf hp h1 h2 in
    let level : bit_and (trapped_status old c.priv) mstatus_mpp_mask / 2 ^ 11
        ≡ privilege_bits c.priv =
      omega (arith, and_field 11 2 (trapped_status old c.priv), level-back old c.priv hp) in
    let status = mret_mstatus (trapped_status old c.priv) in
    (
      status,
      rw (
        run,
        get_csr_lem (trapped c ex) Csr.mepc wf' (omega arith),
        get_csr_lem (trapped c ex) Csr.mstatus wf' (omega arith),
        level,
        back,
      ),
      mret_mstatus-bit (trapped_status old c.priv) 3 (omega arith)
          ∙ trapped_status-bit old c.priv 7 hp (omega arith),
    )
