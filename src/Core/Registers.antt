-- ===== src/Core/Registers.antt =====
-- Reads after writes of the hart's registers, and the invariant under every write.
use zinc_simulator.Prelude.{
  ℕ, bit_and, ◌/◌, ◌^◌, ◌<◌, ◌≡◌, refl, ap, ◌∙◌, sym, arith, true, false, Bool, Result, ok, err,
  Vector, update, lt→ltb, ltb, if◌then◌else◌, ◌==◌, Bool-cases, inl, inr, update_self, Ends,
  Ends-if, Ends-bind, returns, throws, Fits, IsFault, logic_error, undefined_behaviour, ◌>>=◌,
}
use zinc_simulator.Word.{u32}
use zinc_simulator.Word.Fields.{and_low}
use zinc_simulator.Csr.{Csr, csr_index}
use zinc_simulator.Core.{Core, get_gpr, set_gpr, get_fpr, set_fpr, get_csr, set_csr, legal_mstatus}
use zinc_simulator.Core.Status.{fs, legal_mstatus_fields}
use zinc_simulator.Core.Shape.{
  IsWellFormed, IsSound, is_writable, slot, stored, shown, with_csr, set_csr_lem, get_csr_lem,
}

with_gpr-IsWellFormed :
    (c : Core) (i value : ℕ)
    → IsWellFormed c
    → (i == 0) ≡ false
    → value < 2 ^ 64
    → IsWellFormed
        (record c { gprs = record { size = c.gprs.size; at = update c.gprs.at i value } })
with_gpr-IsWellFormed c i value wf e h = record {
  gprs_size = wf.gprs_size;
  fprs_size = wf.fprs_size;
  csrs_size = wf.csrs_size;
  zero_reg = ground (arith, wf.zero_reg);
  gprs_fit = λ k. ground (arith, wf.gprs_fit k);
  fprs_fit = wf.fprs_fit;
  csrs_fit = wf.csrs_fit;
  pc_fits = wf.pc_fits;
  fcsr_fits = wf.fcsr_fits;
}

with_fpr-IsWellFormed :
    (c : Core) (i value : ℕ)
    → IsWellFormed c
    → value < 2 ^ 32
    → IsWellFormed
        (record c { fprs = record { size = c.fprs.size; at = update c.fprs.at i value } })
with_fpr-IsWellFormed c i value wf h = record {
  gprs_size = wf.gprs_size;
  fprs_size = wf.fprs_size;
  csrs_size = wf.csrs_size;
  zero_reg = wf.zero_reg;
  gprs_fit = wf.gprs_fit;
  fprs_fit = λ k. ground (arith, wf.fprs_fit k);
  csrs_fit = wf.csrs_fit;
  pc_fits = wf.pc_fits;
  fcsr_fits = wf.fcsr_fits;
}

-- A write of a general register is read back, except that x0 stays zero; every other register keeps
-- its value, and the invariant is kept.
pub set_gpr-get_gpr :
    (c : Core) (i j value : ℕ)
    → IsWellFormed c
    → i < 32
    → j < 32
    → value < 2 ^ 64
    → (c' : Core) × (set_gpr c i value ≡ ok c')
      × IsWellFormed c'
      × (get_gpr c' j ≡ (if i == j then (if j == 0 then ok 0 else ok value) else get_gpr c j))
unfolding set_gpr get_gpr
set_gpr-get_gpr c i j value wf hi hj hv = elim (Bool-cases (i == 0)) [
  | inl e ↦ (c, rw e, wf, ground (arith, wf.zero_reg))
  | inr e ↦ (
    record c { gprs = record { size = c.gprs.size; at = update c.gprs.at i value } },
    rw e (rw wf.gprs_size (rw (lt→ltb i 32 hi))),
    with_gpr-IsWellFormed c i value wf e hv,
    ground (arith, wf.gprs_size),
  )
]

legal_mstatus-lt : (old value : ℕ) → legal_mstatus old value < 2 ^ 64
legal_mstatus-lt old value =
    let e = (legal_mstatus_fields old value 0 (omega arith)).1 in
    elim (Bool-cases (fs value == 3)) [
      | inl dirty ↦ omega (arith, rw dirty at e)
      | inr clean ↦ omega (arith, rw clean at e)
    ]

stored-lt :
    (csr : Csr) (old value : ℕ) → old < 2 ^ 64 → value < 2 ^ 64 → stored csr old value < 2 ^ 64
stored-lt Csr.mstatus old value p q = legal_mstatus-lt old value
stored-lt Csr.fflags old value p q = omega arith
stored-lt Csr.frm old value p q = omega arith
stored-lt Csr.fcsr old value p q = omega arith
stored-lt Csr.mepc old value p q = omega arith
stored-lt Csr.mtvec old value p q = omega arith
stored-lt _ old value p q = q

-- What comes to stand in `fcsr` has its eight bits.
stored-fcsr :
    (csr : Csr) (old value : ℕ)
    → is_writable csr ≡ true
    → slot csr ≡ 3
    → old < 2 ^ 8
    → stored csr old value < 2 ^ 8
stored-fcsr Csr.fflags old value t e h = omega arith
stored-fcsr Csr.frm old value t e h = omega arith
stored-fcsr Csr.fcsr old value t e h = omega arith
stored-fcsr (Csr.reserved n) old value t e h = cc
stored-fcsr _ old value t e h = absurd (omega arith)

index-lt : (csr : Csr) → is_writable csr ≡ true → csr_index csr < 4096
index-lt Csr.fflags t = omega arith
index-lt (Csr.reserved n) t = cc
index-lt _ t = omega arith

pub with_csr-IsWellFormed :
    (c : Core) (i word : ℕ)
    → IsWellFormed c
    → word < 2 ^ 64
    → (i ≡ 3 → word < 2 ^ 8)
    → IsWellFormed (with_csr c i word)
with_csr-IsWellFormed c i word wf h f = record {
  gprs_size = wf.gprs_size;
  fprs_size = wf.fprs_size;
  csrs_size = wf.csrs_size;
  zero_reg = wf.zero_reg;
  gprs_fit = wf.gprs_fit;
  fprs_fit = wf.fprs_fit;
  csrs_fit = λ k. ground (arith, wf.csrs_fit k);
  pc_fits = wf.pc_fits;
  fcsr_fits = ground (arith, f, wf.fcsr_fits);
}

pub set_csr-IsWellFormed :
    (c : Core) (csr : Csr) (value : ℕ)
    → IsWellFormed c
    → is_writable csr ≡ true
    → value < 2 ^ 64
    → IsWellFormed (with_csr c (slot csr) (stored csr (c.csrs.at (slot csr)) value))
set_csr-IsWellFormed c csr value wf t h =
    with_csr-IsWellFormed c (slot csr) _ wf
      (stored-lt csr (c.csrs.at (slot csr)) value (wf.csrs_fit (slot csr)) h)
      (λ e. stored-fcsr csr (c.csrs.at (slot csr)) value t e (rw e wf.fcsr_fits))

-- A write to a CSR that is accepted returns what a read of it then gives, keeps the invariant, and
-- is seen by the CSRs that share its register and by no other.
pub set_csr-get_csr :
    (c : Core) (csr other : Csr) (value : ℕ)
    → IsWellFormed c
    → is_writable csr ≡ true
    → csr_index other < 4096
    → value < 2 ^ 64
    → let word = stored csr (c.csrs.at (slot csr)) value in
      (r : ℕ) × (c' : Core) × (set_csr c csr value ≡ ok (r, c'))
      × IsWellFormed c'
      × (get_csr c' csr ≡ ok r)
      × (get_csr c' other
          ≡ (if slot csr == slot other then ok (shown other word) else get_csr c other))
set_csr-get_csr c csr other value wf t ho h =
    let word = stored csr (c.csrs.at (slot csr)) value in
    let c' = with_csr c (slot csr) word in
    let wf' : IsWellFormed c' = set_csr-IsWellFormed c csr value wf t h in
    (
      shown csr word,
      c',
      set_csr_lem c csr value wf t h,
      wf',
      get_csr_lem c' csr wf' (index-lt csr t)
          ∙ ap (λ (x : ℕ). ok (shown csr x)) (update_self c.csrs.at (slot csr) word),
      get_csr_lem c' other wf' ho ∙ elim (Bool-cases (slot csr == slot other)) [
        | inl e ↦ rw e
        | inr e ↦ rw e (sym (get_csr_lem c other wf ho))
      ],
    )

abbrev pub SoundEnd : Result Core → Type 0
SoundEnd r = Ends IsSound IsFault r

written-Ends :
    (b : Bool) (f : Vector → Core) (v : Vector)
    → IsSound (f v)
    → SoundEnd ((if b then ok v else err undefined_behaviour) >>= λ w. ok (f w))
written-Ends true f v h = returns h
written-Ends false f v h = throws tt

pub set_gpr-Ends :
    (c : Core) (i value : ℕ) → IsSound c → value < 2 ^ 64 → SoundEnd (set_gpr c i value)
unfolding set_gpr
set_gpr-Ends c i value (wf, hp) h = elim (Bool-cases (i == 0)) [
  | inl e ↦ rw e (returns (wf, hp))
  | inr e ↦
      let sound = with_gpr-IsWellFormed c i value wf e h in
      rw e (written-Ends (ltb i c.gprs.size) (λ gprs. record c { gprs = gprs }) _ (sound, hp))
]

pub set_fpr-Ends : (c : Core) (i value : ℕ) → IsSound c → SoundEnd (set_fpr c i value)
unfolding set_fpr
set_fpr-Ends c i value (wf, hp) =
    let sound = with_fpr-IsWellFormed c i (u32 value) wf (omega arith) in
    written-Ends (ltb i c.fprs.size) (λ fprs. record c { fprs = fprs }) _ (sound, hp)

refused :
    (c : Core) (csr : Csr) (value : ℕ)
    → is_writable csr ≡ false
    → set_csr c csr value ≡ err logic_error
unfolding set_csr
refused c Csr.mhartid value e = refl
refused c (Csr.reserved n) value e = refl
refused c _ value e = cc

pub set_csr-Ends :
    (c : Core) (csr : Csr) (value : ℕ)
    → IsSound c
    → value < 2 ^ 64
    → Ends (λ (r : ℕ × Core). IsSound r.1) IsFault (set_csr c csr value)
set_csr-Ends c csr value (wf, hp) h = elim (Bool-cases (is_writable csr)) [
  | inl e ↦
      rw (set_csr_lem c csr value wf e h) (returns (set_csr-IsWellFormed c csr value wf e h, hp))
  | inr e ↦ rw (refused c csr value e) (throws tt)
]

pub get_gpr-Ends : (c : Core) (i : ℕ) → IsSound c → Fits 64 (get_gpr c i)
unfolding get_gpr
get_gpr-Ends c i (wf, hp) = Ends-if _ (returns (wf.gprs_fit i)) (throws tt)

pub get_fpr-Ends : (c : Core) (i : ℕ) → IsSound c → Fits 32 (get_fpr c i)
unfolding get_fpr
get_fpr-Ends c i (wf, hp) = Ends-if _ (returns (wf.fprs_fit i)) (throws tt)

pub get_csr-Ends : (c : Core) (csr : Csr) → IsSound c → Fits 64 (get_csr c csr)
unfolding get_csr
get_csr-Ends c Csr.fflags (wf, hp) =
    Ends-bind {Q = λ v. v < 2 ^ 64} (Ends-if _ (returns (wf.csrs_fit 3)) (throws tt))
      (λ v q. returns {a = bit_and v 0x1f} (omega (arith, and_low 5 v)))
get_csr-Ends c Csr.frm (wf, hp) =
    Ends-bind {Q = λ v. v < 2 ^ 64} (Ends-if _ (returns (wf.csrs_fit 3)) (throws tt))
      (λ v q. returns {a = v / 2 ^ 5} (omega arith))
get_csr-Ends c csr (wf, hp) = Ends-if _ (returns (wf.csrs_fit (csr_index csr))) (throws tt)

pub get_gpr-at : (c : Core) (i : ℕ) → IsWellFormed c → i < 32 → get_gpr c i ≡ ok (c.gprs.at i)
unfolding get_gpr
get_gpr-at c i wf h = rw (wf.gprs_size, lt→ltb i 32 h)

pub set_gpr-at :
    (c : Core) (i value : ℕ)
    → c.gprs.size ≡ 32
    → i < 32
    → (i == 0) ≡ false
    → set_gpr c i value
      ≡ ok (record c { gprs = record { size = c.gprs.size; at = update c.gprs.at i value } })
unfolding set_gpr
set_gpr-at c i value e h z = rw (z, e, lt→ltb i 32 h)
