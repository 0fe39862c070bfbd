-- ===== src/Fpu/Unpack/Number.antt =====
-- What the class of a finite number other than zero says of it.
use zinc_simulator.Prelude.{ℕ, ◌≡◌, refl, true, false, ok}
use mathlib.Core.Path.{subst}
use zinc_simulator.Fpu.{FpClass}
use zinc_simulator.Fpu.Unpack.{UnpackedFp32, unpack}
use zinc_simulator.Fpu.Unpack.Value.{is_number, IsNumber, unpacked, Parts-IsNumber}
use zinc_simulator.Fpu.Round.{is_nan, is_zero, is_infinity}

-- It is in none of the classes with a special case.
pub is_number_lem :
    (c : FpClass)
    → is_number c ≡ true
    → (is_nan c ≡ false) × (is_infinity c ≡ false) × (is_zero c ≡ false)
is_number_lem FpClass.zero h = cc
is_number_lem FpClass.subnormal h = (refl, refl, refl)
is_number_lem FpClass.normal h = (refl, refl, refl)
is_number_lem FpClass.infinity h = cc
is_number_lem FpClass.signaling_nan h = cc
is_number_lem FpClass.quiet_nan h = cc

-- Its significand has 24 digits.
pub number_lem :
    (raw : ℕ) (u : UnpackedFp32) → unpack raw ≡ ok u → is_number u.fp_class ≡ true → IsNumber u
number_lem raw u run is =
    let (v, ran, p) = unpacked raw in
    let same : v ≡ u = cc in
    subst (λ (w : UnpackedFp32). is_number w.fp_class ≡ true → IsNumber w) same
      (Parts-IsNumber raw v v.fp_class p.parts) is
