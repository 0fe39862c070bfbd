-- ===== src/Fpu/Arith/Bounds.antt =====
-- Sum and product end in a number of 32 bits and flags of five.
use native.Mathlib.Nat.{pow-le-pow_right}
use zinc_simulator.Prelude.{
  ℕ, suc, ◌-◌, ◌*◌, ◌^◌, ◌≤◌, ◌<◌, bit_and, bit_or, ◌≡◌, refl, arith, Bool, true, false, ◌||◌,
  if◌then◌else◌, Bool-cases, inl, inr, Result, Ends, returns, Ends-if, Ends-split, Ends-bind,
}
use zinc_simulator.Prelude.Int.{ℤ, ltb_ℤ}
use zinc_simulator.Word.{u64, ◌<<<◌}
use zinc_simulator.Word.Bits.{bit_or-lt}
use zinc_simulator.Word.Fields.{and_low}
use zinc_simulator.Insn.{RoundingMode}
use zinc_simulator.Fpu.{FpClass, FpResult}
use zinc_simulator.Fpu.Unpack.{UnpackedFp32}
use zinc_simulator.Fpu.Unpack.Value.{
  is_number, IsNumber, IsUnpacked, unpack_returns, Parts-IsNumber,
}
use zinc_simulator.Fpu.Round.{sign_bits, is_nan, is_zero, is_infinity, shift_right_jam}
use zinc_simulator.Fpu.Round.Shift.{shift_right_jam-small, shift_right_jam-lt}
use zinc_simulator.Fpu.Round.Bounds.{IsRefusal, IsWord, sign_bits-lt, round_and_pack-Ends}
use zinc_simulator.Fpu.Arith.{Aligned, align, add_aligned, add_or_sub, multiply_finite, multiply}

abbrev pub Ok : RoundingMode → Result FpResult → Type 0
Ok rm r = Ends IsWord (IsRefusal rm) r

pub or_false : (a b : Bool) → (a || b) ≡ false → (a ≡ false) × (b ≡ false)
or_false false b h = (refl, h)
or_false true b h = cc

number_of :
    (c : FpClass)
    → is_nan c ≡ false
    → is_infinity c ≡ false
    → is_zero c ≡ false
    → is_number c ≡ true
number_of FpClass.zero n i z = cc
number_of FpClass.subnormal n i z = refl
number_of FpClass.normal n i z = refl
number_of FpClass.infinity n i z = cc
number_of FpClass.signaling_nan n i z = cc
number_of FpClass.quiet_nan n i z = cc

-- What the special cases leave is a number.
pub unpacked-IsNumber :
    {raw : ℕ} {u : UnpackedFp32}
    → IsUnpacked raw u
    → is_nan u.fp_class ≡ false
    → is_infinity u.fp_class ≡ false
    → is_zero u.fp_class ≡ false
    → IsNumber u
unpacked-IsNumber {raw} {u} p n i z =
    Parts-IsNumber raw u u.fp_class p.parts (number_of u.fp_class n i z)

-- A sign on a magnitude.
pub signed-lt : (s : Bool) (m : ℕ) → m < 2 ^ 32 → bit_or (sign_bits s) m < 2 ^ 32
signed-lt s m h = bit_or-lt 32 (sign_bits s) m (sign_bits-lt s) h

pub magnitude-lt : (s : Bool) (raw : ℕ) → bit_or (bit_and raw (2 ^ 31 - 1)) (sign_bits s) < 2 ^ 32
magnitude-lt s raw =
    bit_or-lt 32 (bit_and raw (2 ^ 31 - 1)) (sign_bits s) (omega (arith, and_low 31 raw))
      (sign_bits-lt s)

pub nan-IsWord : (b : Bool) → IsWord (record { value = 0x7fc00000; flags = if b then 16 else 0 })
nan-IsWord b = ground arith

-- A result with a sticky digit.
pub sticky-lt : (b : Bool) (q : ℕ) → q < 2 ^ 27 → (if b then bit_or q 1 else q) < 2 ^ 27
sticky-lt true q h = bit_or-lt 27 q 1 h (omega arith)
sticky-lt false q h = h

-- Alignment does not make a significand longer.
pub align-lt :
    (n : ℕ) (e f : ℤ) (l r : ℕ)
    → suc n ≤ 64
    → l < 2 ^ suc n
    → r < 2 ^ suc n
    → ((align e f l r).lhs < 2 ^ suc n) × ((align e f l r).rhs < 2 ^ suc n)
unfolding align
align-lt n e f l r le p q =
    let top = pow-le-pow_right {n = 2} (omega arith) le in
    elim (Bool-cases (ltb_ℤ f e)) [
      | inl down ↦ rw down (p, shift_right_jam-small n r _ (omega arith) q)
      | inr other ↦ elim (Bool-cases (ltb_ℤ e f)) [
        | inl up ↦ rw (other, up) (shift_right_jam-small n l _ (omega arith) p, q)
        | inr same ↦ rw (other, same) (p, q)
      ]
    ]

add_aligned-Ok :
    (s t : Bool) (a : Aligned) (rm : RoundingMode)
    → a.lhs < 2 ^ 27
    → a.rhs < 2 ^ 27
    → Ok rm (add_aligned s t a rm)
unfolding add_aligned
add_aligned-Ok s t a rm p q = Ends-if _ (round_and_pack-Ends s a.exponent _ rm (omega arith)) (
    Ends-if _ (returns (ground arith, omega arith))
      (round_and_pack-Ends _ a.exponent _ rm (ground arith)))

pub add_or_sub-Ok :
    (a b : ℕ) (subtract : Bool) (rm : RoundingMode)
    → a < 2 ^ 32
    → Ok rm (add_or_sub a b subtract rm)
unfolding add_or_sub
add_or_sub-Ok a b subtract rm ha = Ends-bind (unpack_returns a) (λ u p.
    Ends-bind (unpack_returns b) (λ v q.
      Ends-split _ (λ nan. returns (nan-IsWord _))
        (λ nan.
          Ends-split _
            (λ inf.
              Ends-if _ (returns (omega arith, omega arith))
                (returns (signed-lt _ _ (omega arith), omega arith)))
            (λ inf. Ends-if _ (returns (sign_bits-lt _, omega arith)) (
              Ends-split _ (λ zl. returns (magnitude-lt _ b, omega arith))
                (λ zl.
                  Ends-split _ (λ zr. returns (ha, omega arith))
                    (λ zr.
                      let (nl, nr) = or_false _ _ nan in
                      let (il, ir) = or_false _ _ inf in
                      let l = unpacked-IsNumber p nl il zl in
                      let r = unpacked-IsNumber q nr ir zr in
                      let (x, y) =
                        align-lt 26 u.exponent v.exponent (u.significand <<< 3)
                          (v.significand <<< 3) (omega arith) (omega (arith, l.upper))
                          (omega (arith, r.upper)) in
                      add_aligned-Ok u.sign _ _ rm x y)))))))

pub product-lt : (a b : ℕ) → a < 2 ^ 24 → b < 2 ^ 24 → a * b < 2 ^ 48
product-lt a b p q = grind arith

product_digits-lt :
    (b : Bool) (v : ℕ) → v < 2 ^ 48 → shift_right_jam v (if b then 21 else 20) < 2 ^ 28
product_digits-lt true v h = shift_right_jam-lt 27 v 21 (omega arith) (omega arith)
product_digits-lt false v h = shift_right_jam-lt 27 v 20 (omega arith) (omega arith)

multiply_finite-Ok :
    (sign : Bool) (l r : UnpackedFp32) (rm : RoundingMode)
    → IsNumber l
    → IsNumber r
    → Ok rm (multiply_finite sign l r rm)
unfolding multiply_finite
multiply_finite-Ok sign l r rm nl nr =
    let big = product-lt l.significand r.significand nl.upper nr.upper in
    let whole : u64 (l.significand * r.significand) ≡ l.significand * r.significand = omega arith in
    round_and_pack-Ends sign _ _ rm (rw whole (product_digits-lt _ _ big))

pub multiply-Ok : (a b : ℕ) (rm : RoundingMode) → Ok rm (multiply a b rm)
unfolding multiply
multiply-Ok a b rm = Ends-bind (unpack_returns a) (λ u p. Ends-bind (unpack_returns b) (λ v q.
    Ends-split _ (λ nan. returns (nan-IsWord _))
      (λ nan. Ends-if _ (returns (omega arith, omega arith)) (
        Ends-split _ (λ inf. returns (signed-lt _ _ (omega arith), omega arith))
          (λ inf.
            Ends-split _ (λ z. returns (sign_bits-lt _, omega arith))
              (λ z.
                let (nl, nr) = or_false _ _ nan in
                let (il, ir) = or_false _ _ inf in
                let (zl, zr) = or_false _ _ z in
                multiply_finite-Ok _ u v rm (unpacked-IsNumber p nl il zl)
                  (unpacked-IsNumber q nr ir zr)))))))
