-- ===== src/Fpu/Round/Encoding.antt =====
-- The rounding of a significand in each mode, and the pattern that `pack` makes of it.
use zinc_simulator.Prelude.{
  ℕ, ◌+◌, ◌*◌, ◌/◌, ◌%◌, ◌^◌, ◌≤◌, ◌<◌, bit_and, ◌≡◌, ◌⊎◌, inl, inr, refl, ◌∙◌, ap, arith, Bool,
  true, false, ◌&&◌, ◌||◌, ◌==◌, ◌!=◌, ltb, if◌then◌else◌, Bool-cases, Ends, returns, throws,
}
use zinc_simulator.Prelude.Int.{ℤ, pos, negsuc, ◌≤ℤ◌, ◌+ℤ◌, ◌-ℤ◌, ltb_ℤ, int_laws, pos_part}
use zinc_simulator.Word.{u32}
use zinc_simulator.Word.Fields.{and_low}
use zinc_simulator.Insn.{RoundingMode}
use zinc_simulator.Fpu.Unpack.{Scaled}
use zinc_simulator.Fpu.Round.{should_round_up, denormalize, round_significand, carry, pack}
use zinc_simulator.Fpu.Round.Pack.{encode, exponent_of, pack-carry}
use zinc_simulator.Fpu.Round.Shift.{shift_right_jam-small}
use zinc_simulator.Fpu.Round.Bounds.{IsRefusal}

-- Towards zero, away from it, and to the nearest multiple of 8.
abbrev pub IsFloor : ℕ → ℕ → Type 0
IsFloor n r = (8 * r ≤ n) × (n < 8 * r + 8)

abbrev pub IsCeiling : ℕ → ℕ → Type 0
IsCeiling n r = (n ≤ 8 * r) × (8 * r < n + 8)

-- `r` is `n`, less its three round bits, as IEEE 754 rounds a number of that sign.
abbrev pub IsRounded : RoundingMode → Bool → ℕ → ℕ → Type 0
IsRounded RoundingMode.rne sign n r =
    (8 * r ≤ n + 4) × (n ≤ 8 * r + 4) × (if n % 8 == 4 then r % 2 ≡ 0 else Unit)
IsRounded RoundingMode.rtz sign n r = IsFloor n r
IsRounded RoundingMode.rdn sign n r = if sign then IsCeiling n r else IsFloor n r
IsRounded RoundingMode.rup sign n r = if sign then IsFloor n r else IsCeiling n r
IsRounded RoundingMode.rmm sign n r = (8 * r ≤ n + 4) × (n < 8 * r + 4)
IsRounded _ sign n r = ⊥

-- The round bits and the rest.
module _ (n : ℕ) where
  bits : u32 (bit_and n 7) ≡ n % 8
  bits = omega (arith, and_low 3 n)

  odd : (q : ℕ) → bit_and q 1 ≡ q % 2
  odd q = and_low 1 q

  rne_rounds :
      let q = n / 8 in
      let b = n % 8 in
      IsRounded RoundingMode.rne true n (if ltb 4 b || (b == 4 && (q % 2) != 0) then q + 1 else q)
  rne_rounds = (
    ground arith,
    ground arith,
    elim (Bool-cases (n % 8 == 4)) [ inl tie ↦ rw tie (ground arith) | inr none ↦ rw none tt ],
  )

-- The significand is rounded as IEEE 754 asks in each mode of the standard; another mode is refused.
pub round_significand-IsRounded :
    (rm : RoundingMode) (sign : Bool) (n : ℕ)
    → Ends (IsRounded rm sign n) (IsRefusal rm) (round_significand rm sign n)
unfolding round_significand should_round_up
round_significand-IsRounded RoundingMode.rne sign n =
    rw (bits n, odd n (n / 8)) (returns (rne_rounds n))
round_significand-IsRounded RoundingMode.rtz sign n = returns (omega arith)
round_significand-IsRounded RoundingMode.rdn true n = rw (bits n) (returns (ground arith))
round_significand-IsRounded RoundingMode.rdn false n = returns (ground arith)
round_significand-IsRounded RoundingMode.rup true n = returns (ground arith)
round_significand-IsRounded RoundingMode.rup false n = rw (bits n) (returns (ground arith))
round_significand-IsRounded RoundingMode.rmm sign n = rw (bits n) (returns (ground arith))
round_significand-IsRounded RoundingMode.dynamic sign n = throws (refl, refl)
round_significand-IsRounded (RoundingMode.reserved m) sign n = throws (refl, refl)

pub rounded_range :
    (rm : RoundingMode) (sign : Bool) (n r : ℕ)
    → IsRounded rm sign n r
    → (n < 8 * r + 8) × (8 * r < n + 8)
rounded_range RoundingMode.rne sign n r p = omega arith
rounded_range RoundingMode.rtz sign n r p = omega arith
rounded_range RoundingMode.rdn true n r p = omega arith
rounded_range RoundingMode.rdn false n r p = omega arith
rounded_range RoundingMode.rup true n r p = omega arith
rounded_range RoundingMode.rup false n r p = omega arith
rounded_range RoundingMode.rmm sign n r p = omega arith
rounded_range RoundingMode.dynamic sign n r p = absurd p
rounded_range (RoundingMode.reserved m) sign n r p = absurd p

-- The exponent field of a number that is not below the least normal exponent.
abbrev pub field_from : ℤ → ℕ
field_from e = pos_part (e +ℤ pos 126)

from_field : (e : ℤ) → negsuc 125 ≤ℤ e → e ≡ exponent_of (field_from e)
unfolding ◌+ℤ◌ ◌-ℤ◌
from_field e h = ground arith

pub denormalize_range :
    (s : Scaled)
    → 2 ^ 26 ≤ s.significand
    → s.significand < 2 ^ 27
    → let d = denormalize s in
      (negsuc 125 ≤ℤ d.exponent)
      × (d.significand < 2 ^ 27)
      × ((field_from d.exponent ≡ 0) ⊎ (2 ^ 26 ≤ d.significand))
unfolding denormalize
denormalize_range s lo hi = elim (Bool-cases (ltb_ℤ s.exponent (negsuc 125))) [
  | inl below ↦
      rw below (omega arith, shift_right_jam-small 26 s.significand _ (omega arith) hi, inl lowest)
  | inr above ↦ rw above (ground arith, hi, inr lo)
]
  where
    lowest : field_from (negsuc 125) ≡ 0
    lowest = ap pos_part (let e : negsuc 125 +ℤ pos 126 ≡ pos 0 = omega int_laws in e)

pub pack-encode :
    (rm : RoundingMode) (sign : Bool) (n : ℕ) (e : ℤ) (r : ℕ)
    → negsuc 125 ≤ℤ e
    → r ≤ 2 ^ 24
    → (field_from e ≡ 0) ⊎ (2 ^ 23 ≤ r)
    → pack rm sign (u32 (bit_and n 7) != 0) (carry (record { exponent = e; significand = r }))
      ≡ encode rm sign (n % 8 != 0) (field_from e) r
pack-encode rm sign n e r h le form =
    ap (λ (b : ℕ). pack rm sign (b != 0) (carry (record { exponent = e; significand = r })))
      (bits n)
    ∙ ap (λ (t : ℤ). pack rm sign (n % 8 != 0) (carry (record { exponent = t; significand = r })))
        (from_field e h)
    ∙ pack-carry rm sign (n % 8 != 0) (field_from e) r le form

pub full : (x n r : ℕ) → (x ≡ 0) ⊎ (2 ^ 26 ≤ n) → n < 8 * r + 8 → (x ≡ 0) ⊎ (2 ^ 23 ≤ r)
full x n r (inl e) h = inl e
full x n r (inr lo) h = inr (omega arith)
