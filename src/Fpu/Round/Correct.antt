-- ===== src/Fpu/Round/Correct.antt =====
-- What it is to round a number correctly, and the end of `round_and_pack` of src/fpu.cpp.
use zinc_simulator.Prelude.{
  ℕ, ◌+◌, ◌*◌, ◌/◌, ◌%◌, ◌^◌, ◌≤◌, ◌<◌, bit_and, ◌≡◌, ◌⊎◌, inl, inr, sym, ◌∙◌, ap, arith, Bool,
  true, false, not, ◌==◌, ◌!=◌, Bool-cases, ok, Ends, returns, Ends-bind, ◌>>=◌,
}
use native.Mathlib.Nat.{div-add-mod', mod-lt, one-le-pow}
use zinc_simulator.Prelude.Int.{ℤ, pos, negsuc, ◌≤ℤ◌, ◌+ℤ◌, int_laws}
use zinc_simulator.Word.{u32}
use zinc_simulator.Insn.{RoundingMode}
use zinc_simulator.Fpu.{FpResult}
use zinc_simulator.Fpu.Unpack.{Scaled}
use zinc_simulator.Fpu.Round.{denormalize, round_significand, carry, pack}
use zinc_simulator.Fpu.Round.Shift.{sticky}
use zinc_simulator.Fpu.Round.Bounds.{IsRefusal, IsPrepared}
use zinc_simulator.Fpu.Round.Pack.{encode}
use zinc_simulator.Fpu.Round.Encoding.{
  IsRounded, round_significand-IsRounded, rounded_range, field_from, denormalize_range, pack-encode,
  full,
}
use zinc_simulator.Fpu.Round.Exact.{
  HasDigits, HasDigits-sticky, IsQuotient, is_tie, IsQuotient-sticky, exact-sticky,
}
use zinc_simulator.Fpu.Round.Prepared.{denormalize-sticky}

-- `x` encodes v / u * 2 ^ (e - 26), rounded as IEEE 754 asks. The field is the least that leaves
-- the number 24 digits before the point; where it is zero, that is a multiple of the least subnormal
-- number.
abbrev pub IsRounding : RoundingMode → Bool → (v u : ℕ) → ℤ → FpResult → Type 0
IsRounding rm sign v u e x =
    (j : ℕ) × (field : ℕ) × (r : ℕ) × HasDigits field v (2 ^ j * u)
    × IsQuotient rm sign v (2 ^ j * u) r
    × (pos field ≡ pos j +ℤ e +ℤ pos 126)
    × (x ≡ encode rm sign (not (8 * (r * (2 ^ j * u)) == v)) field r)

rounded-IsQuotient :
    (rm : RoundingMode) (sign : Bool) (n r : ℕ) → IsRounded rm sign n r → IsQuotient rm sign n 1 r
rounded-IsQuotient RoundingMode.rne sign n r (a, b, c) = (
  omega arith,
  omega arith,
  elim (Bool-cases (is_tie n 1 r)) [
    | inr none ↦ rw none tt
    | inl tie ↦ let four : (n % 8 == 4) ≡ true = ground arith in rw tie (rw four at c)
  ],
)
rounded-IsQuotient RoundingMode.rtz sign n r p = omega arith
rounded-IsQuotient RoundingMode.rdn true n r p = omega arith
rounded-IsQuotient RoundingMode.rdn false n r p = omega arith
rounded-IsQuotient RoundingMode.rup true n r p = omega arith
rounded-IsQuotient RoundingMode.rup false n r p = omega arith
rounded-IsQuotient RoundingMode.rmm sign n r p = omega arith
rounded-IsQuotient RoundingMode.dynamic sign n r p = absurd p
rounded-IsQuotient (RoundingMode.reserved m) sign n r p = absurd p

-- The round bits are clear exactly where nothing is lost.
exact_bits :
    (rm : RoundingMode) (sign : Bool) (n r : ℕ)
    → IsRounded rm sign n r
    → (n % 8 != 0) ≡ not (8 * (r * 1) == n)
exact_bits rm sign n r p = let (above, below) = rounded_range rm sign n r p in ground arith

exact_field : (y : ℤ) → negsuc 125 ≤ℤ y → pos (field_from y) ≡ y +ℤ pos 126
unfolding ◌+ℤ◌
exact_field y h = ground arith

field_lem :
    (e x : ℤ) (b : ℕ)
    → negsuc 125 ≤ℤ x
    → x ≡ e +ℤ pos b
    → pos (field_from x) ≡ pos b +ℤ e +ℤ pos 126
field_lem e x b low exp = exact_field x low ∙ ap (λ (y : ℤ). y +ℤ pos 126) exp ∙ omega int_laws

-- A rounding of what denormalisation leaves is one of the number.
module _ (n u r : ℕ) (positive : 0 < u) where
  whole : n / u * u + n % u ≡ n
  whole = div-add-mod' n u

  turn : 1 * u ≡ u * 1
  turn = omega arith

  lost-IsQuotient :
      (rm : RoundingMode) (sign : Bool)
      → IsQuotient rm sign (sticky (n / u) (n % u)) 1 r
      → IsQuotient rm sign n (u * 1) r
  lost-IsQuotient rm sign p =
      rw (whole, turn) at (IsQuotient-sticky (n / u) (n % u) u 1 r (mod-lt n positive) rm sign p)

  lost-HasDigits :
      (field : ℕ) → HasDigits field (sticky (n / u) (n % u)) 1 → HasDigits field n (u * 1)
  lost-HasDigits field p =
      rw (whole, turn) at (HasDigits-sticky (n / u) (n % u) u 1 r (mod-lt n positive) field p)

  lost_exact : (8 * (r * (u * 1)) == n) ≡ (8 * (r * 1) == sticky (n / u) (n % u))
  lost_exact = rw (whole, turn) at (exact-sticky (n / u) (n % u) u 1 r (mod-lt n positive))

one_form : (field n : ℕ) → (field ≡ 0) ⊎ (2 ^ 26 ≤ n) → (field ≡ 0) ⊎ (2 ^ 26 * 1 ≤ n)
one_form field n (inl low) = inl low
one_form field n (inr full) = inr full

-- The result of `round_and_pack`, from the rounding of a denormalised significand.
module _ (rm : RoundingMode) (sign : Bool) (e : ℤ) (n b : ℕ) (d : Scaled) where
  rounded-IsRounding :
      (r : ℕ)
      → d.significand ≡ sticky (n / 2 ^ b) (n % 2 ^ b)
      → d.exponent ≡ e +ℤ pos b
      → negsuc 125 ≤ℤ d.exponent
      → d.significand < 2 ^ 27
      → (field_from d.exponent ≡ 0) ⊎ (2 ^ 26 ≤ d.significand)
      → IsRounded rm sign d.significand r
      → IsRounding rm sign n 1 e (
          pack rm sign
            (u32 (bit_and d.significand 7) != 0)
            (carry (record { exponent = d.exponent; significand = r })))
  rounded-IsRounding r sig exp low most form q =
      let (above, below) = rounded_range rm sign d.significand r q in
      let top : r ≤ 2 ^ 24 = omega arith in
      let filled : (field_from d.exponent ≡ 0) ⊎ (2 ^ 23 ≤ r) = full _ d.significand r form above in
      let positive : 0 < 2 ^ b = one-le-pow b 2 (omega arith) in
      let digits : HasDigits (field_from d.exponent) d.significand 1 =
        (omega arith, one_form (field_from d.exponent) d.significand form) in
      let rounded : IsQuotient rm sign d.significand 1 r =
        rounded-IsQuotient rm sign d.significand r q in
      let flag : (d.significand % 8 != 0) ≡ not (8 * (r * (2 ^ b * 1)) == n) =
        exact_bits rm sign d.significand r q
        ∙ ap (λ (x : ℕ). not (8 * (r * 1) == x)) sig
        ∙ ap not (sym (lost_exact n (2 ^ b) r positive)) in
      (
        b,
        field_from d.exponent,
        r,
        lost-HasDigits n (2 ^ b) r positive (field_from d.exponent) (rw sig at digits),
        lost-IsQuotient n (2 ^ b) r positive rm sign (rw sig at rounded),
        field_lem e d.exponent b low exp,
        pack-encode rm sign d.significand d.exponent r low top filled
            ∙ ap (λ (x : Bool). encode rm sign x (field_from d.exponent) r) flag,
      )

-- The end of `round_and_pack`, after its two loops.
pub prepared-IsRounding :
    (rm : RoundingMode) (sign : Bool) (start s : Scaled)
    → negsuc 999 ≤ℤ s.exponent
    → IsPrepared start s
    → let d = denormalize s in
      Ends (IsRounding rm sign s.significand 1 s.exponent) (IsRefusal rm) (do
        rounded ← round_significand rm sign d.significand
        ok (
            pack rm sign
              (u32 (bit_and d.significand 7) != 0)
              (carry (record { exponent = d.exponent; significand = rounded }))))
prepared-IsRounding rm sign start s least p =
    let (b, sig, exp) = denormalize-sticky s p.shifted.upper least in
    let (low, most, form) = denormalize_range s p.shifted.lower p.shifted.upper in
    Ends-bind (round_significand-IsRounded rm sign (denormalize s).significand) (λ r q. returns (
      rounded-IsRounding rm sign s.exponent s.significand b (denormalize s) r sig exp low most form
        q))
