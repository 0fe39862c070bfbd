-- ===== src/Fpu/Round/Bounds.antt =====
-- `round_and_pack` returns a number of 32 bits and flags of five, for every significand of at most 28
-- digits and every rounding mode of the standard; another mode is refused.
use zinc_simulator.Prelude.{
  ℕ, suc, ◌^◌, ◌≤◌, ◌<◌, bit_and, bit_or, ◌≡◌, ◌≢◌, refl, arith, Bool, true, false, ◌==◌, ◌!=◌, ltb,
  ltb→lt, ne→==, ◌>>=◌, ◌&&◌, if◌then◌else◌, Bool-cases, inl, inr, ok, Fault, logic_error, Ends,
  returns, throws, Ends-bind,
}
use zinc_simulator.Prelude.Int.{ℤ, pos, ◌+ℤ◌}
use zinc_simulator.Word.{u32, ◌<<<◌, ◌>>>◌}
use zinc_simulator.Word.Bits.{bit_or-lt}
use zinc_simulator.Word.Fields.{and_low, and_field}
use zinc_simulator.Insn.{RoundingMode}
use zinc_simulator.Fpu.{FpResult}
use zinc_simulator.Fpu.Unpack.{Scaled}
use zinc_simulator.Fpu.Unpack.Normalize.{IsShifted, normalize_loop}
use zinc_simulator.Fpu.Round.{
  fp32_infinity, fp32_max_finite, rounds_to_infinity, sign_bits, shift_right_jam, should_round_up,
  narrow, denormalize, round_significand, carry, pack, round_and_pack,
}
use zinc_simulator.Fpu.Round.Shift.{shift_right_jam-sticky}

-- The modes that the standard names for a resolved instruction.
abbrev pub is_static : RoundingMode → Bool
is_static RoundingMode.dynamic = false
is_static (RoundingMode.reserved n) = false
is_static _ = true

abbrev pub IsRefusal : RoundingMode → Fault → Type 0
IsRefusal rm e = (e ≡ logic_error) × (is_static rm ≡ false)

abbrev pub IsWord : FpResult → Type 0
IsWord x = (x.value < 2 ^ 32) × (x.flags < 2 ^ 5)

pub sign_bits-lt : (s : Bool) → sign_bits s < 2 ^ 32
sign_bits-lt s = ground arith

-- A number other than zero, brought to 27 digits.
abbrev pub Narrowed : Scaled → Scaled → Type 0
Narrowed s r =
    if ltb s.significand (2 ^ 27)
    then r ≡ s
    else r
      ≡ record { exponent = s.exponent +ℤ pos 1; significand = shift_right_jam s.significand 1 }

stay : (fuel : ℕ) (s : Scaled) → s.significand < 2 ^ 27 → narrow (suc fuel) s ≡ ok s
unfolding narrow
stay fuel s h =
    let clear : (bit_and s.significand (1 <<< 27) == 0) ≡ true =
      ground (arith, and_field 27 1 s.significand) in
    rw (clear, narrow) refl

down :
    (fuel : ℕ) (s : Scaled)
    → 2 ^ 27 ≤ s.significand
    → s.significand < 2 ^ 28
    → narrow (suc fuel) s
      ≡ narrow fuel
          (record { exponent = s.exponent +ℤ pos 1; significand = shift_right_jam s.significand 1 })
unfolding narrow
down fuel s lo hi =
    let set : (bit_and s.significand (1 <<< 27) == 0) ≡ false =
      ground (arith, and_field 27 1 s.significand) in
    rw (set, narrow) refl

halved :
    (v : ℕ)
    → 2 ^ 27 ≤ v
    → v < 2 ^ 28
    → (2 ^ 26 ≤ shift_right_jam v 1) × (shift_right_jam v 1 < 2 ^ 27)
halved v lo hi = ground (arith, shift_right_jam-sticky v 1)

-- What the first loop leaves of a number of at most 28 digits.
narrow-Ends :
    {F : Fault → Type 0} (s : Scaled)
    → s.significand ≢ 0
    → s.significand < 2 ^ 28
    → Ends
        (λ (r : Scaled). (r.significand ≢ 0) × (r.significand < 2 ^ 27) × Narrowed s r)
        F
        (narrow 64 s)
narrow-Ends s nonzero hi = elim (Bool-cases (ltb s.significand (2 ^ 27))) [
  | inl small ↦
      rw (stay 63 s (ltb→lt _ _ small)) (returns (nonzero, ltb→lt _ _ small, rw small refl))
  | inr big ↦
      let lo : 2 ^ 27 ≤ s.significand = ground arith in
      let (least, most) = halved s.significand lo hi in
      rw (down 63 s lo hi) (
        rw
          (stay 62
            (record {
              exponent = s.exponent +ℤ pos 1;
              significand = shift_right_jam s.significand 1;
            })
            most)
          (returns ((λ z. absurd (omega arith)), most, rw big refl)))
]

-- The significand that is rounded: 27 digits, the last three of which are round bits.
pub record IsPrepared (s r : Scaled) : Type 0 where
  pub middle : Scaled
  pub shift : ℕ
  pub narrowed : Narrowed s middle
  pub shifted : IsShifted 26 middle shift r

extended : (x : ℕ) → x < 2 ^ 27 → (bit_and x (1 <<< 26) == 0) ≡ ltb x (2 ^ 26)
extended x h = ground (arith, and_field 26 1 x)

-- Both loops end; what follows them decides how `round_and_pack` ends.
pub round_and_pack_by :
    {P : FpResult → Type 0} {F : Fault → Type 0} (sign : Bool) (e : ℤ) (significand : ℕ)
    (rm : RoundingMode)
    → significand ≢ 0
    → significand < 2 ^ 28
    → ((r : Scaled)
        → IsPrepared (record { exponent = e; significand = significand }) r
        → let s = denormalize r in
          Ends P F (do
            rounded ← round_significand rm sign s.significand
            ok (
                pack rm sign
                  (u32 (bit_and s.significand 7) != 0)
                  (carry (record { exponent = s.exponent; significand = rounded })))))
    → Ends P F (round_and_pack sign e significand rm)
unfolding round_and_pack
round_and_pack_by sign e significand rm nonzero hi rest =
    let not_zero : (significand == 0) ≡ false = ne→== significand 0 nonzero in
    rw not_zero (
      Ends-bind (narrow-Ends (record { exponent = e; significand = significand }) nonzero hi)
        (λ middle (some_digit, small, narrowed).
          Ends-bind
            (normalize_loop 64 26 (1 <<< 26) (omega arith) extended 26 64 middle (omega arith)
              (omega arith) small)
            (λ r (shift, le, shifted).
              rest r (record {
                middle = middle;
                shift = shift;
                narrowed = narrowed;
                shifted = shifted;
              }))))

should_round_up-Ends :
    (rm : RoundingMode) (sign : Bool) (n bits : ℕ)
    → Ends (λ b. Unit {0}) (IsRefusal rm) (should_round_up rm sign n bits)
unfolding should_round_up
should_round_up-Ends RoundingMode.rne sign n bits = returns tt
should_round_up-Ends RoundingMode.rtz sign n bits = returns tt
should_round_up-Ends RoundingMode.rdn sign n bits = returns tt
should_round_up-Ends RoundingMode.rup sign n bits = returns tt
should_round_up-Ends RoundingMode.rmm sign n bits = returns tt
should_round_up-Ends RoundingMode.dynamic sign n bits = throws (refl, refl)
should_round_up-Ends (RoundingMode.reserved m) sign n bits = throws (refl, refl)

round_significand-Ends :
    (rm : RoundingMode) (sign : Bool) (n : ℕ)
    → Ends (λ (r : ℕ). Unit {0}) (IsRefusal rm) (round_significand rm sign n)
unfolding round_significand
round_significand-Ends rm sign n =
    Ends-bind (should_round_up-Ends rm sign (n >>> 3) (u32 (bit_and n 7))) (λ b q. returns tt)

if-IsWord : (b : Bool) {x y : FpResult} → IsWord x → IsWord y → IsWord (if b then x else y)
if-IsWord true p q = p
if-IsWord false p q = q

choice-lt : (b : Bool) (n x y : ℕ) → x < n → y < n → (if b then x else y) < n
choice-lt b n x y p q = ground arith

flags-lt :
    (subnormal inexact : Bool)
    → let nx : ℕ = if inexact then 1 else 0 in
      (if subnormal && inexact then bit_or nx 2 else nx) < 2 ^ 5
flags-lt true true = omega arith
flags-lt true false = omega arith
flags-lt false inexact = choice-lt inexact (2 ^ 5) 1 0 (omega arith) (omega arith)

pack-IsWord :
    (rm : RoundingMode) (sign inexact : Bool) (s : Scaled) → IsWord (pack rm sign inexact s)
unfolding pack
pack-IsWord rm sign inexact s =
    if-IsWord _
      (
        bit_or-lt 32 (sign_bits sign) _ (sign_bits-lt sign) (
            choice-lt (rounds_to_infinity rm sign) (2 ^ 32) fp32_infinity fp32_max_finite
              (omega arith) (omega arith)),
        omega arith,
      )
      (if-IsWord _ (sign_bits-lt sign, flags-lt _ inexact)
        (
          bit_or-lt 32 _ _ (bit_or-lt 32 (sign_bits sign) _ (sign_bits-lt sign) (omega arith))
              (omega (arith, and_low 23 (u32 s.significand))),
          flags-lt _ inexact,
        ))

-- For a significand of at most 28 digits, `round_and_pack` returns a number of 32 bits and flags of
-- five, or refuses a rounding mode that the standard does not name.
pub round_and_pack-Ends :
    (sign : Bool) (e : ℤ) (significand : ℕ) (rm : RoundingMode)
    → significand < 2 ^ 28
    → Ends IsWord (IsRefusal rm) (round_and_pack sign e significand rm)
unfolding round_and_pack
round_and_pack-Ends sign e significand rm hi = elim (Bool-cases (significand == 0)) [
  | inl none ↦ rw none (returns (sign_bits-lt sign, omega arith))
  | inr more ↦ round_and_pack_by sign e significand rm (ground arith) hi (λ r p.
      Ends-bind (round_significand-Ends rm sign _) (λ n q. returns (pack-IsWord rm sign _ _)))
]
