-- ===== src/Fpu/Convert/Bounds.antt =====
-- Conversions end in a number of 64 bits and flags of five; to single precision, of 32 bits.
use native.Mathlib.Nat.{pow-succ', div-lt_iff_lt-mul, div-le_self, one-le-pow}
use zinc_simulator.Prelude.{
  ℕ, zero, suc, ◌+◌, ◌-◌, ◌*◌, ◌/◌, ◌^◌, ◌≤◌, ◌<◌, bit_and, ◌≡◌, ◌≢◌, refl, sym, ◌∙◌, ap, arith,
  Bool, true, false, not, ◌||◌, ltb, leb, ◌==◌, ◌!=◌, if◌then◌else◌, Bool-cases, inl, inr, Fault,
  Ends, returns, throws, Ends-if, Ends-split, Ends-bind, Ends-map,
}
use zinc_simulator.Prelude.Int.{pos}
use zinc_simulator.Word.{u32, u64, add64, not64, sub64, ◌<<<◌}
use zinc_simulator.Word.Bits.{bit_or-lt}
use zinc_simulator.Word.Fields.{and_low}
use zinc_simulator.Insn.{OpFpType, RoundingMode}
use zinc_simulator.Fpu.{FpResult}
use zinc_simulator.Fpu.Unpack.Value.{unpack_returns, pow_add}
use zinc_simulator.Fpu.Round.{shift_right_jam}
use zinc_simulator.Fpu.Round.Shift.{shift_right_jam-lt}
use zinc_simulator.Fpu.Round.Bounds.{IsRefusal, round_and_pack-Ends}
use zinc_simulator.Fpu.Arith.Bounds.{Ok, or_false, unpacked-IsNumber}
use zinc_simulator.Fpu.Convert.{
  Magnitude, integer_magnitude, leading_bit, integer_to_float, encode_integer_result, IntegerFormat,
  integer_format, signed_min_magnitude, invalid_result, Truncated, scale_up, integer_round_up,
  scale_down, encode_truncated, float_to_integer,
}

abbrev pub is_from_integer : OpFpType → Bool
is_from_integer OpFpType.cvt_s_to_w = true
is_from_integer OpFpType.cvt_s_to_wu = true
is_from_integer OpFpType.cvt_s_to_l = true
is_from_integer OpFpType.cvt_s_to_lu = true
is_from_integer _ = false

abbrev pub is_to_integer : OpFpType → Bool
is_to_integer OpFpType.cvt_w_from_s = true
is_to_integer OpFpType.cvt_wu_from_s = true
is_to_integer OpFpType.cvt_l_from_s = true
is_to_integer OpFpType.cvt_lu_from_s = true
is_to_integer _ = false

leading_go :
    (fuel value count : ℕ)
    → ltb 1 value ≡ true
    → leading_bit (suc fuel) value count ≡ leading_bit fuel (value / 2 ^ 1) (count + 1)
unfolding leading_bit
leading_go fuel value count e = rw (e, leading_bit) refl

-- The loop counts the place of the leading digit.
pub leading_bit-Ends :
    {F : Fault → Type 0} (fuel value count : ℕ)
    → value ≢ 0
    → value < 2 ^ fuel
    → Ends
        (λ (r : ℕ). (j : ℕ) × (r ≡ count + j) × (2 ^ j ≤ value) × (value < 2 ^ suc j))
        F
        (leading_bit fuel value count)
unfolding leading_bit
leading_bit-Ends zero value count some h = absurd (omega arith)
leading_bit-Ends (suc fuel) value count some h = elim (Bool-cases (ltb 1 value)) [
  | inr last ↦
      let e : value ≡ 1 = ground arith in rw e (returns (0, omega arith, omega arith, omega arith))
  | inl more ↦ rw (leading_go fuel value count more) (
      Ends-map
        (leading_bit-Ends fuel (value / 2 ^ 1) (count + 1) (ground arith)
          (omega (arith, pow-succ' 2 fuel)))
        (λ r (j, e, lo, hi).
          (suc j, omega arith, omega (arith, pow-succ' 2 j), omega (arith, pow-succ' 2 (suc j)))))
]

choice-lt : (b : Bool) (x y : ℕ) → x < 2 ^ 64 → y < 2 ^ 64 → (if b then x else y) < 2 ^ 64
choice-lt b x y p q = ground arith

magnitude-lt :
    {F : Fault → Type 0} (op : OpFpType) (x : ℕ)
    → x < 2 ^ 64
    → is_from_integer op ≡ true
    → Ends (λ (m : Magnitude). m.magnitude < 2 ^ 64) F (integer_magnitude op x)
unfolding integer_magnitude
magnitude-lt OpFpType.cvt_s_to_w x h g = returns (
    choice-lt (bit_and (u32 x) (1 <<< 31) != 0) (bit_and (add64 (not64 (u32 x)) 1) 0xffffffff)
      (u32 x) (omega (arith, and_low 32 (add64 (not64 (u32 x)) 1))) (omega arith))
magnitude-lt OpFpType.cvt_s_to_wu x h g = returns (omega arith)
magnitude-lt OpFpType.cvt_s_to_l x h g = returns (ground arith)
magnitude-lt OpFpType.cvt_s_to_lu x h g = returns h
magnitude-lt _ x h g = cc

pub product-lt : (m a b c : ℕ) → m < a → a * b ≡ c → 0 < b → m * b < c
product-lt m a b c lt e p = grind arith

-- 27 digits, from its leading one.
digits-lt :
    (m k : ℕ)
    → m < 2 ^ 64
    → m < 2 ^ suc k
    → (if ltb 26 k then shift_right_jam m (k - 26) else u64 (m <<< (26 - k))) < 2 ^ 28
digits-lt m k h lt = elim (Bool-cases (ltb 26 k)) [
  | inl long ↦
      let d = k - 26 in
      let e : suc k ≡ 27 + d = ground arith in
      let whole : 2 ^ suc k ≡ 2 ^ 27 * 2 ^ d = ap (λ (t : ℕ). 2 ^ t) e ∙ pow_add 27 d in
      let positive : 0 < 2 ^ d = omega (arith, one-le-pow d 2) in
      rw long (
        shift_right_jam-lt 27 m d h
          ((div-lt_iff_lt-mul {k = 2 ^ d} {x = m} {y = 2 ^ 28} positive).1 (omega arith)))
  | inr short ↦
      let d = 26 - k in
      let e : suc k + d ≡ 27 = ground arith in
      let whole : 2 ^ suc k * 2 ^ d ≡ 2 ^ 27 = sym (pow_add (suc k) d) ∙ ap (λ (t : ℕ). 2 ^ t) e in
      let positive : 0 < 2 ^ d = omega (arith, one-le-pow d 2) in
      rw short (omega (arith, product-lt m (2 ^ suc k) (2 ^ d) (2 ^ 27) lt whole positive))
]

pub integer_to_float-Ok :
    (op : OpFpType) (x : ℕ) (rm : RoundingMode)
    → x < 2 ^ 64
    → is_from_integer op ≡ true
    → Ok rm (integer_to_float op x rm)
unfolding integer_to_float
integer_to_float-Ok op x rm h g = Ends-bind (magnitude-lt op x h g) (λ m lt.
    Ends-split (m.magnitude == 0) (λ none. returns (omega arith, omega arith))
      (λ some. Ends-bind (leading_bit-Ends 64 m.magnitude 0 (ground arith) lt) (λ k (j, e, lo, hi).
        round_and_pack-Ends m.sign (pos k) _ rm
          (digits-lt m.magnitude k lt (let same : k ≡ j = omega arith in rw same hi)))))

encode-lt : (sign : Bool) (m w : ℕ) → m < 2 ^ 64 → encode_integer_result sign m w < 2 ^ 64
unfolding encode_integer_result
encode-lt sign m w h =
    let v = if sign then sub64 0 m else m in
    let value : v < 2 ^ 64 = choice-lt sign (sub64 0 m) m (omega arith) h in
    choice-lt (w == 64) v _ value (
      choice-lt (bit_and (u32 v) (1 <<< 31) != 0) _ (u32 v)
        (bit_or-lt 64 0xffffffff00000000 (u32 v) (omega arith) (omega arith)) (omega arith))

abbrev pub IsLong : FpResult → Type 0
IsLong x = (x.value < 2 ^ 64) × (x.flags < 2 ^ 5)

if-IsLong : (b : Bool) {x y : FpResult} → IsLong x → IsLong y → IsLong (if b then x else y)
if-IsLong true p q = p
if-IsLong false p q = q

invalid_result-IsLong : (f : IntegerFormat) (nan sign : Bool) → IsLong (invalid_result f nan sign)
unfolding invalid_result
invalid_result-IsLong f nan sign =
    if-IsLong (nan || not sign) (encode-lt false _ f.width (ground arith), omega arith)
      (
        choice-lt f.signed_result _ 0
            (encode-lt true (signed_min_magnitude f.width) f.width (ground arith)) (omega arith),
        omega arith,
      )

encode_truncated-IsLong :
    (f : IntegerFormat) (sign : Bool) (t : Truncated)
    → t.magnitude < 2 ^ 64
    → IsLong (encode_truncated f sign t)
unfolding encode_truncated
encode_truncated-IsLong f sign t h =
    if-IsLong _ (invalid_result-IsLong f false sign)
      (encode-lt sign t.magnitude f.width h, ground arith)

scale_up-lt : (shift n : ℕ) → (scale_up shift n).magnitude < 2 ^ 64
unfolding scale_up
scale_up-lt shift n = ground arith

integer_round_up-Ends :
    (rm : RoundingMode) (sign : Bool) (s m r h : ℕ)
    → Ends (λ b. Unit {0}) (IsRefusal rm) (integer_round_up rm sign s m r h)
unfolding integer_round_up
integer_round_up-Ends RoundingMode.rne sign s m r h = returns tt
integer_round_up-Ends RoundingMode.rtz sign s m r h = returns tt
integer_round_up-Ends RoundingMode.rdn sign s m r h = returns tt
integer_round_up-Ends RoundingMode.rup sign s m r h = returns tt
integer_round_up-Ends RoundingMode.rmm sign s m r h = returns tt
integer_round_up-Ends RoundingMode.dynamic sign s m r h = throws (refl, refl)
integer_round_up-Ends (RoundingMode.reserved n) sign s m r h = returns tt

rounded-lt :
    (up full : Bool) (m : ℕ) (i : Bool)
    → m < 2 ^ 24
    → let t : Truncated =
        if up
        then if full
          then record { magnitude = m; inexact = i; overflow = true }
          else record { magnitude = m + 1; inexact = i; overflow = false }
        else record { magnitude = m; inexact = i; overflow = false } in
      t.magnitude < 2 ^ 64
rounded-lt true true m i h = omega arith
rounded-lt true false m i h = omega arith
rounded-lt false full m i h = omega arith

scale_down-Ends :
    (rm : RoundingMode) (sign : Bool) (shift n : ℕ)
    → n < 2 ^ 24
    → Ends (λ (t : Truncated). t.magnitude < 2 ^ 64) (IsRefusal rm) (scale_down rm sign shift n)
unfolding scale_down
scale_down-Ends rm sign shift n h =
    let quotient : (if leb 64 shift then 0 else n / 2 ^ shift) < 2 ^ 24 =
      ground (arith, div-le_self n (2 ^ shift)) in
    Ends-bind (integer_round_up-Ends rm sign shift _ _ _)
      (λ b q. returns (rounded-lt b _ _ _ quotient))

integer_format-Ends :
    {F : Fault → Type 0} (op : OpFpType)
    → is_to_integer op ≡ true
    → Ends (λ f. Unit {0}) F (integer_format op)
unfolding integer_format
integer_format-Ends OpFpType.cvt_w_from_s g = returns tt
integer_format-Ends OpFpType.cvt_wu_from_s g = returns tt
integer_format-Ends OpFpType.cvt_l_from_s g = returns tt
integer_format-Ends OpFpType.cvt_lu_from_s g = returns tt
integer_format-Ends _ g = cc

pub float_to_integer-Ends :
    (op : OpFpType) (x : ℕ) (rm : RoundingMode)
    → is_to_integer op ≡ true
    → Ends IsLong (IsRefusal rm) (float_to_integer op x rm)
unfolding float_to_integer
float_to_integer-Ends op x rm g = Ends-bind (integer_format-Ends op g) (λ f _.
    Ends-bind (unpack_returns x) (λ u p.
      Ends-split _ (λ special. returns (invalid_result-IsLong f _ u.sign))
        (λ special.
          Ends-split _ (λ z. returns (omega arith, omega arith))
            (λ z.
              let (nan, inf) = or_false _ _ special in
              let n = unpacked-IsNumber p nan inf z in
              Ends-bind
                (Ends-if _ (scale_down-Ends rm u.sign _ u.significand n.upper)
                  (returns (scale_up-lt _ u.significand)))
                (λ t lt. returns (encode_truncated-IsLong f u.sign t lt))))))
