-- ===== src/Fpu/Unpack/Normalize.antt =====
-- The normalising loop of src/fpu.cpp: it ends, and has multiplied the significand by a power of two
-- that it takes from the exponent.
use native.Mathlib.Nat.{pow-succ', mod-eq_of_lt, mul_assoc}
use zinc_simulator.Prelude.{
  ℕ, zero, suc, ◌*◌, ◌%◌, ◌^◌, ◌≤◌, ◌<◌, bit_and, ◌≡◌, refl, ◌∙◌, ap, arith, true, false, ◌==◌,
  Result, ok, Fault, Ends, returns, throws, ltb, le→ltb, ltb→lt, Bool-cases, inl, inr,
}
use zinc_simulator.Prelude.Int.{ℤ, pos, ◌-ℤ◌, int_laws}
use zinc_simulator.Word.{◌<<<◌}
use zinc_simulator.Fpu.Unpack.{Scaled, normalize}

-- `r` is `s` with its significand shifted up by `k`, so that its highest digit is at `h`.
pub record IsShifted (h : ℕ) (s : Scaled) (k : ℕ) (r : Scaled) : Type 0 where
  pub significand : r.significand ≡ s.significand * 2 ^ k
  pub exponent : r.exponent ≡ s.exponent -ℤ pos k
  pub lower : 2 ^ h ≤ r.significand
  pub upper : r.significand < 2 ^ suc h

abbrev pub IsNormalized : (h most : ℕ) → Scaled → Scaled → Type 0
IsNormalized h most s r = (k : ℕ) × (k ≤ most) × IsShifted h s k r

minus_one : (e : ℤ) (k : ℕ) → e -ℤ pos 1 -ℤ pos k ≡ e -ℤ pos (suc k)
minus_one e k = omega int_laws

minus_zero : (e : ℤ) → e ≡ e -ℤ pos 0
minus_zero e = omega int_laws

-- A round of the loop.
pub stop :
    (w mask fuel : ℕ) (s : Scaled)
    → (bit_and s.significand mask == 0) ≡ false
    → normalize w mask (suc fuel) s ≡ ok s
unfolding normalize
stop w mask fuel s e = rw (e, normalize) refl

go :
    (w mask fuel : ℕ) (s : Scaled)
    → (bit_and s.significand mask == 0) ≡ true
    → normalize w mask (suc fuel) s
      ≡ normalize w mask fuel
          (record { exponent = s.exponent -ℤ pos 1; significand = (s.significand <<< 1) % 2 ^ w })
unfolding normalize
go w mask fuel s e = rw (e, normalize) refl

-- The mask tells whether a significand below `2 ^ (h + 1)` reaches the place `h`.
module _ (w h mask : ℕ) (inside : 2 ^ suc h ≤ 2 ^ w)
    (tests : (x : ℕ) → x < 2 ^ suc h → (bit_and x mask == 0) ≡ ltb x (2 ^ h)) where
  -- Where the digit is not yet at `h`, nothing is shifted out.
  double : (x : ℕ) → x < 2 ^ h → (x <<< 1) % 2 ^ w ≡ x * 2
  double x lt = mod-eq_of_lt (omega (arith, pow-succ' 2 h))

  done :
      {F : Fault → Type 0} (most fuel : ℕ) (s : Scaled)
      → 2 ^ h ≤ s.significand
      → s.significand < 2 ^ suc h
      → Ends (IsNormalized h most s) F (normalize w mask (suc fuel) s)
  done most fuel s lo hi =
      let reached = tests s.significand hi ∙ le→ltb s.significand (2 ^ h) lo in
      rw (stop w mask fuel s reached) (
        returns (
          0,
          omega arith,
          record {
            significand = omega arith;
            exponent = minus_zero s.exponent;
            lower = lo;
            upper = hi;
          },
        ))

  once_more :
      {F : Fault → Type 0} (most : ℕ) (s : Scaled) {m : Result Scaled}
      → Ends
          (IsNormalized h most
            (record { exponent = s.exponent -ℤ pos 1; significand = s.significand * 2 }))
          F
          m
      → Ends (IsNormalized h (suc most) s) F m
  once_more most s (returns (k, le, r)) = returns (
    suc k,
    omega arith,
    record {
      significand = omega (
        arith,
        r.significand,
        mul_assoc s.significand 2 (2 ^ k),
        pow-succ' 2 k,
        ap (λ (t : ℕ). s.significand * t) (pow-succ' 2 k),
      );
      exponent = r.exponent ∙ minus_one s.exponent k;
      lower = r.lower;
      upper = r.upper;
    },
  )
  once_more most s (throws f) = throws f

  pub normalize_loop :
      {F : Fault → Type 0} (most fuel : ℕ) (s : Scaled)
      → most < fuel
      → 2 ^ h ≤ s.significand * 2 ^ most
      → s.significand < 2 ^ suc h
      → Ends (IsNormalized h most s) F (normalize w mask fuel s)
  normalize_loop most zero s m lo hi = absurd (omega arith)
  normalize_loop zero (suc fuel) s m lo hi = done 0 fuel s (omega arith) hi
  normalize_loop (suc most) (suc fuel) s m lo hi = elim (Bool-cases (ltb s.significand (2 ^ h))) [
    | inr reached ↦ done (suc most) fuel s (ground arith) hi
    | inl below ↦
        let lt = ltb→lt s.significand (2 ^ h) below in
        rw (go w mask fuel s (tests s.significand hi ∙ below)) (
          rw (double s.significand lt) (
            once_more most s (
              normalize_loop most fuel _ (omega arith)
                (omega (
                  arith,
                  mul_assoc s.significand 2 (2 ^ most),
                  ap (λ (t : ℕ). s.significand * t) (pow-succ' 2 most),
                ))
                (omega (arith, pow-succ' 2 h)))))
  ]
