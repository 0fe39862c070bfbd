-- ===== src/Fpu/Arith/Fused.antt =====
-- The fused product-sum ends in a number of 32 bits and flags of five: the sum of product and addend
-- fits in 64 bits, and its normalisation ends.
use zinc_simulator.Prelude.{
  ℕ, ◌*◌, ◌^◌, ◌<◌, bit_and, ◌≡◌, ◌≢◌, refl, arith, Bool, true, false, ◌&&◌, ◌||◌, ltb, ltb→lt,
  ◌==◌, if◌then◌else◌, Bool-cases, inl, inr, Fault, Ends, returns, Ends-if, Ends-split, Ends-bind,
  Ends-map,
}
use zinc_simulator.Word.{u64, ◌<<<◌}
use zinc_simulator.Word.Fields.{and_field}
use zinc_simulator.Insn.{RoundingMode, FmaFpType}
use zinc_simulator.Fpu.Unpack.{UnpackedFp32, Scaled, normalize}
use zinc_simulator.Fpu.Unpack.Normalize.{stop, normalize_loop}
use zinc_simulator.Fpu.Unpack.Value.{IsNumber, Parts, unpack_returns}
use zinc_simulator.Fpu.{FpClass}
use zinc_simulator.Fpu.Round.{is_nan, is_zero, is_infinity, UnroundedFp32}
use zinc_simulator.Fpu.Round.Shift.{shift_right_jam-lt}
use zinc_simulator.Fpu.Round.Bounds.{sign_bits-lt, round_and_pack-Ends}
use zinc_simulator.Fpu.Arith.{fma_sum, fma_aligned, compute_fma, fma_finite, fma}
use zinc_simulator.Fpu.Arith.Bounds.{
  Ok, or_false, unpacked-IsNumber, signed-lt, magnitude-lt, nan-IsWord, align-lt, product-lt,
}

-- Zero or a number: at most 24 digits.
addend-lt :
    (c : FpClass) (raw : ℕ) (u : UnpackedFp32)
    → is_infinity c ≡ false
    → Parts c raw u
    → u.significand < 2 ^ 24
addend-lt FpClass.zero raw u i p = omega arith
addend-lt FpClass.subnormal raw u i (k, le, a, b, c, d, lo, hi) = hi
addend-lt FpClass.normal raw u i p = omega arith
addend-lt FpClass.infinity raw u i p = cc
addend-lt FpClass.signaling_nan raw u i p = omega arith
addend-lt FpClass.quiet_nan raw u i p = omega arith

top_two : (x : ℕ) → x < 2 ^ 64 → (bit_and x (3 * 2 ^ 62) == 0) ≡ ltb x (2 ^ 62)
top_two x h = ground (arith, and_field 62 2 x)

-- The loop of `compute_fma` stops at one of the two top places.
wide-Ends :
    {F : Fault → Type 0} (s : Scaled)
    → s.significand ≢ 0
    → s.significand < 2 ^ 64
    → Ends (λ (r : Scaled). r.significand < 2 ^ 64) F (normalize 64 (3 * 2 ^ 62) 64 s)
wide-Ends s some h = elim (Bool-cases (ltb s.significand (2 ^ 63))) [
  | inl low ↦
      Ends-map
        (normalize_loop 64 62 (3 * 2 ^ 62) (omega arith) (λ x lt. top_two x (omega arith)) 62 64 s
          (omega arith) (omega arith) (ltb→lt _ _ low))
        (λ r (k, le, shifted). omega (arith, shifted.upper))
  | inr high ↦ rw (stop 64 (3 * 2 ^ 62) 63 s (ground (arith, top_two s.significand h))) (returns h)
]

product_place-lt :
    (b : Bool) (v : ℕ)
    → v < 2 ^ 48
    → (b ≡ false → v < 2 ^ 47)
    → u64 (v <<< (if b then 15 else 16)) < 2 ^ 63
product_place-lt true v h f = omega arith
product_place-lt false v h f = omega (arith, f refl)

fma_aligned-lt :
    (l r a : UnpackedFp32)
    → IsNumber l
    → IsNumber r
    → a.significand < 2 ^ 24
    → ((fma_aligned l r a).lhs < 2 ^ 63) × ((fma_aligned l r a).rhs < 2 ^ 63)
unfolding fma_aligned
fma_aligned-lt l r a nl nr h =
    let big = product-lt l.significand r.significand nl.upper nr.upper in
    let whole : u64 (l.significand * r.significand) ≡ l.significand * r.significand = omega arith in
    align-lt 62 _ _ _ _ (omega arith)
      (rw whole (
        product_place-lt _ _ big
          (λ e. ground (arith, and_field 47 1 (l.significand * r.significand)))))
      (omega arith)

fma_sum-lt :
    (s t : Bool) (p a : ℕ) → p < 2 ^ 63 → a < 2 ^ 63 → (fma_sum s t p a).significand < 2 ^ 64
unfolding fma_sum
fma_sum-lt s t p a hp ha = ground arith

ne_of_test : (n : ℕ) → (n == 0) ≡ false → n ≢ 0
ne_of_test n h = ground arith

compute_fma-Ends :
    {F : Fault → Type 0} (l r a : UnpackedFp32) (s t : Bool)
    → IsNumber l
    → IsNumber r
    → a.significand < 2 ^ 24
    → Ends (λ (x : UnroundedFp32). x.significand < 2 ^ 28) F (compute_fma l r a s t)
unfolding compute_fma
compute_fma-Ends l r a s t nl nr h =
    let (p, q) = fma_aligned-lt l r a nl nr h in
    Ends-split ((fma_sum s t (fma_aligned l r a).lhs (fma_aligned l r a).rhs).significand == 0)
      (λ none. returns (omega arith))
      (λ some.
        Ends-bind (wide-Ends _ (ne_of_test _ some) (fma_sum-lt s t _ _ p q))
          (λ x lt. returns (shift_right_jam-lt 27 x.significand 36 lt (omega arith))))

fma_finite-Ok :
    (l r a : UnpackedFp32) (s t : Bool) (rm : RoundingMode)
    → IsNumber l
    → IsNumber r
    → a.significand < 2 ^ 24
    → Ok rm (fma_finite l r a s t rm)
unfolding fma_finite
fma_finite-Ok l r a s t rm nl nr h =
    Ends-bind (compute_fma-Ends l r a s t nl nr h)
      (λ x lt. round_and_pack-Ends _ x.exponent x.significand rm lt)

pub fma-Ok : (op : FmaFpType) (a b d : ℕ) (rm : RoundingMode) → Ok rm (fma op a b d rm)
unfolding fma
fma-Ok op a b d rm = Ends-bind (unpack_returns a) (λ u p. Ends-bind (unpack_returns b) (λ v q.
    Ends-bind (unpack_returns d) (λ w o.
      Ends-split
        (is_nan u.fp_class
          || is_nan v.fp_class
          || is_nan w.fp_class
          || ((is_zero u.fp_class && is_infinity v.fp_class)
              || (is_infinity u.fp_class && is_zero v.fp_class)))
        (λ nan. returns (nan-IsWord _))
        (λ nan.
          Ends-split _
            (λ inf.
              Ends-if _ (returns (omega arith, omega arith))
                (returns (signed-lt _ _ (omega arith), omega arith)))
            (λ inf.
              Ends-split _ (λ far. returns (signed-lt _ _ (omega arith), omega arith))
                (λ far.
                  Ends-split _
                    (λ z.
                      Ends-if _ (returns (sign_bits-lt _, omega arith))
                        (returns (magnitude-lt _ d, omega arith)))
                    (λ z.
                      let (nans, valid) = or_false _ _ nan in
                      let (n, _) = or_false _ _ nans in
                      let (nl, nr) = or_false _ _ n in
                      let (il, ir) = or_false _ _ inf in
                      let (zl, zr) = or_false _ _ z in
                      fma_finite-Ok u v w _ _ rm (unpacked-IsNumber p nl il zl)
                        (unpacked-IsNumber q nr ir zr) (addend-lt w.fp_class d w far o.parts))))))))
