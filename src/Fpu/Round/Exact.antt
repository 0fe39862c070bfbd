-- ===== src/Fpu/Round/Exact.antt =====
-- Rounding a significand that was shifted with a sticky digit is rounding the number itself: the
-- sticky digit keeps it on its side of every bound, since the bounds are even.
use native.Mathlib.Nat.{mul-le-mul_right, mul_assoc}
use zinc_simulator.Prelude.{
  ◌⊎◌, ℕ, ◌+◌, ◌*◌, ◌%◌, ◌^◌, ◌≤◌, ◌<◌, ◌≡◌, arith, Bool, true, false, ◌||◌, ◌==◌, if◌then◌else◌,
  Bool-cases, inl, inr,
}
use zinc_simulator.Insn.{RoundingMode}
use zinc_simulator.Fpu.Round.Shift.{sticky}

abbrev pub IsBelow : (v w r : ℕ) → Type 0
IsBelow v w r = (8 * (r * w) ≤ v) × (v < 8 * (r * w) + 8 * w)

abbrev pub IsAbove : (v w r : ℕ) → Type 0
IsAbove v w r = (v ≤ 8 * (r * w)) × (8 * (r * w) < v + 8 * w)

-- Whether `v` lies halfway between two multiples of `8 * w`, of which `r` is one.
abbrev pub is_tie : (v w r : ℕ) → Bool
is_tie v w r = 8 * (r * w) + 4 * w == v || 8 * (r * w) == v + 4 * w

-- `r` is `v / (8 * w)`, rounded as IEEE 754 rounds a number of that sign.
abbrev pub IsQuotient : RoundingMode → Bool → (v w r : ℕ) → Type 0
IsQuotient RoundingMode.rne sign v w r =
    (8 * (r * w) ≤ v + 4 * w)
    × (v ≤ 8 * (r * w) + 4 * w)
    × (if is_tie v w r then r % 2 ≡ 0 else Unit)
IsQuotient RoundingMode.rtz sign v w r = IsBelow v w r
IsQuotient RoundingMode.rdn sign v w r = if sign then IsAbove v w r else IsBelow v w r
IsQuotient RoundingMode.rup sign v w r = if sign then IsBelow v w r else IsAbove v w r
IsQuotient RoundingMode.rmm sign v w r = (8 * (r * w) ≤ v + 4 * w) × (v < 8 * (r * w) + 4 * w)
IsQuotient _ sign v w r = ⊥

-- `v / w` has at most 27 digits, three of them to round off, and exactly 27 unless the field is zero.
abbrev pub HasDigits : (field v w : ℕ) → Type 0
HasDigits field v w = (v < 2 ^ 27 * w) × ((field ≡ 0) ⊎ (2 ^ 26 * w ≤ v))

-- Bounds by even numbers, seen through the sticky digit; `u` scales every term.
module _ (q t u e d : ℕ) (below : t < u) where
  scale : {a b : ℕ} → a ≤ b → a * u ≤ b * u
  scale h = mul-le-mul_right u h

  distribute :
      (2 * e * u ≡ 2 * (e * u))
      × ((q + 2 * d) * u ≡ q * u + 2 * (d * u))
      × ((2 * e + 1) * u ≡ 2 * (e * u) + u)
      × ((q + 1 + 2 * d) * u ≡ q * u + u + 2 * (d * u))
  distribute = (grind arith, grind arith, grind arith, grind arith)

  up-le : 2 * e ≤ sticky q t + 2 * d → 2 * (e * u) ≤ q * u + t + 2 * (d * u)
  up-le h = let a : 2 * e ≤ q + 2 * d = ground arith in omega (arith, scale a, distribute)

  down-lt : sticky q t + 2 * d < 2 * e → q * u + t + 2 * (d * u) < 2 * (e * u)
  down-lt h = let a : q + 1 + 2 * d ≤ 2 * e = ground arith in omega (arith, scale a, distribute)

  up-lt : 2 * e < sticky q t + 2 * d → 2 * (e * u) < q * u + t + 2 * (d * u)
  up-lt h = elim (Bool-cases (t == 0)) [
    | inl none ↦ let a : 2 * e + 1 ≤ q + 2 * d = ground arith in omega (arith, scale a, distribute)
    | inr some ↦
        let a : 2 * e ≤ q + 2 * d = ground arith in
        let positive : 0 < t = ground arith in omega (arith, scale a, distribute)
  ]

  down-le : sticky q t + 2 * d ≤ 2 * e → q * u + t + 2 * (d * u) ≤ 2 * (e * u)
  down-le h = elim (Bool-cases (t == 0)) [
    | inl none ↦
        let a : q + 2 * d ≤ 2 * e = ground arith in
        let z : t ≡ 0 = ground arith in omega (arith, scale a, distribute)
    | inr some ↦ let a : q + 1 + 2 * d ≤ 2 * e = ground arith in omega (arith, scale a, distribute)
  ]

  same : (2 * (e * u) == q * u + t + 2 * (d * u)) ≡ (2 * e == sticky q t + 2 * d)
  same = ground (arith, up-le, down-le, up-lt, down-lt)

module _ (q t u w r : ℕ) (below : t < u) where
  abbrev v : ℕ
  v = q * u + t

  products :
      (4 * (r * w) * u ≡ 4 * (r * (w * u)))
      × (2 * w * u ≡ 2 * (w * u))
      × (4 * w * u ≡ 4 * (w * u))
      × ((4 * (r * w) + 4 * w) * u ≡ 4 * (r * (w * u)) + 4 * (w * u))
      × ((4 * (r * w) + 2 * w) * u ≡ 4 * (r * (w * u)) + 2 * (w * u))
      × (0 * u ≡ 0)
  products = (grind arith, grind arith, grind arith, grind arith, grind arith, grind arith)

  IsBelow-sticky : IsBelow (sticky q t) w r → IsBelow v (w * u) r
  IsBelow-sticky (a, b) = (
    omega (arith, products, up-le q t u (4 * (r * w)) 0 below (omega arith)),
    omega (arith, products, down-lt q t u (4 * (r * w) + 4 * w) 0 below (omega arith)),
  )

  IsAbove-sticky : IsAbove (sticky q t) w r → IsAbove v (w * u) r
  IsAbove-sticky (a, b) = (
    omega (arith, products, down-le q t u (4 * (r * w)) 0 below (omega arith)),
    omega (arith, products, up-lt q t u (4 * (r * w)) (4 * w) below (omega arith)),
  )

  is_tie-sticky : is_tie v (w * u) r ≡ is_tie (sticky q t) w r
  is_tie-sticky = ground (
    arith,
    products,
    same q t u (4 * (r * w) + 2 * w) 0 below,
    same q t u (4 * (r * w)) (2 * w) below,
  )

  -- A quotient of the shifted number is one of the number.
  pub IsQuotient-sticky :
      (rm : RoundingMode) (sign : Bool)
      → IsQuotient rm sign (sticky q t) w r
      → IsQuotient rm sign v (w * u) r
  IsQuotient-sticky RoundingMode.rne sign (a, b, c) = (
    omega (arith, products, up-le q t u (4 * (r * w)) (2 * w) below (omega arith)),
    omega (arith, products, down-le q t u (4 * (r * w) + 2 * w) 0 below (omega arith)),
    rw is_tie-sticky c,
  )
  IsQuotient-sticky RoundingMode.rtz sign p = IsBelow-sticky p
  IsQuotient-sticky RoundingMode.rdn true p = IsAbove-sticky p
  IsQuotient-sticky RoundingMode.rdn false p = IsBelow-sticky p
  IsQuotient-sticky RoundingMode.rup true p = IsBelow-sticky p
  IsQuotient-sticky RoundingMode.rup false p = IsAbove-sticky p
  IsQuotient-sticky RoundingMode.rmm sign (a, b) = (
    omega (arith, products, up-le q t u (4 * (r * w)) (2 * w) below (omega arith)),
    omega (arith, products, down-lt q t u (4 * (r * w) + 2 * w) 0 below (omega arith)),
  )
  IsQuotient-sticky RoundingMode.dynamic sign p = absurd p
  IsQuotient-sticky (RoundingMode.reserved m) sign p = absurd p

  -- So is one that is exact.
  pub exact-sticky : (8 * (r * (w * u)) == v) ≡ (8 * (r * w) == sticky q t)
  exact-sticky = ground (arith, products, same q t u (4 * (r * w)) 0 below)

  halves : (2 ^ 25 * w * u ≡ 2 ^ 25 * (w * u)) × (2 ^ 26 * w * u ≡ 2 ^ 26 * (w * u)) × (0 * u ≡ 0)
  halves = (mul_assoc (2 ^ 25) w u, mul_assoc (2 ^ 26) w u, omega arith)

  -- The number of digits is kept.
  pub HasDigits-sticky : (field : ℕ) → HasDigits field (sticky q t) w → HasDigits field v (w * u)
  HasDigits-sticky field (most, form) = (
    omega (arith, halves, down-lt q t u (2 ^ 26 * w) 0 below (omega arith)),
    elim form [
      | inl low ↦ inl low
      | inr full ↦ inr (omega (arith, halves, up-le q t u (2 ^ 25 * w) 0 below (omega arith)))
    ],
  )
