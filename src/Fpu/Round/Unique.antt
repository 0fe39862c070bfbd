-- ===== src/Fpu/Round/Unique.antt =====
-- Two roundings of one number, compared.
use native.Mathlib.Nat.{mul-le-mul_right, mul_assoc, pow-succ', pow-le-pow_right, one-le-pow}
use mathlib.Core.Path.{subst}
use zinc_simulator.Prelude.{
  ℕ, suc, ◌+◌, ◌*◌, ◌%◌, ◌^◌, ◌≤◌, ◌<◌, ◌≡◌, inl, inr, sym, ◌∙◌, ap, arith, Bool, true, false, ltb,
  ltb→lt, Bool-cases, ◌↔◌, Result, ok,
}
use zinc_simulator.Prelude.Int.{ℤ, pos, pos_part, neg_part, ◌+ℤ◌, +ℤ_parts}
use zinc_simulator.Insn.{RoundingMode}
use zinc_simulator.Fpu.{FpResult}
use zinc_simulator.Fpu.Round.Exact.{HasDigits, IsQuotient, IsBelow, IsAbove, is_tie}
use zinc_simulator.Fpu.Round.Correct.{IsRounding}

module _ (v w : ℕ) (positive : 0 < w) where
  next : (r s : ℕ) → r < s → r * w + w ≤ s * w
  next r s less =
      let more : suc r * w ≤ s * w = mul-le-mul_right w less in
      let spread : suc r * w ≡ r * w + w = grind arith in omega arith

  -- Multiples of `w` that are less than `w` apart are one.
  close : (r s : ℕ) → r * w < s * w + w → s * w < r * w + w → r ≡ s
  close r s a b = elim (Bool-cases (ltb r s)) [
    | inl less ↦ absurd (omega (arith, next r s (ltb→lt r s less)))
    | inr most ↦ elim (Bool-cases (ltb s r)) [
      | inl more ↦ absurd (omega (arith, next s r (ltb→lt s r more)))
      | inr least ↦ ground arith
    ]
  ]

  below_once : (r s : ℕ) → IsBelow v w r → IsBelow v w s → r ≡ s
  below_once r s p q = close r s (omega arith) (omega arith)

  above_once : (r s : ℕ) → IsAbove v w r → IsAbove v w s → r ≡ s
  above_once r s p q = close r s (omega arith) (omega arith)

  -- Two neighbours that are equally near are not both even.
  tie_once :
      (r s : ℕ)
      → IsQuotient RoundingMode.rne true v w r
      → IsQuotient RoundingMode.rne true v w s
      → r < s
      → ⊥
  tie_once r s (a, b, c) (a', b', c') less =
      let gap = next r s less in
      let up : is_tie v w r ≡ true = ground arith in
      let down : is_tie v w s ≡ true = ground arith in
      let even : r % 2 ≡ 0 = rw up at c in
      let even' : s % 2 ≡ 0 = rw down at c' in
      let beyond : suc r < s = omega arith in
      let two = next (suc r) s beyond in
      let spread : suc r * w ≡ r * w + w = grind arith in omega arith

  quotient_once :
      (rm : RoundingMode) (sign : Bool) (r s : ℕ)
      → IsQuotient rm sign v w r
      → IsQuotient rm sign v w s
      → r ≡ s
  quotient_once RoundingMode.rne sign r s p q = elim (Bool-cases (ltb r s)) [
    | inl less ↦ absurd (tie_once r s p q (ltb→lt r s less))
    | inr most ↦ elim (Bool-cases (ltb s r)) [
      | inl more ↦ absurd (tie_once s r q p (ltb→lt s r more))
      | inr least ↦ ground arith
    ]
  ]
  quotient_once RoundingMode.rtz sign r s p q = below_once r s p q
  quotient_once RoundingMode.rdn true r s p q = above_once r s p q
  quotient_once RoundingMode.rdn false r s p q = below_once r s p q
  quotient_once RoundingMode.rup true r s p q = below_once r s p q
  quotient_once RoundingMode.rup false r s p q = above_once r s p q
  quotient_once RoundingMode.rmm sign r s p q = close r s (omega arith) (omega arith)
  quotient_once RoundingMode.dynamic sign r s p q = absurd p
  quotient_once (RoundingMode.reserved m) sign r s p q = absurd p

-- A higher field leaves too few digits.
no_gap :
    (v u j k field : ℕ)
    → v < 2 ^ 27 * (2 ^ j * u)
    → HasDigits field v (2 ^ k * u)
    → 0 < field
    → j < k
    → ⊥
no_gap v u j k field most (_, inl low) some less = absurd (omega arith)
no_gap v u j k field most (_, inr full) some less =
    let more : 2 ^ suc j * u ≤ 2 ^ k * u =
      mul-le-mul_right u (pow-le-pow_right {n = 2} (omega arith) less) in
    let twice : 2 ^ suc j * u ≡ 2 * (2 ^ j * u) =
      ap (λ (t : ℕ). t * u) (pow-succ' 2 j) ∙ mul_assoc 2 (2 ^ j) u in
    omega arith

offset_lem :
    (e : ℤ) (j k f g : ℕ)
    → pos f ≡ pos j +ℤ e +ℤ pos 126
    → pos g ≡ pos k +ℤ e +ℤ pos 126
    → f + k ≡ g + j
offset_lem e j k f g p q = omega (
  arith,
  ap pos_part p,
  ap neg_part p,
  ap pos_part q,
  ap neg_part q,
  +ℤ_parts (pos j) e,
  +ℤ_parts (pos j +ℤ e) (pos 126),
  +ℤ_parts (pos k) e,
  +ℤ_parts (pos k +ℤ e) (pos 126),
)

-- A number, rounded in a mode, has one result: value and flags.
pub IsRounding-unique :
    (rm : RoundingMode) (sign : Bool) (v u : ℕ) (e : ℤ) (x y : FpResult)
    → 0 < u
    → IsRounding rm sign v u e x
    → IsRounding rm sign v u e y
    → x ≡ y
IsRounding-unique rm sign v u e x y positive (j, f, r, (m, d), p, exp, code)
      (k, g, s, (m', d'), q, exp', code') =
    let apart : f + k ≡ g + j = offset_lem e j k f g exp exp' in
    let same : j ≡ k = elim (Bool-cases (ltb j k)) [
      | inl less ↦ let lt = ltb→lt j k less in absurd (no_gap v u j k g m (m', d') (omega arith) lt)
      | inr most ↦ elim (Bool-cases (ltb k j)) [
        | inl more ↦
            let lt = ltb→lt k j more in absurd (no_gap v u k j f m' (m, d) (omega arith) lt)
        | inr least ↦ ground arith
      ]
    ] in
    let field : f ≡ g = omega arith in
    let base : 0 < 2 ^ k * u = grind (arith, one-le-pow k 2 (omega arith)) in
    let quotient : r ≡ s = quotient_once v (2 ^ k * u) base rm sign r s (rw same at p) q in
    code ∙ rw (same, field, quotient) (sym code')

-- What returns a rounding returns each one that there is.
pub returned :
    (rm : RoundingMode) (sign : Bool) (v u : ℕ) (e : ℤ) (run : Result FpResult) (y : FpResult)
    → 0 < u
    → ((x : FpResult) × (run ≡ ok x) × IsRounding rm sign v u e x)
    → IsRounding rm sign v u e y ↔ (run ≡ ok y)
returned rm sign v u e run y positive (x, found, p) = (
  (λ q. found ∙ ap ok (IsRounding-unique rm sign v u e x y positive p q)),
  (λ h. let same : x ≡ y = cc in subst (IsRounding rm sign v u e) same p),
)
