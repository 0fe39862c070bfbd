-- ===== src/Fpu/Round/Shift.antt =====
-- `shift_right_jam`: a quotient by a power of two whose lowest digit also records what was lost.
use native.Mathlib.Nat.{div-le_self, div-eq_of_lt, mod-eq_of_lt, pow-succ', pow-le-pow_right}
use zinc_simulator.Prelude.{
  ℕ, zero, suc, ◌+◌, ◌*◌, ◌/◌, ◌%◌, ◌^◌, ◌≤◌, ◌<◌, bit_or, ◌≡◌, arith, ◌==◌, ◌!=◌, ltb, ltb→lt,
  lt→ltb, if◌then◌else◌, Bool-cases, inl, inr,
}
use zinc_simulator.Word.Fields.{and_low, or-add-and}
use zinc_simulator.Fpu.Round.{shift_right_jam}

-- A digit that is set if `q` is odd or something was lost.
abbrev pub sticky : (q lost : ℕ) → ℕ
sticky q lost = if lost == 0 then q else q / 2 * 2 + 1

or_one : (q : ℕ) → bit_or q 1 ≡ q / 2 * 2 + 1
or_one q = omega (arith, or-add-and q 1, and_low 1 q)

or_zero : (q : ℕ) → bit_or q 0 ≡ q
or_zero q = omega (arith, or-add-and q 0, and_low 0 q)

below_64 : (v d : ℕ) → d < 64 → shift_right_jam v d ≡ sticky (v / 2 ^ d) (v % 2 ^ d)
unfolding shift_right_jam
below_64 v zero h = ground arith
below_64 v (suc d) h =
    ground (
      arith,
      and_low (suc d) v,
      or_one (v / 2 ^ suc d),
      or_zero (v / 2 ^ suc d),
      lt→ltb (suc d) 64 h,
    )

-- The quotient, with what was lost kept in its lowest digit, for every distance.
pub shift_right_jam-sticky :
    (v d : ℕ) → v < 2 ^ 64 → shift_right_jam v d ≡ sticky (v / 2 ^ d) (v % 2 ^ d)
unfolding shift_right_jam
shift_right_jam-sticky v d h = elim (Bool-cases (ltb d 64)) [
  | inl near ↦ below_64 v d (ltb→lt d 64 near)
  | inr far ↦
      let more : 64 ≤ d = ground arith in
      let small : v < 2 ^ d = omega (arith, pow-le-pow_right {n = 2} (omega arith) more) in
      rw (div-eq_of_lt small, mod-eq_of_lt small) (ground arith)
]

pub shift_right_jam-le : (v d : ℕ) → v < 2 ^ 64 → v / 2 ^ d ≤ shift_right_jam v d
shift_right_jam-le v d h = rw (shift_right_jam-sticky v d h) (ground arith)

pub shift_right_jam-lt :
    (n v d : ℕ) → v < 2 ^ 64 → v / 2 ^ d < 2 ^ suc n → shift_right_jam v d < 2 ^ suc n
shift_right_jam-lt n v d h lt = rw (shift_right_jam-sticky v d h) (ground (arith, pow-succ' 2 n))

-- It does not grow.
pub shift_right_jam-small :
    (n v d : ℕ) → v < 2 ^ 64 → v < 2 ^ suc n → shift_right_jam v d < 2 ^ suc n
shift_right_jam-small n v d h lt = shift_right_jam-lt n v d h (omega (arith, div-le_self v (2 ^ d)))

-- The lowest digit is set by an `or`.
pub sticky-or : (q lost : ℕ) → (if lost != 0 then bit_or q 1 else q) ≡ sticky q lost
sticky-or q lost = ground (arith, or_one q)
