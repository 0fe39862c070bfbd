-- ===== src/Word/Fields.antt =====
-- Masks, disjoint fields and their union, as arithmetic that `omega` reads.
use mathlib.Core.WellFounded
use Prim.Native.Nat.{bit_and-bitwise, bit_or-bitwise}
use native.Mathlib.Nat.{pow-succ', one-le-pow, div-div-eq-div-mul, div-add-mod'}
use zinc_simulator.Prelude.{
  ◌≤◌, ◌==◌, Bool-cases, inl, inr, sym, ℕ, zero, suc, ◌+◌, ◌-◌, ◌*◌, ◌/◌, ◌%◌, ◌^◌, ◌<◌, bit_and,
  bit_or, ◌≡◌, refl, ap, ◌∙◌, arith,
}
use zinc_simulator.Prelude.Order.{lt_wf}
use zinc_simulator.Word.Bits.{bit_and_step, bit_or_step}

none_within : (bound x : ℕ) → x ≤ bound → bit_and x 0 ≡ 0
none_within zero x h = let e : x ≡ 0 = omega arith in rw e
none_within (suc bound) x h = elim (Bool-cases (x == 0)) [
  | inl e ↦ let e' : x ≡ 0 = ground arith in rw e'
  | inr e ↦ omega (arith, bit_and_step x 0, none_within bound (x / 2) (ground arith))
]

bit_and-zero : (x : ℕ) → bit_and x 0 ≡ 0
bit_and-zero x = none_within x x (omega arith)

pub zero-bit_and : (b : ℕ) → bit_and 0 b ≡ 0
zero-bit_and b = bit_and-bitwise 0 b

pub zero-bit_or : (b : ℕ) → bit_or 0 b ≡ b
zero-bit_or b = bit_or-bitwise 0 b

-- `a | b` and `a & b` have the digits of `a` and of `b` between them.
pub or-add-and : (a b : ℕ) → bit_or a b + bit_and a b ≡ a + b
or-add-and a =
    WellFounded.induction lt_wf {C = λ n. (b : ℕ) → bit_or n b + bit_and n b ≡ n + b} a step
  where
    step :
        (n : ℕ)
        → ((m : ℕ) → m < n → (b : ℕ) → bit_or m b + bit_and m b ≡ m + b)
        → (b : ℕ) → bit_or n b + bit_and n b ≡ n + b
    step zero ih b = omega (arith, zero-bit_and b, zero-bit_or b)
    step (suc n) ih b =
        omega (
          arith,
          bit_and_step (suc n) b,
          bit_or_step (suc n) b,
          ih (suc n / 2) (omega arith) (b / 2),
        )

-- The remainder and the quotient by `2 ^ (k + 1)`, from those by 2.
pub div-two-pow-suc : (a k : ℕ) → a / 2 ^ suc k ≡ a / 2 / 2 ^ k
div-two-pow-suc a k = rw (pow-succ' 2 k) (rw (← div-div-eq-div-mul a 2 (2 ^ k)))

mul-two-pow-suc : (m s : ℕ) → m * 2 ^ suc s ≡ 2 * (m * 2 ^ s)
mul-two-pow-suc m s =
    let two : 2 ^ suc s ≡ 2 * 2 ^ s = omega (arith, pow-succ' 2 s) in rw two (grind arith)

mod-two-pow-suc : (a k : ℕ) → a % 2 ^ suc k ≡ a / 2 % 2 ^ k * 2 + a % 2
mod-two-pow-suc a k = omega (
  arith,
  div-add-mod' a (2 ^ suc k),
  div-add-mod' (a / 2) (2 ^ k),
  div-two-pow-suc a k,
  ap (λ (t : ℕ). t * 2 ^ suc k) (div-two-pow-suc a k),
  mul-two-pow-suc (a / 2 / 2 ^ k) k,
)

-- A mask of `k` low bits is the remainder by `2 ^ k`.
pub and_low : (k a : ℕ) → bit_and a (2 ^ k - 1) ≡ a % 2 ^ k
and_low zero a = rw (bit_and-zero a) (omega arith)
and_low (suc k) a = omega (
  arith,
  bit_and_step a (2 ^ suc k - 1),
  ap (λ (t : ℕ). bit_and (a / 2) t) half,
  and_low k (a / 2),
  mod-two-pow-suc a k,
  pow-succ' 2 k,
  one-le-pow k 2,
)
  where
    half : (2 ^ suc k - 1) / 2 ≡ 2 ^ k - 1
    half = omega (arith, pow-succ' 2 k)

-- A shifted mask acts on the number shifted the other way.
pub and_shifted : (s a m : ℕ) → bit_and a (m * 2 ^ s) ≡ bit_and (a / 2 ^ s) m * 2 ^ s
and_shifted zero a m =
    let e : m * 1 ≡ m = omega arith in let e' : a / 1 ≡ a = omega arith in rw (e, e') (omega arith)
and_shifted (suc s) a m = omega (
  arith,
  bit_and_step a (m * 2 ^ suc s),
  ap (λ (t : ℕ). bit_and (a / 2) t) half,
  and_shifted s (a / 2) m,
  ap (λ (t : ℕ). bit_and t m) (div-two-pow-suc a s),
  ap (λ (t : ℕ). bit_and t m * 2 ^ suc s) (div-two-pow-suc a s),
  mul-two-pow-suc m s,
  mul-two-pow-suc (bit_and (a / 2 / 2 ^ s) m) s,
)
  where
    half : m * 2 ^ suc s / 2 ≡ m * 2 ^ s
    half = omega (arith, mul-two-pow-suc m s)

-- A mask of `k` bits from position `s` on.
pub and_field : (s k a : ℕ) → bit_and a ((2 ^ k - 1) * 2 ^ s) ≡ a / 2 ^ s % 2 ^ k * 2 ^ s
and_field s k a = and_shifted s a (2 ^ k - 1) ∙ ap (λ (t : ℕ). t * 2 ^ s) (and_low k (a / 2 ^ s))

and_above : (k hi f : ℕ) → f < 2 ^ k → bit_and (hi * 2 ^ k) f ≡ 0
and_above zero hi f h = let e : f ≡ 0 = omega arith in rw e (bit_and-zero (hi * 1))
and_above (suc k) hi f h = omega (
  arith,
  bit_and_step (hi * 2 ^ suc k) f,
  ap (λ (t : ℕ). bit_and t (f / 2)) half,
  and_above k hi (f / 2) (omega (arith, pow-succ' 2 k)),
  mul-two-pow-suc hi k,
)
  where
    half : hi * 2 ^ suc k / 2 ≡ hi * 2 ^ k
    half = omega (arith, mul-two-pow-suc hi k)

-- A field `f` of `k` bits at position `s` is added by `|` where those bits of `a` are clear.
pub or_field :
    (s k a f : ℕ) → a / 2 ^ s % 2 ^ k ≡ 0 → f < 2 ^ k → bit_or a (f * 2 ^ s) ≡ a + f * 2 ^ s
or_field s k a f p q = omega (arith, or-add-and a (f * 2 ^ s), disjoint)
  where
    clear : a / 2 ^ s ≡ a / 2 ^ s / 2 ^ k * 2 ^ k
    clear = omega (arith, div-add-mod' (a / 2 ^ s) (2 ^ k))

    disjoint : bit_and a (f * 2 ^ s) ≡ 0
    disjoint = omega (
      arith,
      and_shifted s a f
          ∙ ap (λ (t : ℕ). t * 2 ^ s)
              (ap (λ (t : ℕ). bit_and t f) clear ∙ and_above k (a / 2 ^ s / 2 ^ k) f q),
    )

-- The same at position 0, with the field on the right.
pub or_low : (k a f : ℕ) → a % 2 ^ k ≡ 0 → f < 2 ^ k → bit_or a f ≡ a + f
or_low k a f p q = omega (arith, or-add-and a f, disjoint)
  where
    clear : a ≡ a / 2 ^ k * 2 ^ k
    clear = omega (arith, div-add-mod' a (2 ^ k))

    disjoint : bit_and a f ≡ 0
    disjoint = ap (λ (t : ℕ). bit_and t f) clear ∙ and_above k (a / 2 ^ k) f q

pub bit_and_comm : (a b : ℕ) → bit_and a b ≡ bit_and b a
bit_and_comm a = WellFounded.induction lt_wf {C = λ n. (b : ℕ) → bit_and n b ≡ bit_and b n} a step
  where
    step :
        (n : ℕ)
        → ((m : ℕ) → m < n → (b : ℕ) → bit_and m b ≡ bit_and b m)
        → (b : ℕ) → bit_and n b ≡ bit_and b n
    step zero ih b = omega (arith, zero-bit_and b, bit_and-zero b)
    step (suc n) ih b = omega (
      arith,
      bit_and_step (suc n) b,
      bit_and_step b (suc n),
      ih (suc n / 2) (omega arith) (b / 2),
    )

-- The mask on the left, as the source often has it.
pub low_and : (k a : ℕ) → bit_and (2 ^ k - 1) a ≡ a % 2 ^ k
low_and k a = bit_and_comm (2 ^ k - 1) a ∙ and_low k a

-- A mask with a low part `l` below position `s` takes the two parts of a number apart.
pub and_split :
    (s a m l : ℕ)
    → l < 2 ^ s
    → bit_and a (m * 2 ^ s + l) ≡ bit_and (a / 2 ^ s) m * 2 ^ s + bit_and a l
and_split zero a m l h =
    let e : m * 1 + l ≡ m = omega arith in
    let e' : a / 1 ≡ a = omega arith in
    let z : l ≡ 0 = omega arith in rw (e, e', z) (omega (arith, bit_and-zero a))
and_split (suc s) a m l h = omega (
  arith,
  bit_and_step a (m * 2 ^ suc s + l),
  bit_and_step a l,
  ap (λ (t : ℕ). bit_and (a / 2) t) half,
  and_split s (a / 2) m (l / 2) (omega (arith, pow-succ' 2 s)),
  ap (λ (t : ℕ). bit_and t m * 2 ^ suc s) (div-two-pow-suc a s),
  mul-two-pow-suc m s,
  mul-two-pow-suc (bit_and (a / 2 / 2 ^ s) m) s,
)
  where
    half : (m * 2 ^ suc s + l) / 2 ≡ m * 2 ^ s + l / 2
    half = omega (arith, mul-two-pow-suc m s)

-- A mask of `s` bits sees no higher bit.
pub and_narrow : (s a l : ℕ) → l < 2 ^ s → bit_and a l ≡ bit_and (a % 2 ^ s) l
and_narrow zero a l h =
    let e : l ≡ 0 = omega arith in rw e (rw (bit_and-zero a) (rw (bit_and-zero (a % 2 ^ 0)) refl))
and_narrow (suc s) a l h =
    let low : a % 2 ^ suc s / 2 ≡ a / 2 % 2 ^ s = omega (arith, mod-two-pow-suc a s) in
    let parity : a % 2 ^ suc s % 2 ≡ a % 2 = omega (arith, mod-two-pow-suc a s) in
    let half = and_narrow s (a / 2) (l / 2) (omega (arith, pow-succ' 2 s)) in
    bit_and_step a l ∙ rw half (rw (← low) (rw (← parity) (sym (bit_and_step (a % 2 ^ suc s) l))))
