-- ===== src/Prelude/Outcome.antt =====
-- What a C++ call may end in: a value, a thrown exception, a failed `assert`, or behaviour that
-- the language leaves undefined. Messages of exceptions are left out.
use Prim.Native.Nat.{ℕ, ◌<◌, ◌^◌}
use mathlib.Core.Path.{◌≡◌, refl, subst}
use mathlib.Core.Bool.{Bool, true, false}
use zinc_simulator.Prelude.Tests.{if◌then◌else◌}

pub data Fault : Type 0 where
  runtime_error logic_error assert_failed undefined_behaviour : Fault

pub data Result {ℓ} (A : Type ℓ) : Type ℓ where
  ok : A → Result A
  err : Fault → Result A

infixl 5 ◌>>=◌ ◌>>◌
abbrev pub ◌>>=◌ {ℓ κ} : {A : Type ℓ} {B : Type κ} (r : Result A) (next : A → Result B) → Result B
err fault >>= next = err fault
ok value >>= next = next value

-- `assert(c)` and the like.
abbrev pub require : Bool → Fault → Result (Unit {0})
require holds fault = if holds then ok tt else err fault

abbrev pub ◌>>◌ {ℓ} : {A : Type ℓ} (r : Result (Unit {0})) (next : Result A) → Result A
err fault >> next = err fault
ok _ >> next = next

-- How a call may end: with a value of which `P` holds, or with a fault of which `F` holds.
pub data Ends {A : Type 0} (P : A → Type 0) (F : Fault → Type 0) : Result A → Type 0 where
  returns : {a : A} → P a → Ends P F (ok a)
  throws : {e : Fault} → F e → Ends P F (err e)

module _ {A : Type 0} {P : A → Type 0} {F : Fault → Type 0} where
  pub Ends-if :
      (b : Bool) {x y : Result A} → Ends P F x → Ends P F y → Ends P F (if b then x else y)
  Ends-if true p q = p
  Ends-if false p q = q

  -- The same with the test's value at hand.
  pub Ends-split :
      (b : Bool) {x y : Result A}
      → (b ≡ true → Ends P F x)
      → (b ≡ false → Ends P F y)
      → Ends P F (if b then x else y)
  Ends-split true p q = p refl
  Ends-split false p q = q refl

  pub Ends-bind :
      {B : Type 0} {Q : B → Type 0} {m : Result B} {f : B → Result A}
      → Ends Q F m
      → ((b : B) → Q b → Ends P F (f b))
      → Ends P F (m >>= f)
  Ends-bind (returns q) h = h _ q
  Ends-bind (throws e) h = throws e

  pub Ends-map : {Q : A → Type 0} {m : Result A} → Ends Q F m → ((a : A) → Q a → P a) → Ends P F m
  Ends-map (returns q) h = returns (h _ q)
  Ends-map (throws e) h = throws e

  pub Ends-ok : {r : Result A} {v : A} → Ends P F r → r ≡ ok v → P v
  Ends-ok {v} (returns {a} p) e = let q : a ≡ v = cc in subst P q p
  Ends-ok (throws f) e = cc

  pub Ends-err : {r : Result A} {x : Fault} → Ends P F r → r ≡ err x → F x
  Ends-err (returns p) e = cc
  Ends-err {x} (throws {e = y} f) e = let q : y ≡ x = cc in subst F q f

pub Ends-weaken :
    {A : Type 0} {P Q : A → Type 0} {F G : Fault → Type 0} {m : Result A}
    → Ends P F m
    → ((a : A) → P a → Q a)
    → ((e : Fault) → F e → G e)
    → Ends Q G m
Ends-weaken (returns p) f g = returns (f _ p)
Ends-weaken (throws q) f g = throws (g _ q)

abbrev pub IsFault : Fault → Type 0
IsFault e = Unit {0}

-- What cannot fault has a value.
pub Ends-value :
    {A : Type 0} {P : A → Type 0} {F : Fault → Type 0} {m : Result A}
    → Ends P F m
    → ((e : Fault) → F e → ⊥)
    → (a : A) × (m ≡ ok a) × P a
Ends-value (returns {a} p) never = (a, refl, p)
Ends-value (throws {e} f) never = absurd (never e f)

-- A number of `w` bits, or a fault.
abbrev pub Fits : ℕ → Result ℕ → Type 0
Fits w r = Ends (λ v. v < 2 ^ w) IsFault r
