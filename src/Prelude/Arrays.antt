-- ===== src/Prelude/Arrays.antt =====
-- `std::vector` and `std::array` of numbers: a length and what stands at each index. An access
-- with `[]` past the length is undefined in C++.
use Prim.Native.Nat.{ℕ, ◌<◌}
use mathlib.Core.Path.{◌≡◌}
use mathlib.Core.Logic.{◌≢◌}
use native.Mathlib.Omega.{arith}
use zinc_simulator.Prelude.Tests.{ltb, ◌==◌, if◌then◌else◌}
use zinc_simulator.Prelude.Outcome.{Result, ok, err, undefined_behaviour}

pub record Vector : Type 0 where
  pub size : ℕ
  pub at : ℕ → ℕ

abbrev pub update : (ℕ → ℕ) → ℕ → ℕ → ℕ → ℕ
update f i v j = if i == j then v else f j

abbrev pub read : Vector → ℕ → Result ℕ
read v i = if ltb i v.size then ok (v.at i) else err undefined_behaviour

abbrev pub write : Vector → ℕ → ℕ → Result Vector
write v i x =
    if ltb i v.size
    then ok (record { size = v.size; at = update v.at i x })
    else err undefined_behaviour

-- A vector of `n` copies of `x`.
abbrev pub filled : ℕ → ℕ → Vector
filled n x = record { size = n; at = λ i. x }

-- Every entry fits a type of `m` values.
abbrev pub AllBelow : ℕ → Vector → Type 0
AllBelow m v = (i : ℕ) → v.at i < m

pub update_self : (f : ℕ → ℕ) (i v : ℕ) → update f i v i ≡ v
update_self f i v = ground arith

pub update_ne : (f : ℕ → ℕ) (i v j : ℕ) → i ≢ j → update f i v j ≡ f j
update_ne f i v j h = ground arith
