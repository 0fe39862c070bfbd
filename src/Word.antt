-- ===== src/Word.antt =====
-- The fixed-width integers of C++ as bit patterns: a `uint64_t` or an `int64_t` is a number below
-- 2 ^ 64, a signed one in two's complement. Casts, shifts and wrapping arithmetic on them.
pub mod Bits
pub mod Fields
use zinc_simulator.Prelude.{ℕ, ◌+◌, ◌-◌, ◌*◌, ◌/◌, ◌%◌, ◌^◌, ltb, if◌then◌else◌, Bool}
use zinc_simulator.Prelude.Int.{ℤ, pos, negsuc, ltb_ℤ}

abbrev pub u8 : ℕ → ℕ
u8 n = n % 2 ^ 8

abbrev pub u16 : ℕ → ℕ
u16 n = n % 2 ^ 16

abbrev pub u32 : ℕ → ℕ
u32 n = n % 2 ^ 32

abbrev pub u64 : ℕ → ℕ
u64 n = n % 2 ^ 64

infixl 75 ◌<<<◌ ◌>>>◌
abbrev pub ◌<<<◌ : ℕ → ℕ → ℕ
x <<< k = x * 2 ^ k

abbrev pub ◌>>>◌ : ℕ → ℕ → ℕ
x >>> k = x / 2 ^ k

abbrev pub not32 : ℕ → ℕ
not32 x = 2 ^ 32 - 1 - x

abbrev pub not64 : ℕ → ℕ
not64 x = 2 ^ 64 - 1 - x

-- Wrapping sums and differences; the modulus is added first since `-` stops at 0.
abbrev pub add32 : ℕ → ℕ → ℕ
add32 a b = u32 (a + b)

abbrev pub sub32 : ℕ → ℕ → ℕ
sub32 a b = u32 (a + 2 ^ 32 - b)

abbrev pub add64 : ℕ → ℕ → ℕ
add64 a b = u64 (a + b)

abbrev pub sub64 : ℕ → ℕ → ℕ
sub64 a b = u64 (a + 2 ^ 64 - b)

-- The pattern of a `w`-bit signed number, widened to 64 bits.
abbrev pub widen : ℕ → ℕ → ℕ
widen w x = if ltb x (2 ^ (w - 1)) then x else x + (2 ^ 64 - 2 ^ w)

-- `>>` on an `int64_t` and on an `int32_t`: the top bit is shifted in.
abbrev pub sra64 : ℕ → ℕ → ℕ
sra64 x k = if ltb x (2 ^ 63) then x >>> k else x >>> k + (2 ^ 64 - 2 ^ (64 - k))

abbrev pub sra32 : ℕ → ℕ → ℕ
sra32 x k = if ltb x (2 ^ 31) then x >>> k else x >>> k + (2 ^ 32 - 2 ^ (32 - k))

-- The integer that a pattern stands for.
abbrev pub signed : ℕ → ℕ → ℤ
signed w x = if ltb x (2 ^ (w - 1)) then pos x else negsuc (2 ^ w - 1 - x)

abbrev pub lt_s64 : ℕ → ℕ → Bool
lt_s64 a b = ltb_ℤ (signed 64 a) (signed 64 b)
