-- ===== src/MulDiv.antt =====
-- src/mul_div.cpp: the instructions of the M extension on 64-bit patterns.
pub mod High
pub mod Division
pub mod Bounds
use zinc_simulator.Prelude.{
  ℕ, ◌+◌, ◌-◌, ◌*◌, ◌/◌, ◌%◌, ◌^◌, bit_and, bit_or, Bool, true, false, ltb, if◌then◌else◌, ◌==◌,
  ◌!=◌, ◌&&◌, Result, ok, err, logic_error,
}
use zinc_simulator.Word.{u32, u64, ◌<<<◌, ◌>>>◌, add64, sub64}
use zinc_simulator.Insn.{OpType}

pub multiply_high_unsigned : ℕ → ℕ → ℕ
multiply_high_unsigned lhs rhs =
    let lhs_low = u32 lhs in
    let lhs_high = lhs >>> 32 in
    let rhs_low = u32 rhs in
    let rhs_high = rhs >>> 32 in
    let low_low = u64 (lhs_low * rhs_low) in
    let low_high = u64 (lhs_low * rhs_high) in
    let high_low = u64 (lhs_high * rhs_low) in
    let high_high = u64 (lhs_high * rhs_high) in
    let carry = add64 (add64 (low_low >>> 32) (u32 low_high)) (u32 high_low) in
    add64 (add64 (add64 high_high (low_high >>> 32)) (high_low >>> 32)) (carry >>> 32)

pub sign_extend_word : ℕ → ℕ
sign_extend_word value =
    if bit_and value (1 <<< 31) != 0 then bit_or 0xffffffff00000000 value else value

-- `/` and `%` on the `w`-bit signed integers of C++: the quotient is rounded towards zero and the
-- remainder has the sign of the dividend. The callers keep a zero divisor and an overflow away.
abbrev pub is_negative : ℕ → ℕ → Bool
is_negative w x = if ltb x (2 ^ (w - 1)) then false else true

abbrev pub magnitude : ℕ → ℕ → ℕ
magnitude w x = if is_negative w x then 2 ^ w - x else x

abbrev pub with_sign : ℕ → Bool → ℕ → ℕ
with_sign w negative m = if negative then (2 ^ w - m) % 2 ^ w else m

unfoldable pub signed_div : ℕ → ℕ → ℕ → ℕ
signed_div w a b =
    with_sign w
      (if is_negative w a then (if is_negative w b then false else true) else is_negative w b)
      (magnitude w a / magnitude w b)

unfoldable pub signed_rem : ℕ → ℕ → ℕ → ℕ
signed_rem w a b = with_sign w (is_negative w a) (magnitude w a % magnitude w b)

-- `MulDivUnit::execute`
pub execute : OpType → ℕ → ℕ → Result ℕ
execute OpType.mul lhs rhs = ok (u64 (lhs * rhs))
execute OpType.mulh lhs rhs =
    let high = multiply_high_unsigned lhs rhs in
    let high1 = if bit_and lhs (1 <<< 63) != 0 then sub64 high rhs else high in
    ok (if bit_and rhs (1 <<< 63) != 0 then sub64 high1 lhs else high1)
execute OpType.mulhsu lhs rhs =
    let high = multiply_high_unsigned lhs rhs in
    ok (if bit_and lhs (1 <<< 63) != 0 then sub64 high rhs else high)
execute OpType.mulhu lhs rhs = ok (multiply_high_unsigned lhs rhs)
execute OpType.div lhs rhs =
    if rhs == 0
    then ok (2 ^ 64 - 1)
    else if lhs == 2 ^ 63 && rhs == 2 ^ 64 - 1
    then ok lhs
    else ok (signed_div 64 lhs rhs)
execute OpType.divu lhs rhs = ok (if rhs == 0 then 2 ^ 64 - 1 else lhs / rhs)
execute OpType.rem lhs rhs =
    if rhs == 0
    then ok lhs
    else if lhs == 2 ^ 63 && rhs == 2 ^ 64 - 1
    then ok 0
    else ok (signed_rem 64 lhs rhs)
execute OpType.remu lhs rhs = ok (if rhs == 0 then lhs else lhs % rhs)
execute _ lhs rhs = err logic_error

-- `MulDivUnit::execute_word`
pub execute_word : OpType → ℕ → ℕ → Result ℕ
execute_word OpType.mul lhs rhs = ok (sign_extend_word (u32 (u32 lhs * u32 rhs)))
execute_word OpType.div lhs rhs =
    if u32 rhs == 0
    then ok (2 ^ 64 - 1)
    else if u32 lhs == 2 ^ 31 && u32 rhs == 2 ^ 32 - 1
    then ok (sign_extend_word (u32 lhs))
    else ok (sign_extend_word (signed_div 32 (u32 lhs) (u32 rhs)))
execute_word OpType.divu lhs rhs =
    ok (sign_extend_word (if u32 rhs == 0 then 2 ^ 32 - 1 else u32 lhs / u32 rhs))
execute_word OpType.rem lhs rhs =
    if u32 rhs == 0
    then ok (sign_extend_word (u32 lhs))
    else if u32 lhs == 2 ^ 31 && u32 rhs == 2 ^ 32 - 1
    then ok 0
    else ok (sign_extend_word (signed_rem 32 (u32 lhs) (u32 rhs)))
execute_word OpType.remu lhs rhs =
    ok (sign_extend_word (if u32 rhs == 0 then u32 lhs else u32 lhs % u32 rhs))
execute_word _ lhs rhs = err logic_error
