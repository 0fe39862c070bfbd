-- ===== src/Fpu/Convert/Operand.antt =====
-- The sign and the magnitude that `integer_to_float` of src/fpu.cpp reads from a register.
use zinc_simulator.Prelude.{
  ℕ, ◌+◌, ◌*◌, ◌/◌, ◌%◌, ◌^◌, ◌<◌, bit_and, ◌≡◌, refl, ap, arith, Bool, true, ltb, ok,
}
use zinc_simulator.Prelude.Int.{ℤ, pos, pos_part, neg_part}
use zinc_simulator.Word.{signed, u32, add64, not64, ◌<<<◌}
use zinc_simulator.Word.Fields.{and_low, and_field}
use zinc_simulator.Insn.{OpFpType}
use zinc_simulator.Fpu.Convert.{Magnitude, integer_magnitude}
use zinc_simulator.Fpu.Convert.Bounds.{is_from_integer}

-- The integer that a conversion reads from a register.
abbrev pub integer_of : OpFpType → ℕ → ℤ
integer_of OpFpType.cvt_s_to_w x = signed 32 (x % 2 ^ 32)
integer_of OpFpType.cvt_s_to_wu x = pos (x % 2 ^ 32)
integer_of OpFpType.cvt_s_to_l x = signed 64 x
integer_of _ x = pos x

abbrev pub absolute : ℤ → ℕ
absolute z = pos_part z + neg_part z

abbrev pub is_negative : ℤ → Bool
is_negative z = ltb 0 (neg_part z)

same_magnitude :
    {s t : Bool} {m n : ℕ}
    → s ≡ t
    → m ≡ n
    → (let a : Magnitude = record { sign = s; magnitude = m } in a)
      ≡ record { sign = t; magnitude = n }
same_magnitude p q = cc

pub integer_magnitude_lem :
    (op : OpFpType) (x : ℕ)
    → x < 2 ^ 64
    → is_from_integer op ≡ true
    → integer_magnitude op x
      ≡ ok (record { sign = is_negative (integer_of op x); magnitude = absolute (integer_of op x) })
unfolding integer_magnitude
integer_magnitude_lem OpFpType.cvt_s_to_w x h g =
    let top : bit_and (u32 x) (1 <<< 31) ≡ u32 x / 2 ^ 31 % 2 * 2 ^ 31 = and_field 31 1 (u32 x) in
    let low : bit_and (add64 (not64 (u32 x)) 1) 0xffffffff ≡ add64 (not64 (u32 x)) 1 % 2 ^ 32 =
      and_low 32 (add64 (not64 (u32 x)) 1) in
    rw (top, low) (ap ok (same_magnitude (ground arith) (ground arith)))
integer_magnitude_lem OpFpType.cvt_s_to_wu x h g = ap ok (same_magnitude refl (omega arith))
integer_magnitude_lem OpFpType.cvt_s_to_l x h g =
    let top : bit_and x (1 <<< 63) ≡ x / 2 ^ 63 % 2 * 2 ^ 63 = and_field 63 1 x in
    rw top (ap ok (same_magnitude (ground arith) (ground arith)))
integer_magnitude_lem OpFpType.cvt_s_to_lu x h g = ap ok (same_magnitude refl (omega arith))
integer_magnitude_lem _ x h g = cc

pub absolute-lt :
    (op : OpFpType) (x : ℕ)
    → x < 2 ^ 64
    → is_from_integer op ≡ true
    → absolute (integer_of op x) < 2 ^ 64
absolute-lt OpFpType.cvt_s_to_w x h g = ground arith
absolute-lt OpFpType.cvt_s_to_wu x h g = omega arith
absolute-lt OpFpType.cvt_s_to_l x h g = ground arith
absolute-lt OpFpType.cvt_s_to_lu x h g = omega arith
absolute-lt _ x h g = cc
