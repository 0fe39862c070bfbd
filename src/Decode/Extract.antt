-- ===== src/Decode/Extract.antt =====
-- The extractors of src/decode.cpp as arithmetic on the instruction word.
use zinc_simulator.Prelude.{ℕ, ◌+◌, ◌*◌, ◌/◌, ◌%◌, ◌^◌, ◌<◌, bit_and, bit_or, ◌≡◌, ap, arith}
use zinc_simulator.Word.{widen}
use zinc_simulator.Word.Fields.{and_low, low_and, and_field, or_field, or_low}
use zinc_simulator.Decode.{
  get_opcode, get_u_type_imm, sign_extend, get_j_type_imm, get_rd, get_funct3, get_funct7,
  get_shamt, get_rs2, get_rs3, get_fmt, get_zicsr_csr, get_rs1, get_zicsr_uimm, get_i_type_imm,
  get_s_type_imm, get_b_type_imm,
}

pub get_opcode_lem : (w : ℕ) → get_opcode w ≡ w % 2 ^ 7
unfolding get_opcode
get_opcode_lem w = and_low 7 w

pub get_rd_lem : (w : ℕ) → get_rd w ≡ w / 2 ^ 7 % 2 ^ 5
unfolding get_rd
get_rd_lem w = low_and 5 (w / 2 ^ 7)

pub get_funct3_lem : (w : ℕ) → get_funct3 w ≡ w / 2 ^ 12 % 2 ^ 3
unfolding get_funct3
get_funct3_lem w = low_and 3 (w / 2 ^ 12)

pub get_funct7_lem : (w : ℕ) → get_funct7 w ≡ w / 2 ^ 25 % 2 ^ 7
unfolding get_funct7
get_funct7_lem w = low_and 7 (w / 2 ^ 25)

pub get_shamt_lem : (w : ℕ) → get_shamt w ≡ w / 2 ^ 20 % 2 ^ 6
unfolding get_shamt
get_shamt_lem w = low_and 6 (w / 2 ^ 20)

pub get_rs1_lem : (w : ℕ) → get_rs1 w ≡ w / 2 ^ 15 % 2 ^ 5
unfolding get_rs1
get_rs1_lem w = low_and 5 (w / 2 ^ 15)

pub get_rs2_lem : (w : ℕ) → get_rs2 w ≡ w / 2 ^ 20 % 2 ^ 5
unfolding get_rs2
get_rs2_lem w = low_and 5 (w / 2 ^ 20)

pub get_rs3_lem : (w : ℕ) → get_rs3 w ≡ w / 2 ^ 27 % 2 ^ 5
unfolding get_rs3
get_rs3_lem w = low_and 5 (w / 2 ^ 27)

pub get_fmt_lem : (w : ℕ) → get_fmt w ≡ w / 2 ^ 25 % 2 ^ 2
unfolding get_fmt
get_fmt_lem w = low_and 2 (w / 2 ^ 25)

pub get_zicsr_csr_lem : (w : ℕ) → get_zicsr_csr w ≡ w / 2 ^ 20 % 2 ^ 12
unfolding get_zicsr_csr
get_zicsr_csr_lem w = low_and 12 (w / 2 ^ 20)

pub get_zicsr_uimm_lem : (w : ℕ) → get_zicsr_uimm w ≡ w / 2 ^ 15 % 2 ^ 5
unfolding get_zicsr_uimm
get_zicsr_uimm_lem w = low_and 5 (w / 2 ^ 15)

-- Shifting left and then right with the sign repeats the top bit of the field.
pub sign_extend-12 : (v : ℕ) → v < 2 ^ 12 → sign_extend v 12 ≡ widen 12 v
unfolding sign_extend
sign_extend-12 v h = ground arith

pub sign_extend-13 : (v : ℕ) → v < 2 ^ 13 → sign_extend v 13 ≡ widen 13 v
unfolding sign_extend
sign_extend-13 v h = ground arith

pub sign_extend-21 : (v : ℕ) → v < 2 ^ 21 → sign_extend v 21 ≡ widen 21 v
unfolding sign_extend
sign_extend-21 v h = ground arith

pub get_i_type_imm_lem : (w : ℕ) → get_i_type_imm w ≡ widen 12 (w / 2 ^ 20 % 2 ^ 12)
unfolding get_i_type_imm
get_i_type_imm_lem w = rw (low_and 12 (w / 2 ^ 20)) (sign_extend-12 _ (omega arith))

-- The four immediates that are put together from several fields.
abbrev pub s_field : ℕ → ℕ
s_field w = w / 2 ^ 25 % 2 ^ 7 * 2 ^ 5 + w / 2 ^ 7 % 2 ^ 5

abbrev pub b_field : ℕ → ℕ
b_field w =
    w / 2 ^ 31 % 2 * 2 ^ 12
    + w / 2 ^ 25 % 2 ^ 6 * 2 ^ 5
    + w / 2 ^ 8 % 2 ^ 4 * 2
    + w / 2 ^ 7 % 2 * 2 ^ 11

abbrev pub j_field : ℕ → ℕ
j_field w =
    w / 2 ^ 31 % 2 * 2 ^ 20
    + w / 2 ^ 21 % 2 ^ 10 * 2
    + w / 2 ^ 20 % 2 * 2 ^ 11
    + w / 2 ^ 12 % 2 ^ 8 * 2 ^ 12

pub get_u_type_imm_lem : (w : ℕ) → w < 2 ^ 32 → get_u_type_imm w ≡ widen 32 (w / 2 ^ 12 * 2 ^ 12)
unfolding get_u_type_imm
get_u_type_imm_lem w h =
    let e : bit_and w 0xfffff000 ≡ w / 2 ^ 12 * 2 ^ 12 = omega (arith, and_field 12 20 w) in
    ap (widen 32) e

pub get_s_type_imm_lem : (w : ℕ) → get_s_type_imm w ≡ widen 12 (s_field w)
unfolding get_s_type_imm
get_s_type_imm_lem w =
    rw (and_low 7 (w / 2 ^ 25), and_low 5 (w / 2 ^ 7))
      (rw (or_low 5 (w / 2 ^ 25 % 2 ^ 7 * 2 ^ 5) (w / 2 ^ 7 % 2 ^ 5) (omega arith) (omega arith))
        (sign_extend-12 _ (omega arith)))

-- Four fields at places of their own, in the order in which the source joins them.
or_fields :
    (s t u r k l m a b c d : ℕ)
    → a * 2 ^ s / 2 ^ t % 2 ^ k ≡ 0
    → b < 2 ^ k
    → (a * 2 ^ s + b * 2 ^ t) / 2 ^ u % 2 ^ l ≡ 0
    → c < 2 ^ l
    → (a * 2 ^ s + b * 2 ^ t + c * 2 ^ u) / 2 ^ r % 2 ^ m ≡ 0
    → d < 2 ^ m
    → bit_or (bit_or (bit_or (a * 2 ^ s) (b * 2 ^ t)) (c * 2 ^ u)) (d * 2 ^ r)
      ≡ a * 2 ^ s + b * 2 ^ t + c * 2 ^ u + d * 2 ^ r
or_fields s t u r k l m a b c d hb wb hc wc hd wd = rw (or_field t k (a * 2 ^ s) b hb wb) (
    rw (or_field u l (a * 2 ^ s + b * 2 ^ t) c hc wc)
      (or_field r m (a * 2 ^ s + b * 2 ^ t + c * 2 ^ u) d hd wd))

pub get_b_type_imm_lem : (w : ℕ) → get_b_type_imm w ≡ widen 13 (b_field w)
unfolding get_b_type_imm
get_b_type_imm_lem w =
    rw
      (and_low 1 (w / 2 ^ 31), and_low 6 (w / 2 ^ 25), and_low 4 (w / 2 ^ 8), and_low 1 (w / 2 ^ 7))
      (rw
        (or_fields 12 5 1 11 6 4 1 (w / 2 ^ 31 % 2) (w / 2 ^ 25 % 2 ^ 6) (w / 2 ^ 8 % 2 ^ 4)
          (w / 2 ^ 7 % 2) (omega arith) (omega arith) (omega arith) (omega arith) (omega arith)
          (omega arith))
        (sign_extend-13 _ (omega arith)))

pub get_j_type_imm_lem : (w : ℕ) → get_j_type_imm w ≡ widen 21 (j_field w)
unfolding get_j_type_imm
get_j_type_imm_lem w =
    rw
      (
        and_low 1 (w / 2 ^ 31),
        and_low 10 (w / 2 ^ 21),
        and_low 1 (w / 2 ^ 20),
        and_low 8 (w / 2 ^ 12),
      )
      (rw
        (or_fields 20 1 11 12 10 1 8 (w / 2 ^ 31 % 2) (w / 2 ^ 21 % 2 ^ 10) (w / 2 ^ 20 % 2)
          (w / 2 ^ 12 % 2 ^ 8) (omega arith) (omega arith) (omega arith) (omega arith) (omega arith)
          (omega arith))
        (sign_extend-21 _ (omega arith)))
