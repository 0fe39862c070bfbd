-- ===== src/Decode/Layout.antt =====
-- Every extractor of src/decode.cpp on a word that is laid out from its fields.
use zinc_simulator.Prelude.{ℕ, ◌+◌, ◌*◌, ◌/◌, ◌%◌, ◌^◌, ◌<◌, bit_and, ◌≡◌, ap, ◌∙◌, arith}
use zinc_simulator.Word.{widen}
use zinc_simulator.Word.Fields.{and_low}
use zinc_simulator.Decode.{
  get_opcode, get_u_type_imm, get_j_type_imm, get_rd, get_funct3, get_funct7, get_shamt, get_rs2,
  get_rs3, get_fmt, get_zicsr_csr, get_rs1, get_zicsr_uimm, get_i_type_imm, get_s_type_imm,
  get_b_type_imm,
}
use zinc_simulator.Decode.Extract.{
  get_opcode_lem, get_u_type_imm_lem, get_j_type_imm_lem, get_rd_lem, get_funct3_lem,
  get_funct7_lem, get_shamt_lem, get_rs2_lem, get_rs3_lem, get_fmt_lem, get_zicsr_csr_lem,
  get_rs1_lem, get_zicsr_uimm_lem, get_i_type_imm_lem, get_s_type_imm_lem, get_b_type_imm_lem,
  s_field, b_field, j_field,
}
use zinc_simulator.Decode.Encoding.{layout, layout_i, layout_s, layout_b, layout_u, layout_j}

pub record Reads (w opcode rd funct3 rs1 rs2 funct7 : ℕ) : Type 0 where
  pub opcode_eq : get_opcode w ≡ opcode
  pub rd_eq : get_rd w ≡ rd
  pub funct3_eq : get_funct3 w ≡ funct3
  pub rs1_eq : get_rs1 w ≡ rs1
  pub uimm_eq : get_zicsr_uimm w ≡ rs1
  pub rs2_eq : get_rs2 w ≡ rs2
  pub funct7_eq : get_funct7 w ≡ funct7
  pub rs3_eq : get_rs3 w ≡ funct7 / 2 ^ 2
  pub fmt_eq : get_fmt w ≡ funct7 % 2 ^ 2
  pub csr_eq : get_zicsr_csr w ≡ funct7 * 2 ^ 5 + rs2
  pub shamt_eq : get_shamt w ≡ funct7 % 2 * 2 ^ 5 + rs2
  pub amount_eq : bit_and (w / 2 ^ 20) 0x3f ≡ funct7 % 2 * 2 ^ 5 + rs2
  pub upper_eq : bit_and (w / 2 ^ 26) 0x3f ≡ funct7 / 2
  pub i_eq : get_i_type_imm w ≡ widen 12 (funct7 * 2 ^ 5 + rs2)
  pub s_eq : get_s_type_imm w ≡ widen 12 (funct7 * 2 ^ 5 + rd)
  pub b_eq :
      get_b_type_imm w
      ≡ widen 13 (funct7 / 2 ^ 6 * 2 ^ 12 + funct7 % 2 ^ 6 * 2 ^ 5 + rd / 2 * 2 + rd % 2 * 2 ^ 11)

module _ (opcode rd funct3 rs1 rs2 funct7 : ℕ) (h0 : opcode < 2 ^ 7) (h1 : rd < 2 ^ 5)
    (h2 : funct3 < 2 ^ 3) (h3 : rs1 < 2 ^ 5) (h4 : rs2 < 2 ^ 5) (h5 : funct7 < 2 ^ 7) where
  pub Reads-layout : Reads (layout opcode rd funct3 rs1 rs2 funct7) opcode rd funct3 rs1 rs2 funct7
  unfolding layout
  Reads-layout =
      let w = layout opcode rd funct3 rs1 rs2 funct7 in
      let i_bits : w / 2 ^ 20 % 2 ^ 12 ≡ funct7 * 2 ^ 5 + rs2 = omega arith in
      let s_bits : s_field w ≡ funct7 * 2 ^ 5 + rd = omega arith in
      let b_bits : b_field w
          ≡ funct7 / 2 ^ 6 * 2 ^ 12 + funct7 % 2 ^ 6 * 2 ^ 5 + rd / 2 * 2 + rd % 2 * 2 ^ 11 =
        omega arith in
      record {
        opcode_eq = omega (arith, get_opcode_lem w);
        rd_eq = omega (arith, get_rd_lem w);
        funct3_eq = omega (arith, get_funct3_lem w);
        rs1_eq = omega (arith, get_rs1_lem w);
        uimm_eq = omega (arith, get_zicsr_uimm_lem w);
        rs2_eq = omega (arith, get_rs2_lem w);
        funct7_eq = omega (arith, get_funct7_lem w);
        rs3_eq = omega (arith, get_rs3_lem w);
        fmt_eq = omega (arith, get_fmt_lem w);
        csr_eq = omega (arith, get_zicsr_csr_lem w);
        shamt_eq = omega (arith, get_shamt_lem w);
        amount_eq = omega (arith, and_low 6 (w / 2 ^ 20));
        upper_eq = omega (arith, and_low 6 (w / 2 ^ 26));
        i_eq = get_i_type_imm_lem w ∙ ap (widen 12) i_bits;
        s_eq = get_s_type_imm_lem w ∙ ap (widen 12) s_bits;
        b_eq = get_b_type_imm_lem w ∙ ap (widen 13) b_bits;
      }

module _ (opcode rd imm : ℕ) (h0 : opcode < 2 ^ 7) (h1 : rd < 2 ^ 5) where
  pub layout_u-Reads :
      let w = layout_u opcode rd imm in
      (get_opcode w ≡ opcode)
      × (get_rd w ≡ rd)
      × (get_u_type_imm w ≡ widen 32 (imm / 2 ^ 12 % 2 ^ 20 * 2 ^ 12))
  unfolding layout_u
  layout_u-Reads =
      let w = layout_u opcode rd imm in
      let bits : w / 2 ^ 12 * 2 ^ 12 ≡ imm / 2 ^ 12 % 2 ^ 20 * 2 ^ 12 = omega arith in
      (
        omega (arith, get_opcode_lem w),
        omega (arith, get_rd_lem w),
        get_u_type_imm_lem w (omega arith) ∙ ap (widen 32) bits,
      )

  pub layout_j-Reads :
      imm % 2 ≡ 0
      → let w = layout_j opcode rd imm in
        (get_opcode w ≡ opcode) × (get_rd w ≡ rd) × (get_j_type_imm w ≡ widen 21 (imm % 2 ^ 21))
  unfolding layout_j
  layout_j-Reads even =
      let w = layout_j opcode rd imm in
      let bits : j_field w ≡ imm % 2 ^ 21 = omega arith in
      (
        omega (arith, get_opcode_lem w),
        omega (arith, get_rd_lem w),
        get_j_type_imm_lem w ∙ ap (widen 21) bits,
      )

module _ (opcode rd funct3 rs1 imm : ℕ) (h0 : opcode < 2 ^ 7) (h1 : rd < 2 ^ 5)
    (h2 : funct3 < 2 ^ 3) (h3 : rs1 < 2 ^ 5) where
  pub layout_i-Reads :
      let w = layout_i opcode rd funct3 rs1 imm in
      Reads w opcode rd funct3 rs1 (imm % 2 ^ 5) (imm / 2 ^ 5 % 2 ^ 7)
      × (get_i_type_imm w ≡ widen 12 (imm % 2 ^ 12))
      × (get_zicsr_csr w ≡ imm % 2 ^ 12)
  layout_i-Reads =
      let r =
        Reads-layout opcode rd funct3 rs1 (imm % 2 ^ 5) (imm / 2 ^ 5 % 2 ^ 7) h0 h1 h2 h3
          (omega arith) (omega arith) in
      let bits : imm / 2 ^ 5 % 2 ^ 7 * 2 ^ 5 + imm % 2 ^ 5 ≡ imm % 2 ^ 12 = omega arith in
      (r, r.i_eq ∙ ap (widen 12) bits, r.csr_eq ∙ bits)

module _ (opcode funct3 rs1 rs2 imm : ℕ) (h0 : opcode < 2 ^ 7) (h2 : funct3 < 2 ^ 3)
    (h3 : rs1 < 2 ^ 5) (h4 : rs2 < 2 ^ 5) where
  pub layout_s-Reads :
      let w = layout_s opcode funct3 rs1 rs2 imm in
      Reads w opcode (imm % 2 ^ 5) funct3 rs1 rs2 (imm / 2 ^ 5 % 2 ^ 7)
      × (get_s_type_imm w ≡ widen 12 (imm % 2 ^ 12))
  layout_s-Reads =
      let r =
        Reads-layout opcode (imm % 2 ^ 5) funct3 rs1 rs2 (imm / 2 ^ 5 % 2 ^ 7) h0 (omega arith) h2
          h3 h4 (omega arith) in
      let bits : imm / 2 ^ 5 % 2 ^ 7 * 2 ^ 5 + imm % 2 ^ 5 ≡ imm % 2 ^ 12 = omega arith in
      (r, r.s_eq ∙ ap (widen 12) bits)

  pub layout_b-Reads :
      imm % 2 ≡ 0
      → let w = layout_b opcode funct3 rs1 rs2 imm in
        (get_opcode w ≡ opcode)
        × (get_funct3 w ≡ funct3)
        × (get_rs1 w ≡ rs1)
        × (get_rs2 w ≡ rs2)
        × (get_b_type_imm w ≡ widen 13 (imm % 2 ^ 13))
  layout_b-Reads even =
      let low = imm / 2 % 2 ^ 4 * 2 + imm / 2 ^ 11 % 2 in
      let high = imm / 2 ^ 12 % 2 * 2 ^ 6 + imm / 2 ^ 5 % 2 ^ 6 in
      let r = Reads-layout opcode low funct3 rs1 rs2 high h0 (omega arith) h2 h3 h4 (omega arith) in
      let bits : high / 2 ^ 6 * 2 ^ 12 + high % 2 ^ 6 * 2 ^ 5 + low / 2 * 2 + low % 2 * 2 ^ 11
          ≡ imm % 2 ^ 13 =
        omega arith in
      (r.opcode_eq, r.funct3_eq, r.rs1_eq, r.rs2_eq, r.b_eq ∙ ap (widen 13) bits)
