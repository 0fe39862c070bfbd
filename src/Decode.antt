-- ===== src/Decode.antt =====
-- src/decode.cpp: a 32-bit instruction word is taken apart into a `DecodedInsn`.
pub mod Extract
pub mod Encoding
pub mod Layout
pub mod RoundTrip
pub mod Bounds
use zinc_simulator.Prelude.{
  ℕ, ◌-◌, bit_and, bit_or, Bool, ◌||◌, if◌then◌else◌, ◌==◌, ◌!=◌, Result, ok, err, runtime_error,
  ◌>>=◌,
}
use zinc_simulator.Word.{u32, u64, ◌<<<◌, ◌>>>◌, widen, sra64}
use zinc_simulator.Insn.{
  OpFpType, FmaFpType, DecodedInsn, branch_type, mem_access_type, op_type, system_insn_type,
  misc_mem_insn_type, rounding_mode,
}

pub get_opcode : ℕ → ℕ
get_opcode insn = bit_and insn 0b1111111

pub get_u_type_imm : ℕ → ℕ
get_u_type_imm insn = widen 32 (bit_and insn 0xfffff000)

pub sign_extend : ℕ → ℕ → ℕ
sign_extend value n_bits = let n_shift = 64 - n_bits in sra64 (u64 (value <<< n_shift)) n_shift

pub get_j_type_imm : ℕ → ℕ
get_j_type_imm insn =
    let u_imm =
      bit_or
        (bit_or (bit_or (bit_and (insn >>> 31) 0x1 <<< 20) (bit_and (insn >>> 21) 0x3ff <<< 1))
          (bit_and (insn >>> 20) 0x1 <<< 11))
        (bit_and (insn >>> 12) 0xff <<< 12) in
    sign_extend u_imm 21

pub get_rd : ℕ → ℕ
get_rd insn = bit_and 0x1f (insn >>> 7)

pub get_funct3 : ℕ → ℕ
get_funct3 insn = bit_and 0x7 (insn >>> 12)

pub get_funct7 : ℕ → ℕ
get_funct7 insn = bit_and 0x7f (insn >>> 25)

pub get_shamt : ℕ → ℕ
get_shamt insn = bit_and 0x3f (insn >>> 20)

pub get_rs2 : ℕ → ℕ
get_rs2 insn = bit_and 0x1f (insn >>> 20)

pub get_rs3 : ℕ → ℕ
get_rs3 insn = bit_and 0x1f (insn >>> 27)

pub get_fmt : ℕ → ℕ
get_fmt insn = bit_and 0x3 (insn >>> 25)

pub get_zicsr_csr : ℕ → ℕ
get_zicsr_csr insn = bit_and 0xfff (insn >>> 20)

pub get_rs1 : ℕ → ℕ
get_rs1 insn = bit_and 0x1f (insn >>> 15)

pub get_zicsr_uimm : ℕ → ℕ
get_zicsr_uimm insn = bit_and 0x1f (insn >>> 15)

pub get_i_type_imm : ℕ → ℕ
get_i_type_imm insn = sign_extend (bit_and 0xfff (insn >>> 20)) 12

pub get_s_type_imm : ℕ → ℕ
get_s_type_imm insn =
    let u_imm = bit_or (bit_and (insn >>> 25) 0x7f <<< 5) (bit_and (insn >>> 7) 0x1f) in
    sign_extend u_imm 12

pub get_b_type_imm : ℕ → ℕ
get_b_type_imm insn =
    let u_imm =
      bit_or
        (bit_or (bit_or (bit_and (insn >>> 31) 0x1 <<< 12) (bit_and (insn >>> 25) 0x3f <<< 5))
          (bit_and (insn >>> 8) 0xf <<< 1))
        (bit_and (insn >>> 7) 0x1 <<< 11) in
    sign_extend u_imm 13

pub decode_jal : ℕ → DecodedInsn
decode_jal insn = DecodedInsn.jal (record { imm = get_j_type_imm insn; rd = get_rd insn })

-- `if (!funct3)`: without a CSR operation the twelve upper bits tell the instruction.
pub decode_system : ℕ → DecodedInsn
decode_system insn =
    let funct3 = get_funct3 insn in
    DecodedInsn.system (record {
      type =
          if funct3 == 0
          then system_insn_type (u32 (bit_or (u64 (get_i_type_imm insn <<< 3)) funct3))
          else system_insn_type funct3;
      csr = get_zicsr_csr insn;
      rs1 = get_rs1 insn;
      uimm = get_zicsr_uimm insn;
      rd = get_rd insn;
    })

pub is_shift : ℕ → Bool
is_shift funct3 = funct3 == 0b101 || funct3 == 0b001

pub decode_op_imm : ℕ → DecodedInsn
decode_op_imm insn =
    let funct3 = get_funct3 insn in
    DecodedInsn.op_imm (record {
      type =
          if is_shift funct3
          then op_type (bit_or (bit_and (insn >>> 26) 0x3f <<< 4) funct3)
          else op_type funct3;
      imm = if is_shift funct3 then bit_and (insn >>> 20) 0x3f else get_i_type_imm insn;
      rs1 = get_rs1 insn;
      rd = get_rd insn;
    })

pub decode_branch : ℕ → DecodedInsn
decode_branch insn = DecodedInsn.branch (record {
  type = branch_type (get_funct3 insn);
  imm = get_b_type_imm insn;
  rs1 = get_rs1 insn;
  rs2 = get_rs2 insn;
})

pub decode_jalr : ℕ → DecodedInsn
decode_jalr insn =
    DecodedInsn.jalr (record { imm = get_i_type_imm insn; rs1 = get_rs1 insn; rd = get_rd insn })

pub decode_auipc : ℕ → DecodedInsn
decode_auipc insn = DecodedInsn.auipc (record { imm = get_u_type_imm insn; rd = get_rd insn })

pub decode_store : ℕ → DecodedInsn
decode_store insn = DecodedInsn.store (record {
  type = mem_access_type (get_funct3 insn);
  imm = get_s_type_imm insn;
  rs1 = get_rs1 insn;
  rs2 = get_rs2 insn;
})

pub decode_load : ℕ → DecodedInsn
decode_load insn = DecodedInsn.load (record {
  type = mem_access_type (get_funct3 insn);
  imm = get_i_type_imm insn;
  rs1 = get_rs1 insn;
  rd = get_rd insn;
})

pub decode_op_imm_32 : ℕ → DecodedInsn
decode_op_imm_32 insn =
    let funct3 = get_funct3 insn in
    DecodedInsn.op_imm_32 (record {
      type =
          if is_shift funct3
          then op_type (bit_or (get_funct7 insn <<< 3) funct3)
          else op_type funct3;
      imm = if is_shift funct3 then get_shamt insn else get_i_type_imm insn;
      rs1 = get_rs1 insn;
      rd = get_rd insn;
    })

pub decode_misc_mem : ℕ → DecodedInsn
decode_misc_mem insn = DecodedInsn.misc_mem (record { type = misc_mem_insn_type (get_funct3 insn) })

pub decode_lui : ℕ → DecodedInsn
decode_lui insn = DecodedInsn.lui (record { imm = get_u_type_imm insn; rd = get_rd insn })

pub decode_op : ℕ → DecodedInsn
decode_op insn = DecodedInsn.op (record {
  type = op_type (bit_or (get_funct7 insn <<< 3) (get_funct3 insn));
  rs1 = get_rs1 insn;
  rs2 = get_rs2 insn;
  rd = get_rd insn;
})

pub decode_op_32 : ℕ → DecodedInsn
decode_op_32 insn = DecodedInsn.op_32 (record {
  type = op_type (bit_or (get_funct7 insn <<< 3) (get_funct3 insn));
  rs1 = get_rs1 insn;
  rs2 = get_rs2 insn;
  rd = get_rd insn;
})

pub decode_load_fp : ℕ → DecodedInsn
decode_load_fp insn =
    DecodedInsn.load_fp (record { imm = get_i_type_imm insn; rs1 = get_rs1 insn; rd = get_rd insn })

pub decode_store_fp : ℕ → DecodedInsn
decode_store_fp insn =
    DecodedInsn.store_fp
      (record { imm = get_s_type_imm insn; rs1 = get_rs1 insn; rs2 = get_rs2 insn })

-- The four opcodes share a case; the inner switch tells them apart, and its default is not reached.
pub decode_fma_fp : FmaFpType → ℕ → Result DecodedInsn
decode_fma_fp type insn =
    if get_fmt insn != 0b00
    then err runtime_error
    else ok (
        DecodedInsn.fma_fp (record {
          type = type;
          rm = rounding_mode (get_funct3 insn);
          rs1 = get_rs1 insn;
          rs2 = get_rs2 insn;
          rs3 = get_rs3 insn;
          rd = get_rd insn;
        }))

-- The inner switches of OPCODE_OP_FP, on funct7, then on funct3 or rs2.
pub op_fp_type : ℕ → ℕ → ℕ → Result OpFpType
op_fp_type funct7 funct3 rs2 =
    if funct7 == 0b0000000
    then ok OpFpType.add
    else if funct7 == 0b0000100
    then ok OpFpType.sub
    else if funct7 == 0b0001000
    then ok OpFpType.mul
    else if funct7 == 0b0001100
    then ok OpFpType.div
    else if funct7 == 0b0010100
    then (if funct3 == 0b000
        then ok OpFpType.min
        else if funct3 == 0b001
        then ok OpFpType.max
        else err runtime_error)
    else if funct7 == 0b0101100
    then (if rs2 != 0 then err runtime_error else ok OpFpType.sqrt)
    else if funct7 == 0b0010000
    then (if funct3 == 0b000
        then ok OpFpType.sgnj
        else if funct3 == 0b001
        then ok OpFpType.sgnjn
        else if funct3 == 0b010
        then ok OpFpType.sgnjx
        else err runtime_error)
    else if funct7 == 0b1110000
    then (if rs2 != 0
        then err runtime_error
        else if funct3 == 0b000
        then ok OpFpType.move_to_x
        else if funct3 == 0b001
        then ok OpFpType.classify
        else err runtime_error)
    else if funct7 == 0b1111000
    then (if funct3 != 0b000 || rs2 != 0 then err runtime_error else ok OpFpType.move_from_x)
    else if funct7 == 0b1010000
    then (if funct3 == 0b010
        then ok OpFpType.eq
        else if funct3 == 0b001
        then ok OpFpType.lt
        else if funct3 == 0b000
        then ok OpFpType.le
        else err runtime_error)
    else if funct7 == 0b1100000
    then (if rs2 == 0b00000
        then ok OpFpType.cvt_w_from_s
        else if rs2 == 0b00001
        then ok OpFpType.cvt_wu_from_s
        else if rs2 == 0b00010
        then ok OpFpType.cvt_l_from_s
        else if rs2 == 0b00011
        then ok OpFpType.cvt_lu_from_s
        else err runtime_error)
    else if funct7 == 0b1101000
    then (if rs2 == 0b00000
        then ok OpFpType.cvt_s_to_w
        else if rs2 == 0b00001
        then ok OpFpType.cvt_s_to_wu
        else if rs2 == 0b00010
        then ok OpFpType.cvt_s_to_l
        else if rs2 == 0b00011
        then ok OpFpType.cvt_s_to_lu
        else err runtime_error)
    else err runtime_error

pub decode_op_fp : ℕ → Result DecodedInsn
decode_op_fp insn = do
  type ← op_fp_type (get_funct7 insn) (get_funct3 insn) (get_rs2 insn)
  ok (
      DecodedInsn.op_fp (record {
        type = type;
        rm = rounding_mode (get_funct3 insn);
        rs1 = get_rs1 insn;
        rs2 = get_rs2 insn;
        rd = get_rd insn;
      }))

-- The switch on the opcode; any other opcode leaves `InvalidInsn`.
pub decode_as : ℕ → ℕ → Result DecodedInsn
decode_as opcode insn =
    if opcode == 0b1101111
    then ok (decode_jal insn)
    else if opcode == 0b1110011
    then ok (decode_system insn)
    else if opcode == 0b0010011
    then ok (decode_op_imm insn)
    else if opcode == 0b1100011
    then ok (decode_branch insn)
    else if opcode == 0b1100111
    then ok (decode_jalr insn)
    else if opcode == 0b0010111
    then ok (decode_auipc insn)
    else if opcode == 0b0100011
    then ok (decode_store insn)
    else if opcode == 0b0000011
    then ok (decode_load insn)
    else if opcode == 0b0011011
    then ok (decode_op_imm_32 insn)
    else if opcode == 0b0001111
    then ok (decode_misc_mem insn)
    else if opcode == 0b0110111
    then ok (decode_lui insn)
    else if opcode == 0b0110011
    then ok (decode_op insn)
    else if opcode == 0b0111011
    then ok (decode_op_32 insn)
    else if opcode == 0b0000111
    then ok (decode_load_fp insn)
    else if opcode == 0b0100111
    then ok (decode_store_fp insn)
    else if opcode == 0b1000011
    then decode_fma_fp FmaFpType.madd insn
    else if opcode == 0b1000111
    then decode_fma_fp FmaFpType.msub insn
    else if opcode == 0b1001011
    then decode_fma_fp FmaFpType.nmsub insn
    else if opcode == 0b1001111
    then decode_fma_fp FmaFpType.nmadd insn
    else if opcode == 0b1010011
    then decode_op_fp insn
    else ok DecodedInsn.invalid

pub decode : ℕ → Result DecodedInsn
decode insn = decode_as (get_opcode insn) insn
