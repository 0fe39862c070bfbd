-- ===== src/Decode/Bounds.antt =====
-- What `decode` may return: registers and CSR numbers that exist, immediates of 64 bits.
use zinc_simulator.Prelude.{
  ℕ, ◌%◌, ◌/◌, ◌^◌, ◌<◌, bit_and, Bool, true, false, ◌≡◌, refl, arith, ok, runtime_error,
  if◌then◌else◌, Fault, Ends, returns, throws, Ends-if, Ends-bind, ◌*◌,
}
use zinc_simulator.Word.{widen}
use zinc_simulator.Word.Fields.{and_low}
use zinc_simulator.Insn.{DecodedInsn, FmaFpType}
use zinc_simulator.Decode.{
  get_u_type_imm, get_j_type_imm, get_rd, get_shamt, get_rs1, get_rs2, get_rs3, get_i_type_imm,
  get_s_type_imm, get_b_type_imm, get_funct7, get_funct3, decode, decode_as, decode_jal,
  decode_system, decode_op_imm, decode_branch, decode_jalr, decode_auipc, decode_store, decode_load,
  decode_op_imm_32, decode_misc_mem, decode_lui, decode_op, decode_op_32, decode_load_fp,
  decode_store_fp, decode_fma_fp, decode_op_fp, op_fp_type, is_shift,
}
use zinc_simulator.Decode.Extract.{
  get_rd_lem, get_shamt_lem, get_rs1_lem, get_rs2_lem, get_rs3_lem, get_zicsr_csr_lem,
  get_zicsr_uimm_lem, get_i_type_imm_lem, get_s_type_imm_lem, get_b_type_imm_lem,
  get_j_type_imm_lem, get_u_type_imm_lem, s_field, b_field, j_field,
}

-- Every register is below 32, every CSR number below 4096, every immediate below 2 ^ 64.
abbrev pub InRange : DecodedInsn → Type 0
InRange (DecodedInsn.lui i) = (i.rd < 32) × (i.imm < 2 ^ 64)
InRange (DecodedInsn.auipc i) = (i.rd < 32) × (i.imm < 2 ^ 64)
InRange (DecodedInsn.jal i) = (i.rd < 32) × (i.imm < 2 ^ 64)
InRange (DecodedInsn.jalr i) = (i.rd < 32) × (i.rs1 < 32) × (i.imm < 2 ^ 64)
InRange (DecodedInsn.branch i) = (i.rs1 < 32) × (i.rs2 < 32) × (i.imm < 2 ^ 64)
InRange (DecodedInsn.load i) = (i.rd < 32) × (i.rs1 < 32) × (i.imm < 2 ^ 64)
InRange (DecodedInsn.store i) = (i.rs1 < 32) × (i.rs2 < 32) × (i.imm < 2 ^ 64)
InRange (DecodedInsn.op_imm i) = (i.rd < 32) × (i.rs1 < 32) × (i.imm < 2 ^ 64)
InRange (DecodedInsn.op i) = (i.rd < 32) × (i.rs1 < 32) × (i.rs2 < 32)
InRange (DecodedInsn.misc_mem i) = Unit {0}
InRange (DecodedInsn.system i) = (i.rd < 32) × (i.rs1 < 32) × (i.uimm < 32) × (i.csr < 4096)
InRange (DecodedInsn.op_imm_32 i) = (i.rd < 32) × (i.rs1 < 32) × (i.imm < 2 ^ 64)
InRange (DecodedInsn.op_32 i) = (i.rd < 32) × (i.rs1 < 32) × (i.rs2 < 32)
InRange (DecodedInsn.load_fp i) = (i.rd < 32) × (i.rs1 < 32) × (i.imm < 2 ^ 64)
InRange (DecodedInsn.store_fp i) = (i.rs1 < 32) × (i.rs2 < 32) × (i.imm < 2 ^ 64)
InRange (DecodedInsn.op_fp i) = (i.rd < 32) × (i.rs1 < 32) × (i.rs2 < 32)
InRange (DecodedInsn.fma_fp i) = (i.rd < 32) × (i.rs1 < 32) × (i.rs2 < 32) × (i.rs3 < 32)
InRange DecodedInsn.invalid = Unit {0}

rd-lt : (w : ℕ) → get_rd w < 32
rd-lt w = omega (arith, get_rd_lem w)

rs1-lt : (w : ℕ) → get_rs1 w < 32
rs1-lt w = omega (arith, get_rs1_lem w)

rs2-lt : (w : ℕ) → get_rs2 w < 32
rs2-lt w = omega (arith, get_rs2_lem w)

rs3-lt : (w : ℕ) → get_rs3 w < 32
rs3-lt w = omega (arith, get_rs3_lem w)

widen-12-lt : (v : ℕ) → v < 2 ^ 12 → widen 12 v < 2 ^ 64
widen-12-lt v h = ground arith

i_imm-lt : (w : ℕ) → get_i_type_imm w < 2 ^ 64
i_imm-lt w = rw (get_i_type_imm_lem w) (widen-12-lt (w / 2 ^ 20 % 2 ^ 12) (omega arith))

s_imm-lt : (w : ℕ) → get_s_type_imm w < 2 ^ 64
s_imm-lt w = rw (get_s_type_imm_lem w) (widen-12-lt (s_field w) (omega arith))

widen-13-lt : (v : ℕ) → v < 2 ^ 13 → widen 13 v < 2 ^ 64
widen-13-lt v h = ground arith

b_imm-lt : (w : ℕ) → get_b_type_imm w < 2 ^ 64
b_imm-lt w = rw (get_b_type_imm_lem w) (widen-13-lt (b_field w) (omega arith))

widen-21-lt : (v : ℕ) → v < 2 ^ 21 → widen 21 v < 2 ^ 64
widen-21-lt v h = ground arith

j_imm-lt : (w : ℕ) → get_j_type_imm w < 2 ^ 64
j_imm-lt w = rw (get_j_type_imm_lem w) (widen-21-lt (j_field w) (omega arith))

widen-32-lt : (v : ℕ) → v < 2 ^ 32 → widen 32 v < 2 ^ 64
widen-32-lt v h = ground arith

u_imm-lt : (w : ℕ) → w < 2 ^ 32 → get_u_type_imm w < 2 ^ 64
u_imm-lt w h = rw (get_u_type_imm_lem w h) (widen-32-lt (w / 2 ^ 12 * 2 ^ 12) (omega arith))

-- An immediate that is a shift amount for some operations.
amount-lt : (b : Bool) (w n : ℕ) → n < 64 → (if b then n else get_i_type_imm w) < 2 ^ 64
amount-lt true w n h = omega arith
amount-lt false w n h = i_imm-lt w

-- What `decode` throws is always a `std::runtime_error`.
abbrev pub IsRuntime : Fault → Type 0
IsRuntime e = e ≡ runtime_error

abbrev Any : {A : Type 0} → A → Type 0
Any a = Unit {0}

anything : {A : Type 0} (a : A) → Any a
anything a = tt

is_runtime : IsRuntime runtime_error
is_runtime = refl

ruleset ladder = (Ends-if, returns, throws, is_runtime)

op_fp_type-Ends : (f7 f3 r2 : ℕ) → Ends Any IsRuntime (op_fp_type f7 f3 r2)
unfolding op_fp_type
op_fp_type-Ends f7 f3 r2 = search ladder depth 40

-- An immediate that is a shift amount for some operations.
module _ (w : ℕ) where
  op_imm-InRange : InRange (decode_op_imm w)
  unfolding decode_op_imm
  op_imm-InRange = (
    rd-lt w,
    rs1-lt w,
    amount-lt (is_shift (get_funct3 w)) w (bit_and (w / 2 ^ 20) 0x3f)
        (omega (arith, and_low 6 (w / 2 ^ 20))),
  )

  op_imm_32-InRange : InRange (decode_op_imm_32 w)
  unfolding decode_op_imm_32
  op_imm_32-InRange = (
    rd-lt w,
    rs1-lt w,
    amount-lt (is_shift (get_funct3 w)) w (get_shamt w) (omega (arith, get_shamt_lem w)),
  )

  system-InRange : InRange (decode_system w)
  unfolding decode_system
  system-InRange =
      (rd-lt w, rs1-lt w, omega (arith, get_zicsr_uimm_lem w), omega (arith, get_zicsr_csr_lem w))

  op_fp-Ends : Ends InRange IsRuntime (decode_op_fp w)
  unfolding decode_op_fp
  op_fp-Ends =
      Ends-bind (op_fp_type-Ends (get_funct7 w) (get_funct3 w) (get_rs2 w))
        (λ t _. returns (rd-lt w, rs1-lt w, rs2-lt w))

  fma_fp-Ends : (t : FmaFpType) → Ends InRange IsRuntime (decode_fma_fp t w)
  unfolding decode_fma_fp
  fma_fp-Ends t = Ends-if _ (throws refl) (returns (rd-lt w, rs1-lt w, rs2-lt w, rs3-lt w))

  jal-Ends : Ends InRange IsRuntime (ok (decode_jal w))
  unfolding decode_jal
  jal-Ends = returns {a = decode_jal w} (rd-lt w, j_imm-lt w)

  branch-Ends : Ends InRange IsRuntime (ok (decode_branch w))
  unfolding decode_branch
  branch-Ends = returns {a = decode_branch w} (rs1-lt w, rs2-lt w, b_imm-lt w)

  jalr-Ends : Ends InRange IsRuntime (ok (decode_jalr w))
  unfolding decode_jalr
  jalr-Ends = returns {a = decode_jalr w} (rd-lt w, rs1-lt w, i_imm-lt w)

  store-Ends : Ends InRange IsRuntime (ok (decode_store w))
  unfolding decode_store
  store-Ends = returns {a = decode_store w} (rs1-lt w, rs2-lt w, s_imm-lt w)

  load-Ends : Ends InRange IsRuntime (ok (decode_load w))
  unfolding decode_load
  load-Ends = returns {a = decode_load w} (rd-lt w, rs1-lt w, i_imm-lt w)

  misc_mem-Ends : Ends InRange IsRuntime (ok (decode_misc_mem w))
  unfolding decode_misc_mem
  misc_mem-Ends = returns {a = decode_misc_mem w} tt

  op-Ends : Ends InRange IsRuntime (ok (decode_op w))
  unfolding decode_op
  op-Ends = returns {a = decode_op w} (rd-lt w, rs1-lt w, rs2-lt w)

  op_32-Ends : Ends InRange IsRuntime (ok (decode_op_32 w))
  unfolding decode_op_32
  op_32-Ends = returns {a = decode_op_32 w} (rd-lt w, rs1-lt w, rs2-lt w)

  load_fp-Ends : Ends InRange IsRuntime (ok (decode_load_fp w))
  unfolding decode_load_fp
  load_fp-Ends = returns {a = decode_load_fp w} (rd-lt w, rs1-lt w, i_imm-lt w)

  store_fp-Ends : Ends InRange IsRuntime (ok (decode_store_fp w))
  unfolding decode_store_fp
  store_fp-Ends = returns {a = decode_store_fp w} (rs1-lt w, rs2-lt w, s_imm-lt w)

  op_imm-Ends : Ends InRange IsRuntime (ok (decode_op_imm w))
  op_imm-Ends = returns op_imm-InRange

  op_imm_32-Ends : Ends InRange IsRuntime (ok (decode_op_imm_32 w))
  op_imm_32-Ends = returns op_imm_32-InRange

  system-Ends : Ends InRange IsRuntime (ok (decode_system w))
  system-Ends = returns system-InRange

  lui-Ends : w < 2 ^ 32 → Ends InRange IsRuntime (ok (decode_lui w))
  unfolding decode_lui
  lui-Ends h = returns {a = decode_lui w} (rd-lt w, u_imm-lt w h)

  auipc-Ends : w < 2 ^ 32 → Ends InRange IsRuntime (ok (decode_auipc w))
  unfolding decode_auipc
  auipc-Ends h = returns {a = decode_auipc w} (rd-lt w, u_imm-lt w h)

  invalid-Ends : Ends InRange IsRuntime (ok DecodedInsn.invalid)
  invalid-Ends = returns {a = DecodedInsn.invalid} tt

ruleset formats = (
  Ends-if, jal-Ends, branch-Ends, jalr-Ends, store-Ends, load-Ends, misc_mem-Ends, op-Ends,
  op_32-Ends, load_fp-Ends, store_fp-Ends, op_imm-Ends, op_imm_32-Ends, system-Ends, fma_fp-Ends,
  op_fp-Ends, invalid-Ends,
)

-- On every 32-bit word `decode` returns an instruction whose registers, CSR number and immediate
-- are in range, or throws a `std::runtime_error`: it never throws `std::logic_error`.
pub decode-Ends : (w : ℕ) → w < 2 ^ 32 → Ends InRange IsRuntime (decode w)
unfolding decode decode_as
decode-Ends w h = search (formats, lui-Ends w h, auipc-Ends w h) depth 40
