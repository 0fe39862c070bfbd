-- ===== src/Tests/Accesses.antt =====
-- The theorems on memory, traps and limits, applied to the hart and the memory of the tests.
use zinc_simulator.Prelude.{
  Ends, Fault, ◌≤◌, ◌+◌, ℕ, ◌/◌, ◌%◌, ◌^◌, ◌<◌, ◌≡◌, ◌≢◌, refl, arith, true, if◌then◌else◌, ◌!=◌,
  ok, err, undefined_behaviour, assert_failed, [], ◌∷◌, none, bit_and, inr, ◌↔◌,
}
use zinc_simulator.Word.{not32, ◌<<<◌, ◌>>>◌, u32, sra32}
use zinc_simulator.Insn.{
  MemAccessType, OpType, SystemInsnType, DecodedInsn, LoadInsn, StoreInsn, SystemInsn, LoadFpInsn,
}
use zinc_simulator.Memory.{Memory, offset_of, load, clear, set_8, set_element, store_at, copy_to}
use zinc_simulator.Memory.Access.{Width, size, get, set, IsValid, IsMapped}
use zinc_simulator.Memory.Frame.{get-set, get-set_apart, get_outcomes}
use zinc_simulator.Memory.Image.{IsLoaded, IsCleared, load-IsLoaded, clear-IsCleared}
use zinc_simulator.Csr.{csr_of}
use zinc_simulator.Core.Trap.{trapped}
use zinc_simulator.Execute.{load_data, store_data}
use zinc_simulator.Execute.Words.{op_32_value}
use zinc_simulator.Execute.System.{system_step, csr_step}
use zinc_simulator.Execute.Floating.{execute_load_fp}
use zinc_simulator.Execute.Limits.{op_32_value-shift, csrrci_lem, execute_load_fp-misaligned}
use zinc_simulator.Execute.Step.{step, apply_mem_write}
use zinc_simulator.Execute.Step.Traps.{step_misaligned}
use zinc_simulator.Execute.Step.LoadStore.{load-store, loaded, store_insn}
use zinc_simulator.Fpu.Unit.{unit}
use zinc_simulator.Tests.{hart, hart-IsWellFormed, hart-IsSound, ram}

-- The memory after a byte is written at its base.
abbrev ram_1 : Memory
ram_1 = record { base = 0x80000000; bytes = record { size = 64; at = store_at (λ i. 1) 0 1 0x80 } }

wrote : set Width.byte ram 0x80000000 0x180 ≡ ok ram_1
unfolding set_8 set_element offset_of store_at
wrote = refl

get-set_example : get Width.byte ram_1 0x80000000 ≡ ok (0x180 % 256 ^ 1)
get-set_example = get-set Width.byte ram 0x80000000 0x180 wrote

get-set_apart_example : get Width.double ram_1 0x80000008 ≡ get Width.double ram 0x80000008
unfolding offset_of
get-set_apart_example =
    get-set_apart Width.byte Width.double ram 0x80000000 0x80000008 0x180 wrote (inr (omega arith))

get_outcomes_example :
    (((r : ℕ) × (get Width.word ram 0x80000000 ≡ ok r)) ↔ IsValid Width.word ram 0x80000000)
    × ((get Width.word ram 0x80000000 ≡ err assert_failed) ↔ (0x80000000 % size Width.word ≢ 0))
    × ((get Width.word ram 0x80000000 ≡ err undefined_behaviour)
        ↔ ((0x80000000 % size Width.word ≡ 0) × ¬ IsMapped 4 ram (offset_of ram 0x80000000)))
get_outcomes_example = get_outcomes Width.word ram 0x80000000

abbrev loaded_ram : Memory
loaded_ram = record {
  base = 0x80000000;
  bytes = record { size = 64; at = copy_to (λ i. 1) 4 (5 ∷ 6 ∷ []) };
}

loading : load ram 0x80000004 (5 ∷ 6 ∷ []) ≡ ok loaded_ram
unfolding load offset_of copy_to
loading = refl

load-IsLoaded_example : IsLoaded ram loaded_ram (offset_of ram 0x80000004) (5 ∷ 6 ∷ [])
load-IsLoaded_example = load-IsLoaded ram 0x80000004 (5 ∷ 6 ∷ []) loading

clear-IsCleared_example :
    let offset = offset_of ram 0x80000004 in
    Ends
      (λ (m' : Memory). (offset + 8 ≤ ram.bytes.size) × IsCleared ram m' offset 8)
      (λ (f : Fault). (f ≡ undefined_behaviour) × (ram.bytes.size < offset + 8))
      (clear ram 0x80000004 8)
clear-IsCleared_example = clear-IsCleared ram 0x80000004 8

stored_byte : store_insn MemAccessType.b ram 0x80000000 0x180 ≡ ok ram_1
unfolding store_data apply_mem_write set_8 set_element offset_of store_at
stored_byte = refl

load-store_example :
    (load_data ram_1 0x80000000 MemAccessType.b ≡ ok (loaded MemAccessType.b 0x180, 1))
    × (load_data ram_1 0x80000000 MemAccessType.bu ≡ ok (0x180 % 256 ^ 1, 1))
load-store_example = load-store MemAccessType.b ram ram_1 0x80000000 0x180 stored_byte

abbrev lw : LoadInsn
lw = record { type = MemAccessType.w; imm = 2; rs1 = 1; rd = 3 }

abbrev sw : StoreInsn
sw = record { type = MemAccessType.w; imm = 1; rs1 = 1; rs2 = 2 }

step_misaligned_example :
    (step unit hart ram (DecodedInsn.load lw)
      ≡ ok (none, trapped hart (record { mcause = 4; mtval = 0x8000000a }), ram))
    × (step unit hart ram (DecodedInsn.store sw)
        ≡ ok (none, trapped hart (record { mcause = 6; mtval = 0x80000009 }), ram))
step_misaligned_example =
    step_misaligned unit hart ram hart-IsSound lw sw (omega arith) (omega arith) (omega arith)
      (omega arith) (omega arith)

abbrev csr_insn : SystemInsn
csr_insn = record { type = SystemInsnType.csrrw; csr = 0x7c0; rs1 = 1; uimm = 1; rd = 2 }

abbrev ecall_insn : SystemInsn
ecall_insn = record { type = SystemInsnType.ecall; csr = 0; rs1 = 0; uimm = 0; rd = 0 }

op_32_value-shift_example :
    let k = 33 % 2 ^ 5 in
    (op_32_value OpType.sll 1 33
      ≡ (if 33 / 2 ^ 5 % 2 != 0 then err undefined_behaviour else ok (u32 (1 <<< k))))
    × (op_32_value OpType.srl 1 33
        ≡ (if 33 / 2 ^ 5 % 2 != 0 then err undefined_behaviour else ok (1 >>> k)))
    × (op_32_value OpType.sra 1 33
        ≡ (if 33 / 2 ^ 5 % 2 != 0 then err undefined_behaviour else ok (sra32 1 k)))
op_32_value-shift_example = op_32_value-shift 1 33

abbrev csrrci_insn : SystemInsn
csrrci_insn = record { type = SystemInsnType.csrrci; csr = 0x300; rs1 = 1; uimm = 1; rd = 2 }

csrrci_lem_example :
    let old = hart.csrs.at 0x300 in
    (new : ℕ) × (system_step SystemInsnType.csrrci hart csrrci_insn
      ≡ ok (csr_step csrrci_insn old true new))
    × (new < 2 ^ 32)
    × (new ≡ bit_and (old % 2 ^ 32) (not32 1))
unfolding csr_of
csrrci_lem_example = csrrci_lem hart csrrci_insn hart-IsWellFormed (omega arith) (omega arith)

abbrev flw : LoadFpInsn
flw = record { imm = 2; rs1 = 1; rd = 3 }

execute_load_fp-misaligned_example : execute_load_fp hart ram flw ≡ err assert_failed
execute_load_fp-misaligned_example =
    execute_load_fp-misaligned hart ram flw hart-IsWellFormed (omega arith) (omega arith)
