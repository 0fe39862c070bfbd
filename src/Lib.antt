-- ===== src/Lib.antt =====
-- A model of the Zinc simulator, a simulator of a 64-bit RISC-V hart (RV64IMF, machine and user
-- mode) in C++, and theorems about it.
--
-- The program loads the segments of an ELF image into RAM and then repeats: fetch a word, decode it,
-- execute it, stop when the word at the image's `tohost` address is not zero. The parts call each
-- other in one direction: `main` calls the memory, the decoder and `Executor::step`; `step` calls the
-- overload of `execute` for the format, which reads the hart and the memory and returns a
-- description of the step, then carries it out on both, or lets the hart take an exception; the
-- overloads call the multiplier and the FPU.
--
--   Word                  the fixed-width integers and their bits
--   Insn                  include/decode.h, the instruction formats
--   Decode                src/decode.cpp, `Decoder::decode`
--   Memory                src/ram.cpp and include/ram.h, `Memory`
--   Csr                   include/cpu.h, constants, CSR numbers, privilege levels
--   Core                  src/cpu.cpp and include/cpu.h, `Core`, `Exception`
--   MulDiv                src/mul_div.cpp, `MulDivUnit`
--   Fpu                   src/fpu.cpp and include/fpu.h, `Fpu`: the interface that the executor takes,
--                         and in Fpu.Unit what stands behind it. Fpu.Unpack takes patterns apart,
--                         Fpu.Round rounds and packs, Fpu.Arith adds, multiplies and fuses, and
--                         Fpu.Divide, Fpu.SquareRoot, Fpu.Compare and Fpu.Convert are named for
--                         what they do
--   Execute               src/execute.cpp, one `execute_*` for each overload of `Executor::execute`;
--                         Execute.Words, Execute.System and Execute.Floating hold the 32-bit, the
--                         system and the floating-point instructions, Execute.Step `Executor::step`
--   Simulator             src/main.cpp, `main`
--   Tests                 a hart and a memory, and the theorems applied to them and to operands
--
-- A function of the source has its name here. State is passed and returned: an operation that writes
-- returns the new hart or memory in a `Result`, whose faults are a thrown `std::runtime_error` or
-- `std::logic_error`, a failed assertion, and undefined behaviour; the messages of exceptions are
-- left out. Assertions are taken to be compiled in. A `uint64_t` and an `int64_t` are numbers below
-- 2 ^ 64, the latter in two's complement, and every wrap-around is written out. A vector is a length
-- and a function; `[]` past the length is undefined. The host is little-endian. A value of an
-- enumeration without an enumerator is `reserved`.
--
-- The loop of `main` runs on fuel, one unit for each instruction, and says by `none` that the fuel ran
-- out; the program itself may run for ever. The `while` loops of the FPU have fuel 32 or 64, and end
-- as undefined behaviour when it runs out, as a loop does in C++ that never ends: each halves or
-- doubles a number of that many bits. An exponent is an integer: an `int32_t` that stays between
-- -400 and 400.
--
-- Not modelled: src/elf_loader.cpp, which only calls the ELFIO library, and whose result is an
-- argument of `main`; the formatting of the trace in src/cpu.cpp. The constructor of `Core` leaves
-- most CSRs uninitialised: what stood in their memory is an argument of `new`.
pub mod Prelude
pub mod Word
pub mod Insn
pub mod Decode
pub mod Memory
pub mod Csr
pub mod Core
pub mod MulDiv
pub mod Fpu
pub mod Execute
pub mod Simulator
pub mod Tests
