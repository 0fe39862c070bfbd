-- ===== src/Decode/RoundTrip.antt =====
-- What an assembler writes is decoded to what it was given.
mod Types
mod Control
mod Data
mod System
use zinc_simulator.Prelude.{◌≡◌, ok}
use zinc_simulator.Insn.{DecodedInsn}
use zinc_simulator.Decode.{decode}
use zinc_simulator.Decode.Encoding.{encode, IsEncodable}
use Control.{lui-RoundTrips, auipc-RoundTrips, jal-RoundTrips, jalr-RoundTrips, branch-RoundTrips}
use Data.{
  load-RoundTrips, store-RoundTrips, load_fp-RoundTrips, store_fp-RoundTrips, op-RoundTrips,
  op_32-RoundTrips, op_imm-RoundTrips, op_imm_32-RoundTrips,
}
use System.{system-RoundTrips, misc_mem-RoundTrips, op_fp-RoundTrips, fma_fp-RoundTrips}

-- Every instruction that has an encoding is what `decode` makes of the word that encodes it, for
-- all seventeen formats.
pub decode-encode : (i : DecodedInsn) → IsEncodable i → decode (encode i) ≡ ok i
decode-encode (DecodedInsn.lui i) h = lui-RoundTrips i h
decode-encode (DecodedInsn.auipc i) h = auipc-RoundTrips i h
decode-encode (DecodedInsn.jal i) h = jal-RoundTrips i h
decode-encode (DecodedInsn.jalr i) h = jalr-RoundTrips i h
decode-encode (DecodedInsn.branch i) h = branch-RoundTrips i h
decode-encode (DecodedInsn.load i) h = load-RoundTrips i h
decode-encode (DecodedInsn.store i) h = store-RoundTrips i h
decode-encode (DecodedInsn.op_imm i) h = op_imm-RoundTrips i h
decode-encode (DecodedInsn.op i) h = op-RoundTrips i h
decode-encode (DecodedInsn.misc_mem i) h = misc_mem-RoundTrips i h
decode-encode (DecodedInsn.system i) h = system-RoundTrips i h
decode-encode (DecodedInsn.op_imm_32 i) h = op_imm_32-RoundTrips i h
decode-encode (DecodedInsn.op_32 i) h = op_32-RoundTrips i h
decode-encode (DecodedInsn.load_fp i) h = load_fp-RoundTrips i h
decode-encode (DecodedInsn.store_fp i) h = store_fp-RoundTrips i h
decode-encode (DecodedInsn.op_fp i) h = op_fp-RoundTrips i h
decode-encode (DecodedInsn.fma_fp i) h = fma_fp-RoundTrips i h
decode-encode DecodedInsn.invalid h = absurd h
