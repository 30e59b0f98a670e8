-- ===== src/Simulator/Decode/Layout.antt =====
-- The fields of an instruction word, put together again.
use mathlib.Core.Path.{subst}
use ece375_project.Base.{ℕ, ◌+◌, ◌*◌, ◌^◌, ◌<◌, ◌≡◌, refl, sym, arith}
use ece375_project.Utilities.Extract.{extract_bits_lem, extract_bits-lt}
use ece375_project.Simulator.Instruction.{Instruction}
use ece375_project.Simulator.Decode.{decode_fields, sim_decode}
use ece375_project.Simulator.Decode.Flags.{Fields, fields, sim_decode-Agrees}

-- The word that has the given fields.
abbrev pub assemble : Fields → ℕ
assemble f =
    f.opcode
    + f.rd * 2 ^ 7
    + f.funct3 * 2 ^ 12
    + f.rs1 * 2 ^ 15
    + f.rs2 * 2 ^ 20
    + f.funct7 * 2 ^ 25

abbrev pub InBounds : Fields → Type 0
InBounds f =
    (f.opcode < 2 ^ 7)
    × (f.rd < 32)
    × (f.funct3 < 8)
    × (f.rs1 < 32)
    × (f.rs2 < 32)
    × (f.funct7 < 2 ^ 7)

decode_fields_bounds : (i : Instruction) → InBounds (fields (decode_fields i))
unfolding decode_fields
decode_fields_bounds i = (
  extract_bits-lt i.instruction 6 0,
  extract_bits-lt i.instruction 11 7,
  extract_bits-lt i.instruction 14 12,
  extract_bits-lt i.instruction 19 15,
  extract_bits-lt i.instruction 24 20,
  extract_bits-lt i.instruction 31 25,
)

assemble-decode_fields :
    (i : Instruction) → i.instruction < 2 ^ 32 → assemble (fields (decode_fields i)) ≡ i.instruction
unfolding decode_fields
assemble-decode_fields i h =
    rw
      (
        extract_bits_lem i.instruction 6 0,
        extract_bits_lem i.instruction 11 7,
        extract_bits_lem i.instruction 14 12,
        extract_bits_lem i.instruction 19 15,
        extract_bits_lem i.instruction 24 20,
        extract_bits_lem i.instruction 31 25,
      )
      (omega arith)

-- For a word of 32 bits, the fields that simDecode extracts fit their widths and put side by side
-- are the word; the word and its address stay.
pub assemble-sim_decode :
    (i : Instruction)
    → i.instruction < 2 ^ 32
    → let f = fields (sim_decode i) in
      InBounds f × (assemble f ≡ i.instruction) × (f.instruction ≡ i.instruction) × (f.pc ≡ i.pc)
assemble-sim_decode i h =
    subst
      (λ f.
        InBounds f × (assemble f ≡ i.instruction) × (f.instruction ≡ i.instruction) × (f.pc ≡ i.pc))
      (sym (sim_decode-Agrees i).same)
      (
        decode_fields_bounds i,
        assemble-decode_fields i h,
        unfold decode_fields in refl,
        unfold decode_fields in refl,
      )
