-- ===== src/Utilities/Print.antt =====
-- The disassembly of src/Utilities.cpp. A stream is the list of the operands of its `<<`.
use Prim.Native.String.{String}
use text.Mathlib.Text.{◌==◌ as ◌same◌}
use ece375_project.Base.{
  ℕ, List, [], ◌∷◌, ◌++◌, ◌||◌, ◌==◌, if◌then◌else◌, switch, get_or, bit_and, bit_or, ℤ,
}
use ece375_project.Word.{shl64, signed64}
use ece375_project.Utilities.Bits.{extract_bits, sext64}
use ece375_project.Utilities.Codes.{
  StageStatus, op_int, op_intw, op_load, op_intimm, op_intimmw, op_jalr, op_store, op_branch,
  op_auipc, op_lui, op_jal, funct3_sll, funct3_sr,
}
use ece375_project.Utilities.Names.{get_op_string}

-- A text, an `int64_t`, a `uint64_t`, and a `uint64_t` behind `std::hex`.
pub data Operand : Type 0 where
  word : String → Operand
  signed : ℤ → Operand
  unsigned : ℕ → Operand
  hexadecimal : ℕ → Operand

-- `regNames`; every index is a field of five bits.
abbrev pub reg_names : List String
reg_names =
    "zero" ∷ "ra" ∷ "sp" ∷ "gp" ∷ "tp" ∷ "t0" ∷ "t1" ∷ "t2" ∷ "s0" ∷ "s1" ∷ "a0" ∷ "a1" ∷ "a2"
    ∷ "a3" ∷ "a4" ∷ "a5" ∷ "a6" ∷ "a7" ∷ "s2" ∷ "s3" ∷ "s4" ∷ "s5" ∷ "s6" ∷ "s7" ∷ "s8" ∷ "s9"
    ∷ "s10" ∷ "s11" ∷ "t3" ∷ "t4" ∷ "t5" ∷ "t6" ∷ []

abbrev pub reg : ℕ → Operand
reg i = Operand.word (get_or reg_names i "")

-- `stageStatusStr`.
unfoldable pub status_text : StageStatus → Operand
status_text StageStatus.bubble = Operand.word " (bubble) "
status_text StageStatus.idle = Operand.word " (idle) "
status_text StageStatus.normal = Operand.word " "
status_text StageStatus.speculative = Operand.word " (spcu) "
status_text StageStatus.squashed = Operand.word " (squashed) "

-- `if (opcodeStr == "ILLEGAL")` of the four handlers.
unfoldable pub unless_illegal : String → List Operand → List Operand
unless_illegal name rest =
    if name same "ILLEGAL"
    then Operand.word " ILLEGAL" ∷ []
    else Operand.word " " ∷ Operand.word name ∷ Operand.word " " ∷ rest

unfoldable pub handle_i_and_r : ℕ → List Operand
handle_i_and_r cur_inst =
    let opcode = extract_bits cur_inst 6 0 in
    let rd = extract_bits cur_inst 11 7 in
    let funct3 = extract_bits cur_inst 14 12 in
    let rs1 = extract_bits cur_inst 19 15 in
    let rs2 = extract_bits cur_inst 24 20 in
    let funct7 = extract_bits cur_inst 31 25 in
    let imm12 = extract_bits cur_inst 31 20 in
    unless_illegal (get_op_string opcode funct3 funct7) (
      reg rd
      ∷ Operand.word ", "
      ∷ reg rs1
      ∷ Operand.word ", "
      ∷ (if opcode == op_int || opcode == op_intw
          then reg rs2
          else if funct3 == funct3_sll || funct3 == funct3_sr
          then Operand.unsigned (bit_and imm12 0x3F)
          else Operand.signed (signed64 (sext64 imm12 11)))
      ∷ [])

unfoldable pub handle_l_and_s : ℕ → List Operand
handle_l_and_s cur_inst =
    let opcode = extract_bits cur_inst 6 0 in
    let rd = extract_bits cur_inst 11 7 in
    let funct3 = extract_bits cur_inst 14 12 in
    let rs1 = extract_bits cur_inst 19 15 in
    let rs2 = extract_bits cur_inst 24 20 in
    let imm5 = extract_bits cur_inst 11 7 in
    let imm7 = extract_bits cur_inst 31 25 in
    let imm12 = extract_bits cur_inst 31 20 in
    let store_imm = sext64 (bit_or (shl64 imm7 5) imm5) 11 in
    unless_illegal (get_op_string opcode funct3 0) (
      (if opcode == op_load then reg rd else reg rs2)
      ∷ Operand.word ", "
      ∷ Operand.signed (signed64 (if opcode == op_load then sext64 imm12 11 else store_imm))
      ∷ Operand.word "("
      ∷ reg rs1
      ∷ Operand.word ")"
      ∷ [])

unfoldable pub handle_branch : ℕ → List Operand
handle_branch cur_inst =
    let opcode = extract_bits cur_inst 6 0 in
    let rs1 = extract_bits cur_inst 19 15 in
    let rs2 = extract_bits cur_inst 24 20 in
    let funct3 = extract_bits cur_inst 14 12 in
    let imm7 = extract_bits cur_inst 31 25 in
    let imm5 = extract_bits cur_inst 11 7 in
    let branch_imm =
      sext64
        (bit_or
          (bit_or (bit_or (shl64 (extract_bits imm7 6 6) 12) (shl64 (extract_bits imm7 5 0) 5))
            (shl64 (extract_bits imm5 4 1) 1))
          (shl64 (extract_bits imm5 0 0) 11))
        12 in
    unless_illegal (get_op_string opcode funct3 0) (
      reg rs1
      ∷ Operand.word ", "
      ∷ reg rs2
      ∷ Operand.word ", "
      ∷ Operand.signed (signed64 branch_imm)
      ∷ [])

unfoldable pub handle_special : ℕ → List Operand
handle_special cur_inst =
    let opcode = extract_bits cur_inst 6 0 in
    let rd = extract_bits cur_inst 11 7 in
    let imm20 = extract_bits cur_inst 31 12 in
    let sext_upper = sext64 (shl64 imm20 12) 19 in
    let jal_imm =
      sext64
        (bit_or
          (bit_or (bit_or (shl64 (extract_bits imm20 19 19) 20) (shl64 (extract_bits imm20 18 9) 1))
            (shl64 (extract_bits imm20 8 8) 11))
          (shl64 (extract_bits imm20 7 0) 12))
        20 in
    unless_illegal (get_op_string opcode 0 0) (
      reg rd
      ∷ Operand.word ", "
      ∷ Operand.signed (signed64 (if opcode == op_jal then jal_imm else sext_upper))
      ∷ [])

-- The cases of `switch (opcode)` in `printInstr`.
abbrev pub handlers : ℕ → List (ℕ × List Operand)
handlers cur_inst =
    (op_int, handle_i_and_r cur_inst)
    ∷ (op_intw, handle_i_and_r cur_inst)
    ∷ (op_intimm, handle_i_and_r cur_inst)
    ∷ (op_intimmw, handle_i_and_r cur_inst)
    ∷ (op_jalr, handle_i_and_r cur_inst)
    ∷ (op_load, handle_l_and_s cur_inst)
    ∷ (op_store, handle_l_and_s cur_inst)
    ∷ (op_branch, handle_branch cur_inst)
    ∷ (op_jal, handle_special cur_inst)
    ∷ (op_lui, handle_special cur_inst)
    ∷ (op_auipc, handle_special cur_inst)
    ∷ []

unfoldable pub handled : ℕ → List Operand
handled cur_inst =
    switch (extract_bits cur_inst 6 0) (handlers cur_inst) (Operand.word " ILLEGAL" ∷ [])

-- What `sb` holds when `printInstr` writes it out, padded to 25 columns.
unfoldable pub print_instr : ℕ → StageStatus → List Operand
print_instr cur_inst status =
    if cur_inst == 0xfeedfeed
    then Operand.word " HALT" ∷ status_text status ∷ []
    else if cur_inst == 0x00000013
    then Operand.word " NOP" ∷ status_text status ∷ []
    else handled cur_inst ++ (status_text status ∷ [])

-- The same for `printIFPC`.
unfoldable pub print_if_pc : ℕ → StageStatus → List Operand
print_if_pc pc status =
    Operand.word " Inst at 0x" ∷ Operand.hexadecimal pc ∷ status_text status ∷ []
