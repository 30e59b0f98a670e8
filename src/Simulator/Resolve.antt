-- ===== src/Simulator/Resolve.antt =====
-- `simOperandCollection` and `simNextPCResolution` of src/simulator.cpp.
pub mod Immediates
use ece375_project.Base.{ℕ, ◌-◌, ◌^◌, bit_and, bit_or, List, [], ◌∷◌, Bool, not}
use ece375_project.Base.{ltb, leb, ◌==◌, if◌then◌else◌, switch, set, get_or}
use ece375_project.Word.{add64, shl64, lt_signed}
use ece375_project.Utilities.Bits.{extract_bits, sext64}
use ece375_project.Utilities.Codes.{op_jalr, op_branch, op_jal}
use ece375_project.Utilities.Codes.{
  funct3_beq, funct3_bne, funct3_blt, funct3_bge, funct3_bltu, funct3_bgeu,
}
use ece375_project.Simulator.Instruction.{Instruction}

-- `registers[i]`: there are 32 of them, and every index is a field of five bits.
abbrev pub read_reg : List ℕ → ℕ → ℕ
read_reg registers i = get_or registers i 0

-- `regData` is passed by value: the zero written to register 0 is seen here only.
unfoldable pub sim_operand_collection : Instruction → List ℕ → Instruction
sim_operand_collection inst registers =
    let local = set registers 0 0 in
    let inst1 =
      if inst.reads_rs1 then record inst { op1_val = read_reg local inst.rs1 } else inst in
    if inst1.reads_rs2 then record inst1 { op2_val = read_reg local inst1.rs2 } else inst1

-- The B-type and J-type immediates, put together from the fields.
unfoldable pub branch_imm : Instruction → ℕ
branch_imm inst =
    let imm5 = inst.rd in
    let imm7 = inst.funct7 in
    bit_or
      (bit_or (bit_or (shl64 (extract_bits imm7 6 6) 12) (shl64 (extract_bits imm7 5 0) 5))
        (shl64 (extract_bits imm5 4 1) 1))
      (shl64 (extract_bits imm5 0 0) 11)

unfoldable pub jal_imm : Instruction → ℕ
jal_imm inst =
    let imm20 = extract_bits inst.instruction 31 12 in
    bit_or
      (bit_or (bit_or (shl64 (extract_bits imm20 19 19) 20) (shl64 (extract_bits imm20 18 9) 1))
        (shl64 (extract_bits imm20 8 8) 11))
      (shl64 (extract_bits imm20 7 0) 12)

unfoldable pub branch_target : Instruction → ℕ
branch_target inst = add64 inst.pc (sext64 (branch_imm inst) 12)

unfoldable pub jal_target : Instruction → ℕ
jal_target inst = add64 inst.pc (sext64 (jal_imm inst) 20)

-- The `if` of each case of `switch (inst.funct3)`; any other `funct3` is not taken.
unfoldable pub branch_taken : Instruction → Bool
branch_taken inst =
    switch inst.funct3
      ((funct3_beq, inst.op1_val == inst.op2_val)
        ∷ (funct3_bne, not (inst.op1_val == inst.op2_val))
        ∷ (funct3_blt, lt_signed inst.op1_val inst.op2_val)
        ∷ (funct3_bge, not (lt_signed inst.op1_val inst.op2_val))
        ∷ (funct3_bltu, ltb inst.op1_val inst.op2_val)
        ∷ (funct3_bgeu, leb inst.op2_val inst.op1_val)
        ∷ [])
      Bool.false

unfoldable pub resolved_pc : Instruction → ℕ
resolved_pc inst =
    let imm12 = extract_bits inst.instruction 31 20 in
    switch inst.opcode
      ((op_jalr, bit_and (add64 inst.op1_val (sext64 imm12 11)) (2 ^ 64 - 1 - 1))
        ∷ (op_branch, (if branch_taken inst then branch_target inst else add64 inst.pc 4))
        ∷ (op_jal, jal_target inst)
        ∷ [])
      (add64 inst.pc 4)

unfoldable pub sim_next_pc_resolution : Instruction → Instruction
sim_next_pc_resolution inst = record inst { next_pc = resolved_pc inst }
