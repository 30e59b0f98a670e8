-- ===== src/Simulator/Arith.antt =====
-- `simArithLogic` of src/simulator.cpp.
pub mod Bounds
pub mod Meaning
pub mod Integers
use ece375_project.Base.{ℕ, bit_and, bit_or, bit_xor, List, [], ◌∷◌, ◌&&◌, ◌||◌}
use ece375_project.Base.{ltb, ◌==◌, if◌then◌else◌, switch}
use ece375_project.Word.{
  u32, add64, sub64, add32, sub32, shl64, shl32, shr, sar64, sar32, lt_signed, of_bool,
}
use ece375_project.Utilities.Bits.{extract_bits, sext32, sext64}
use ece375_project.Utilities.Codes.{
  op_int, op_intw, op_intimm, op_intimmw, op_jalr, op_auipc, op_lui, op_jal, funct3_add, funct3_sll,
  funct3_slt, funct3_sltu, funct3_xor, funct3_sr, funct3_or, funct3_and, funct7_add, funct7_sub,
  funct7_logical, upperimm_logical, upperimm_arith,
}
use ece375_project.Simulator.Instruction.{Instruction}

-- The mask that a register shift puts on its amount: 6 bits, and 5 for the 32-bit shifts.
unfoldable pub mask_shift : Instruction → Instruction
mask_shift inst =
    if inst.opcode == op_int && (inst.funct3 == funct3_sll || inst.funct3 == funct3_sr)
    then record inst { op2_val = bit_and inst.op2_val 0x3F }
    else if inst.opcode == op_intw && (inst.funct3 == funct3_sll || inst.funct3 == funct3_sr)
    then record inst { op2_val = bit_and inst.op2_val 0x1F }
    else inst

-- The value of `arithResult` after each case of `switch (inst.opcode)`. Where a case assigns
-- nothing, the old value stays; each `switch` stands as the list of its cases. The message that the default of `OP_INT` prints is left out: the
-- eight values of `funct3` are all cases.
module _ (inst : Instruction) where
  abbrev a : ℕ
  a = inst.op1_val

  abbrev b : ℕ
  b = inst.op2_val

  abbrev old : ℕ
  old = inst.arith_result

  abbrev imm12 : ℕ
  imm12 = extract_bits inst.instruction 31 20

  abbrev upper_imm12 : ℕ
  upper_imm12 = extract_bits inst.instruction 31 26

  abbrev imm20 : ℕ
  imm20 = extract_bits inst.instruction 31 12

  abbrev pub int_cases : List (ℕ × ℕ)
  int_cases =
      (
        funct3_add,
        (if inst.funct7 == funct7_add
            then add64 a b
            else if inst.funct7 == funct7_sub
            then sub64 a b
            else old),
      )
      ∷ (funct3_sll, shl64 a b)
      ∷ (funct3_slt, of_bool (lt_signed a b))
      ∷ (funct3_sltu, of_bool (ltb a b))
      ∷ (funct3_xor, bit_xor a b)
      ∷ (
        funct3_sr,
        (if upper_imm12 == funct7_logical
            then shr a b
            else if upper_imm12 == upperimm_arith
            then sar64 a b
            else old),
      )
      ∷ (funct3_or, bit_or a b)
      ∷ (funct3_and, bit_and a b)
      ∷ []

  unfoldable pub result_int : ℕ
  result_int = switch inst.funct3 int_cases old

  abbrev pub intw_cases : List (ℕ × ℕ)
  intw_cases =
      (
        funct3_add,
        (if inst.funct7 == funct7_add
            then sext64 (add32 (u32 a) (u32 b)) 31
            else if inst.funct7 == funct7_sub
            then sext64 (sub32 (u32 a) (u32 b)) 31
            else old),
      )
      ∷ (funct3_sll, sext64 (shl32 (u32 a) (u32 b)) 31)
      ∷ (
        funct3_sr,
        (if upper_imm12 == funct7_logical
            then sext64 (shr (u32 a) (u32 b)) 31
            else if upper_imm12 == upperimm_arith
            then sext64 (sar32 (u32 a) (u32 b)) 31
            else old),
      )
      ∷ []

  unfoldable pub result_intw : ℕ
  result_intw = switch inst.funct3 intw_cases old

  abbrev pub intimm_cases : List (ℕ × ℕ)
  intimm_cases =
      (funct3_add, add64 a (sext64 imm12 11))
      ∷ (funct3_sll, shl64 a (bit_and imm12 0x3F))
      ∷ (funct3_slt, of_bool (lt_signed a (sext64 imm12 11)))
      ∷ (funct3_sltu, of_bool (ltb a (sext64 imm12 11)))
      ∷ (funct3_xor, bit_xor a (sext64 imm12 11))
      ∷ (
        funct3_sr,
        (if upper_imm12 == upperimm_logical
            then shr a (bit_and imm12 0x3F)
            else if upper_imm12 == upperimm_arith
            then sar64 a (bit_and imm12 0x3F)
            else old),
      )
      ∷ (funct3_or, bit_or a (sext64 imm12 11))
      ∷ (funct3_and, bit_and a (sext64 imm12 11))
      ∷ []

  unfoldable pub result_intimm : ℕ
  result_intimm = switch inst.funct3 intimm_cases old

  abbrev pub intimmw_cases : List (ℕ × ℕ)
  intimmw_cases =
      (funct3_add, sext64 (add32 (u32 a) (u32 (sext32 imm12 11))) 31)
      ∷ (funct3_sll, sext64 (shl32 (u32 a) (u32 (bit_and imm12 0x1F))) 31)
      ∷ (
        funct3_sr,
        (if upper_imm12 == upperimm_logical
            then sext64 (shr (u32 a) (u32 (bit_and imm12 0x1F))) 31
            else if upper_imm12 == upperimm_arith
            then sext64 (sar32 (u32 a) (u32 (bit_and imm12 0x1F))) 31
            else old),
      )
      ∷ []

  unfoldable pub result_intimmw : ℕ
  result_intimmw = switch inst.funct3 intimmw_cases old

  abbrev pub result_cases : List (ℕ × ℕ)
  result_cases =
      (op_int, result_int)
      ∷ (op_intw, result_intw)
      ∷ (op_intimm, result_intimm)
      ∷ (op_intimmw, result_intimmw)
      ∷ (op_jalr, add64 inst.pc 4)
      ∷ (op_auipc, add64 inst.pc (sext64 (shl64 imm20 12) 31))
      ∷ (op_lui, sext64 (shl64 imm20 12) 31)
      ∷ (op_jal, add64 inst.pc 4)
      ∷ []

  unfoldable pub arith_value : ℕ
  arith_value = switch inst.opcode result_cases old

unfoldable pub sim_arith_logic : Instruction → Instruction
sim_arith_logic inst =
    let masked = mask_shift inst in record masked { arith_result = arith_value masked }
