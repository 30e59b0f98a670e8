-- ===== src/Simulator/Arith/Meaning.antt =====
-- What the instruction set says of the arithmetic instructions of RV64I, over integers.
use ece375_project.Base.{ℕ, ◌+◌, ◌*◌, ◌/◌, ◌%◌, ◌^◌, ◌≡◌, ltb, ltb_ℤ}
use ece375_project.Base.{ℤ, pos, ◌+ℤ◌, ◌-ℤ◌, floor_div, bit_and, bit_or, bit_xor}
use ece375_project.Word.{u32, signed64, of_ℤ}
use ece375_project.Word.Signed.{truth}
use ece375_project.Utilities.Extend.{signed_at}
use ece375_project.Utilities.Bits.{extract_bits}
use ece375_project.Utilities.Codes.{
  op_int, op_intw, op_intimm, op_intimmw, op_jalr, op_auipc, op_lui, op_jal, funct3_add, funct3_sll,
  funct3_slt, funct3_sltu, funct3_xor, funct3_sr, funct3_or, funct3_and, funct7_add, funct7_sub,
  upperimm_logical, upperimm_arith,
}
use ece375_project.Simulator.Instruction.{Instruction}

-- The 32-bit integer that is congruent to an integer.
abbrev pub wrap32 : ℤ → ℤ
wrap32 z = signed_at 31 (u32 (of_ℤ z))

module _ (inst : Instruction) where
  -- The operands as integers, the amounts of shifts, and the immediates.
  abbrev pub x : ℤ
  x = signed64 inst.op1_val

  abbrev pub y : ℤ
  y = signed64 inst.op2_val

  abbrev pub x32 : ℤ
  x32 = signed_at 31 (u32 inst.op1_val)

  abbrev pub field12 : ℕ
  field12 = extract_bits inst.instruction 31 20

  abbrev pub imm : ℤ
  imm = signed_at 11 field12

  abbrev pub upper6 : ℕ
  upper6 = extract_bits inst.instruction 31 26

  abbrev pub upper_imm : ℤ
  upper_imm = signed_at 31 (extract_bits inst.instruction 31 12 * 2 ^ 12)

  -- The result that the instruction set gives to an instruction, before it wraps to 64 bits.
  pub data Means : ℤ → Type 0 where
    add :
        inst.opcode ≡ op_int → inst.funct3 ≡ funct3_add → inst.funct7 ≡ funct7_add → Means (x +ℤ y)
    sub :
        inst.opcode ≡ op_int → inst.funct3 ≡ funct3_add → inst.funct7 ≡ funct7_sub → Means (x -ℤ y)
    sll :
        inst.opcode ≡ op_int
        → inst.funct3 ≡ funct3_sll
        → Means (pos (inst.op1_val * 2 ^ (inst.op2_val % 64)))
    slt : inst.opcode ≡ op_int → inst.funct3 ≡ funct3_slt → Means (truth (ltb_ℤ x y))
    sltu :
        inst.opcode ≡ op_int
        → inst.funct3 ≡ funct3_sltu
        → Means (truth (ltb inst.op1_val inst.op2_val))
    srl :
        inst.opcode ≡ op_int
        → inst.funct3 ≡ funct3_sr
        → upper6 ≡ upperimm_logical
        → Means (pos (inst.op1_val / 2 ^ (inst.op2_val % 64)))
    sra :
        inst.opcode ≡ op_int
        → inst.funct3 ≡ funct3_sr
        → upper6 ≡ upperimm_arith
        → Means (floor_div x (2 ^ (inst.op2_val % 64)))
    xor :
        inst.opcode ≡ op_int
        → inst.funct3 ≡ funct3_xor
        → Means (pos (bit_xor inst.op1_val inst.op2_val))
    or :
        inst.opcode ≡ op_int
        → inst.funct3 ≡ funct3_or
        → Means (pos (bit_or inst.op1_val inst.op2_val))
    and :
        inst.opcode ≡ op_int
        → inst.funct3 ≡ funct3_and
        → Means (pos (bit_and inst.op1_val inst.op2_val))
    xori :
        inst.opcode ≡ op_intimm
        → inst.funct3 ≡ funct3_xor
        → Means (pos (bit_xor inst.op1_val (of_ℤ imm)))
    ori :
        inst.opcode ≡ op_intimm
        → inst.funct3 ≡ funct3_or
        → Means (pos (bit_or inst.op1_val (of_ℤ imm)))
    andi :
        inst.opcode ≡ op_intimm
        → inst.funct3 ≡ funct3_and
        → Means (pos (bit_and inst.op1_val (of_ℤ imm)))
    addi : inst.opcode ≡ op_intimm → inst.funct3 ≡ funct3_add → Means (x +ℤ imm)
    slli :
        inst.opcode ≡ op_intimm
        → inst.funct3 ≡ funct3_sll
        → Means (pos (inst.op1_val * 2 ^ (field12 % 64)))
    slti : inst.opcode ≡ op_intimm → inst.funct3 ≡ funct3_slt → Means (truth (ltb_ℤ x imm))
    sltiu :
        inst.opcode ≡ op_intimm
        → inst.funct3 ≡ funct3_sltu
        → Means (truth (ltb inst.op1_val (of_ℤ imm)))
    srli :
        inst.opcode ≡ op_intimm
        → inst.funct3 ≡ funct3_sr
        → upper6 ≡ upperimm_logical
        → Means (pos (inst.op1_val / 2 ^ (field12 % 64)))
    srai :
        inst.opcode ≡ op_intimm
        → inst.funct3 ≡ funct3_sr
        → upper6 ≡ upperimm_arith
        → Means (floor_div x (2 ^ (field12 % 64)))
    addw :
        inst.opcode ≡ op_intw
        → inst.funct3 ≡ funct3_add
        → inst.funct7 ≡ funct7_add
        → Means (wrap32 (x +ℤ y))
    subw :
        inst.opcode ≡ op_intw
        → inst.funct3 ≡ funct3_add
        → inst.funct7 ≡ funct7_sub
        → Means (wrap32 (x -ℤ y))
    sllw :
        inst.opcode ≡ op_intw
        → inst.funct3 ≡ funct3_sll
        → Means (wrap32 (pos (u32 inst.op1_val * 2 ^ (inst.op2_val % 32))))
    srlw :
        inst.opcode ≡ op_intw
        → inst.funct3 ≡ funct3_sr
        → upper6 ≡ upperimm_logical
        → Means (wrap32 (pos (u32 inst.op1_val / 2 ^ (inst.op2_val % 32))))
    sraw :
        inst.opcode ≡ op_intw
        → inst.funct3 ≡ funct3_sr
        → upper6 ≡ upperimm_arith
        → Means (floor_div x32 (2 ^ (inst.op2_val % 32)))
    addiw : inst.opcode ≡ op_intimmw → inst.funct3 ≡ funct3_add → Means (wrap32 (x +ℤ imm))
    slliw :
        inst.opcode ≡ op_intimmw
        → inst.funct3 ≡ funct3_sll
        → Means (wrap32 (pos (u32 inst.op1_val * 2 ^ (field12 % 32))))
    srliw :
        inst.opcode ≡ op_intimmw
        → inst.funct3 ≡ funct3_sr
        → upper6 ≡ upperimm_logical
        → Means (wrap32 (pos (u32 inst.op1_val / 2 ^ (field12 % 32))))
    sraiw :
        inst.opcode ≡ op_intimmw
        → inst.funct3 ≡ funct3_sr
        → upper6 ≡ upperimm_arith
        → Means (floor_div x32 (2 ^ (field12 % 32)))
    lui : inst.opcode ≡ op_lui → Means upper_imm
    auipc : inst.opcode ≡ op_auipc → Means (signed64 inst.pc +ℤ upper_imm)
    jal : inst.opcode ≡ op_jal → Means (pos (inst.pc + 4))
    jalr : inst.opcode ≡ op_jalr → Means (pos (inst.pc + 4))
