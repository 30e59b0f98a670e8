-- ===== src/Simulator/Decode.antt =====
-- `simDecode` of src/simulator.cpp.
pub mod Flags
pub mod Layout
pub mod Classes
pub mod Marks
pub mod Legal
pub mod Spelling
pub mod Printing
use ece375_project.Base.{
  ℕ, Bool, true, false, ◌&&◌, ◌||◌, ◌==◌, if◌then◌else◌, switch, List, [], ◌∷◌,
}
use ece375_project.Word.{shr}
use ece375_project.Utilities.Bits.{extract_bits}
use ece375_project.Utilities.Codes.{
  op_int, op_intw, op_load, op_intimm, op_intimmw, op_jalr, op_store, op_branch, op_auipc, op_lui,
  op_jal, funct3_add, funct3_sll, funct3_slt, funct3_sltu, funct3_xor, funct3_sr, funct3_or,
  funct3_and, funct3_b, funct3_h, funct3_w, funct3_d, funct3_bu, funct3_hu, funct3_wu, funct3_beq,
  funct3_bne, funct3_blt, funct3_bge, funct3_bltu, funct3_bgeu, funct7_add, funct7_sub,
  funct7_logical, funct7_arith, upperimm_logical, upperimm_arith,
}
use ece375_project.Simulator.Instruction.{Instruction}

abbrev pub halt_word : ℕ
halt_word = 0xfeedfeed

abbrev pub nop_word : ℕ
nop_word = 0x00000013

-- The field assignments at the top of `simDecode`, with `isLegal = true`.
unfoldable pub decode_fields : Instruction → Instruction
decode_fields inst = record inst {
  opcode = extract_bits inst.instruction 6 0;
  rd = extract_bits inst.instruction 11 7;
  funct3 = extract_bits inst.instruction 14 12;
  rs1 = extract_bits inst.instruction 19 15;
  rs2 = extract_bits inst.instruction 24 20;
  funct7 = extract_bits inst.instruction 31 25;
  is_legal = true;
}

-- The conditions on `funct3` and `funct7` under which each opcode is legal.
unfoldable pub legal_int : ℕ → ℕ → Bool
legal_int f3 f7 =
    (f3 == funct3_add && (f7 == funct7_add || f7 == funct7_sub))
    || (f3 == funct3_sll
        || (f3 == funct3_slt
            || (f3 == funct3_sltu
                || (f3 == funct3_xor
                    || ((f3 == funct3_sr
                          && (shr f7 1 == upperimm_arith || shr f7 1 == upperimm_logical))
                        || (f3 == funct3_or || f3 == funct3_and))))))

unfoldable pub legal_intw : ℕ → ℕ → Bool
legal_intw f3 f7 =
    (f3 == funct3_add && (f7 == funct7_add || f7 == funct7_sub))
    || (f3 == funct3_sll || (f3 == funct3_sr && (f7 == funct7_arith || f7 == funct7_logical)))

unfoldable pub legal_load : ℕ → Bool
legal_load f3 =
    f3 == funct3_b
    || (f3 == funct3_h
        || (f3 == funct3_w
            || (f3 == funct3_d || (f3 == funct3_bu || (f3 == funct3_hu || f3 == funct3_wu)))))

unfoldable pub legal_intimm : ℕ → ℕ → Bool
legal_intimm f3 f7 =
    f3 == funct3_add
    || (f3 == funct3_sll
        || (f3 == funct3_slt
            || (f3 == funct3_sltu
                || (f3 == funct3_xor
                    || ((f3 == funct3_sr
                          && (shr f7 1 == upperimm_arith || shr f7 1 == upperimm_logical))
                        || (f3 == funct3_or || f3 == funct3_and))))))

unfoldable pub legal_intimmw : ℕ → ℕ → Bool
legal_intimmw f3 f7 =
    f3 == funct3_add
    || (f3 == funct3_sll || (f3 == funct3_sr && (f7 == funct7_arith || f7 == funct7_logical)))

unfoldable pub legal_store : ℕ → Bool
legal_store f3 = f3 == funct3_b || (f3 == funct3_h || (f3 == funct3_w || f3 == funct3_d))

unfoldable pub legal_branch : ℕ → Bool
legal_branch f3 =
    f3 == funct3_beq
    || (f3 == funct3_bne
        || (f3 == funct3_blt || (f3 == funct3_bge || (f3 == funct3_bltu || f3 == funct3_bgeu))))

-- The flags that each case of `switch (inst.opcode)` sets.
unfoldable pub mark_register : Instruction → Instruction
mark_register inst = record inst {
  does_arith_logic = true;
  writes_rd = true;
  reads_rs1 = true;
  reads_rs2 = true;
}

pub mark_immediate : Instruction → Instruction
mark_immediate inst = record inst { does_arith_logic = true; writes_rd = true; reads_rs1 = true }

pub mark_upper : Instruction → Instruction
mark_upper inst = record inst { is_legal = true; does_arith_logic = true; writes_rd = true }

unfoldable pub mark_load : Instruction → Instruction
mark_load inst = record inst { reads_rs1 = true; writes_rd = true; reads_mem = true }

unfoldable pub mark_store : Instruction → Instruction
mark_store inst = record inst { reads_rs1 = true; reads_rs2 = true; writes_mem = true }

unfoldable pub mark_branch : Instruction → Instruction
mark_branch inst = record inst { reads_rs1 = true; reads_rs2 = true }

pub mark_illegal : Instruction → Instruction
mark_illegal inst = record inst { is_legal = false }

-- The cases of `switch (inst.opcode)`, and the switch.
abbrev pub opcode_cases : Instruction → List (ℕ × Instruction)
opcode_cases inst =
    let f3 = inst.funct3 in
    let f7 = inst.funct7 in
    (op_int, (if legal_int f3 f7 then mark_register inst else mark_illegal inst))
    ∷ (op_intw, (if legal_intw f3 f7 then mark_register inst else mark_illegal inst))
    ∷ (op_load, (if legal_load f3 then mark_load inst else mark_illegal inst))
    ∷ (op_intimm, (if legal_intimm f3 f7 then mark_immediate inst else mark_illegal inst))
    ∷ (op_intimmw, (if legal_intimmw f3 f7 then mark_immediate inst else mark_illegal inst))
    ∷ (op_jalr, mark_immediate (record inst { is_legal = true }))
    ∷ (op_store, (if legal_store f3 then mark_store inst else mark_illegal inst))
    ∷ (op_branch, (if legal_branch f3 then mark_branch inst else mark_illegal inst))
    ∷ (op_auipc, mark_upper inst)
    ∷ (op_lui, mark_upper inst)
    ∷ (op_jal, mark_upper inst)
    ∷ []

unfoldable pub classify : Instruction → Instruction
classify inst = switch inst.opcode (opcode_cases inst) (mark_illegal inst)

unfoldable pub sim_decode : Instruction → Instruction
sim_decode inst =
    let d = decode_fields inst in
    if d.instruction == halt_word
    then record d { is_halt = true }
    else if d.instruction == nop_word
    then record d { is_nop = true }
    else classify d
