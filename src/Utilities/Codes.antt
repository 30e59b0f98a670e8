-- ===== src/Utilities/Codes.antt =====
-- The enumerations of src/Utilities.h, with their values.
use ece375_project.Base.{ℕ}

-- `enum Status`.
pub data Status : Type 0 where
  success error halt : Status

-- `enum StageStatus`.
pub data StageStatus : Type 0 where
  normal bubble idle speculative squashed : StageStatus

-- `enum OPCODES`.
abbrev pub op_int : ℕ
op_int = 0b0110011

abbrev pub op_intw : ℕ
op_intw = 0b0111011

abbrev pub op_load : ℕ
op_load = 0b0000011

abbrev pub op_intimm : ℕ
op_intimm = 0b0010011

abbrev pub op_intimmw : ℕ
op_intimmw = 0b0011011

abbrev pub op_jalr : ℕ
op_jalr = 0b1100111

abbrev pub op_store : ℕ
op_store = 0b0100011

abbrev pub op_branch : ℕ
op_branch = 0b1100011

abbrev pub op_auipc : ℕ
op_auipc = 0b0010111

abbrev pub op_lui : ℕ
op_lui = 0b0110111

abbrev pub op_jal : ℕ
op_jal = 0b1101111

-- `enum FUNCT3`: the arithmetic instructions.
abbrev pub funct3_add : ℕ
funct3_add = 0b000

abbrev pub funct3_sll : ℕ
funct3_sll = 0b001

abbrev pub funct3_slt : ℕ
funct3_slt = 0b010

abbrev pub funct3_sltu : ℕ
funct3_sltu = 0b011

abbrev pub funct3_xor : ℕ
funct3_xor = 0b100

abbrev pub funct3_sr : ℕ
funct3_sr = 0b101

abbrev pub funct3_or : ℕ
funct3_or = 0b110

abbrev pub funct3_and : ℕ
funct3_and = 0b111

-- Loads and stores.
abbrev pub funct3_b : ℕ
funct3_b = 0b000

abbrev pub funct3_h : ℕ
funct3_h = 0b001

abbrev pub funct3_w : ℕ
funct3_w = 0b010

abbrev pub funct3_d : ℕ
funct3_d = 0b011

abbrev pub funct3_bu : ℕ
funct3_bu = 0b100

abbrev pub funct3_hu : ℕ
funct3_hu = 0b101

abbrev pub funct3_wu : ℕ
funct3_wu = 0b110

-- Branches.
abbrev pub funct3_beq : ℕ
funct3_beq = 0b000

abbrev pub funct3_bne : ℕ
funct3_bne = 0b001

abbrev pub funct3_blt : ℕ
funct3_blt = 0b100

abbrev pub funct3_bge : ℕ
funct3_bge = 0b101

abbrev pub funct3_bltu : ℕ
funct3_bltu = 0b110

abbrev pub funct3_bgeu : ℕ
funct3_bgeu = 0b111

-- `enum RI_FUNCT7` and `enum SR_UPPER_IMM12`.
abbrev pub funct7_add : ℕ
funct7_add = 0b0000000

abbrev pub funct7_sub : ℕ
funct7_sub = 0b0100000

abbrev pub funct7_logical : ℕ
funct7_logical = 0b0000000

abbrev pub funct7_arith : ℕ
funct7_arith = 0b0100000

abbrev pub upperimm_logical : ℕ
upperimm_logical = 0b000000

abbrev pub upperimm_arith : ℕ
upperimm_arith = 0b010000
