-- ===== src/Utilities/Names.antt =====
-- `getOpString` of src/Utilities.cpp: the mnemonic of an instruction.
use Prim.Native.String.{String, ◌++◌}
use ece375_project.Base.{ℕ, List, [], ◌∷◌, Option, none, some, ◌==◌, if◌then◌else◌, switch}
use ece375_project.Word.{shr}
use ece375_project.Utilities.Codes.{
  op_int, op_intw, op_load, op_intimm, op_intimmw, op_jalr, op_store, op_branch, op_auipc, op_lui,
  op_jal, funct3_add, funct3_sll, funct3_slt, funct3_sltu, funct3_xor, funct3_sr, funct3_or,
  funct3_and, funct3_b, funct3_h, funct3_w, funct3_d, funct3_bu, funct3_hu, funct3_wu, funct3_beq,
  funct3_bne, funct3_blt, funct3_bge, funct3_bltu, funct3_bgeu, funct7_add, funct7_sub,
  funct7_logical, funct7_arith, upperimm_logical, upperimm_arith,
}

-- The bodies; `none` is `return "ILLEGAL"`.
abbrev pub Bodies : Type 0
Bodies = List (ℕ × Option String)

abbrev pub add_bodies : Bodies
add_bodies = (funct7_add, some "add") ∷ (funct7_sub, some "sub") ∷ []

abbrev pub sr_bodies : Bodies
sr_bodies = (upperimm_logical, some "srl") ∷ (upperimm_arith, some "sra") ∷ []

abbrev pub srw_bodies : Bodies
srw_bodies = (funct7_logical, some "srl") ∷ (funct7_arith, some "sra") ∷ []

abbrev pub int_bodies : ℕ → ℕ → Bodies
int_bodies opcode funct7 =
    (funct3_add, (if opcode == op_int then switch funct7 add_bodies none else some "add"))
    ∷ (funct3_sll, some "sll")
    ∷ (funct3_slt, some "slt")
    ∷ (funct3_sltu, some "sltu")
    ∷ (funct3_xor, some "xor")
    ∷ (funct3_sr, switch (shr funct7 1) sr_bodies none)
    ∷ (funct3_or, some "or")
    ∷ (funct3_and, some "and")
    ∷ []

abbrev pub intw_bodies : ℕ → Bodies
intw_bodies funct7 =
    (funct3_add, switch funct7 add_bodies none)
    ∷ (funct3_sll, some "sll")
    ∷ (funct3_sr, switch funct7 srw_bodies none)
    ∷ []

abbrev pub load_bodies : Bodies
load_bodies =
    (funct3_b, some "b")
    ∷ (funct3_h, some "h")
    ∷ (funct3_w, some "w")
    ∷ (funct3_d, some "d")
    ∷ (funct3_bu, some "bu")
    ∷ (funct3_hu, some "hu")
    ∷ (funct3_wu, some "wu")
    ∷ []

abbrev pub store_bodies : Bodies
store_bodies =
    (funct3_b, some "b") ∷ (funct3_h, some "h") ∷ (funct3_w, some "w") ∷ (funct3_d, some "d") ∷ []

abbrev pub branch_bodies : Bodies
branch_bodies =
    (funct3_beq, some "eq")
    ∷ (funct3_bne, some "ne")
    ∷ (funct3_blt, some "lt")
    ∷ (funct3_bge, some "ge")
    ∷ (funct3_bltu, some "ltu")
    ∷ (funct3_bgeu, some "geu")
    ∷ []

unfoldable pub int_body : ℕ → ℕ → ℕ → Option String
int_body opcode funct3 funct7 = switch funct3 (int_bodies opcode funct7) none

unfoldable pub intw_body : ℕ → ℕ → Option String
intw_body funct3 funct7 = switch funct3 (intw_bodies funct7) none

unfoldable pub load_body : ℕ → Option String
load_body funct3 = switch funct3 load_bodies none

unfoldable pub store_body : ℕ → Option String
store_body funct3 = switch funct3 store_bodies none

unfoldable pub branch_body : ℕ → Option String
branch_body funct3 = switch funct3 branch_bodies none

-- `prefix + body + suffix`.
unfoldable pub spelled : String → Option String → String → String
spelled prefix none suffix = "ILLEGAL"
spelled prefix (some body) suffix = prefix ++ (body ++ suffix)

-- The case of `OP_INTIMM` runs on into that of `OP_INT`, and that of `OP_INTIMMW` into `OP_INTW`.
abbrev pub op_names : ℕ → ℕ → ℕ → List (ℕ × String)
op_names opcode funct3 funct7 =
    (op_intimm, spelled "" (int_body opcode funct3 funct7) "i")
    ∷ (op_int, spelled "" (int_body opcode funct3 funct7) "")
    ∷ (op_intimmw, spelled "" (intw_body funct3 funct7) ("i" ++ "w"))
    ∷ (op_intw, spelled "" (intw_body funct3 funct7) "w")
    ∷ (op_load, spelled "l" (load_body funct3) "")
    ∷ (op_store, spelled "s" (store_body funct3) "")
    ∷ (op_branch, spelled "b" (branch_body funct3) "")
    ∷ (op_jal, "jal")
    ∷ (op_jalr, "jalr")
    ∷ (op_lui, "lui")
    ∷ (op_auipc, "auipc")
    ∷ []

unfoldable pub get_op_string : ℕ → ℕ → ℕ → String
get_op_string opcode funct3 funct7 = switch opcode (op_names opcode funct3 funct7) "ILLEGAL"
