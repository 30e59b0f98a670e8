-- ===== src/Isa.antt =====
-- What the instruction set says that one instruction does, for `simInstruction` of
-- src/simulator.cpp: relations over what the decoder found in the word.
pub mod Computes
pub mod Outcome
pub mod Covers
pub mod Total
pub mod Next
pub mod Executes
pub mod Program
pub mod Simulates
pub mod Runs
use ece375_project.Base.{ℕ, ◌+◌, ◌*◌, ◌-◌, ◌^◌, ◌≡◌, Bool, true, false, ◌==◌, not, ltb, ltb_ℤ}
use ece375_project.Base.{ℤ, ◌+ℤ◌, bit_and, set}
use ece375_project.Word.{add64, of_ℤ}
use ece375_project.Utilities.Extend.{signed_at}
use ece375_project.Utilities.Codes.{
  op_load, op_jalr, op_store, op_branch, op_jal, funct3_b, funct3_h, funct3_w, funct3_d, funct3_bu,
  funct3_hu, funct3_wu, funct3_beq, funct3_bne, funct3_blt, funct3_bge, funct3_bltu, funct3_bgeu,
}
use ece375_project.MemoryStore.{get_mem_value, set_mem_value}
use ece375_project.Simulator.Instruction.{Instruction}
use ece375_project.Simulator.Arith.Meaning.{Means, x, y, imm}
use ece375_project.Simulator.Resolve.Immediates.{IsBranch, IsJump}
use ece375_project.Cycle.Refine.{Arch, operand}

-- The instruction with both of its source registers read, whether it uses them or not.
abbrev pub given : Instruction → Arch → Instruction
given i a = record i { op1_val = operand a.registers i.rs1; op2_val = operand a.registers i.rs2 }

module _ (i : Instruction) (a : Arch) where
  abbrev pub load_address : ℕ
  load_address = of_ℤ (x (given i a) +ℤ imm i)

  abbrev pub store_imm : ℤ
  store_imm = signed_at 11 (i.funct7 * 2 ^ 5 + i.rd)

  abbrev pub store_address : ℕ
  store_address = of_ℤ (x (given i a) +ℤ store_imm)

  -- The `size` bytes that a load addresses, as `getMemValue` reads them.
  abbrev pub loaded : ℕ → ℕ
  loaded size = (get_mem_value a.memory load_address 0 size).value

  -- The value of a load, by the size and the sign that its code names.
  pub data Loads : ℕ → Type 0 where
    lb : i.funct3 ≡ funct3_b → Loads (of_ℤ (signed_at 7 (loaded 1)))
    lh : i.funct3 ≡ funct3_h → Loads (of_ℤ (signed_at 15 (loaded 2)))
    lw : i.funct3 ≡ funct3_w → Loads (of_ℤ (signed_at 31 (loaded 4)))
    ld : i.funct3 ≡ funct3_d → Loads (loaded 8)
    lbu : i.funct3 ≡ funct3_bu → Loads (loaded 1)
    lhu : i.funct3 ≡ funct3_hu → Loads (loaded 2)
    lwu : i.funct3 ≡ funct3_wu → Loads (loaded 4)

  -- The number of bytes that a store writes.
  pub data Stores : ℕ → Type 0 where
    sb : i.funct3 ≡ funct3_b → Stores 1
    sh : i.funct3 ≡ funct3_h → Stores 2
    sw : i.funct3 ≡ funct3_w → Stores 4
    sd : i.funct3 ≡ funct3_d → Stores 8

  -- The registers and the memory after the instruction; a store writes as `setMemValue` does.
  pub data Effects : Arch → Type 0 where
    nop : i.is_nop ≡ true → Effects a
    branch : i.opcode ≡ op_branch → Effects a
    compute :
        {z : ℤ}
        → i.is_nop ≡ false
        → Means (given i a) z
        → Effects (record a { registers = set a.registers i.rd (of_ℤ z) })
    load :
        {v : ℕ}
        → i.opcode ≡ op_load
        → Loads v
        → Effects (record a { registers = set a.registers i.rd v })
    store :
        {size : ℕ}
        → i.opcode ≡ op_store
        → Stores size
        → Effects (record a {
          memory = (set_mem_value a.memory store_address (operand a.registers i.rs2) size).store;
        })

  -- The condition of a branch over the integers that its registers hold.
  pub data Compares : Bool → Type 0 where
    beq : i.funct3 ≡ funct3_beq → Compares ((given i a).op1_val == (given i a).op2_val)
    bne : i.funct3 ≡ funct3_bne → Compares (not ((given i a).op1_val == (given i a).op2_val))
    blt : i.funct3 ≡ funct3_blt → Compares (ltb_ℤ (x (given i a)) (y (given i a)))
    bge : i.funct3 ≡ funct3_bge → Compares (not (ltb_ℤ (x (given i a)) (y (given i a))))
    bltu : i.funct3 ≡ funct3_bltu → Compares (ltb (given i a).op1_val (given i a).op2_val)
    bgeu : i.funct3 ≡ funct3_bgeu → Compares (not (ltb (given i a).op1_val (given i a).op2_val))

  -- The address of the next instruction; the least bit of what `jalr` computes is cleared.
  pub data Continues : ℕ → Type 0 where
    next :
        (i.opcode == op_jalr) ≡ false
        → (i.opcode == op_jal) ≡ false
        → (i.opcode == op_branch) ≡ false
        → Continues (add64 i.pc 4)
    jal :
        {offset : ℕ}
        → i.opcode ≡ op_jal
        → IsJump i offset
        → Continues (add64 i.pc (of_ℤ (signed_at 20 offset)))
    jalr : i.opcode ≡ op_jalr → Continues (bit_and (of_ℤ (x (given i a) +ℤ imm i)) (2 ^ 64 - 2))
    taken :
        {offset : ℕ}
        → i.opcode ≡ op_branch
        → Compares true
        → IsBranch i offset
        → Continues (add64 i.pc (of_ℤ (signed_at 12 offset)))
    not_taken : i.opcode ≡ op_branch → Compares false → Continues (add64 i.pc 4)
