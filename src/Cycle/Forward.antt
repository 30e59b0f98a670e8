-- ===== src/Cycle/Forward.antt =====
-- The hazard tests and the forwarding of src/cycle.cpp.
pub mod Commits
use ece375_project.Base.{ℕ, Bool, true, false, ◌&&◌, ◌||◌, not, ◌==◌, if◌then◌else◌}
use ece375_project.Utilities.Codes.{StageStatus, op_branch, op_jalr}
use ece375_project.Simulator.Instruction.{Instruction, blank}
use ece375_project.Simulator.Access.{written_value}

unfoldable pub nop : StageStatus → Instruction
nop status = record blank {
  instruction = 0x00000013;
  is_legal = true;
  is_nop = true;
  status = status;
}

unfoldable pub hazard : Instruction → ℕ → Bool
hazard dst_inst src_reg = dst_inst.writes_rd && (not (dst_inst.rd == 0) && dst_inst.rd == src_reg)

-- An operand, taken from MEM, else from WB, else from the instruction that WB held last, where one
-- of them writes the register. The source writes these tests out for each operand, once for EX and
-- once for the branches in ID.
unfoldable pub forward : Instruction → Instruction → Instruction → ℕ → ℕ → ℕ
forward mem wb done src_reg value =
    if hazard mem src_reg
    then written_value mem
    else if hazard wb src_reg
    then written_value wb
    else if hazard done src_reg
    then written_value done
    else value

unfoldable pub forward_operands :
    Instruction → Instruction → Instruction → Instruction → Instruction
forward_operands mem wb done inst = record inst {
  op1_val = forward mem wb done inst.rs1 inst.op1_val;
  op2_val = forward mem wb done inst.rs2 inst.op2_val;
}

-- The load-to-store forwarding from WB to MEM.
unfoldable pub forward_store : Instruction → Instruction → Instruction
forward_store wb ex =
    if ex.writes_mem && (not (wb.rd == 0) && (wb.reads_mem && ex.rs2 == wb.rd))
    then record ex { op2_val = wb.mem_result }
    else ex

unfoldable pub resolves_in_id : Instruction → Bool
resolves_in_id inst = inst.opcode == op_branch || inst.opcode == op_jalr

-- The three tests at the top of a cycle, on the instructions in ID, EX and MEM.
unfoldable pub load_use : Instruction → Instruction → Bool
load_use id ex = ex.reads_mem && (not (ex.rd == 0) && (ex.rd == id.rs1 || ex.rd == id.rs2))

unfoldable pub arith_branch : Instruction → Instruction → Bool
arith_branch id ex =
    ex.writes_rd
    && (resolves_in_id id && (not (ex.rd == 0) && (id.rs1 == ex.rd || id.rs2 == ex.rd)))

unfoldable pub load_branch : Instruction → Instruction → Bool
load_branch id mem =
    mem.reads_mem
    && (mem.writes_rd
        && (resolves_in_id id && (not (mem.rd == 0) && (mem.rd == id.rs1 || mem.rd == id.rs2))))

-- `branchStall`: the operands of a branch that was just decoded are not there yet, the producer
-- being in EX, or a load in MEM.
unfoldable pub must_wait : Instruction → Instruction → Instruction → Bool
must_wait new ex mem =
    resolves_in_id new
    && ((hazard ex new.rs1 || hazard ex new.rs2)
        || ((hazard mem new.rs1 || hazard mem new.rs2) && mem.reads_mem))
