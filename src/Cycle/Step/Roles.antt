-- ===== src/Cycle/Step/Roles.antt =====
-- The part of an instruction that no stage after the decoder changes.
use ece375_project.Base.{ℕ, Bool, true, false, ◌≡◌, refl, arith}
use ece375_project.Utilities.Codes.{StageStatus}
use ece375_project.Simulator.Instruction.{Instruction}
use ece375_project.Simulator.Decode.{sim_decode}
use ece375_project.Simulator.Resolve.{sim_operand_collection, sim_next_pc_resolution}
use ece375_project.Simulator.Arith.{mask_shift, sim_arith_logic}
use ece375_project.Simulator.Access.{sim_addr_gen, sim_mem_access}
use ece375_project.Simulator.Machine.{Simulator, number, sim_id, sim_ex, sim_mem}
use ece375_project.Cycle.Forward.{
  nop, hazard, forward_operands, forward_store, resolves_in_id, arith_branch, load_branch,
  must_wait,
}
use ece375_project.Cycle.Step.{Core, marked, resolve_branch}

-- What the decoder decides: no function after it changes any of it.
pub record Roles : Type 0 where
  pub pc : ℕ
  pub instruction : ℕ
  pub is_legal : Bool
  pub does_arith_logic : Bool
  pub reads_rs1 : Bool
  pub reads_rs2 : Bool
  pub funct3 : ℕ
  pub funct7 : ℕ
  pub reads_mem : Bool
  pub writes_mem : Bool
  pub writes_rd : Bool
  pub is_halt : Bool
  pub is_nop : Bool
  pub opcode : ℕ
  pub rd : ℕ
  pub rs1 : ℕ
  pub rs2 : ℕ

abbrev pub roles : Instruction → Roles
roles i = record {
  pc = i.pc;
  instruction = i.instruction;
  is_legal = i.is_legal;
  does_arith_logic = i.does_arith_logic;
  reads_rs1 = i.reads_rs1;
  reads_rs2 = i.reads_rs2;
  funct3 = i.funct3;
  funct7 = i.funct7;
  reads_mem = i.reads_mem;
  writes_mem = i.writes_mem;
  writes_rd = i.writes_rd;
  is_halt = i.is_halt;
  is_nop = i.is_nop;
  opcode = i.opcode;
  rd = i.rd;
  rs1 = i.rs1;
  rs2 = i.rs2;
}

pub roles-arith_logic : (i : Instruction) → roles (sim_arith_logic i) ≡ roles i
unfolding sim_arith_logic mask_shift
roles-arith_logic i = ground arith

pub roles-addr_gen : (i : Instruction) → roles (sim_addr_gen i) ≡ roles i
unfolding sim_addr_gen
roles-addr_gen i = ground arith

pub roles-ex : (i : Instruction) → roles (sim_ex i) ≡ roles i
unfolding sim_ex
roles-ex i =
    ground (arith, roles-arith_logic i, roles-addr_gen i, roles-addr_gen (sim_arith_logic i))

pub roles-mem : (s : Simulator) (i : Instruction) → roles (sim_mem s i).1 ≡ roles i
unfolding sim_mem sim_mem_access
roles-mem s i = ground arith

pub roles-marked : (i : Instruction) → roles (marked i) ≡ roles i
unfolding marked
roles-marked i = refl

pub roles-forward_store : (wb i : Instruction) → roles (forward_store wb i) ≡ roles i
unfolding forward_store
roles-forward_store wb i = ground arith

pub roles-resolve_branch : (c : Core) (i : Instruction) → roles (resolve_branch c i) ≡ roles i
unfolding resolve_branch sim_next_pc_resolution forward_operands
roles-resolve_branch c i = ground arith

pub roles-id : (s : Simulator) (i : Instruction) → roles (sim_id s i).1 ≡ roles (sim_decode i)
unfolding sim_id number sim_next_pc_resolution sim_operand_collection
roles-id s i = ground arith

-- The tests read the roles only.
pub late_tests_agree :
    (id id' ex ex' : Instruction)
    → roles id' ≡ roles id
    → roles ex' ≡ roles ex
    → (arith_branch id' ex' ≡ arith_branch id ex) × (load_branch id' ex' ≡ load_branch id ex)
unfolding arith_branch load_branch resolves_in_id
late_tests_agree id id' ex ex' p q = ground arith

-- A branch that ID lets through waits for no result of EX, and for no load in MEM.
pub through_no_late :
    (new ex mem : Instruction)
    → must_wait new ex mem ≡ false
    → (arith_branch new ex ≡ false) × (load_branch new mem ≡ false)
unfolding must_wait arith_branch load_branch hazard
through_no_late new ex mem h = ground arith

-- A load in EX that a branch in ID reads would be seen by the test on EX.
pub load_late :
    (id ex : Instruction)
    → (ex.reads_mem ≡ true → ex.writes_rd ≡ true)
    → arith_branch id ex ≡ false
    → load_branch id ex ≡ false
unfolding arith_branch load_branch
load_late id ex w h = ground arith

pub nop_no_late :
    (st : StageStatus) (i : Instruction)
    → (arith_branch (nop st) i ≡ false)
      × (load_branch (nop st) i ≡ false)
      × (arith_branch i (nop st) ≡ false)
unfolding arith_branch load_branch resolves_in_id nop
nop_no_late st i = ground arith

pub roles-forward_operands :
    (mem wb done i : Instruction) → roles (forward_operands mem wb done i) ≡ roles i
unfolding forward_operands
roles-forward_operands mem wb done i = refl
