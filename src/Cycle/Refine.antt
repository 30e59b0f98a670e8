-- ===== src/Cycle/Refine.antt =====
-- The registers and the memory that the instructions in the pipeline are to leave, for comparing
-- the pipeline of src/cycle.cpp with the functional simulator of src/funct.cpp.
pub mod Effects
pub mod Operands
pub mod Stages
pub mod Fetched
pub mod Tracking
pub mod Issue
pub mod Steps
pub mod Fronts
pub mod Rank
pub mod Issues
pub mod Rounds
pub mod Halts
pub mod Drain
pub mod Matches
pub mod Starts
pub mod Follows
use ece375_project.Base.{ℕ, List, set}
use ece375_project.MemoryStore.{MemoryStore}
use ece375_project.Simulator.Instruction.{Instruction}
use ece375_project.Simulator.Resolve.{read_reg, sim_operand_collection}
use ece375_project.Simulator.Access.{sim_mem_access}
use ece375_project.Simulator.Machine.{Simulator, sim_ex}
use ece375_project.Cycle.Forward.Commits.{commit}

-- What a program can see of the machine.
pub record Arch : Type 0 where
  pub registers : List ℕ
  pub memory : MemoryStore

abbrev pub arch : Simulator → Arch
arch s = record { registers = s.registers; memory = s.memory }

-- A register as an operand reads it: register 0 is 0.
abbrev pub operand : List ℕ → ℕ → ℕ
operand registers r = read_reg (set registers 0 0) r

-- What is left to do for an instruction that has been through MEM, through EX, and through ID.
abbrev pub retire : Instruction → Arch → Arch
retire i a = record a { registers = commit i a.registers }

abbrev pub perform : Instruction → Arch → Arch
perform i a =
    let (i', m) = sim_mem_access i a.memory in
    record { registers = commit i' a.registers; memory = m }

abbrev pub execute : Instruction → Arch → Arch
execute i a = perform (sim_ex (sim_operand_collection i a.registers)) a
