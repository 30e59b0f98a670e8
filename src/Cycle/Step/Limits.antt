-- ===== src/Cycle/Step/Limits.antt =====
-- How long the hazards of the pipeline hold the instruction in IF.
use ece375_project.MemoryStore.{MemoryStore}
use ece375_project.Simulator.Instruction.{Instruction}
