-- ===== src/Cycle/Step/Effects.antt =====
-- When a cycle reports the end of the program.
use ece375_project.Base.{true, ◌≡◌, arith}
use ece375_project.Base.{◌↔◌}
use ece375_project.Utilities.Codes.{Status}
use ece375_project.Simulator.Instruction.{Instruction}
use ece375_project.Simulator.Machine.{Simulator, sim_wb}
use ece375_project.Cycle.Step.{Core, step_wb, step}

wb_keeps_halt : (s : Simulator) (i : Instruction) → (sim_wb s i).1.is_halt ≡ i.is_halt
unfolding sim_wb
wb_keeps_halt s i = ground arith

-- A cycle reports HALT exactly when the instruction that was in MEM before it is a halt.
pub step-halt_iff : (c : Core) → ((step c).1 ≡ Status.halt) ↔ (c.mem_inst.is_halt ≡ true)
unfolding step step_wb
step-halt_iff c = ground (arith, wb_keeps_halt c.sim c.mem_inst)
