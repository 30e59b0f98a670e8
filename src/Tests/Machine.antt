-- ===== src/Tests/Machine.antt =====
-- The functional simulator on the program.
use ece375_project.Base.{◌≡◌, arith, some}
use ece375_project.Simulator.Instruction.{Instruction, blank}
use ece375_project.Simulator.Decode.{sim_decode}
use ece375_project.Simulator.Decode.Flags.{fields}
use ece375_project.Simulator.Decode.Layout.{assemble, InBounds, assemble-sim_decode}
use ece375_project.Simulator.Machine.{sim_instruction}
use ece375_project.Simulator.Machine.Stages.{staged, staged-eq-instruction}
use ece375_project.Funct.{run_instructions, run_till_halt}
use ece375_project.Funct.Runs.{steps, run_instructions-eq-steps, run_till_halt-eq-steps}
use ece375_project.Tests.Samples.{machine, funct}
use ece375_project.Tests.Programs.{funct_stops}

abbrev fetched : Instruction
fetched = record blank { instruction = 0x00108133 }

staged-eq-instruction_example : staged machine 0 ≡ sim_instruction machine 0
staged-eq-instruction_example = staged-eq-instruction machine 0

assemble-sim_decode_example :
    InBounds (fields (sim_decode fetched))
    × (assemble (fields (sim_decode fetched)) ≡ 0x00108133)
    × ((fields (sim_decode fetched)).instruction ≡ 0x00108133)
    × ((fields (sim_decode fetched)).pc ≡ 0)
assemble-sim_decode_example = assemble-sim_decode fetched (omega arith)

run_instructions-eq-steps_example : run_instructions 5 3 funct ≡ some (steps 3 funct)
run_instructions-eq-steps_example =
    run_instructions-eq-steps 5 3 funct (omega arith) (omega arith) (omega arith)

run_till_halt-eq-steps_example : run_till_halt 9 funct ≡ some (steps 4 funct)
run_till_halt-eq-steps_example =
    run_till_halt-eq-steps 4 9 funct (rw funct_stops (λ e. absurd cc)) (omega arith)
