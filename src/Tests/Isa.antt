-- ===== src/Tests/Isa.antt =====
-- The instruction set on the program.
use ece375_project.Base.{ℕ, ◌≡◌, ◌≤◌, refl, arith, set, ◌+ℤ◌, some}
use ece375_project.Utilities.Codes.{Status}
use ece375_project.Simulator.Instruction.{Instruction}
use ece375_project.Simulator.Decode.{sim_decode}
use ece375_project.Simulator.Decode.Marks.{Runs}
use ece375_project.Simulator.Arith.Meaning.{Means}
use ece375_project.Simulator.Machine.{simulator, sim_if, sim_instruction}
use ece375_project.Funct
use ece375_project.Funct.{Funct}
use ece375_project.Cycle.Run.{Outcome, run_till_halt}
use ece375_project.Cycle.Refine.{Arch, arch}
use ece375_project.Cycle.Refine.Steps.{IsRegular}
use ece375_project.Cycle.Refine.Matches.{runs}
use ece375_project.Isa.{Effects, Loads, Stores, Continues}
use ece375_project.Isa.Executes.{sim_instruction-Executes}
use ece375_project.Isa.Program.{Program, count}
use ece375_project.Isa.Runs.{run_till_halt-Program, program-run_till_halt, program-pipeline}
use ece375_project.Tests.Samples.{memory, machine, config, core}
use ece375_project.Tests.Safety.{memory_bytes, machine-IsMachine}
use ece375_project.Tests.Programs.{pipelined}
use ece375_project.Tests.Pipeline.{core_starts}
use ece375_project.Tests.Refines.{IsCode, regular, finished, halted}

abbrev load_word : Instruction
load_word = sim_decode (sim_if machine 0)

-- After the load, the addition and the store.
abbrev loaded_21 : Arch
loaded_21 = record { registers = set machine.registers 1 21; memory = memory }

abbrev added_42 : Arch
added_42 = record loaded_21 { registers = set loaded_21.registers 2 42 }

abbrev stored_42 : Arch
stored_42 = record added_42 { memory = record memory { mem_arr = set memory.mem_arr 20 42 } }

load_runs : Runs load_word
unfolding pipelined
load_runs = record { legal = refl; no_halt = refl }

sim_instruction-Executes_example :
    Effects load_word (arch machine) (arch (sim_instruction machine 0).0)
    × Continues load_word (arch machine) (sim_instruction machine 0).1.next_pc
sim_instruction-Executes_example =
    sim_instruction-Executes machine 0 machine-IsMachine (omega arith) load_runs

-- The program, instruction by instruction.
last : Program stored_42 12 Status.halt stored_42
unfolding pipelined
last = Program.halts refl

third : Program added_42 8 Status.halt stored_42
unfolding pipelined ◌+ℤ◌
third =
    Program.step (record { legal = refl; no_halt = refl }) (Effects.store refl (Stores.sw refl))
      (Continues.next refl refl refl) last

second : Program loaded_21 4 Status.halt stored_42
unfolding pipelined ◌+ℤ◌
second =
    Program.step (record { legal = refl; no_halt = refl })
      (Effects.compute refl (Means.add refl refl refl)) (Continues.next refl refl refl) third

program : Program (arch (simulator memory)) 0 Status.halt stored_42
unfolding pipelined ◌+ℤ◌ simulator
program =
    Program.step (record { legal = refl; no_halt = refl }) (Effects.load refl (Loads.lw refl))
      (Continues.next refl refl refl) second

four : count program ≡ 4
unfolding program third second last
four = refl

IsRegular-program :
    (j : ℕ) → j ≤ count program → IsRegular IsCode memory (runs j (Funct.init_simulator memory))
IsRegular-program j h = regular j (omega (arith, h, four))

run_till_halt-Program_example : Program (arch (simulator memory)) 0 Status.halt (arch finished.sim)
run_till_halt-Program_example =
    run_till_halt-Program memory memory_bytes 4 Status.halt finished halted

program-run_till_halt_example :
    (f : Funct) × (Funct.run_till_halt 9 (Funct.init_simulator memory) ≡ some (Status.halt, f))
    × (arch f.sim ≡ stored_42)
program-run_till_halt_example =
    program-run_till_halt memory memory_bytes program 9 (omega (arith, four))

program-pipeline_example :
    (o : Outcome) × (run_till_halt 27 core ≡ some o)
    × (o.status ≡ Status.halt)
    × (arch o.core.sim ≡ stored_42)
program-pipeline_example =
    program-pipeline memory memory_bytes config config IsCode 27 program core_starts
      IsRegular-program (omega (arith, four))
