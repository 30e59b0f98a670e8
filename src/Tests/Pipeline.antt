-- ===== src/Tests/Pipeline.antt =====
-- The theorems on the pipeline at concrete states.
use ece375_project.Base.{ℕ, ◌≡◌, refl, arith, some, List, replicate}
use ece375_project.Simulator.Resolve.{read_reg}
use ece375_project.Cache.{create, compute_geometry, built, log2u64, log2_loop}
use ece375_project.Simulator.Machine.{simulator}
use ece375_project.Cycle.Forward.{forward}
use ece375_project.Cycle.Forward.Commits.{commit, forward-eq-commits}
use ece375_project.Cycle.Step.{init_simulator}
use ece375_project.Cycle.Run.{run_cycles}
use ece375_project.Cycle.Run.Loops.{Gives, cycles, run_cycles-Gives}
use ece375_project.MemoryStore.{MemoryStore}
use ece375_project.Base.{[], ◌∷◌}
use ece375_project.Cycle.Step.{Core}
use ece375_project.Tests.Samples.{machine, memory, config, core, producer}

abbrev registers : List ℕ
registers = replicate 32 0

forward-eq-commits_example :
    forward (producer 4 11) (producer 3 12) (producer 3 13) 3 (read_reg registers 3)
    ≡ read_reg
        (commit (producer 4 11) (commit (producer 3 12) (commit (producer 3 13) registers)))
        3
forward-eq-commits_example =
    forward-eq-commits (producer 4 11) (producer 3 12) (producer 3 13) registers 3 (omega arith)
      (omega arith)

pub core_starts : init_simulator config config memory ≡ some core
unfolding init_simulator create compute_geometry built log2u64 log2_loop simulator
core_starts = refl

-- `lw x1, 16(x0)`, `lw x2, 0(x1)` and `beq x2, x0, 8`: a stall for the second load, and then two
-- cycles in which the branch waits for it.
abbrev chained : MemoryStore
chained = record {
  start_addr = 0;
  mem_arr =
      0x83 ∷ 0x20 ∷ 0x00 ∷ 0x01 ∷ 0x03 ∷ 0xA1 ∷ 0x00 ∷ 0x00 ∷ 0x63 ∷ 0x04 ∷ 0x01 ∷ 0x00 ∷ 0xED
      ∷ 0xFE ∷ 0xED ∷ 0xFE ∷ 0 ∷ 0 ∷ 0 ∷ 0 ∷ 0 ∷ 0 ∷ 0 ∷ 0 ∷ [];
}

abbrev chain : Core
chain = record core { sim = record machine { memory = chained } }

run_cycles-Gives_example : Gives (run_cycles 6 5 core) (cycles 5 core).0 (cycles 5 core).1
run_cycles-Gives_example = run_cycles-Gives 6 5 core (omega arith) (omega arith) (omega arith)
