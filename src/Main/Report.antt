-- ===== src/Main/Report.antt =====
-- How the programs end, and the files that `finalizeSimulator` leaves.
use Prim.Native.String.{String, ◌++◌}
use ece375_project.Base.{ℕ, List, Option, none, some}
use ece375_project.Streams.{Reader, Files}
use ece375_project.Utilities.Codes.{Status}
use ece375_project.MemoryStore.{MemoryStore}
use ece375_project.MemoryStore.Prepare.{Made, create_from_file}
use ece375_project.MemoryStore.Dump.{MemLine, dump_memory_state}
use ece375_project.Simulator.Machine.{Simulator}
use ece375_project.Simulator.Registers.{DumpLine, register_info, dump_register_state}
use ece375_project.Cycle.Run.{SimulationStats}
use ece375_project.Cycle.Run.Dump.{Field, dump_sim_stats}

-- The status that `main` returns, and the three files.
pub record Report : Type 0 where
  pub status : Status
  pub registers : Status × List DumpLine
  pub memory : List MemLine
  pub stats : Status × List Field

-- `exit` or `return` before the simulation, a failed assertion, undefined behaviour, or the end.
pub data Ended : Type 0 where
  stopped : Status → Ended
  aborted undefined : Ended
  ran : Report → Ended

-- Fuel for the loops: over the image, of the simulation, and over the rows of the dump.
pub record Fuel : Type 0 where
  pub image : ℕ
  pub run : ℕ
  pub rows : ℕ

-- `MEMORY_SIZE`.
abbrev pub memory_size : ℕ
memory_size = 0x10000

module _ {S : Type 0} (r : Reader S) (files : Files S) (fuel : Fuel) where
  -- `new MemoryStore(0, MEMORY_SIZE, input)`, and what goes on with it.
  unfoldable pub with_memory : String → (MemoryStore → Option Ended) → Option Ended
  with_memory input go =
      elim (create_from_file r fuel.image (files.text "init_mem_image") (files.bytes input) 0
        memory_size) [
          | none ↦ none
          | some result ↦ elim result [ Made.aborted ↦ some Ended.aborted | Made.made m ↦ go m ]
        ]

  -- `Simulator::dumpRegMem`, whose codes are not looked at.
  unfoldable pub dump_reg_mem :
      Simulator → String → Option ((Status × List DumpLine) × List MemLine)
  dump_reg_mem sim output =
      elim (dump_memory_state r fuel.rows (files.text "print_mem_range")
        (files.writable (output ++ "_mem_state.out")) sim.memory) [
          | none ↦ none
          | some lines ↦ some (
            dump_register_state (files.writable (output ++ "_reg_state.out"))
                (register_info sim.registers),
            lines,
          )
        ]

  -- `finalizeSimulator` with its statistics, and the status that `main` returns.
  unfoldable pub finalize : Status → Simulator → SimulationStats → String → Option Ended
  finalize status sim stats output = elim (dump_reg_mem sim output) [
    | none ↦ none
    | some (registers, lines) ↦ some (
        Ended.ran (record {
          status = status;
          registers = registers;
          memory = lines;
          stats = dump_sim_stats (files.writable (output ++ "_sim_stats.out")) stats;
        }))
  ]
