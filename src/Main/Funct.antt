-- ===== src/Main/Funct.antt =====
-- src/sim_funct.cpp, with `finalizeSimulator` of src/funct.cpp.
use Prim.Native.String.{String, ◌++◌}
use ece375_project.Base.{List, ◌∷◌, Option, none, some}
use ece375_project.Streams.{Reader, Files}
use ece375_project.Utilities.Codes.{Status}
use ece375_project.Funct.{Funct, init_simulator, run_till_halt}
use ece375_project.Cycle.Run.{SimulationStats}
use ece375_project.Main.Arguments.{get_base_filename}
use ece375_project.Main.Report.{Ended, Fuel, with_memory, finalize}

-- `SimulationStats stats{simulator->getDin(), 0}`.
unfoldable pub finalize_stats : Funct → SimulationStats
finalize_stats c = record {
  dynamic_instructions = c.sim.din;
  total_cycles = 0;
  ic_hits = 0;
  ic_misses = 0;
  dc_hits = 0;
  dc_misses = 0;
  load_use_stalls = 0;
}

module _ {S : Type 0} (r : Reader S) (files : Files S) (fuel : Fuel) where
  -- `none` means that some fuel ran out.
  unfoldable pub main : List String → Option Ended
  main (program ∷ input_file ∷ rest) = with_memory r files fuel input_file (λ m.
      elim (run_till_halt fuel.run (init_simulator m)) [
        | none ↦ none
        | some (status, c) ↦
            finalize r files fuel status c.sim (finalize_stats c)
              (get_base_filename input_file ++ "_funct")
      ])
  main args = some (Ended.stopped Status.error)
