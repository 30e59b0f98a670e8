-- ===== src/Main/Cycle.antt =====
-- `main` of src/sim_cycle.cpp, with `finalizeSimulator` of src/cycle.cpp.
use Prim.Native.String.{String, ◌++◌}
use ece375_project.Base.{List, Option, none, some}
use ece375_project.Streams.{Reader, Files}
use ece375_project.Utilities.Codes.{Status}
use ece375_project.Cycle.Step.{init_simulator}
use ece375_project.Cycle.Run.{run_till_halt, finalize_stats}
use ece375_project.Main.Arguments.{get_base_filename, parse_args}
use ece375_project.Main.Report.{Ended, Fuel, with_memory, finalize}

module _ {S : Type 0} (r : Reader S) (files : Files S) (fuel : Fuel) where
  -- `none` means that some fuel ran out.
  unfoldable pub main : List String → Option Ended
  main args = elim (parse_args r files args) [
    | none ↦ some (Ended.stopped Status.error)
    | some (input_file, ic_config, dc_config) ↦ with_memory r files fuel input_file (λ m.
        elim (init_simulator ic_config dc_config m) [
          | none ↦ some Ended.undefined
          | some c ↦ elim (run_till_halt fuel.run c) [
            | none ↦ none
            | some o ↦
                finalize r files fuel o.status o.core.sim (finalize_stats o.core)
                  (get_base_filename input_file ++ "_cycle")
          ]
        ])
  ]
