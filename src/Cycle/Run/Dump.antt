-- ===== src/Cycle/Run/Dump.antt =====
-- `dumpPipeState` and `dumpSimStats` of src/Utilities.cpp. Whether the file can be opened is a
-- parameter, and what is written to it is a list of fields.
use Prim.Native.String.{String}
use ece375_project.Base.{ℕ, Bool, List, [], ◌∷◌, ◌++◌, if◌then◌else◌}
use ece375_project.Word.{u32}
use ece375_project.Utilities.Codes.{Status}
use ece375_project.Utilities.Print.{Operand, print_instr, print_if_pc}
use ece375_project.Cycle.Run.{PipeState, SimulationStats}

-- The operands of `<<`, and a text behind `std::setw`.
pub data Field : Type 0 where
  plain : Operand → Field
  padded : ℕ → List Operand → Field

abbrev bar : Field
bar = Field.plain (Operand.word "|")

unfoldable pub dump_pipe_state : Bool → PipeState → Status × List Field
dump_pipe_state opened state =
    if opened
    then (
      Status.success,
      Field.plain (Operand.word "Cycle: ")
          ∷ Field.padded 8 (Operand.unsigned state.cycle ∷ [])
          ∷ Field.plain (Operand.word "\t|")
          ∷ bar
          ∷ Field.padded 25 (print_if_pc state.if_pc state.if_status)
          ∷ bar
          ∷ Field.padded 25 (print_instr (u32 state.id_instr) state.id_status)
          ∷ bar
          ∷ Field.padded 25 (print_instr (u32 state.ex_instr) state.ex_status)
          ∷ bar
          ∷ Field.padded 25 (print_instr (u32 state.mem_instr) state.mem_status)
          ∷ bar
          ∷ Field.padded 25 (print_instr (u32 state.wb_instr) state.wb_status)
          ∷ Field.plain (Operand.word "|\n")
          ∷ [],
    )
    else (Status.error, [])

-- One line: a label of 23 columns and a number.
abbrev labelled : String → ℕ → List Field
labelled label n =
    Field.padded 23 (Operand.word label ∷ [])
    ∷ Field.plain (Operand.unsigned n)
    ∷ Field.plain (Operand.word "\n")
    ∷ []

unfoldable pub dump_sim_stats : Bool → SimulationStats → Status × List Field
dump_sim_stats opened stats =
    if opened
    then (
      Status.success,
      labelled "Dynamic instructions: " stats.dynamic_instructions
          ++ (labelled "Total cycles: " stats.total_cycles
              ++ (labelled "I-cache hits: " stats.ic_hits
                  ++ (labelled "I-cache misses: " stats.ic_misses
                      ++ (labelled "D-cache hits: " stats.dc_hits
                          ++ (labelled "D-cache misses: " stats.dc_misses
                              ++ labelled "Load-use stalls: " stats.load_use_stalls))))),
    )
    else (Status.error, [])
