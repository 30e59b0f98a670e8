-- ===== src/Main/Agree.antt =====
-- The two programs on the same file.
use Prim.Native.String.{String, ◌++◌}
use ece375_project.Base.{ℕ, ◌+◌, ◌*◌, ◌≤◌, ◌≡◌, refl, ap, sym, ◌∙◌, true, inl, inr}
use ece375_project.Base.{List, ◌∷◌, Option, none, some, Option-cases}
use ece375_project.Streams.{Reader, Files}
use ece375_project.Utilities.Codes.{Status}
use ece375_project.MemoryStore.{MemoryStore}
use ece375_project.MemoryStore.Prepare.{Made, create_from_file}
use ece375_project.MemoryStore.Dump.{MemLine, dump_memory_state}
use ece375_project.Simulator.Registers.{register_info, dump_register_state}
use ece375_project.Cycle.Run.Dump.{dump_sim_stats}
use ece375_project.Simulator.Machine.{Simulator}
use ece375_project.Cache.{CacheConfig}
use ece375_project.Cycle.Step.{Core, init_simulator}
use ece375_project.Cycle.Run
use ece375_project.Cycle.Run.{SimulationStats, Outcome}
use ece375_project.Cycle.Refine.Steps.{IsRegular}
use ece375_project.Cycle.Refine.Matches.{runs}
use ece375_project.Cycle.Refine.Starts.{run_till_halt-matches}
use ece375_project.Funct
use ece375_project.Main.Arguments.{get_base_filename, parse_args}
use ece375_project.Main.Report.{
  Report, Ended, Fuel, memory_size, with_memory, dump_reg_mem, finalize,
}
use ece375_project.Main.Funct.{finalize_stats}
use ece375_project.Main.Funct as SimFunct
use ece375_project.Main.Cycle as SimCycle

module _ {S : Type 0} (r : Reader S) (files : Files S)
    (writes : (name : String) → files.writable name ≡ true) where
  -- What is dumped, where every file opens.
  abbrev full_report : Status → Simulator → SimulationStats → List MemLine → Report
  full_report status sim stats lines = record {
    status = status;
    registers = dump_register_state true (register_info sim.registers);
    memory = lines;
    stats = dump_sim_stats true stats;
  }

  abbrev dumped : ℕ → MemoryStore → Option (List MemLine)
  dumped rows m = dump_memory_state r rows (files.text "print_mem_range") true m

  finalize-eq :
      (fuel : Fuel) (status : Status) (sim : Simulator) (stats : SimulationStats) (output : String)
      {lines : List MemLine}
      → dumped fuel.rows sim.memory ≡ some lines
      → finalize r files fuel status sim stats output
        ≡ some (Ended.ran (full_report status sim stats lines))
  unfolding finalize dump_reg_mem
  finalize-eq fuel status sim stats output e = rw (
    finalize,
    dump_reg_mem,
    writes (output ++ "_mem_state.out"),
    e,
    writes (output ++ "_reg_state.out"),
    writes (output ++ "_sim_stats.out"),
  )

  finalize-ran :
      (fuel : Fuel) (status : Status) (sim : Simulator) (stats : SimulationStats) (output : String)
      {rep : Report}
      → finalize r files fuel status sim stats output ≡ some (Ended.ran rep)
      → (lines : List MemLine) × (dumped fuel.rows sim.memory ≡ some lines)
        × (full_report status sim stats lines ≡ rep)
  finalize-ran fuel status sim stats output {rep} h =
      elim (Option-cases (dumped fuel.rows sim.memory)) [
        | inl e ↦ absurd (cc (h, finalize-none e))
        | inr (lines, e) ↦ (lines, e, cc (h, finalize-eq fuel status sim stats output e))
      ]
    where
      finalize-none :
          dumped fuel.rows sim.memory ≡ none → finalize r files fuel status sim stats output ≡ none
      finalize-none e =
          unfold finalize dump_reg_mem in
          rw (finalize, dump_reg_mem, writes (output ++ "_mem_state.out"), e)

  -- What the functional simulator's program has done, where it ends with a report.
  record IsRun (fuel : Fuel) (input : String) (m : MemoryStore) (rep : Report) : Type 0 where
    f : Funct.Funct
    stopped : Funct.run_till_halt fuel.run (Funct.init_simulator m) ≡ some (rep.status, f)
    its_lines : dumped fuel.rows f.sim.memory ≡ some rep.memory
    its_registers : rep.registers ≡ dump_register_state true (register_info f.sim.registers)

  abbrev Loads : Fuel → String → MemoryStore → Type 0
  Loads fuel input m =
      create_from_file r fuel.image (files.text "init_mem_image") (files.bytes input) 0 memory_size
      ≡ some (Made.made m)

  with_memory-eq :
      (fuel : Fuel) (input : String) (m : MemoryStore) (go : MemoryStore → Option Ended)
      → Loads fuel input m
      → with_memory r files fuel input go ≡ go m
  unfolding with_memory
  with_memory-eq fuel input m go e = rw (with_memory, e)

  main-none :
      (fuel : Fuel) (program input : String) (rest : List String) (m : MemoryStore)
      → Loads fuel input m
      → Funct.run_till_halt fuel.run (Funct.init_simulator m) ≡ none
      → SimFunct.main r files fuel (program ∷ input ∷ rest) ≡ none
  unfolding SimFunct.main
  main-none fuel program input rest m loads e = with_memory-eq fuel input m _ loads ∙ rw e

  main-some :
      (fuel : Fuel) (program input : String) (rest : List String) (m : MemoryStore)
      (status : Status) (f : Funct.Funct)
      → Loads fuel input m
      → Funct.run_till_halt fuel.run (Funct.init_simulator m) ≡ some (status, f)
      → SimFunct.main r files fuel (program ∷ input ∷ rest)
        ≡ finalize r files fuel status f.sim
            (finalize_stats f)
            (get_base_filename input ++ "_funct")
  unfolding SimFunct.main
  main-some fuel program input rest m status f loads e = with_memory-eq fuel input m _ loads ∙ rw e

  main-IsRun :
      (fuel : Fuel) (program input : String) (rest : List String) (m : MemoryStore) {rep : Report}
      → Loads fuel input m
      → SimFunct.main r files fuel (program ∷ input ∷ rest) ≡ some (Ended.ran rep)
      → IsRun fuel input m rep
  main-IsRun fuel program input rest m {rep} loads h =
      elim (Option-cases (Funct.run_till_halt fuel.run (Funct.init_simulator m))) [
        | inl e ↦ absurd (cc (h, main-none fuel program input rest m loads e))
        | inr ((status, f), e) ↦
            let (lines, its, same) =
              finalize-ran fuel status f.sim _ _
                (sym (main-some fuel program input rest m status f loads e) ∙ h) in
            record {
              f = f;
              stopped = e ∙ cc same;
              its_lines = its ∙ cc same;
              its_registers = cc same;
            }
      ]

  cycle_main-some :
      (fuel : Fuel) (args : List String) (input : String) (ic dc : CacheConfig) (m : MemoryStore)
      (c : Core) (o : Outcome)
      → parse_args r files args ≡ some (input, ic, dc)
      → Loads fuel input m
      → init_simulator ic dc m ≡ some c
      → Run.run_till_halt fuel.run c ≡ some o
      → SimCycle.main r files fuel args
        ≡ finalize r files fuel o.status o.core.sim
            (Run.finalize_stats o.core)
            (get_base_filename input ++ "_cycle")
  unfolding SimCycle.main
  cycle_main-some fuel args input ic dc m c o parsed loads made e =
      rw (SimCycle.main, parsed) (with_memory-eq fuel input m _ loads ∙ rw (made, e))

  -- Where the program of the functional simulator, called with a file, ends with a report whose
  -- status is HALT, that of the pipeline, called with a cache configuration too from which both
  -- caches can be made, ends with a report where the fuel of its simulation is 5 n + 7 or more,
  -- for n the fuel of the other, and the rest of the fuel is the same: its status is HALT, and
  -- the dumps of the registers and of the memory are equal to the other's; provided that the
  -- memory is loaded without a failed assertion or an exception, that every file can be written,
  -- that at the first n instructions and after them the PC lies in a set of addresses whose
  -- words are those at the start, the PC plus 4 is not 0 modulo 2 ^ 64, and no word at the PC is
  -- illegal with the opcode of branches or jalr.
  pub mains_agree :
      (fuel : Fuel) (more : ℕ) (program input : String) (rest args : List String)
      (ic dc : CacheConfig) (m : MemoryStore) (code : ℕ → Type 0) {c : Core} {rep : Report}
      → parse_args r files args ≡ some (input, ic, dc)
      → create_from_file r fuel.image
          (files.text "init_mem_image")
          (files.bytes input)
          0
          memory_size
        ≡ some (Made.made m)
      → init_simulator ic dc m ≡ some c
      → SimFunct.main r files fuel (program ∷ input ∷ rest) ≡ some (Ended.ran rep)
      → rep.status ≡ Status.halt
      → ((j : ℕ) → j ≤ fuel.run → IsRegular code m (runs j (Funct.init_simulator m)))
      → 5 * fuel.run + 7 ≤ more
      → (rep' : Report) × (SimCycle.main r files (record fuel { run = more }) args
          ≡ some (Ended.ran rep'))
        × (rep'.status ≡ Status.halt)
        × (rep'.registers ≡ rep.registers)
        × (rep'.memory ≡ rep.memory)
  mains_agree fuel more program input rest args ic dc m code {c} {rep} parsed loads made h halt reg
        enough =
      let t = main-IsRun fuel program input rest m loads h in
      let ran = t.stopped ∙ ap (λ (st : Status). some (st, t.f)) halt in
      let (o, ends, halts, registers, memory) =
        run_till_halt-matches ic dc m code fuel.run more t.f made ran reg enough in
      let lines = ap (dumped fuel.rows) memory ∙ t.its_lines in
      (
        full_report o.status o.core.sim (Run.finalize_stats o.core) rep.memory,
        cycle_main-some (record fuel { run = more }) args input ic dc m c o parsed loads made ends
            ∙ finalize-eq (record fuel { run = more }) o.status o.core.sim _ _ lines,
        halts,
        ap (λ (l : List ℕ). dump_register_state true (register_info l)) registers
            ∙ sym t.its_registers,
        refl,
      )
