-- ===== src/Cycle/Run.antt =====
-- The loops of src/cycle.cpp around a cycle, and the statistics at the end.
pub mod Loops
pub mod Dump
use ece375_project.Base.{ℕ, zero, suc, ◌+◌, ◌||◌, ltb, ◌==◌, if◌then◌else◌, Option, none, some}
use ece375_project.Word.{u64}
use ece375_project.Utilities.Codes.{Status, StageStatus}
use ece375_project.Cycle.Step.{Core, step}

-- `struct PipeState`, what `dumpPipeState` is given at the end of `runCycles`.
pub record PipeState : Type 0 where
  pub cycle : ℕ
  pub if_status : StageStatus
  pub if_pc : ℕ
  pub id_status : StageStatus
  pub id_instr : ℕ
  pub ex_status : StageStatus
  pub ex_instr : ℕ
  pub mem_status : StageStatus
  pub mem_instr : ℕ
  pub wb_status : StageStatus
  pub wb_instr : ℕ

unfoldable pub pipe_state : ℕ → Core → PipeState
pipe_state cycle c = record {
  cycle = cycle;
  if_status = c.if_inst.status;
  if_pc = c.if_inst.pc;
  id_status = c.id_inst.status;
  id_instr = c.id_inst.instruction;
  ex_status = c.ex_inst.status;
  ex_instr = c.ex_inst.instruction;
  mem_status = c.mem_inst.status;
  mem_instr = c.mem_inst.instruction;
  wb_status = c.wb_inst.status;
  wb_instr = c.wb_inst.instruction;
}

pub record Outcome : Type 0 where
  pub status : Status
  pub pipe : PipeState
  pub core : Core

-- The loop: `cycle` is what `pipeState.cycle` holds; `none` means that the fuel ran out.
unfoldable pub cycle_loop : ℕ → ℕ → ℕ → ℕ → Core → Option Outcome
cycle_loop zero cycles count cycle c = none
cycle_loop (suc fuel) cycles count cycle c =
    let (c', status) = step c in
    let rest = cycle_loop fuel cycles (u64 (count + 1)) c.cycle_count c' in
    if cycles == 0 || ltb count cycles
    then (elim status [
      | Status.halt ↦
          some (record { status = Status.halt; pipe = pipe_state c.cycle_count c'; core = c' })
      | _ ↦ rest
    ])
    else some (record { status = Status.success; pipe = pipe_state cycle c; core = c })

unfoldable pub run_cycles : ℕ → ℕ → Core → Option Outcome
run_cycles fuel cycles c = cycle_loop fuel cycles 0 0 c

-- `while (true)` around `runCycles(1)`, which takes two rounds at most.
unfoldable pub run_till_halt : ℕ → Core → Option Outcome
run_till_halt zero c = none
run_till_halt (suc fuel) c = elim (run_cycles 2 1 c) [
  | none ↦ none
  | some r ↦ elim r.status [ Status.halt ↦ some r | _ ↦ run_till_halt fuel r.core ]
]

-- `struct SimulationStats`, and what `finalizeSimulator` fills in; both caches exist once
-- `initSimulator` was called.
pub record SimulationStats : Type 0 where
  pub dynamic_instructions : ℕ
  pub total_cycles : ℕ
  pub ic_hits : ℕ
  pub ic_misses : ℕ
  pub dc_hits : ℕ
  pub dc_misses : ℕ
  pub load_use_stalls : ℕ

unfoldable pub finalize_stats : Core → SimulationStats
finalize_stats c = record {
  dynamic_instructions = c.sim.din;
  total_cycles = c.cycle_count;
  ic_hits = c.i_cache.hits;
  ic_misses = c.i_cache.misses;
  dc_hits = c.d_cache.hits;
  dc_misses = c.d_cache.misses;
  load_use_stalls = 0;
}
