-- ===== src/Tests/Programs.antt =====
-- The whole program, through the functional simulator and through the pipeline.
use ece375_project.Base.{ℕ, ◌≡◌, refl, some, true, false, not, ◌||◌, get_or}
use ece375_project.Utilities.Codes.{Status}
use ece375_project.MemoryStore.{
  read_bytes, write_bytes, get_or_set_value, get_mem_value, set_mem_value,
}
use ece375_project.Utilities.Bits.{extract_bits, sext32, sext64}
use ece375_project.Simulator.Decode.{
  decode_fields, legal_int, legal_load, legal_store, mark_register, mark_load, mark_store, classify,
  sim_decode,
}
use ece375_project.Simulator.Resolve.{sim_operand_collection, resolved_pc, sim_next_pc_resolution}
use ece375_project.Simulator.Arith.{mask_shift, result_int, arith_value, sim_arith_logic}
use ece375_project.Simulator.Access.{
  sim_addr_gen, access_size, load_result, sim_mem_access, written_value, sim_commit,
}
use ece375_project.Simulator.Machine.{
  simulator, sim_fetch, sim_if, number, sim_id, sim_ex, sim_mem, sim_wb, sim_instruction, Simulator,
}
use ece375_project.Funct.{init_simulator, run_one, run_loop, run_instructions, run_till_halt}
use ece375_project.Funct.Runs.{steps}
use ece375_project.Cycle.Forward.{
  nop, hazard, forward, forward_operands, forward_store, resolves_in_id, load_use, arith_branch,
  load_branch, must_wait,
}
use ece375_project.Cycle.Step.{
  must_stall, marked, step_wb, step_mem, step_ex, resolve_branch, step_if, advance, step_id_if,
  step,
}
use ece375_project.Cycle.Step.Reach.{after}
use ece375_project.Cycle.Run.{
  finalize_stats, pipe_state, cycle_loop, run_cycles, run_till_halt as run_pipeline,
}
use ece375_project.Cycle.Run.Loops.{cycles}
use ece375_project.Tests.Samples.{memory, machine, funct, core, halting}

unfoldable pub functional : Unit {0}
unfolding steps run_one sim_instruction sim_fetch get_mem_value get_or_set_value read_bytes
    sim_decode decode_fields classify extract_bits legal_int legal_load legal_store mark_register
    mark_load mark_store number sim_operand_collection sim_next_pc_resolution resolved_pc
    sim_arith_logic arith_value result_int sim_addr_gen sim_mem_access access_size load_result
    sim_commit written_value set_mem_value write_bytes sext64 sext32 mask_shift run_till_halt
    run_instructions run_loop
functional = tt

unfoldable pub pipelined : Unit {0}
unfolding functional nop hazard forward forward_operands forward_store resolves_in_id load_use
    arith_branch load_branch must_wait must_stall marked step_wb step_mem step_ex resolve_branch
    step_if advance step_id_if step after cycles sim_if sim_id sim_ex sim_mem sim_wb pipe_state
    cycle_loop run_cycles run_pipeline
pipelined = tt

-- Register 2 and the word at address 20, the status, and the count of instructions.
abbrev result : Status → Simulator → Status × ℕ × ℕ × ℕ
result status s = (status, get_or s.registers 2 0, get_or s.memory.mem_arr 20 0, s.din)

pub funct_stops : (steps 4 funct).0 ≡ Status.halt
unfolding functional
funct_stops = refl

funct-result : result (steps 4 funct).0 (steps 4 funct).1.sim ≡ (Status.halt, 42, 42, 4)
unfolding functional
funct-result = refl

pub core_stalls : must_stall (after 3 core) ≡ true
unfolding pipelined
core_stalls = refl

-- The nop that the pipeline starts with is counted as well, and the one stalled cycle takes no
-- number.
core_result : result (cycles 10 core).0 (cycles 10 core).1.sim ≡ (Status.halt, 42, 42, 8)
unfolding pipelined
core_result = refl

pub ran : run_instructions 9 1 funct ≡ some (Status.success, (steps 1 funct).1)
unfolding functional
ran = refl

-- The halt word in IF: nothing stalls, and the decoder knows it.
pub core_goes : (must_stall core ≡ false) × (must_stall halting ≡ false)
unfolding pipelined
core_goes = (refl, refl)

-- The word at address 12 is the halt word.
pub stopped_word :
    not (sim_decode (sim_fetch 12 machine.memory)).is_legal
      || (sim_decode (sim_fetch 12 machine.memory)).is_halt
    ≡ true
unfolding functional
stopped_word = refl

-- The number that `finalizeSimulator` reports for the instructions of the program, bubbles
-- included.
core_stats : (finalize_stats (after 9 core)).dynamic_instructions ≡ 8
unfolding pipelined finalize_stats
core_stats = refl

starts : init_simulator memory ≡ funct
unfolding init_simulator simulator
starts = refl
