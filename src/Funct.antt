-- ===== src/Funct.antt =====
-- src/funct.cpp: the functional simulator.
pub mod Runs
use ece375_project.Base.{ℕ, zero, suc, ◌+◌, ltb, ◌||◌, ◌==◌, true, false, not}
use ece375_project.Base.{Option, none, some, if◌then◌else◌, List}
use ece375_project.Word.{u64}
use ece375_project.Utilities.Codes.{Status}
use ece375_project.MemoryStore.{MemoryStore}
use ece375_project.Simulator.Instruction.{Instruction}
use ece375_project.Simulator.Machine.{Simulator, simulator, sim_instruction}

-- The static variables of the file.
pub record Funct : Type 0 where
  pub sim : Simulator
  pub pc : ℕ

unfoldable pub init_simulator : MemoryStore → Funct
init_simulator memory = record { sim = simulator memory; pc = 0 }

-- One round of the loop of `runInstructions`: the new state, and the instruction that ran.
unfoldable pub run_one : Funct → Funct × Instruction
run_one c =
    let (s, inst) = sim_instruction c.sim c.pc in (record { sim = s; pc = inst.next_pc }, inst)

-- The loop, with the count of instructions run so far; `none` means that the fuel ran out.
unfoldable pub run_loop : ℕ → ℕ → ℕ → Funct → Option (Status × Funct)
run_loop zero instructions num_instructions c = none
run_loop (suc fuel) instructions num_instructions c =
    let (c', inst) = run_one c in
    let rest = run_loop fuel instructions (u64 (num_instructions + 1)) c' in
    if instructions == 0 || ltb num_instructions instructions
    then (if inst.is_halt
        then some (Status.halt, c')
        else if not inst.is_legal
        then some (Status.error, c')
        else rest)
    else some (Status.success, c)

unfoldable pub run_instructions : ℕ → ℕ → Funct → Option (Status × Funct)
run_instructions fuel instructions c = run_loop fuel instructions 0 c

-- `while (true)` around `runInstructions(1)`, which takes two rounds at most.
unfoldable pub run_till_halt : ℕ → Funct → Option (Status × Funct)
run_till_halt zero c = none
run_till_halt (suc fuel) c = elim (run_instructions 2 1 c) [
  | none ↦ none
  | some (status, c') ↦ elim status [
    | Status.success ↦ run_till_halt fuel c'
    | Status.error ↦ some (Status.error, c')
    | Status.halt ↦ some (Status.halt, c')
  ]
]
