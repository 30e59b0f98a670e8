-- ===== src/Simulator/Machine.antt =====
-- The class `Simulator` of src/simulator.cpp: the stage functions and `simInstruction`.
pub mod Stages
pub mod Bounds
pub mod Safety
use ece375_project.Base.{ℕ, ◌+◌, ◌||◌, not, List, replicate, if◌then◌else◌}
use ece375_project.Word.{u32, u64}
use ece375_project.MemoryStore.{MemoryStore, word_size, get_mem_value}
use ece375_project.Simulator.Instruction.{Instruction, blank}
use ece375_project.Simulator.Decode.{sim_decode}
use ece375_project.Simulator.Resolve.{sim_operand_collection, sim_next_pc_resolution}
use ece375_project.Simulator.Arith.{sim_arith_logic}
use ece375_project.Simulator.Access.{sim_addr_gen, sim_mem_access, sim_commit}

-- The members of the class; `memory` is never null once `setMemory` was called.
pub record Simulator : Type 0 where
  pub registers : List ℕ
  pub memory : MemoryStore
  pub din : ℕ

-- The constructor followed by `setMemory`.
unfoldable pub simulator : MemoryStore → Simulator
simulator memory = record { registers = replicate 32 0; memory = memory; din = 0 }

unfoldable pub sim_fetch : ℕ → MemoryStore → Instruction
sim_fetch pc memory = record blank {
  pc = pc;
  instruction = u32 (get_mem_value memory pc 0 word_size).value;
}

unfoldable pub sim_if : Simulator → ℕ → Instruction
sim_if s pc = sim_fetch pc s.memory

-- `inst.instructionID = din++`.
unfoldable pub number : Simulator → Instruction → Simulator × Instruction
number s inst = (record s { din = u64 (s.din + 1) }, record inst { instruction_id = s.din })

unfoldable pub sim_id : Simulator → Instruction → Simulator × Instruction
sim_id s inst =
    let (s', d) = number s (sim_decode inst) in
    if not d.is_legal || d.is_halt
    then (s', d)
    else (s', sim_next_pc_resolution (sim_operand_collection d s.registers))

unfoldable pub sim_ex : Instruction → Instruction
sim_ex inst =
    let a = if inst.does_arith_logic then sim_arith_logic inst else inst in
    if a.reads_mem || a.writes_mem then sim_addr_gen a else a

unfoldable pub sim_mem : Simulator → Instruction → Simulator × Instruction
sim_mem s inst =
    if inst.reads_mem || inst.writes_mem
    then (let (i, m) = sim_mem_access inst s.memory in (record s { memory = m }, i))
    else (s, inst)

unfoldable pub sim_wb : Simulator → Instruction → Simulator × Instruction
sim_wb s inst =
    if inst.writes_rd
    then (record s { registers = sim_commit inst s.registers }, inst)
    else (s, inst)

-- The whole instruction, as the functional simulator runs it.
unfoldable pub sim_instruction : Simulator → ℕ → Simulator × Instruction
sim_instruction s pc =
    let (s1, d) = number s (sim_decode (sim_fetch pc s.memory)) in
    if not d.is_legal || d.is_halt
    then (s1, d)
    else (let r = sim_next_pc_resolution (sim_operand_collection d s1.registers) in
        let a = if r.does_arith_logic then sim_arith_logic r else r in
        let (s2, m) =
          if a.reads_mem || a.writes_mem
          then (let (i, mem) = sim_mem_access (sim_addr_gen a) s1.memory in
              let p : Simulator × Instruction = (record s1 { memory = mem }, i) in p)
          else (s1, a) in
        if m.writes_rd then (record s2 { registers = sim_commit m s2.registers }, m) else (s2, m))
