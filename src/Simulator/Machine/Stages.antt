-- ===== src/Simulator/Machine/Stages.antt =====
-- The five pipeline stages, one after the other, against `simInstruction`.
use ece375_project.Base.{ℕ, true, false, ◌≡◌, refl, arith, not, ◌||◌, if◌then◌else◌}
use ece375_project.Base.{Bool-cases, inl, inr}
use ece375_project.Simulator.Arith.{sim_arith_logic}
use ece375_project.Simulator.Access.{sim_addr_gen, sim_mem_access, sim_commit}
use ece375_project.Simulator.Instruction.{Instruction}
use ece375_project.Simulator.Decode.{sim_decode}
use ece375_project.Simulator.Decode.Flags.{IsRaw, IsDecoded, sim_decode-IsDecoded}
use ece375_project.Simulator.Machine.{
  Simulator, sim_fetch, number, sim_if, sim_id, sim_ex, sim_mem, sim_wb, sim_instruction,
}

-- One instruction on its way through the stages, with nothing beside it.
unfoldable pub staged : Simulator → ℕ → Simulator × Instruction
staged s pc =
    let (s1, d) = sim_id s (sim_if s pc) in let (s2, m) = sim_mem s1 (sim_ex d) in sim_wb s2 m

pub sim_fetch-IsRaw : (s : Simulator) (pc : ℕ) → IsRaw (sim_fetch pc s.memory)
unfolding sim_fetch
sim_fetch-IsRaw s pc = ground arith

-- An instruction with no flag passes the later stages untouched.
idle_ex :
    (i : Instruction) → IsDecoded i → i.writes_rd ≡ false → i.writes_mem ≡ false → sim_ex i ≡ i
unfolding sim_ex
idle_ex i d w m = ground (arith)

idle_mem :
    (s : Simulator) (i : Instruction)
    → IsDecoded i
    → i.writes_rd ≡ false
    → i.writes_mem ≡ false
    → sim_mem s i ≡ (s, i)
unfolding sim_mem
idle_mem s i d w m = ground (arith)

-- The address generation keeps the flags, so that both programs make the same accesses.
addr_gen_flags :
    (i : Instruction)
    → (sim_addr_gen i).reads_mem || (sim_addr_gen i).writes_mem ≡ i.reads_mem || i.writes_mem
unfolding sim_addr_gen
addr_gen_flags i = ground arith

-- What `simInstruction` does after the arithmetic, and what the last three stages do there.
abbrev finish : Simulator → Instruction → Simulator × Instruction
finish s1 a =
    let (s2, m) =
      if a.reads_mem || a.writes_mem
      then (let (i, mem) = sim_mem_access (sim_addr_gen a) s1.memory in
          let p : Simulator × Instruction = (record s1 { memory = mem }, i) in p)
      else (s1, a) in
    if m.writes_rd then (record s2 { registers = sim_commit m s2.registers }, m) else (s2, m)

abbrev finish_staged : Simulator → Instruction → Simulator × Instruction
finish_staged s1 a =
    let (s2, m) = sim_mem s1 (if a.reads_mem || a.writes_mem then sim_addr_gen a else a) in
    sim_wb s2 m

finish_lem : (s1 : Simulator) (a : Instruction) → finish_staged s1 a ≡ finish s1 a
unfolding sim_mem sim_wb
finish_lem s1 a = elim (Bool-cases (a.reads_mem || a.writes_mem)) [
  | inl on ↦ rw (on, sim_mem, addr_gen_flags a, on) refl
  | inr off ↦ rw (off, sim_mem, off) refl
]

number-IsDecoded : (s : Simulator) (i : Instruction) → IsDecoded i → IsDecoded (number s i).1
unfolding number
number-IsDecoded s i d = ground arith

idle_wb : (s : Simulator) (i : Instruction) → i.writes_rd ≡ false → sim_wb s i ≡ (s, i)
unfolding sim_wb
idle_wb s i w = rw w

-- An instruction that is illegal or a halt passes EX, MEM and WB untouched.
stopped :
    (s : Simulator) (d : Instruction)
    → IsDecoded d
    → not d.is_legal || d.is_halt ≡ true
    → (let (s2, m) = sim_mem s (sim_ex d) in sim_wb s2 m) ≡ (s, d)
stopped s d h stop = rw (idle_ex d h w m, idle_mem s d h w m) (idle_wb s d w)
  where
    w : d.writes_rd ≡ false
    w = ground (arith, h.illegal_idle, h.halt_idle)

    m : d.writes_mem ≡ false
    m = ground (arith, h.illegal_idle, h.halt_idle)

going :
    (s : Simulator) (r : Instruction)
    → (let (s2, m) = sim_mem s (sim_ex r) in sim_wb s2 m)
      ≡ finish s (if r.does_arith_logic then sim_arith_logic r else r)
unfolding sim_ex
going s r = finish_lem s (if r.does_arith_logic then sim_arith_logic r else r)

-- Run by itself through the five stages simIF, simID, simEX, simMEM and simWB, an instruction has
-- the effect and the result of simInstruction.
pub staged-eq-instruction : (s : Simulator) (pc : ℕ) → staged s pc ≡ sim_instruction s pc
unfolding staged sim_instruction sim_id sim_if number
staged-eq-instruction s pc =
    let d0 = sim_decode (sim_fetch pc s.memory) in
    let n = number s d0 in
    let h = number-IsDecoded s d0 (sim_decode-IsDecoded _ (sim_fetch-IsRaw s pc)) in
    elim (Bool-cases (not n.1.is_legal || n.1.is_halt)) [
      | inl stop ↦ rw (stop) (stopped n.0 n.1 h stop)
      | inr go ↦ rw go (going n.0 _)
    ]
