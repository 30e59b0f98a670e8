-- ===== src/Simulator/Machine/Safety.antt =====
-- `simInstruction` and the shape of the machine, and what it does on a word that it cannot run.
use mathlib.Core.Path.{subst}
use ece375_project.Base.{ℕ, true, ◌≡◌, refl, ap, ◌+◌, not, ◌||◌}
use ece375_project.Word.{u64}
use ece375_project.Simulator.Instruction.{Instruction}
use ece375_project.Simulator.Decode.{decode_fields, sim_decode}
use ece375_project.Simulator.Decode.Flags.{sim_decode-Agrees, Fields}
use ece375_project.Simulator.Machine.{
  Simulator, sim_fetch, sim_if, number, sim_id, sim_ex, sim_mem, sim_instruction,
}
use ece375_project.Simulator.Machine.Stages.{staged, staged-eq-instruction}
use ece375_project.Simulator.Machine.Bounds.{
  IsMachine, IsBounded, zero-IsWord, sim_id-IsBounded, sim_ex-IsBounded, sim_mem-IsBounded,
  sim_wb-IsMachine,
}

pub fetch-IsBounded : (s : Simulator) (pc : ℕ) → IsBounded (sim_if s pc)
unfolding sim_if sim_fetch
fetch-IsBounded s pc = record {
  op1 = zero-IsWord;
  op2 = zero-IsWord;
  result = zero-IsWord;
  loaded = zero-IsWord;
}

staged-IsMachine :
    {size : ℕ} (s : Simulator) (pc : ℕ) → IsMachine size s → IsMachine size (staged s pc).0
unfolding staged
staged-IsMachine s pc h =
    let (b, m) = sim_id-IsBounded s h (sim_if s pc) (fetch-IsBounded s pc) in
    let d = (sim_id s (sim_if s pc)).1 in
    let s1 = (sim_id s (sim_if s pc)).0 in
    let (b', m') = sim_mem-IsBounded s1 m (sim_ex d) (sim_ex-IsBounded d b) in
    sim_wb-IsMachine (sim_mem s1 (sim_ex d)).0 m' (sim_mem s1 (sim_ex d)).1 b'

-- From a machine with 32 registers of 64 bits and a memory of bytes, simInstruction at any PC
-- leads to a machine with 32 registers of 64 bits and a memory of as many bytes.
pub sim_instruction-IsMachine :
    {size : ℕ} (s : Simulator) (pc : ℕ) → IsMachine size s → IsMachine size (sim_instruction s pc).0
sim_instruction-IsMachine {size} s pc h =
    subst (λ (r : Simulator × Instruction). IsMachine size r.0) (staged-eq-instruction s pc)
      (staged-IsMachine s pc h)

unresolved_pc : (s : Simulator) (pc : ℕ) → (sim_decode (sim_fetch pc s.memory)).next_pc ≡ 0
unfolding decode_fields sim_fetch
unresolved_pc s pc = ap (λ (f : Fields). f.next_pc) (sim_decode-Agrees (sim_fetch pc s.memory)).same

-- Where the word at the PC decodes to a halt or to an illegal instruction, simInstruction changes
-- nothing but the instruction count, which goes up by one, and the next PC is 0.
pub sim_instruction_stopped :
    (s : Simulator) (pc : ℕ)
    → not (sim_decode (sim_fetch pc s.memory)).is_legal
        || (sim_decode (sim_fetch pc s.memory)).is_halt
      ≡ true
    → ((sim_instruction s pc).0 ≡ record s { din = u64 (s.din + 1) })
      × ((sim_instruction s pc).1.next_pc ≡ 0)
unfolding sim_instruction number
sim_instruction_stopped s pc stop =
    let d = sim_decode (sim_fetch pc s.memory) in
    let unresolved : d.next_pc ≡ 0 = unresolved_pc s pc in rw (stop) (refl, unresolved)
