-- ===== src/Isa/Program.antt =====
-- Programs of the instruction set, for the loops of src/funct.cpp and src/cycle.cpp.
use ece375_project.Base.{ℕ, suc, ◌≡◌, ◌≢◌, true, false}
use ece375_project.Utilities.Codes.{Status}
use ece375_project.Simulator.Instruction.{Instruction}
use ece375_project.Simulator.Decode.{sim_decode}
use ece375_project.Simulator.Decode.Marks.{Runs}
use ece375_project.Simulator.Machine.{sim_fetch}
use ece375_project.Cycle.Refine.{Arch}
use ece375_project.Isa.{Effects, Continues}

-- The instruction at an address.
abbrev pub word_at : Arch → ℕ → Instruction
word_at a pc = sim_decode (sim_fetch pc a.memory)

-- A program that starts at an address goes from instruction to instruction until it comes to the
-- halt word or to a word that is no instruction, and leaves the registers and the memory there.
pub data Program : Arch → ℕ → Status → Arch → Type 0 where
  halts : {a : Arch} {pc : ℕ} → (word_at a pc).is_halt ≡ true → Program a pc Status.halt a
  traps :
      {a : Arch} {pc : ℕ}
      → (word_at a pc).is_halt ≡ false
      → (word_at a pc).is_legal ≡ false
      → Program a pc Status.error a
  step :
      {a a' b : Arch} {pc n : ℕ} {status : Status}
      → Runs (word_at a pc)
      → Effects (word_at a pc) a a'
      → Continues (word_at a pc) a n
      → Program a' n status b
      → Program a pc status b

-- The number of instructions that it goes through, the last word included.
abbrev pub count : {a b : Arch} {pc : ℕ} {status : Status} → Program a pc status b → ℕ
count (Program.halts on) = 1
count (Program.traps off bad) = 1
count (Program.step r e k rest) = suc (count rest)

-- The status of a program is that of its last word.
pub stops :
    {a b : Arch} {pc : ℕ} {status : Status} → Program a pc status b → status ≢ Status.success
stops (Program.halts on) = λ e. absurd cc
stops (Program.traps off bad) = λ e. absurd cc
stops (Program.step r e k p) = stops p
