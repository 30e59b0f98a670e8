-- ===== src/Cycle/Forward/Commits.antt =====
-- Forwarding, against the register file that the instructions would have left.
use ece375_project.Base.{ℕ, ◌<◌, ◌≡◌, ◌≢◌, arith, List, length}
use ece375_project.Base.{if◌then◌else◌, get_or-set_self, get_or-set_ne, length-set}
use ece375_project.Simulator.Instruction.{Instruction}
use ece375_project.Simulator.Resolve.{read_reg}
use ece375_project.Simulator.Access.{written_value, sim_commit}
use ece375_project.Cycle.Forward.{hazard, forward}

-- The write-back of `simWB` on the register file.
abbrev pub commit : Instruction → List ℕ → List ℕ
commit i registers = if i.writes_rd then sim_commit i registers else registers

pub length-commit :
    (i : Instruction) (registers : List ℕ) → length (commit i registers) ≡ length registers
unfolding sim_commit
length-commit i registers = ground (arith, length-set registers i.rd (written_value i))

pub read-commit :
    (i : Instruction) (registers : List ℕ) (r : ℕ)
    → r ≢ 0
    → r < length registers
    → read_reg (commit i registers) r
      ≡ (if hazard i r then written_value i else read_reg registers r)
unfolding sim_commit hazard
read-commit i registers r pos fits = ground (
  arith,
  get_or-set_self registers r (written_value i) 0,
  get_or-set_ne registers i.rd r (written_value i) 0,
)

-- Forwarding to a register other than 0 of the register file gives what the file holds once the
-- three older instructions have written back in program order: the one before WB, then WB, then
-- MEM.
pub forward-eq-commits :
    (mem wb done : Instruction) (registers : List ℕ) (r : ℕ)
    → r ≢ 0
    → r < length registers
    → forward mem wb done r (read_reg registers r)
      ≡ read_reg (commit mem (commit wb (commit done registers))) r
unfolding forward
forward-eq-commits mem wb done registers r pos fits =
    let one = commit done registers in
    let two = commit wb one in
    ground (
      arith,
      length-commit done registers,
      length-commit wb one,
      read-commit done registers r,
      read-commit wb one r,
      read-commit mem two r,
    )
