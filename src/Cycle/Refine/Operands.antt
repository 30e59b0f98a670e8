-- ===== src/Cycle/Refine/Operands.antt =====
-- The operands that forwarding finds, against the registers that older instructions leave.
use ece375_project.Base.{ℕ, ◌<◌, true, ◌≡◌, arith, List, length, ◌==◌, if◌then◌else◌}
use ece375_project.Base.{get_or-set_self, get_or-set_ne}
use ece375_project.Simulator.Instruction.{Instruction}
use ece375_project.Simulator.Resolve.{read_reg}
use ece375_project.Simulator.Access.{written_value}
use ece375_project.Cycle.Forward.{hazard, forward}
use ece375_project.Cycle.Forward.Commits.{commit, length-commit, read-commit}
use ece375_project.Cycle.Refine.{operand}

operand-read :
    (registers : List ℕ) (r : ℕ)
    → r < length registers
    → operand registers r ≡ (if r == 0 then 0 else read_reg registers r)
operand-read registers r fits =
    ground (arith, get_or-set_self registers 0 0 0, get_or-set_ne registers 0 r 0 0)

-- What a register holds as an operand after a write-back.
pub operand-commit :
    (i : Instruction) (registers : List ℕ) (r : ℕ)
    → r < length registers
    → operand (commit i registers) r ≡ (if hazard i r then written_value i else operand registers r)
unfolding hazard
operand-commit i registers r fits = ground (
  arith,
  length-commit i registers,
  operand-read registers r fits,
  operand-read (commit i registers) r,
  read-commit i registers r,
)

-- The instruction that WB held last has written its register.
abbrev pub IsHeld : Instruction → List ℕ → Type 0
IsHeld done registers =
    (r : ℕ) → r < length registers → hazard done r ≡ true → written_value done ≡ operand registers r

pub commit-IsHeld : (i : Instruction) (registers : List ℕ) → IsHeld i (commit i registers)
commit-IsHeld i registers r fits h =
    ground (arith, length-commit i registers, operand-commit i registers r)

module _ (mem wb done : Instruction) (registers : List ℕ) (r value : ℕ)
    (fits : r < length registers) where
  -- An operand of EX.
  pub forward-operand :
      (if hazard done r then written_value done else value) ≡ operand registers r
      → forward mem wb done r value ≡ operand (commit mem (commit wb registers)) r
  unfolding forward
  forward-operand h = ground (
    arith,
    h,
    length-commit wb registers,
    operand-commit wb registers r fits,
    operand-commit mem (commit wb registers) r,
  )

  -- An operand of a branch in ID, which has read the registers after WB.
  pub forward-branch :
      IsHeld done registers
      → value ≡ operand (commit wb registers) r
      → forward mem wb done r value ≡ operand (commit mem (commit wb registers)) r
  unfolding forward
  forward-branch held h = ground (
    arith,
    h,
    held r fits,
    length-commit wb registers,
    operand-commit wb registers r fits,
    operand-commit mem (commit wb registers) r,
  )
