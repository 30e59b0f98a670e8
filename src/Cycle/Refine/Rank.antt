-- ===== src/Cycle/Refine/Rank.antt =====
-- How many cycles the pipeline can let pass before it takes another instruction of the program.
use ece375_project.Base.{ℕ, ◌+◌, ◌<◌, ◌≤◌, true, false, ◌≡◌, arith, if◌then◌else◌}
use ece375_project.Utilities.Codes.{StageStatus}
use ece375_project.Simulator.Instruction.{Instruction}
use ece375_project.Simulator.Decode.Flags.{IsDecoded}
use ece375_project.Cycle.Forward.{nop, hazard, load_use, must_wait}
use ece375_project.Cycle.Step.Roles.{roles}

-- One for a stall to come, one for a bubble in IF, and two for the results in ID and EX that a
-- branch in IF might wait for, of which a bubble in ID leaves one.
pub rank : Instruction → Instruction → Instruction → ℕ
rank fetched id ex =
    (if load_use id ex then 1 else 0)
    + ((if id.is_nop then (if ex.writes_rd then 1 else 0) else 2)
        + (if fetched.is_nop then 1 else 0))

pub rank_le : (fetched id ex : Instruction) → rank fetched id ex ≤ 4
unfolding rank
rank_le fetched id ex = ground arith

pub rank_stall :
    (fetched id ex : Instruction)
    → load_use id ex ≡ true
    → rank fetched id (nop StageStatus.bubble) < rank fetched id ex
unfolding rank load_use nop
rank_stall fetched id ex h = ground arith

pub rank_bubble :
    (fetched fetched' id id' ex ex' : Instruction)
    → fetched.is_nop ≡ true
    → fetched'.is_nop ≡ false
    → IsDecoded id
    → roles ex' ≡ roles id
    → (id'.is_nop ≡ true) × (id'.rs1 ≡ 0) × (id'.rs2 ≡ 0)
    → rank fetched' id' ex' < rank fetched id ex
unfolding rank load_use
rank_bubble fetched fetched' id id' ex ex' f f' d e i = ground (arith, d.nop_idle)

pub rank_wait :
    (new fetched id ex ex' mem' : Instruction)
    → IsDecoded id
    → roles ex' ≡ roles id
    → roles mem' ≡ roles ex
    → must_wait new ex' mem' ≡ true
    → rank fetched (nop StageStatus.bubble) ex' < rank fetched id ex
unfolding rank load_use nop must_wait hazard
rank_wait new fetched id ex ex' mem' d e m h = ground (arith, d.nop_idle)
