-- ===== src/Cycle/Step.antt =====
-- One round of the loop of `runCycles` in src/cycle.cpp.
pub mod Roles
pub mod Stalls
pub mod Effects
pub mod Reach
pub mod Holds
pub mod Limits
use ece375_project.Base.{ℕ, ◌+◌, Bool, true, false, ◌||◌, not, ◌==◌, if◌then◌else◌}
use ece375_project.Base.{Option, none, some}
use ece375_project.Word.{u64, add64}
use ece375_project.Utilities.Codes.{Status, StageStatus}
use ece375_project.MemoryStore.{MemoryStore}
use ece375_project.Cache
use ece375_project.Cache.{Cache, CacheConfig, CacheDataType}
use ece375_project.Simulator.Instruction.{Instruction}
use ece375_project.Simulator.Resolve.{sim_next_pc_resolution}
use ece375_project.Simulator.Machine.{Simulator, simulator, sim_if, sim_id, sim_ex, sim_mem, sim_wb}
use ece375_project.Cycle.Forward.{
  nop, forward_operands, forward_store, resolves_in_id, load_use, arith_branch, load_branch,
  must_wait,
}

-- The static variables of the file, the pipeline registers among them.
pub record Core : Type 0 where
  pub sim : Simulator
  pub i_cache : Cache
  pub d_cache : Cache
  pub cycle_count : ℕ
  pub pc : ℕ
  pub if_inst : Instruction
  pub id_inst : Instruction
  pub ex_inst : Instruction
  pub mem_inst : Instruction
  pub wb_inst : Instruction
  pub done_inst : Instruction

-- `none` is a cache configuration on which the constructor of `Cache` is undefined.
unfoldable pub init_simulator : CacheConfig → CacheConfig → MemoryStore → Option Core
init_simulator ic_config dc_config memory = elim (Cache.create ic_config CacheDataType.i_cache) [
  | none ↦ none
  | some ic ↦ elim (Cache.create dc_config CacheDataType.d_cache) [
    | none ↦ none
    | some dc ↦ some (record {
      sim = simulator memory;
      i_cache = ic;
      d_cache = dc;
      cycle_count = 0;
      pc = 0;
      if_inst = nop StageStatus.idle;
      id_inst = nop StageStatus.idle;
      ex_inst = nop StageStatus.idle;
      mem_inst = nop StageStatus.idle;
      wb_inst = nop StageStatus.idle;
      done_inst = nop StageStatus.idle;
    })
  ]
]

unfoldable pub must_stall : Core → Bool
must_stall c =
    load_use c.id_inst c.ex_inst
    || (arith_branch c.id_inst c.ex_inst || load_branch c.id_inst c.mem_inst)

-- The status of an instruction that a stage has let through.
unfoldable pub marked : Instruction → Instruction
marked inst = record inst {
  status = (if inst.is_nop || inst.is_halt then StageStatus.bubble else StageStatus.normal);
}

-- WB: the instruction that was in MEM.
unfoldable pub step_wb : Core → Core
step_wb c =
    let (s, inst) = sim_wb c.sim c.mem_inst in
    record c { sim = s; wb_inst = record inst { status = StageStatus.normal } }

-- MEM: the instruction that was in EX, after the load-to-store forwarding.
unfoldable pub step_mem : Core → Core
step_mem c =
    let (s, inst) = sim_mem c.sim (forward_store c.wb_inst c.ex_inst) in
    record c { sim = s; mem_inst = marked inst }

-- EX: a bubble, or the instruction that was in ID with its operands forwarded.
unfoldable pub step_ex : Bool → Core → Core
step_ex stall c = if stall then record c { ex_inst = nop StageStatus.bubble } else record c {
  ex_inst = marked (sim_ex (forward_operands c.mem_inst c.wb_inst c.done_inst c.id_inst));
}

-- The instruction in IF, decoded; a branch or `jalr` takes its operands from the later stages and
-- resolves the next PC again.
unfoldable pub resolve_branch : Core → Instruction → Instruction
resolve_branch c new =
    if resolves_in_id new
    then sim_next_pc_resolution (forward_operands c.mem_inst c.wb_inst c.done_inst new)
    else new

-- IF: fetch at the PC.
unfoldable pub step_if : Core → Core
step_if c = record c {
  if_inst = record (sim_if c.sim c.pc) { status = StageStatus.normal };
  pc = add64 c.pc 4;
}

-- What follows a decoded instruction in: a bubble and a new PC if it leaves the next address, and
-- else the next fetch.
unfoldable pub advance : Core → Instruction → Core
advance c inst =
    if not (inst.next_pc == add64 c.if_inst.pc 4)
    then record c { id_inst = inst; pc = inst.next_pc; if_inst = nop StageStatus.bubble }
    else step_if (record c { id_inst = inst })

-- ID and IF. Held on a stall; held behind a bubble if a branch must wait.
unfoldable pub step_id_if : Bool → Core → Core
step_id_if stall c =
    if stall
    then c
    else (let (s, new) = sim_id c.sim c.if_inst in
        let c1 = record c { sim = s } in
        if must_wait new c.ex_inst c.mem_inst
        then record c1 { id_inst = nop StageStatus.bubble }
        else advance c1 (marked (resolve_branch c1 new)))

-- The whole round, the two counters at its top included, and the status after it.
unfoldable pub step : Core → Core × Status
step c =
    let stall = must_stall c in
    let c1 = step_wb (record c { cycle_count = u64 (c.cycle_count + 1) }) in
    let c2 = step_mem c1 in
    let c3 = step_ex stall c2 in
    let c4 = step_id_if stall c3 in
    (
      record c4 { done_inst = c4.wb_inst },
      (if c1.wb_inst.is_halt then Status.halt else Status.success),
    )
