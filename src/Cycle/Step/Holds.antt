-- ===== src/Cycle/Step/Holds.antt =====
-- Which instructions a cycle moves on: the hazards of a load and its use, and of a branch and the
-- result that it reads.
use ece375_project.Base.{
  ◌+◌, Bool, true, false, ◌≡◌, ◌≢◌, refl, ap, ◌∙◌, arith, ◌&&◌, ◌||◌, not, ◌==◌, ◌⊎◌, inl, inr,
  Bool-cases,
}
use ece375_project.Word.{u64, add64}
use ece375_project.Utilities.Codes.{StageStatus}
use ece375_project.MemoryStore.{MemoryStore}
use ece375_project.Simulator.Instruction.{Instruction}
use ece375_project.Simulator.Decode.{sim_decode}
use ece375_project.Simulator.Machine.{sim_fetch, sim_if, sim_id, sim_ex}
use ece375_project.Cycle.Forward.{nop, hazard, resolves_in_id, forward_operands, must_wait}
use ece375_project.Cycle.Step.{
  Core, must_stall, marked, step_wb, step_mem, step_ex, step_if, advance, step_id_if,
  resolve_branch, step,
}
use ece375_project.Cycle.Step.Roles.{
  roles, roles-ex, roles-marked, roles-forward_operands, roles-resolve_branch, roles-id,
}
use ece375_project.Cycle.Step.Stalls.{mem_moves}

-- `reader` names as a source a register other than 0 that `writer` writes.
unfoldable pub depends : Instruction → Instruction → Bool
depends reader writer =
    writer.writes_rd
    && (not (writer.rd == 0) && (writer.rd == reader.rs1 || writer.rd == reader.rs2))

-- The instruction in ID reads what a load in EX is to bring.
unfoldable pub load_hazard : Core → Bool
load_hazard c = c.ex_inst.reads_mem && depends c.id_inst c.ex_inst

-- The instruction in IF is a branch or `jalr` that reads the result of the instruction in ID, or
-- what a load in EX is to bring.
unfoldable pub branch_hazard : Core → Bool
branch_hazard c =
    let d = sim_decode c.if_inst in
    resolves_in_id d && (depends d c.id_inst || (c.ex_inst.reads_mem && depends d c.ex_inst))

-- A cycle that holds a branch in IF.
pub record IsHeld (c c' : Core) : Type 0 where
  pub if_held : c'.if_inst ≡ c.if_inst
  pub pc_held : c'.pc ≡ c.pc
  pub id_bubble : c'.id_inst ≡ nop StageStatus.bubble
  pub ex_moved : roles c'.ex_inst ≡ roles c.id_inst
  pub mem_moved : roles c'.mem_inst ≡ roles c.ex_inst

-- A cycle that holds nothing: every instruction moves on by one stage, and IF fetches at the PC,
-- or gets a bubble where the instruction in ID goes on elsewhere than at the next address.
pub record IsMoved (c c' : Core) : Type 0 where
  pub id_moved : roles c'.id_inst ≡ roles (sim_decode c.if_inst)
  pub ex_moved : roles c'.ex_inst ≡ roles c.id_inst
  pub mem_moved : roles c'.mem_inst ≡ roles c.ex_inst
  pub fetched :
      ((c'.id_inst.next_pc ≡ add64 c.if_inst.pc 4)
        × (c'.if_inst.pc ≡ c.pc)
        × (c'.pc ≡ add64 c.pc 4))
      ⊎ ((c'.id_inst.next_pc ≢ add64 c.if_inst.pc 4)
          × (c'.if_inst ≡ nop StageStatus.bubble)
          × (c'.pc ≡ c'.id_inst.next_pc))

branch_hazard_lem :
    (c : Core) (new ex mem : Instruction)
    → roles new ≡ roles (sim_decode c.if_inst)
    → roles ex ≡ roles c.id_inst
    → roles mem ≡ roles c.ex_inst
    → must_wait new ex mem ≡ branch_hazard c
unfolding must_wait branch_hazard depends hazard resolves_in_id
branch_hazard_lem c new ex mem p q r = ground arith

-- ID and IF where they are not held by a stall, over the stages that the cycle has done before.
abbrev Passed : Core → Core → Type 0
Passed c c' =
    (roles c'.id_inst ≡ roles (sim_decode c.if_inst))
    × (c'.ex_inst ≡ c.ex_inst)
    × (c'.mem_inst ≡ c.mem_inst)
    × (((c'.id_inst.next_pc ≡ add64 c.if_inst.pc 4)
          × (c'.if_inst.pc ≡ c.pc)
          × (c'.pc ≡ add64 c.pc 4))
        ⊎ ((c'.id_inst.next_pc ≢ add64 c.if_inst.pc 4)
            × (c'.if_inst ≡ nop StageStatus.bubble)
            × (c'.pc ≡ c'.id_inst.next_pc)))

advance-passes :
    (c : Core) (inst : Instruction)
    → roles inst ≡ roles (sim_decode c.if_inst)
    → Passed c (advance c inst)
unfolding advance step_if sim_if sim_fetch
advance-passes c inst e = elim (Bool-cases (inst.next_pc == add64 c.if_inst.pc 4)) [
  | inl near ↦ rw near (e, refl, refl, inl (ground (arith, near), refl, refl))
  | inr far ↦ rw far (e, refl, refl, inr ((λ h. absurd (ground (arith, far, h))), refl, refl))
]

id_if_passes :
    (c : Core)
    → must_wait (sim_id c.sim c.if_inst).1 c.ex_inst c.mem_inst ≡ false
    → Passed c (step_id_if false c)
unfolding step_id_if
id_if_passes c go =
    let new = (sim_id c.sim c.if_inst).1 in
    let c1 = record c { sim = (sim_id c.sim c.if_inst).0 } in
    rw go (
      advance-passes c1 (marked (resolve_branch c1 new)) (
        roles-marked (resolve_branch c1 new)
        ∙ roles-resolve_branch c1 new
        ∙ roles-id c.sim c.if_inst))

id_if_holds :
    (c : Core)
    → must_wait (sim_id c.sim c.if_inst).1 c.ex_inst c.mem_inst ≡ true
    → let c' = step_id_if false c in
      (c'.if_inst ≡ c.if_inst)
      × (c'.pc ≡ c.pc)
      × (c'.id_inst ≡ nop StageStatus.bubble)
      × (c'.ex_inst ≡ c.ex_inst)
      × (c'.mem_inst ≡ c.mem_inst)
unfolding step_id_if
id_if_holds c wait = rw wait (refl, refl, refl, refl, refl)

module _ (c : Core) where
  abbrev late : Core
  late = step_ex false (step_mem (step_wb (record c { cycle_count = u64 (c.cycle_count + 1) })))

  late_stages :
      (late.if_inst ≡ c.if_inst)
      × (late.pc ≡ c.pc)
      × (roles late.ex_inst ≡ roles c.id_inst)
      × (roles late.mem_inst ≡ roles c.ex_inst)
  unfolding step_ex step_mem step_wb
  late_stages =
      let c2 = step_mem (step_wb (record c { cycle_count = u64 (c.cycle_count + 1) })) in
      let fed = forward_operands c2.mem_inst c2.wb_inst c2.done_inst c.id_inst in
      (
        refl,
        refl,
        roles-marked (sim_ex fed) ∙ roles-ex fed ∙ roles-forward_operands _ _ _ c.id_inst,
        (mem_moves c).0,
      )

  late_wait :
      must_wait (sim_id late.sim late.if_inst).1 late.ex_inst late.mem_inst ≡ branch_hazard c
  late_wait =
      let (f, p, x, y) = late_stages in
      branch_hazard_lem c (sim_id late.sim late.if_inst).1 late.ex_inst late.mem_inst
        (roles-id late.sim late.if_inst ∙ ap (λ (i : Instruction). roles (sim_decode i)) f) x y

  pub step-IsHeld : must_stall c ≡ false → branch_hazard c ≡ true → IsHeld c (step c).0
  unfolding step
  step-IsHeld go h =
      let (f, p, x, y) = late_stages in
      let (f', p', d', x', y') = id_if_holds late (late_wait ∙ h) in
      rw go (record {
        if_held = f' ∙ f;
        pc_held = p' ∙ p;
        id_bubble = d';
        ex_moved = ap roles x' ∙ x;
        mem_moved = ap roles y' ∙ y;
      })

  pub step-IsMoved : must_stall c ≡ false → branch_hazard c ≡ false → IsMoved c (step c).0
  unfolding step
  step-IsMoved go h =
      let (f, p, x, y) = late_stages in
      let (d', x', y', front) = id_if_passes late (late_wait ∙ h) in
      rw go (record {
        id_moved = d' ∙ ap (λ (i : Instruction). roles (sim_decode i)) f;
        ex_moved = ap roles x' ∙ x;
        mem_moved = ap roles y' ∙ y;
        fetched = (unfold step_ex step_mem step_wb in front);
      })

-- Whether a cycle holds the instruction in IF.
unfoldable pub holds_if : Core → Bool
unfolding load_hazard branch_hazard
holds_if c = load_hazard c || branch_hazard c
