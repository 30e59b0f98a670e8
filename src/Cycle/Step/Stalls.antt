-- ===== src/Cycle/Step/Stalls.antt =====
-- Which of the stall tests of a cycle can fire, and for how long.
use ece375_project.Base.{ℕ, true, false, ◌≡◌, refl, arith, inl, inr, not, ◌==◌}
use ece375_project.Base.{Bool-cases, if_both}
use ece375_project.Base.{◌∙◌, ◌+◌}
use ece375_project.Word.{u64, add64}
use ece375_project.Utilities.Codes.{StageStatus}
use ece375_project.Simulator.Instruction.{Instruction}
use ece375_project.Simulator.Decode.{decode_fields, sim_decode}
use ece375_project.Simulator.Decode.Flags.{IsRaw, IsDecoded, sim_decode-IsDecoded}
use ece375_project.Simulator.Machine.{Simulator, sim_if, sim_id, sim_ex, sim_mem, sim_wb}
use ece375_project.Simulator.Machine.Stages.{sim_fetch-IsRaw}
use ece375_project.Cycle.Forward.{
  nop, forward_operands, forward_store, arith_branch, load_branch, must_wait,
}
use ece375_project.Cycle.Step.{
  Core, must_stall, marked, step_wb, step_mem, step_ex, step_if, advance, step_id_if,
  resolve_branch, step,
}
use ece375_project.Cycle.Step.Roles.{
  roles, roles-ex, roles-mem, roles-marked, roles-forward_store, roles-forward_operands,
  roles-resolve_branch, roles-id, late_tests_agree, through_no_late, load_late, nop_no_late,
}

-- The stages after a cycle that stalls, and after one that does not.
pub record IsStalled (c c' : Core) : Type 0 where
  pub if_held : c'.if_inst ≡ c.if_inst
  pub id_held : c'.id_inst ≡ c.id_inst
  pub pc_held : c'.pc ≡ c.pc
  pub ex_bubble : c'.ex_inst ≡ nop StageStatus.bubble
  pub mem_moved : roles c'.mem_inst ≡ roles c.ex_inst
  pub same_din : c'.sim.din ≡ c.sim.din

sim_mem_din : (s : Simulator) (i : Instruction) → (sim_mem s i).0.din ≡ s.din
unfolding sim_mem
sim_mem_din s i = ground arith

sim_wb_din : (s : Simulator) (i : Instruction) → (sim_wb s i).0.din ≡ s.din
unfolding sim_wb
sim_wb_din s i = ground arith

-- The simulator and the instruction in MEM after WB and MEM have had their turn.
pub mem_moves :
    (c : Core)
    → let c2 = step_mem (step_wb (record c { cycle_count = u64 (c.cycle_count + 1) })) in
      (roles c2.mem_inst ≡ roles c.ex_inst) × (c2.sim.din ≡ c.sim.din)
unfolding step_mem step_wb
mem_moves c =
    let wb = sim_wb c.sim c.mem_inst in
    let i = forward_store (record wb.1 { status = StageStatus.normal }) c.ex_inst in
    (
      roles-marked _ ∙ roles-mem wb.0 i ∙ roles-forward_store _ c.ex_inst,
      sim_mem_din wb.0 i ∙ sim_wb_din c.sim c.mem_inst,
    )

-- In a cycle that stalls, IF, ID, the PC and the instruction count stay, EX gets a bubble, and
-- what MEM gets has the flags, the opcode and the registers of the instruction that was in EX.
pub step-IsStalled : (c : Core) → must_stall c ≡ true → IsStalled c (step c).0
unfolding step step_id_if step_ex step_mem step_wb
step-IsStalled c h =
    rw (h, step_ex, step_id_if)
      (record {
        if_held = refl;
        id_held = refl;
        pc_held = refl;
        ex_bubble = refl;
        mem_moved = (mem_moves c).0;
        same_din = (mem_moves c).1;
      })

-- What every cycle leaves behind: IF holds something that decodes to one class, loads in ID and EX
-- write their register, and the tests on a branch in ID are quiet.
pub record IsSettled (c : Core) : Type 0 where
  pub decodes : IsDecoded (sim_decode c.if_inst)
  pub id_load : c.id_inst.reads_mem ≡ true → c.id_inst.writes_rd ≡ true
  pub ex_load : c.ex_inst.reads_mem ≡ true → c.ex_inst.writes_rd ≡ true
  pub arith_quiet : arith_branch c.id_inst c.ex_inst ≡ false
  pub load_quiet : load_branch c.id_inst c.mem_inst ≡ false

load_writes_agree :
    (i i' : Instruction)
    → roles i' ≡ roles i
    → (i.reads_mem ≡ true → i.writes_rd ≡ true)
    → i'.reads_mem ≡ true
    → i'.writes_rd ≡ true
load_writes_agree i i' e h l = ground (arith, h)

sim_if-IsRaw :
    (s : Simulator) (pc : ℕ) → IsRaw (record (sim_if s pc) { status = StageStatus.normal })
unfolding sim_if
sim_if-IsRaw s pc = let r = sim_fetch-IsRaw s pc in ground arith

pub nop-decodes : (st : StageStatus) → IsDecoded (sim_decode (nop st))
unfolding nop sim_decode decode_fields
nop-decodes st = ground arith

advance-IsSettled :
    (c : Core) (new inst : Instruction)
    → roles inst ≡ roles new
    → (new.reads_mem ≡ true → new.writes_rd ≡ true)
    → (c.ex_inst.reads_mem ≡ true → c.ex_inst.writes_rd ≡ true)
    → must_wait new c.ex_inst c.mem_inst ≡ false
    → IsSettled (advance c inst)
unfolding advance step_if
advance-IsSettled c new inst e n l go =
    if_both IsSettled (not (inst.next_pc == add64 c.if_inst.pc 4))
      {x = record c { id_inst = inst; pc = inst.next_pc; if_inst = nop StageStatus.bubble }}
      (settled (nop-decodes StageStatus.bubble))
      (settled (sim_decode-IsDecoded _ (sim_if-IsRaw c.sim c.pc)))
  where
    quiet : (arith_branch inst c.ex_inst ≡ false) × (load_branch inst c.mem_inst ≡ false)
    quiet = ground (
      arith,
      through_no_late new c.ex_inst c.mem_inst,
      late_tests_agree new inst c.ex_inst c.ex_inst e refl,
      late_tests_agree new inst c.mem_inst c.mem_inst e refl,
    )

    settled :
        {pc : ℕ} {fetched : Instruction}
        → IsDecoded (sim_decode fetched)
        → IsSettled (record c { id_inst = inst; pc = pc; if_inst = fetched })
    settled d = record {
      decodes = d;
      id_load = load_writes_agree new inst e n;
      ex_load = l;
      arith_quiet = quiet.0;
      load_quiet = quiet.1;
    }

-- ID and IF, when they are not held, leave the branch tests quiet.
settle :
    (c : Core)
    → IsDecoded (sim_decode c.if_inst)
    → (c.ex_inst.reads_mem ≡ true → c.ex_inst.writes_rd ≡ true)
    → IsSettled (step_id_if false c)
unfolding step_id_if
settle c d l =
    let new = (sim_id c.sim c.if_inst).1 in
    let c1 = record c { sim = (sim_id c.sim c.if_inst).0 } in
    let same = roles-id c.sim c.if_inst in
    elim (Bool-cases (must_wait new c.ex_inst c.mem_inst)) [
      | inl wait ↦ rw wait (record {
        decodes = d;
        id_load = λ h. absurd (unfold nop in cc);
        ex_load = l;
        arith_quiet = (nop_no_late StageStatus.bubble c.ex_inst).0;
        load_quiet = (nop_no_late StageStatus.bubble c.mem_inst).1;
      })
      | inr go ↦ rw go (
          advance-IsSettled c1 new (marked (resolve_branch c1 new))
            (roles-marked (resolve_branch c1 new) ∙ roles-resolve_branch c1 new)
            (load_writes_agree (sim_decode c.if_inst) new same d.load_writes) l go)
    ]

stalled-IsSettled : {c c' : Core} → IsStalled c c' → IsSettled c → IsSettled c'
stalled-IsSettled {c} {c'} st h = record {
  decodes = rw st.if_held h.decodes;
  id_load = rw st.id_held h.id_load;
  ex_load = rw st.ex_bubble (λ e. absurd (unfold nop in cc));
  arith_quiet = rw (st.ex_bubble, st.id_held) (nop_no_late StageStatus.bubble c.id_inst).2;
  load_quiet = rw st.id_held (
      (late_tests_agree c.id_inst c.id_inst c.ex_inst c'.mem_inst refl st.mem_moved).1
      ∙ load_late c.id_inst c.ex_inst h.ex_load h.arith_quiet);
}

-- A cycle leads from a settled pipeline to a settled one.
pub step-IsSettled : (c : Core) → IsSettled c → IsSettled (step c).0
unfolding step step_ex step_mem step_wb
step-IsSettled c h = elim (Bool-cases (must_stall c)) [
  | inl stall ↦ stalled-IsSettled (step-IsStalled c stall) h
  | inr go ↦
      let c2 = step_mem (step_wb (record c { cycle_count = u64 (c.cycle_count + 1) })) in
      let fed = forward_operands c2.mem_inst c2.wb_inst c2.done_inst c.id_inst in
      let same =
        roles-marked (sim_ex fed) ∙ roles-ex fed ∙ roles-forward_operands _ _ _ c.id_inst in
      let c3 = record c2 { ex_inst = marked (sim_ex fed) } in
      let s =
        settle c3 h.decodes (load_writes_agree c.id_inst (marked (sim_ex fed)) same h.id_load) in
      rw go (record {
        decodes = s.decodes;
        id_load = s.id_load;
        ex_load = s.ex_load;
        arith_quiet = s.arith_quiet;
        load_quiet = s.load_quiet;
      })
]
