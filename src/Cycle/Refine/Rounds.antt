-- ===== src/Cycle/Refine/Rounds.antt =====
-- One cycle of the pipeline is no instruction or one of the functional simulator.
use ece375_project.Base.{ℕ, false, ◌≡◌, refl, ◌∙◌, sym, arith, Bool-cases, ◌⊎◌, inl, inr}
use ece375_project.Utilities.Codes.{StageStatus}
use ece375_project.MemoryStore.{MemoryStore}
use ece375_project.Simulator.Instruction.{Instruction}
use ece375_project.Simulator.Decode.Flags.{IsDecoded}
use ece375_project.Simulator.Machine.{sim_fetch, sim_if, sim_id}
use ece375_project.Funct.{Funct, run_one}
use ece375_project.Cycle.Forward.{nop, must_wait}
use ece375_project.Cycle.Step.{Core, must_stall, step_ex, step_id_if, step}
use ece375_project.Cycle.Step.Roles.{roles}
use ece375_project.Cycle.Step.Stalls.{IsSettled}
use ece375_project.Cycle.Refine.{arch}
use ece375_project.Cycle.Refine.Stages.{late-eq}
use ece375_project.Cycle.Refine.Issue.{nop-IsKnown, nop-IsFresh, execute-nop, nop-IsBubble}
use ece375_project.Cycle.Refine.Steps.{
  IsFront, IsTracking, IsReady, IsRegular, ex_roles, mem_roles, ready, stalled, backed,
}
use ece375_project.Cycle.Step.Reach.{settled_stall}
use ece375_project.Cycle.Refine.Rank.{rank, rank_stall, rank_wait}
use ece375_project.Cycle.Refine.Issues.{
  ended, IsWaiting, IsIssuing, s1, IsReady-id, issues_word, issues_bubble,
}

module _ (code : ℕ → Type 0) (text : MemoryStore) where
  module _ (c : Core) (f : Funct)
      (r : IsReady code text c.sim c.mem_inst c.ex_inst c.wb_inst c.done_inst f) where
    -- ID and IF of a cycle that does not stall.
    id_if_tracks :
        (id ex : Instruction)
        → IsFront c.if_inst c.pc f
        → IsRegular code text f
        → (c.if_inst.is_nop ≡ false → IsRegular code text (run_one f).0)
        → IsDecoded id
        → roles c.ex_inst ≡ roles id
        → roles c.mem_inst ≡ roles ex
        → IsWaiting code text false (rank c.if_inst id ex) (ended code text (step_id_if false c)) f
          ⊎ (c.if_inst.is_nop ≡ false)
            × IsIssuing code text (ended code text (step_id_if false c)) f
    unfolding step_id_if
    id_if_tracks id ex front reg reg' d moved moved' =
        let new = (sim_id c.sim c.if_inst).1 in
        elim (Bool-cases (must_wait new c.ex_inst c.mem_inst)) [
          | inl wait ↦ inl (
              rw wait (record {
                follows = record {
                  back =
                      backed code text (s1 code text c f r) c.mem_inst c.ex_inst c.wb_inst
                        c.done_inst (nop StageStatus.bubble) f f (IsReady-id code text c f r)
                        (nop-IsKnown StageStatus.bubble)
                        (nop-IsFresh StageStatus.bubble (s1 code text c f r).registers)
                        (execute-nop StageStatus.bubble (arch f.sim));
                  front = front;
                };
                sooner = rank_wait new c.if_inst id ex c.ex_inst c.mem_inst d moved moved' wait;
                bubble = λ h. nop-IsBubble StageStatus.bubble;
              }))
          | inr go ↦ elim front [
            | inl word ↦
                let fetched : c.if_inst.is_nop ≡ false =
                  rw word.0 (unfold sim_if sim_fetch in refl) in
                inr (rw go (fetched, issues_word code text c f r word reg (reg' fetched) go))
            | inr (st, word, at) ↦
                inl (rw go (issues_bubble code text c f r st id ex word at reg d moved))
          ]
        ]

  advance_result : {A B C : Type 0} → A ⊎ B × C → A ⊎ (false ≡ false) × B × C
  advance_result (inl a) = inl a
  advance_result (inr (b, c)) = inr (refl, b, c)

  -- One cycle of the pipeline takes no instruction of the program, and less of them are to come, or
  -- it takes the one that the functional simulator takes.
  pub step-IsTracking :
      (c : Core) (f : Funct)
      → IsSettled c
      → IsTracking code text c f
      → IsRegular code text f
      → (c.if_inst.is_nop ≡ false → IsRegular code text (run_one f).0)
      → IsWaiting code text (must_stall c) (rank c.if_inst c.id_inst c.ex_inst) (step c).0 f
        ⊎ (must_stall c ≡ false) × (c.if_inst.is_nop ≡ false) × IsIssuing code text (step c).0 f
  unfolding step
  step-IsTracking c f settled t reg reg' =
      let b = t.back in
      let same = settled_stall c settled in
      elim (Bool-cases (must_stall c)) [
        | inl on ↦ inl (
            rw (on, late-eq c b.apart)
              (unfold step_ex step_id_if in
                record {
                  follows = record {
                    back = stalled code text c f b (sym same ∙ on) reg.keeps;
                    front = t.front;
                  };
                  sooner = rank_stall c.if_inst c.id_inst c.ex_inst (sym same ∙ on);
                  bubble = λ h. absurd (ground arith);
                }))
        | inr off ↦
            rw (off, late-eq c b.apart)
              (unfold step_ex in
                advance_result (
                  id_if_tracks _ f (ready code text c f b (sym same ∙ off) reg.keeps) c.id_inst
                    c.ex_inst t.front reg reg' b.known.decoded (ex_roles code text c f b)
                    (mem_roles code text c f b)))
      ]
