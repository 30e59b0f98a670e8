-- ===== src/Cycle/Refine/Drain.antt =====
-- The cycles from a halt in ID to its end.
use ece375_project.Base.{
  ℕ, zero, suc, ◌+◌, ◌<◌, ◌≤◌, true, false, ◌≡◌, refl, ap, ◌∙◌, sym, arith, Bool-cases, inl, inr,
}
use ece375_project.Utilities.Codes.{StageStatus}
use ece375_project.MemoryStore.{MemoryStore}
use ece375_project.Simulator.Instruction.{Instruction}
use ece375_project.Simulator.Decode.Flags.{IsDecoded}
use ece375_project.Simulator.Access.{sim_mem_access}
use ece375_project.Funct.{Funct}
use ece375_project.Cycle.Forward.{nop, load_use}
use ece375_project.Cycle.Step.{Core, must_stall, step}
use ece375_project.Cycle.Step.Stalls.{IsSettled, step-IsStalled, step-IsSettled}
use ece375_project.Cycle.Step.Reach.{settled_stall}
use ece375_project.Cycle.Refine.{Arch, arch, retire}
use ece375_project.Cycle.Refine.Effects.{perform_idle, IsDecoded-roles}
use ece375_project.Cycle.Refine.Issue.{IsBubble, execute_idle}
use ece375_project.Cycle.Refine.Steps.{past_ex, IsTracking, IsRegular}
use ece375_project.Cycle.Refine.Rank.{rank}
use ece375_project.Cycle.Refine.Rounds.{step-IsTracking}
use ece375_project.Cycle.Refine.Halts.{
  Ends, Ends-later, IsIdle, IsIdle-roles, mem-Ends, step-mem_roles, step-ex_roles, arch-step,
}

pub Ends-weaken : (n m : ℕ) (c : Core) (a : Arch) → n ≤ m → Ends n c a → Ends m c a
Ends-weaken n m c a h e = record {
  taken = e.taken;
  within = omega (arith, h, e.within);
  core = e.core;
  halts = e.halts;
  machine = e.machine;
}

halt-IsIdle : (i : Instruction) → IsDecoded i → i.is_halt ≡ true → IsIdle i
halt-IsIdle i d h = ground (arith, d.halt_idle, d.load_writes)

ex_same :
    (c : Core)
    → c.ex_inst.writes_mem ≡ false
    → load_use c.ex_inst c.mem_inst ≡ false
    → arch (step c).0.sim ≡ retire c.mem_inst (arch c.sim)
ex_same c w apart = arch-step c apart ∙ (unfold sim_mem_access in ground arith)

module _ (code : ℕ → Type 0) (text : MemoryStore) (f : Funct) where
  -- A halt in EX, behind a bubble.
  ex-Ends :
      (c : Core)
      → IsSettled c
      → IsTracking code text c f
      → IsDecoded c.ex_inst
      → c.ex_inst.is_halt ≡ true
      → c.mem_inst.is_halt ≡ false
      → IsBubble c.id_inst
      → Ends 2 c (arch f.sim)
  ex-Ends c settled t d halt off b =
      let idle = halt-IsIdle c.ex_inst d halt in
      let go : must_stall c ≡ false =
        settled_stall c settled ∙ (unfold load_use in ground (arith, idle.no_load)) in
      let e = step-ex_roles c go in
      let m = step-mem_roles c in
      let a = past_ex c.sim c.mem_inst c.ex_inst in
      let machine =
        ex_same c idle.no_store t.back.apart
        ∙ sym
            (perform_idle c.ex_inst (retire c.mem_inst (arch c.sim)) d idle.no_write idle.no_store)
        ∙ sym (execute_idle c.id_inst a t.back.known.decoded b.no_write b.no_store)
        ∙ t.back.drained in
      rw⁻¹ machine (
        Ends-later 1 c (arch (step c).0.sim) off (
          mem-Ends (step c).0 (ground (arith, m))
            (IsIdle-roles c.ex_inst (step c).0.mem_inst m idle) (ground (arith, e, b.no_store))))

  -- A halt in ID, with a bubble behind it.
  pub id-Ends :
      (r : ℕ) (c : Core)
      → rank c.if_inst c.id_inst c.ex_inst < r
      → IsSettled c
      → IsTracking code text c f
      → IsRegular code text f
      → c.id_inst.is_halt ≡ true
      → c.ex_inst.is_halt ≡ false
      → c.mem_inst.is_halt ≡ false
      → c.if_inst ≡ nop StageStatus.bubble
      → Ends (r + 2) c (arch f.sim)
  id-Ends zero c small settled t reg halt ex mem bubble = absurd (omega (arith, small))
  id-Ends (suc r) c small settled t reg halt ex mem bubble =
      let nopped : c.if_inst.is_nop ≡ true = rw bubble (unfold nop in refl) in
      let m = step-mem_roles c in
      let mem' : (step c).0.mem_inst.is_halt ≡ false = ground (arith, m) in
      let settled' = step-IsSettled c settled in
      elim (step-IsTracking code text c f settled t reg (λ h. absurd (ground (arith, h, nopped)))) [
        | inl w ↦ elim (Bool-cases (must_stall c)) [
          | inl on ↦
              let st = step-IsStalled c on in
              Ends-weaken (suc (r + 2)) (suc r + 2) c (arch f.sim) (omega arith) (
                Ends-later (r + 2) c (arch f.sim) mem (
                  id-Ends r (step c).0 (omega (arith, w.sooner, small)) settled' w.follows reg
                    (ap (λ (i : Instruction). i.is_halt) st.id_held ∙ halt)
                    (ap (λ (i : Instruction). i.is_halt) st.ex_bubble ∙ (unfold nop in refl)) mem'
                    (st.if_held ∙ bubble)))
          | inr off ↦
              let e = step-ex_roles c off in
              Ends-weaken 3 (suc r + 2) c (arch f.sim) (omega arith) (
                Ends-later 2 c (arch f.sim) mem (
                  ex-Ends (step c).0 settled' w.follows
                    (IsDecoded-roles c.id_inst (step c).0.ex_inst (sym e) t.back.known.decoded)
                    (ground (arith, e)) mem' (w.bubble off)))
        ]
        | inr (_, word, _) ↦ absurd (ground (arith, word, nopped))
      ]
