-- ===== src/Cycle/Refine/Matches.antt =====
-- The pipeline of src/cycle.cpp and the functional simulator of src/funct.cpp, from their start to
-- the halt.
use ece375_project.Base.{
  ℕ, zero, suc, ◌+◌, ◌*◌, ◌<◌, ◌≤◌, ◌≢◌, true, false, ◌≡◌, refl, ap, ◌∙◌, sym, arith, Bool-cases,
  inl, inr,
}
use ece375_project.Word.{add64}
use ece375_project.Utilities.Codes.{Status}
use ece375_project.MemoryStore.{MemoryStore}
use ece375_project.Simulator.Instruction.{Instruction}
use ece375_project.Simulator.Decode.{sim_decode}
use ece375_project.Simulator.Machine.{sim_if}
use ece375_project.Simulator.Machine.Safety.{sim_instruction_stopped}
use ece375_project.Funct.{Funct, run_one}
use ece375_project.Funct.Runs.{steps}
use ece375_project.Cycle.Forward.{nop}
use ece375_project.Cycle.Step.{Core, must_stall, step}
use ece375_project.Cycle.Step.Roles.{roles}
use ece375_project.Cycle.Step.Stalls.{IsSettled, step-IsStalled, step-IsSettled}
use ece375_project.Cycle.Refine.{arch}
use ece375_project.Cycle.Refine.Fetched.{roles-instruction}
use ece375_project.Cycle.Refine.Steps.{IsTracking, IsRegular}
use ece375_project.Cycle.Refine.Rank.{rank, rank_le}
use ece375_project.Cycle.Refine.Issues.{IsWaiting, IsIssuing}
use ece375_project.Cycle.Refine.Rounds.{step-IsTracking}
use ece375_project.Cycle.Refine.Halts.{Ends, Ends-later, step-mem_roles, step-ex_roles}
use ece375_project.Cycle.Refine.Drain.{Ends-weaken, id-Ends}

-- `n` instructions, whatever they are.
unfoldable pub runs : ℕ → Funct → Funct
runs zero f = f
runs (suc n) f = runs n (run_one f).0

-- No halt is in the pipeline behind IF.
pub record IsRunning (c : Core) : Type 0 where
  pub id : c.id_inst.is_halt ≡ false
  pub ex : c.ex_inst.is_halt ≡ false
  pub mem : c.mem_inst.is_halt ≡ false

roles-run_one : (f : Funct) → roles (run_one f).1 ≡ roles (sim_decode (sim_if f.sim f.pc))
unfolding run_one
roles-run_one f = roles-instruction f.sim f.pc

-- A halt makes the functional simulator go on at address 0.
run_one_restarts : (f : Funct) → (run_one f).1.is_halt ≡ true → (run_one f).0.pc ≡ 0
unfolding run_one sim_if
run_one_restarts f halt =
    let e = roles-instruction f.sim f.pc in
    (sim_instruction_stopped f.sim f.pc (ground (arith, e, halt))).1

steps_halt :
    (n : ℕ) (f : Funct)
    → (run_one f).1.is_halt ≡ true
    → steps (suc n) f ≡ (Status.halt, (run_one f).0)
unfolding steps
steps_halt n f h = ground (arith, h)

steps_next :
    (n : ℕ) (f f' : Funct)
    → (run_one f).1.is_halt ≡ false
    → steps (suc n) f ≡ (Status.halt, f')
    → steps n (run_one f).0 ≡ (Status.halt, f')
unfolding steps
steps_next n f f' off e = ground (arith, off, e)

-- A cycle brings no halt into EX or MEM, and none into ID unless it takes an instruction.
ex_running : (c : Core) → IsRunning c → (step c).0.ex_inst.is_halt ≡ false
ex_running c r = elim (Bool-cases (must_stall c)) [
  | inl on ↦
      ap (λ (i : Instruction). i.is_halt) (step-IsStalled c on).ex_bubble ∙ (unfold nop in refl)
  | inr off ↦ ground (arith, step-ex_roles c off, r.ex, r.id)
]

module _ (code : ℕ → Type 0) (text : MemoryStore) where
  waiting-IsRunning :
      (c : Core) (f : Funct) (n : ℕ)
      → IsRunning c
      → IsWaiting code text (must_stall c) n (step c).0 f
      → IsRunning (step c).0
  waiting-IsRunning c f n r w = record {
    id = elim (Bool-cases (must_stall c)) [
      | inl on ↦ ap (λ (i : Instruction). i.is_halt) (step-IsStalled c on).id_held ∙ r.id
      | inr off ↦ (w.bubble off).halt
    ];
    ex = ex_running c r;
    mem = ground (arith, step-mem_roles c, r.ex);
  }

  -- A cycle that takes an instruction that is no halt.
  issuing-IsRunning :
      (c : Core) (f : Funct)
      → IsRunning c
      → must_stall c ≡ false
      → IsIssuing code text (step c).0 f
      → (run_one f).1.is_halt ≡ false
      → IsRunning (step c).0
  issuing-IsRunning c f r off i h = record {
    id = ground (arith, i.taken, roles-run_one f, h);
    ex = ex_running c r;
    mem = ground (arith, step-mem_roles c, r.ex);
  }

  -- A cycle that takes the halt.
  halts_after :
      (n : ℕ) (c : Core) (f f' : Funct)
      → IsSettled (step c).0
      → IsRunning c
      → IsRegular code text f
      → IsRegular code text (run_one f).0
      → IsIssuing code text (step c).0 f
      → (run_one f).1.is_halt ≡ true
      → steps (suc n) f ≡ (Status.halt, f')
      → Ends 8 c (arch f'.sim)
  halts_after n c f f' settled run reg0 reg1 i halt e =
      let f1 = (run_one f).0 in
      let next = rank_le (step c).0.if_inst (step c).0.id_inst (step c).0.ex_inst in
      let last : f1 ≡ f' = ap (λ (p : Status × Funct). p.1) (sym (steps_halt n f halt) ∙ e) in
      let far : f1.pc ≢ add64 f.pc 4 = λ h. reg0.room (sym h ∙ run_one_restarts f halt) in
      Ends-later 7 c (arch f'.sim) run.mem (
        rw⁻¹ last (
          id-Ends code text f1 5 (step c).0 (omega (arith, next)) settled i.follows reg1
            (ground (arith, i.taken, roles-run_one f, halt)) (ex_running c run)
            (ground (arith, step-mem_roles c, run.ex)) (i.jumps far)))

  -- From a pipeline without a halt to the end of the program, `n` instructions away at most.
  pub matches :
      (n r : ℕ) (c : Core) (f f' : Funct)
      → rank c.if_inst c.id_inst c.ex_inst < r
      → r ≤ 5
      → IsSettled c
      → IsTracking code text c f
      → IsRunning c
      → steps n f ≡ (Status.halt, f')
      → ((j : ℕ) → j ≤ n → IsRegular code text (runs j f))
      → Ends (5 * n + (r + 2)) c (arch f'.sim)
  unfolding runs
  matches zero r c f f' small top settled t run e reg = absurd (unfold steps in cc)
  matches (suc n) zero c f f' small top settled t run e reg = absurd (omega (arith, small))
  matches (suc n) (suc r) c f f' small top settled t run e reg =
      let settled' = step-IsSettled c settled in
      let f1 = (run_one f).0 in
      let reg0 : IsRegular code text f = reg 0 (omega arith) in
      let reg1 : IsRegular code text f1 = reg 1 (omega arith) in
      elim (step-IsTracking code text c f settled t reg0 (λ h. reg1)) [
        | inl w ↦
            Ends-weaken (suc (5 * suc n + (r + 2))) (5 * suc n + (suc r + 2)) c (arch f'.sim)
              (omega arith)
              (Ends-later (5 * suc n + (r + 2)) c (arch f'.sim) run.mem (
                matches (suc n) r (step c).0 f f' (omega (arith, w.sooner, small))
                  (omega (arith, top)) settled' w.follows (waiting-IsRunning c f _ run w) e reg))
        | inr (off, word, i) ↦
            let next = rank_le (step c).0.if_inst (step c).0.id_inst (step c).0.ex_inst in
            elim (Bool-cases (run_one f).1.is_halt) [
              | inl halt ↦
                  Ends-weaken 8 (5 * suc n + (suc r + 2)) c (arch f'.sim) (omega arith)
                    (halts_after n c f f' settled' run reg0 reg1 i halt e)
              | inr on ↦
                  Ends-weaken (suc (5 * n + (5 + 2))) (5 * suc n + (suc r + 2)) c (arch f'.sim)
                    (omega arith)
                    (Ends-later (5 * n + (5 + 2)) c (arch f'.sim) run.mem (
                      matches n 5 (step c).0 f1 f' (omega (arith, next)) (omega arith) settled'
                        i.follows (issuing-IsRunning c f run off i on) (steps_next n f f' on e)
                        (λ j le. reg (suc j) (omega (arith, le)))))
            ]
      ]
