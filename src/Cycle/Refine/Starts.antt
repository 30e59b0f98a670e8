-- ===== src/Cycle/Refine/Starts.antt =====
-- The pipeline of src/cycle.cpp and the functional simulator of src/funct.cpp, started on the same
-- memory.
use ece375_project.Base.{ℕ, ◌+◌, ◌*◌, ◌≤◌, ◌≡◌, refl, ap, ◌∙◌, arith, inr, some, length}
use ece375_project.Utilities.Codes.{Status, StageStatus}
use ece375_project.MemoryStore.{MemoryStore}
use ece375_project.Cache.{CacheConfig}
use ece375_project.Simulator.Instruction.{Instruction}
use ece375_project.Simulator.Machine.{Simulator, simulator}
use ece375_project.Funct
use ece375_project.Funct.{Funct, run_one}
use ece375_project.Funct.Runs.{returned-steps}
use ece375_project.Cycle.Forward.{nop, hazard, load_use}
use ece375_project.Cycle.Step.{Core, init_simulator}
use ece375_project.Cycle.Step.Reach.{init-IsSettled}
use ece375_project.Cycle.Run.{Outcome, run_till_halt}
use ece375_project.Cycle.Run.Loops.{run_till_halt-Gives}
use ece375_project.Cycle.Refine.{Arch, arch, retire, execute}
use ece375_project.Cycle.Refine.Effects.{perform_idle}
use ece375_project.Cycle.Refine.Operands.{IsHeld}
use ece375_project.Cycle.Refine.Issue.{execute-nop, nop-IsKnown, nop-IsFresh}
use ece375_project.Cycle.Refine.Tracking.{IsFresh-IsSupplied}
use ece375_project.Cycle.Refine.Steps.{
  past_ex, IsBacked, IsTracking, IsRegular, KeepsText, keeps_along,
}
use ece375_project.Cycle.Refine.Rank.{rank_le}
use ece375_project.Cycle.Refine.Matches.{runs, IsRunning, matches}

abbrev pub idle : Instruction
idle = nop StageStatus.idle

-- What initSimulator leaves.
pub init_fields :
    (ic dc : CacheConfig) (m : MemoryStore) {c : Core}
    → init_simulator ic dc m ≡ some c
    → (c.sim ≡ simulator m)
      × (c.pc ≡ 0)
      × (c.if_inst ≡ idle)
      × (c.id_inst ≡ idle)
      × (c.ex_inst ≡ idle)
      × (c.mem_inst ≡ idle)
      × (c.done_inst ≡ idle)
unfolding init_simulator
init_fields ic dc m e = ground arith

idle_past : (s : Simulator) → past_ex s idle idle ≡ arch s
idle_past s =
    perform_idle idle (retire idle (arch s)) (nop-IsKnown StageStatus.idle).decoded
      (unfold nop in refl) (unfold nop in refl)
    ∙ (unfold nop in refl)

module _ (code : ℕ → Type 0) (m : MemoryStore) where
  idle-IsBacked :
      (s : Simulator) (f : Funct)
      → length s.registers ≡ 32
      → KeepsText code m s.memory
      → arch s ≡ arch f.sim
      → IsBacked code m s idle idle idle idle f
  idle-IsBacked s f n k same =
      let still = idle_past s in
      let held : IsHeld idle s.registers = unfold hazard nop in λ r fits h. absurd (ground arith) in
      record {
        drained = ap (execute idle) still ∙ execute-nop StageStatus.idle (arch s) ∙ same;
        known = nop-IsKnown StageStatus.idle;
        sized = n;
        apart = unfold load_use nop in refl;
        held = held;
        supplied =
            IsFresh-IsSupplied idle idle s.registers n (nop-IsKnown StageStatus.idle) held
              (nop-IsFresh StageStatus.idle s.registers);
        fresh = λ h. nop-IsFresh StageStatus.idle s.registers;
        kept = k;
        kept_ex = keeps_along code m still k;
      }

  pub init-IsTracking :
      (ic dc : CacheConfig) {c : Core}
      → init_simulator ic dc m ≡ some c
      → KeepsText code m m
      → IsTracking code m c (Funct.init_simulator m)
  init-IsTracking ic dc {c} e k =
      let (s, pc, f, d, x, y, done) = init_fields ic dc m e in
      record {
        back =
            rw (s, d, x, y, done)
              (idle-IsBacked (simulator m) (Funct.init_simulator m) (unfold simulator in refl)
                (unfold simulator in k) (unfold Funct.init_simulator in refl));
        front = inr (StageStatus.idle, f, pc ∙ (unfold Funct.init_simulator in refl));
      }

  init-IsRunning : (ic dc : CacheConfig) {c : Core} → init_simulator ic dc m ≡ some c → IsRunning c
  init-IsRunning ic dc {c} e =
      let (s, pc, f, d, x, y, done) = init_fields ic dc m e in
      record {
        id = rw d (unfold nop in refl);
        ex = rw x (unfold nop in refl);
        mem = rw y (unfold nop in refl);
      }

  -- What the functional simulator is to go through.
  abbrev pub IsRegularFor : ℕ → Type 0
  IsRegularFor n = (j : ℕ) → j ≤ n → IsRegular code m (runs j (Funct.init_simulator m))

  pub regular_text : (n : ℕ) → IsRegularFor n → KeepsText code m m
  unfolding runs
  regular_text n reg =
      let r : IsRegular code m (Funct.init_simulator m) = reg 0 (omega arith) in
      unfold Funct.init_simulator simulator in r.keeps

-- Where the functional simulator, started on a memory, runs to a halt within n instructions,
-- runTillHalt of the pipeline, started on the same memory, returns with any fuel of 5 n + 7 or
-- more, with the status HALT and with the same registers and the same memory; provided that at the
-- first n instructions and after them the PC lies in a set of addresses whose words are those at
-- the start, the PC plus 4 is not 0 modulo 2 ^ 64, and no word at the PC is illegal with the
-- opcode of branches or jalr.
pub run_till_halt-matches :
    (ic dc : CacheConfig) (m : MemoryStore) (code : ℕ → Type 0) (n fuel : ℕ) {c : Core} (f : Funct)
    → init_simulator ic dc m ≡ some c
    → Funct.run_till_halt n (Funct.init_simulator m) ≡ some (Status.halt, f)
    → ((j : ℕ) → j ≤ n → IsRegular code m (runs j (Funct.init_simulator m)))
    → 5 * n + 7 ≤ fuel
    → (o : Outcome) × (run_till_halt fuel c ≡ some o)
      × (o.status ≡ Status.halt)
      × (o.core.sim.registers ≡ f.sim.registers)
      × (o.core.sim.memory ≡ f.sim.memory)
run_till_halt-matches ic dc m code n fuel {c} f e ran reg enough =
    let text = regular_text code m n reg in
    let ends =
      matches code m n 5 c (Funct.init_simulator m) f
        (omega (arith, rank_le c.if_inst c.id_inst c.ex_inst)) (omega arith)
        (init-IsSettled ic dc m e) (init-IsTracking code m ic dc e text)
        (init-IsRunning code m ic dc e) (returned-steps n _ _ ran) reg in
    let g =
      run_till_halt-Gives ends.taken fuel c ends.core ends.halts
        (omega (arith, ends.within, enough)) in
    let same = ap (λ (c : Core). arch c.sim) g.its_core ∙ ends.machine in
    (
      g.outcome,
      g.returned,
      g.its_status,
      ap (λ (a : Arch). a.registers) same,
      ap (λ (a : Arch). a.memory) same,
    )
