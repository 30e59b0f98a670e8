-- ===== src/Cycle/Run/Loops.antt =====
-- The loops of src/cycle.cpp, against a given number of cycles.
use ece375_project.Base.{
  ap, sym, ◌∙◌, ℕ, zero, suc, ◌+◌, ◌^◌, ◌≤◌, ◌<◌, ◌≡◌, ◌≢◌, refl, arith, Option, some,
}
use ece375_project.Word.{u64}
use ece375_project.Utilities.Codes.{Status}
use ece375_project.Cycle.Step.{Core, step}
use ece375_project.Cycle.Run.{Outcome, pipe_state, cycle_loop, run_cycles, run_till_halt}

-- `runTillHalt`, which takes one cycle at a time, is `runCycles(0)`, which runs without a bound:
-- the same states, the same reported pipeline state, and the same rounds.
cycle_loop_unbounded : (fuel k y : ℕ) (c : Core) → run_till_halt fuel c ≡ cycle_loop fuel 0 k y c
unfolding run_till_halt cycle_loop run_cycles
cycle_loop_unbounded zero k y c = refl
cycle_loop_unbounded (suc fuel) k y c =
    ground (arith, cycle_loop_unbounded fuel (u64 (k + 1)) c.cycle_count (step c).0)

-- With any fuel, runTillHalt, which takes one cycle at a time, gives the status, the reported
-- pipeline state and the state of an unbounded runCycles(0).
pub run_till_halt-eq-run_cycles : (fuel : ℕ) (c : Core) → run_till_halt fuel c ≡ run_cycles fuel 0 c
unfolding run_cycles
run_till_halt-eq-run_cycles fuel c = cycle_loop_unbounded fuel 0 0 c

-- `n` cycles, or as many as there are up to the one that retires a halt.
unfoldable pub cycles : ℕ → Core → Status × Core
cycles zero c = (Status.success, c)
cycles (suc n) c =
    let (c', status) = step c in
    let rest = cycles n c' in elim status [ Status.halt ↦ (Status.halt, c') | _ ↦ rest ]

pub record Gives (o : Option Outcome) (status : Status) (c : Core) : Type 0 where
  pub outcome : Outcome
  pub returned : o ≡ some outcome
  pub its_status : outcome.status ≡ status
  pub its_core : outcome.core ≡ c

module _ (fuel n k y : ℕ) (c : Core) where
  loop_stops : 0 < n → n ≤ k → Gives (cycle_loop (suc fuel) n k y c) Status.success c
  unfolding cycle_loop
  loop_stops pos done = record {
    outcome = record { status = Status.success; pipe = pipe_state y c; core = c };
    returned = ground arith;
    its_status = refl;
    its_core = refl;
  }

  loop_halts :
      k < n
      → (step c).1 ≡ Status.halt
      → Gives (cycle_loop (suc fuel) n k y c) Status.halt (step c).0
  unfolding cycle_loop
  loop_halts more halts = record {
    outcome = record {
      status = Status.halt;
      pipe = pipe_state c.cycle_count (step c).0;
      core = (step c).0;
    };
    returned = ground arith;
    its_status = refl;
    its_core = refl;
  }

  loop_goes_on :
      k < n
      → (step c).1 ≢ Status.halt
      → cycle_loop (suc fuel) n k y c ≡ cycle_loop fuel n (u64 (k + 1)) c.cycle_count (step c).0
  unfolding cycle_loop
  loop_goes_on more runs = ground arith

pub cycles_halts :
    (n : ℕ) (c : Core) → (step c).1 ≡ Status.halt → cycles (suc n) c ≡ (Status.halt, (step c).0)
unfolding cycles
cycles_halts n c h = ground arith

pub cycles_go_on :
    (n : ℕ) (c : Core) → (step c).1 ≢ Status.halt → cycles (suc n) c ≡ cycles n (step c).0
unfolding cycles
cycles_go_on n c h = ground arith

Status-discrete : Discrete Status
Status-discrete = hlevel

cycle_loop-Gives :
    (left fuel n k y : ℕ) (c : Core)
    → 0 < n
    → n < 2 ^ 64
    → k + left ≡ n
    → left < fuel
    → Gives (cycle_loop fuel n k y c) (cycles left c).0 (cycles left c).1
cycle_loop-Gives left zero n k y c pos small e h = absurd (omega arith)
cycle_loop-Gives zero (suc fuel) n k y c pos small e h =
    unfold cycles in loop_stops fuel n k y c pos (omega arith)
cycle_loop-Gives (suc left) (suc fuel) n k y c pos small e h =
    elim (Status-discrete (step c).1 Status.halt) [
      | yes halts ↦ rw (cycles_halts left c halts) (loop_halts fuel n k y c (omega arith) halts)
      | no runs ↦
          rw (loop_goes_on fuel n k y c (omega arith) runs, cycles_go_on left c runs)
            (cycle_loop-Gives left fuel n (u64 (k + 1)) c.cycle_count (step c).0 pos small
              (omega arith) (omega arith))
    ]

-- With any fuel above n, runCycles(n) for a positive n below 2 ^ 64 returns the status and the
-- state of n cycles, or of those up to and with the one that retires a halt.
pub run_cycles-Gives :
    (fuel n : ℕ) (c : Core)
    → 0 < n
    → n < 2 ^ 64
    → n < fuel
    → Gives (run_cycles fuel n c) (cycles n c).0 (cycles n c).1
unfolding run_cycles
run_cycles-Gives fuel n c pos small h = cycle_loop-Gives n fuel n 0 0 c pos small (omega arith) h

module _ (fuel k y : ℕ) (c : Core) where
  unbounded_halts :
      (step c).1 ≡ Status.halt → Gives (cycle_loop (suc fuel) 0 k y c) Status.halt (step c).0
  unfolding cycle_loop
  unbounded_halts halts = record {
    outcome = record {
      status = Status.halt;
      pipe = pipe_state c.cycle_count (step c).0;
      core = (step c).0;
    };
    returned = ground arith;
    its_status = refl;
    its_core = refl;
  }

  unbounded_goes_on :
      (step c).1 ≢ Status.halt
      → cycle_loop (suc fuel) 0 k y c ≡ cycle_loop fuel 0 (u64 (k + 1)) c.cycle_count (step c).0
  unfolding cycle_loop
  unbounded_goes_on runs = ground arith

unbounded-Gives :
    (n fuel k y : ℕ) (c c' : Core)
    → cycles n c ≡ (Status.halt, c')
    → n ≤ fuel
    → Gives (cycle_loop fuel 0 k y c) Status.halt c'
unbounded-Gives zero fuel k y c c' e h = absurd (unfold cycles in cc)
unbounded-Gives (suc n) zero k y c c' e h = absurd (omega arith)
unbounded-Gives (suc n) (suc fuel) k y c c' e h = elim (Status-discrete (step c).1 Status.halt) [
  | yes halts ↦
      rw (ap (λ (p : Status × Core). p.1) (sym e ∙ cycles_halts n c halts))
        (unbounded_halts fuel k y c halts)
  | no runs ↦ rw (unbounded_goes_on fuel k y c runs) (
      unbounded-Gives n fuel (u64 (k + 1)) c.cycle_count (step c).0 c'
        (sym (cycles_go_on n c runs) ∙ e) (omega arith))
]

-- Where the pipeline reports a halt within `n` cycles, `runTillHalt` returns.
pub run_till_halt-Gives :
    (n fuel : ℕ) (c c' : Core)
    → cycles n c ≡ (Status.halt, c')
    → n ≤ fuel
    → Gives (run_till_halt fuel c) Status.halt c'
run_till_halt-Gives n fuel c c' e h =
    rw (cycle_loop_unbounded fuel 0 0 c) (unbounded-Gives n fuel 0 0 c c' e h)
