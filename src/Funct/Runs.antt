-- ===== src/Funct/Runs.antt =====
-- The runs of the functional simulator, against running a given number of instructions.
use ece375_project.Base.{ℕ, zero, suc, ◌+◌, ◌^◌, ◌≤◌, ◌<◌, ◌≡◌, ◌≢◌, refl, arith}
use ece375_project.Base.{not, if◌then◌else◌, some}
use ece375_project.Word.{u64}
use ece375_project.Utilities.Codes.{Status}
use ece375_project.Funct.{Funct, run_one, run_loop, run_instructions, run_till_halt}

-- `n` instructions from a state, or as many as there are up to a halt or an illegal one.
unfoldable pub steps : ℕ → Funct → Status × Funct
steps zero c = (Status.success, c)
steps (suc n) c =
    let (c', inst) = run_one c in
    let rest = steps n c' in
    if inst.is_halt
    then (Status.halt, c')
    else if not inst.is_legal
    then (Status.error, c')
    else rest

-- The loop with `left` rounds to go.
run_loop-eq-steps :
    (left fuel n k : ℕ) (c : Funct)
    → 0 < n
    → n < 2 ^ 64
    → k + left ≡ n
    → left < fuel
    → run_loop fuel n k c ≡ some (steps left c)
unfolding run_loop steps
run_loop-eq-steps left zero n k c pos small e h = absurd (omega arith)
run_loop-eq-steps zero (suc fuel) n k c pos small e h = ground arith
run_loop-eq-steps (suc left) (suc fuel) n k c pos small e h = ground (
  arith,
  run_loop-eq-steps left fuel n (u64 (k + 1)) (run_one c).0 pos small (omega arith) (omega arith),
)

-- With any fuel above n, runInstructions(n) for a positive n below 2 ^ 64 returns the status and
-- the state of n instructions, or of those up to and with the first halt or illegal one.
pub run_instructions-eq-steps :
    (fuel n : ℕ) (c : Funct)
    → 0 < n
    → n < 2 ^ 64
    → n < fuel
    → run_instructions fuel n c ≡ some (steps n c)
unfolding run_instructions
run_instructions-eq-steps fuel n c pos small h =
    run_loop-eq-steps n fuel n 0 c pos small (omega arith) h

steps-add :
    (n m : ℕ) (c : Funct) → (steps n c).0 ≡ Status.success → steps (n + m) c ≡ steps m (steps n c).1
unfolding steps
steps-add zero m c h = rw ((let e : 0 + m ≡ m = omega arith in e)) refl
steps-add (suc n) m c h =
    let e : suc n + m ≡ suc (n + m) = omega arith in
    rw e (ground (arith, steps-add n m (run_one c).0))

-- The count of rounds has no effect on an unbounded run.
run_loop_unbounded : (fuel k : ℕ) (c : Funct) → run_till_halt fuel c ≡ run_loop fuel 0 k c
unfolding run_till_halt run_loop run_instructions
run_loop_unbounded zero k c = refl
run_loop_unbounded (suc fuel) k c =
    ground (arith, run_loop_unbounded fuel (u64 (k + 1)) (run_one c).0)

-- With any fuel, runTillHalt, which takes one instruction at a time, gives the status and the
-- state of an unbounded runInstructions(0).
pub run_till_halt-eq-run : (fuel : ℕ) (c : Funct) → run_till_halt fuel c ≡ run_instructions fuel 0 c
unfolding run_instructions
run_till_halt-eq-run fuel c = run_loop_unbounded fuel 0 c

-- Where a halt or an illegal instruction is among the first n, runTillHalt returns with any fuel
-- of n or more, with the status and the state of the instructions up to it.
pub run_till_halt-eq-steps :
    (n fuel : ℕ) (c : Funct)
    → (steps n c).0 ≢ Status.success
    → n ≤ fuel
    → run_till_halt fuel c ≡ some (steps n c)
unfolding steps run_till_halt run_instructions run_loop
run_till_halt-eq-steps zero fuel c stops h = absurd (stops refl)
run_till_halt-eq-steps (suc n) zero c stops h = absurd (omega arith)
run_till_halt-eq-steps (suc n) (suc fuel) c stops h =
    ground (arith, run_till_halt-eq-steps n fuel (run_one c).0)

-- For positive n and m with n + m below 2 ^ 64 and below the fuel, where runInstructions(n)
-- succeeds, running m more instructions gives the status and the state of running n + m.
pub run_instructions-add :
    (n m fuel : ℕ) (c c' : Funct)
    → 0 < n
    → 0 < m
    → n + m < 2 ^ 64
    → n + m < fuel
    → run_instructions fuel n c ≡ some (Status.success, c')
    → run_instructions fuel m c' ≡ run_instructions fuel (n + m) c
run_instructions-add n m fuel c c' hn hm small enough ran = ground (
  arith,
  run_instructions-eq-steps fuel n c,
  run_instructions-eq-steps fuel m c',
  run_instructions-eq-steps fuel (n + m) c,
  steps-add n m c,
)

-- Where `runTillHalt` returns, it has run the instructions up to where it stopped.
pub returned-steps :
    (n : ℕ) (c : Funct) (r : Status × Funct) → run_till_halt n c ≡ some r → steps n c ≡ r
unfolding steps run_till_halt run_instructions run_loop
returned-steps zero c r e = absurd cc
returned-steps (suc n) c r e = ground (arith, e, returned-steps n (run_one c).0 r)
