-- ===== src/Isa/Runs.antt =====
-- Both simulators, started on a memory, against the instruction set.
use mathlib.Core.Path.{subst}
use ece375_project.Base.{
  ℕ, zero, suc, ◌+◌, ◌*◌, ◌≤◌, ◌≡◌, ◌≢◌, refl, ap, sym, ◌∙◌, arith, some, All, All-replicate,
  length,
}
use ece375_project.Utilities.Codes.{Status}
use ece375_project.MemoryStore.{MemoryStore}
use ece375_project.Cache.{CacheConfig}
use ece375_project.Simulator.Arith.Bounds.{IsWord}
use ece375_project.Simulator.Machine.{simulator}
use ece375_project.Simulator.Machine.Bounds.{IsMachine, IsByte, zero-IsWord}
use ece375_project.Funct
use ece375_project.Funct.{Funct, run_one, run_loop, run_instructions}
use ece375_project.Funct.Runs.{steps, returned-steps, run_till_halt-eq-steps}
use ece375_project.Cycle.Step.{Core, init_simulator}
use ece375_project.Cycle.Run.{Outcome, run_till_halt}
use ece375_project.Cycle.Refine.{Arch, arch}
use ece375_project.Cycle.Refine.Steps.{IsRegular}
use ece375_project.Cycle.Refine.Matches.{runs}
use ece375_project.Cycle.Refine.Starts.{run_till_halt-matches}
use ece375_project.Isa.Program.{Program, count, stops}
use ece375_project.Isa.Simulates.{IsAt, steps-Program, program-steps}

returned_stops :
    (n : ℕ) (c : Funct) (r : Status × Funct)
    → Funct.run_till_halt n c ≡ some r
    → r.0 ≢ Status.success
unfolding Funct.run_till_halt run_loop run_instructions
returned_stops zero c r e = absurd cc
returned_stops (suc n) c r e = ground (arith, e, returned_stops n (run_one c).0 r)

module _ (m : MemoryStore) (bytes : All IsByte m.mem_arr) where
  started-IsMachine : IsMachine (length m.mem_arr) (Funct.init_simulator m).sim
  unfolding Funct.init_simulator simulator
  started-IsMachine = record {
    all_registers = refl;
    words = All-replicate IsWord 32 zero-IsWord;
    bytes = bytes;
    all_bytes = refl;
  }

  started-IsAt : IsAt (length m.mem_arr) (Funct.init_simulator m) (arch (simulator m)) 0
  started-IsAt = record {
    machine = started-IsMachine;
    same = unfold Funct.init_simulator in refl;
    same_pc = unfold Funct.init_simulator in refl;
    small = unfold Funct.init_simulator in omega arith;
  }

  -- Where runTillHalt of the functional simulator, started on a memory of bytes, returns, what it
  -- has run is a program of the instruction set from address 0, with the status, the registers and
  -- the memory that it returns.
  pub run_till_halt-Program :
      (fuel : ℕ) (status : Status) (f : Funct)
      → Funct.run_till_halt fuel (Funct.init_simulator m) ≡ some (status, f)
      → Program (arch (simulator m)) 0 status (arch f.sim)
  unfolding Funct.init_simulator
  run_till_halt-Program fuel status f e =
      let c = Funct.init_simulator m in
      let ran = returned-steps fuel c (status, f) e in
      let p = steps-Program fuel c started-IsMachine (omega arith) (λ h.
        returned_stops fuel c (status, f) e (sym (ap (λ (r : Status × Funct). r.0) ran) ∙ h)) in
      subst (λ (r : Status × Funct). Program (arch c.sim) c.pc r.0 (arch r.1.sim)) ran p

  module _ {status : Status} {b : Arch} (p : Program (arch (simulator m)) 0 status b) where
    -- A program of the instruction set that starts at address 0 of a memory of bytes is run by
    -- runTillHalt of the functional simulator, with any fuel that is not less than the number of
    -- its instructions, to its status, its registers and its memory.
    pub program-run_till_halt :
        (fuel : ℕ)
        → count p ≤ fuel
        → (f : Funct) × (Funct.run_till_halt fuel (Funct.init_simulator m) ≡ some (status, f))
          × (arch f.sim ≡ b)
    program-run_till_halt fuel enough =
        let c = Funct.init_simulator m in
        let (s, same) = program-steps c p started-IsAt in
        let ran = run_till_halt-eq-steps (count p) fuel c (λ e. stops p (sym s ∙ e)) enough in
        ((steps (count p) c).1, ran ∙ ap (λ (t : Status). some (t, (steps (count p) c).1)) s, same)

  -- A program of the instruction set that starts at address 0 of a memory of bytes and ends at the
  -- halt word is run by runTillHalt of the pipeline, with any fuel of 5 n + 7 or more for its n
  -- instructions, to the status HALT, its registers and its memory; provided that at the first n
  -- instructions and after them the PC lies in a set of addresses whose words are those at the
  -- start, the PC plus 4 is not 0 modulo 2 ^ 64, and no word at the PC is illegal with the opcode
  -- of branches or jalr.
  pub program-pipeline :
      (ic dc : CacheConfig) (code : ℕ → Type 0) (fuel : ℕ) {c : Core} {b : Arch}
      (p : Program (arch (simulator m)) 0 Status.halt b)
      → init_simulator ic dc m ≡ some c
      → ((j : ℕ) → j ≤ count p → IsRegular code m (runs j (Funct.init_simulator m)))
      → 5 * count p + 7 ≤ fuel
      → (o : Outcome) × (run_till_halt fuel c ≡ some o)
        × (o.status ≡ Status.halt)
        × (arch o.core.sim ≡ b)
  program-pipeline ic dc code fuel {c} {b} p e reg enough =
      let (f, ran, same) = program-run_till_halt p (count p) (omega arith) in
      let (o, returned, status, registers, memory) =
        run_till_halt-matches ic dc m code (count p) fuel f e ran reg enough in
      (o, returned, status, ground (arith, registers, memory, same))
