-- ===== src/Tests/Refines.antt =====
-- The pipeline against the functional simulator on a program.
use ece375_project.Base.{ℕ, zero, suc, ◌*◌, ◌+◌, ◌≤◌, ◌≡◌, refl, arith, some, ◌⊎◌, inl, inr, set}
use ece375_project.Utilities.Codes.{Status}
use ece375_project.MemoryStore.{MemoryStore}
use ece375_project.Simulator.Machine.{simulator}
use ece375_project.Funct
use ece375_project.Funct.Runs.{steps}
use ece375_project.Cycle.Step.Reach.{after}
use ece375_project.Cycle.Run.{Outcome, run_till_halt}
use ece375_project.Cycle.Refine.{arch, retire, perform, execute}
use ece375_project.Cycle.Refine.Steps.{KeepsText, IsRegular}
use ece375_project.Cycle.Refine.Matches.{runs}
use ece375_project.Cycle.Refine.Starts.{run_till_halt-matches}
use ece375_project.Cycle.Refine.Follows.{after-runs}
use ece375_project.Tests.Samples.{memory, config, core, funct}
use ece375_project.Tests.Programs.{functional, pipelined}
use ece375_project.Tests.Pipeline.{core_starts}

-- The four words of the program.
abbrev pub IsCode : ℕ → Type 0
IsCode pc = (pc ≡ 0) ⊎ (pc ≡ 4) ⊎ (pc ≡ 8) ⊎ (pc ≡ 12)

abbrev stored : MemoryStore
stored = record memory { mem_arr = set memory.mem_arr 20 42 }

stored-KeepsText : KeepsText IsCode memory stored
unfolding functional
stored-KeepsText pc (inl e) = rw e refl
stored-KeepsText pc (inr (inl e)) = rw e refl
stored-KeepsText pc (inr (inr (inl e))) = rw e refl
stored-KeepsText pc (inr (inr (inr e))) = rw e refl

pub regular : (j : ℕ) → j ≤ 4 → IsRegular IsCode memory (runs j (Funct.init_simulator memory))
unfolding pipelined runs Funct.init_simulator simulator
regular zero h = record {
  inside = inl refl;
  room = λ e. absurd cc;
  keeps = λ pc h. refl;
  legal = λ e. absurd cc;
}
regular (suc zero) h = record {
  inside = inr (inl refl);
  room = λ e. absurd cc;
  keeps = λ pc h. refl;
  legal = λ e. absurd cc;
}
regular (suc (suc zero)) h = record {
  inside = inr (inr (inl refl));
  room = λ e. absurd cc;
  keeps = λ pc h. refl;
  legal = λ e. absurd cc;
}
regular (suc (suc (suc zero))) h = record {
  inside = inr (inr (inr refl));
  room = λ e. absurd cc;
  keeps = stored-KeepsText;
  legal = λ e. absurd cc;
}
regular (suc (suc (suc (suc zero)))) h = record {
  inside = inl refl;
  room = λ e. absurd cc;
  keeps = stored-KeepsText;
  legal = λ e. absurd cc;
}
regular (suc (suc (suc (suc (suc j))))) h = absurd (omega (arith, h))

-- The functional simulator after the program.
abbrev pub finished : Funct.Funct
finished = (steps 4 funct).1

pub halted : Funct.run_till_halt 4 (Funct.init_simulator memory) ≡ some (Status.halt, finished)
unfolding functional Funct.init_simulator simulator
halted = refl

run_till_halt-matches_example :
    (o : Outcome) × (run_till_halt 27 core ≡ some o)
    × (o.status ≡ Status.halt)
    × (o.core.sim.registers ≡ finished.sim.registers)
    × (o.core.sim.memory ≡ finished.sim.memory)
run_till_halt-matches_example =
    run_till_halt-matches config config memory IsCode 4 27 finished core_starts halted regular
      (omega arith)

after-runs_example :
    let c' = after 4 core in
    (k : ℕ) × (k ≤ 4)
    × (4 ≤ 5 * k + 4)
    × (execute c'.id_inst (perform c'.ex_inst (retire c'.mem_inst (arch c'.sim)))
        ≡ arch (runs k (Funct.init_simulator memory)).sim)
after-runs_example = after-runs config config memory IsCode 4 core_starts regular
