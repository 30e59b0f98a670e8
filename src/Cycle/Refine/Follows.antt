-- ===== src/Cycle/Refine/Follows.antt =====
-- How far the pipeline is in the program after some cycles.
use ece375_project.Base.{ℕ, zero, suc, ◌+◌, ◌*◌, ◌≤◌, ◌≡◌, refl, arith, inl, inr, some}
use ece375_project.MemoryStore.{MemoryStore}
use ece375_project.Cache.{CacheConfig}
use ece375_project.Funct
use ece375_project.Funct.{Funct, run_one}
use ece375_project.Cycle.Step.{Core, init_simulator, step}
use ece375_project.Cycle.Step.Stalls.{IsSettled}
use ece375_project.Cycle.Step.Reach.{after, init-IsSettled, after-IsSettled}
use ece375_project.Cycle.Refine.{arch, retire, perform, execute}
use ece375_project.Cycle.Refine.Steps.{IsTracking, IsRegular}
use ece375_project.Cycle.Refine.Rank.{rank, rank_le}
use ece375_project.Cycle.Refine.Rounds.{step-IsTracking}
use ece375_project.Cycle.Refine.Matches.{runs}
use ece375_project.Cycle.Refine.Starts.{IsRegularFor, regular_text, init-IsTracking}

runs-suc : (n : ℕ) (f : Funct) → runs (suc n) f ≡ (run_one (runs n f)).0
unfolding runs
runs-suc zero f = refl
runs-suc (suc n) f = runs-suc n (run_one f).0

module _ (code : ℕ → Type 0) (m : MemoryStore) where
  -- The pipeline is `taken` instructions into the program after `n` cycles.
  record Follows (n : ℕ) (c : Core) : Type 0 where
    taken : ℕ
    no_faster : taken ≤ n
    no_slower : n + rank c.if_inst c.id_inst c.ex_inst ≤ 5 * taken + 4
    tracked : IsTracking code m c (runs taken (Funct.init_simulator m))

  Follows-step :
      (n : ℕ) (c : Core)
      → IsSettled c
      → IsRegularFor code m (suc n)
      → Follows n c
      → Follows (suc n) (step c).0
  Follows-step n c settled reg w =
      let f = runs w.taken (Funct.init_simulator m) in
      let next = runs-suc w.taken (Funct.init_simulator m) in
      let reg' : IsRegular code m (run_one f).0 =
        rw⁻¹ next (reg (suc w.taken) (omega (arith, w.no_faster))) in
      elim (step-IsTracking code m c f settled w.tracked (reg w.taken (omega (arith, w.no_faster)))
        (λ h. reg')) [
          | inl i ↦ record {
            taken = w.taken;
            no_faster = omega (arith, w.no_faster);
            no_slower = omega (arith, w.no_slower, i.sooner);
            tracked = i.follows;
          }
          | inr (_, _, i) ↦ record {
            taken = suc w.taken;
            no_faster = omega (arith, w.no_faster);
            no_slower = omega (
              arith,
              w.no_slower,
              rank_le (step c).0.if_inst (step c).0.id_inst (step c).0.ex_inst,
            );
            tracked = rw next i.follows;
          }
        ]

after-Follows :
    (ic dc : CacheConfig) (m : MemoryStore) (code : ℕ → Type 0) (n : ℕ) {c : Core}
    → init_simulator ic dc m ≡ some c
    → IsRegularFor code m n
    → Follows code m n (after n c)
unfolding after
after-Follows ic dc m code zero {c} e reg = record {
  taken = 0;
  no_faster = omega arith;
  no_slower = omega (arith, rank_le c.if_inst c.id_inst c.ex_inst);
  tracked = unfold runs in init-IsTracking code m ic dc e (regular_text code m 0 reg);
}
after-Follows ic dc m code (suc n) {c} e reg =
    Follows-step code m n (after n c) (after-IsSettled n (init-IsSettled ic dc m e)) reg
      (after-Follows ic dc m code n e (λ j h. reg j (omega (arith, h))))

-- After n cycles from initSimulator, the registers and the memory that the instructions in MEM, EX
-- and ID leave, done one after the other, are those of the functional simulator after some k
-- instructions, with k at most n and n at most 5 k + 4; provided that for the first n instructions
-- and after them the PC lies in a set of addresses whose words are those at the start, the PC plus
-- 4 is not 0 modulo 2 ^ 64, and no word at the PC is illegal with the opcode of branches or jalr.
pub after-runs :
    (ic dc : CacheConfig) (m : MemoryStore) (code : ℕ → Type 0) (n : ℕ) {c : Core}
    → init_simulator ic dc m ≡ some c
    → ((j : ℕ) → j ≤ n → IsRegular code m (runs j (Funct.init_simulator m)))
    → let c' = after n c in
      (k : ℕ) × (k ≤ n)
      × (n ≤ 5 * k + 4)
      × (execute c'.id_inst (perform c'.ex_inst (retire c'.mem_inst (arch c'.sim)))
          ≡ arch (runs k (Funct.init_simulator m)).sim)
after-runs ic dc m code n {c} e reg =
    let w = after-Follows ic dc m code n e reg in
    (w.taken, w.no_faster, omega (arith, w.no_slower), w.tracked.back.drained)
