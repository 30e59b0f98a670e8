-- ===== src/Cycle/Step/Reach.antt =====
-- The states that the pipeline reaches from `initSimulator`.
use ece375_project.Base.{ℕ, zero, suc, Bool, true, false, ◌≡◌, refl, arith, ◌||◌, some}
use ece375_project.Utilities.Codes.{StageStatus}
use ece375_project.MemoryStore.{MemoryStore}
use ece375_project.Cache.{CacheConfig}
use ece375_project.Cycle.Forward.{nop, load_use}
use ece375_project.Cycle.Step.{Core, init_simulator, must_stall, step}
use ece375_project.Cycle.Step.Stalls.{IsSettled, step-IsSettled, nop-decodes}
use ece375_project.Cycle.Step.Roles.{nop_no_late}

-- `n` cycles, whatever their status.
unfoldable pub after : ℕ → Core → Core
after zero c = c
after (suc n) c = (step (after n c)).0

-- The stages that `initSimulator` leaves to the first cycle are empty.
init_stages :
    (ic dc : CacheConfig) (m : MemoryStore) {c : Core}
    → init_simulator ic dc m ≡ some c
    → (c.if_inst ≡ nop StageStatus.idle)
      × (c.id_inst ≡ nop StageStatus.idle)
      × (c.ex_inst ≡ nop StageStatus.idle)
      × (c.mem_inst ≡ nop StageStatus.idle)
unfolding init_simulator
init_stages ic dc m e = ground arith

pub init-IsSettled :
    (ic dc : CacheConfig) (m : MemoryStore) {c : Core}
    → init_simulator ic dc m ≡ some c
    → IsSettled c
init-IsSettled ic dc m {c} e =
    let (f, d, x, y) = init_stages ic dc m e in
    record {
      decodes = rw f (nop-decodes StageStatus.idle);
      id_load = rw d (λ h. absurd (unfold nop in cc));
      ex_load = rw x (λ h. absurd (unfold nop in cc));
      arith_quiet = rw d (nop_no_late StageStatus.idle c.ex_inst).0;
      load_quiet = rw d (nop_no_late StageStatus.idle c.mem_inst).1;
    }

pub after-IsSettled : (n : ℕ) {c : Core} → IsSettled c → IsSettled (after n c)
unfolding after
after-IsSettled zero h = h
after-IsSettled (suc n) {c} h = step-IsSettled (after n c) (after-IsSettled n h)

pub settled_stall : (c : Core) → IsSettled c → must_stall c ≡ load_use c.id_inst c.ex_inst
unfolding must_stall
settled_stall c h = rw (h.arith_quiet, h.load_quiet) (or_false _)
  where
    or_false : (b : Bool) → b || false ≡ b
    or_false true = refl
    or_false false = refl
