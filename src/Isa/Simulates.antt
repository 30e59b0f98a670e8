-- ===== src/Isa/Simulates.antt =====
-- The functional simulator of src/funct.cpp, instruction by instruction, against programs of the
-- instruction set.
use mathlib.Core.Path.{subst}
use ece375_project.Base.{
  ℕ, zero, suc, ◌^◌, ◌<◌, ◌≡◌, ◌≢◌, refl, ap, sym, ◌∙◌, arith, true, false, not, ◌||◌, Bool-cases,
  inl, inr,
}
use ece375_project.Word.Fields.{bit_and-lt}
use ece375_project.Utilities.Extend.{of_ℤ-lt}
use ece375_project.Utilities.Codes.{Status}
use ece375_project.Simulator.Instruction.{Instruction}
use ece375_project.Simulator.Decode.Marks.{Runs}
use ece375_project.Simulator.Machine.{sim_if}
use ece375_project.Simulator.Machine.Bounds.{IsMachine}
use ece375_project.Simulator.Machine.Safety.{sim_instruction-IsMachine, sim_instruction_stopped}
use ece375_project.Funct.{Funct, run_one}
use ece375_project.Funct.Runs.{steps}
use ece375_project.Cycle.Step.Roles.{Roles}
use ece375_project.Cycle.Refine.{Arch, arch}
use ece375_project.Cycle.Refine.Fetched.{roles-instruction}
use ece375_project.Isa.{Effects, Continues}
use ece375_project.Isa.Executes.{sim_instruction-Executes, sim_instruction_unique}
use ece375_project.Isa.Program.{word_at, Program, count}

continues-lt : {i : Instruction} {a : Arch} {n : ℕ} → Continues i a n → n < 2 ^ 64
continues-lt (Continues.next x y z) = omega arith
continues-lt (Continues.jal o j) = omega arith
continues-lt (Continues.jalr o) = bit_and-lt 64 _ _ (of_ℤ-lt _) (omega arith)
continues-lt (Continues.taken o t b) = omega arith
continues-lt (Continues.not_taken o t) = omega arith

-- The flags that decide whether the loop goes on.
ran_flags :
    (c : Funct)
    → ((run_one c).1.is_halt ≡ (word_at (arch c.sim) c.pc).is_halt)
      × ((run_one c).1.is_legal ≡ (word_at (arch c.sim) c.pc).is_legal)
unfolding run_one sim_if
ran_flags c =
    let r = roles-instruction c.sim c.pc in
    (ap (λ (p : Roles). p.is_halt) r, ap (λ (p : Roles). p.is_legal) r)

stopped_arch :
    (c : Funct)
    → not (word_at (arch c.sim) c.pc).is_legal || (word_at (arch c.sim) c.pc).is_halt ≡ true
    → arch c.sim ≡ arch (run_one c).0.sim
unfolding run_one
stopped_arch c stop = sym (ap arch (sim_instruction_stopped c.sim c.pc stop).0)

-- An instruction that runs leads on to a machine of the same shape.
module _ {size : ℕ} (c : Funct) (m : IsMachine size c.sim) (small : c.pc < 2 ^ 64) where
  next-IsMachine : IsMachine size (run_one c).0.sim
  unfolding run_one
  next-IsMachine = sim_instruction-IsMachine c.sim c.pc m

  module _ (runs : Runs (word_at (arch c.sim) c.pc)) where
    ran :
        Effects (word_at (arch c.sim) c.pc) (arch c.sim) (arch (run_one c).0.sim)
        × Continues (word_at (arch c.sim) c.pc) (arch c.sim) (run_one c).0.pc
    unfolding run_one sim_if
    ran = sim_instruction-Executes c.sim c.pc m small runs

    ran_same :
        {a : Arch} {n : ℕ}
        → Effects (word_at (arch c.sim) c.pc) (arch c.sim) a
        → Continues (word_at (arch c.sim) c.pc) (arch c.sim) n
        → (arch (run_one c).0.sim ≡ a) × ((run_one c).0.pc ≡ n)
    unfolding run_one sim_if
    ran_same = sim_instruction_unique c.sim c.pc m small runs

pub steps-Program :
    {size : ℕ} (n : ℕ) (c : Funct)
    → IsMachine size c.sim
    → c.pc < 2 ^ 64
    → (steps n c).0 ≢ Status.success
    → Program (arch c.sim) c.pc (steps n c).0 (arch (steps n c).1.sim)
unfolding steps
steps-Program zero c m small stops = absurd (stops refl)
steps-Program (suc n) c m small stops =
    let (halt, legal) = ran_flags c in
    elim (Bool-cases (word_at (arch c.sim) c.pc).is_halt) [
      | inl on ↦
          rw (halt, on)
            (subst (Program (arch c.sim) c.pc Status.halt) (stopped_arch c (ground (arith, on)))
              (Program.halts on))
      | inr off ↦ elim (Bool-cases (word_at (arch c.sim) c.pc).is_legal) [
        | inr bad ↦
            rw (halt, off, legal, bad)
              (subst (Program (arch c.sim) c.pc Status.error) (stopped_arch c (ground (arith, bad)))
                (Program.traps off bad))
        | inl good ↦
            let (e, k) = ran c m small (record { legal = good; no_halt = off }) in
            rw (halt, off, legal, good)
              (Program.step (record { legal = good; no_halt = off }) e k
                (steps-Program n (run_one c).0 (next-IsMachine c m small) (continues-lt k)
                  (λ e. stops (rw (halt, off, legal, good) e))))
      ]
    ]

-- What the state of the functional simulator has to be before an instruction of a program.
pub record IsAt (size : ℕ) (c : Funct) (a : Arch) (pc : ℕ) : Type 0 where
  pub machine : IsMachine size c.sim
  pub same : arch c.sim ≡ a
  pub same_pc : c.pc ≡ pc
  pub small : c.pc < 2 ^ 64

module _ {size : ℕ} {a : Arch} {pc : ℕ} (c : Funct) (at_pc : IsAt size c a pc) where
  same_word : word_at (arch c.sim) c.pc ≡ word_at a pc
  same_word = ap (λ (x : Arch). word_at x c.pc) at_pc.same ∙ ap (word_at a) at_pc.same_pc

  -- The word at which the program stops.
  stopping :
      not (word_at a pc).is_legal || (word_at a pc).is_halt ≡ true → arch (run_one c).0.sim ≡ a
  stopping stop =
      sym (stopped_arch c (ap (λ (i : Instruction). not i.is_legal || i.is_halt) same_word ∙ stop))
      ∙ at_pc.same

  -- An instruction of the program.
  abbrev Leads : Arch → ℕ → Type 0
  Leads a pc =
      (a' : Arch) (n : ℕ)
      → Runs (word_at a pc)
      → Effects (word_at a pc) a a'
      → Continues (word_at a pc) a n
      → (arch (run_one c).0.sim ≡ a') × ((run_one c).0.pc ≡ n)

  leads : Leads a pc
  leads =
      subst (λ (x : Arch). Leads x pc) at_pc.same
        (subst (λ (n : ℕ). Leads (arch c.sim) n) at_pc.same_pc
          (λ a' n r. ran_same c at_pc.machine at_pc.small r))

  moved :
      {a' : Arch} {n : ℕ}
      → Runs (word_at a pc)
      → Effects (word_at a pc) a a'
      → Continues (word_at a pc) a n
      → IsAt size (run_one c).0 a' n
  moved r f k =
      let (e, p) = leads _ _ r f k in
      record {
        machine = next-IsMachine c at_pc.machine at_pc.small;
        same = e;
        same_pc = p;
        small = rw p (continues-lt k);
      }

-- The instructions of a program, run one by one.
pub program-steps :
    {size : ℕ} {a b : Arch} {pc : ℕ} {status : Status} (c : Funct) (p : Program a pc status b)
    → IsAt size c a pc
    → ((steps (count p) c).0 ≡ status) × (arch (steps (count p) c).1.sim ≡ b)
unfolding steps
program-steps c (Program.halts on) h =
    let f : (run_one c).1.is_halt ≡ true =
      (ran_flags c).0 ∙ ap (λ (i : Instruction). i.is_halt) (same_word c h) ∙ on in
    (rw f refl, rw f (stopping c h (ground (arith, on))))
program-steps c (Program.traps off bad) h =
    let f : (run_one c).1.is_halt ≡ false =
      (ran_flags c).0 ∙ ap (λ (i : Instruction). i.is_halt) (same_word c h) ∙ off in
    let g : (run_one c).1.is_legal ≡ false =
      (ran_flags c).1 ∙ ap (λ (i : Instruction). i.is_legal) (same_word c h) ∙ bad in
    (rw (f, g) refl, rw (f, g) (stopping c h (ground (arith, bad))))
program-steps c (Program.step r e k rest) h =
    let (status, same) = program-steps (run_one c).0 rest (moved c h r e k) in
    let f : (run_one c).1.is_halt ≡ false =
      (ran_flags c).0 ∙ ap (λ (i : Instruction). i.is_halt) (same_word c h) ∙ r.no_halt in
    let g : (run_one c).1.is_legal ≡ true =
      (ran_flags c).1 ∙ ap (λ (i : Instruction). i.is_legal) (same_word c h) ∙ r.legal in
    (rw (f, g) status, rw (f, g) same)
