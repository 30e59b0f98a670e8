-- ===== src/Cycle/Refine/Steps.antt =====
-- One cycle of the pipeline against the functional simulator.
use ece375_project.Base.{◌≢◌, ℕ, true, false, ◌≡◌, refl, ap, ◌∙◌, arith, List, length, ◌⊎◌}
use ece375_project.Word.{add64}
use ece375_project.Utilities.Codes.{StageStatus}
use ece375_project.MemoryStore.{MemoryStore}
use ece375_project.Simulator.Instruction.{Instruction}
use ece375_project.Simulator.Decode.{sim_decode}
use ece375_project.Simulator.Access.{sim_mem_access, sim_commit, written_value}
use ece375_project.Simulator.Machine.{Simulator, sim_fetch, sim_if, sim_ex}
use ece375_project.Funct.{Funct}
use ece375_project.Cycle.Forward.{nop, load_use, forward_operands, resolves_in_id}
use ece375_project.Cycle.Forward.Commits.{commit, length-commit}
use ece375_project.Cycle.Step.{Core, marked}
use ece375_project.Cycle.Step.Roles.{roles, roles-ex, roles-marked, roles-forward_operands}
use ece375_project.Cycle.Refine.{Arch, arch, retire, perform, execute}
use ece375_project.Cycle.Refine.Operands.{IsHeld, commit-IsHeld}
use ece375_project.Cycle.Refine.Effects.{perform_idle}
use ece375_project.Cycle.Refine.Issue.{nop-IsKnown}
use ece375_project.Cycle.Refine.Tracking.{
  IsKnown, IsFresh, IsSupplied, IsFresh-IsSupplied, IsFresh-commit, ex-executes,
}

-- The next instruction of the functional simulator is in IF, or the PC is at it behind a bubble.
abbrev pub IsFront : Instruction → ℕ → Funct → Type 0
IsFront fetched pc f =
    ((fetched ≡ sim_if f.sim f.pc) × (pc ≡ add64 f.pc 4))
    ⊎ ((st : StageStatus) × (fetched ≡ nop st) × (pc ≡ f.pc))

-- The registers and the memory once MEM and EX are done.
abbrev pub past_ex : Simulator → Instruction → Instruction → Arch
past_ex s mem ex = perform ex (retire mem (arch s))

past_nop :
    (s : Simulator) (mem : Instruction)
    → past_ex s mem (nop StageStatus.bubble) ≡ retire mem (arch s)
past_nop s mem =
    perform_idle (nop StageStatus.bubble) (retire mem (arch s))
      (nop-IsKnown StageStatus.bubble).decoded (unfold nop in refl) (unfold nop in refl)

module _ (code : ℕ → Type 0) (text : MemoryStore) where
  -- The words at the addresses of the code are those of the text.
  abbrev pub KeepsText : MemoryStore → Type 0
  KeepsText memory = (pc : ℕ) → code pc → sim_fetch pc memory ≡ sim_fetch pc text

  -- The stages behind IF: done with them, the machine is that of the functional simulator.
  pub record IsBacked (s : Simulator) (mem ex id done : Instruction) (f : Funct) : Type 0 where
    pub drained : execute id (past_ex s mem ex) ≡ arch f.sim
    pub known : IsKnown id
    pub sized : length s.registers ≡ 32
    pub apart : load_use ex mem ≡ false
    pub held : IsHeld done s.registers
    pub supplied : IsSupplied done s.registers id
    pub fresh : load_use id ex ≡ true → IsFresh s.registers id
    pub kept : KeepsText s.memory
    pub kept_ex : KeepsText (past_ex s mem ex).memory

  pub record IsTracking (c : Core) (f : Funct) : Type 0 where
    pub back : IsBacked c.sim c.mem_inst c.ex_inst c.id_inst c.done_inst f
    pub front : IsFront c.if_inst c.pc f

  -- What WB, MEM and EX of a cycle leave to ID, which has nothing in it yet.
  pub record IsReady (s : Simulator) (mem ex wb done : Instruction) (f : Funct) : Type 0 where
    pub moved : past_ex s mem ex ≡ arch f.sim
    pub before : List ℕ
    pub written : s.registers ≡ commit wb before
    pub sized : length before ≡ 32
    pub apart : load_use ex mem ≡ false
    pub held : IsHeld done before
    pub kept : KeepsText s.memory
    pub kept_ex : KeepsText (past_ex s mem ex).memory

  -- The functional simulator is at code that nobody has changed, and not at an illegal branch.
  pub record IsRegular (f : Funct) : Type 0 where
    pub inside : code f.pc
    pub room : add64 f.pc 4 ≢ 0
    pub keeps : KeepsText f.sim.memory
    pub legal :
        let d = sim_decode (sim_if f.sim f.pc) in resolves_in_id d ≡ true → d.is_legal ≡ true

  pub keeps_along : {a b : Arch} → a ≡ b → KeepsText b.memory → KeepsText a.memory
  keeps_along e k = rw e k

  module _ (c : Core) (f : Funct)
      (b : IsBacked c.sim c.mem_inst c.ex_inst c.id_inst c.done_inst f) where
    abbrev pub wb' : Instruction
    wb' = record c.mem_inst { status = StageStatus.normal }

    abbrev pub mem' : Instruction
    mem' = marked (sim_mem_access c.ex_inst c.sim.memory).0

    abbrev pub s' : Simulator
    s' = record c.sim {
      registers = commit c.mem_inst c.sim.registers;
      memory = (sim_mem_access c.ex_inst c.sim.memory).1;
    }

    abbrev pub ex' : Instruction
    ex' = marked (sim_ex (forward_operands mem' wb' c.done_inst c.id_inst))

    retired : retire mem' (arch s') ≡ past_ex c.sim c.mem_inst c.ex_inst
    unfolding marked sim_commit written_value
    retired = refl

    moves : past_ex s' mem' ex' ≡ arch f.sim
    unfolding marked sim_commit written_value
    moves =
        ex-executes mem' wb' c.done_inst c.id_inst c.sim.registers s'.memory b.known b.sized
          b.supplied
        ∙ b.drained

    pub mem_roles : roles mem' ≡ roles c.ex_inst
    unfolding marked sim_mem_access
    mem_roles = ground arith

    pub ex_roles : roles ex' ≡ roles c.id_inst
    ex_roles = roles-marked _ ∙ roles-ex _ ∙ roles-forward_operands mem' wb' c.done_inst c.id_inst

    -- WB, MEM and EX of a cycle that does not stall.
    pub ready :
        load_use c.id_inst c.ex_inst ≡ false
        → KeepsText f.sim.memory
        → IsReady s' mem' ex' wb' c.done_inst f
    ready go k = record {
      moved = moves;
      before = c.sim.registers;
      written = unfold sim_commit written_value in refl;
      sized = b.sized;
      apart = unfold load_use in ground (arith, go, mem_roles, ex_roles);
      held = b.held;
      kept = b.kept_ex;
      kept_ex = keeps_along moves k;
    }

    -- WB, MEM and EX of a cycle that stalls.
    pub stalled :
        load_use c.id_inst c.ex_inst ≡ true
        → KeepsText f.sim.memory
        → IsBacked s' mem' (nop StageStatus.bubble) c.id_inst wb' f
    stalled on k =
        let bubble = past_nop s' mem' ∙ retired in
        record {
          drained = ap (execute c.id_inst) bubble ∙ b.drained;
          known = b.known;
          sized = length-commit c.mem_inst c.sim.registers ∙ b.sized;
          apart = unfold load_use nop in ground arith;
          held = unfold sim_commit written_value in commit-IsHeld wb' c.sim.registers;
          supplied =
              unfold sim_commit written_value in
              IsFresh-commit wb' c.id_inst c.sim.registers b.sized b.known (b.fresh on);
          fresh = λ h. absurd (unfold load_use nop in ground arith);
          kept = b.kept_ex;
          kept_ex = keeps_along bubble b.kept_ex;
        }

  -- The stages once ID has handed on an instruction.
  pub backed :
      (s : Simulator) (mem ex wb done id : Instruction) (f f' : Funct)
      → IsReady s mem ex wb done f
      → IsKnown id
      → IsFresh s.registers id
      → execute id (arch f.sim) ≡ arch f'.sim
      → IsBacked s mem ex id wb f'
  backed s mem ex wb done id f f' r k fr e =
      let sized : length s.registers ≡ 32 = rw r.written (length-commit wb r.before ∙ r.sized) in
      let held : IsHeld wb s.registers = rw r.written (commit-IsHeld wb r.before) in
      record {
        drained = ap (execute id) r.moved ∙ e;
        known = k;
        sized = sized;
        apart = r.apart;
        held = held;
        supplied = IsFresh-IsSupplied wb id s.registers sized k held fr;
        fresh = λ h. fr;
        kept = r.kept;
        kept_ex = r.kept_ex;
      }
