-- ===== src/Cycle/Refine/Fronts.antt =====
-- ID and IF of a cycle against the functional simulator.
use ece375_project.Base.{
  ◌≢◌, Bool, ℕ, ◌+◌, ◌<◌, true, false, ◌≡◌, refl, ap, ◌∙◌, sym, arith, List, Bool-cases, ◌⊎◌, inl,
  inr, not, ◌==◌,
}
use ece375_project.Word.{u64, add64}
use ece375_project.Utilities.Codes.{StageStatus}
use ece375_project.MemoryStore.{MemoryStore}
use ece375_project.Simulator.Instruction.{Instruction}
use ece375_project.Simulator.Decode.{sim_decode}
use ece375_project.Simulator.Decode.Flags.{IsRaw}
use ece375_project.Simulator.Access.{sim_mem_access}
use ece375_project.Simulator.Machine.{Simulator, number, sim_fetch, sim_if, sim_id}
use ece375_project.Funct.{Funct}
use ece375_project.Cycle.Forward.{nop, hazard, forward, resolves_in_id, must_wait}
use ece375_project.Cycle.Forward.Commits.{commit, length-commit}
use ece375_project.Cycle.Step.{Core, step_if, advance}
use ece375_project.Cycle.Step.Roles.{roles-id}
use ece375_project.Cycle.Refine.{Arch, operand}
use ece375_project.Cycle.Refine.Operands.{operand-commit, forward-branch}
use ece375_project.Simulator.Machine.Stages.{sim_fetch-IsRaw}
use ece375_project.Cycle.Refine.Issue.{id_operands}
use ece375_project.Cycle.Refine.Tracking.{IsKnown, IsResolvable}
use ece375_project.Cycle.Refine.Steps.{IsFront, IsReady}

pub sim_id-sim :
    (s : Simulator) (i : Instruction) → (sim_id s i).0 ≡ record s { din = u64 (s.din + 1) }
unfolding sim_id number
sim_id-sim s i = ground arith

pub sim_if-IsRaw : (s : Simulator) (pc : ℕ) → IsRaw (sim_if s pc)
unfolding sim_if
sim_if-IsRaw s pc = sim_fetch-IsRaw s pc

access_hazard :
    (i : Instruction) (m : MemoryStore) (r : ℕ) → hazard (sim_mem_access i m).0 r ≡ hazard i r
unfolding sim_mem_access hazard
access_hazard i m r = ground arith

-- What the next PC that ID has found puts into IF: the word there, or a bubble if it is not the
-- address behind the instruction.
abbrev pub IsNext : Bool → Instruction → ℕ → Funct → Type 0
IsNext jump fetched pc f =
    ((jump ≡ false) × (fetched ≡ sim_if f.sim f.pc) × (pc ≡ add64 f.pc 4))
    ⊎ ((jump ≡ true) × (fetched ≡ nop StageStatus.bubble) × (pc ≡ f.pc))

pub IsNext-IsFront :
    (jump : Bool) (fetched : Instruction) (pc : ℕ) (f : Funct)
    → IsNext jump fetched pc f
    → IsFront fetched pc f
IsNext-IsFront jump fetched pc f (inl (_, word, at)) = inl (word, at)
IsNext-IsFront jump fetched pc f (inr (_, word, at)) = inr (StageStatus.bubble, word, at)

pub IsNext-far :
    (x y : ℕ) (fetched : Instruction) (pc : ℕ) (f : Funct)
    → x ≢ y
    → IsNext (not (x == y)) fetched pc f
    → fetched ≡ nop StageStatus.bubble
IsNext-far x y fetched pc f far (inl (on, _, _)) = absurd (ground arith)
IsNext-far x y fetched pc f far (inr (_, bubble, _)) = bubble

pub IsNext-near :
    (x y : ℕ) (fetched : Instruction) (pc : ℕ) (f : Funct)
    → x ≡ y
    → IsNext (not (x == y)) fetched pc f
    → fetched.is_nop ≡ false
unfolding sim_if sim_fetch
IsNext-near x y fetched pc f near (inl (_, word, _)) = ap (λ (i : Instruction). i.is_nop) word
IsNext-near x y fetched pc f near (inr (jump, _, _)) = absurd (ground arith)

-- ID and IF go on at the next PC of the functional simulator: the PC is one instruction behind a
-- word in IF, and at the next one behind a bubble.
pub advanced :
    (c : Core) (i : Instruction) (f : Funct)
    → ((i.next_pc ≡ f.pc) × (c.pc ≡ add64 c.if_inst.pc 4))
      ⊎ ((i.next_pc ≡ add64 c.if_inst.pc 4) × (c.pc ≡ f.pc))
    → sim_if c.sim f.pc ≡ sim_if f.sim f.pc
    → (P : Core → Type 0)
    → ((pc : ℕ) (fetched : Instruction)
        → IsNext (not (i.next_pc == add64 c.if_inst.pc 4)) fetched pc f
        → P (record c { id_inst = i; if_inst = fetched; pc = pc }))
    → P (advance c i)
unfolding advance step_if
advanced c i f n same P h = elim (Bool-cases (not (i.next_pc == add64 c.if_inst.pc 4))) [
  | inl jump ↦
      rw jump (h i.next_pc (nop StageStatus.bubble) (inr (jump, refl, ground (arith, jump))))
  | inr on ↦
      let there : c.pc ≡ f.pc = ground (arith, on) in
      let fetched = record (sim_if c.sim c.pc) { status = StageStatus.normal } in
      let same' : fetched ≡ sim_if f.sim f.pc =
        unfold sim_if sim_fetch in
        ap (λ (pc : ℕ). record (sim_if c.sim pc) { status = StageStatus.normal }) there ∙ same in
      rw on (h (add64 c.pc 4) fetched (inl (on, same', ap (λ (pc : ℕ). add64 pc 4) there)))
]

module _ (code : ℕ → Type 0) (text : MemoryStore) (c : Core) (f : Funct)
    (r : IsReady code text c.sim c.mem_inst c.ex_inst c.wb_inst c.done_inst f) where
  branch_operand :
      (n value : ℕ)
      → n < 32
      → hazard c.ex_inst n ≡ false
      → value ≡ operand c.sim.registers n
      → forward c.mem_inst c.wb_inst c.done_inst n value ≡ operand f.sim.registers n
  branch_operand n value fits clear v =
      let after_mem = commit c.mem_inst c.sim.registers in
      forward-branch c.mem_inst c.wb_inst c.done_inst r.before n value (rw r.sized fits) r.held
        (v ∙ ap (λ (l : List ℕ). operand l n) r.written)
      ∙ sym (ap (λ (l : List ℕ). operand (commit c.mem_inst l) n) r.written)
      ∙ sym (
          operand-commit (sim_mem_access c.ex_inst c.sim.memory).0 after_mem n (
            rw
              (
                length-commit c.mem_inst c.sim.registers,
                r.written,
                length-commit c.wb_inst r.before,
                r.sized,
              )
              fits)
          ∙ rw (access_hazard c.ex_inst c.sim.memory n, clear) refl)
      ∙ ap (λ (a : Arch). operand a.registers n) r.moved

  -- A branch that ID does not hold back has its operands.
  pub resolvable :
      (s : Simulator) (i : Instruction)
      → let new = (sim_id s i).1 in
        s.registers ≡ c.sim.registers
        → IsKnown (sim_decode i)
        → must_wait new c.ex_inst c.mem_inst ≡ false
        → resolves_in_id new ≡ true
        → new.is_legal ≡ true
        → IsResolvable c new f.sim.registers
  resolvable s i e k go on legal =
      let new = (sim_id s i).1 in
      let same = roles-id s i in
      let operands = id_operands s i k in
      (
        legal,
        (unfold resolves_in_id in ground (arith, k.classed.halting, same)),
        (λ reads.
            branch_operand new.rs1 new.op1_val (ground (arith, same, k.rs1))
              (unfold must_wait in ground (arith, go, on))
              (operands.0 reads ∙ ap (λ (l : List ℕ). operand l new.rs1) e)),
        (λ reads.
            branch_operand new.rs2 new.op2_val (ground (arith, same, k.rs2))
              (unfold must_wait in ground (arith, go, on))
              (operands.1 reads ∙ ap (λ (l : List ℕ). operand l new.rs2) e)),
      )
