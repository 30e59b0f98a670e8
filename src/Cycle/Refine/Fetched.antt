-- ===== src/Cycle/Refine/Fetched.antt =====
-- What the functional simulator does with a word, and what ID makes of the same word.
use ece375_project.Base.{
  ℕ, true, false, ◌≡◌, refl, ap, ◌∙◌, sym, arith, Bool-cases, inl, inr, ◌||◌, not,
}
use ece375_project.Utilities.Codes.{op_branch}
use ece375_project.Simulator.Instruction.{Instruction}
use ece375_project.Simulator.Decode.{sim_decode}
use ece375_project.Simulator.Decode.Classes.{IsClassed, sim_decode-IsClassed}
use ece375_project.Simulator.Decode.Flags.{IsRaw, IsDecoded, sim_decode-IsDecoded}
use ece375_project.Simulator.Resolve.{
  branch_taken, branch_target, branch_imm, jal_target, jal_imm, resolved_pc, sim_next_pc_resolution,
  sim_operand_collection,
}
use ece375_project.Simulator.Arith.{mask_shift, sim_arith_logic}
use ece375_project.Simulator.Access.{sim_addr_gen, sim_mem_access}
use ece375_project.Simulator.Machine.{
  Simulator, number, sim_if, sim_id, sim_ex, sim_mem, sim_wb, sim_instruction,
}
use ece375_project.Simulator.Machine.Stages.{staged, sim_fetch-IsRaw, staged-eq-instruction}
use ece375_project.Cycle.Forward.{resolves_in_id}
use ece375_project.Cycle.Step.Roles.{roles, roles-ex, roles-mem, roles-id}
use ece375_project.Cycle.Refine.{Arch, arch, perform, execute}
use ece375_project.Cycle.Refine.Effects.{
  IsDecoded-roles, IsClassed-roles, perform_same, sim_ex-IsSame, perform_idle, collection-roles,
  collected,
}
use ece375_project.Cycle.Refine.Stages.{sim_wb-commit, sim_mem-access}

-- What an instruction does depends on what the decoder found only.
pub execute_same :
    (i j : Instruction) (a : Arch)
    → roles i ≡ roles j
    → i.arith_result ≡ j.arith_result
    → IsClassed j
    → IsDecoded j
    → execute i a ≡ execute j a
execute_same i j a e old c d =
    let ci = sim_operand_collection i a.registers in
    let cj = sim_operand_collection j a.registers in
    let ri = collection-roles i a.registers in
    let rj = collection-roles j a.registers in
    let fi = collected i a.registers in
    let fj = collected j a.registers in
    sym (
      perform_same (sim_ex cj) (sim_ex ci) a (
        sim_ex-IsSame cj ci
          (record {
            same_roles = rj ∙ sym e ∙ sym ri;
            op1 = λ o r. ground (arith, e, ri, rj, fi, fj);
            op2 = λ o r. ground (arith, e, ri, rj, fi, fj);
            old = fj.2 ∙ sym old ∙ sym fi.2;
          })
          (IsClassed-roles j cj (sym rj) c) (IsDecoded-roles j cj (sym rj) d)))

-- The last three stages.
late_stages :
    (s : Simulator) (i : Instruction)
    → arch (let (s2, m) = sim_mem s (sim_ex i) in sim_wb s2 m).0 ≡ perform (sim_ex i) (arch s)
late_stages s i = rw (sim_mem-access s (sim_ex i), sim_wb-commit) refl

-- An instruction that is illegal or a halt does nothing.
ex_stopped :
    (i : Instruction) (a : Arch)
    → IsDecoded i
    → not i.is_legal || i.is_halt ≡ true
    → perform (sim_ex i) a ≡ a
ex_stopped i a d stop =
    perform_idle (sim_ex i) a (IsDecoded-roles i (sim_ex i) (sym (roles-ex i)) d)
      (ground (arith, roles-ex i, d.illegal_idle, d.halt_idle))
      (ground (arith, roles-ex i, d.illegal_idle, d.halt_idle))

-- What ID hands on, in EX and later, does what the decoded word does.
perform-id :
    (s : Simulator) (i : Instruction)
    → IsClassed (sim_decode i)
    → IsDecoded (sim_decode i)
    → perform (sim_ex (sim_id s i).1) (arch s) ≡ execute (sim_decode i) (arch s)
perform-id s i c d =
    let j = sim_decode i in
    let cj = sim_operand_collection j s.registers in
    let rj = collection-roles j s.registers in
    elim (Bool-cases (not j.is_legal || j.is_halt)) [
      | inl stop ↦
          ex_stopped (sim_id s i).1 (arch s) (IsDecoded-roles j _ (sym (roles-id s i)) d)
            (ground (arith, roles-id s i))
          ∙ sym (ex_stopped cj (arch s) (IsDecoded-roles j cj (sym rj) d) (ground (arith, rj)))
      | inr go ↦ sym (
          perform_same (sim_ex cj) (sim_ex (sim_id s i).1) (arch s) (
            sim_ex-IsSame cj (sim_id s i).1
              (record {
                same_roles = rj ∙ sym (roles-id s i);
                op1 = λ o r.
                    (unfold sim_id number sim_next_pc_resolution sim_operand_collection in
                      ground arith);
                op2 = λ o r.
                    (unfold sim_id number sim_next_pc_resolution sim_operand_collection in
                      ground arith);
                old =
                    (unfold sim_id number sim_next_pc_resolution sim_operand_collection in
                      ground arith);
              })
              (IsClassed-roles j cj (sym rj) c) (IsDecoded-roles j cj (sym rj) d)))
    ]

pub arch-id : (s : Simulator) (i : Instruction) → arch (sim_id s i).0 ≡ arch s
unfolding sim_id number
arch-id s i = ground arith

-- The functional simulator executes what it decodes.
pub arch-instruction :
    (s : Simulator) (pc : ℕ)
    → arch (sim_instruction s pc).0 ≡ execute (sim_decode (sim_if s pc)) (arch s)
unfolding staged
arch-instruction s pc =
    let i = sim_if s pc in
    let raw : IsRaw i = unfold sim_if in sim_fetch-IsRaw s pc in
    ap (λ (p : Simulator × Instruction). arch p.0) (sym (staged-eq-instruction s pc))
    ∙ late_stages (sim_id s i).0 (sim_id s i).1
    ∙ ap (perform (sim_ex (sim_id s i).1)) (arch-id s i)
    ∙ perform-id s i (sim_decode-IsClassed i raw) (sim_decode-IsDecoded i raw)

wb_roles : (s : Simulator) (i : Instruction) → roles (sim_wb s i).1 ≡ roles i
wb_roles s i = ap (λ (p : Simulator × Instruction). roles p.1) (sim_wb-commit s i)

pub roles-instruction :
    (s : Simulator) (pc : ℕ) → roles (sim_instruction s pc).1 ≡ roles (sim_decode (sim_if s pc))
unfolding staged
roles-instruction s pc =
    let i = sim_if s pc in
    let d = (sim_id s i).1 in
    let s1 = (sim_id s i).0 in
    ap (λ (p : Simulator × Instruction). roles p.1) (sym (staged-eq-instruction s pc))
    ∙ wb_roles (sim_mem s1 (sim_ex d)).0 (sim_mem s1 (sim_ex d)).1
    ∙ roles-mem s1 (sim_ex d)
    ∙ roles-ex d
    ∙ roles-id s i

-- The next PC of the functional simulator is the one that ID finds.
pub next_pc-instruction :
    (s : Simulator) (pc : ℕ) → (sim_instruction s pc).1.next_pc ≡ (sim_id s (sim_if s pc)).1.next_pc
unfolding sim_instruction sim_id number sim_if sim_arith_logic mask_shift sim_addr_gen
    sim_mem_access
next_pc-instruction s pc = ground arith

-- Where no operand is read, the next PC depends on what the decoder found only.
pub resolved_pc-plain :
    (i j : Instruction)
    → roles i ≡ roles j
    → resolves_in_id i ≡ false
    → resolved_pc i ≡ resolved_pc j
unfolding resolved_pc resolves_in_id jal_target jal_imm
resolved_pc-plain i j e p = ground arith

pub resolved_pc-same :
    (i j : Instruction)
    → roles i ≡ roles j
    → i.op1_val ≡ j.op1_val
    → (i.opcode ≡ op_branch → i.op2_val ≡ j.op2_val)
    → resolved_pc i ≡ resolved_pc j
unfolding resolved_pc branch_taken branch_target branch_imm jal_target jal_imm
resolved_pc-same i j e p q = ground arith
