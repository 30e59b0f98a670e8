-- ===== src/Isa/Next.antt =====
-- Where `simNextPCResolution` goes on, against the instruction set.
use ece375_project.Base.{ℕ, ◌^◌, ◌<◌, ◌≡◌, refl, ◌∙◌, arith, Bool, false}
use ece375_project.Word.Signed.{add64-of_ℤ}
use ece375_project.Utilities.Codes.{op_jalr, op_branch}
use ece375_project.Simulator.Instruction.{Instruction}
use ece375_project.Simulator.Decode.Classes.{IsClassed}
use ece375_project.Simulator.Decode.Marks.{Runs}
use ece375_project.Simulator.Resolve.{
  branch_taken, branch_target, branch_imm, jal_target, jal_imm, resolved_pc, sim_operand_collection,
}
use ece375_project.Simulator.Resolve.Immediates.{branch_target_lem, jal_target_lem}
use ece375_project.Simulator.Arith.Meaning.{imm}
use ece375_project.Simulator.Arith.Integers.{imm_lem}
use ece375_project.Cycle.Forward.{resolves_in_id}
use ece375_project.Cycle.Refine.{Arch}
use ece375_project.Cycle.Refine.Effects.{collection-roles, collected}
use ece375_project.Cycle.Refine.Fetched.{resolved_pc-plain, resolved_pc-same}
use ece375_project.Isa.{given, Compares, Continues}

module _ (i : Instruction) (a : Arch) where
  compares : {b : Bool} → Compares i a b → branch_taken (given i a) ≡ b
  unfolding branch_taken
  compares (Compares.beq f) = rw f refl
  compares (Compares.bne f) = rw f refl
  compares (Compares.blt f) = rw f refl
  compares (Compares.bge f) = rw f refl
  compares (Compares.bltu f) = rw f refl
  compares (Compares.bgeu f) = rw f (ground arith)

  module _ (c : IsClassed i) (runs : Runs i) where
    abbrev k : Instruction
    k = sim_operand_collection i a.registers

    plain : resolves_in_id i ≡ false → resolved_pc k ≡ resolved_pc (given i a)
    unfolding resolves_in_id
    plain off =
        resolved_pc-plain k (given i a) (collection-roles i a.registers)
          (ground (arith, collection-roles i a.registers))

    jump_given : i.opcode ≡ op_jalr → resolved_pc k ≡ resolved_pc (given i a)
    jump_given o =
        let r = collection-roles i a.registers in
        resolved_pc-same k (given i a) r
          ((collected i a.registers).0 (c.jalr_reads o runs.legal runs.no_halt))
          (λ e. absurd (ground (arith, r)))

    branch_given : i.opcode ≡ op_branch → resolved_pc k ≡ resolved_pc (given i a)
    branch_given o =
        let reads = c.branch_reads o runs.legal runs.no_halt in
        resolved_pc-same k (given i a) (collection-roles i a.registers)
          ((collected i a.registers).0 reads.0) (λ e. (collected i a.registers).1 reads.1)

    pub continues_lem : {n : ℕ} → (given i a).op1_val < 2 ^ 64 → Continues i a n → resolved_pc k ≡ n
    unfolding resolved_pc resolves_in_id jal_target jal_imm branch_taken branch_target branch_imm
    continues_lem h (Continues.next x y z) = plain (ground arith) ∙ ground arith
    continues_lem h (Continues.jal {offset} o j) =
        plain (rw o refl)
        ∙ rw o (
            jal_target_lem (given i a) offset
              (record { upper = j.upper; even = j.even; small = j.small }))
    continues_lem h (Continues.jalr o) =
        jump_given o ∙ rw (o, imm_lem (given i a), add64-of_ℤ (given i a).op1_val (imm i) h) refl
    continues_lem h (Continues.taken {offset} o t b) =
        branch_given o
        ∙ rw (o, compares t)
            (branch_target_lem (given i a) offset
              (record { high = b.high; low = b.low; even = b.even; small = b.small }))
    continues_lem h (Continues.not_taken o t) = branch_given o ∙ rw (o, compares t) refl
