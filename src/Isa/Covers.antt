-- ===== src/Isa/Covers.antt =====
-- The integer that the instruction set gives to each legal instruction that computes.
use ece375_project.Base.{ℕ, ℤ, ◌≡◌, refl, arith, Bool, true, false, ◌==◌}
use ece375_project.Base.{[], ◌∷◌, ◌&◌, by_code}
use ece375_project.Word.{shr}
use ece375_project.Utilities.Codes.{
  op_int, op_intw, op_intimm, op_intimmw, funct3_add, funct3_sll, funct3_slt, funct3_sltu,
  funct3_xor, funct3_sr, funct3_or, funct3_and, funct7_add, upperimm_logical,
}
use ece375_project.Simulator.Instruction.{Instruction}
use ece375_project.Simulator.Decode.{legal_int, legal_intw, legal_intimm, legal_intimmw}
use ece375_project.Simulator.Arith.Meaning.{Means, upper6}

-- Whether a test holds.
pub either {ℓ} : {P : Type ℓ} (b : Bool) → (b ≡ true → P) → (b ≡ false → P) → P
either true p q = p refl
either false p q = q refl

module _ (g : Instruction) where
  abbrev Some : Type 0
  Some = (z : ℤ) × Means g z

  abbrev f3 : ℕ
  f3 = g.funct3

  abbrev f7 : ℕ
  f7 = g.funct7

  module _ (upper : upper6 g ≡ shr g.funct7 1) where
    pub int_means : g.opcode ≡ op_int → legal_int f3 f7 ≡ true → Some
    unfolding legal_int
    int_means o h =
        by_code f3
          (funct3_add ∷ funct3_sll ∷ funct3_slt ∷ funct3_sltu ∷ funct3_xor ∷ funct3_sr ∷ funct3_or
            ∷ funct3_and ∷ [])
          (ground (arith, h))
          ((λ e.
              either (f7 == funct7_add) (λ f. (_, Means.add o e (ground (arith, f))))
                (λ f. (_, Means.sub o e (ground (arith, e, f, h)))))
            & (λ e. (_, Means.sll o e))
            & (λ e. (_, Means.slt o e))
            & (λ e. (_, Means.sltu o e))
            & (λ e. (_, Means.xor o e))
            & (λ e.
                either (upper6 g == upperimm_logical) (λ f. (_, Means.srl o e (ground (arith, f))))
                  (λ f. (_, Means.sra o e (ground (arith, e, f, h, upper)))))
            & (λ e. (_, Means.or o e))
            & (λ e. (_, Means.and o e))
            & tt)

    pub intw_means : g.opcode ≡ op_intw → legal_intw f3 f7 ≡ true → Some
    unfolding legal_intw
    intw_means o h = by_code f3 (funct3_add ∷ funct3_sll ∷ funct3_sr ∷ []) (ground (arith, h)) (
        (λ e.
          either (f7 == funct7_add) (λ f. (_, Means.addw o e (ground (arith, f))))
            (λ f. (_, Means.subw o e (ground (arith, e, f, h)))))
        & (λ e. (_, Means.sllw o e))
        & (λ e.
            either (upper6 g == upperimm_logical) (λ f. (_, Means.srlw o e (ground (arith, f))))
              (λ f. (_, Means.sraw o e (ground (arith, e, f, h, upper)))))
        & tt)

    pub intimm_means : g.opcode ≡ op_intimm → legal_intimm f3 f7 ≡ true → Some
    unfolding legal_intimm
    intimm_means o h =
        by_code f3
          (funct3_add ∷ funct3_sll ∷ funct3_slt ∷ funct3_sltu ∷ funct3_xor ∷ funct3_sr ∷ funct3_or
            ∷ funct3_and ∷ [])
          (ground (arith, h))
          ((λ e. (_, Means.addi o e))
            & (λ e. (_, Means.slli o e))
            & (λ e. (_, Means.slti o e))
            & (λ e. (_, Means.sltiu o e))
            & (λ e. (_, Means.xori o e))
            & (λ e.
                either (upper6 g == upperimm_logical) (λ f. (_, Means.srli o e (ground (arith, f))))
                  (λ f. (_, Means.srai o e (ground (arith, e, f, h, upper)))))
            & (λ e. (_, Means.ori o e))
            & (λ e. (_, Means.andi o e))
            & tt)

    pub intimmw_means : g.opcode ≡ op_intimmw → legal_intimmw f3 f7 ≡ true → Some
    unfolding legal_intimmw
    intimmw_means o h = by_code f3 (funct3_add ∷ funct3_sll ∷ funct3_sr ∷ []) (ground (arith, h)) (
        (λ e. (_, Means.addiw o e))
        & (λ e. (_, Means.slliw o e))
        & (λ e.
            either (upper6 g == upperimm_logical) (λ f. (_, Means.srliw o e (ground (arith, f))))
              (λ f. (_, Means.sraiw o e (ground (arith, e, f, h, upper)))))
        & tt)
