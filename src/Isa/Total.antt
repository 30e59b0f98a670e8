-- ===== src/Isa/Total.antt =====
-- The instruction set says something of every instruction that `simDecode` finds legal.
use mathlib.Core.Path.{subst}
use ece375_project.Base.{ℕ, ℤ, ◌+◌, ◌*◌, ◌/◌, ◌%◌, ◌^◌, ◌<◌, ◌≡◌, arith, Bool, true, ◌==◌}
use ece375_project.Base.{[], ◌∷◌, ◌&◌, by_code}
use ece375_project.Word.{shr}
use ece375_project.Utilities.Codes.{
  op_jalr, op_jal, op_branch, funct3_b, funct3_h, funct3_w, funct3_d, funct3_bu, funct3_hu,
  funct3_wu, funct3_beq, funct3_bne, funct3_blt, funct3_bge, funct3_bltu, funct3_bgeu,
}
use ece375_project.Simulator.Instruction.{Instruction}
use ece375_project.Simulator.Decode.{legal_load, legal_store, legal_branch}
use ece375_project.Simulator.Decode.Marks.{Runs}
use ece375_project.Simulator.Decode.Legal.{Acts, IsLegal, opcodes}
use ece375_project.Simulator.Resolve.Immediates.{IsBranch, IsJump}
use ece375_project.Simulator.Arith.Meaning.{Means, upper6}
use ece375_project.Cycle.Refine.{Arch}
use ece375_project.Isa.{given, Loads, Stores, Compares, Effects, Continues}
use ece375_project.Isa.Covers.{either, int_means, intw_means, intimm_means, intimmw_means}

module _ (i : Instruction) (a : Arch) where
  loads : legal_load i.funct3 ≡ true → (v : ℕ) × Loads i a v
  unfolding legal_load
  loads h =
      by_code i.funct3
        (funct3_b ∷ funct3_h ∷ funct3_w ∷ funct3_d ∷ funct3_bu ∷ funct3_hu ∷ funct3_wu ∷ [])
        (ground (arith, h))
        ((λ e. (_, Loads.lb e))
          & (λ e. (_, Loads.lh e))
          & (λ e. (_, Loads.lw e))
          & (λ e. (_, Loads.ld e))
          & (λ e. (_, Loads.lbu e))
          & (λ e. (_, Loads.lhu e))
          & (λ e. (_, Loads.lwu e))
          & tt)

  stores : legal_store i.funct3 ≡ true → (size : ℕ) × Stores i a size
  unfolding legal_store
  stores h = by_code i.funct3 (funct3_b ∷ funct3_h ∷ funct3_w ∷ funct3_d ∷ []) (ground (arith, h)) (
      (λ e. (_, Stores.sb e))
      & (λ e. (_, Stores.sh e))
      & (λ e. (_, Stores.sw e))
      & (λ e. (_, Stores.sd e))
      & tt)

  compared : legal_branch i.funct3 ≡ true → (b : Bool) × Compares i a b
  unfolding legal_branch
  compared h =
      by_code i.funct3
        (funct3_beq ∷ funct3_bne ∷ funct3_blt ∷ funct3_bge ∷ funct3_bltu ∷ funct3_bgeu ∷ [])
        (ground (arith, h))
        ((λ e. (_, Compares.beq e))
          & (λ e. (_, Compares.bne e))
          & (λ e. (_, Compares.blt e))
          & (λ e. (_, Compares.bge e))
          & (λ e. (_, Compares.bltu e))
          & (λ e. (_, Compares.bgeu e))
          & tt)

  -- The offsets that the fields of a branch and of a jump hold.
  IsBranch-offset : i.funct7 < 2 ^ 7 → i.rd < 2 ^ 5 → (offset : ℕ) × IsBranch i offset
  IsBranch-offset high low = (
    i.funct7 / 2 ^ 6 * 2 ^ 12 + i.rd % 2 * 2 ^ 11 + i.funct7 % 2 ^ 6 * 2 ^ 5 + i.rd / 2 * 2,
    record { high = omega arith; low = omega arith; even = omega arith; small = omega arith },
  )

  abbrev word : ℕ
  word = i.instruction / 2 ^ 12 % 2 ^ 20

  IsJump-offset : (offset : ℕ) × IsJump i offset
  IsJump-offset = (
    word / 2 ^ 19 * 2 ^ 20
        + word % 2 ^ 8 * 2 ^ 12
        + word / 2 ^ 8 % 2 * 2 ^ 11
        + word / 2 ^ 9 % 2 ^ 10 * 2,
    record { upper = omega arith; even = omega arith; small = omega arith },
  )

  module _ (l : IsLegal i) (runs : Runs i) where
    module _ (upper : upper6 i ≡ shr i.funct7 1) where
      acting : Acts i → (a' : Arch) × Effects i a a'
      acting act =
          let g = given i a in
          let leave : (z : ℤ) × Means g z → (a' : Arch) × Effects i a a' =
            (λ m. (_, Effects.compute act.no_nop m.1)) in
          by_code i.opcode opcodes (l.known act) (
            (λ o. leave (int_means g upper o (l.int act o)))
            & (λ o. leave (intw_means g upper o (l.intw act o)))
            & (λ o. leave (intimm_means g upper o (l.intimm act o)))
            & (λ o. leave (intimmw_means g upper o (l.intimmw act o)))
            & (λ o. leave (_, Means.jalr o))
            & (λ o. leave (_, Means.auipc o))
            & (λ o. leave (_, Means.lui o))
            & (λ o. leave (_, Means.jal o))
            & (λ o. (_, Effects.load o (loads (l.load act o)).1))
            & (λ o. (_, Effects.store o (stores (l.store act o)).1))
            & (λ o. (_, Effects.branch o))
            & tt)

      pub effect : (a' : Arch) × Effects i a a'
      effect =
          either i.is_nop (λ n. (_, Effects.nop n))
            (λ n. acting (record { runs = runs; no_nop = n }))

    branching : i.opcode ≡ op_branch → i.funct7 < 2 ^ 7 → i.rd < 2 ^ 5 → (n : ℕ) × Continues i a n
    branching o high low =
        let act : Acts i = record {
          runs = runs;
          no_nop = either i.is_nop (λ n. absurd (ground (arith, l.idling n))) (λ n. n);
        } in
        let (b, c) = compared (l.branch act o) in
        either b
          (λ e. (_, Continues.taken o (subst (Compares i a) e c) (IsBranch-offset high low).1))
          (λ e. (_, Continues.not_taken o (subst (Compares i a) e c)))

    pub continuation : i.funct7 < 2 ^ 7 → i.rd < 2 ^ 5 → (n : ℕ) × Continues i a n
    continuation high low =
        either (i.opcode == op_jalr) (λ e. (_, Continues.jalr (ground (arith, e))))
          (λ x.
            either (i.opcode == op_jal)
              (λ e. (_, Continues.jal (ground (arith, e)) IsJump-offset.1))
              (λ y.
                either (i.opcode == op_branch) (λ e. branching (ground (arith, e)) high low)
                  (λ z. (_, Continues.next x y z))))
