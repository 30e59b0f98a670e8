-- ===== src/Simulator/Arith/Integers.antt =====
-- `simArithLogic` against the integer arithmetic of the instruction set.
use ece375_project.Base.{ℕ, ◌*◌, ◌/◌, ◌%◌, ◌^◌, ◌<◌, ◌≡◌, arith, ltb, refl}
use ece375_project.Base.{Bool-cases, inl, inr, ℤ, pos, floor_div}
use ece375_project.Word.{u32, u64, of_ℤ, shl64, shl32, shr, sar32}
use ece375_project.Word.Signed.{
  add64-signed, sub64-signed, add32-signed, sub32-signed, add64-of_ℤ, add32-of_ℤ, of_bool-truth,
  Fits32, signed64-back, u64_small, shr-lt, floor_div-Fits32, sext64-of_ℤ,
}
use ece375_project.Utilities.Extend.{signed_at, sext64-eq-signed, sext32-eq-signed, of_ℤ-lt}
use ece375_project.Utilities.Extract.{extract_bits-lt}
use ece375_project.Word.Fields.{bit_and_mask, bit_and-lt, bit_or-lt, bit_xor-lt}
use ece375_project.Utilities.Bits.{extract_bits, sext64, sext32}
use ece375_project.Simulator.Instruction.{Instruction}
use ece375_project.Simulator.Arith.Meaning.{Means, wrap32, x32, field12, imm, upper_imm}
use ece375_project.Simulator.Arith.{
  mask_shift, result_int, result_intw, result_intimm, result_intimmw, arith_value, sim_arith_logic,
}

signed_at_12 : (v : ℕ) → v < 2 ^ 12 → Fits32 (signed_at 11 v)
signed_at_12 v h = elim (Bool-cases (ltb v (2 ^ 11))) [
  | inl low ↦ rw low (omega arith)
  | inr high ↦ rw high (omega arith)
]

signed_at_32 : (v : ℕ) → v < 2 ^ 32 → Fits32 (signed_at 31 v)
signed_at_32 v h = elim (Bool-cases (ltb v (2 ^ 31))) [
  | inl low ↦ rw low (ground arith)
  | inr high ↦ rw high (ground arith)
]

sext64-eq-signed-word : (v : ℕ) → v < 2 ^ 32 → sext64 v 31 ≡ of_ℤ (signed_at 31 v)
sext64-eq-signed-word v h = sext64-eq-signed 31 v (omega arith) h

module _ (inst : Instruction) where
  -- The 32-bit shifts by an amount below 32.
  shifted_left :
      (k : ℕ)
      → k < 32
      → sext64 (shl32 (u32 inst.op1_val) (u32 k)) 31
        ≡ of_ℤ (wrap32 (pos (u32 inst.op1_val * 2 ^ k)))
  shifted_left k h =
      let e : u32 k ≡ k = omega arith in
      let same : u32 (u64 (u32 inst.op1_val * 2 ^ k)) ≡ u32 (u32 inst.op1_val * 2 ^ k) =
        omega arith in
      rw (e, same) (sext64-eq-signed-word _ (omega arith))

  shifted_right :
      (k : ℕ)
      → k < 32
      → sext64 (shr (u32 inst.op1_val) (u32 k)) 31 ≡ of_ℤ (wrap32 (pos (u32 inst.op1_val / 2 ^ k)))
  shifted_right k h =
      let e : u32 k ≡ k = omega arith in
      let small : u32 inst.op1_val / 2 ^ k < 2 ^ 32 = shr-lt (u32 inst.op1_val) k _ (omega arith) in
      let same : u32 (u64 (u32 inst.op1_val / 2 ^ k)) ≡ u32 inst.op1_val / 2 ^ k =
        omega (arith, small) in
      rw (e, same) (sext64-eq-signed-word _ small)

  shifted_sign :
      (k : ℕ)
      → k < 32
      → sext64 (sar32 (u32 inst.op1_val) (u32 k)) 31 ≡ of_ℤ (floor_div (x32 inst) (2 ^ k))
  shifted_sign k h =
      let e : u32 k ≡ k = omega arith in
      rw e (
        sext64-of_ℤ (floor_div (x32 inst) (2 ^ k))
          (floor_div-Fits32 (x32 inst) k (signed_at_32 (u32 inst.op1_val) (omega arith))))

  pub imm_lem : sext64 (field12 inst) 11 ≡ of_ℤ (imm inst)
  imm_lem =
      sext64-eq-signed 11 (field12 inst) (omega arith)
        (omega (arith, extract_bits-lt inst.instruction 31 20))

  imm-Fits32 : Fits32 (imm inst)
  imm-Fits32 = signed_at_12 (field12 inst) (omega (arith, extract_bits-lt inst.instruction 31 20))

  imm32_lem : u32 (sext32 (field12 inst) 11) ≡ u32 (of_ℤ (imm inst))
  imm32_lem =
      rw
        (sext32-eq-signed 11 (field12 inst) (omega arith)
          (omega (arith, extract_bits-lt inst.instruction 31 20)))
        (omega arith)

  upper_lem : sext64 (shl64 (extract_bits inst.instruction 31 12) 12) 31 ≡ of_ℤ (upper_imm inst)
  upper_lem =
      let small : extract_bits inst.instruction 31 12 < 2 ^ 20 =
        omega (arith, extract_bits-lt inst.instruction 31 12) in
      let e : shl64 (extract_bits inst.instruction 31 12) 12
          ≡ extract_bits inst.instruction 31 12 * 2 ^ 12 =
        omega arith in
      rw e (sext64-eq-signed-word (extract_bits inst.instruction 31 12 * 2 ^ 12) (omega arith))

  module _ (ha : inst.op1_val < 2 ^ 64) (hb : inst.op2_val < 2 ^ 64) (hpc : inst.pc < 2 ^ 64) where
    -- On operands and a PC of 64 bits, the result of simArithLogic is the 64-bit word of the
    -- integer that the instruction set gives to the instruction: for the sums, differences,
    -- shifts, comparisons and bitwise operations of two registers and of a register and an
    -- immediate, the 32-bit sums, differences and shifts, the upper immediates, and the links of
    -- jumps.
    pub sim_arith_logic-Means :
        {z : ℤ} → Means inst z → (sim_arith_logic inst).arith_result ≡ of_ℤ z
    unfolding sim_arith_logic mask_shift arith_value result_int result_intw result_intimm
        result_intimmw
    sim_arith_logic-Means (Means.add o f g) =
        rw (o, f, g) (add64-signed inst.op1_val inst.op2_val ha hb)
    sim_arith_logic-Means (Means.sub o f g) =
        rw (o, f, g) (sub64-signed inst.op1_val inst.op2_val ha hb)
    sim_arith_logic-Means (Means.sll o f) = rw (o, f, bit_and_mask 6) refl
    sim_arith_logic-Means (Means.slt o f) = rw (o, f) (of_bool-truth _)
    sim_arith_logic-Means (Means.sltu o f) = rw (o, f) (of_bool-truth _)
    sim_arith_logic-Means (Means.srl o f u) =
        rw (o, f, u, bit_and_mask 6) (u64_small _ (shr-lt inst.op1_val (inst.op2_val % 64) _ ha))
    sim_arith_logic-Means (Means.sra o f u) = rw (o, f, u, bit_and_mask 6) refl
    sim_arith_logic-Means (Means.xor o f) =
        rw (o, f) (u64_small _ (bit_xor-lt 64 inst.op1_val inst.op2_val ha hb))
    sim_arith_logic-Means (Means.or o f) =
        rw (o, f) (u64_small _ (bit_or-lt 64 inst.op1_val inst.op2_val ha hb))
    sim_arith_logic-Means (Means.and o f) =
        rw (o, f) (u64_small _ (bit_and-lt 64 inst.op1_val inst.op2_val ha hb))
    sim_arith_logic-Means (Means.xori o f) =
        rw (o, f, imm_lem)
          (u64_small _ (bit_xor-lt 64 inst.op1_val (of_ℤ (imm inst)) ha (of_ℤ-lt (imm inst))))
    sim_arith_logic-Means (Means.ori o f) =
        rw (o, f, imm_lem)
          (u64_small _ (bit_or-lt 64 inst.op1_val (of_ℤ (imm inst)) ha (of_ℤ-lt (imm inst))))
    sim_arith_logic-Means (Means.andi o f) =
        rw (o, f, imm_lem)
          (u64_small _ (bit_and-lt 64 inst.op1_val (of_ℤ (imm inst)) ha (of_ℤ-lt (imm inst))))
    sim_arith_logic-Means (Means.addi o f) =
        rw (o, f, imm_lem) (add64-of_ℤ inst.op1_val (imm inst) ha)
    sim_arith_logic-Means (Means.slli o f) = rw (o, f, bit_and_mask 6) refl
    sim_arith_logic-Means (Means.slti o f) =
        rw (o, f, imm_lem, signed64-back (imm inst) imm-Fits32) (of_bool-truth _)
    sim_arith_logic-Means (Means.sltiu o f) = rw (o, f, imm_lem) (of_bool-truth _)
    sim_arith_logic-Means (Means.srli o f u) =
        rw (o, f, u, bit_and_mask 6) (u64_small _ (shr-lt inst.op1_val (field12 inst % 64) _ ha))
    sim_arith_logic-Means (Means.srai o f u) = rw (o, f, u, bit_and_mask 6) refl
    sim_arith_logic-Means (Means.addw o f g) =
        rw (o, f, g, add32-signed inst.op1_val inst.op2_val ha hb)
          (sext64-eq-signed-word _ (omega arith))
    sim_arith_logic-Means (Means.subw o f g) =
        rw (o, f, g, sub32-signed inst.op1_val inst.op2_val ha hb)
          (sext64-eq-signed-word _ (omega arith))
    sim_arith_logic-Means (Means.sllw o f) =
        rw (o, f, bit_and_mask 5) (shifted_left (inst.op2_val % 32) (omega arith))
    sim_arith_logic-Means (Means.srlw o f u) =
        rw (o, f, u, bit_and_mask 5) (shifted_right (inst.op2_val % 32) (omega arith))
    sim_arith_logic-Means (Means.sraw o f u) =
        rw (o, f, u, bit_and_mask 5) (shifted_sign (inst.op2_val % 32) (omega arith))
    sim_arith_logic-Means (Means.addiw o f) =
        rw (o, f, imm32_lem, add32-of_ℤ inst.op1_val (imm inst) ha)
          (sext64-eq-signed-word _ (omega arith))
    sim_arith_logic-Means (Means.slliw o f) =
        rw (o, f, bit_and_mask 5) (shifted_left (field12 inst % 32) (omega arith))
    sim_arith_logic-Means (Means.srliw o f u) =
        rw (o, f, u, bit_and_mask 5) (shifted_right (field12 inst % 32) (omega arith))
    sim_arith_logic-Means (Means.sraiw o f u) =
        rw (o, f, u, bit_and_mask 5) (shifted_sign (field12 inst % 32) (omega arith))
    sim_arith_logic-Means (Means.lui o) = rw o upper_lem
    sim_arith_logic-Means (Means.auipc o) =
        rw (o, upper_lem) (add64-of_ℤ inst.pc (upper_imm inst) hpc)
    sim_arith_logic-Means (Means.jal o) = rw o refl
    sim_arith_logic-Means (Means.jalr o) = rw o refl
