-- ===== src/Simulator/Arith/Bounds.antt =====
-- The width of the results of `simArithLogic`.
use native.Mathlib.Nat.{div-le_self}
use ece375_project.Base.{◌≡◌, ℤ, ℕ, ◌^◌, ◌<◌, Bool, arith, bit_and, bit_or, bit_xor}
use ece375_project.Base.{if_both, if◌then◌else◌, switch_all, ◌&◌, ◌==◌}
use ece375_project.Word.{u64, u32, shr, of_bool, of_ℤ}
use ece375_project.Word.Fields.{bit_and-lt, bit_or-lt, bit_xor-lt}
use ece375_project.Utilities.Bits.{extract_bits, sext64}
use ece375_project.Utilities.Extend.{of_ℤ-lt}
use ece375_project.Utilities.Extract.{extract_bits-lt}
use ece375_project.Utilities.Codes.{funct7_add, funct7_sub, upperimm_logical, upperimm_arith}
use ece375_project.Simulator.Instruction.{Instruction}
use ece375_project.Simulator.Arith.{
  mask_shift, int_cases, intw_cases, intimm_cases, intimmw_cases, result_cases, result_int,
  result_intw, result_intimm, result_intimmw, arith_value, sim_arith_logic,
}

pub record IsWord (n : ℕ) : Type 0 where
  pub fits : n < 2 ^ 64

pub sext64-IsWord : (imm s : ℕ) → IsWord imm → IsWord (sext64 imm s)
unfolding sext64
sext64-IsWord imm s h =
    if_both IsWord _ h (record { fits = bit_or-lt 64 imm _ h.fits (omega arith) })

u64-IsWord : (n : ℕ) → IsWord (u64 n)
u64-IsWord n = record { fits = omega arith }

u32-IsWord : (n : ℕ) → IsWord (u32 n)
u32-IsWord n = record { fits = omega arith }

-- What holds of both branches.
either : (b : Bool) {x y : ℕ} → IsWord x → IsWord y → IsWord (if b then x else y)
either b p q = if_both IsWord b p q

shr-IsWord : (n k : ℕ) → IsWord n → IsWord (shr n k)
shr-IsWord n k h = record { fits = omega (arith, div-le_self n (2 ^ k), h.fits) }

signed-IsWord : (n : ℤ) → IsWord (of_ℤ n)
signed-IsWord n = record { fits = of_ℤ-lt n }

of_bool-IsWord : (b : Bool) → IsWord (of_bool b)
of_bool-IsWord b = if_both IsWord b (record { fits = omega arith }) (record { fits = omega arith })

module _ (x y : ℕ) (hx : IsWord x) (hy : IsWord y) where
  bit_and-IsWord : IsWord (bit_and x y)
  bit_and-IsWord = record { fits = bit_and-lt 64 x y hx.fits hy.fits }

  bit_or-IsWord : IsWord (bit_or x y)
  bit_or-IsWord = record { fits = bit_or-lt 64 x y hx.fits hy.fits }

  bit_xor-IsWord : IsWord (bit_xor x y)
  bit_xor-IsWord = record { fits = bit_xor-lt 64 x y hx.fits hy.fits }

module _ (inst : Instruction) (ha : IsWord inst.op1_val) (hb : IsWord inst.op2_val)
    (hold : IsWord inst.arith_result) where
  abbrev logical : Bool
  logical = extract_bits inst.instruction 31 26 == upperimm_logical

  abbrev arithmetic : Bool
  arithmetic = extract_bits inst.instruction 31 26 == upperimm_arith

  imm12 : IsWord (sext64 (extract_bits inst.instruction 31 20) 11)
  imm12 =
      sext64-IsWord _ 11 (record { fits = omega (arith, extract_bits-lt inst.instruction 31 20) })

  result_int-IsWord : IsWord (result_int inst)
  unfolding result_int
  result_int-IsWord =
      switch_all IsWord inst.funct3 (int_cases inst)
        (either (inst.funct7 == funct7_add) (u64-IsWord _)
            (either (inst.funct7 == funct7_sub) (u64-IsWord _) hold)
          & u64-IsWord _
          & of_bool-IsWord _
          & of_bool-IsWord _
          & bit_xor-IsWord _ _ ha hb
          & either logical (shr-IsWord _ _ ha) (either arithmetic (signed-IsWord _) hold)
          & bit_or-IsWord _ _ ha hb
          & bit_and-IsWord _ _ ha hb
          & tt)
        hold

  result_intw-IsWord : IsWord (result_intw inst)
  unfolding result_intw
  result_intw-IsWord =
      switch_all IsWord inst.funct3 (intw_cases inst)
        (either (inst.funct7 == funct7_add) (sext64-IsWord _ 31 (u32-IsWord _))
            (either (inst.funct7 == funct7_sub) (sext64-IsWord _ 31 (u32-IsWord _)) hold)
          & sext64-IsWord _ 31 (u32-IsWord _)
          & either logical (sext64-IsWord _ 31 (shr-IsWord _ _ (u32-IsWord _)))
              (either arithmetic (sext64-IsWord _ 31 (signed-IsWord _)) hold)
          & tt)
        hold

  result_intimm-IsWord : IsWord (result_intimm inst)
  unfolding result_intimm
  result_intimm-IsWord =
      switch_all IsWord inst.funct3 (intimm_cases inst)
        (u64-IsWord _
          & u64-IsWord _
          & of_bool-IsWord _
          & of_bool-IsWord _
          & bit_xor-IsWord _ _ ha imm12
          & either logical (shr-IsWord _ _ ha) (either arithmetic (signed-IsWord _) hold)
          & bit_or-IsWord _ _ ha imm12
          & bit_and-IsWord _ _ ha imm12
          & tt)
        hold

  result_intimmw-IsWord : IsWord (result_intimmw inst)
  unfolding result_intimmw
  result_intimmw-IsWord =
      switch_all IsWord inst.funct3 (intimmw_cases inst)
        (sext64-IsWord _ 31 (u32-IsWord _)
          & sext64-IsWord _ 31 (u32-IsWord _)
          & either logical (sext64-IsWord _ 31 (shr-IsWord _ _ (u32-IsWord _)))
              (either arithmetic (sext64-IsWord _ 31 (signed-IsWord _)) hold)
          & tt)
        hold

  arith_value-IsWord : IsWord (arith_value inst)
  unfolding arith_value
  arith_value-IsWord =
      switch_all IsWord inst.opcode (result_cases inst)
        (result_int-IsWord
          & result_intw-IsWord
          & result_intimm-IsWord
          & result_intimmw-IsWord
          & u64-IsWord _
          & u64-IsWord _
          & sext64-IsWord _ 31 (u64-IsWord _)
          & u64-IsWord _
          & tt)
        hold

pub masked-IsWord : (inst : Instruction) → IsWord inst.op2_val → IsWord (mask_shift inst).op2_val
unfolding mask_shift
masked-IsWord inst h = record {
  fits = ground (
    arith,
    h.fits,
    bit_and-lt 64 inst.op2_val 0x3F h.fits (omega arith),
    bit_and-lt 64 inst.op2_val 0x1F h.fits (omega arith),
  );
}

same_masked :
    (inst : Instruction)
    → ((mask_shift inst).op1_val ≡ inst.op1_val)
      × ((mask_shift inst).arith_result ≡ inst.arith_result)
unfolding mask_shift
same_masked inst = ground arith

-- On operands of 64 bits and over an old result of 64 bits, the result of simArithLogic has 64
-- bits, whatever the instruction.
pub sim_arith_logic-IsWord :
    (inst : Instruction)
    → IsWord inst.op1_val
    → IsWord inst.op2_val
    → IsWord inst.arith_result
    → IsWord (sim_arith_logic inst).arith_result
unfolding sim_arith_logic
sim_arith_logic-IsWord inst ha hb hold =
    let (one, result) = same_masked inst in
    arith_value-IsWord (mask_shift inst) (rw one ha) (masked-IsWord inst hb) (rw result hold)
