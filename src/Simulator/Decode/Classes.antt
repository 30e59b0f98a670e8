-- ===== src/Simulator/Decode/Classes.antt =====
-- Which operands each class of instructions reads.
use ece375_project.Base.{ℕ, ◌<◌, Bool, true, false, ◌≡◌, refl, ap, ◌∙◌, arith, ◌⊎◌, ◌||◌, not, ◌==◌}
use ece375_project.Base.{if_both, if_known, if◌then◌else◌, switch_keyed, AllKeyed, ◌&◌}
use ece375_project.Utilities.Codes.{op_int, op_intw, op_intimm, op_intimmw, op_branch, op_jalr}
use ece375_project.Utilities.Bits.{extract_bits}
use ece375_project.Utilities.Extract.{extract_bits-lt}
use ece375_project.Simulator.Instruction.{Instruction}
use ece375_project.Simulator.Decode.{
  decode_fields, mark_register, mark_immediate, mark_upper, mark_load, mark_store, mark_branch,
  mark_illegal, opcode_cases, classify, sim_decode, halt_word, nop_word,
}
use ece375_project.Simulator.Decode.Flags.{IsRaw, decode_fields-IsRaw, sim_decode-Agrees}

-- What the flags say about the operands that the later stages use.
pub record IsClassed (i : Instruction) : Type 0 where
  pub register :
      i.does_arith_logic ≡ true
      → (i.opcode ≡ op_int) ⊎ (i.opcode ≡ op_intw)
      → (i.reads_rs1 ≡ true) × (i.reads_rs2 ≡ true)
  pub immediate :
      i.does_arith_logic ≡ true
      → (i.opcode ≡ op_intimm) ⊎ (i.opcode ≡ op_intimmw)
      → i.reads_rs1 ≡ true
  pub load : i.reads_mem ≡ true → i.reads_rs1 ≡ true
  pub store : i.writes_mem ≡ true → (i.reads_rs1 ≡ true) × (i.reads_rs2 ≡ true)
  pub branch :
      i.opcode ≡ op_branch
      → (i.does_arith_logic ≡ false) × (i.reads_mem ≡ false) × (i.writes_mem ≡ false)
  pub jalr : i.opcode ≡ op_jalr → (i.reads_mem ≡ false) × (i.writes_mem ≡ false)
  pub branch_reads :
      i.opcode ≡ op_branch
      → i.is_legal ≡ true
      → i.is_halt ≡ false
      → (i.reads_rs1 ≡ true) × (i.reads_rs2 ≡ true)
  pub jalr_reads : i.opcode ≡ op_jalr → i.is_legal ≡ true → i.is_halt ≡ false → i.reads_rs1 ≡ true
  pub halting : i.is_halt ≡ true → i.opcode ≡ 0x6D
  pub stopped : not i.is_legal || i.is_halt ≡ true → (i.reads_rs1 ≡ false) × (i.reads_rs2 ≡ false)

module _ (i : Instruction) (r : IsRaw i) where
  illegal : (n : ℕ) → i.opcode ≡ n → IsClassed (mark_illegal i)
  unfolding mark_illegal
  illegal n e = ground arith

  module _ (legal : i.is_legal ≡ true) where
    one :
        (b : Bool) {x : Instruction} {n : ℕ}
        → (i.opcode ≡ n → IsClassed x)
        → i.opcode ≡ n
        → IsClassed (if b then x else mark_illegal i)
    one b {x} {n} p e = if_both IsClassed b (p e) (illegal n e)

    opcode_cases-IsClassed : AllKeyed IsClassed i.opcode (opcode_cases i)
    unfolding mark_register mark_immediate mark_upper mark_load mark_store mark_branch
    opcode_cases-IsClassed =
        one _ {x = mark_register i} (λ e. ground arith)
        & one _ {x = mark_register i} (λ e. ground arith)
        & one _ {x = mark_load i} (λ e. ground arith)
        & one _ {x = mark_immediate i} (λ e. ground arith)
        & one _ {x = mark_immediate i} (λ e. ground arith)
        & (λ e. ground arith)
        & one _ {x = mark_store i} (λ e. ground arith)
        & one _ {x = mark_branch i} (λ e. ground arith)
        & (λ e. ground arith)
        & (λ e. ground arith)
        & (λ e. ground arith)
        & tt

    classify-IsClassed : IsClassed (classify i)
    unfolding classify
    classify-IsClassed =
        switch_keyed IsClassed i.opcode (opcode_cases i) opcode_cases-IsClassed
          (illegal i.opcode refl)

halt-IsClassed :
    (i : Instruction) → IsRaw i → i.opcode ≡ 0x6D → IsClassed (record i { is_halt = true })
halt-IsClassed i r e = ground arith

nop-IsClassed :
    (i : Instruction) → IsRaw i → i.opcode ≡ 0x13 → IsClassed (record i { is_nop = true })
nop-IsClassed i r e = ground arith

pub word_opcode :
    (i : Instruction) (w k : ℕ)
    → (decode_fields i).instruction ≡ w
    → extract_bits w 6 0 ≡ k
    → (decode_fields i).opcode ≡ k
unfolding decode_fields
word_opcode i w k e f = ap (λ (x : ℕ). extract_bits x 6 0) e ∙ f

pub sim_decode-IsClassed : (i : Instruction) → IsRaw i → IsClassed (sim_decode i)
unfolding sim_decode
sim_decode-IsClassed i r =
    let d = decode_fields i in
    let raw : IsRaw d = decode_fields-IsRaw i r in
    if_known IsClassed (d.instruction == halt_word)
      (λ e.
        halt-IsClassed d raw
          (word_opcode i halt_word 0x6D (ground arith) (unfold extract_bits in refl)))
      (if_known IsClassed (d.instruction == nop_word)
        (λ e.
          nop-IsClassed d raw
            (word_opcode i nop_word 0x13 (ground arith) (unfold extract_bits in refl)))
        (classify-IsClassed d raw (unfold decode_fields in refl)))

-- Register numbers have five bits.
pub decoded_registers : (i : Instruction) → ((sim_decode i).rs1 < 32) × ((sim_decode i).rs2 < 32)
unfolding decode_fields
decoded_registers i =
    let same = (sim_decode-Agrees i).same in
    (
      ground (arith, same, extract_bits-lt i.instruction 19 15),
      ground (arith, same, extract_bits-lt i.instruction 24 20),
    )
