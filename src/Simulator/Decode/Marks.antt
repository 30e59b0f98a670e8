-- ===== src/Simulator/Decode/Marks.antt =====
-- Which flag each opcode has once `simDecode` has found an instruction legal.
use ece375_project.Base.{ℕ, Bool, true, false, ◌≡◌, refl, arith, ◌==◌}
use ece375_project.Base.{if_both, if_known, if◌then◌else◌, switch_keyed, AllKeyed, ◌&◌}
use ece375_project.Utilities.Codes.{op_load, op_store, op_branch}
use ece375_project.Utilities.Bits.{extract_bits}
use ece375_project.Simulator.Instruction.{Instruction}
use ece375_project.Simulator.Decode.{
  decode_fields, mark_register, mark_immediate, mark_upper, mark_load, mark_store, mark_branch,
  mark_illegal, opcode_cases, classify, sim_decode, halt_word, nop_word,
}
use ece375_project.Simulator.Decode.Classes.{word_opcode}
use ece375_project.Simulator.Decode.Flags.{IsRaw, decode_fields-IsRaw}

-- An instruction that runs: legal, and not the halt word.
pub record Runs (i : Instruction) : Type 0 where
  pub legal : i.is_legal ≡ true
  pub no_halt : i.is_halt ≡ false

pub record IsMarked (i : Instruction) : Type 0 where
  pub load : Runs i → i.opcode ≡ op_load → i.reads_mem ≡ true
  pub store : Runs i → i.opcode ≡ op_store → i.writes_mem ≡ true
  pub computes :
      Runs i
      → i.is_nop ≡ false
      → (i.opcode == op_load) ≡ false
      → (i.opcode == op_store) ≡ false
      → (i.opcode == op_branch) ≡ false
      → i.does_arith_logic ≡ true

module _ (i : Instruction) (r : IsRaw i) where
  illegal : (n : ℕ) → i.opcode ≡ n → IsMarked (mark_illegal i)
  unfolding mark_illegal
  illegal n e = ground arith

  one :
      (b : Bool) {x : Instruction} {n : ℕ}
      → (i.opcode ≡ n → IsMarked x)
      → i.opcode ≡ n
      → IsMarked (if b then x else mark_illegal i)
  one b {x} {n} p e = if_both IsMarked b (p e) (illegal n e)

  opcode_cases-IsMarked : AllKeyed IsMarked i.opcode (opcode_cases i)
  unfolding mark_register mark_immediate mark_upper mark_load mark_store mark_branch
  opcode_cases-IsMarked =
      one _ {x = mark_register i} (λ e. ground arith)
      & one _ {x = mark_register i} (λ e. ground arith)
      & one _ {x = mark_load i} (λ e. ground arith)
      & one _ {x = mark_immediate i} (λ e. ground arith)
      & one _ {x = mark_immediate i} (λ e. ground arith)
      & (λ e. ground arith)
      & one _ {x = mark_store i} (λ e. ground arith)
      & one _ {x = mark_branch i} (λ e. ground arith)
      & (λ e. ground arith)
      & (λ e. ground arith)
      & (λ e. ground arith)
      & tt

  classify-IsMarked : IsMarked (classify i)
  unfolding classify
  classify-IsMarked =
      switch_keyed IsMarked i.opcode (opcode_cases i) opcode_cases-IsMarked (illegal i.opcode refl)

halt-IsMarked : (i : Instruction) → IsMarked (record i { is_halt = true })
halt-IsMarked i = record {
  load = λ h e. absurd (ground (arith, h.no_halt));
  store = λ h e. absurd (ground (arith, h.no_halt));
  computes = λ h n e f g. absurd (ground (arith, h.no_halt));
}

nop-IsMarked : (i : Instruction) → i.opcode ≡ 0x13 → IsMarked (record i { is_nop = true })
nop-IsMarked i o = record {
  load = λ h e. absurd (ground arith);
  store = λ h e. absurd (ground arith);
  computes = λ h n e f g. absurd (ground arith);
}

pub sim_decode-IsMarked : (i : Instruction) → IsRaw i → IsMarked (sim_decode i)
unfolding sim_decode
sim_decode-IsMarked i r =
    let d = decode_fields i in
    let raw : IsRaw d = decode_fields-IsRaw i r in
    if_both IsMarked (d.instruction == halt_word) (halt-IsMarked d) (
      if_known IsMarked (d.instruction == nop_word)
        (λ e.
          nop-IsMarked d (word_opcode i nop_word 0x13 (ground arith) (unfold extract_bits in refl)))
        (classify-IsMarked d raw))
