-- ===== src/Simulator/Decode/Legal.antt =====
-- What `simDecode` has found out about the fields of a legal instruction.
use ece375_project.Base.{ℕ, Bool, true, false, ◌≡◌, refl, arith, ◌==◌, List, [], ◌∷◌, one_of}
use ece375_project.Base.{if_both, if_known, if◌then◌else◌, switch_keyed, AllKeyed, ◌&◌}
use ece375_project.Utilities.Bits.{extract_bits}
use ece375_project.Utilities.Codes.{
  op_int, op_intw, op_load, op_intimm, op_intimmw, op_jalr, op_store, op_branch, op_auipc, op_lui,
  op_jal,
}
use ece375_project.Simulator.Instruction.{Instruction}
use ece375_project.Simulator.Decode.{
  decode_fields, legal_int, legal_intw, legal_load, legal_intimm, legal_intimmw, legal_store,
  legal_branch, mark_register, mark_immediate, mark_upper, mark_load, mark_store, mark_branch,
  mark_illegal, opcode_cases, classify, sim_decode, halt_word, nop_word,
}
use ece375_project.Simulator.Decode.Classes.{word_opcode}
use ece375_project.Simulator.Decode.Flags.{IsRaw, decode_fields-IsRaw}
use ece375_project.Simulator.Decode.Marks.{Runs}

-- The eleven opcodes of the source.
abbrev pub opcodes : List ℕ
opcodes =
    op_int ∷ op_intw ∷ op_intimm ∷ op_intimmw ∷ op_jalr ∷ op_auipc ∷ op_lui ∷ op_jal ∷ op_load
    ∷ op_store ∷ op_branch ∷ []

-- `Runs`, and not the nop word.
pub record Acts (i : Instruction) : Type 0 where
  pub runs : Runs i
  pub no_nop : i.is_nop ≡ false

pub record IsLegal (i : Instruction) : Type 0 where
  pub int : Acts i → i.opcode ≡ op_int → legal_int i.funct3 i.funct7 ≡ true
  pub intw : Acts i → i.opcode ≡ op_intw → legal_intw i.funct3 i.funct7 ≡ true
  pub load : Acts i → i.opcode ≡ op_load → legal_load i.funct3 ≡ true
  pub intimm : Acts i → i.opcode ≡ op_intimm → legal_intimm i.funct3 i.funct7 ≡ true
  pub intimmw : Acts i → i.opcode ≡ op_intimmw → legal_intimmw i.funct3 i.funct7 ≡ true
  pub store : Acts i → i.opcode ≡ op_store → legal_store i.funct3 ≡ true
  pub branch : Acts i → i.opcode ≡ op_branch → legal_branch i.funct3 ≡ true
  pub known : Acts i → one_of i.opcode opcodes ≡ true
  pub idling : i.is_nop ≡ true → i.opcode ≡ 0x13

-- Where nothing acts there is nothing to show.
still : (i : Instruction) → ¬ Acts i → (i.is_nop ≡ true → i.opcode ≡ 0x13) → IsLegal i
still i idle n = record {
  int = λ h. absurd (idle h);
  intw = λ h. absurd (idle h);
  load = λ h. absurd (idle h);
  intimm = λ h. absurd (idle h);
  intimmw = λ h. absurd (idle h);
  store = λ h. absurd (idle h);
  branch = λ h. absurd (idle h);
  known = λ h. absurd (idle h);
  idling = n;
}

module _ (i : Instruction) (r : IsRaw i) where
  illegal : IsLegal (mark_illegal i)
  unfolding mark_illegal
  illegal = still _ (λ h. ground (arith, h.runs.legal)) (λ h. ground (arith, r.nop))

  one :
      (b : Bool) {x : Instruction} {n : ℕ}
      → (b ≡ true → i.opcode ≡ n → IsLegal x)
      → i.opcode ≡ n
      → IsLegal (if b then x else mark_illegal i)
  one b p e = if_known IsLegal b (λ h. p h e) illegal

  opcode_cases-IsLegal : AllKeyed IsLegal i.opcode (opcode_cases i)
  unfolding mark_register mark_immediate mark_upper mark_load mark_store mark_branch
  opcode_cases-IsLegal =
      one _ {x = mark_register i} (λ h e. ground arith)
      & one _ {x = mark_register i} (λ h e. ground arith)
      & one _ {x = mark_load i} (λ h e. ground arith)
      & one _ {x = mark_immediate i} (λ h e. ground arith)
      & one _ {x = mark_immediate i} (λ h e. ground arith)
      & (λ e. ground arith)
      & one _ {x = mark_store i} (λ h e. ground arith)
      & one _ {x = mark_branch i} (λ h e. ground arith)
      & (λ e. ground arith)
      & (λ e. ground arith)
      & (λ e. ground arith)
      & tt

  classify-IsLegal : IsLegal (classify i)
  unfolding classify
  classify-IsLegal = switch_keyed IsLegal i.opcode (opcode_cases i) opcode_cases-IsLegal illegal

pub sim_decode-IsLegal : (i : Instruction) → IsRaw i → IsLegal (sim_decode i)
unfolding sim_decode
sim_decode-IsLegal i r =
    let d = decode_fields i in
    let raw : IsRaw d = decode_fields-IsRaw i r in
    if_both IsLegal (d.instruction == halt_word) {x = record d { is_halt = true }}
      (still _ (λ h. ground (arith, h.runs.no_halt)) (λ h. ground (arith, raw.nop)))
      (if_known IsLegal (d.instruction == nop_word) {x = record d { is_nop = true }}
        (λ e.
          still _ (λ h. ground (arith, h.no_nop))
            (λ n. word_opcode i nop_word 0x13 (ground arith) (unfold extract_bits in refl)))
        (classify-IsLegal d raw))
