-- ===== src/Simulator/Decode/Flags.antt =====
-- Which flags `simDecode` can set together.
use ece375_project.Base.{ℕ, Bool, true, false, ◌≡◌, refl, arith, ◌⊎◌}
use ece375_project.Base.{if_both, switch_all, AllCases, ◌&◌, ◌==◌, if◌then◌else◌}
use ece375_project.Simulator.Instruction.{Instruction}
use ece375_project.Simulator.Decode.{
  decode_fields, mark_register, mark_immediate, mark_upper, mark_load, mark_store, mark_branch,
  mark_illegal, opcode_cases, classify, sim_decode, halt_word, nop_word,
}

-- An instruction that no stage has decoded.
pub record IsRaw (i : Instruction) : Type 0 where
  pub halt : i.is_halt ≡ false
  pub nop : i.is_nop ≡ false
  pub load : i.reads_mem ≡ false
  pub store : i.writes_mem ≡ false
  pub arith_logic : i.does_arith_logic ≡ false
  pub writes : i.writes_rd ≡ false
  pub rs1 : i.reads_rs1 ≡ false
  pub rs2 : i.reads_rs2 ≡ false

-- The flags of an instruction are those of one class: arithmetic, load, store, branch, or none.
pub record IsDecoded (i : Instruction) : Type 0 where
  pub writes_from : i.writes_rd ≡ true → (i.does_arith_logic ≡ true) ⊎ (i.reads_mem ≡ true)
  pub arith_writes : i.does_arith_logic ≡ true → i.writes_rd ≡ true
  pub load_writes : i.reads_mem ≡ true → i.writes_rd ≡ true
  pub store_no_write : i.writes_mem ≡ true → i.writes_rd ≡ false
  pub load_no_arith : i.reads_mem ≡ true → i.does_arith_logic ≡ false
  pub reads_second : i.reads_rs2 ≡ true → i.reads_rs1 ≡ true
  pub illegal_idle : i.is_legal ≡ false → (i.writes_rd ≡ false) × (i.writes_mem ≡ false)
  pub halt_idle : i.is_halt ≡ true → (i.writes_rd ≡ false) × (i.writes_mem ≡ false)
  pub nop_idle : i.is_nop ≡ true → (i.writes_rd ≡ false) × (i.writes_mem ≡ false)

module _ (i : Instruction) (r : IsRaw i) where
  mark_illegal-IsDecoded : IsDecoded (mark_illegal i)
  unfolding mark_illegal
  mark_illegal-IsDecoded = ground arith

  mark_upper-IsDecoded : IsDecoded (mark_upper i)
  unfolding mark_upper
  mark_upper-IsDecoded = ground arith

  module _ (legal : i.is_legal ≡ true) where
    mark_register-IsDecoded : IsDecoded (mark_register i)
    unfolding mark_register
    mark_register-IsDecoded = ground arith

    mark_immediate-IsDecoded : IsDecoded (mark_immediate i)
    unfolding mark_immediate
    mark_immediate-IsDecoded = ground arith

    mark_load-IsDecoded : IsDecoded (mark_load i)
    unfolding mark_load
    mark_load-IsDecoded = ground arith

    mark_store-IsDecoded : IsDecoded (mark_store i)
    unfolding mark_store
    mark_store-IsDecoded = ground arith

    mark_branch-IsDecoded : IsDecoded (mark_branch i)
    unfolding mark_branch
    mark_branch-IsDecoded = ground arith

    mark_jalr-IsDecoded : IsDecoded (mark_immediate (record i { is_legal = true }))
    unfolding mark_immediate
    mark_jalr-IsDecoded = ground arith

    either :
        (b : Bool) {x : Instruction} → IsDecoded x → IsDecoded (if b then x else mark_illegal i)
    either b p = if_both IsDecoded b p mark_illegal-IsDecoded

    opcode_cases-IsDecoded : AllCases IsDecoded (opcode_cases i)
    opcode_cases-IsDecoded =
        either _ mark_register-IsDecoded
        & either _ mark_register-IsDecoded
        & either _ mark_load-IsDecoded
        & either _ mark_immediate-IsDecoded
        & either _ mark_immediate-IsDecoded
        & mark_jalr-IsDecoded
        & either _ mark_store-IsDecoded
        & either _ mark_branch-IsDecoded
        & mark_upper-IsDecoded
        & mark_upper-IsDecoded
        & mark_upper-IsDecoded
        & tt

    classify-IsDecoded : IsDecoded (classify i)
    unfolding classify
    classify-IsDecoded =
        switch_all IsDecoded i.opcode (opcode_cases i) opcode_cases-IsDecoded mark_illegal-IsDecoded

pub decode_fields-IsRaw : (i : Instruction) → IsRaw i → IsRaw (decode_fields i)
unfolding decode_fields
decode_fields-IsRaw i r = ground arith

halt-IsDecoded : (i : Instruction) → IsRaw i → IsDecoded (record i { is_halt = true })
halt-IsDecoded i r = ground arith

nop-IsDecoded : (i : Instruction) → IsRaw i → IsDecoded (record i { is_nop = true })
nop-IsDecoded i r = ground arith

-- Decoding an instruction on which no flag is set yet sets the flags of one class; an illegal
-- instruction, a halt and a nop write neither a register nor memory.
pub sim_decode-IsDecoded : (i : Instruction) → IsRaw i → IsDecoded (sim_decode i)
unfolding sim_decode
sim_decode-IsDecoded i r =
    let d = decode_fields i in
    let raw : IsRaw d = decode_fields-IsRaw i r in
    if_both IsDecoded (d.instruction == halt_word) (halt-IsDecoded d raw) (
      if_both IsDecoded (d.instruction == nop_word) (nop-IsDecoded d raw)
        (classify-IsDecoded d raw (unfold decode_fields in refl)))

-- What is not a flag: `simDecode` leaves it as the field extraction left it.
pub record Fields : Type 0 where
  pub pc : ℕ
  pub instruction : ℕ
  pub opcode : ℕ
  pub funct3 : ℕ
  pub funct7 : ℕ
  pub rd : ℕ
  pub rs1 : ℕ
  pub rs2 : ℕ
  pub next_pc : ℕ
  pub op1_val : ℕ
  pub op2_val : ℕ
  pub arith_result : ℕ
  pub mem_result : ℕ

abbrev pub fields : Instruction → Fields
fields i = record {
  pc = i.pc;
  instruction = i.instruction;
  opcode = i.opcode;
  funct3 = i.funct3;
  funct7 = i.funct7;
  rd = i.rd;
  rs1 = i.rs1;
  rs2 = i.rs2;
  next_pc = i.next_pc;
  op1_val = i.op1_val;
  op2_val = i.op2_val;
  arith_result = i.arith_result;
  mem_result = i.mem_result;
}

pub record Agrees (i d : Instruction) : Type 0 where
  pub same : fields d ≡ fields i

module _ (i : Instruction) where
  marked : (b : Bool) {x : Instruction} → Agrees i x → Agrees i (if b then x else mark_illegal i)
  unfolding mark_illegal
  marked b p = if_both (Agrees i) b p (record { same = refl })

  opcode_cases-Agrees : AllCases (Agrees i) (opcode_cases i)
  unfolding mark_register mark_immediate mark_upper mark_load mark_store mark_branch
  opcode_cases-Agrees =
      marked _ (record { same = refl })
      & marked _ (record { same = refl })
      & marked _ (record { same = refl })
      & marked _ (record { same = refl })
      & marked _ (record { same = refl })
      & record { same = refl }
      & marked _ (record { same = refl })
      & marked _ (record { same = refl })
      & record { same = refl }
      & record { same = refl }
      & record { same = refl }
      & tt

  classify-Agrees : Agrees i (classify i)
  unfolding classify mark_illegal
  classify-Agrees =
      switch_all (Agrees i) i.opcode (opcode_cases i) {d = mark_illegal i} opcode_cases-Agrees
        (record { same = refl })

pub sim_decode-Agrees : (i : Instruction) → Agrees (decode_fields i) (sim_decode i)
unfolding sim_decode
sim_decode-Agrees i =
    let d = decode_fields i in
    if_both (Agrees d) (d.instruction == halt_word) {x = record d { is_halt = true }}
      (record { same = refl })
      (if_both (Agrees d) (d.instruction == nop_word) {x = record d { is_nop = true }}
        (record { same = refl }) (classify-Agrees d))
