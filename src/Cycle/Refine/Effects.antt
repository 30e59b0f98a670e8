-- ===== src/Cycle/Refine/Effects.antt =====
-- On what of an instruction its effect depends.
use ece375_project.Base.{List, ℕ, true, false, ◌≡◌, sym, ◌∙◌, arith, inl, inr, ◌||◌, Bool-cases}
use ece375_project.Simulator.Instruction.{Instruction}
use ece375_project.Simulator.Decode.Classes.{IsClassed}
use ece375_project.Simulator.Decode.Flags.{IsDecoded}
use ece375_project.Simulator.Resolve.{sim_operand_collection}
use ece375_project.Simulator.Arith.{
  mask_shift, result_int, result_intw, result_intimm, result_intimmw, arith_value, sim_arith_logic,
}
use ece375_project.Simulator.Access.{
  sim_addr_gen, access_size, load_result, sim_mem_access, written_value, sim_commit,
}
use ece375_project.Simulator.Machine.{sim_ex}
use ece375_project.Cycle.Forward.{resolves_in_id}
use ece375_project.Cycle.Step.Roles.{roles, roles-ex, roles-arith_logic}
use ece375_project.Cycle.Refine.{operand, Arch, perform}

-- Two instructions past EX that have the same effect.
pub record IsSame (i j : Instruction) : Type 0 where
  pub same_roles : roles i ≡ roles j
  pub address : i.reads_mem || i.writes_mem ≡ true → i.mem_address ≡ j.mem_address
  pub stored : i.writes_mem ≡ true → i.op2_val ≡ j.op2_val
  pub result : i.writes_rd ≡ true → i.reads_mem ≡ false → i.arith_result ≡ j.arith_result

pub perform_same : (i j : Instruction) (a : Arch) → IsSame i j → perform i a ≡ perform j a
unfolding sim_mem_access load_result access_size sim_commit written_value
perform_same i j a s = ground (arith, s.same_roles)

-- Two instructions past ID whose operands are the same where EX reads them.
pub record IsFed (i j : Instruction) : Type 0 where
  pub same_roles : roles i ≡ roles j
  pub op1 : resolves_in_id i ≡ false → i.reads_rs1 ≡ true → i.op1_val ≡ j.op1_val
  pub op2 : resolves_in_id i ≡ false → i.reads_rs2 ≡ true → i.op2_val ≡ j.op2_val
  pub old : i.arith_result ≡ j.arith_result

module _ (i j : Instruction) (same : roles i ≡ roles j) (old : i.arith_result ≡ j.arith_result)
    (op1 : i.op1_val ≡ j.op1_val) where
  module _ (op2 : i.op2_val ≡ j.op2_val) where
    int_same : result_int i ≡ result_int j
    unfolding result_int
    int_same = ground (arith, same)

    intw_same : result_intw i ≡ result_intw j
    unfolding result_intw
    intw_same = ground (arith, same)

  intimm_same : result_intimm i ≡ result_intimm j
  unfolding result_intimm
  intimm_same = ground (arith, same)

  intimmw_same : result_intimmw i ≡ result_intimmw j
  unfolding result_intimmw
  intimmw_same = ground (arith, same)

pub IsDecoded-roles : (i j : Instruction) → roles i ≡ roles j → IsDecoded i → IsDecoded j
IsDecoded-roles i j e d = ground (arith, d)

pub IsClassed-roles : (i j : Instruction) → roles i ≡ roles j → IsClassed i → IsClassed j
IsClassed-roles i j e c = ground (arith, c)

arith_value_same :
    (i j : Instruction)
    → IsFed i j
    → IsClassed i
    → i.does_arith_logic ≡ true
    → arith_value i ≡ arith_value j
unfolding arith_value resolves_in_id
arith_value_same i j f c on = ground (
  arith,
  f.same_roles,
  f.old,
  c.register,
  c.immediate,
  f.op1,
  f.op2,
  int_same i j f.same_roles f.old,
  intw_same i j f.same_roles f.old,
  intimm_same i j f.same_roles f.old,
  intimmw_same i j f.same_roles f.old,
)

roles-mask : (i : Instruction) → roles (mask_shift i) ≡ roles i
unfolding mask_shift
roles-mask i = ground arith

mask-IsFed : (i j : Instruction) → IsFed i j → IsFed (mask_shift i) (mask_shift j)
mask-IsFed i j f = record {
  same_roles = roles-mask i ∙ f.same_roles ∙ sym (roles-mask j);
  op1 = unfold mask_shift resolves_in_id in ground (arith, f.same_roles, f.op1);
  op2 = unfold mask_shift resolves_in_id in ground (arith, f.same_roles, f.op2);
  old = unfold mask_shift in ground (arith, f.same_roles, f.old);
}

arith_logic_same :
    (i j : Instruction)
    → IsFed i j
    → IsClassed i
    → i.does_arith_logic ≡ true
    → (sim_arith_logic i).arith_result ≡ (sim_arith_logic j).arith_result
unfolding sim_arith_logic
arith_logic_same i j f c on =
    arith_value_same (mask_shift i) (mask_shift j) (mask-IsFed i j f)
      (IsClassed-roles i (mask_shift i) (sym (roles-mask i)) c) (ground (arith, roles-mask i))

-- EX, for an instruction that computes and for one that does not.
pub ex_computed :
    (i : Instruction) → IsDecoded i → i.does_arith_logic ≡ true → sim_ex i ≡ sim_arith_logic i
unfolding sim_ex
ex_computed i d on =
    ground (arith, roles-arith_logic i, d.arith_writes, d.load_no_arith, d.store_no_write)

pub ex_passed : (i : Instruction) → i.does_arith_logic ≡ false → sim_ex i ≡ sim_addr_gen i
unfolding sim_ex sim_addr_gen
ex_passed i off = ground arith

addr_gen_same :
    (i j : Instruction)
    → IsFed i j
    → IsClassed i
    → i.reads_mem || i.writes_mem ≡ true
    → ((sim_addr_gen i).mem_address ≡ (sim_addr_gen j).mem_address)
      × (i.writes_mem ≡ true → (sim_addr_gen i).op2_val ≡ (sim_addr_gen j).op2_val)
unfolding sim_addr_gen resolves_in_id
addr_gen_same i j f c acc =
    ground (arith, f.same_roles, f.op1, f.op2, c.load, c.store, c.branch, c.jalr)

-- EX keeps instructions together that are fed the same.
pub sim_ex-IsSame :
    (i j : Instruction) → IsFed i j → IsClassed i → IsDecoded i → IsSame (sim_ex i) (sim_ex j)
sim_ex-IsSame i j f c d =
    let e = f.same_roles in
    let same = roles-ex i ∙ e ∙ sym (roles-ex j) in
    let d' = IsDecoded-roles i j e d in
    elim (Bool-cases i.does_arith_logic) [
      | inl on ↦ record {
        same_roles = same;
        address = λ acc.
            absurd (ground (arith, roles-ex i, d.arith_writes, d.load_no_arith, d.store_no_write));
        stored = λ acc.
            absurd (ground (arith, roles-ex i, d.arith_writes, d.load_no_arith, d.store_no_write));
        result = λ w l.
            rw (ex_computed i d on, ex_computed j d' (ground (arith, e)))
              (arith_logic_same i j f c on);
      }
      | inr off ↦ record {
        same_roles = same;
        address = λ acc.
            rw (ex_passed i off, ex_passed j (ground (arith, e)))
              (addr_gen_same i j f c (ground (arith, roles-ex i))).0;
        stored = λ acc.
            rw (ex_passed i off, ex_passed j (ground (arith, e)))
              ((addr_gen_same i j f c (ground (arith, roles-ex i))).1 (ground (arith, roles-ex i)));
        result = λ w l. absurd (ground (arith, roles-ex i, d.writes_from));
      }
    ]

-- An instruction that writes nothing has no effect.
pub perform_idle :
    (i : Instruction) (a : Arch)
    → IsDecoded i
    → i.writes_rd ≡ false
    → i.writes_mem ≡ false
    → perform i a ≡ a
unfolding sim_mem_access
perform_idle i a d w m = ground (arith, d.load_writes)

-- What the operand collection leaves out.
pub collection-roles :
    (i : Instruction) (registers : List ℕ) → roles (sim_operand_collection i registers) ≡ roles i
unfolding sim_operand_collection
collection-roles i registers = ground arith

pub collected :
    (i : Instruction) (registers : List ℕ)
    → let c = sim_operand_collection i registers in
      (i.reads_rs1 ≡ true → c.op1_val ≡ operand registers i.rs1)
      × (i.reads_rs2 ≡ true → c.op2_val ≡ operand registers i.rs2)
      × (c.arith_result ≡ i.arith_result)
unfolding sim_operand_collection
collected i registers = ground arith
