-- ===== src/Isa/Outcome.antt =====
-- What `simInstruction` leaves in the registers and the memory, against the instruction set.
use ece375_project.Base.{
  ℕ, ℤ, ◌+◌, ◌*◌, ◌^◌, ◌<◌, ◌≡◌, refl, ap, sym, ◌∙◌, arith, true, false, All, set,
}
use ece375_project.Word.{of_ℤ, shl64}
use ece375_project.Word.Signed.{add64-of_ℤ}
use ece375_project.Word.Fields.{bit_or_above}
use ece375_project.Utilities.Extend.{sext64-eq-signed}
use ece375_project.MemoryStore.{set_mem_value}
use ece375_project.MemoryStore.RoundTrip.{get_mem_value-lt}
use ece375_project.Simulator.Instruction.{Instruction}
use ece375_project.Simulator.Decode.Classes.{IsClassed}
use ece375_project.Simulator.Decode.Flags.{IsDecoded}
use ece375_project.Simulator.Resolve.{sim_operand_collection}
use ece375_project.Simulator.Arith.{sim_arith_logic}
use ece375_project.Simulator.Arith.Meaning.{Means, imm}
use ece375_project.Simulator.Arith.Integers.{sim_arith_logic-Means, imm_lem}
use ece375_project.Simulator.Access.{
  sim_addr_gen, access_size, load_result, sim_mem_access, sim_commit, written_value,
}
use ece375_project.Simulator.Machine.{sim_ex}
use ece375_project.Simulator.Machine.Bounds.{IsByte}
use ece375_project.Cycle.Step.Roles.{Roles, roles-arith_logic, roles-addr_gen, roles-ex}
use ece375_project.Cycle.Refine.{Arch, operand, perform, execute}
use ece375_project.Cycle.Refine.Effects.{
  IsDecoded-roles, IsClassed-roles, perform_same, perform_idle, sim_ex-IsSame, collection-roles,
  collected, ex_computed, ex_passed,
}
use ece375_project.Isa.{given, Loads, Stores, load_address, store_imm, store_address}

-- The value and the size of an access, from the code that names them.
module _ {i : Instruction} {a : Arch} (k : Instruction) (code : k.funct3 ≡ i.funct3) where
  load_result_lem :
      {v : ℕ}
      → k.mem_address ≡ load_address i a
      → All IsByte a.memory.mem_arr
      → Loads i a v
      → load_result k a.memory ≡ v
  unfolding load_result access_size
  load_result_lem e b (Loads.lb f) =
      rw (code, f, e) (sext64-eq-signed 7 _ (omega arith) (get_mem_value-lt a.memory _ 1 refl 0 b))
  load_result_lem e b (Loads.lh f) =
      rw (code, f, e) (sext64-eq-signed 15 _ (omega arith) (get_mem_value-lt a.memory _ 2 refl 0 b))
  load_result_lem e b (Loads.lw f) =
      rw (code, f, e) (sext64-eq-signed 31 _ (omega arith) (get_mem_value-lt a.memory _ 4 refl 0 b))
  load_result_lem e b (Loads.ld f) = rw (code, f, e) refl
  load_result_lem e b (Loads.lbu f) = rw (code, f, e) refl
  load_result_lem e b (Loads.lhu f) = rw (code, f, e) refl
  load_result_lem e b (Loads.lwu f) = rw (code, f, e) refl

  access_size_lem : {size : ℕ} → Stores i a size → access_size k ≡ size
  unfolding access_size
  access_size_lem (Stores.sb f) = rw (code, f) refl
  access_size_lem (Stores.sh f) = rw (code, f) refl
  access_size_lem (Stores.sw f) = rw (code, f) refl
  access_size_lem (Stores.sd f) = rw (code, f) refl

module _ (i : Instruction) (a : Arch) (c : IsClassed i) (d : IsDecoded i) where
  -- Registers that the instruction does not use may as well be read.
  execute-given : execute i a ≡ perform (sim_ex (given i a)) a
  execute-given =
      let k = sim_operand_collection i a.registers in
      let rk = collection-roles i a.registers in
      let f = collected i a.registers in
      perform_same (sim_ex k) (sim_ex (given i a)) a (
        sim_ex-IsSame k (given i a)
          (record {
            same_roles = rk;
            op1 = λ o r. ground (arith, rk, f);
            op2 = λ o r. ground (arith, rk, f);
            old = f.2;
          })
          (IsClassed-roles i k (sym rk) c) (IsDecoded-roles i k (sym rk) d))

  pub idle_effect : i.writes_rd ≡ false → i.writes_mem ≡ false → execute i a ≡ a
  idle_effect w m =
      execute-given
      ∙ perform_idle (sim_ex (given i a)) a
          (IsDecoded-roles i (sim_ex (given i a)) (sym (roles-ex (given i a))) d)
          (ground (arith, roles-ex (given i a))) (ground (arith, roles-ex (given i a)))

  module _ (h : (given i a).op1_val < 2 ^ 64) (h' : (given i a).op2_val < 2 ^ 64)
      (hpc : i.pc < 2 ^ 64) where
    pub compute_effect :
        {z : ℤ}
        → i.does_arith_logic ≡ true
        → Means (given i a) z
        → execute i a ≡ record a { registers = set a.registers i.rd (of_ℤ z) }
    unfolding sim_mem_access sim_commit written_value
    compute_effect {z} on m =
        let g = given i a in
        let r = roles-arith_logic g in
        let v : (sim_arith_logic g).arith_result ≡ of_ℤ z = sim_arith_logic-Means g h h' hpc m in
        execute-given
        ∙ ap (λ (k : Instruction). perform k a) (ex_computed g (IsDecoded-roles i g refl d) on)
        ∙ ground (arith, r, v, d.arith_writes, d.load_no_arith, d.store_no_write)

    load_address_lem :
        i.reads_mem ≡ true → (sim_addr_gen (given i a)).mem_address ≡ load_address i a
    unfolding sim_addr_gen
    load_address_lem on = rw (on, imm_lem (given i a)) (add64-of_ℤ (given i a).op1_val (imm i) h)

    pub load_effect :
        {v : ℕ}
        → All IsByte a.memory.mem_arr
        → i.reads_mem ≡ true
        → Loads i a v
        → execute i a ≡ record a { registers = set a.registers i.rd v }
    unfolding sim_mem_access sim_commit written_value
    load_effect {v} bytes on l =
        let g = given i a in
        let r = roles-addr_gen g in
        let e : load_result (sim_addr_gen g) a.memory ≡ v =
          load_result_lem (sim_addr_gen g) (ap (λ (p : Roles). p.funct3) r) (load_address_lem on)
            bytes l in
        execute-given
        ∙ ap (λ (k : Instruction). perform k a) (ex_passed g (ground (arith, d.load_no_arith)))
        ∙ ground (arith, r, e, d.load_writes)

    store_address_lem :
        i.writes_mem ≡ true
        → i.funct7 < 2 ^ 7
        → i.rd < 2 ^ 5
        → (sim_addr_gen (given i a)).mem_address ≡ store_address i a
    unfolding sim_addr_gen
    store_address_lem on high low =
        let e : shl64 i.funct7 5 ≡ i.funct7 * 2 ^ 5 = omega arith in
        let load_off : i.reads_mem ≡ false = ground (arith, d.store_no_write, d.load_writes) in
        rw
          (
            load_off,
            on,
            e,
            bit_or_above 5 i.funct7 i.rd low,
            sext64-eq-signed 11 (i.funct7 * 2 ^ 5 + i.rd) (omega arith) (omega arith),
          )
          (add64-of_ℤ (given i a).op1_val (store_imm i a) h)

    pub store_effect :
        {size : ℕ}
        → i.writes_mem ≡ true
        → i.funct7 < 2 ^ 7
        → i.rd < 2 ^ 5
        → Stores i a size
        → execute i a ≡ record a {
          memory =
              (set_mem_value a.memory (store_address i a) (operand a.registers i.rs2) size).store;
        }
    unfolding sim_mem_access
    store_effect {size} on high low l =
        let g = given i a in
        let r = roles-addr_gen g in
        let e : access_size (sim_addr_gen g) ≡ size =
          access_size_lem (sim_addr_gen g) (ap (λ (p : Roles). p.funct3) r) l in
        let same : (sim_addr_gen g).op2_val ≡ g.op2_val = unfold sim_addr_gen in ground arith in
        execute-given
        ∙ ap (λ (k : Instruction). perform k a)
            (ex_passed g (ground (arith, d.store_no_write, d.arith_writes)))
        ∙ ground (arith, r, e, same, store_address_lem on high low, d.store_no_write, d.load_writes)
