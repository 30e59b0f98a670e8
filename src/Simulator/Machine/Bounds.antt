-- ===== src/Simulator/Machine/Bounds.antt =====
-- The shape of the machine, 32 registers of 64 bits over a memory of bytes, and the stages.
use ece375_project.Base.{ℕ, zero, suc, ◌+◌, ◌*◌, ◌^◌, ◌<◌, ◌≤◌, ◌≡◌, refl, ◌∙◌, arith, true}
use ece375_project.Base.{
  List, length, get_elem?, set, length-set, All, All-set, All-get_or, if_both, Option-cases, inl,
  inr, bit_and,
}
use ece375_project.Word.{u64, shr}
use ece375_project.Word.Fields.{bit_and_mask}
use ece375_project.MemoryStore.{
  MemoryStore, is_entry_size, write_bytes, get_or_set_value, get_mem_value, set_mem_value,
}
use ece375_project.MemoryStore.RoundTrip.{get_mem_value-lt, offset}
use ece375_project.Simulator.Instruction.{Instruction}
use ece375_project.Simulator.Decode.{decode_fields, sim_decode}
use ece375_project.Simulator.Decode.Flags.{sim_decode-Agrees}
use ece375_project.Simulator.Resolve.{sim_operand_collection, sim_next_pc_resolution}
use ece375_project.Simulator.Arith.{mask_shift, sim_arith_logic}
use ece375_project.Simulator.Arith.Bounds.{
  IsWord, sext64-IsWord, masked-IsWord, sim_arith_logic-IsWord,
}
use ece375_project.Simulator.Access.{
  sim_addr_gen, access_size, load_result, sim_mem_access, written_value, sim_commit,
}
use ece375_project.Simulator.Machine.{Simulator, number, sim_id, sim_ex, sim_mem, sim_wb}

abbrev pub IsByte : ℕ → Type 0
IsByte b = b < 256

-- `size` is the number of bytes.
pub record IsMachine (size : ℕ) (s : Simulator) : Type 0 where
  pub all_registers : length s.registers ≡ 32
  pub words : All IsWord s.registers
  pub bytes : All IsByte s.memory.mem_arr
  pub all_bytes : length s.memory.mem_arr ≡ size

-- The values that an instruction carries from stage to stage.
pub record IsBounded (i : Instruction) : Type 0 where
  pub op1 : IsWord i.op1_val
  pub op2 : IsWord i.op2_val
  pub result : IsWord i.arith_result
  pub loaded : IsWord i.mem_result

pub zero-IsWord : IsWord 0
zero-IsWord = record { fits = omega arith }

-- Writing bytes, whether it ends well or not.
write_bytes-All :
    (left i : ℕ) (arr : List ℕ) (base v : ℕ)
    → All IsByte arr
    → All IsByte (write_bytes left i arr base v).1
      × (length (write_bytes left i arr base v).1 ≡ length arr)
unfolding write_bytes
write_bytes-All zero i arr base v h = (h, refl)
write_bytes-All (suc left) i arr base v h = elim (Option-cases (get_elem? arr (u64 (base + i)))) [
  | inl out ↦ rw (out, write_bytes) (h, refl)
  | inr (b, found) ↦
      let byte = bit_and (shr v (i * 8)) 0xFF in
      let low : byte < 256 = omega (arith, bit_and_mask 8 (shr v (i * 8))) in
      let arr' = set arr (u64 (base + i)) byte in
      let (all, same) = write_bytes-All left (i + 1) arr' base v (All-set IsByte arr _ low h) in
      rw (found, write_bytes) (all, same ∙ length-set arr _ byte)
]

known_size : (i : Instruction) → is_entry_size (access_size i) ≡ true
unfolding access_size
known_size i = ground arith

load_result-IsWord :
    (i : Instruction) (m : MemoryStore) → All IsByte m.mem_arr → IsWord (load_result i m)
unfolding load_result
load_result-IsWord i m h = if_both IsWord _ (sext64-IsWord _ _ value) value
  where
    size_fits : 2 ^ (access_size i * 8) ≤ 2 ^ 64
    size_fits = unfold access_size in ground arith

    value : IsWord (get_mem_value m i.mem_address 0 (access_size i)).value
    value = record {
      fits =
          omega
            (arith, get_mem_value-lt m i.mem_address (access_size i) (known_size i) 0 h, size_fits);
    }

module _ (i : Instruction) (b : IsBounded i) where
  decode-IsBounded : IsBounded (sim_decode i)
  unfolding decode_fields
  decode-IsBounded =
      let same = (sim_decode-Agrees i).same in
      record {
        op1 = ground (arith, b.op1, same);
        op2 = ground (arith, b.op2, same);
        result = ground (arith, b.result, same);
        loaded = ground (arith, b.loaded, same);
      }

  collection-IsBounded :
      (registers : List ℕ) → All IsWord registers → IsBounded (sim_operand_collection i registers)
  unfolding sim_operand_collection
  collection-IsBounded registers h =
      let local = All-set IsWord registers 0 zero-IsWord h in
      let first = All-get_or IsWord _ i.rs1 zero-IsWord local in
      let second = All-get_or IsWord _ i.rs2 zero-IsWord local in
      record {
        op1 = ground (arith, b.op1, first);
        op2 = ground (arith, b.op2, second);
        result = ground (arith, b.result);
        loaded = ground (arith, b.loaded);
      }

  pub resolution-IsBounded : IsBounded (sim_next_pc_resolution i)
  unfolding sim_next_pc_resolution
  resolution-IsBounded = record { op1 = b.op1; op2 = b.op2; result = b.result; loaded = b.loaded }

  arith_logic-IsBounded : IsBounded (sim_arith_logic i)
  arith_logic-IsBounded = record {
    op1 = unfold sim_arith_logic mask_shift in ground (arith, b.op1);
    op2 = unfold sim_arith_logic in masked-IsWord i b.op2;
    result = sim_arith_logic-IsWord i b.op1 b.op2 b.result;
    loaded = unfold sim_arith_logic mask_shift in ground (arith, b.loaded);
  }

  addr_gen-IsBounded : IsBounded (sim_addr_gen i)
  unfolding sim_addr_gen
  addr_gen-IsBounded = record {
    op1 = ground (arith, b.op1);
    op2 = ground (arith, b.op2);
    result = ground (arith, b.result);
    loaded = ground (arith, b.loaded);
  }

  pub written-IsWord : IsWord (written_value i)
  unfolding written_value
  written-IsWord = if_both IsWord i.reads_mem b.loaded b.result

pub sim_ex-IsBounded : (i : Instruction) → IsBounded i → IsBounded (sim_ex i)
unfolding sim_ex
sim_ex-IsBounded i b =
    let a = if_both IsBounded i.does_arith_logic (arith_logic-IsBounded i b) b in
    if_both IsBounded _ (addr_gen-IsBounded _ a) a

module _ {size : ℕ} (s : Simulator) (h : IsMachine size s) where
  pub sim_id-IsBounded :
      (i : Instruction) → IsBounded i → IsBounded (sim_id s i).1 × IsMachine size (sim_id s i).0
  unfolding sim_id number
  sim_id-IsBounded i b =
      let d = decode-IsBounded i b in
      let numbered : IsBounded (number s (sim_decode i)).1 =
        unfold number in
        record { op1 = d.op1; op2 = d.op2; result = d.result; loaded = d.loaded } in
      let collected = collection-IsBounded _ numbered s.registers h.words in
      let m : IsMachine size (number s (sim_decode i)).0 =
        unfold number in
        record {
          all_registers = h.all_registers;
          words = h.words;
          bytes = h.bytes;
          all_bytes = h.all_bytes;
        } in
      if_both (λ (r : Simulator × Instruction). IsBounded r.1 × IsMachine size r.0) _ (numbered, m)
        (resolution-IsBounded _ collected, m)

  pub sim_mem-IsBounded :
      (i : Instruction) → IsBounded i → IsBounded (sim_mem s i).1 × IsMachine size (sim_mem s i).0
  unfolding sim_mem sim_mem_access set_mem_value get_or_set_value
  sim_mem-IsBounded i b =
      let loads = load_result-IsWord i s.memory h.bytes in
      let written =
        write_bytes-All (access_size i) 0 s.memory.mem_arr (offset s.memory i.mem_address) i.op2_val
          h.bytes in
      (
        record {
          op1 = ground (arith, b.op1);
          op2 = ground (arith, b.op2);
          result = ground (arith, b.result);
          loaded = ground (arith, b.loaded, loads);
        },
        record {
          all_registers = ground (arith, h.all_registers);
          words = ground (arith, h.words);
          bytes = ground (arith, h.bytes, written);
          all_bytes = ground (arith, h.all_bytes, written);
        },
      )

  pub sim_wb-IsMachine : (i : Instruction) → IsBounded i → IsMachine size (sim_wb s i).0
  unfolding sim_wb sim_commit
  sim_wb-IsMachine i b =
      if_both (λ (r : Simulator × Instruction). IsMachine size r.0) i.writes_rd
        (record {
          all_registers = length-set s.registers i.rd (written_value i) ∙ h.all_registers;
          words = All-set IsWord s.registers i.rd (written-IsWord i b) h.words;
          bytes = h.bytes;
          all_bytes = h.all_bytes;
        })
        h
