-- ===== src/Cycle/Refine/Tracking.antt =====
-- The pipeline between two cycles against a state of the functional simulator, and what EX and ID
-- of a cycle keep of it.
use ece375_project.Base.{
  ℕ, ◌<◌, true, false, ◌≡◌, refl, ◌∙◌, sym, arith, List, length, Bool-cases, inl, inr, ◌||◌, not,
  if◌then◌else◌,
}
use ece375_project.MemoryStore.{MemoryStore}
use ece375_project.Simulator.Instruction.{Instruction}
use ece375_project.Simulator.Decode.{sim_decode}
use ece375_project.Simulator.Decode.Classes.{IsClassed}
use ece375_project.Simulator.Decode.Flags.{IsDecoded}
use ece375_project.Simulator.Resolve.{sim_next_pc_resolution, sim_operand_collection, resolved_pc}
use ece375_project.Simulator.Access.{written_value}
use ece375_project.Simulator.Machine.{Simulator, number, sim_id, sim_ex}
use ece375_project.Cycle.Forward.{hazard, forward, forward_operands, resolves_in_id}
use ece375_project.Cycle.Forward.Commits.{commit}
use ece375_project.Cycle.Step.{Core, marked, resolve_branch}
use ece375_project.Cycle.Step.Roles.{roles, roles-forward_operands, roles-id}
use ece375_project.Cycle.Refine.{Arch, perform, execute, operand}
use ece375_project.Cycle.Refine.Operands.{IsHeld, operand-commit, forward-operand}
use ece375_project.Cycle.Refine.Effects.{
  IsDecoded-roles, IsClassed-roles, perform_same, sim_ex-IsSame, collection-roles, collected,
}
use ece375_project.Cycle.Refine.Fetched.{resolved_pc-plain, resolved_pc-same}

-- A decoded instruction.
pub record IsKnown (i : Instruction) : Type 0 where
  pub classed : IsClassed i
  pub decoded : IsDecoded i
  pub rs1 : i.rs1 < 32
  pub rs2 : i.rs2 < 32

-- The operands in ID are those of the register file.
pub record IsFresh (registers : List ℕ) (i : Instruction) : Type 0 where
  pub op1 : resolves_in_id i ≡ false → i.reads_rs1 ≡ true → i.op1_val ≡ operand registers i.rs1
  pub op2 : resolves_in_id i ≡ false → i.reads_rs2 ≡ true → i.op2_val ≡ operand registers i.rs2

-- They are, once the instruction that WB held last is taken into account.
pub record IsSupplied (done : Instruction) (registers : List ℕ) (i : Instruction) : Type 0 where
  pub op1 :
      resolves_in_id i ≡ false
      → i.reads_rs1 ≡ true
      → (if hazard done i.rs1 then written_value done else i.op1_val) ≡ operand registers i.rs1
  pub op2 :
      resolves_in_id i ≡ false
      → i.reads_rs2 ≡ true
      → (if hazard done i.rs2 then written_value done else i.op2_val) ≡ operand registers i.rs2

pub IsFresh-IsSupplied :
    (done i : Instruction) (registers : List ℕ)
    → length registers ≡ 32
    → IsKnown i
    → IsHeld done registers
    → IsFresh registers i
    → IsSupplied done registers i
IsFresh-IsSupplied done i registers n k h f = record {
  op1 = λ o r. ground (arith, f.op1 o r, h i.rs1, k.rs1, n);
  op2 = λ o r. ground (arith, f.op2 o r, h i.rs2, k.rs2, n);
}

-- The instruction that reads its operands before a write-back has what it then needs.
pub IsFresh-commit :
    (wb i : Instruction) (registers : List ℕ)
    → length registers ≡ 32
    → IsKnown i
    → IsFresh registers i
    → IsSupplied wb (commit wb registers) i
IsFresh-commit wb i registers n k f = record {
  op1 = λ o r. ground (arith, f.op1 o r, operand-commit wb registers i.rs1, k.rs1, n);
  op2 = λ o r. ground (arith, f.op2 o r, operand-commit wb registers i.rs2, k.rs2, n);
}

pub perform-marked : (i : Instruction) (a : Arch) → perform (marked i) a ≡ perform i a
unfolding marked
perform-marked i a =
    perform_same (marked i) i a
      (record { same_roles = refl; address = λ h. refl; stored = λ h. refl; result = λ h g. refl })

-- EX, on forwarded operands, makes of the instruction in ID what it is to do after the older
-- instructions.
pub ex-executes :
    (mem wb done id : Instruction) (registers : List ℕ) (memory : MemoryStore)
    → IsKnown id
    → length registers ≡ 32
    → IsSupplied done registers id
    → let a : Arch = record { registers = commit mem (commit wb registers); memory = memory } in
      perform (marked (sim_ex (forward_operands mem wb done id))) a ≡ execute id a
ex-executes mem wb done id registers memory k n s =
    let a : Arch = record { registers = commit mem (commit wb registers); memory = memory } in
    let fed = forward_operands mem wb done id in
    let c = sim_operand_collection id a.registers in
    let (c1, c2, old) = collected id a.registers in
    let e = roles-forward_operands mem wb done id in
    perform-marked (sim_ex fed) a
    ∙ perform_same (sim_ex fed) (sim_ex c) a (
        sim_ex-IsSame fed c
          (record {
            same_roles = e ∙ sym (collection-roles id a.registers);
            op1 =
                unfold forward_operands resolves_in_id in
                λ o r.
                  forward-operand mem wb done registers id.rs1 id.op1_val (rw n k.rs1)
                    (s.op1 (unfold resolves_in_id in o) r)
                  ∙ sym (c1 r);
            op2 =
                unfold forward_operands resolves_in_id in
                λ o r.
                  forward-operand mem wb done registers id.rs2 id.op2_val (rw n k.rs2)
                    (s.op2 (unfold resolves_in_id in o) r)
                  ∙ sym (c2 r);
            old = unfold forward_operands in sym old;
          })
          (IsClassed-roles id fed (sym e) k.classed) (IsDecoded-roles id fed (sym e) k.decoded))

resolving : Simulator → Instruction → Instruction
resolving s i = sim_operand_collection (number s (sim_decode i)).1 s.registers

roles-resolving : (s : Simulator) (i : Instruction) → roles (resolving s i) ≡ roles (sim_decode i)
unfolding resolving number
roles-resolving s i = collection-roles (number s (sim_decode i)).1 s.registers

next_pc-stopped :
    (s : Simulator) (i : Instruction)
    → not (sim_decode i).is_legal || (sim_decode i).is_halt ≡ true
    → (sim_id s i).1.next_pc ≡ (sim_decode i).next_pc
unfolding sim_id number
next_pc-stopped s i stop = ground arith

next_pc-going :
    (s : Simulator) (i : Instruction)
    → not (sim_decode i).is_legal || (sim_decode i).is_halt ≡ false
    → (sim_id s i).1.next_pc ≡ resolved_pc (resolving s i)
unfolding sim_id number sim_next_pc_resolution resolving
next_pc-going s i go = ground arith

next_pc-plain :
    (s sf : Simulator) (i : Instruction)
    → resolves_in_id (sim_decode i) ≡ false
    → (sim_id s i).1.next_pc ≡ (sim_id sf i).1.next_pc
next_pc-plain s sf i plain =
    elim (Bool-cases (not (sim_decode i).is_legal || (sim_decode i).is_halt)) [
      | inl stop ↦ next_pc-stopped s i stop ∙ sym (next_pc-stopped sf i stop)
      | inr go ↦
          next_pc-going s i go
          ∙ resolved_pc-plain (resolving s i) (resolving sf i)
              (roles-resolving s i ∙ sym (roles-resolving sf i))
              (unfold resolves_in_id in ground (arith, roles-resolving s i))
          ∙ sym (next_pc-going sf i go)
    ]

-- The operands that a branch or `jalr` finds in ID are those of the register file.
abbrev pub IsResolvable : Core → Instruction → List ℕ → Type 0
IsResolvable c new registers =
    (new.is_legal ≡ true)
    × (new.is_halt ≡ false)
    × (new.reads_rs1 ≡ true
        → forward c.mem_inst c.wb_inst c.done_inst new.rs1 new.op1_val ≡ operand registers new.rs1)
    × (new.reads_rs2 ≡ true
        → forward c.mem_inst c.wb_inst c.done_inst new.rs2 new.op2_val ≡ operand registers new.rs2)

next_pc-forwarded :
    (c : Core) (s sf : Simulator) (i : Instruction)
    → let new = (sim_id s i).1 in
      IsClassed (sim_decode i)
      → resolves_in_id new ≡ true
      → IsResolvable c new sf.registers
      → resolved_pc (forward_operands c.mem_inst c.wb_inst c.done_inst new)
        ≡ (sim_id sf i).1.next_pc
unfolding resolves_in_id
next_pc-forwarded c s sf i k r (legal, running, op1, op2) =
    let new = (sim_id s i).1 in
    let d = sim_decode i in
    let e = roles-id s i in
    let reads = k.branch_reads in
    let f = forward_operands c.mem_inst c.wb_inst c.done_inst new in
    let g = resolving sf i in
    let col = collected (number sf d).1 sf.registers in
    resolved_pc-same f g (roles-forward_operands _ _ _ new ∙ e ∙ sym (roles-resolving sf i))
      (unfold resolving forward_operands number in
        ground (arith, e, op1, col, k.branch_reads, k.jalr_reads))
      (unfold resolving forward_operands number in ground (arith, e, op2, col, k.branch_reads))
    ∙ sym (next_pc-going sf i (ground (arith, e)))

-- The next PC that ID finds.
pub next_pc-resolve_branch :
    (c : Core) (s sf : Simulator) (i : Instruction)
    → let new = (sim_id s i).1 in
      IsClassed (sim_decode i)
      → (resolves_in_id new ≡ true → IsResolvable c new sf.registers)
      → (marked (resolve_branch c new)).next_pc ≡ (sim_id sf i).1.next_pc
unfolding marked resolve_branch
next_pc-resolve_branch c s sf i k h = elim (Bool-cases (resolves_in_id (sim_id s i).1)) [
  | inl on ↦ rw on (unfold sim_next_pc_resolution in next_pc-forwarded c s sf i k on (h on))
  | inr off ↦ rw off (next_pc-plain s sf i (unfold resolves_in_id in ground (arith, roles-id s i)))
]
