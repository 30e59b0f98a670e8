-- ===== src/Cycle/Refine/Issue.antt =====
-- The instruction that ID hands to EX.
use ece375_project.Base.{ℕ, true, false, ◌≡◌, refl, ap, ◌∙◌, sym, arith, List, Bool-cases, inl, inr}
use ece375_project.Word.{add64}
use ece375_project.Utilities.Codes.{StageStatus}
use ece375_project.Utilities.Bits.{extract_bits}
use ece375_project.Simulator.Instruction.{Instruction}
use ece375_project.Simulator.Decode.{sim_decode, decode_fields}
use ece375_project.Simulator.Decode.Classes.{sim_decode-IsClassed, decoded_registers}
use ece375_project.Simulator.Decode.Flags.{
  IsRaw, IsDecoded, Fields, sim_decode-Agrees, sim_decode-IsDecoded,
}
use ece375_project.Simulator.Resolve.{resolved_pc, sim_next_pc_resolution, sim_operand_collection}
use ece375_project.Simulator.Machine.{Simulator, number, sim_if, sim_id, sim_ex}
use ece375_project.Funct.{Funct, run_one}
use ece375_project.Cycle.Forward.{nop, forward_operands, resolves_in_id}
use ece375_project.Cycle.Step.{Core, marked, resolve_branch}
use ece375_project.Cycle.Step.Roles.{roles, roles-ex, roles-marked, roles-resolve_branch, roles-id}
use ece375_project.Cycle.Refine.{Arch, arch, execute, operand}
use ece375_project.Cycle.Refine.Effects.{
  perform_idle, collection-roles, IsDecoded-roles, IsClassed-roles, collected,
}
use ece375_project.Cycle.Refine.Fetched.{execute_same, arch-instruction}
use ece375_project.Cycle.Refine.Tracking.{IsKnown, IsFresh}

-- What ID makes of an instruction, before it is passed on.
abbrev pub issued : Core → Simulator → Instruction → Instruction
issued c s i = marked (resolve_branch c (sim_id s i).1)

pub roles-issued :
    (c : Core) (s : Simulator) (i : Instruction) → roles (issued c s i) ≡ roles (sim_decode i)
roles-issued c s i = roles-marked _ ∙ roles-resolve_branch c (sim_id s i).1 ∙ roles-id s i

pub sim_decode-IsKnown : (i : Instruction) → IsRaw i → IsKnown (sim_decode i)
sim_decode-IsKnown i r = record {
  classed = sim_decode-IsClassed i r;
  decoded = sim_decode-IsDecoded i r;
  rs1 = (decoded_registers i).0;
  rs2 = (decoded_registers i).1;
}

IsKnown-roles : (i j : Instruction) → roles i ≡ roles j → IsKnown i → IsKnown j
IsKnown-roles i j e k = record {
  classed = IsClassed-roles i j e k.classed;
  decoded = IsDecoded-roles i j e k.decoded;
  rs1 = ground (arith, e, k.rs1);
  rs2 = ground (arith, e, k.rs2);
}

pub issued-IsKnown :
    (c : Core) (s : Simulator) (i : Instruction) → IsKnown (sim_decode i) → IsKnown (issued c s i)
issued-IsKnown c s i k = IsKnown-roles (sim_decode i) (issued c s i) (sym (roles-issued c s i)) k

pub id_operands :
    (s : Simulator) (i : Instruction)
    → IsKnown (sim_decode i)
    → let new = (sim_id s i).1 in
      (new.reads_rs1 ≡ true → new.op1_val ≡ operand s.registers new.rs1)
      × (new.reads_rs2 ≡ true → new.op2_val ≡ operand s.registers new.rs2)
unfolding sim_id number sim_next_pc_resolution
id_operands s i k =
    let col = collected (number s (sim_decode i)).1 s.registers in
    unfold number sim_operand_collection in ground (arith, k.classed.stopped)

pub issued-IsFresh :
    (c : Core) (s : Simulator) (i : Instruction)
    → IsKnown (sim_decode i)
    → IsFresh s.registers (issued c s i)
unfolding marked resolve_branch
issued-IsFresh c s i k =
    let new = (sim_id s i).1 in
    elim (Bool-cases (resolves_in_id new)) [
      | inl on ↦ record {
        op1 = λ o.
            absurd (unfold forward_operands sim_next_pc_resolution resolves_in_id in ground arith);
        op2 = λ o.
            absurd (unfold forward_operands sim_next_pc_resolution resolves_in_id in ground arith);
      }
      | inr off ↦
          rw off (record { op1 = λ o. (id_operands s i k).0; op2 = λ o. (id_operands s i k).1 })
    ]

decoded_result : (i : Instruction) → (sim_decode i).arith_result ≡ i.arith_result
unfolding decode_fields
decoded_result i = ground (arith, ap (λ (f : Fields). f.arith_result) (sim_decode-Agrees i).same)

issued_result :
    (c : Core) (s : Simulator) (i : Instruction)
    → (issued c s i).arith_result ≡ (sim_decode i).arith_result
unfolding marked resolve_branch sim_next_pc_resolution forward_operands sim_id number
    sim_operand_collection
issued_result c s i = ground arith

-- What ID issues has the effect of the decoded word.
pub execute-issued :
    (c : Core) (s : Simulator) (i : Instruction) (a : Arch)
    → IsKnown (sim_decode i)
    → execute (issued c s i) a ≡ execute (sim_decode i) a
execute-issued c s i a k =
    execute_same (issued c s i) (sim_decode i) a (roles-issued c s i) (issued_result c s i)
      k.classed k.decoded

pub execute-run_one :
    (f : Funct) → execute (sim_decode (sim_if f.sim f.pc)) (arch f.sim) ≡ arch (run_one f).0.sim
unfolding run_one
execute-run_one f = sym (arch-instruction f.sim f.pc)

pub execute_idle :
    (i : Instruction) (a : Arch)
    → IsDecoded i
    → i.writes_rd ≡ false
    → i.writes_mem ≡ false
    → execute i a ≡ a
execute_idle i a d w m =
    let c = sim_operand_collection i a.registers in
    let e = roles-ex c ∙ collection-roles i a.registers in
    perform_idle (sim_ex c) a (IsDecoded-roles i (sim_ex c) (sym e) d) (ground (arith, e))
      (ground (arith, e))

-- A bubble does nothing, decoded or not.
pub nop-IsKnown : (st : StageStatus) → IsKnown (nop st)
unfolding nop
nop-IsKnown st = record {
  classed = ground arith;
  decoded = ground arith;
  rs1 = ground arith;
  rs2 = ground arith;
}

pub nop-IsFresh : (st : StageStatus) (registers : List ℕ) → IsFresh registers (nop st)
unfolding nop
nop-IsFresh st registers = ground arith

pub execute-nop : (st : StageStatus) (a : Arch) → execute (nop st) a ≡ a
execute-nop st a =
    execute_idle (nop st) a (nop-IsKnown st).decoded (unfold nop in refl) (unfold nop in refl)

decoded_nop : (st : StageStatus) → sim_decode (nop st) ≡ record (nop st) { opcode = 0x13 }
unfolding nop sim_decode decode_fields extract_bits
decoded_nop st = refl

pub decoded_nop-IsKnown : (st : StageStatus) → IsKnown (sim_decode (nop st))
decoded_nop-IsKnown st = rw (decoded_nop st) (
    unfold nop in
    record {
      classed = ground arith;
      decoded = ground arith;
      rs1 = ground arith;
      rs2 = ground arith;
    })

pub execute-decoded_nop : (st : StageStatus) (a : Arch) → execute (sim_decode (nop st)) a ≡ a
execute-decoded_nop st a =
    let d = (decoded_nop-IsKnown st).decoded in
    execute_idle (sim_decode (nop st)) a d (rw (decoded_nop st) (unfold nop in refl))
      (rw (decoded_nop st) (unfold nop in refl))

pub nop_passes :
    (s : Simulator) (st : StageStatus)
    → (resolves_in_id (sim_id s (nop st)).1 ≡ false)
      × ((sim_id s (nop st)).1.next_pc ≡ add64 (nop st).pc 4)
unfolding resolves_in_id sim_id number
nop_passes s st =
    rw (decoded_nop st)
      (unfold nop sim_next_pc_resolution sim_operand_collection resolved_pc in (refl, refl))

-- What a decoded bubble is.
pub record IsBubble (i : Instruction) : Type 0 where
  pub nop : i.is_nop ≡ true
  pub halt : i.is_halt ≡ false
  pub first : i.rs1 ≡ 0
  pub second : i.rs2 ≡ 0
  pub no_load : i.reads_mem ≡ false
  pub no_store : i.writes_mem ≡ false
  pub no_write : i.writes_rd ≡ false

pub decoded_nop-IsBubble :
    (st : StageStatus) (i : Instruction) → roles i ≡ roles (sim_decode (nop st)) → IsBubble i
decoded_nop-IsBubble st i e =
    let known : IsBubble (sim_decode (nop st)) = rw (decoded_nop st) (unfold nop in ground arith) in
    ground (arith, e, known)

pub nop-IsBubble : (st : StageStatus) → IsBubble (nop st)
unfolding nop
nop-IsBubble st = ground arith
