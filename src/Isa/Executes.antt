-- ===== src/Isa/Executes.antt =====
-- `simInstruction` of src/simulator.cpp against the instruction set.
use mathlib.Core.Path.{subst}
use ece375_project.Base.{
  List, ℕ, ◌^◌, ◌<◌, ◌≡◌, refl, ◌∙◌, sym, arith, not, ◌||◌, false, All, All-set, All-get_or,
}
use ece375_project.Word.{shr}
use ece375_project.Utilities.Extract.{extract_bits-lt, extract_bits_lem}
use ece375_project.Utilities.Bits.{extract_bits}
use ece375_project.Simulator.Instruction.{Instruction}
use ece375_project.Simulator.Decode.{decode_fields, sim_decode}
use ece375_project.Simulator.Decode.Classes.{IsClassed, sim_decode-IsClassed}
use ece375_project.Simulator.Decode.Marks.{Runs, IsMarked, sim_decode-IsMarked}
use ece375_project.Simulator.Decode.Flags.{
  IsRaw, IsDecoded, sim_decode-IsDecoded, sim_decode-Agrees,
}
use ece375_project.Simulator.Resolve.{sim_operand_collection, sim_next_pc_resolution, resolved_pc}
use ece375_project.Simulator.Arith.Bounds.{IsWord}
use ece375_project.Simulator.Machine.{Simulator, number, sim_fetch, sim_if, sim_id, sim_instruction}
use ece375_project.Simulator.Machine.Stages.{sim_fetch-IsRaw}
use ece375_project.Simulator.Machine.Bounds.{IsMachine, zero-IsWord}
use ece375_project.Cycle.Step.Roles.{roles}
use ece375_project.Cycle.Refine.{Arch, arch, operand, execute}
use ece375_project.Cycle.Refine.Fetched.{arch-instruction, next_pc-instruction, resolved_pc-same}
use ece375_project.Cycle.Refine.Effects.{collection-roles}
use ece375_project.Isa.{Effects, Continues}
use ece375_project.Isa.Computes.{computing}
use ece375_project.Isa.Outcome.{idle_effect, compute_effect, load_effect, store_effect}
use ece375_project.Simulator.Decode.Legal.{sim_decode-IsLegal}
use ece375_project.Simulator.Arith.Meaning.{upper6}
use ece375_project.Isa.Total.{effect, continuation}
use ece375_project.Isa.Next.{continues_lem}

operand-lt : (registers : List ℕ) (r : ℕ) → All IsWord registers → operand registers r < 2 ^ 64
operand-lt registers r h =
    (All-get_or IsWord _ r zero-IsWord (All-set IsWord registers 0 zero-IsWord h)).fits

-- The widths of the fields of a decoded instruction.
decoded_widths :
    (i : Instruction)
    → ((sim_decode i).funct7 < 2 ^ 7) × ((sim_decode i).rd < 2 ^ 5) × ((sim_decode i).pc ≡ i.pc)
unfolding decode_fields
decoded_widths i =
    let same = (sim_decode-Agrees i).same in
    (
      ground (arith, same, extract_bits-lt i.instruction 31 25),
      ground (arith, same, extract_bits-lt i.instruction 11 7),
      ground (arith, same),
    )

-- The upper six bits of the word are those of `funct7`.
decoded_upper : (i : Instruction) → upper6 (sim_decode i) ≡ shr (sim_decode i).funct7 1
unfolding decode_fields
decoded_upper i =
    let same = (sim_decode-Agrees i).same in
    let w : (sim_decode i).instruction ≡ i.instruction = ground (arith, same) in
    let f : (sim_decode i).funct7 ≡ extract_bits i.instruction 31 25 = ground (arith, same) in
    rw (w, f, extract_bits_lem i.instruction 31 26, extract_bits_lem i.instruction 31 25)
      (omega arith)

roles-number : (s : Simulator) (i : Instruction) → roles (number s i).1 ≡ roles i
unfolding number
roles-number s i = refl

module _ {size : ℕ} (s : Simulator) (pc : ℕ) (h : IsMachine size s) (small : pc < 2 ^ 64) where
  abbrev d : Instruction
  d = sim_decode (sim_if s pc)

  raw : IsRaw (sim_if s pc)
  unfolding sim_if
  raw = sim_fetch-IsRaw s pc

  fetched_pc : (sim_if s pc).pc ≡ pc
  unfolding sim_if sim_fetch
  fetched_pc = refl

  classed : IsClassed d
  classed = sim_decode-IsClassed (sim_if s pc) raw

  decoded : IsDecoded d
  decoded = sim_decode-IsDecoded (sim_if s pc) raw

  marked : IsMarked d
  marked = sim_decode-IsMarked (sim_if s pc) raw

  first-lt : operand s.registers d.rs1 < 2 ^ 64
  first-lt = operand-lt s.registers d.rs1 h.words

  second-lt : operand s.registers d.rs2 < 2 ^ 64
  second-lt = operand-lt s.registers d.rs2 h.words

  pc-lt : d.pc < 2 ^ 64
  pc-lt = ground (arith, decoded_widths (sim_if s pc), fetched_pc)

  module _ (runs : Runs d) where
    executed : {a' : Arch} → Effects d (arch s) a' → execute d (arch s) ≡ a'
    executed (Effects.nop n) =
        idle_effect d (arch s) classed decoded (decoded.nop_idle n).0 (decoded.nop_idle n).1
    executed (Effects.branch o) =
        idle_effect d (arch s) classed decoded
          (ground (arith, classed.branch o, decoded.writes_from)) (classed.branch o).2
    executed (Effects.compute n z) =
        let (p, q, r) = computing z in
        compute_effect d (arch s) classed decoded first-lt second-lt pc-lt
          (marked.computes runs n p q r) z
    executed (Effects.load o l) =
        load_effect d (arch s) classed decoded first-lt second-lt pc-lt h.bytes (marked.load runs o)
          l
    executed (Effects.store o l) =
        let w = decoded_widths (sim_if s pc) in
        store_effect d (arch s) classed decoded first-lt second-lt pc-lt (marked.store runs o) w.0
          w.1 l

    resolved :
        (sim_id s (sim_if s pc)).1.next_pc ≡ resolved_pc (sim_operand_collection d s.registers)
    unfolding sim_id sim_next_pc_resolution
    resolved =
        let n = number s d in
        let go : not n.1.is_legal || n.1.is_halt ≡ false =
          unfold number in ground (arith, runs.legal, runs.no_halt) in
        rw go (
          resolved_pc-same (sim_operand_collection n.1 s.registers)
            (sim_operand_collection d s.registers)
            (collection-roles n.1 s.registers
              ∙ roles-number s d
              ∙ sym (collection-roles d s.registers))
            (unfold number sim_operand_collection in ground arith)
            (λ o. unfold number sim_operand_collection in ground arith))

    -- From a machine with 32 registers of 64 bits and a memory of bytes, where the word at a PC of
    -- 64 bits decodes to a legal instruction that is not a halt, any registers, memory and next
    -- address that the instruction set gives to it are those of simInstruction.
    pub sim_instruction_unique :
        {a' : Arch} {n : ℕ}
        → Effects d (arch s) a'
        → Continues d (arch s) n
        → (arch (sim_instruction s pc).0 ≡ a') × ((sim_instruction s pc).1.next_pc ≡ n)
    sim_instruction_unique e k = (
      arch-instruction s pc ∙ executed e,
      next_pc-instruction s pc ∙ resolved ∙ continues_lem d (arch s) classed runs first-lt k,
    )

    -- From a machine with 32 registers of 64 bits and a memory of bytes, where the word at a PC of
    -- 64 bits decodes to a legal instruction that is not a halt, simInstruction leaves registers
    -- and a memory that the instruction set gives to it, and goes on at an address that the
    -- instruction set gives to it.
    pub sim_instruction-Executes :
        Effects d (arch s) (arch (sim_instruction s pc).0)
        × Continues d (arch s) (sim_instruction s pc).1.next_pc
    sim_instruction-Executes =
        let l = sim_decode-IsLegal (sim_if s pc) raw in
        let (high, low, same) = decoded_widths (sim_if s pc) in
        let e = effect d (arch s) l runs (decoded_upper (sim_if s pc)) in
        let k = continuation d (arch s) l runs high low in
        let u = sim_instruction_unique e.1 k.1 in
        (subst (Effects d (arch s)) (sym u.0) e.1, subst (Continues d (arch s)) (sym u.1) k.1)
