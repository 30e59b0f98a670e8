-- ===== src/Tests/Printing.antt =====
-- The disassembly of some words.
use ece375_project.Base.{◌≡◌, refl, [], ◌∷◌, pos, negsuc, false, not, ◌||◌}
use ece375_project.Utilities.Codes.{Status, StageStatus}
use ece375_project.Utilities.Bits.{extract_bits, sext64}
use ece375_project.Utilities.Names.{int_body, intw_body, load_body, spelled, get_op_string}
use ece375_project.Utilities.Print.{
  Operand, status_text, unless_illegal, handle_i_and_r, handle_l_and_s, handle_branch,
  handle_special, handled, print_instr, print_if_pc,
}
use ece375_project.Simulator.Instruction.{Instruction, blank}
use ece375_project.Simulator.Decode.{decode_fields, sim_decode}
use ece375_project.Simulator.Decode.Spelling.{is_odd_addiw}
use ece375_project.Simulator.Decode.Printing.{shows_illegal, print_instr-sim_decode}
use ece375_project.Cycle.Run.{PipeState, SimulationStats}
use ece375_project.Cycle.Run.Dump.{dump_pipe_state, dump_sim_stats}

printed : Unit {0}
unfolding extract_bits sext64 int_body intw_body load_body spelled get_op_string status_text
    unless_illegal handle_i_and_r handle_l_and_s handle_branch handle_special handled print_instr
    print_if_pc
printed = tt

-- `lw x1, 16(x0)`.
prints_lw :
    print_instr 0x01002083 StageStatus.bubble
    ≡ Operand.word " "
      ∷ Operand.word "lw"
      ∷ Operand.word " "
      ∷ Operand.word "ra"
      ∷ Operand.word ", "
      ∷ Operand.signed (pos 16)
      ∷ Operand.word "("
      ∷ Operand.word "zero"
      ∷ Operand.word ")"
      ∷ Operand.word " (bubble) "
      ∷ []
unfolding printed
prints_lw = refl

-- `addiw x1, x0, 32`, which the simulators run.
prints_addiw :
    print_instr 0x0200009B StageStatus.normal ≡ Operand.word " ILLEGAL" ∷ Operand.word " " ∷ []
unfolding printed
prints_addiw = refl

-- `lui x1, 0x80`, which loads 524288.
prints_lui :
    print_instr 0x000800B7 StageStatus.normal
    ≡ Operand.word " "
      ∷ Operand.word "lui"
      ∷ Operand.word " "
      ∷ Operand.word "ra"
      ∷ Operand.word ", "
      ∷ Operand.signed (negsuc 524287)
      ∷ Operand.word " "
      ∷ []
unfolding printed
prints_lui = refl

abbrev fetched : Instruction
fetched = record blank { instruction = 0x0200009B }

print_instr-sim_decode_example :
    shows_illegal (print_instr 0x0200009B StageStatus.normal)
    ≡ not (sim_decode fetched).is_legal
      || is_odd_addiw
          (decode_fields fetched).opcode
          (decode_fields fetched).funct3
          (decode_fields fetched).funct7
print_instr-sim_decode_example = print_instr-sim_decode fetched StageStatus.normal

no_file :
    (p : PipeState) (s : SimulationStats)
    → (dump_pipe_state false p ≡ (Status.error, [])) × (dump_sim_stats false s ≡ (Status.error, []))
unfolding dump_pipe_state dump_sim_stats
no_file p s = (refl, refl)
