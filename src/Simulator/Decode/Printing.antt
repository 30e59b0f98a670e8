-- ===== src/Simulator/Decode/Printing.antt =====
-- The disassembly of `printInstr` against `simDecode`.
use Prim.Native.String.{String}
use text.Mathlib.Text.{◌==◌ as ◌same◌}
use ece375_project.Base.{
  ℕ, Bool, false, ◌≡◌, refl, ap, ◌∙◌, sym, arith, ◌||◌, not, ◌==◌, Bool-cases, inl, inr, ◌⊎◌, List,
  [], ◌∷◌, ◌++◌, NoKey, switch_default, switch_known, ◌&◌,
}
use ece375_project.Utilities.Codes.{
  StageStatus, op_load, op_store, op_branch, op_jal, op_lui, op_auipc,
}
use ece375_project.Utilities.Bits.{extract_bits}
use ece375_project.Utilities.Names.{op_names, get_op_string}
use ece375_project.Utilities.Print.{
  Operand, status_text, unless_illegal, handle_i_and_r, handle_l_and_s, handle_branch,
  handle_special, handlers, handled, print_instr,
}
use ece375_project.Simulator.Instruction.{Instruction}
use ece375_project.Simulator.Decode.{decode_fields, sim_decode, halt_word, nop_word}
use ece375_project.Simulator.Decode.Spelling.{is_odd_addiw, get_op_string-classify}

-- The line says that the instruction is illegal.
abbrev pub shows_illegal : List Operand → Bool
shows_illegal (Operand.word s ∷ rest) = s same " ILLEGAL"
shows_illegal (Operand.signed n ∷ rest) = false
shows_illegal (Operand.unsigned n ∷ rest) = false
shows_illegal (Operand.hexadecimal n ∷ rest) = false
shows_illegal [] = false

shows-unless_illegal :
    (name : String) (rest tail : List Operand)
    → shows_illegal (unless_illegal name rest ++ tail) ≡ (name same "ILLEGAL")
unfolding unless_illegal
shows-unless_illegal name rest tail = elim (Bool-cases (name same "ILLEGAL")) [
  | inl on ↦ rw on refl
  | inr off ↦ rw off refl
]

module _ (w : ℕ) (tail : List Operand) where
  abbrev op : ℕ
  op = extract_bits w 6 0

  abbrev f3 : ℕ
  f3 = extract_bits w 14 12

  abbrev f7 : ℕ
  f7 = extract_bits w 31 25

  shows_i_and_r : shows_illegal (handle_i_and_r w ++ tail) ≡ (get_op_string op f3 f7 same "ILLEGAL")
  unfolding handle_i_and_r
  shows_i_and_r = shows-unless_illegal (get_op_string op f3 f7) _ tail

  shows_l_and_s :
      (op ≡ op_load) ⊎ (op ≡ op_store)
      → shows_illegal (handle_l_and_s w ++ tail) ≡ (get_op_string op f3 f7 same "ILLEGAL")
  unfolding handle_l_and_s get_op_string
  shows_l_and_s (inl e) = shows-unless_illegal (get_op_string op f3 0) _ tail ∙ rw e refl
  shows_l_and_s (inr e) = shows-unless_illegal (get_op_string op f3 0) _ tail ∙ rw e refl

  shows_branch :
      op ≡ op_branch
      → shows_illegal (handle_branch w ++ tail) ≡ (get_op_string op f3 f7 same "ILLEGAL")
  unfolding handle_branch get_op_string
  shows_branch e = shows-unless_illegal (get_op_string op f3 0) _ tail ∙ rw e refl

  shows_special :
      (op ≡ op_jal) ⊎ (op ≡ op_lui) ⊎ (op ≡ op_auipc)
      → shows_illegal (handle_special w ++ tail) ≡ (get_op_string op f3 f7 same "ILLEGAL")
  unfolding handle_special get_op_string
  shows_special (inl e) = shows-unless_illegal (get_op_string op 0 0) _ tail ∙ rw e refl
  shows_special (inr (inl e)) = shows-unless_illegal (get_op_string op 0 0) _ tail ∙ rw e refl
  shows_special (inr (inr e)) = shows-unless_illegal (get_op_string op 0 0) _ tail ∙ rw e refl

  abbrev IsShown : List Operand → Type 0
  IsShown line = shows_illegal (line ++ tail) ≡ (get_op_string op f3 f7 same "ILLEGAL")

  unnamed : NoKey op (handlers w) → get_op_string op f3 f7 ≡ "ILLEGAL"
  unfolding get_op_string
  unnamed h = switch_default op (op_names op f3 f7) "ILLEGAL" (ground (arith, h))

  shows_handled : IsShown (handled w)
  unfolding handled
  shows_handled =
      let one : (k : ℕ) → op ≡ k → IsShown (handle_i_and_r w) = λ k e. shows_i_and_r in
      switch_known IsShown op (handlers w) {d = Operand.word " ILLEGAL" ∷ []}
        (one _
          & one _
          & one _
          & one _
          & one _
          & (λ e. shows_l_and_s (inl e))
          & (λ e. shows_l_and_s (inr e))
          & shows_branch
          & (λ e. shows_special (inl e))
          & (λ e. shows_special (inr (inl e)))
          & (λ e. shows_special (inr (inr e)))
          & tt)
        (λ h. ap (λ (s : String). s same "ILLEGAL") (sym (unnamed h)))

-- The line that printInstr writes says ILLEGAL exactly if simDecode finds the word illegal, or the
-- word is an addiw whose seven upper bits are neither those of add nor those of sub.
pub print_instr-sim_decode :
    (i : Instruction) (st : StageStatus)
    → let d = decode_fields i in
      shows_illegal (print_instr i.instruction st)
      ≡ not (sim_decode i).is_legal || is_odd_addiw d.opcode d.funct3 d.funct7
unfolding print_instr sim_decode decode_fields
print_instr-sim_decode i st =
    let w = i.instruction in
    elim (Bool-cases (w == halt_word)) [
      | inl halt ↦
          let e : w ≡ halt_word = ground (arith, halt) in rw e (unfold extract_bits in refl)
      | inr going ↦ elim (Bool-cases (w == nop_word)) [
        | inl nop ↦ let e : w ≡ nop_word = ground (arith, nop) in rw e (unfold extract_bits in refl)
        | inr other ↦
            rw (going, other)
              (shows_handled w (status_text st ∷ [])
                ∙ get_op_string-classify (decode_fields i) refl)
      ]
    ]
