-- ===== src/Simulator/Decode/Spelling.antt =====
-- The mnemonics of `getOpString` against the legality that `simDecode` finds.
use Prim.Native.String.{String}
use text.Mathlib.Text.{◌==◌ as ◌same◌}
use ece375_project.Word.{shr}
use ece375_project.Base.{
  ◌∙◌, switch-mapped, switch_all, if_both, ◌&◌, ℕ, Bool, true, false, ◌≡◌, refl, arith, ◌||◌, ◌&&◌,
  not, Option, none, some, ◌==◌,
}
use ece375_project.Utilities.Codes.{
  op_int, op_intimm, op_intimmw, funct3_add, funct7_add, funct7_sub,
}
use ece375_project.Utilities.Names.{
  add_bodies, sr_bodies, srw_bodies, int_bodies, intw_bodies, load_bodies, store_bodies,
  branch_bodies, int_body, intw_body, load_body, store_body, branch_body, op_names, spelled,
  get_op_string,
}
use ece375_project.Simulator.Instruction.{Instruction}
use ece375_project.Simulator.Decode.{
  legal_int, legal_intw, legal_load, legal_intimm, legal_intimmw, legal_store, legal_branch,
  mark_register, mark_immediate, mark_upper, mark_load, mark_store, mark_branch, mark_illegal,
  classify,
}

abbrev is_none : Option String → Bool
is_none none = true
is_none (some b) = false

int_none : (f3 f7 : ℕ) → is_none (int_body op_int f3 f7) ≡ not (legal_int f3 f7)
unfolding int_body legal_int
int_none f3 f7 = ground arith

intimm_none : (f3 f7 : ℕ) → is_none (int_body op_intimm f3 f7) ≡ not (legal_intimm f3 f7)
unfolding int_body legal_intimm
intimm_none f3 f7 = ground arith

intw_none : (f3 f7 : ℕ) → is_none (intw_body f3 f7) ≡ not (legal_intw f3 f7)
unfolding intw_body legal_intw
intw_none f3 f7 = ground arith

-- An `addiw` has no upper bits to check, and the mnemonic asks for those of `add` or `sub`.
abbrev pub is_odd_addiw : ℕ → ℕ → ℕ → Bool
is_odd_addiw opcode funct3 funct7 =
    opcode == op_intimmw
    && (funct3 == funct3_add && not (funct7 == funct7_add || funct7 == funct7_sub))

intimmw_none :
    (f3 f7 : ℕ)
    → is_none (intw_body f3 f7) ≡ not (legal_intimmw f3 f7) || is_odd_addiw op_intimmw f3 f7
unfolding intw_body legal_intimmw
intimmw_none f3 f7 = ground arith

load_none : (f3 : ℕ) → is_none (load_body f3) ≡ not (legal_load f3)
unfolding load_body legal_load
load_none f3 = ground arith

store_none : (f3 : ℕ) → is_none (store_body f3) ≡ not (legal_store f3)
unfolding store_body legal_store
store_none f3 = ground arith

branch_none : (f3 : ℕ) → is_none (branch_body f3) ≡ not (legal_branch f3)
unfolding branch_body legal_branch
branch_none f3 = ground arith

-- The text for a missing body is the only one that reads as illegal.
abbrev IsSpelled : String → String → Option String → Type 0
IsSpelled prefix suffix body = (spelled prefix body suffix same "ILLEGAL") ≡ is_none body

module _ (f3 f7 : ℕ) where
  int-IsSpelled :
      (op : ℕ) → IsSpelled "" "i" (int_body op f3 f7) × IsSpelled "" "" (int_body op f3 f7)
  unfolding int_body spelled
  int-IsSpelled op = (
    switch_all (IsSpelled "" "i") f3 (int_bodies op f7) {d = none}
        (if_both (IsSpelled "" "i") (op == op_int) {y = some "add"}
            (switch_all (IsSpelled "" "i") f7 add_bodies {d = none} (refl & refl & tt) refl) refl
          & refl
          & refl
          & refl
          & refl
          & switch_all (IsSpelled "" "i") (shr f7 1) sr_bodies {d = none} (refl & refl & tt) refl
          & refl
          & refl
          & tt)
        refl,
    switch_all (IsSpelled "" "") f3 (int_bodies op f7) {d = none}
        (if_both (IsSpelled "" "") (op == op_int) {y = some "add"}
            (switch_all (IsSpelled "" "") f7 add_bodies {d = none} (refl & refl & tt) refl) refl
          & refl
          & refl
          & refl
          & refl
          & switch_all (IsSpelled "" "") (shr f7 1) sr_bodies {d = none} (refl & refl & tt) refl
          & refl
          & refl
          & tt)
        refl,
  )

  intw-IsSpelled : IsSpelled "" "iw" (intw_body f3 f7) × IsSpelled "" "w" (intw_body f3 f7)
  unfolding intw_body spelled
  intw-IsSpelled = (
    switch_all (IsSpelled "" "iw") f3 (intw_bodies f7) {d = none}
        (switch_all (IsSpelled "" "iw") f7 add_bodies {d = none} (refl & refl & tt) refl
          & refl
          & switch_all (IsSpelled "" "iw") f7 srw_bodies {d = none} (refl & refl & tt) refl
          & tt)
        refl,
    switch_all (IsSpelled "" "w") f3 (intw_bodies f7) {d = none}
        (switch_all (IsSpelled "" "w") f7 add_bodies {d = none} (refl & refl & tt) refl
          & refl
          & switch_all (IsSpelled "" "w") f7 srw_bodies {d = none} (refl & refl & tt) refl
          & tt)
        refl,
  )

  load-IsSpelled : IsSpelled "l" "" (load_body f3)
  unfolding load_body spelled
  load-IsSpelled =
      switch_all (IsSpelled "l" "") f3 load_bodies {d = none}
        (refl & refl & refl & refl & refl & refl & refl & tt) refl

  store-IsSpelled : IsSpelled "s" "" (store_body f3)
  unfolding store_body spelled
  store-IsSpelled =
      switch_all (IsSpelled "s" "") f3 store_bodies {d = none} (refl & refl & refl & refl & tt) refl

  branch-IsSpelled : IsSpelled "b" "" (branch_body f3)
  unfolding branch_body spelled
  branch-IsSpelled =
      switch_all (IsSpelled "b" "") f3 branch_bodies {d = none}
        (refl & refl & refl & refl & refl & refl & tt) refl

-- The mnemonic reads as illegal exactly where the decoder finds the instruction illegal, or where
-- it is an odd addiw.
pub get_op_string-classify :
    (i : Instruction)
    → i.is_legal ≡ true
    → (get_op_string i.opcode i.funct3 i.funct7 same "ILLEGAL")
      ≡ not (classify i).is_legal || is_odd_addiw i.opcode i.funct3 i.funct7
unfolding get_op_string classify mark_register mark_immediate mark_upper mark_load mark_store
    mark_branch mark_illegal
get_op_string-classify i legal =
    let op = i.opcode in
    let f3 = i.funct3 in
    let f7 = i.funct7 in
    switch-mapped (λ (s : String). s same "ILLEGAL") op (op_names op f3 f7) "ILLEGAL"
    ∙ ground (
      arith,
      legal,
      int_none f3 f7,
      intimm_none f3 f7,
      intw_none f3 f7,
      intimmw_none f3 f7,
      load_none f3,
      store_none f3,
      branch_none f3,
      int-IsSpelled f3 f7 op,
      intw-IsSpelled f3 f7,
      load-IsSpelled f3 f7,
      store-IsSpelled f3 f7,
      branch-IsSpelled f3 f7,
    )
