-- ===== src/MemoryStore/Print.antt =====
-- `printMemArray` of src/MemoryStore.cpp.
pub mod Rows
pub mod Range
use ece375_project.Base.{
  ℕ, zero, suc, ◌+◌, ◌*◌, Bool, true, false, List, [], ◌∷◌, ◌++◌, Option, none, some, ltb,
  if◌then◌else◌, get_elem?,
}
use ece375_project.Word.{u64, add64, sub64}
use ece375_project.MemoryStore.{MemoryStore, Code, fine, einval, is_entry_size, word_size}

-- What is written: the address at the start of a row, `0x`, a byte in two digits, a blank, and the
-- end of a line.
pub data Piece : Type 0 where
  row_address : ℕ → Piece
  hex_prefix : Piece
  hex_byte : ℕ → Piece
  blank : Piece
  end_line : Piece

-- The loop over the bytes of an entry, at byte `j`; false is the exception of `at`.
unfoldable pub print_bytes : ℕ → ℕ → List ℕ → ℕ → Bool × List Piece
print_bytes zero j mem_arr rel_start = (true, [])
print_bytes (suc left) j mem_arr rel_start = elim (get_elem? mem_arr (add64 rel_start j)) [
  | none ↦ (false, [])
  | some b ↦
      let (read, rest) = print_bytes left (j + 1) mem_arr rel_start in
      (read, Piece.hex_byte b ∷ rest)
]

-- How a row ends: in its last column, behind the last entry (`return 0`), or with the exception.
pub data RowEnd : Type 0 where
  complete last failed : RowEnd

pub record Row : Type 0 where
  pub ending : RowEnd
  pub rel_start : ℕ
  pub pieces : List Piece

-- The loop over the entries of a row, with `left` columns to go.
unfoldable pub print_row : ℕ → ℕ → List ℕ → ℕ → ℕ → Row
print_row zero entry_size mem_arr rel_start rel_end = record {
  ending = RowEnd.complete;
  rel_start = rel_start;
  pieces = Piece.end_line ∷ [];
}
print_row (suc left) entry_size mem_arr rel_start rel_end =
    let (read, bytes) = print_bytes entry_size 0 mem_arr rel_start in
    let rest = print_row left entry_size mem_arr (u64 (rel_start + entry_size)) rel_end in
    if ltb rel_start rel_end
    then (if read
        then record rest { pieces = Piece.hex_prefix ∷ (bytes ++ (Piece.blank ∷ rest.pieces)) }
        else record {
          ending = RowEnd.failed;
          rel_start = rel_start;
          pieces = Piece.hex_prefix ∷ bytes;
        })
    else record { ending = RowEnd.last; rel_start = rel_start; pieces = Piece.end_line ∷ [] }

-- The `while` loop; `none` means that the fuel ran out, which with no column it does.
unfoldable pub print_rows : ℕ → ℕ → ℕ → List ℕ → ℕ → ℕ → ℕ → Option (Code × List Piece)
print_rows zero entry_size entries_per_row mem_arr rel_start rel_end cur_addr = none
print_rows (suc fuel) entry_size entries_per_row mem_arr rel_start rel_end cur_addr =
    let row = print_row entries_per_row entry_size mem_arr rel_start rel_end in
    let rest =
      print_rows fuel entry_size entries_per_row mem_arr row.rel_start rel_end
        (u64 (cur_addr + entry_size * entries_per_row)) in
    if ltb rel_start rel_end
    then (elim row.ending [
      | RowEnd.last ↦ some (fine, Piece.row_address cur_addr ∷ row.pieces)
      | RowEnd.failed ↦ some (einval, Piece.row_address cur_addr ∷ row.pieces)
      | RowEnd.complete ↦ elim rest [
        | none ↦ none
        | some (code, pieces) ↦ some (code, Piece.row_address cur_addr ∷ (row.pieces ++ pieces))
      ]
    ])
    else some (fine, [])

unfoldable pub print_mem_array : ℕ → MemoryStore → ℕ → ℕ → ℕ → ℕ → Option (Code × List Piece)
print_mem_array fuel m start_addr end_addr entry_size entries_per_row =
    if is_entry_size entry_size
    then print_rows fuel entry_size entries_per_row m.mem_arr (sub64 start_addr m.start_addr)
        (sub64 end_addr m.start_addr) start_addr
    else some (einval, [])

unfoldable pub print_memory : ℕ → MemoryStore → ℕ → ℕ → Option (Code × List Piece)
print_memory fuel m start_addr end_address =
    print_mem_array fuel m start_addr end_address word_size 5
