-- ===== src/Tests/Memory.antt =====
-- The theorems on the memory at concrete accesses, and a dump of some bytes.
use ece375_project.Base.{◌*◌, ◌%◌, ◌^◌, ◌≡◌, refl, arith, inl, some, [], ◌∷◌}
use ece375_project.MemoryStore.{fine, einval, get_mem_value, set_mem_value}
use ece375_project.MemoryStore.RoundTrip.{
  get-set_mem_value, get-set_mem_value_apart, get_mem_value_out,
}
use ece375_project.MemoryStore.Bytes.{IsWritten}
use ece375_project.MemoryStore.Torn.{set_mem_value_out}
use ece375_project.MemoryStore.{MemoryStore}
use ece375_project.MemoryStore.Print.{
  Piece, print_bytes, print_row, print_rows, print_mem_array, print_memory,
}
use ece375_project.MemoryStore.Print.Rows.{bytes_of, slice}
use ece375_project.MemoryStore.Print.Range.{print_mem_array-slice}
use ece375_project.Base.{List}
use ece375_project.Tests.Samples.{memory}

get-set_mem_value_example :
    ((set_mem_value memory 17 0x12345 2).code ≡ fine)
    × (get_mem_value (set_mem_value memory 17 0x12345 2).store 17 0 2 ≡ record {
      code = fine;
      value = 0x12345 % 2 ^ (2 * 8);
      store = (set_mem_value memory 17 0x12345 2).store;
    })
get-set_mem_value_example = get-set_mem_value memory 17 2 0x12345 0 refl (omega arith) (omega arith)

get-set_mem_value_apart_example :
    ((get_mem_value (set_mem_value memory 16 99 4).store 12 0 4).value
      ≡ (get_mem_value memory 12 0 4).value)
    × ((get_mem_value (set_mem_value memory 16 99 4).store 12 0 4).code
        ≡ (get_mem_value memory 12 0 4).code)
get-set_mem_value_apart_example =
    get-set_mem_value_apart memory 16 4 99 12 4 0 refl refl (omega arith) (omega arith)
      (omega arith) (inl (omega arith))

get_mem_value_out_example :
    ((get_mem_value memory 22 0 4).code ≡ einval) × ((get_mem_value memory 22 0 4).store ≡ memory)
get_mem_value_out_example = get_mem_value_out memory 22 4 refl 0 (omega arith) (omega arith)

-- Two of the four bytes fit.
set_mem_value_out_example :
    let r = set_mem_value memory 22 0x12345678 4 in
    (r.code ≡ einval)
    × (r.store.start_addr ≡ 0)
    × IsWritten 22 0 2 0x12345678 memory.mem_arr r.store.mem_arr
set_mem_value_out_example =
    set_mem_value_out memory 22 4 0x12345678 refl (omega arith) (omega arith)

abbrev three_halves : MemoryStore
three_halves = record { start_addr = 0x100; mem_arr = 1 ∷ 2 ∷ 3 ∷ 4 ∷ 5 ∷ [] }

-- Two halfwords in a row; the third is cut by the end of the memory.
cut_dump :
    print_mem_array 3 three_halves 0x100 0x105 2 2
    ≡ some (
      einval,
      Piece.row_address 0x100
          ∷ Piece.hex_prefix
          ∷ Piece.hex_byte 1
          ∷ Piece.hex_byte 2
          ∷ Piece.blank
          ∷ Piece.hex_prefix
          ∷ Piece.hex_byte 3
          ∷ Piece.hex_byte 4
          ∷ Piece.blank
          ∷ Piece.end_line
          ∷ Piece.row_address 0x104
          ∷ Piece.hex_prefix
          ∷ Piece.hex_byte 5
          ∷ [],
    )
unfolding print_mem_array print_rows print_row print_bytes
cut_dump = refl

-- The row ends behind its only entry.
word_dump :
    print_memory 2 three_halves 0x101 0x105
    ≡ some (
      fine,
      Piece.row_address 0x101
          ∷ Piece.hex_prefix
          ∷ Piece.hex_byte 2
          ∷ Piece.hex_byte 3
          ∷ Piece.hex_byte 4
          ∷ Piece.hex_byte 5
          ∷ Piece.blank
          ∷ Piece.end_line
          ∷ [],
    )
unfolding print_memory print_mem_array print_rows print_row print_bytes
word_dump = refl

refused_dump : print_mem_array 3 three_halves 0x100 0x105 3 2 ≡ some (einval, [])
unfolding print_mem_array
refused_dump = refl

-- Two entries in rows of one.
print_mem_array-slice_example :
    (pieces : List Piece) × (print_mem_array 3 memory 16 24 4 1 ≡ some (fine, pieces))
    × (bytes_of pieces ≡ slice memory.mem_arr 16 8)
print_mem_array-slice_example =
    print_mem_array-slice memory 16 24 4 1 2 3 refl (omega arith) (omega arith) (omega arith)
      (omega arith) (omega arith)
