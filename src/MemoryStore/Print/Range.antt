-- ===== src/MemoryStore/Print/Range.antt =====
-- What `printMemArray` prints of a range in the memory.
use native.Mathlib.Decide.{dec_lt}
use ece375_project.Base.{ℕ, zero, suc, ◌+◌, ◌*◌, ◌-◌, ◌^◌, ◌≤◌, ◌<◌, ◌≡◌, refl, ap, ◌∙◌, arith}
use ece375_project.Base.{true, List, [], ◌∷◌, ◌++◌, some, length}
use ece375_project.Word.{u64}
use ece375_project.MemoryStore.{MemoryStore, Code, fine, is_entry_size}
use ece375_project.MemoryStore.RoundTrip.{offset, IsSmall, entry_size_bounds}
use ece375_project.MemoryStore.Print.{Piece, RowEnd, print_row, print_rows, print_mem_array}
use ece375_project.MemoryStore.Print.Rows.{
  bytes_of, slice, bytes_of-append, slice-add, lt→ltb, ltb_self, print_row-complete, print_row-last,
}

module _ (arr : List ℕ) (small : length arr ≤ 2 ^ 63) (size : ℕ) (positive : 0 < size) (rel_end : ℕ)
    (inside : rel_end ≤ length arr) (cols : ℕ) (some_column : 0 < cols) where
  print_rows-end :
      (fuel cur : ℕ) → print_rows (suc fuel) size cols arr rel_end rel_end cur ≡ some (fine, [])
  unfolding print_rows
  print_rows-end fuel cur = rw (print_rows, ltb_self rel_end)

  print_rows-last :
      (fuel base cur : ℕ)
      → base < rel_end
      → (print_row cols size arr base rel_end).ending ≡ RowEnd.last
      → print_rows (suc fuel) size cols arr base rel_end cur
        ≡ some (fine, Piece.row_address cur ∷ (print_row cols size arr base rel_end).pieces)
  unfolding print_rows
  print_rows-last fuel base cur h e = rw (print_rows, lt→ltb base rel_end h, e)

  print_rows-suc :
      (fuel base base' cur : ℕ) {code : Code} {pieces : List Piece}
      → base < rel_end
      → (print_row cols size arr base rel_end).ending ≡ RowEnd.complete
      → (print_row cols size arr base rel_end).rel_start ≡ base'
      → print_rows fuel size cols arr base' rel_end (u64 (cur + size * cols)) ≡ some (code, pieces)
      → print_rows (suc fuel) size cols arr base rel_end cur
        ≡ some (
          code,
          Piece.row_address cur ∷ ((print_row cols size arr base rel_end).pieces ++ pieces),
        )
  unfolding print_rows
  print_rows-suc fuel base base' cur h e at rest =
      rw (print_rows, lt→ltb base rel_end h, e, at, rest)

  print_rows-slice :
      (fuel k base cur : ℕ)
      → k < fuel
      → base + k * size ≡ rel_end
      → (pieces : List Piece) × (print_rows fuel size cols arr base rel_end cur
          ≡ some (fine, pieces))
        × (bytes_of pieces ≡ slice arr base (k * size))
  print_rows-slice zero k base cur enough e = absurd (omega (arith, enough))
  print_rows-slice (suc fuel) zero base cur enough e =
      let here : base ≡ rel_end = omega (arith, e) in
      let none_left : 0 * size ≡ 0 = omega arith in
      rw here ([], print_rows-end fuel cur, rw none_left (unfold slice in refl))
  print_rows-slice (suc fuel) (suc k) base cur enough e = elim (dec_lt (suc k) cols) [
    | yes short ↦
        let (ending, printed) =
          print_row-last arr small size positive rel_end inside cols (suc k) base short e in
        (
          Piece.row_address cur ∷ (print_row cols size arr base rel_end).pieces,
          print_rows-last fuel base cur (omega (arith, e, positive)) ending,
          printed,
        )
    | no long ↦
        let d : ℕ = suc k - cols in
        let parts : cols + d ≡ suc k = omega (arith, long) in
        let bytes : cols * size + d * size ≡ suc k * size =
          omega (arith, ap (λ (t : ℕ). t * size) parts) in
        let (ending, start, printed) =
          print_row-complete arr small size positive rel_end inside cols base
            (omega (arith, e, bytes)) in
        let (pieces, rest, printed') =
          print_rows-slice fuel d (base + cols * size) (u64 (cur + size * cols))
            (omega (arith, enough, some_column, long)) (omega (arith, e, bytes)) in
        (
          Piece.row_address cur ∷ ((print_row cols size arr base rel_end).pieces ++ pieces),
          print_rows-suc fuel base (base + cols * size) cur (omega (arith, e, positive)) ending
              start rest,
          bytes_of-append (print_row cols size arr base rel_end).pieces pieces
              ∙ rw (printed, printed', ← bytes, slice-add) refl,
        )
  ]

-- With at least one column and any fuel above k, printMemArray of a range of k entries of 1, 2, 4
-- or 8 bytes that lies in a memory of at most 2 ^ 63 bytes returns 0, and the bytes that it prints
-- are those of the range in their order.
pub print_mem_array-slice :
    (m : MemoryStore) (start_addr end_addr size cols k fuel : ℕ)
    → is_entry_size size ≡ true
    → IsSmall m
    → 0 < cols
    → offset m start_addr + k * size ≡ offset m end_addr
    → offset m end_addr ≤ length m.mem_arr
    → k < fuel
    → (pieces : List Piece) × (print_mem_array fuel m start_addr end_addr size cols
        ≡ some (fine, pieces))
      × (bytes_of pieces ≡ slice m.mem_arr (offset m start_addr) (k * size))
unfolding print_mem_array
print_mem_array-slice m start_addr end_addr size cols k fuel known small some_column e inside
      enough =
    let (pieces, ran, printed) =
      print_rows-slice m.mem_arr small size (entry_size_bounds size known).0 (offset m end_addr)
        inside cols some_column fuel k (offset m start_addr) start_addr enough e in
    (pieces, rw known ran, printed)
