-- ===== src/MemoryStore/Print/Rows.antt =====
-- What a row of `printMemArray` holds of a range in the memory.
use ece375_project.Base.{ℕ, zero, suc, ◌+◌, ◌*◌, ◌^◌, ◌≤◌, ◌<◌, ◌≡◌, refl, ap, ◌∙◌, arith}
use ece375_project.Base.{true, false, List, [], ◌∷◌, ◌++◌, some, get_elem?, get_or, length, ltb}
use ece375_project.Word.{u64}
use ece375_project.MemoryStore.Print.{Piece, RowEnd, print_bytes, print_row}

-- The bytes among what is printed, in their order.
abbrev pub bytes_of : List Piece → List ℕ
bytes_of [] = []
bytes_of (Piece.hex_byte b ∷ pieces) = b ∷ bytes_of pieces
bytes_of (Piece.row_address a ∷ pieces) = bytes_of pieces
bytes_of (Piece.hex_prefix ∷ pieces) = bytes_of pieces
bytes_of (Piece.blank ∷ pieces) = bytes_of pieces
bytes_of (Piece.end_line ∷ pieces) = bytes_of pieces

-- The `n` bytes of a memory from a place on.
unfoldable pub slice : List ℕ → ℕ → ℕ → List ℕ
slice arr base zero = []
slice arr base (suc n) = get_or arr base 0 ∷ slice arr (base + 1) n

pub bytes_of-append : (ps qs : List Piece) → bytes_of (ps ++ qs) ≡ bytes_of ps ++ bytes_of qs
bytes_of-append [] qs = refl
bytes_of-append (Piece.hex_byte b ∷ ps) qs = ap (◌∷◌ b) (bytes_of-append ps qs)
bytes_of-append (Piece.row_address a ∷ ps) qs = bytes_of-append ps qs
bytes_of-append (Piece.hex_prefix ∷ ps) qs = bytes_of-append ps qs
bytes_of-append (Piece.blank ∷ ps) qs = bytes_of-append ps qs
bytes_of-append (Piece.end_line ∷ ps) qs = bytes_of-append ps qs

pub slice-add :
    (arr : List ℕ) (base m n : ℕ)
    → slice arr base (m + n) ≡ slice arr base m ++ slice arr (base + m) n
unfolding slice
slice-add arr base zero n =
    let e : 0 + n ≡ n = omega arith in let e' : base + 0 ≡ base = omega arith in rw (e, e') refl
slice-add arr base (suc m) n =
    let e : suc m + n ≡ suc (m + n) = omega arith in
    let e' : base + suc m ≡ base + 1 + m = omega arith in
    rw (e, e') (ap (◌∷◌ (get_or arr base 0)) (slice-add arr (base + 1) m n))

get_elem?-get_or : (arr : List ℕ) (i : ℕ) → i < length arr → get_elem? arr i ≡ some (get_or arr i 0)
get_elem?-get_or [] i h = absurd (omega arith)
get_elem?-get_or (x ∷ arr) zero h = refl
get_elem?-get_or (x ∷ arr) (suc i) h = get_elem?-get_or arr i (omega (arith, h))

pub lt→ltb : (a b : ℕ) → a < b → ltb a b ≡ true
lt→ltb a b h = ground arith

pub ltb_self : (a : ℕ) → ltb a a ≡ false
ltb_self a = ground arith

module _ (arr : List ℕ) (small : length arr ≤ 2 ^ 63) where
  -- An entry in range is printed whole.
  print_bytes-slice :
      (left j base : ℕ)
      → base + j + left ≤ length arr
      → ((print_bytes left j arr base).0 ≡ true)
        × (bytes_of (print_bytes left j arr base).1 ≡ slice arr (base + j) left)
  unfolding print_bytes slice
  print_bytes-slice zero j base fits = (refl, refl)
  print_bytes-slice (suc left) j base fits =
      let here : u64 (base + j) ≡ base + j = omega (arith, fits, small) in
      let next : base + (j + 1) ≡ base + j + 1 = omega arith in
      let (read, printed) = print_bytes-slice left (j + 1) base (omega (arith, fits)) in
      rw (here, print_bytes, get_elem?-get_or arr (base + j) (omega (arith, fits)))
        (read, ap (◌∷◌ (get_or arr (base + j) 0)) (printed ∙ ap (λ (t : ℕ). slice arr t left) next))

  module _ (size : ℕ) (positive : 0 < size) (rel_end : ℕ) (inside : rel_end ≤ length arr) where
    -- One entry, and the rest of its row.
    print_row-suc :
        (left base : ℕ)
        → base + size ≤ rel_end
        → let rest = print_row left size arr (base + size) rel_end in
          let row = print_row (suc left) size arr base rel_end in
          (row.ending ≡ rest.ending)
          × (row.rel_start ≡ rest.rel_start)
          × (bytes_of row.pieces ≡ slice arr base size ++ bytes_of rest.pieces)
    unfolding print_row
    print_row-suc left base fits =
        let here : ltb base rel_end ≡ true = lt→ltb base rel_end (omega (arith, fits, positive)) in
        let next : u64 (base + size) ≡ base + size = omega (arith, fits, inside, small) in
        let at : base + 0 ≡ base = omega arith in
        let (read, printed) = print_bytes-slice size 0 base (omega (arith, fits, inside)) in
        rw (print_row, here, read, next)
          (refl, refl, bytes_of-append (print_bytes size 0 arr base).1 _ ∙ rw (printed, at) refl)

    print_row-behind :
        (left : ℕ)
        → print_row (suc left) size arr rel_end rel_end
          ≡ record { ending = RowEnd.last; rel_start = rel_end; pieces = Piece.end_line ∷ [] }
    unfolding print_row
    print_row-behind left = rw (print_row, ltb_self rel_end)

    pub print_row-complete :
        (cols base : ℕ)
        → base + cols * size ≤ rel_end
        → let row = print_row cols size arr base rel_end in
          (row.ending ≡ RowEnd.complete)
          × (row.rel_start ≡ base + cols * size)
          × (bytes_of row.pieces ≡ slice arr base (cols * size))
    print_row-complete zero base fits =
        let none_left : 0 * size ≡ 0 = omega arith in
        rw none_left (unfold print_row slice in (refl, omega arith, refl))
    print_row-complete (suc cols) base fits =
        let (ending, start, printed) = print_row-suc cols base (omega (arith, fits)) in
        let (ending', start', printed') =
          print_row-complete cols (base + size) (omega (arith, fits)) in
        let split : suc cols * size ≡ size + cols * size = omega arith in
        (
          ending ∙ ending',
          omega (arith, start, start'),
          rw (split, slice-add) (printed ∙ ap (λ (l : List ℕ). slice arr base size ++ l) printed'),
        )

    pub print_row-last :
        (cols k base : ℕ)
        → k < cols
        → base + k * size ≡ rel_end
        → let row = print_row cols size arr base rel_end in
          (row.ending ≡ RowEnd.last) × (bytes_of row.pieces ≡ slice arr base (k * size))
    print_row-last zero k base h e = absurd (omega (arith, h))
    print_row-last (suc cols) zero base h e =
        let here : base ≡ rel_end = omega (arith, e) in
        let none_left : 0 * size ≡ 0 = omega arith in
        rw (here, print_row-behind cols, none_left) (refl, unfold slice in refl)
    print_row-last (suc cols) (suc k) base h e =
        let (ending, start, printed) = print_row-suc cols base (omega (arith, e)) in
        let (ending', printed') =
          print_row-last cols k (base + size) (omega (arith, h)) (omega (arith, e)) in
        let split : suc k * size ≡ size + k * size = omega arith in
        (
          ending ∙ ending',
          rw (split, slice-add) (printed ∙ ap (λ (l : List ℕ). slice arr base size ++ l) printed'),
        )
