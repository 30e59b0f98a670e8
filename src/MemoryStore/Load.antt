-- ===== src/MemoryStore/Load.antt =====
-- What `loadFromFile` leaves in the memory.
use ece375_project.Base.{ℕ, zero, suc, ◌+◌, ◌-◌, ◌*◌, ◌^◌, ◌≤◌, ◌<◌, ◌≡◌, refl, ap, ◌∙◌, arith, ◌⊎◌}
use ece375_project.Base.{take_all}
use ece375_project.Base.{List, [], ◌∷◌, some, length, get_elem?, All}
use ece375_project.Utilities.Codes.{Status}
use ece375_project.MemoryStore.{
  MemoryStore, byte_size, char_value, set_mem_value, load_bytes, int_length, load_from_file,
}
use ece375_project.MemoryStore.Bytes.{IsWritten, byte_of}
use ece375_project.MemoryStore.RoundTrip.{offset, set_mem_value-IsWritten}

-- The bytes `buf` stand in the memory from place `i` on, and the others are as before.
pub record IsLoaded (i : ℕ) (buf before after : List ℕ) : Type 0 where
  pub same_length : length after ≡ length before
  pub inside : (j : ℕ) → j < length buf → get_elem? after (i + j) ≡ get_elem? buf j
  pub outside : (j : ℕ) → (j < i) ⊎ (i + length buf ≤ j) → get_elem? after j ≡ get_elem? before j

low_byte : (b : ℕ) → b < 256 → byte_of (char_value b) 0 ≡ b
unfolding char_value
low_byte b h = ground arith

-- A byte that is written, and the rest of the bytes after it.
one_more :
    (i base b : ℕ) (buf before middle after : List ℕ)
    → base ≡ i
    → b < 256
    → IsWritten base 0 1 (char_value b) before middle
    → IsLoaded (i + 1) buf middle after
    → IsLoaded i (b ∷ buf) before after
one_more i base b buf before middle after at byte w rest = record {
  same_length = rest.same_length ∙ w.same_length;
  inside = here;
  outside = λ j h. rest.outside j (omega arith) ∙ w.outside j (omega arith);
}
  where
    here : (j : ℕ) → j < length (b ∷ buf) → get_elem? after (i + j) ≡ get_elem? (b ∷ buf) j
    here zero h =
        let first : i + 0 - base ≡ 0 = omega arith in
        rest.outside (i + 0) (omega arith)
        ∙ w.inside (i + 0) (omega arith) (omega arith)
        ∙ rw first (ap some (low_byte b byte))
    here (suc j) h =
        let next : i + suc j ≡ i + 1 + j = omega arith in rw next (rest.inside j (omega arith))

load_bytes-suc :
    (i b : ℕ) (buf : List ℕ) (m : MemoryStore)
    → load_bytes i (b ∷ buf) m
      ≡ load_bytes (i + 1) buf (set_mem_value m (i * byte_size) (char_value b) byte_size).store
unfolding load_bytes
load_bytes-suc i b buf m = refl

load_bytes-nil : (i : ℕ) (m : MemoryStore) → load_bytes i [] m ≡ m
unfolding load_bytes
load_bytes-nil i m = refl

load_bytes-IsLoaded :
    (i : ℕ) (buf : List ℕ) (m : MemoryStore)
    → m.start_addr ≡ 0
    → length m.mem_arr ≤ 2 ^ 63
    → i + length buf ≤ length m.mem_arr
    → All (λ b. b < 256) buf
    → IsLoaded i buf m.mem_arr (load_bytes i buf m).mem_arr
load_bytes-IsLoaded i [] m start small fits bytes =
    rw (load_bytes-nil i m)
      (record { same_length = refl; inside = λ j h. absurd (omega arith); outside = λ j h. refl })
load_bytes-IsLoaded i (b ∷ buf) m start small fits bytes =
    let at : offset m (i * byte_size) ≡ i = omega arith in
    let (arr, wrote, w) =
      set_mem_value-IsWritten m (i * byte_size) byte_size refl (char_value b) small (omega arith) in
    let m' = record m { mem_arr = arr } in
    let rest =
      load_bytes-IsLoaded (i + 1) buf m' start (omega (arith, w.same_length))
        (omega (arith, w.same_length)) bytes.1 in
    rw (load_bytes-suc i b buf m, wrote)
      (one_more i (offset m (i * byte_size)) b buf m.mem_arr arr _ at bytes.0 w rest)

load_from_file_all :
    (buf : List ℕ) (m : MemoryStore)
    → length buf < 2 ^ 31
    → load_from_file (some buf) m ≡ some (Status.success, load_bytes 0 buf m)
unfolding load_from_file
load_from_file_all buf m short =
    let whole : int_length (length buf) ≡ some (length buf) = unfold int_length in ground arith in
    rw (whole, load_from_file, take_all (length buf) buf (omega arith)) refl

-- A file of fewer than 2 ^ 31 bytes that fits a memory of at most 2 ^ 63 bytes which starts at
-- address 0 is loaded whole: the status is SUCCESS, the memory begins with the bytes of the file,
-- and the bytes behind them and the size are as before.
pub load_from_file-IsLoaded :
    (buf : List ℕ) (m : MemoryStore)
    → m.start_addr ≡ 0
    → length m.mem_arr ≤ 2 ^ 63
    → length buf ≤ length m.mem_arr
    → length buf < 2 ^ 31
    → All (λ b. b < 256) buf
    → (m' : MemoryStore) × (load_from_file (some buf) m ≡ some (Status.success, m'))
      × IsLoaded 0 buf m.mem_arr m'.mem_arr
load_from_file-IsLoaded buf m start small fits short bytes = (
  load_bytes 0 buf m,
  load_from_file_all buf m short,
  load_bytes-IsLoaded 0 buf m start small (omega arith) bytes,
)
