-- ===== src/MemoryStore.antt =====
-- src/MemoryStore.cpp and src/MemoryStore.h: a byte array behind little-endian reads and writes
-- of 1, 2, 4 and 8 bytes.
pub mod Bytes
pub mod RoundTrip
pub mod Torn
pub mod Print
pub mod Prepare
pub mod Dump
pub mod Load
use ece375_project.Base.{ℕ, zero, suc, ◌+◌, ◌*◌, ◌-◌, ◌^◌, ◌%◌, bit_and, bit_or}
use ece375_project.Base.{Bool, true, false, ◌||◌, ◌==◌, if◌then◌else◌}
use ece375_project.Base.{Option, none, some, List, [], ◌∷◌, get_elem?, set, replicate}
use ece375_project.Utilities.Codes.{Status}
use ece375_project.Base.{ltb}
use ece375_project.Base.{length, take}
use ece375_project.Word.{u64, u32, add64, sub64, shl64, shr}

-- `enum MemEntrySize`.
abbrev pub byte_size : ℕ
byte_size = 1

abbrev pub half_size : ℕ
half_size = 2

abbrev pub word_size : ℕ
word_size = 4

abbrev pub double_size : ℕ
double_size = 8

-- The `int` that the accessors return: 0, or `-EINVAL`.
pub data Code : Type 0 where
  fine einval : Code

pub record MemoryStore : Type 0 where
  pub start_addr : ℕ
  pub mem_arr : List ℕ

-- The constructor, where the file `init_mem_image` is absent: zeros.
unfoldable pub create : ℕ → ℕ → MemoryStore
create start_addr num_entries = record {
  start_addr = start_addr;
  mem_arr = replicate num_entries 0;
}

-- The `switch (size)` of `getOrSetValue` and `printMemArray`.
abbrev pub is_entry_size : ℕ → Bool
is_entry_size size =
    size == byte_size || (size == half_size || (size == word_size || size == double_size))

-- The loop that reads, at round `i` with `left` rounds to go; `at` throws out of range, and `value`
-- keeps the bytes read so far.
unfoldable pub read_bytes : ℕ → ℕ → List ℕ → ℕ → ℕ → Code × ℕ
read_bytes zero i mem_arr relative_addr value = (fine, value)
read_bytes (suc left) i mem_arr relative_addr value =
    elim (get_elem? mem_arr (add64 relative_addr i)) [
      | none ↦ (einval, value)
      | some b ↦ read_bytes left (i + 1) mem_arr relative_addr (bit_or value (shl64 b (i * 8)))
    ]

-- The loop that writes; the bytes written before an access out of range stay written.
unfoldable pub write_bytes : ℕ → ℕ → List ℕ → ℕ → ℕ → Code × List ℕ
write_bytes zero i mem_arr relative_addr value = (fine, mem_arr)
write_bytes (suc left) i mem_arr relative_addr value =
    elim (get_elem? mem_arr (add64 relative_addr i)) [
      | none ↦ (einval, mem_arr)
      | some b ↦
          write_bytes left (i + 1)
            (set mem_arr (add64 relative_addr i) (bit_and (shr value (i * 8)) 0xFF)) relative_addr
            value
    ]

-- What `getOrSetValue` returns, what it leaves in its reference `value`, and the store after it.
pub record Access : Type 0 where
  pub code : Code
  pub value : ℕ
  pub store : MemoryStore

unfoldable pub get_or_set_value : Bool → MemoryStore → ℕ → ℕ → ℕ → Access
get_or_set_value get m address value size =
    if is_entry_size size
    then (let relative_addr = sub64 address m.start_addr in
        if get
        then (let r = read_bytes size 0 m.mem_arr relative_addr 0 in
            record { code = r.0; value = r.1; store = m })
        else (let r = write_bytes size 0 m.mem_arr relative_addr value in
            record { code = r.0; value = value; store = record m { mem_arr = r.1 } }))
    else record { code = einval; value = value; store = m }

unfoldable pub get_mem_value : MemoryStore → ℕ → ℕ → ℕ → Access
get_mem_value m address value size = get_or_set_value true m address value size

unfoldable pub set_mem_value : MemoryStore → ℕ → ℕ → ℕ → Access
set_mem_value m address value size = get_or_set_value false m address value size

-- The `uint64_t` that a `char` of the file buffer converts to: `char` is signed.
unfoldable pub char_value : ℕ → ℕ
char_value b = if ltb b 128 then b else b + 2 ^ 64 - 256

-- The loop of `loadFromFile` over the buffer, whose length is an `int`; the code that `setMemValue` returns is not looked at.
unfoldable pub load_bytes : ℕ → List ℕ → MemoryStore → MemoryStore
load_bytes i [] m = m
load_bytes i (b ∷ buf) m =
    load_bytes (i + 1) buf (set_mem_value m (i * byte_size) (char_value b) byte_size).store

-- `int length = infile.tellg()`: the length cut to 32 bits; `none` is a negative one.
unfoldable pub int_length : ℕ → Option ℕ
int_length length = let bound = u32 length in if ltb bound (2 ^ 31) then some bound else none

-- A file that does not open, or the bytes of one that does. `none` is the exception of `new` on a
-- negative length.
unfoldable pub load_from_file : Option (List ℕ) → MemoryStore → Option (Status × MemoryStore)
load_from_file none m = some (Status.error, m)
load_from_file (some buf) m = elim (int_length (length buf)) [
  | none ↦ none
  | some count ↦ some (Status.success, load_bytes 0 (take count buf) m)
]
