-- ===== src/MemoryStore/Dump.antt =====
-- `dumpMemoryState` of src/MemoryStore.cpp. Whether its file opens is a parameter.
use Prim.Native.String.{String}
use ece375_project.Base.{ℕ, Bool, List, [], ◌∷◌, ◌++◌, map, Option, none, some, if◌then◌else◌}
use ece375_project.Streams.{Reader}
use ece375_project.MemoryStore.{MemoryStore, word_size}
use ece375_project.MemoryStore.Print.{Piece, print_mem_array}

-- A line of text, or what `printMemArray` writes.
pub data MemLine : Type 0 where
  heading : String → MemLine
  printed : Piece → MemLine

abbrev pub titled : String → List MemLine → List MemLine
titled title rest =
    MemLine.heading "---------------------"
    ∷ MemLine.heading title
    ∷ MemLine.heading "---------------------"
    ∷ rest

-- The range in `print_mem_range`, if there is such a file.
unfoldable pub mem_range : {S : Type 0} → Reader S → Option S → ℕ × ℕ
mem_range r none = (0, 0x1F4)
mem_range r (some s) =
    let (start_addr, s1) = r.extract_hex 64 0 s in (start_addr, (r.extract_hex 64 0x1F4 s1).0)

unfoldable pub dump_memory_state :
    {S : Type 0} → Reader S → ℕ → Option S → Bool → MemoryStore → Option (List MemLine)
dump_memory_state r fuel range opened m =
    let (start_addr, end_addr) = mem_range r range in
    if opened
    then (elim (print_mem_array fuel m start_addr end_addr word_size 5) [
      | none ↦ none
      | some (code, pieces) ↦
          some (
            titled "Begin Memory State"
              (map MemLine.printed pieces ++ titled "End Memory State" []))
    ])
    else some []
