-- ===== src/Tests/Images.antt =====
-- `prepareMemory` with an image that is given by a list.
use ece375_project.Base.{◌≡◌, refl, arith, false, [], ◌∷◌, length, some}
use ece375_project.MemoryStore.{MemoryStore}
use ece375_project.MemoryStore.Prepare.{prepare_memory}
use ece375_project.MemoryStore.{
  Code, fine, word_size, get_mem_value, set_mem_value, get_or_set_value, read_bytes,
}
use ece375_project.MemoryStore.Prepare.Image.{
  Holds, pair, nothing, write_all, prepare_memory-image, prepare_memory-returns,
}
use ece375_project.Tests.Samples.{memory}
use ece375_project.Tests.Readers.{Numbers, reader, reader-IsReader, read_number}

-- A word at 16; the image does not mention 0.
abbrev image : Numbers
image = (false, 16 ∷ 0x01020304 ∷ [])

image-Holds : Holds reader image ((16, 0x01020304) ∷ [])
unfolding read_number
image-Holds = pair refl refl refl (nothing refl refl refl)

abbrev overwritten : MemoryStore
overwritten = (set_mem_value (write_all ((16, 0x01020304) ∷ []) memory) 0 0 word_size).store

prepare_memory-image_example :
    (prepare_memory reader 3 (some image) memory ≡ some (fine, overwritten))
    × (get_mem_value overwritten 0 7 word_size
        ≡ record { code = fine; value = 0; store = overwritten })
prepare_memory-image_example =
    prepare_memory-image reader (λ s. length s.1) reader-IsReader 3 memory 7 image-Holds
      (omega arith) (omega arith) (omega arith) (omega arith)

-- Before, the word at 0 was the first instruction.
first_word : (get_mem_value memory 0 7 word_size).value ≡ 0x01002083
unfolding get_mem_value get_or_set_value read_bytes
first_word = refl

prepare_memory-returns_example :
    (code : Code) × (m : MemoryStore) × (prepare_memory reader 4 (some image) memory
      ≡ some (code, m))
prepare_memory-returns_example =
    prepare_memory-returns reader (λ s. length s.1) reader-IsReader 4 image memory (omega arith)
