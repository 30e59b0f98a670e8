-- ===== src/MemoryStore/Prepare.antt =====
-- `prepareMemory` of src/MemoryStore.cpp and the constructors that call it.
pub mod Image
use ece375_project.Base.{ℕ, zero, suc, if◌then◌else◌, Option, none, some, List}
use ece375_project.Streams.{Reader}
use ece375_project.MemoryStore.{
  MemoryStore, Access, Code, fine, einval, word_size, create, set_mem_value, load_from_file,
}

-- `aborted` is an assertion that fails, or an exception that nothing catches.
pub data Made : Type 0 where
  aborted : Made
  made : MemoryStore → Made

module _ {S : Type 0} (r : Reader S) where
  -- The body of the `while` loop up to the test of `ret`.
  pub prepare_entry : S → MemoryStore → Access × S
  prepare_entry s m =
      let (addr, s1) = r.extract_hex 32 0 s in
      let (cur_val, s2) = r.extract_hex 32 0 s1 in (set_mem_value m addr cur_val word_size, s2)

  -- The loop, with a stream that was opened and a memory that is not null; `none` means that the
  -- fuel ran out.
  pub prepare_loop : ℕ → S → MemoryStore → Option (Code × MemoryStore)
  prepare_loop zero s m = none
  prepare_loop (suc fuel) s m =
      let (a, s') = prepare_entry s m in
      let rest = prepare_loop fuel s' a.store in
      if r.good s
      then (elim a.code [ Code.fine ↦ rest | Code.einval ↦ some (einval, a.store) ])
      else some (fine, m)

  -- `none` is an image that does not open.
  unfoldable pub prepare_memory : ℕ → Option S → MemoryStore → Option (Code × MemoryStore)
  prepare_memory fuel none m = some (fine, m)
  prepare_memory fuel (some s) m = prepare_loop fuel s m

  -- Both constructors up to the assertion, and the one that goes on with a file.
  unfoldable pub prepared : ℕ → Option S → ℕ → ℕ → Option Made
  prepared fuel image start_addr num_entries =
      elim (prepare_memory fuel image (create start_addr num_entries)) [
        | none ↦ none
        | some (code, m) ↦ elim code [ Code.fine ↦ some (made m) | Code.einval ↦ some aborted ]
      ]

  unfoldable pub create_from_file : ℕ → Option S → Option (List ℕ) → ℕ → ℕ → Option Made
  create_from_file fuel image file start_addr num_entries =
      elim (prepared fuel image start_addr num_entries) [
        | none ↦ none
        | some result ↦ elim result [
          | Made.aborted ↦ some aborted
          | Made.made m ↦ elim (load_from_file file m) [
            | none ↦ some aborted
            | some (status, m') ↦ some (made m')
          ]
        ]
      ]
