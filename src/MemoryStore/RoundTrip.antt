-- ===== src/MemoryStore/RoundTrip.antt =====
-- What a caller of `getMemValue` and `setMemValue` sees.
use ece375_project.Base.{ℕ, ◌+◌, ◌*◌, ◌%◌, ◌^◌, ◌≤◌, ◌<◌}
use ece375_project.Base.{◌≡◌, refl, arith, ◌⊎◌, inl, inr, true, List, length, get_elem?, All}
use ece375_project.Base.{zero, suc, Option-cases}
use ece375_project.Word.{sub64, u64}
use ece375_project.MemoryStore.{MemoryStore, fine, einval, is_entry_size}
use ece375_project.MemoryStore.{
  read_bytes, write_bytes, get_or_set_value, get_mem_value, set_mem_value,
}
use ece375_project.MemoryStore.Bytes.{
  IsWritten, write_bytes-IsWritten, read_bytes-eq, read_bytes_out, read_bytes-lt,
}

-- The place of an address in the byte array.
abbrev pub offset : MemoryStore → ℕ → ℕ
offset m address = sub64 address m.start_addr

-- The whole access lies in the memory.
abbrev pub InRange : MemoryStore → ℕ → ℕ → Type 0
InRange m address size = offset m address + size ≤ length m.mem_arr

abbrev pub IsSmall : MemoryStore → Type 0
IsSmall m = length m.mem_arr ≤ 2 ^ 63

pub entry_size_bounds : (size : ℕ) → is_entry_size size ≡ true → (0 < size) × (size ≤ 8)
entry_size_bounds size h = ground arith

module _ (m : MemoryStore) (address size : ℕ) (known : is_entry_size size ≡ true) where
  pub get_mem_value-read :
      (old : ℕ)
      → let r = read_bytes size 0 m.mem_arr (offset m address) 0 in
        get_mem_value m address old size ≡ record { code = r.0; value = r.1; store = m }
  unfolding get_mem_value get_or_set_value
  get_mem_value-read old = rw known

  pub set_mem_value-write :
      (v : ℕ)
      → let r = write_bytes size 0 m.mem_arr (offset m address) v in
        set_mem_value m address v size
        ≡ record { code = r.0; value = v; store = record m { mem_arr = r.1 } }
  unfolding set_mem_value get_or_set_value
  set_mem_value-write v = rw known

  -- An access in range stores the low bytes of the value, lowest first, and changes no other.
  pub set_mem_value-IsWritten :
      (v : ℕ)
      → IsSmall m
      → InRange m address size
      → (arr' : List ℕ) × (set_mem_value m address v size
          ≡ record { code = fine; value = v; store = record m { mem_arr = arr' } })
        × IsWritten (offset m address) 0 size v m.mem_arr arr'
  set_mem_value-IsWritten v small fits =
      let (arr', run, w) =
        write_bytes-IsWritten size 0 size m.mem_arr (offset m address) v (omega arith) fits
          (omega arith) in
      (arr', rw (set_mem_value-write v, run) refl, w)

  -- In a memory of at most 2 ^ 63 bytes, a reading of 1, 2, 4 or 8 bytes that does not fit the
  -- memory returns the code of EINVAL and leaves the memory.
  pub get_mem_value_out :
      (old : ℕ)
      → IsSmall m
      → length m.mem_arr < offset m address + size
      → ((get_mem_value m address old size).code ≡ einval)
        × ((get_mem_value m address old size).store ≡ m)
  get_mem_value_out old small out = rw (get_mem_value-read old) (
    read_bytes_out m.mem_arr (offset m address) small size 0 0
        (omega (arith, entry_size_bounds size known)) (omega arith) (omega arith),
    refl,
  )

  pub get_mem_value-lt :
      (old : ℕ)
      → All (λ b. b < 256) m.mem_arr
      → (get_mem_value m address old size).value < 2 ^ (size * 8)
  get_mem_value-lt old h = rw (get_mem_value-read old) (
      read_bytes-lt size 0 size m.mem_arr (offset m address) 0 (omega arith)
        (omega (arith, entry_size_bounds size known)) h (omega arith))

-- Once the bytes of a value are stored, they read back as the value.
reads_back :
    (m : MemoryStore) (address size v old : ℕ) (arr arr' : List ℕ)
    → is_entry_size size ≡ true
    → length arr ≤ 2 ^ 63
    → offset m address + size ≤ length arr
    → IsWritten (offset m address) 0 size v arr arr'
    → let m' = record m { mem_arr = arr' } in
      get_mem_value m' address old size
      ≡ record { code = fine; value = v % 2 ^ (size * 8); store = m' }
reads_back m address size v old arr arr' known small fits w =
    let e : v % 2 ^ (0 * 8) ≡ 0 = omega arith in
    let same = w.same_length in
    let run =
      read_bytes-eq size 0 size arr' (offset m address) v (omega arith)
        (omega (arith, entry_size_bounds size known)) (omega arith) (omega arith) w.inside in
    rw (get_mem_value-read (record m { mem_arr = arr' }) address size known old, rw e at run) refl

-- In a memory of at most 2 ^ 63 bytes, a write of 1, 2, 4 or 8 bytes in range does not fail, and a
-- reading of the same place then succeeds with the value, cut to the size, and changes nothing.
pub get-set_mem_value :
    (m : MemoryStore) (address size v old : ℕ)
    → is_entry_size size ≡ true
    → IsSmall m
    → InRange m address size
    → let w = set_mem_value m address v size in
      (w.code ≡ fine)
      × (get_mem_value w.store address old size
          ≡ record { code = fine; value = v % 2 ^ (size * 8); store = w.store })
get-set_mem_value m address size v old known small fits =
    result (set_mem_value-IsWritten m address size known v small fits)
  where
    result :
        (arr' : List ℕ) × (set_mem_value m address v size
            ≡ record { code = fine; value = v; store = record m { mem_arr = arr' } })
          × IsWritten (offset m address) 0 size v m.mem_arr arr'
        → let w = set_mem_value m address v size in
          (w.code ≡ fine)
          × (get_mem_value w.store address old size
              ≡ record { code = fine; value = v % 2 ^ (size * 8); store = w.store })
    result (arr', wrote, w) =
        rw wrote (refl, reads_back m address size v old m.mem_arr arr' known small fits w)

-- Two memories that agree on the bytes of an access give the same reading.
read_bytes_agree :
    (left i : ℕ) (arr arr' : List ℕ) (base acc : ℕ)
    → base + i + left ≤ 2 ^ 64
    → ((j : ℕ) → base + i ≤ j → j < base + i + left → get_elem? arr j ≡ get_elem? arr' j)
    → read_bytes left i arr base acc ≡ read_bytes left i arr' base acc
unfolding read_bytes
read_bytes_agree zero i arr arr' base acc fits h = refl
read_bytes_agree (suc left) i arr arr' base acc fits h =
    elim (Option-cases (get_elem? arr' (base + i))) [
      | inl out ↦ rw (here, read_bytes, h (base + i) (omega arith) (omega arith), out)
      | inr (b, found) ↦
          rw (here, read_bytes, h (base + i) (omega arith) (omega arith), found)
            (read_bytes_agree left (i + 1) arr arr' base _ (omega arith)
              (λ j p q. h j (omega arith) (omega arith)))
    ]
  where
    here : u64 (base + i) ≡ base + i
    here = omega arith

-- In a memory of at most 2 ^ 63 bytes, a write in range changes neither the value nor the code of
-- a reading in range that shares no byte with it, both of 1, 2, 4 or 8 bytes.
pub get-set_mem_value_apart :
    (m : MemoryStore) (address size v other size' old : ℕ)
    → is_entry_size size ≡ true
    → is_entry_size size' ≡ true
    → IsSmall m
    → InRange m address size
    → InRange m other size'
    → (offset m other + size' ≤ offset m address) ⊎ (offset m address + size ≤ offset m other)
    → let m' = (set_mem_value m address v size).store in
      ((get_mem_value m' other old size').value ≡ (get_mem_value m other old size').value)
      × ((get_mem_value m' other old size').code ≡ (get_mem_value m other old size').code)
get-set_mem_value_apart m address size v other size' old known known' small fits fits' apart =
    result (set_mem_value-IsWritten m address size known v small fits)
  where
    result :
        (arr' : List ℕ) × (set_mem_value m address v size
            ≡ record { code = fine; value = v; store = record m { mem_arr = arr' } })
          × IsWritten (offset m address) 0 size v m.mem_arr arr'
        → let m' = (set_mem_value m address v size).store in
          ((get_mem_value m' other old size').value ≡ (get_mem_value m other old size').value)
          × ((get_mem_value m' other old size').code ≡ (get_mem_value m other old size').code)
    result (arr', wrote, w) =
        let same : read_bytes size' 0 arr' (offset m other) 0
            ≡ read_bytes size' 0 m.mem_arr (offset m other) 0 =
          read_bytes_agree size' 0 arr' m.mem_arr (offset m other) 0 (omega arith)
            (λ j p q. w.outside j (omega arith)) in
        rw
          (
            wrote,
            get_mem_value-read (record m { mem_arr = arr' }) other size' known' old,
            get_mem_value-read m other size' known' old,
            same,
          )
          (refl, refl)
