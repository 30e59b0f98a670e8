-- ===== src/MemoryStore/Torn.antt =====
-- What `setMemValue` leaves where an access does not fit the memory.
use native.Mathlib.Decide.{dec_lt}
use ece375_project.Base.{
  ℕ, zero, suc, ◌+◌, ◌-◌, ◌^◌, ◌≤◌, ◌<◌, ◌≡◌, refl, ◌∙◌, sym, arith, true, List, length, set,
  length-set, get_elem?_out,
}
use ece375_project.Word.{u64}
use ece375_project.MemoryStore.{MemoryStore, einval, is_entry_size, write_bytes, set_mem_value}
use ece375_project.MemoryStore.Bytes.{IsWritten, byte_of, write_bytes-suc, IsWritten-cons}
use ece375_project.MemoryStore.RoundTrip.{offset, IsSmall, entry_size_bounds, set_mem_value-write}

nothing-IsWritten : (base lo v : ℕ) (arr : List ℕ) → IsWritten base lo lo v arr arr
nothing-IsWritten base lo v arr = record {
  same_length = refl;
  inside = λ j p q. absurd (omega (arith, p, q));
  outside = λ j p. refl;
}

-- The writing loop, at a round whose byte or a later one lies behind the memory.
write_bytes_out :
    (left i : ℕ) (arr : List ℕ) (base v hi : ℕ)
    → base + hi ≡ length arr
    → i ≤ hi
    → length arr < base + i + left
    → length arr ≤ 2 ^ 63
    → (arr' : List ℕ) × (write_bytes left i arr base v ≡ (einval, arr'))
      × IsWritten base i hi v arr arr'
unfolding write_bytes
write_bytes_out zero i arr base v hi e le out small = absurd (omega (arith, e, le, out))
write_bytes_out (suc left) i arr base v hi e le out small = elim (dec_lt i hi) [
  | yes below ↦
      let arr1 = set arr (base + i) (byte_of v i) in
      let same = length-set arr (base + i) (byte_of v i) in
      let (arr', run, w) =
        write_bytes_out left (i + 1) arr1 base v hi (e ∙ sym same) (omega (arith, below))
          (omega (arith, same, out)) (omega (arith, same, small)) in
      (
        arr',
        write_bytes-suc left i arr base v (omega (arith, e, below)) (omega (arith, small)) ∙ run,
        IsWritten-cons base i hi v arr arr' below (omega (arith, e, below)) w,
      )
  | no end ↦
      let here : u64 (base + i) ≡ base + i = omega (arith, e, le, small) in
      let last : hi ≡ i = omega (arith, end, le) in
      (
        arr,
        rw (here, write_bytes, get_elem?_out arr (base + i) (omega (arith, e, end))) refl,
        rw last (nothing-IsWritten base i v arr),
      )
]

-- The same for an access that lies behind the memory altogether.
write_bytes_behind :
    (left : ℕ) (arr : List ℕ) (base v : ℕ)
    → length arr ≤ base
    → base < 2 ^ 64
    → write_bytes (suc left) 0 arr base v ≡ (einval, arr)
unfolding write_bytes
write_bytes_behind left arr base v behind small =
    let here : u64 (base + 0) ≡ base = omega (arith, small) in
    rw (here, write_bytes, get_elem?_out arr base (omega (arith, behind))) refl

torn :
    (size : ℕ) (arr : List ℕ) (base v : ℕ)
    → 0 < size
    → base < 2 ^ 64
    → length arr < base + size
    → length arr ≤ 2 ^ 63
    → (arr' : List ℕ) × (write_bytes size 0 arr base v ≡ (einval, arr'))
      × IsWritten base 0 (length arr - base) v arr arr'
torn zero arr base v pos word out small = absurd (omega (arith, pos))
torn (suc left) arr base v pos word out small = elim (dec_lt base (length arr)) [
  | yes within ↦
      write_bytes_out (suc left) 0 arr base v (length arr - base) (omega (arith, within))
        (omega arith) (omega (arith, out)) small
  | no behind ↦
      let none_left : length arr - base ≡ 0 = omega (arith, behind) in
      (
        arr,
        write_bytes_behind left arr base v (omega (arith, behind)) word,
        rw none_left (nothing-IsWritten base 0 v arr),
      )
]

-- In a memory of at most 2 ^ 63 bytes, a write of 1, 2, 4 or 8 bytes that does not fit the memory
-- returns the code of EINVAL and keeps the start address; the bytes of the value, the lowest
-- first, are stored from its place up to the end of the memory, and the size of the memory and
-- every other byte stay.
pub set_mem_value_out :
    (m : MemoryStore) (address size v : ℕ)
    → is_entry_size size ≡ true
    → IsSmall m
    → length m.mem_arr < offset m address + size
    → let r = set_mem_value m address v size in
      (r.code ≡ einval)
      × (r.store.start_addr ≡ m.start_addr)
      × IsWritten
          (offset m address)
          0
          (length m.mem_arr - offset m address)
          v
          m.mem_arr
          r.store.mem_arr
set_mem_value_out m address size v known small out =
    let (arr', run, w) =
      torn size m.mem_arr (offset m address) v (entry_size_bounds size known).0 (omega arith) out
        small in
    rw (set_mem_value-write m address size known v, run) (refl, refl, w)
