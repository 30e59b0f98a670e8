-- ===== src/MemoryStore/Prepare/Image.antt =====
-- What `prepareMemory` writes.
use ece375_project.Base.{ℕ, zero, suc, ◌+◌, ◌<◌, ◌≡◌, refl, arith, ap, ◌∙◌}
use ece375_project.Base.{true, false, some, List, [], ◌∷◌, length, All}
use ece375_project.Base.{Bool-cases, inl, inr, ◌⊎◌}
use ece375_project.Streams.{Reader, IsReader}
use ece375_project.MemoryStore.{
  MemoryStore, Access, Code, fine, einval, word_size, set_mem_value, get_mem_value,
}
use ece375_project.MemoryStore.RoundTrip.{
  IsSmall, InRange, set_mem_value-IsWritten, get-set_mem_value,
}
use ece375_project.MemoryStore.Prepare.{prepare_entry, prepare_loop, prepare_memory}

-- The words of a list of addresses and values, written in its order.
pub write_all : List (ℕ × ℕ) → MemoryStore → MemoryStore
write_all [] m = m
write_all ((addr, v) ∷ image) m = write_all image (set_mem_value m addr v word_size).store

keeps :
    (m : MemoryStore) (arr : List ℕ) (image : List (ℕ × ℕ))
    → All (λ p. InRange m p.0 word_size) image
    → length arr ≡ length m.mem_arr
    → All (λ p. InRange (record m { mem_arr = arr }) p.0 word_size) image
keeps m arr [] h same = tt
keeps m arr ((addr, v) ∷ image) h same = (omega (arith, h.0, same), keeps m arr image h.1 same)

-- The words of an image change neither the size nor the start of the memory.
write_all-fits :
    (image : List (ℕ × ℕ)) (m : MemoryStore)
    → IsSmall m
    → InRange m 0 word_size
    → All (λ p. InRange m p.0 word_size) image
    → IsSmall (write_all image m) × InRange (write_all image m) 0 word_size
unfolding write_all
write_all-fits [] m small zero_fits fits = (small, zero_fits)
write_all-fits ((addr, v) ∷ image) m small zero_fits fits =
    let (arr, wrote, w) = set_mem_value-IsWritten m addr word_size refl v small fits.0 in
    let same = w.same_length in
    rw (write_all, wrote)
      (write_all-fits image (record m { mem_arr = arr }) (omega (arith, same, small))
        (omega (arith, same, zero_fits)) (keeps m arr image fits.1 same))

Code-cases : (c : Code) → (c ≡ fine) ⊎ (c ≡ einval)
Code-cases fine = inl refl
Code-cases einval = inr refl

module _ {S : Type 0} (r : Reader S) where
  -- The stream holds these pairs, and then nothing.
  pub data Holds : S → List (ℕ × ℕ) → Type 0 where
    nothing :
        {s s' : S}
        → r.good s ≡ true
        → r.extract_hex 32 0 s ≡ (0, s')
        → r.good s' ≡ false
        → Holds s []
    pair :
        {s s1 s2 : S} {addr v : ℕ} {image : List (ℕ × ℕ)}
        → r.good s ≡ true
        → r.extract_hex 32 0 s ≡ (addr, s1)
        → r.extract_hex 32 0 s1 ≡ (v, s2)
        → Holds s2 image
        → Holds s ((addr, v) ∷ image)

  -- One round, where the word can be written.
  prepare_loop-suc :
      (fuel : ℕ) (s s' : S) (m : MemoryStore) (a : Access)
      → r.good s ≡ true
      → prepare_entry r s m ≡ (a, s')
      → a.code ≡ fine
      → prepare_loop r (suc fuel) s m ≡ prepare_loop r fuel s' a.store
  unfolding prepare_loop
  prepare_loop-suc fuel s s' m a g e f = rw (g, e, f, e)

  prepare_entry-eq :
      (s s1 s2 : S) (m : MemoryStore) (addr v : ℕ)
      → r.extract_hex 32 0 s ≡ (addr, s1)
      → r.extract_hex 32 0 s1 ≡ (v, s2)
      → prepare_entry r s m ≡ (set_mem_value m addr v word_size, s2)
  unfolding prepare_entry
  prepare_entry-eq s s1 s2 m addr v e e' = rw (e, e')

  prepare_loop-bad :
      (fuel : ℕ) (s : S) (m : MemoryStore)
      → r.good s ≡ false
      → prepare_loop r (suc fuel) s m ≡ some (fine, m)
  unfolding prepare_loop
  prepare_loop-bad fuel s m g = rw g

  prepare_loop-torn :
      (fuel : ℕ) (s : S) (m : MemoryStore)
      → r.good s ≡ true
      → (prepare_entry r s m).0.code ≡ einval
      → prepare_loop r (suc fuel) s m ≡ some (einval, (prepare_entry r s m).0.store)
  unfolding prepare_loop
  prepare_loop-torn fuel s m g e = rw (g, e)

  module _ (left : S → ℕ) (law : IsReader r left) where
    -- Once the image is read, the loop makes one more round.
    prepare_loop-image :
        (fuel : ℕ) {s : S} {image : List (ℕ × ℕ)} (m : MemoryStore)
        → Holds s image
        → IsSmall m
        → InRange m 0 word_size
        → All (λ p. InRange m p.0 word_size) image
        → length image + 1 < fuel
        → prepare_loop r fuel s m
          ≡ some (fine, (set_mem_value (write_all image m) 0 0 word_size).store)
    unfolding write_all
    prepare_loop-image zero m h small zero_fits fits enough = absurd (omega (arith, enough))
    prepare_loop-image (suc zero) m h small zero_fits fits enough = absurd (omega (arith, enough))
    prepare_loop-image (suc (suc fuel)) m (nothing {s} {s'} g e bad) small zero_fits fits enough =
        let (arr, wrote, w) = set_mem_value-IsWritten m 0 word_size refl 0 small zero_fits in
        prepare_loop-suc (suc fuel) s s' m _ g
          (prepare_entry-eq s s' s' m 0 0 e (law.failed 32 0 s' bad))
          (ap (λ (a : Access). a.code) wrote)
        ∙ prepare_loop-bad fuel s' _ bad
    prepare_loop-image (suc (suc fuel)) m (pair {s} {s1} {s2} {addr} {v} {image} g e e' h) small
          zero_fits fits enough =
        let (arr, wrote, w) = set_mem_value-IsWritten m addr word_size refl v small fits.0 in
        let same = w.same_length in
        let m' = record m { mem_arr = arr } in
        prepare_loop-suc (suc fuel) s s2 m _ g (prepare_entry-eq s s1 s2 m addr v e e')
          (ap (λ (a : Access). a.code) wrote)
        ∙ rw wrote (
            prepare_loop-image (suc fuel) m' h (omega (arith, same, small))
              (omega (arith, same, zero_fits)) (keeps m arr image fits.1 same)
              (omega (arith, enough)))

    -- Where the image of the initial memory opens and holds pairs of an address and a word and
    -- then nothing, all in range of a memory of at most 2 ^ 63 bytes, as is the word at 0,
    -- prepareMemory returns 0 with any fuel of two or more above the count of the pairs: it has
    -- written the words in their order and then a zero at address 0, where the memory reads 0
    -- after it, whatever the image says; provided that >> leaves a failed stream and its variable
    -- as they are.
    pub prepare_memory-image :
        {s : S} {image : List (ℕ × ℕ)} (fuel : ℕ) (m : MemoryStore) (old : ℕ)
        → Holds s image
        → IsSmall m
        → InRange m 0 word_size
        → All (λ p. InRange m p.0 word_size) image
        → length image + 1 < fuel
        → let w = (set_mem_value (write_all image m) 0 0 word_size).store in
          (prepare_memory r fuel (some s) m ≡ some (fine, w))
          × (get_mem_value w 0 old word_size ≡ record { code = fine; value = 0; store = w })
    unfolding prepare_memory
    prepare_memory-image {s} {image} fuel m old h small zero_fits fits enough =
        let (small', fits') = write_all-fits image m small zero_fits fits in
        (
          prepare_loop-image fuel m h small zero_fits fits enough,
          (get-set_mem_value (write_all image m) 0 word_size 0 old refl small' fits').1,
        )

    -- A pair is taken from the stream, or the stream fails.
    took :
        (s : S) (m : MemoryStore)
        → r.good (prepare_entry r s m).1 ≡ true
        → left (prepare_entry r s m).1 < left s
    unfolding prepare_entry
    took s m g = elim (Bool-cases (r.good (r.extract_hex 32 0 s).1)) [
      | inl ok ↦ omega (arith, law.takes 32 0 s ok, law.takes 32 0 (r.extract_hex 32 0 s).1 g)
      | inr bad ↦
          let stays = ap (λ (p : ℕ × S). p.1) (law.failed 32 0 (r.extract_hex 32 0 s).1 bad) in
          absurd (cc (stays, bad, g))
    ]

    prepare_loop-returns :
        (fuel : ℕ) (s : S) (m : MemoryStore)
        → (r.good s ≡ true → left s + 1 < fuel)
        → 0 < fuel
        → (code : Code) × (m' : MemoryStore) × (prepare_loop r fuel s m ≡ some (code, m'))
    prepare_loop-returns zero s m enough more = absurd (omega (arith, more))
    prepare_loop-returns (suc fuel) s m enough more = elim (Bool-cases (r.good s)) [
      | inr bad ↦ (fine, m, prepare_loop-bad fuel s m bad)
      | inl ok ↦ elim (Code-cases (prepare_entry r s m).0.code) [
        | inr torn ↦ (einval, (prepare_entry r s m).0.store, prepare_loop-torn fuel s m ok torn)
        | inl set ↦
            let s' = (prepare_entry r s m).1 in
            let m' = (prepare_entry r s m).0.store in
            let (code, m'', rest) =
              prepare_loop-returns fuel s' m' (λ g. omega (arith, enough ok, took s m g))
                (omega (arith, enough ok)) in
            (code, m'', prepare_loop-suc fuel s s' m _ ok refl set ∙ rest)
      ]
    ]

    -- With any fuel of two or more above the characters that are left in the image, prepareMemory
    -- returns, whatever the image holds; provided that >> leaves a failed stream as it is and
    -- takes at least one character where it succeeds.
    pub prepare_memory-returns :
        (fuel : ℕ) (s : S) (m : MemoryStore)
        → left s + 1 < fuel
        → (code : Code) × (m' : MemoryStore) × (prepare_memory r fuel (some s) m ≡ some (code, m'))
    unfolding prepare_memory
    prepare_memory-returns fuel s m enough =
        prepare_loop-returns fuel s m (λ g. enough) (omega (arith, enough))
