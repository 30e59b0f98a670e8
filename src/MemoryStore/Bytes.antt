-- ===== src/MemoryStore/Bytes.antt =====
-- What the two loops of `getOrSetValue` do to the byte array.
use native.Mathlib.Nat.{div-add-mod', mod-lt, mod-eq_of_lt, mul-add-mod_self_right}
use native.Mathlib.Nat.{pow-le-pow_right}
use ece375_project.Base.{ℕ, zero, suc, ◌+◌, ◌-◌, ◌*◌, ◌/◌, ◌%◌, ◌^◌, ◌≤◌, ◌<◌}
use ece375_project.Base.{◌≡◌, refl, ap, ◌∙◌, sym, arith, bit_or, ◌⊎◌, inl, inr}
use ece375_project.Base.{some, List, get_elem?, set, length, length-set, All}
use ece375_project.Base.{
  get_elem?_in, get_elem?-set_self, get_elem?-set_ne, All-get_elem?, Option-cases,
}
use native.Mathlib.Decide.{dec_lt}
use ece375_project.Base.{get_elem?_out}
use ece375_project.Word.{u64, add64, shl64}
use ece375_project.Word.Fields.{bit_and_mask, bit_or_below, pow_pos}
use ece375_project.Utilities.Extend.{pow-add}
use ece375_project.MemoryStore.{fine, einval, read_bytes, write_bytes}

-- Byte `k` of a value, the lowest first.
abbrev pub byte_of : ℕ → ℕ → ℕ
byte_of v k = v / 2 ^ (k * 8) % 256

-- One more byte of a value.
mod_byte : (p v : ℕ) → 0 < p → v / p % 256 * p + v % p ≡ v % (p * 256)
mod_byte p v h = sym (
    ap (λ (t : ℕ). t % (p * 256)) split
    ∙ mul-add-mod_self_right (v / p / 256) (p * 256) (v / p % 256 * p + v % p)
    ∙ mod-eq_of_lt small)
  where
    split : v ≡ v / p / 256 * (p * 256) + (v / p % 256 * p + v % p)
    split = omega (arith, div-add-mod' v p, ap (λ (t : ℕ). t * p) (div-add-mod' (v / p) 256))

    small : v / p % 256 * p + v % p < p * 256
    small = grind (arith, mod-lt v h, mod-lt (v / p) {m = 256} (omega arith))

pow_byte : (k : ℕ) → 2 ^ ((k + 1) * 8) ≡ 2 ^ (k * 8) * 256
pow_byte k = let e : (k + 1) * 8 ≡ k * 8 + 8 = omega arith in rw e (pow-add (k * 8) 8)

-- `arr'` is `arr` with bytes `lo` up to `hi` of `v` stored from index `base + lo`.
pub record IsWritten (base lo hi v : ℕ) (arr arr' : List ℕ) : Type 0 where
  pub same_length : length arr' ≡ length arr
  pub inside :
      (j : ℕ) → base + lo ≤ j → j < base + hi → get_elem? arr' j ≡ some (byte_of v (j - base))
  pub outside : (j : ℕ) → (j < base + lo) ⊎ (base + hi ≤ j) → get_elem? arr' j ≡ get_elem? arr j

-- One round of the writing loop, in range.
pub write_bytes-suc :
    (left i : ℕ) (arr : List ℕ) (base v : ℕ)
    → base + i < length arr
    → length arr ≤ 2 ^ 64
    → write_bytes (suc left) i arr base v
      ≡ write_bytes left (i + 1) (set arr (base + i) (byte_of v i)) base v
unfolding write_bytes
write_bytes-suc left i arr base v fits small =
    let (b, found) = get_elem?_in arr (base + i) fits in
    let here : u64 (base + i) ≡ base + i = omega arith in
    rw (here, write_bytes, found, here, bit_and_mask 8)

pub IsWritten-cons :
    (base i hi v : ℕ) (arr arr' : List ℕ)
    → i < hi
    → base + i < length arr
    → IsWritten base (i + 1) hi v (set arr (base + i) (byte_of v i)) arr'
    → IsWritten base i hi v arr arr'
IsWritten-cons base i hi v arr arr' below fits w = record {
  same_length = w.same_length ∙ length-set arr (base + i) (byte_of v i);
  inside = λ j p q. ground (
    arith,
    w.inside j,
    w.outside j,
    get_elem?-set_self arr (base + i) (byte_of v i),
    get_elem?-set_ne arr (base + i) j (byte_of v i),
  );
  outside = λ j p. ground (arith, w.outside j, get_elem?-set_ne arr (base + i) j (byte_of v i));
}

pub write_bytes-IsWritten :
    (left i hi : ℕ) (arr : List ℕ) (base v : ℕ)
    → i + left ≡ hi
    → base + hi ≤ length arr
    → length arr ≤ 2 ^ 64
    → (arr' : List ℕ) × (write_bytes left i arr base v ≡ (fine, arr'))
      × IsWritten base i hi v arr arr'
write_bytes-IsWritten zero i hi arr base v e fits small = (
  arr,
  unfold write_bytes in refl,
  record { same_length = refl; inside = λ j p q. absurd (omega arith); outside = λ j p. refl },
)
write_bytes-IsWritten (suc left) i hi arr base v e fits small =
    let (arr', run, w) =
      write_bytes-IsWritten left (i + 1) hi (set arr (base + i) (byte_of v i)) base v (omega arith)
        (rw length-set fits) (rw length-set small) in
    (
      arr',
      write_bytes-suc left i arr base v (omega arith) small ∙ run,
      IsWritten-cons base i hi v arr arr' (omega arith) (omega arith) w,
    )

pub read_bytes-eq :
    (left i hi : ℕ) (arr : List ℕ) (base v : ℕ)
    → i + left ≡ hi
    → hi ≤ 8
    → base + hi ≤ length arr
    → length arr ≤ 2 ^ 64
    → ((j : ℕ) → base + i ≤ j → j < base + hi → get_elem? arr j ≡ some (byte_of v (j - base)))
    → read_bytes left i arr base (v % 2 ^ (i * 8)) ≡ (fine, v % 2 ^ (hi * 8))
unfolding read_bytes
read_bytes-eq zero i hi arr base v e short fits small bytes =
    let e' : i ≡ hi = omega arith in rw e' refl
read_bytes-eq (suc left) i hi arr base v e short fits small bytes =
    rw (here, read_bytes, bytes (base + i) (omega arith) (omega arith), k, grown)
      (read_bytes-eq left (i + 1) hi arr base v (omega arith) short fits small
        (λ j p q. bytes j (omega arith) q))
  where
    here : u64 (base + i) ≡ base + i
    here = omega arith

    k : base + i - base ≡ i
    k = omega arith

    grown : bit_or (v % 2 ^ (i * 8)) (shl64 (byte_of v i) (i * 8)) ≡ v % 2 ^ ((i + 1) * 8)
    grown = ground (
      arith,
      pow_pos (i * 8),
      pow_byte i,
      mod_byte (2 ^ (i * 8)) v,
      mod-lt v (pow_pos (i * 8)),
      pow-le-pow_right {n = 2} (omega arith) {i = (i + 1) * 8} {j = 64} (omega arith),
      bit_or_below (i * 8) (byte_of v i) (v % 2 ^ (i * 8)),
    )

-- A round out of range ends both loops with the error; earlier rounds do not.
module _ (arr : List ℕ) (base : ℕ) (small : length arr ≤ 2 ^ 63) where
  pub read_bytes_out :
      (left i acc : ℕ)
      → 0 < left
      → base + i < 2 ^ 64
      → length arr < base + i + left
      → (read_bytes left i arr base acc).0 ≡ einval
  unfolding read_bytes
  read_bytes_out zero i acc more fits out = absurd (omega arith)
  read_bytes_out (suc left) i acc more fits out =
      let here : u64 (base + i) ≡ base + i = omega arith in
      elim (dec_lt (base + i) (length arr)) [
        | yes p ↦
            let (b, found) = get_elem?_in arr (base + i) p in
            rw (here, read_bytes, found)
              (read_bytes_out left (i + 1) _ (omega arith) (omega arith) (omega arith))
        | no p ↦ rw (here, read_bytes, get_elem?_out arr (base + i) p)
      ]

byte_scaled : (b p : ℕ) → b < 256 → b * p ≤ 255 * p
byte_scaled b p h = grind arith

-- What is read fits the bytes read, on every path.
pub read_bytes-lt :
    (left i hi : ℕ) (arr : List ℕ) (base acc : ℕ)
    → i + left ≡ hi
    → hi ≤ 8
    → All (λ b. b < 256) arr
    → acc < 2 ^ (i * 8)
    → (read_bytes left i arr base acc).1 < 2 ^ (hi * 8)
unfolding read_bytes
read_bytes-lt zero i hi arr base acc e short h fits =
    let e' : i ≡ hi = omega arith in rw (← e') fits
read_bytes-lt (suc left) i hi arr base acc e short h fits =
    elim (Option-cases (get_elem? arr (add64 base i))) [
      | inl out ↦
          rw (out, read_bytes)
            (lt_of_lt-le fits
              (pow-le-pow_right {n = 2} (omega arith) {i = i * 8} {j = hi * 8} (omega arith)))
      | inr (b, found) ↦
          rw (found, read_bytes)
            (read_bytes-lt left (i + 1) hi arr base _ (omega arith) short h
              (grown b (All-get_elem? (λ b. b < 256) arr (add64 base i) h found)))
    ]
  where
    lt_of_lt-le : {a b c : ℕ} → a < b → b ≤ c → a < c
    lt_of_lt-le p q = omega arith

    grown : (b : ℕ) → b < 256 → bit_or acc (shl64 b (i * 8)) < 2 ^ ((i + 1) * 8)
    grown b small = ground (
      arith,
      byte_scaled b (2 ^ (i * 8)),
      pow_pos (i * 8),
      pow_byte i,
      pow-le-pow_right {n = 2} (omega arith) {i = (i + 1) * 8} {j = 64} (omega arith),
      bit_or_below (i * 8) b acc fits,
    )
