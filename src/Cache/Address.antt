-- ===== src/Cache/Address.antt =====
-- The geometry of a cache, and the split of an address into index and tag.
use native.Mathlib.Nat.{div-div-eq-div-mul, div-add-mod', pow-le-pow_right}
use ece375_project.Base.{
  ℕ, zero, suc, ◌+◌, ◌-◌, ◌/◌, ◌%◌, ◌^◌, ◌≤◌, ◌<◌, ◌≡◌, refl, ap, sym, ◌∙◌, arith, ◌↔◌,
}
use ece375_project.Base.{some}
use ece375_project.Word.Fields.{bit_and_mask, pow_pos}
use ece375_project.Utilities.Extend.{pow-add}
use ece375_project.Cache.{Cache, mask_for_bits, log2_loop, log2u64, get_index_and_tag}

pow-lt-word : (k : ℕ) → k < 64 → 2 ^ k < 2 ^ 64
pow-lt-word k h =
    omega (arith, pow-le-pow_right {n = 2} (omega arith) {i = k} {j = 63} (omega arith))

mask_for_bits_lem : (k : ℕ) → k < 64 → mask_for_bits k ≡ 2 ^ k - 1
unfolding mask_for_bits
mask_for_bits_lem k h = ground (arith, pow-lt-word k h, pow_pos k)

-- The loop stops at the exponent of a power of two.
log2_loop_lem :
    (left bits k : ℕ) → bits ≤ k → k < bits + left → k < 64 → log2_loop left bits (2 ^ k) ≡ some k
unfolding log2_loop
log2_loop_lem zero bits k h below small = absurd (omega arith)
log2_loop_lem (suc left) bits k h below small = ground (
  arith,
  pow-lt-word bits (omega arith),
  pow-add bits 1,
  pow_pos bits,
  doubles,
  log2_loop_lem left (bits + 1) k,
)
  where
    doubles : bits < k → 2 ^ (bits + 1) ≤ 2 ^ k
    doubles p = pow-le-pow_right {n = 2} (omega arith) {i = bits + 1} {j = k} (omega arith)

pub log2u64-pow : (k : ℕ) → k < 64 → log2u64 (2 ^ k) ≡ some k
unfolding log2u64
log2u64-pow k h = log2_loop_lem 64 0 k (omega arith) h h

-- The index and the tag of an address are the low and the high part of its block number.
pub index_and_tag_lem :
    (c : Cache) (address : ℕ)
    → c.set_index_bits < 64
    → let block = address / 2 ^ c.block_offset_bits in
      get_index_and_tag c address ≡ (block % 2 ^ c.set_index_bits, block / 2 ^ c.set_index_bits)
unfolding get_index_and_tag
index_and_tag_lem c address h =
    rw
      (
        mask_for_bits_lem c.set_index_bits h,
        bit_and_mask c.set_index_bits (address / 2 ^ c.block_offset_bits),
        pow-add c.block_offset_bits c.set_index_bits,
        div-div-eq-div-mul address (2 ^ c.block_offset_bits) (2 ^ c.set_index_bits),
      )
      refl

same_block : (x y m : ℕ) → ◌≡◌ {A = ℕ × ℕ} (x % m, x / m) (y % m, y / m) → x ≡ y
same_block x y m e = ground (arith, div-add-mod' x m, div-add-mod' y m)

-- In a cache with fewer than 64 bits of offset and index, two addresses have the same index and
-- tag exactly if they lie in the same block.
pub index_and_tag_iff :
    (c : Cache) (a b : ℕ)
    → c.block_offset_bits + c.set_index_bits < 64
    → (get_index_and_tag c a ≡ get_index_and_tag c b)
      ↔ (a / 2 ^ c.block_offset_bits ≡ b / 2 ^ c.block_offset_bits)
index_and_tag_iff c a b few =
    let h : c.set_index_bits < 64 = omega arith in
    let m = 2 ^ c.set_index_bits in
    let x = a / 2 ^ c.block_offset_bits in
    let y = b / 2 ^ c.block_offset_bits in
    let left = index_and_tag_lem c a h in
    let right = index_and_tag_lem c b h in
    (
      λ e. same_block x y m (sym left ∙ e ∙ right),
      λ e. left ∙ ap (λ (t : ℕ). (t % m, t / m)) e ∙ sym right,
    )
