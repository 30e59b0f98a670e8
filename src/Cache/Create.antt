-- ===== src/Cache/Create.antt =====
-- The constructor of the cache, on a configuration whose sizes are powers of two.
use native.Mathlib.Nat.{mul-div_cancel, mul_comm, mul_assoc, le-mul_of_pos_right, pow-le-pow_right}
use ece375_project.Base.{◌+◌, ◌≤◌, ap, ◌∙◌, ltb, Bool-cases, inl, inr}
use ece375_project.Base.{ℕ, ◌*◌, ◌^◌, ◌<◌, ◌≡◌, refl, arith}
use ece375_project.Base.{false, some, List, length}
use ece375_project.Base.{length-replicate, All, All-replicate}
use ece375_project.Utilities.Extend.{pow-add}
use ece375_project.Word.Fields.{pow_pos}
use ece375_project.Cache.{
  Cache, CacheConfig, CacheDataType, CacheLine, empty_line, compute_geometry, built, create,
}
use ece375_project.Cache.Sets.{holds, empty_set}
use ece375_project.Cache.Address.{log2u64-pow}
use ece375_project.Cache.Access.{IsShaped}

-- A configuration with `2 ^ k` sets of blocks of `2 ^ b` bytes.
pub record IsRegular (config : CacheConfig) (b k : ℕ) : Type 0 where
  pub block : config.block_size ≡ 2 ^ b
  pub has_ways : 0 < config.ways
  pub total : config.cache_size ≡ 2 ^ k * (config.block_size * config.ways)
  pub fits : config.cache_size < 2 ^ 64

exponent-lt : (n : ℕ) → 2 ^ n < 2 ^ 64 → n < 64
exponent-lt n h = elim (Bool-cases (ltb n 64)) [
  | inl small ↦ ground arith
  | inr large ↦
      let above : 64 ≤ n = ground arith in
      absurd (omega (arith, pow-le-pow_right {n = 2} (omega arith) {i = 64} {j = n} above))
]

factors-le : (x y w : ℕ) → 0 < x → 0 < y → 0 < w → (y * w ≤ x * (y * w)) × (y * x ≤ x * (y * w))
factors-le x y w hx hy hw = (
  rw (mul_comm x (y * w)) (le-mul_of_pos_right (y * w) hx),
  rw (← mul_assoc x y w, mul_comm x y) (le-mul_of_pos_right (y * x) hw),
)

-- The sizes of a configuration that is a record of 64-bit numbers.
bits_fit :
    (config : CacheConfig) (b k : ℕ)
    → IsRegular config b k
    → (b + k < 64) × (config.block_size * config.ways < 2 ^ 64)
bits_fit config b k r =
    let (one, both) = factors-le (2 ^ k) (2 ^ b) config.ways (pow_pos k) (pow_pos b) r.has_ways in
    let line : config.block_size * config.ways ≡ 2 ^ b * config.ways =
      ap (λ (n : ℕ). n * config.ways) r.block in
    let total : config.cache_size ≡ 2 ^ k * (2 ^ b * config.ways) =
      r.total ∙ ap (λ (n : ℕ). 2 ^ k * n) line in
    (
      exponent-lt (b + k) (omega (arith, pow-add b k, both, total, r.fits)),
      omega (arith, line, one, total, r.fits),
    )

compute_geometry_lem :
    (config : CacheConfig) (b k : ℕ)
    → IsRegular config b k
    → compute_geometry config
      ≡ some (record { number_of_sets = 2 ^ k; block_offset_bits = b; set_index_bits = k })
unfolding compute_geometry
compute_geometry_lem config b k r = ground (
  arith,
  r.total,
  line_bytes,
  mul-div_cancel (2 ^ k) {n = config.block_size * config.ways} line_bytes,
  log2u64-pow b (omega (arith, (bits_fit config b k r).0)),
  log2u64-pow k (omega (arith, (bits_fit config b k r).0)),
  (bits_fit config b k r).1,
)
  where
    line_bytes : 0 < config.block_size * config.ways
    line_bytes = rw r.block (grind (arith, pow_pos b, r.has_ways))

-- From a configuration of 2 ^ k sets of at least one way and blocks of 2 ^ b bytes, whose size is
-- below 2 ^ 64, the constructor makes a cache of a sound shape with the configuration, b offset
-- bits and k index bits, whose sets hold no tag and whose counters and clock are 0.
pub create-IsShaped :
    (config : CacheConfig) (data_type : CacheDataType) (b k : ℕ)
    → IsRegular config b k
    → (c : Cache) × (create config data_type ≡ some c)
      × IsShaped c
      × (c.config ≡ config)
      × (c.block_offset_bits ≡ b)
      × (c.set_index_bits ≡ k)
      × All (λ lines. (t : ℕ) → holds t lines ≡ false) c.sets
      × (c.hits ≡ 0)
      × (c.misses ≡ 0)
      × (c.lru_clock ≡ 0)
unfolding create built
create-IsShaped config data_type b k r = (
  built config data_type
      (record { number_of_sets = 2 ^ k; block_offset_bits = b; set_index_bits = k }),
  rw (compute_geometry_lem config b k r, create) refl,
  record {
    bits = (bits_fit config b k r).0;
    all_sets = length-replicate (2 ^ k) _;
    some_way = r.has_ways;
    has_ways =
        All-replicate (λ (lines : List CacheLine). length lines ≡ config.ways) (2 ^ k)
          (length-replicate config.ways empty_line);
  },
  refl,
  refl,
  refl,
  All-replicate (λ (lines : List CacheLine). (t : ℕ) → holds t lines ≡ false) (2 ^ k)
      (λ t. empty_set t config.ways),
  refl,
  refl,
  refl,
)
