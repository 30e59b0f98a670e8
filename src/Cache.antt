-- ===== src/Cache.antt =====
-- src/cache.h and src/cache.cpp: a set-associative cache that keeps tags and time stamps only.
pub mod Sets
pub mod SetAccess
pub mod Address
pub mod Access
pub mod Create
pub mod Runs
pub mod Recency
pub mod Clocked
pub mod Lru
pub mod Dump
use ece375_project.Base.{ℕ, zero, suc, ◌+◌, ◌*◌, ◌/◌, ◌^◌, bit_and, Bool, true, false, ◌&&◌, not}
use ece375_project.Base.{ltb, ◌==◌, if◌then◌else◌, Option, none, some, List, [], ◌∷◌}
use ece375_project.Base.{get_elem?, set, replicate, take, ◌-◌}
use ece375_project.Word.{u64, u32, sub64, shl64, shr}

pub record CacheConfig : Type 0 where
  pub cache_size : ℕ
  pub block_size : ℕ
  pub ways : ℕ
  pub miss_latency : ℕ

pub data CacheDataType : Type 0 where
  i_cache d_cache : CacheDataType

pub data CacheOperation : Type 0 where
  cache_read cache_write : CacheOperation

pub record CacheLine : Type 0 where
  pub is_valid : Bool
  pub tag : ℕ
  pub lru_timestamp : ℕ

pub record Cache : Type 0 where
  pub hits : ℕ
  pub misses : ℕ
  pub data_type : CacheDataType
  pub number_of_sets : ℕ
  pub block_offset_bits : ℕ
  pub set_index_bits : ℕ
  pub sets : List (List CacheLine)
  pub lru_clock : ℕ
  pub config : CacheConfig

unfoldable pub mask_for_bits : ℕ → ℕ
mask_for_bits bit_count = if bit_count == 0 then 0 else sub64 (shl64 1 bit_count) 1

-- The loop of `log2u64`; `none` means that `bits` came to 64, where the shift is undefined.
unfoldable pub log2_loop : ℕ → ℕ → ℕ → Option ℕ
log2_loop zero bits value = none
log2_loop (suc left) bits value =
    let rest = log2_loop left (bits + 1) value in
    if ltb (shl64 1 bits) value then rest else some bits

unfoldable pub log2u64 : ℕ → Option ℕ
log2u64 value = log2_loop 64 0 value

pub record Geometry : Type 0 where
  pub number_of_sets : ℕ
  pub block_offset_bits : ℕ
  pub set_index_bits : ℕ

-- `none` where the division is by zero or a shift is undefined.
unfoldable pub compute_geometry : CacheConfig → Option Geometry
compute_geometry config =
    let line_bytes = u64 (config.block_size * config.ways) in
    let sets = config.cache_size / line_bytes in
    if line_bytes == 0 then none else elim (log2u64 config.block_size) [
      | none ↦ none
      | some offset ↦ elim (log2u64 sets) [
        | none ↦ none
        | some index ↦
            some
              (record { number_of_sets = sets; block_offset_bits = offset; set_index_bits = index })
      ]
    ]

abbrev pub empty_line : CacheLine
empty_line = record { is_valid = false; tag = 0; lru_timestamp = 0 }

-- The members and the sets, once the geometry is known.
unfoldable pub built : CacheConfig → CacheDataType → Geometry → Cache
built config data_type g = record {
  hits = 0;
  misses = 0;
  data_type = data_type;
  number_of_sets = g.number_of_sets;
  block_offset_bits = g.block_offset_bits;
  set_index_bits = g.set_index_bits;
  sets = replicate g.number_of_sets (replicate config.ways empty_line);
  lru_clock = 0;
  config = config;
}

-- The constructor.
unfoldable pub create : CacheConfig → CacheDataType → Option Cache
create config data_type = elim (compute_geometry config) [
  | none ↦ none
  | some g ↦ some (built config data_type g)
]

-- The shifts are defined where `access` calls it: by fewer than 64 places.
unfoldable pub get_index_and_tag : Cache → ℕ → ℕ × ℕ
get_index_and_tag c address = (
  bit_and (shr address c.block_offset_bits) (mask_for_bits c.set_index_bits),
  shr address (c.block_offset_bits + c.set_index_bits),
)

-- `static_cast<int>(config.ways)`: the rounds of a loop that counts an `int` up to it from 0, which
-- are none where the cast is negative.
unfoldable pub int_rounds : ℕ → ℕ
int_rounds ways = let bound = u32 ways in if ltb bound (2 ^ 31) then bound else 0

-- The probing loop over the ways that it looks at: the first one, counted from `way`, with the tag.
unfoldable pub probe : ℕ → ℕ → List CacheLine → Option ℕ
probe way tag [] = none
probe way tag (line ∷ lines) =
    if line.is_valid && line.tag == tag then some way else probe (suc way) tag lines

-- The first that is not valid, of the ways that the loop looks at.
unfoldable pub find_invalid : ℕ → List CacheLine → Option ℕ
find_invalid way [] = none
find_invalid way (line ∷ lines) =
    if not line.is_valid then some way else find_invalid (suc way) lines

-- The loop that looks for the smallest time stamp, over the ways that are left to it.
unfoldable pub oldest : ℕ → ℕ → ℕ → List CacheLine → ℕ
oldest way min_timestamp victim_index [] = victim_index
oldest way min_timestamp victim_index (line ∷ lines) = elim (ltb line.lru_timestamp min_timestamp) [
  | true ↦ oldest (suc way) line.lru_timestamp way lines
  | false ↦ oldest (suc way) min_timestamp victim_index lines
]

-- The eviction among the valid lines, with its loop from way 1; `none` is the read of `set[0]` in
-- a set with no way.
unfoldable pub evict : ℕ → List CacheLine → Option ℕ
evict ways [] = none
evict ways (line ∷ lines) = some (oldest 1 line.lru_timestamp 0 (take (int_rounds ways - 1) lines))

-- The way to fill.
unfoldable pub choose_victim : ℕ → List CacheLine → Option ℕ
choose_victim ways lines = elim (find_invalid 0 (take (int_rounds ways) lines)) [
  | some way ↦ some way
  | none ↦ evict ways lines
]

-- `set[way].lruTimestamp = now`.
unfoldable pub stamp : List CacheLine → ℕ → ℕ → List CacheLine
stamp [] way now = []
stamp (line ∷ lines) zero now = record line { lru_timestamp = now } ∷ lines
stamp (line ∷ lines) (suc way) now = line ∷ stamp lines way now

-- One access to the set that the address selects, which has `ways` lines, as the constructor made
-- it: whether it hits, and the set after it.
unfoldable pub access_set : ℕ → List CacheLine → ℕ → ℕ → Option (Bool × List CacheLine)
access_set ways lines tag now = elim (probe 0 tag (take (int_rounds ways) lines)) [
  | some way ↦ some (true, stamp lines way now)
  | none ↦ elim (choose_victim ways lines) [
    | none ↦ none
    | some way ↦
        some (false, set lines way (record { is_valid = true; tag = tag; lru_timestamp = now }))
  ]
]

-- `access`; `none` is a shift by 64 or more, an index outside `sets` or a set with no way, which
-- C++ leaves undefined.
-- The kind of operation is not looked at.
unfoldable pub access : Cache → ℕ → CacheOperation → Option (Bool × Cache)
access c address read_write =
    let (set_index, tag) = get_index_and_tag c address in
    let now = u64 (c.lru_clock + 1) in
    let found =
      if ltb (c.block_offset_bits + c.set_index_bits) 64
      then get_elem? c.sets set_index
      else none in
    elim found [
      | none ↦ none
      | some lines ↦ elim (access_set c.config.ways lines tag now) [
        | none ↦ none
        | some (hit, lines') ↦ some (
          hit,
          record c {
            hits = (if hit then u64 (c.hits + 1) else c.hits);
            misses = (if hit then c.misses else u64 (c.misses + 1));
            sets = set c.sets set_index lines';
            lru_clock = now;
          },
        )
      ]
    ]
