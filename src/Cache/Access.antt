-- ===== src/Cache/Access.antt =====
-- An access to the whole cache.
use native.Mathlib.Nat.{mod-lt}
use ece375_project.Base.{ℕ, ◌+◌, ◌^◌, ◌<◌, ◌≡◌, ◌≢◌, refl, sym, ◌∙◌}
use ece375_project.Base.{Bool, true, if◌then◌else◌, some, List, length, length-set}
use ece375_project.Base.{
  get_elem?, get_elem?_in, get_elem?-set_self, get_elem?-set_ne, set, All, All-get_elem?, All-set,
}
use ece375_project.Base.{ap, ltb, arith}
use ece375_project.Word.{u64}
use ece375_project.Word.Fields.{pow_pos}
use ece375_project.Cache.{Cache, CacheLine, CacheOperation, get_index_and_tag, access_set, access}
use ece375_project.Cache.Sets.{holds}
use ece375_project.Cache.SetAccess.{access_set-returns, access_set-IsAccessed}
use ece375_project.Cache.Address.{index_and_tag_lem}

-- A cache whose number of sets is a power of two, every set with the ways of the configuration, of
-- which there is at least one, and whose index and offset leave a bit of the address to the tag.
pub record IsShaped (c : Cache) : Type 0 where
  pub bits : c.block_offset_bits + c.set_index_bits < 64
  pub all_sets : length c.sets ≡ 2 ^ c.set_index_bits
  pub some_way : 0 < c.config.ways
  pub has_ways : All (λ lines. length lines ≡ c.config.ways) c.sets

-- The block of the address is in the cache: its set holds its tag.
abbrev pub Holds : Cache → ℕ → Bool → Type 0
Holds c address b =
    let (i, tag) = get_index_and_tag c address in
    (lines : List CacheLine) × (get_elem? c.sets i ≡ some lines) × (holds tag lines ≡ b)

-- An access that returned `hit` and left `c'`.
pub record IsServed (c : Cache) (address : ℕ) (hit : Bool) (c' : Cache) : Type 0 where
  pub reports : Holds c address hit
  pub present : Holds c' address true
  pub clock : c'.lru_clock ≡ u64 (c.lru_clock + 1)
  pub counts :
      (c'.hits ≡ (if hit then u64 (c.hits + 1) else c.hits))
      × (c'.misses ≡ (if hit then c.misses else u64 (c.misses + 1)))
  pub shaped : IsShaped c'
  pub other_sets :
      (j : ℕ) → (get_index_and_tag c address).0 ≢ j → get_elem? c'.sets j ≡ get_elem? c.sets j
  pub same_config : (c'.config ≡ c.config) × (c'.block_offset_bits ≡ c.block_offset_bits)

index-lt : (c : Cache) (address : ℕ) → IsShaped c → (get_index_and_tag c address).0 < length c.sets
index-lt c address s =
    rw (index_and_tag_lem c address (omega arith), s.all_sets) (mod-lt _ (pow_pos c.set_index_bits))

-- What `access` leaves of a cache, the set that the address selects apart.
abbrev pub served : Cache → ℕ → Bool → List CacheLine → Cache
served c address hit after = record c {
  hits = (if hit then u64 (c.hits + 1) else c.hits);
  misses = (if hit then c.misses else u64 (c.misses + 1));
  sets = set c.sets (get_index_and_tag c address).0 after;
  lru_clock = u64 (c.lru_clock + 1);
}

access-eq :
    (c : Cache) (address : ℕ) (op : CacheOperation) (lines after : List CacheLine) (hit : Bool)
    → c.block_offset_bits + c.set_index_bits < 64
    → let (i, tag) = get_index_and_tag c address in
      get_elem? c.sets i ≡ some lines
      → access_set c.config.ways lines tag (u64 (c.lru_clock + 1)) ≡ some (hit, after)
      → access c address op ≡ some (hit, served c address hit after)
unfolding access
access-eq c address op lines after hit bits there did =
    let defined : ltb (c.block_offset_bits + c.set_index_bits) 64 ≡ true = ground arith in
    rw (defined, there, access, did) refl

-- The set that an address selects.
pub selected :
    (c : Cache) (address : ℕ)
    → IsShaped c
    → (lines : List CacheLine) × (get_elem? c.sets (get_index_and_tag c address).0 ≡ some lines)
      × (length lines ≡ c.config.ways)
selected c address s =
    let i = (get_index_and_tag c address).0 in
    let (lines, there) = get_elem?_in c.sets i (index-lt c address s) in
    (
      lines,
      there,
      All-get_elem? (λ (lines : List CacheLine). length lines ≡ c.config.ways) c.sets i s.has_ways
          there,
    )

pub served-IsShaped :
    (c : Cache) (address : ℕ) (hit : Bool) (after : List CacheLine)
    → IsShaped c
    → length after ≡ c.config.ways
    → IsShaped (served c address hit after)
served-IsShaped c address hit after s ways = record {
  bits = s.bits;
  all_sets = length-set c.sets _ after ∙ s.all_sets;
  some_way = s.some_way;
  has_ways =
      All-set (λ (lines : List CacheLine). length lines ≡ c.config.ways) c.sets _ ways s.has_ways;
}

-- In a cache of a sound shape every access returns, leaves the shape sound, and adds one to the
-- counter of hits or to that of misses.
pub access-returns :
    (c : Cache) (address : ℕ) (op : CacheOperation)
    → IsShaped c
    → (hit : Bool) × (c' : Cache) × (access c address op ≡ some (hit, c'))
      × IsShaped c'
      × (c'.hits ≡ (if hit then u64 (c.hits + 1) else c.hits))
      × (c'.misses ≡ (if hit then c.misses else u64 (c.misses + 1)))
access-returns c address op s =
    let (lines, there, whole) = selected c address s in
    let (hit, after, did, kept) =
      access_set-returns c.config.ways lines (get_index_and_tag c address).1 (u64 (c.lru_clock + 1))
        (rw whole s.some_way) in
    (
      hit,
      served c address hit after,
      access-eq c address op lines after hit s.bits there did,
      served-IsShaped c address hit after s (kept ∙ whole),
      refl,
      refl,
    )

-- What stands behind an access that returned.
pub access-served :
    (c c' : Cache) (address : ℕ) (op : CacheOperation) (hit : Bool)
    → IsShaped c
    → access c address op ≡ some (hit, c')
    → let (i, tag) = get_index_and_tag c address in
      (lines : List CacheLine) × (after : List CacheLine) × (get_elem? c.sets i ≡ some lines)
      × (length lines ≡ c.config.ways)
      × (access_set c.config.ways lines tag (u64 (c.lru_clock + 1)) ≡ some (hit, after))
      × (length after ≡ length lines)
      × (c' ≡ served c address hit after)
access-served c c' address op hit s e =
    let (lines, there, whole) = selected c address s in
    let (hit1, after, did, kept) =
      access_set-returns c.config.ways lines (get_index_and_tag c address).1 (u64 (c.lru_clock + 1))
        (rw whole s.some_way) in
    let e1 = access-eq c address op lines after hit1 s.bits there did in
    let hits : hit1 ≡ hit = ground (arith, sym e1 ∙ e) in
    let same : c' ≡ served c address hit1 after = ground (arith, sym e1 ∙ e) in
    (
      lines,
      after,
      there,
      whole,
      did ∙ ap (λ (h : Bool). some (h, after)) hits,
      kept,
      same ∙ ap (λ (h : Bool). served c address h after) hits,
    )

-- In a cache of a sound shape with fewer than 2 ^ 31 ways every access returns: it reports a hit
-- exactly if the block is in the cache, leaves the block in the cache and the shape sound, adds one
-- to the clock and to the counter of hits or to that of misses, and leaves every other set, the
-- configuration and the offset bits alone.
pub access-IsServed :
    (c : Cache) (address : ℕ) (op : CacheOperation)
    → IsShaped c
    → c.config.ways < 2 ^ 31
    → (hit : Bool) × (c' : Cache) × (access c address op ≡ some (hit, c'))
      × IsServed c address hit c'
unfolding get_index_and_tag
access-IsServed c address op s small =
    let i = (get_index_and_tag c address).0 in
    let tag = (get_index_and_tag c address).1 in
    let inside = index-lt c address s in
    let (lines, there, whole) = selected c address s in
    let (hit, after, did, a) =
      access_set-IsAccessed c.config.ways lines small whole tag (u64 (c.lru_clock + 1))
        (rw whole s.some_way) in
    (
      hit,
      served c address hit after,
      access-eq c address op lines after hit s.bits there did,
      record {
        reports = (lines, there, sym a.reports);
        present = (after, get_elem?-set_self c.sets i after inside, a.present);
        clock = refl;
        counts = (refl, refl);
        shaped = served-IsShaped c address hit after s (a.same_ways ∙ whole);
        other_sets = λ j ne. get_elem?-set_ne c.sets i j after ne;
        same_config = (refl, refl);
      },
    )
