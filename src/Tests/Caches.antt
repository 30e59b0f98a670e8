-- ===== src/Tests/Caches.antt =====
-- The theorems on the cache at concrete accesses.
use ece375_project.Base.{ℕ, ◌≤◌, ◌^◌, ◌≡◌, refl, arith, Bool, true, false, some, List, [], ◌∷◌}
use ece375_project.Base.{◌/◌}
use ece375_project.Base.{All, ◌+◌, ◌%◌, length}
use ece375_project.Cache.{
  Cache, CacheDataType, CacheLine, CacheOperation, create, built, access_set, access, probe,
  choose_victim, find_invalid, evict, oldest, empty_line, stamp, int_rounds, get_index_and_tag,
  mask_for_bits, compute_geometry, log2u64, log2_loop,
}
use ece375_project.Cache.Sets.{holds}
use ece375_project.Cache.Dump.{dump, show_config}
use ece375_project.Utilities.Codes.{Status}
use ece375_project.Utilities.Print.{Operand}
use ece375_project.Base.{◌↔◌}
use ece375_project.Cache.Address.{index_and_tag_iff}
use ece375_project.Cache.Lru.{evicts-last_request}
use ece375_project.Cache.Clocked.{last_request}
use ece375_project.Cache.SetAccess.{IsAccessed, access_set-IsAccessed}
use ece375_project.Cache.Access.{Holds, IsShaped, IsServed, access-IsServed}
use ece375_project.Cache.Runs.{accesses, accesses-IsShaped}
use ece375_project.Cache.Create.{IsRegular, create-IsShaped}
use ece375_project.Tests.Samples.{config, empty_cache, full_set}

abbrev cache : Cache
cache = empty_cache CacheDataType.d_cache

access_set-IsAccessed_example :
    (hit : Bool) × (after : List CacheLine) × (access_set 2 full_set 4 6 ≡ some (hit, after))
    × IsAccessed full_set 4 hit after
access_set-IsAccessed_example =
    access_set-IsAccessed 2 full_set (omega arith) refl 4 6 (omega arith)

-- What that access returns: the older line goes.
older_goes :
    access_set 2 full_set 4 6
    ≡ some (
      false,
      record { is_valid = true; tag = 7; lru_timestamp = 5 }
          ∷ record { is_valid = true; tag = 4; lru_timestamp = 6 }
          ∷ [],
    )
unfolding access_set int_rounds probe choose_victim find_invalid evict oldest
older_goes = refl

cache-IsShaped : IsShaped cache
unfolding built
cache-IsShaped = record {
  bits = omega arith;
  all_sets = refl;
  some_way = omega arith;
  has_ways = (refl, (refl, (refl, (refl, tt))));
}

access-IsServed_example :
    (hit : Bool) × (c' : Cache) × (access cache 36 CacheOperation.cache_read ≡ some (hit, c'))
    × IsServed cache 36 hit c'
unfolding built
access-IsServed_example =
    access-IsServed cache 36 CacheOperation.cache_read cache-IsShaped (omega arith)

config-IsRegular : IsRegular config 4 2
config-IsRegular = record { block = refl; has_ways = omega arith; total = refl; fits = omega arith }

create-IsShaped_example :
    (c : Cache) × (create config CacheDataType.i_cache ≡ some c)
    × IsShaped c
    × (c.config ≡ config)
    × (c.block_offset_bits ≡ 4)
    × (c.set_index_bits ≡ 2)
    × All (λ lines. (t : ℕ) → holds t lines ≡ false) c.sets
    × (c.hits ≡ 0)
    × (c.misses ≡ 0)
    × (c.lru_clock ≡ 0)
create-IsShaped_example = create-IsShaped config CacheDataType.i_cache 4 2 config-IsRegular

abbrev requests : List (ℕ × CacheOperation)
requests =
    (36, CacheOperation.cache_read)
    ∷ (100, CacheOperation.cache_write)
    ∷ (40, CacheOperation.cache_read)
    ∷ []

accesses-IsShaped_example :
    (c' : Cache) × (accesses requests cache ≡ some c')
    × IsShaped c'
    × ((c'.hits + c'.misses) % 2 ^ 64 ≡ (cache.hits + cache.misses + length requests) % 2 ^ 64)
accesses-IsShaped_example = accesses-IsShaped requests cache cache-IsShaped

abbrev line : ℕ → ℕ → CacheLine
line tag time = record { is_valid = true; tag = tag; lru_timestamp = time }

-- The cache with one set, of index 1, that is not empty.
abbrev with_set : ℕ → ℕ → ℕ → List CacheLine → Cache
with_set hits misses clock lines = record cache {
  hits = hits;
  misses = misses;
  sets =
      (empty_line ∷ empty_line ∷ [])
      ∷ lines
      ∷ (empty_line ∷ empty_line ∷ [])
      ∷ (empty_line ∷ empty_line ∷ [])
      ∷ [];
  lru_clock = clock;
}

-- The blocks 1, 5 and 1 again, which fall into one set of two ways: block 9 pushes block 5 out.
abbrev three : List (ℕ × CacheOperation)
three =
    (16, CacheOperation.cache_read)
    ∷ (80, CacheOperation.cache_write)
    ∷ (20, CacheOperation.cache_read)
    ∷ []

abbrev three_served : Cache
three_served = with_set 1 2 3 (line 0 3 ∷ line 1 2 ∷ [])

abbrev four_served : Cache
four_served = with_set 1 3 4 (line 0 3 ∷ line 2 4 ∷ [])

three_run : accesses three cache ≡ some three_served
unfolding accesses access get_index_and_tag mask_for_bits access_set int_rounds probe choose_victim
    find_invalid evict oldest stamp built
three_run = refl

five_goes : access three_served 144 CacheOperation.cache_read ≡ some (false, four_served)
unfolding access get_index_and_tag mask_for_bits access_set int_rounds probe choose_victim
    find_invalid evict oldest stamp built
five_goes = refl

tags : Holds three_served 80 true × Holds four_served 80 false × Holds three_served 16 true
unfolding get_index_and_tag mask_for_bits holds built
tags = ((_, refl, refl), (_, refl, refl), (_, refl, refl))

created : create config CacheDataType.d_cache ≡ some cache
unfolding create compute_geometry log2u64 log2_loop built
created = refl

same_set : (get_index_and_tag three_served 16).0 ≡ (get_index_and_tag three_served 80).0
unfolding get_index_and_tag mask_for_bits built
same_set = refl

evicts-last_request_example :
    (false ≡ false)
    × ((get_index_and_tag three_served 80).0 ≡ (get_index_and_tag three_served 144).0)
    × (last_request 16 0 0 three (80 / 16) ≤ last_request 16 0 0 three (16 / 16))
evicts-last_request_example =
    evicts-last_request config CacheDataType.d_cache 4 2 three cache three_served four_served 144
      CacheOperation.cache_read false 80 16 config-IsRegular (omega arith) (omega arith) created
      three_run five_goes tags.0 tags.1 tags.2 same_set

index_and_tag_iff_example :
    (get_index_and_tag cache 36 ≡ get_index_and_tag cache 47)
    ↔ (36 / 2 ^ cache.block_offset_bits ≡ 47 / 2 ^ cache.block_offset_bits)
unfolding built
index_and_tag_iff_example = index_and_tag_iff cache 36 47 (omega arith)

-- With 2 ^ 31 ways the loops look at none, so that an access misses a tag in way 0.
looks_at_none : access_set (2 ^ 31) (line 4 5 ∷ []) 4 6 ≡ some (false, line 4 6 ∷ [])
unfolding access_set int_rounds probe choose_victim find_invalid evict oldest
looks_at_none = refl

empty_dump : dump true cache ≡ (
  Status.success,
  Operand.word "---------------------"
      ∷ Operand.word "\n"
      ∷ Operand.word "Begin Register Values"
      ∷ Operand.word "\n"
      ∷ Operand.word "---------------------"
      ∷ Operand.word "\n"
      ∷ Operand.word "Cache Configuration:"
      ∷ Operand.word "\n"
      ∷ Operand.word "Size: "
      ∷ Operand.unsigned 128
      ∷ Operand.word " bytes"
      ∷ Operand.word "\n"
      ∷ Operand.word "Block Size: "
      ∷ Operand.unsigned 16
      ∷ Operand.word " bytes"
      ∷ Operand.word "\n"
      ∷ Operand.word "Ways: "
      ∷ Operand.unsigned 2
      ∷ Operand.word "\n"
      ∷ Operand.word "Miss Latency: "
      ∷ Operand.unsigned 5
      ∷ Operand.word " cycles"
      ∷ Operand.word "\n"
      ∷ Operand.word "Derived Geometry:"
      ∷ Operand.word "\n"
      ∷ Operand.word "Sets: "
      ∷ Operand.unsigned 4
      ∷ Operand.word "\n"
      ∷ Operand.word "Block Offset Bits: "
      ∷ Operand.unsigned 4
      ∷ Operand.word "\n"
      ∷ Operand.word "Set Index Bits: "
      ∷ Operand.unsigned 2
      ∷ Operand.word "\n"
      ∷ Operand.word "Statistics:"
      ∷ Operand.word "\n"
      ∷ Operand.word "Hits: "
      ∷ Operand.unsigned 0
      ∷ Operand.word "\n"
      ∷ Operand.word "Misses: "
      ∷ Operand.unsigned 0
      ∷ Operand.word "\n"
      ∷ Operand.word "---------------------"
      ∷ Operand.word "\n"
      ∷ Operand.word "End Register Values"
      ∷ Operand.word "\n"
      ∷ Operand.word "---------------------"
      ∷ Operand.word "\n"
      ∷ [],
)
unfolding dump built
empty_dump = refl

unopened_dump : dump false cache ≡ (Status.error, [])
unfolding dump
unopened_dump = refl

shown_config :
    show_config config
    ≡ Operand.word "CacheConfig { "
      ∷ Operand.unsigned 128
      ∷ Operand.word ", "
      ∷ Operand.unsigned 16
      ∷ Operand.word ", "
      ∷ Operand.unsigned 2
      ∷ Operand.word ", "
      ∷ Operand.unsigned 5
      ∷ Operand.word " }"
      ∷ []
unfolding show_config
shown_config = refl
