-- ===== src/Cache/Dump.antt =====
-- `Cache::dump` of src/cache.cpp. Whether the file can be opened is a parameter, and what is written
-- to it is the list of the operands of `<<`.
use Prim.Native.String.{String}
use ece375_project.Base.{ℕ, Bool, List, [], ◌∷◌, if◌then◌else◌}
use ece375_project.Utilities.Codes.{Status}
use ece375_project.Utilities.Print.{Operand}
use ece375_project.Cache.{Cache, CacheConfig}

-- A line with a text, a number and a unit.
abbrev measure_line : String → ℕ → String → List Operand → List Operand
measure_line label n unit_text rest =
    Operand.word label ∷ Operand.unsigned n ∷ Operand.word unit_text ∷ Operand.word "\n" ∷ rest

abbrev count_line : String → ℕ → List Operand → List Operand
count_line label n rest = Operand.word label ∷ Operand.unsigned n ∷ Operand.word "\n" ∷ rest

abbrev title_line : String → List Operand → List Operand
title_line title rest = Operand.word title ∷ Operand.word "\n" ∷ rest

abbrev framed : String → List Operand → List Operand
framed title rest =
    title_line "---------------------" (title_line title (title_line "---------------------" rest))

unfoldable pub dump : Bool → Cache → Status × List Operand
dump opened c =
    if opened
    then (
      Status.success,
      framed "Begin Register Values" (
          title_line "Cache Configuration:" (
            measure_line "Size: " c.config.cache_size " bytes" (
              measure_line "Block Size: " c.config.block_size " bytes" (
                count_line "Ways: " c.config.ways (
                  measure_line "Miss Latency: " c.config.miss_latency " cycles" (
                    title_line "Derived Geometry:" (
                      count_line "Sets: " c.number_of_sets (
                        count_line "Block Offset Bits: " c.block_offset_bits (
                          count_line "Set Index Bits: " c.set_index_bits (
                            title_line "Statistics:" (
                              count_line "Hits: " c.hits (
                                count_line "Misses: " c.misses
                                  (framed "End Register Values" []))))))))))))),
    )
    else (Status.error, [])

-- `operator<<` of a configuration.
unfoldable pub show_config : CacheConfig → List Operand
show_config config =
    Operand.word "CacheConfig { "
    ∷ Operand.unsigned config.cache_size
    ∷ Operand.word ", "
    ∷ Operand.unsigned config.block_size
    ∷ Operand.word ", "
    ∷ Operand.unsigned config.ways
    ∷ Operand.word ", "
    ∷ Operand.unsigned config.miss_latency
    ∷ Operand.word " }"
    ∷ []
