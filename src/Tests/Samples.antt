-- ===== src/Tests/Samples.antt =====
-- A small program in memory, and the machines that run it.
use ece375_project.Base.{ℕ, true, List, [], ◌∷◌, replicate}
use ece375_project.Utilities.Codes.{StageStatus}
use ece375_project.MemoryStore.{MemoryStore}
use ece375_project.Cache.{Cache, CacheConfig, CacheDataType, CacheLine, built}
use ece375_project.Simulator.Instruction.{Instruction, blank}
use ece375_project.Simulator.Machine.{Simulator}
use ece375_project.Funct.{Funct}
use ece375_project.Cycle.Forward.{nop}
use ece375_project.Cycle.Step.{Core}

-- `lw x1, 16(x0)`, `add x2, x1, x1`, `sw x2, 20(x0)`, the halt word, and two words of data.
abbrev pub memory : MemoryStore
memory = record {
  start_addr = 0;
  mem_arr =
      0x83 ∷ 0x20 ∷ 0x00 ∷ 0x01 ∷ 0x33 ∷ 0x81 ∷ 0x10 ∷ 0x00 ∷ 0x23 ∷ 0x2A ∷ 0x20 ∷ 0x00 ∷ 0xED
      ∷ 0xFE ∷ 0xED ∷ 0xFE ∷ 21 ∷ 0 ∷ 0 ∷ 0 ∷ 0 ∷ 0 ∷ 0 ∷ 0 ∷ [];
}

abbrev pub machine : Simulator
machine = record { registers = replicate 32 0; memory = memory; din = 0 }

abbrev pub funct : Funct
funct = record { sim = machine; pc = 0 }

-- Four sets of two ways, with blocks of 16 bytes.
abbrev pub config : CacheConfig
config = record { cache_size = 128; block_size = 16; ways = 2; miss_latency = 5 }

abbrev pub empty_cache : CacheDataType → Cache
empty_cache data_type =
    built config data_type
      (record { number_of_sets = 4; block_offset_bits = 4; set_index_bits = 2 })

abbrev pub core : Core
core = record {
  sim = machine;
  i_cache = empty_cache CacheDataType.i_cache;
  d_cache = empty_cache CacheDataType.d_cache;
  cycle_count = 0;
  pc = 0;
  if_inst = nop StageStatus.idle;
  id_inst = nop StageStatus.idle;
  ex_inst = nop StageStatus.idle;
  mem_inst = nop StageStatus.idle;
  wb_inst = nop StageStatus.idle;
  done_inst = nop StageStatus.idle;
}

-- An instruction that is to write a value to a register.
abbrev pub producer : ℕ → ℕ → Instruction
producer rd value = record blank {
  is_legal = true;
  does_arith_logic = true;
  writes_rd = true;
  rd = rd;
  arith_result = value;
}

-- A full set, whose second way is the older.
abbrev pub full_set : List CacheLine
full_set =
    record { is_valid = true; tag = 7; lru_timestamp = 5 }
    ∷ record { is_valid = true; tag = 9; lru_timestamp = 3 }
    ∷ []

-- The pipeline with the halt word in IF.
abbrev pub halting : Core
halting = record core { if_inst = record blank { pc = 12; instruction = 0xfeedfeed } }
