-- ===== src/Tests/Mains.antt =====
-- The two programs with files that are given by lists.
use Prim.Native.String.{String, ◌++◌ as ◌++s◌}
use text.Mathlib.Text.{◌==◌ as ◌same◌}
use ece375_project.Base.{
  ℕ, zero, suc, ◌≤◌, ◌≡◌, ◌⊎◌, refl, inl, inr, arith, true, false, if◌then◌else◌, [], ◌∷◌, none,
  some,
}
use ece375_project.Streams.{Files}
use ece375_project.Utilities.Codes.{Status}
use ece375_project.MemoryStore.{
  MemoryStore, create, load_from_file, int_length, load_bytes, char_value,
}
use ece375_project.MemoryStore.Prepare.{Made, create_from_file, prepared, prepare_memory}
use ece375_project.Cycle.Step.{Core, init_simulator}
use ece375_project.Cycle.Refine.Steps.{KeepsText, IsRegular}
use ece375_project.Cycle.Refine.Matches.{runs}
use ece375_project.Cache.{create as create_cache, compute_geometry, built, log2u64, log2_loop}
use ece375_project.Simulator.Machine.{simulator, sim_fetch}
use ece375_project.Simulator.Instruction.{Instruction, blank}
use ece375_project.Funct
use ece375_project.Main.Arguments.{parse_args, parse_configs, parse_config, parse_next_line}
use ece375_project.Main.Report.{Report, Ended, Fuel, memory_size}
use ece375_project.Main.Agree.{mains_agree}
use ece375_project.MemoryStore.Print.{Piece, print_mem_array, print_rows, print_row, print_bytes}
use ece375_project.MemoryStore.Dump.{MemLine, titled, mem_range, dump_memory_state}
use ece375_project.Simulator.Registers.{register_info, dump_register_state}
use ece375_project.Cycle.Run.Dump.{dump_sim_stats}
use ece375_project.Main.Funct as SimFunct
use ece375_project.Main.Cycle as SimCycle
use ece375_project.Main.Funct.{finalize_stats}
use ece375_project.Main.Arguments.{get_base_filename, rfind, substr}
use ece375_project.Main.Report.{with_memory, dump_reg_mem, finalize}
use ece375_project.Base.{replicate}
use ece375_project.Tests.Samples.{memory, config, core, machine}
use ece375_project.Tests.Programs.{functional, pipelined}
use ece375_project.Tests.Readers.{Numbers, reader, read_number}
use ece375_project.Base.{◌↔◌, ◌++◌}
use ece375_project.Main.Arguments.Configs.{numbers, Reads, parse_args_iff}
use ece375_project.Main.Paths.{get_base_filename_lem}

abbrev pub cache_text : Numbers
cache_text = (false, 128 ∷ 16 ∷ 2 ∷ 5 ∷ 128 ∷ 16 ∷ 2 ∷ 5 ∷ [])

-- The addresses 16 to 24 are dumped, and there is no image.
abbrev pub files : Files Numbers
files = record {
  text = λ name.
      if name same "caches"
      then some cache_text
      else if name same "print_mem_range"
      then some (false, 16 ∷ 24 ∷ [])
      else none;
  bytes = λ name. if name same "p.bin" then some memory.mem_arr else none;
  writable = λ name. true;
}

pub loaded : MemoryStore
loaded = load_bytes 0 memory.mem_arr (create 0 memory_size)

abbrev fuel : Fuel
fuel = record { image = 1; run = 4; rows = 3 }

parsed :
    parse_args reader files ("sim_cycle" ∷ "p.bin" ∷ "caches" ∷ []) ≡ some ("p.bin", config, config)
unfolding parse_args parse_configs parse_config parse_next_line read_number
parsed = refl

loads :
    create_from_file reader fuel.image
      (files.text "init_mem_image")
      (files.bytes "p.bin")
      0
      memory_size
    ≡ some (Made.made loaded)
unfolding create_from_file prepared prepare_memory loaded load_from_file int_length
loads = refl

abbrev started : Core
started = record core { sim = record machine { memory = loaded } }

starts : init_simulator config config loaded ≡ some started
unfolding init_simulator create_cache compute_geometry built log2u64 log2_loop simulator
starts = refl

-- What the functional simulator leaves: two registers, a word at 16 and one at 20.
abbrev report : Report
report = record {
  status = Status.halt;
  registers = dump_register_state true (register_info (0 ∷ 21 ∷ 42 ∷ replicate 29 0));
  memory = titled "Begin Memory State" (
      MemLine.printed (Piece.row_address 16)
      ∷ MemLine.printed Piece.hex_prefix
      ∷ MemLine.printed (Piece.hex_byte 21)
      ∷ MemLine.printed (Piece.hex_byte 0)
      ∷ MemLine.printed (Piece.hex_byte 0)
      ∷ MemLine.printed (Piece.hex_byte 0)
      ∷ MemLine.printed Piece.blank
      ∷ MemLine.printed Piece.hex_prefix
      ∷ MemLine.printed (Piece.hex_byte 42)
      ∷ MemLine.printed (Piece.hex_byte 0)
      ∷ MemLine.printed (Piece.hex_byte 0)
      ∷ MemLine.printed (Piece.hex_byte 0)
      ∷ MemLine.printed Piece.blank
      ∷ MemLine.printed Piece.end_line
      ∷ titled "End Memory State" []);
  stats = dump_sim_stats true (record {
    dynamic_instructions = 4;
    total_cycles = 0;
    ic_hits = 0;
    ic_misses = 0;
    dc_hits = 0;
    dc_misses = 0;
    load_use_stalls = 0;
  });
}

reported : SimFunct.main reader files fuel ("sim_funct" ∷ "p.bin" ∷ []) ≡ some (Ended.ran report)
unfolding functional loaded SimFunct.main with_memory create_from_file prepared prepare_memory
    Funct.init_simulator simulator dump_reg_mem finalize finalize_stats read_number
    dump_memory_state mem_range print_mem_array print_rows print_row print_bytes load_from_file
    load_bytes char_value create get_base_filename rfind substr register_info dump_register_state
    dump_sim_stats int_length
reported = refl

abbrev IsCode : ℕ → Type 0
IsCode pc = (pc ≡ 0) ⊎ (pc ≡ 4) ⊎ (pc ≡ 8) ⊎ (pc ≡ 12)

at_code : (P : ℕ → Type 0) → P 0 → P 4 → P 8 → P 12 → (pc : ℕ) → IsCode pc → P pc
at_code P a b c d pc (inl e) = rw e a
at_code P a b c d pc (inr (inl e)) = rw e b
at_code P a b c d pc (inr (inr (inl e))) = rw e c
at_code P a b c d pc (inr (inr (inr e))) = rw e d

abbrev stored : MemoryStore
stored = (runs 4 (Funct.init_simulator loaded)).sim.memory

abbrev fetched : ℕ → ℕ → Instruction
fetched pc word = record blank { pc = pc; instruction = word }

-- The four words of the program.
abbrev IsText : MemoryStore → Type 0
IsText m =
    (sim_fetch 0 m ≡ fetched 0 0x01002083)
    × (sim_fetch 4 m ≡ fetched 4 0x00108133)
    × (sim_fetch 8 m ≡ fetched 8 0x00202A23)
    × (sim_fetch 12 m ≡ fetched 12 0xFEEDFEED)

loaded-IsText : IsText loaded
unfolding functional loaded load_bytes char_value create
loaded-IsText = (refl, refl, refl, refl)

stored-IsText : IsText stored
unfolding functional runs Funct.init_simulator simulator loaded load_bytes char_value create
stored-IsText = (refl, refl, refl, refl)

-- The text is whole after the store too.
texts_agree : (m m' : MemoryStore) → IsText m → IsText m' → KeepsText IsCode m m'
texts_agree m m' (a, b, c, d) (a', b', c', d') =
    at_code (λ pc. sim_fetch pc m' ≡ sim_fetch pc m) (cc (a, a')) (cc (b, b')) (cc (c, c'))
      (cc (d, d'))

text_kept : KeepsText IsCode loaded stored
text_kept = texts_agree loaded stored loaded-IsText stored-IsText

regular : (j : ℕ) → j ≤ 4 → IsRegular IsCode loaded (runs j (Funct.init_simulator loaded))
unfolding pipelined runs Funct.init_simulator simulator loaded load_bytes char_value create
regular zero h = record {
  inside = inl refl;
  room = λ e. absurd cc;
  keeps = λ pc h. refl;
  legal = λ e. absurd cc;
}
regular (suc zero) h = record {
  inside = inr (inl refl);
  room = λ e. absurd cc;
  keeps = λ pc h. refl;
  legal = λ e. absurd cc;
}
regular (suc (suc zero)) h = record {
  inside = inr (inr (inl refl));
  room = λ e. absurd cc;
  keeps = λ pc h. refl;
  legal = λ e. absurd cc;
}
regular (suc (suc (suc zero))) h = record {
  inside = inr (inr (inr refl));
  room = λ e. absurd cc;
  keeps = text_kept;
  legal = λ e. absurd cc;
}
regular (suc (suc (suc (suc zero)))) h = record {
  inside = inl refl;
  room = λ e. absurd cc;
  keeps = text_kept;
  legal = λ e. absurd cc;
}
regular (suc (suc (suc (suc (suc j))))) h = absurd (omega (arith, h))

mains_agree_example :
    (rep : Report) × (SimCycle.main reader files
        (record fuel { run = 27 })
        ("sim_cycle" ∷ "p.bin" ∷ "caches" ∷ [])
      ≡ some (Ended.ran rep))
    × (rep.status ≡ Status.halt)
    × (rep.registers ≡ report.registers)
    × (rep.memory ≡ report.memory)
mains_agree_example =
    mains_agree reader files (λ name. refl) fuel 27 "sim_funct" "p.bin" []
      ("sim_cycle" ∷ "p.bin" ∷ "caches" ∷ []) config config loaded IsCode parsed loads starts
      reported refl regular (omega arith)

-- The eight numbers, and nothing behind them.
parse_args_iff_example :
    (parse_args reader files ("sim_cycle" ∷ "p.bin" ∷ "caches" ∷ [])
      ≡ some ("p.bin", config, config))
    ↔ ((s' : Numbers) × Reads reader (numbers config ++ numbers config) cache_text s')
parse_args_iff_example =
    parse_args_iff reader files "sim_cycle" "p.bin" "caches" config config cache_text refl

get_base_filename_lem_example :
    (get_base_filename ("test/fib" ++s String.◌∷◌ "." "bin") ≡ "test/fib")
    × (get_base_filename "bin" ≡ "bin")
get_base_filename_lem_example = get_base_filename_lem "test/fib" "bin" (ground arith)

-- A program without an extension, in the directory above.
upper_program : get_base_filename "../fib" ≡ "."
unfolding get_base_filename rfind substr
upper_program = refl
