-- ===== src/Lib.antt =====
-- The RISC-V simulators of this repository: a functional simulator and a five-stage pipeline for a
-- subset of RV64I, with the memory, the cache and the bit helpers that they use.
--
-- The parts and the files that model them:
--   * Utilities/Bits, Utilities/Codes: `extractBits`, `sext32`, `sext64` of src/Utilities.cpp and
--     the enumerations of src/Utilities.h; Utilities/Extract and Utilities/Extend are about them.
--     Utilities/Names and Utilities/Print: the disassembly, `getOpString` to `printInstr`; a stream
--     is the list of the operands of its `<<`. Cycle/Run/Dump: `dumpPipeState` and `dumpSimStats`.
--   * MemoryStore: the class of src/MemoryStore.cpp. A memory is its start address and a list of
--     bytes; `getOrSetValue` returns a code, a value and the memory after it. The bytes of a file
--     that `loadFromFile` reads are a parameter; their number is cut to an `int`, as there, and an
--     exception of `new` on a negative one ends the program, as a failed assertion does.
--     MemoryStore/Bytes, RoundTrip, Torn and Load are about its loops, about accesses in and out of
--     range, and about loading. MemoryStore/Print:
--     `printMemArray` with a unit of fuel for each row; with no column it never ends;
--     Print/Rows and Print/Range are about what it prints.
--     MemoryStore/Prepare: `prepareMemory` and the constructors, with assertions switched on, as the
--     Makefile has them; its loop takes a unit of fuel for each pair of numbers and two more at the
--     end. MemoryStore/Dump: `dumpMemoryState`.
--   * Simulator/Instruction, Simulator/Decode, Simulator/Resolve, Simulator/Arith,
--     Simulator/Access: the struct of src/simulator.h and the functions `simDecode`,
--     `simOperandCollection`, `simNextPCResolution`, `simArithLogic`, `simAddrGen`,
--     `simMemAccess`, `simCommit` of src/simulator.cpp; Simulator/Decode/Flags, Layout, Classes, Marks
--     and Legal are about the decoder, and Simulator/Decode/Spelling and Printing set the disassembly
--     against it. Simulator/Machine: the members of the class as a record, with `simInstruction` and
--     the stage functions `simIF` to `simWB`. Simulator/Registers: src/RegisterInfo.h, the registers
--     by name and how they are dumped.
--     Simulator/Arith/Meaning says over integers what the arithmetic instructions compute, and
--     Simulator/Arith/Integers sets the code against it.
--   * Isa: relations for what the instruction set says that an instruction does to the registers and
--     the memory (`Effects`) and where it goes on (`Continues`), and for whole programs (`Program`).
--     Isa/Covers and Isa/Total give them for every legal instruction, Isa/Outcome and Isa/Next
--     compute with them what the stages do, and Isa/Executes, Isa/Simulates and Isa/Runs set
--     `simInstruction` and the two simulators against them.
--   * Funct: `runInstructions` and `runTillHalt` of src/funct.cpp, over the static variables.
--   * Cycle/Forward, Cycle/Step, Cycle/Run: src/cycle.cpp. `Core` holds the static variables and the
--     pipeline registers; `step` is one round of the loop of `runCycles`, cut at its comments into
--     the stall tests, WB, MEM, EX, and ID with IF; `run_cycles` and `run_till_halt` are the loops.
--     Cycle/Step/Holds and Limits are about the hazards of loads and branches.
--     Cycle/Refine sets it against src/funct.cpp: `Arch` is the registers and the memory, `execute`,
--     `perform` and `retire` are what is left to do for an instruction in ID, EX and MEM,
--     `IsTracking` relates the pipeline between two cycles to a state of the functional simulator,
--     `rank` bounds the cycles until the next instruction is taken, and `IsRegular` is what a
--     program must not do: run words that it has changed, at the end of the address space, or an
--     illegal word with the opcode of branches or `jalr`.
--   * Cache: src/cache.h and src/cache.cpp, with Cache/Sets, Cache/SetAccess and
--     Cache/Recency on one set, and Cache/Address, Cache/Access, Cache/Create, Cache/Runs,
--     Cache/Clocked and Cache/Lru on the whole cache; Cache/Dump is `Cache::dump`. The loops count
--     an `int` up to a cast of the ways, which is none of them where the cast is negative.
--   * Main: the programs of src/sim_funct.cpp and src/sim_cycle.cpp. Main/Arguments is
--     `getBaseFilename` and `parseArgs`, Main/Report what the programs load and leave: the dumps of
--     `finalizeSimulator`, but not the file to which each cycle appends its pipe state. Main/Funct
--     and Main/Cycle are the two `main` functions, and Main/Agree sets the one against the other;
--     Main/Paths and Main/Arguments/Configs are about paths and configurations.
--   * Streams: `std::ifstream` and the files of the directory, as records of operations, with what
--     the standard says of `>>` as a record of laws. Tests/Readers is a stream that meets them.
--   * Base, Word: shared names, lists over native numbers, and machine words. A `uint64_t` is a
--     natural number, each operation of the source that can wrap is cut to 64 or 32 bits, and the
--     signed casts go through integers.
--   * Tests: a program with a load, a dependent addition, a store and a halt, run through both
--     simulators, and the theorems at concrete inputs.
--
-- How they interact: both simulators drive one `Simulator` and its memory. The pipeline makes two
-- caches at the start and reads their counters at the end; it never accesses them.
--
-- Loops: the loops over bytes, ways and file contents are structural. `while` loops of the two
-- drivers take fuel, one unit a round, and are none when it runs out: any fuel above the number of
-- requested rounds is enough, and `runTillHalt` needs as many as the program has instructions;
-- the inner loop of `runTillHalt` has two rounds at most. The loop of `log2u64` has 64 rounds, after
-- which the shift of the source is undefined.
--
-- Undefined behaviour of C++ is none: a cache geometry that divides by zero or shifts by 64, an
-- address that `access` shifts by 64 or more, and an index outside the sets. Register numbers
-- are fields of five bits, and there are 32 registers.
--
-- Not modelled: what the programs write on the console, and the build rules, the assembly tests and
-- the tools beside the sources.
pub mod Base
pub mod Word
pub mod Streams
pub mod Utilities
pub mod MemoryStore
pub mod Simulator
pub mod Funct
pub mod Cache
pub mod Cycle
pub mod Isa
pub mod Main
pub mod Tests
