-- ===== src/Tests/Safety.antt =====
-- The bounds, the jumps and the loading of a file at concrete values.
use ece375_project.Base.{
  pos, ℕ, ◌+◌, ◌-◌, ◌^◌, true, false, ◌≡◌, refl, arith, some, none, [], ◌∷◌, All, replicate,
  All-replicate,
}
use ece375_project.Word.{add64, of_ℤ}
use ece375_project.Utilities.Codes.{Status, op_int, funct3_add, funct3_blt, funct3_bltu}
use ece375_project.Utilities.Extend.{signed_at}
use ece375_project.MemoryStore.{MemoryStore, create, int_length, load_from_file}
use ece375_project.MemoryStore.Load.{IsLoaded, load_from_file-IsLoaded}
use ece375_project.Simulator.Instruction.{Instruction, blank}
use ece375_project.Simulator.Decode.{legal_intw, legal_intimm, legal_intimmw, legal_branch}
use ece375_project.Simulator.Resolve.{branch_taken, branch_target, jal_target}
use ece375_project.Simulator.Resolve.Immediates.{branch_target_lem, jal_target_lem}
use ece375_project.Simulator.Arith.{sim_arith_logic}
use ece375_project.Simulator.Arith.Meaning.{Means}
use ece375_project.Simulator.Arith.Integers.{sim_arith_logic-Means}
use ece375_project.Utilities.Codes.{funct3_slt}
use ece375_project.Simulator.Arith.Bounds.{IsWord}
use ece375_project.Simulator.Machine.Bounds.{IsByte, IsMachine, zero-IsWord}
use ece375_project.Tests.Samples.{memory, machine}

pub memory_bytes : All IsByte memory.mem_arr
memory_bytes = (
  omega arith,
  (
    omega arith,
    (
      omega arith,
      (
        omega arith,
        (
          omega arith,
          (
            omega arith,
            (
              omega arith,
              (
                omega arith,
                (
                  omega arith,
                  (
                    omega arith,
                    (
                      omega arith,
                      (
                        omega arith,
                        (
                          omega arith,
                          (
                            omega arith,
                            (
                              omega arith,
                              (
                                omega arith,
                                (
                                  omega arith,
                                  (
                                    omega arith,
                                    (
                                      omega arith,
                                      (
                                        omega arith,
                                        (
                                          omega arith,
                                          (omega arith, (omega arith, (omega arith, tt))),
                                        ),
                                      ),
                                    ),
                                  ),
                                ),
                              ),
                            ),
                          ),
                        ),
                      ),
                    ),
                  ),
                ),
              ),
            ),
          ),
        ),
      ),
    ),
  ),
)

pub machine-IsMachine : IsMachine 24 machine
machine-IsMachine = record {
  all_registers = refl;
  words = All-replicate IsWord 32 zero-IsWord;
  bytes = memory_bytes;
  all_bytes = refl;
}

abbrev sum : Instruction
sum = record blank { opcode = op_int; funct3 = funct3_add; op1_val = 2 ^ 64 - 1; op2_val = 1 }

-- -1 is below 1.
abbrev compared : Instruction
compared = record sum { funct3 = funct3_slt }

sim_arith_logic-Means_example : (sim_arith_logic compared).arith_result ≡ of_ℤ (pos 1)
sim_arith_logic-Means_example =
    sim_arith_logic-Means compared (omega arith) (omega arith) (omega arith) (Means.slt refl refl)

-- A branch back by 4, and a jump back by 8.
abbrev branch_back : Instruction
branch_back = record blank { pc = 64; funct7 = 0x7F; rd = 0x1D }

branch_target_lem_example : branch_target branch_back ≡ add64 64 (of_ℤ (signed_at 12 0x1FFC))
branch_target_lem_example =
    branch_target_lem branch_back 0x1FFC
      (record { high = refl; low = refl; even = refl; small = omega arith })

abbrev jump_back : Instruction
jump_back = record blank { pc = 64; instruction = 0xFF9FF06F }

jal_target_lem_example : jal_target jump_back ≡ add64 64 (of_ℤ (signed_at 20 0x1FFFF8))
jal_target_lem_example =
    jal_target_lem jump_back 0x1FFFF8 (record { upper = refl; even = refl; small = omega arith })

abbrev zeros : MemoryStore
zeros = record { start_addr = 0; mem_arr = replicate 8 0 }

load_from_file-IsLoaded_example :
    (m' : MemoryStore) × (load_from_file (some (200 ∷ 7 ∷ [])) zeros ≡ some (Status.success, m'))
    × IsLoaded 0 (200 ∷ 7 ∷ []) zeros.mem_arr m'.mem_arr
load_from_file-IsLoaded_example =
    load_from_file-IsLoaded (200 ∷ 7 ∷ []) zeros refl (omega arith) (omega arith) (omega arith)
      (omega arith, (omega arith, tt))

-- The lengths of files as `loadFromFile` takes them: a negative one, and one of 2 ^ 32 + 5.
lengths : (int_length (2 ^ 31) ≡ none) × (int_length (2 ^ 32 + 5) ≡ some 5)
unfolding int_length
lengths = (refl, refl)

create-zeros : create 0 8 ≡ zeros
unfolding create
create-zeros = refl

-- `addiw` with any upper bits, `subw`, `srai` by 33, `bgeu`, and a branch code that does not exist.
codes :
    (legal_intimmw 0 0x15 ≡ true)
    × (legal_intw 0 0x20 ≡ true)
    × (legal_intimm 5 0x21 ≡ true)
    × (legal_branch 7 ≡ true)
    × (legal_branch 2 ≡ false)
unfolding legal_intw legal_intimm legal_intimmw legal_branch
codes = (refl, refl, refl, refl, refl)

-- -1 is less than 1 as a signed number only.
abbrev less : ℕ → Instruction
less funct3 = record sum { funct3 = funct3 }

less_taken : (branch_taken (less funct3_blt) ≡ true) × (branch_taken (less funct3_bltu) ≡ false)
unfolding branch_taken
less_taken = (refl, refl)
