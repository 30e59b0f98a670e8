-- ===== src/Isa/Computes.antt =====
-- The opcodes of the instructions that compute.
use ece375_project.Base.{ℕ, ℤ, false, ◌≡◌, refl, ◌==◌}
use ece375_project.Utilities.Codes.{op_load, op_store, op_branch}
use ece375_project.Simulator.Instruction.{Instruction}
use ece375_project.Simulator.Arith.Meaning.{Means}

abbrev pub Elsewhere : ℕ → Type 0
Elsewhere opcode =
    ((opcode == op_load) ≡ false) × ((opcode == op_store) ≡ false) × ((opcode == op_branch) ≡ false)

elsewhere :
    {opcode : ℕ} (n : ℕ)
    → opcode ≡ n
    → (n == op_load) ≡ false
    → (n == op_store) ≡ false
    → (n == op_branch) ≡ false
    → Elsewhere opcode
elsewhere n e f g h = rw e (f, g, h)

pub computing : {i : Instruction} {z : ℤ} → Means i z → Elsewhere i.opcode
computing (Means.add o f g) = elsewhere _ o refl refl refl
computing (Means.sub o f g) = elsewhere _ o refl refl refl
computing (Means.sll o f) = elsewhere _ o refl refl refl
computing (Means.slt o f) = elsewhere _ o refl refl refl
computing (Means.sltu o f) = elsewhere _ o refl refl refl
computing (Means.srl o f g) = elsewhere _ o refl refl refl
computing (Means.sra o f g) = elsewhere _ o refl refl refl
computing (Means.xor o f) = elsewhere _ o refl refl refl
computing (Means.or o f) = elsewhere _ o refl refl refl
computing (Means.and o f) = elsewhere _ o refl refl refl
computing (Means.xori o f) = elsewhere _ o refl refl refl
computing (Means.ori o f) = elsewhere _ o refl refl refl
computing (Means.andi o f) = elsewhere _ o refl refl refl
computing (Means.addi o f) = elsewhere _ o refl refl refl
computing (Means.slli o f) = elsewhere _ o refl refl refl
computing (Means.slti o f) = elsewhere _ o refl refl refl
computing (Means.sltiu o f) = elsewhere _ o refl refl refl
computing (Means.srli o f g) = elsewhere _ o refl refl refl
computing (Means.srai o f g) = elsewhere _ o refl refl refl
computing (Means.addw o f g) = elsewhere _ o refl refl refl
computing (Means.subw o f g) = elsewhere _ o refl refl refl
computing (Means.sllw o f) = elsewhere _ o refl refl refl
computing (Means.srlw o f g) = elsewhere _ o refl refl refl
computing (Means.sraw o f g) = elsewhere _ o refl refl refl
computing (Means.addiw o f) = elsewhere _ o refl refl refl
computing (Means.slliw o f) = elsewhere _ o refl refl refl
computing (Means.srliw o f g) = elsewhere _ o refl refl refl
computing (Means.sraiw o f g) = elsewhere _ o refl refl refl
computing (Means.lui o) = elsewhere _ o refl refl refl
computing (Means.auipc o) = elsewhere _ o refl refl refl
computing (Means.jal o) = elsewhere _ o refl refl refl
computing (Means.jalr o) = elsewhere _ o refl refl refl
