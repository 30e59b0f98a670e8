-- ===== src/Simulator/Access.antt =====
-- `simAddrGen`, `simMemAccess` and `simCommit` of src/simulator.cpp.
use ece375_project.Base.{ℕ, ◌-◌, ◌*◌, bit_or, List, ◌||◌, ◌==◌, if◌then◌else◌, set}
use ece375_project.Word.{add64, shl64}
use ece375_project.Utilities.Bits.{extract_bits, sext64}
use ece375_project.Utilities.Codes.{funct3_b, funct3_h, funct3_w, funct3_bu, funct3_hu, funct3_wu}
use ece375_project.MemoryStore.{
  MemoryStore, byte_size, half_size, word_size, double_size, get_mem_value, set_mem_value,
}
use ece375_project.Simulator.Instruction.{Instruction}

unfoldable pub sim_addr_gen : Instruction → Instruction
sim_addr_gen inst =
    let imm5 = inst.rd in
    let imm7 = inst.funct7 in
    let imm12 = extract_bits inst.instruction 31 20 in
    let store_imm = sext64 (bit_or (shl64 imm7 5) imm5) 11 in
    if inst.reads_mem
    then record inst { mem_address = add64 inst.op1_val (sext64 imm12 11) }
    else if inst.writes_mem
    then record inst { mem_address = add64 inst.op1_val store_imm }
    else inst

unfoldable pub access_size : Instruction → ℕ
access_size inst =
    if inst.funct3 == funct3_b || inst.funct3 == funct3_bu
    then byte_size
    else if inst.funct3 == funct3_h || inst.funct3 == funct3_hu
    then half_size
    else if inst.funct3 == funct3_w || inst.funct3 == funct3_wu
    then word_size
    else double_size

-- What a load puts into `memResult`: `value` is uninitialized in the source, and `getMemValue`
-- overwrites it; the code that it returns is not looked at.
unfoldable pub load_result : Instruction → MemoryStore → ℕ
load_result inst memory =
    let size = access_size inst in
    let value = (get_mem_value memory inst.mem_address 0 size).value in
    if inst.funct3 == funct3_b || (inst.funct3 == funct3_h || inst.funct3 == funct3_w)
    then sext64 value (size * 8 - 1)
    else value

unfoldable pub sim_mem_access : Instruction → MemoryStore → Instruction × MemoryStore
sim_mem_access inst memory =
    if inst.reads_mem
    then (record inst { mem_result = load_result inst memory }, memory)
    else if inst.writes_mem
    then (inst, (set_mem_value memory inst.mem_address inst.op2_val (access_size inst)).store)
    else (inst, memory)

-- The value that an instruction writes back.
unfoldable pub written_value : Instruction → ℕ
written_value inst = if inst.reads_mem then inst.mem_result else inst.arith_result

unfoldable pub sim_commit : Instruction → List ℕ → List ℕ
sim_commit inst registers = set registers inst.rd (written_value inst)
