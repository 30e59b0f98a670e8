-- ===== src/Utilities/Bits.antt =====
-- `extractBits`, `sext32` and `sext64` of src/Utilities.cpp.
use ece375_project.Base.{ℕ, ◌+◌, ◌-◌, ◌^◌, bit_and, bit_or, ◌==◌, if◌then◌else◌}
use ece375_project.Word.{shl64, shl32, shr}

-- The bits from `end` up to `start`. The mask is computed in `int`: no caller extracts more than
-- 20 bits, and `1 << bitsToExtract` is defined up to 30.
unfoldable pub extract_bits : ℕ → ℕ → ℕ → ℕ
extract_bits instruction start end =
    let bits_to_extract = start + 1 - end in
    let mask = 2 ^ bits_to_extract - 1 in let clipped = shr instruction end in bit_and clipped mask

-- The bit `sign_bit` is copied to all bits above it; `~0U << (signBit + 1)` is a shift of the
-- word whose bits are all set.
unfoldable pub sext32 : ℕ → ℕ → ℕ
sext32 imm sign_bit =
    if bit_and imm (shl32 1 sign_bit) == 0
    then imm
    else bit_or imm (shl32 (2 ^ 32 - 1) (sign_bit + 1))

unfoldable pub sext64 : ℕ → ℕ → ℕ
sext64 imm sign_bit =
    if bit_and imm (shl64 1 sign_bit) == 0
    then imm
    else bit_or imm (shl64 (2 ^ 64 - 1) (sign_bit + 1))
