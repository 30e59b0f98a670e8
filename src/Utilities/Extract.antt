-- ===== src/Utilities/Extract.antt =====
-- What `extractBits` computes.
use ece375_project.Base.{ℕ, ◌+◌, ◌-◌, ◌/◌, ◌%◌, ◌^◌, ◌≡◌, ◌<◌}
use native.Mathlib.Nat.{mod-lt}
use ece375_project.Word.Fields.{bit_and_mask, pow_pos}
use ece375_project.Utilities.Bits.{extract_bits}

-- The bits are the quotient by the lower ones, without the higher ones.
pub extract_bits_lem :
    (instruction start end : ℕ)
    → extract_bits instruction start end ≡ instruction / 2 ^ end % 2 ^ (start + 1 - end)
unfolding extract_bits
extract_bits_lem instruction start end = bit_and_mask (start + 1 - end) (instruction / 2 ^ end)

pub extract_bits-lt :
    (instruction start end : ℕ) → extract_bits instruction start end < 2 ^ (start + 1 - end)
extract_bits-lt instruction start end = rw extract_bits_lem (mod-lt _ (pow_pos (start + 1 - end)))
