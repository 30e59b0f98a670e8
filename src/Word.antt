-- ===== src/Word.antt =====
-- `uint64_t`, `int64_t`, `uint32_t` and `int32_t` as the C++ operators use them: a word is a
-- natural number below 2 ^ 64 or 2 ^ 32, and a wrap is written out.
pub mod Digits
pub mod Fields
pub mod Signed
use ece375_project.Base.{ℕ, ◌+◌, ◌-◌, ◌*◌, ◌/◌, ◌%◌, ◌^◌, Bool}
use ece375_project.Base.{ℤ, pos, negsuc, ltb, if◌then◌else◌, ltb_ℤ, floor_div}

-- The conversions to `uint64_t` and `uint32_t`.
abbrev pub u64 : ℕ → ℕ
u64 n = n % 2 ^ 64

abbrev pub u32 : ℕ → ℕ
u32 n = n % 2 ^ 32

-- `a + b` and `a - b` on `uint64_t` and on `uint32_t`.
abbrev pub add64 : ℕ → ℕ → ℕ
add64 a b = u64 (a + b)

abbrev pub sub64 : ℕ → ℕ → ℕ
sub64 a b = u64 (a + 2 ^ 64 - b)

abbrev pub add32 : ℕ → ℕ → ℕ
add32 a b = u32 (a + b)

abbrev pub sub32 : ℕ → ℕ → ℕ
sub32 a b = u32 (a + 2 ^ 32 - b)

-- `x << k` on both widths, and `x >> k` on unsigned words, for `k` below the width.
abbrev pub shl64 : ℕ → ℕ → ℕ
shl64 x k = u64 (x * 2 ^ k)

abbrev pub shl32 : ℕ → ℕ → ℕ
shl32 x k = u32 (x * 2 ^ k)

abbrev pub shr : ℕ → ℕ → ℕ
shr x k = x / 2 ^ k

-- The integers that `(int64_t)x` and `(int32_t)x` stand for.
abbrev pub signed64 : ℕ → ℤ
signed64 x = if ltb x (2 ^ 63) then pos x else negsuc (2 ^ 64 - 1 - x)

abbrev signed32 : ℕ → ℤ
signed32 x = if ltb x (2 ^ 31) then pos x else negsuc (2 ^ 32 - 1 - x)

-- The `uint64_t` that an integer converts to.
abbrev pub of_ℤ : ℤ → ℕ
of_ℤ (pos n) = u64 n
of_ℤ (negsuc n) = 2 ^ 64 - 1 - u64 n

-- `(int64_t)x < (int64_t)y`.
abbrev pub lt_signed : ℕ → ℕ → Bool
lt_signed x y = ltb_ℤ (signed64 x) (signed64 y)

-- `(int64_t)x >> k` and `(int32_t)x >> k`, the arithmetic shifts, converted to `uint64_t`.
abbrev pub sar64 : ℕ → ℕ → ℕ
sar64 x k = of_ℤ (floor_div (signed64 x) (2 ^ k))

abbrev pub sar32 : ℕ → ℕ → ℕ
sar32 x k = of_ℤ (floor_div (signed32 x) (2 ^ k))

-- A comparison stored into a `uint64_t`.
abbrev pub of_bool : Bool → ℕ
of_bool b = if b then 1 else 0
