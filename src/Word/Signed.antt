-- ===== src/Word/Signed.antt =====
-- The operations on words as operations on the integers that the words stand for.
use ece375_project.Base.{ℕ, ◌+◌, ◌-◌, ◌*◌, ◌^◌, ◌<◌, ◌≡◌, arith}
use native.Mathlib.Nat.{div-le_self}
use ece375_project.Base.{
  ℤ, pos, negsuc, ◌+ℤ◌, ◌-ℤ◌, floor_div, Bool, true, false, if◌then◌else◌, refl, ap, ◌∙◌, bit_or,
}
use ece375_project.Word.Fields.{bit_and_bit, bit_or_fields, bit_or-zero}
use ece375_project.Utilities.Bits.{sext64}
use ece375_project.Word.{u32, u64, add64, sub64, add32, sub32, signed64, of_ℤ, of_bool, shr}

pub add64-signed : (a b : ℕ) → a < 2 ^ 64 → b < 2 ^ 64 → add64 a b ≡ of_ℤ (signed64 a +ℤ signed64 b)
unfolding ◌+ℤ◌
add64-signed a b ha hb = ground arith

pub sub64-signed : (a b : ℕ) → a < 2 ^ 64 → b < 2 ^ 64 → sub64 a b ≡ of_ℤ (signed64 a -ℤ signed64 b)
unfolding ◌-ℤ◌
sub64-signed a b ha hb = ground arith

-- The low 32 bits do not depend on the others.
pub add32-signed :
    (a b : ℕ)
    → a < 2 ^ 64
    → b < 2 ^ 64
    → add32 (u32 a) (u32 b) ≡ u32 (of_ℤ (signed64 a +ℤ signed64 b))
unfolding ◌+ℤ◌
add32-signed a b ha hb = ground arith

pub sub32-signed :
    (a b : ℕ)
    → a < 2 ^ 64
    → b < 2 ^ 64
    → sub32 (u32 a) (u32 b) ≡ u32 (of_ℤ (signed64 a -ℤ signed64 b))
unfolding ◌-ℤ◌
sub32-signed a b ha hb = ground arith

pub signed64-of_ℤ : (a : ℕ) → a < 2 ^ 64 → of_ℤ (signed64 a) ≡ a
signed64-of_ℤ a h = ground arith

-- The same with an integer in place of a word.
pub add64-of_ℤ : (a : ℕ) (z : ℤ) → a < 2 ^ 64 → add64 a (of_ℤ z) ≡ of_ℤ (signed64 a +ℤ z)
unfolding ◌+ℤ◌
add64-of_ℤ a (pos n) ha = ground arith
add64-of_ℤ a (negsuc n) ha = ground arith

pub add32-of_ℤ :
    (a : ℕ) (z : ℤ) → a < 2 ^ 64 → add32 (u32 a) (u32 (of_ℤ z)) ≡ u32 (of_ℤ (signed64 a +ℤ z))
unfolding ◌+ℤ◌
add32-of_ℤ a (pos n) ha = ground arith
add32-of_ℤ a (negsuc n) ha = ground arith

-- A comparison as an integer.
abbrev pub truth : Bool → ℤ
truth b = if b then pos 1 else pos 0

pub of_bool-truth : (b : Bool) → of_bool b ≡ of_ℤ (truth b)
of_bool-truth true = refl
of_bool-truth false = refl

-- An integer that fits 32 bits comes back from its word.
abbrev pub Fits32 : ℤ → Type 0
Fits32 (pos n) = n < 2 ^ 31
Fits32 (negsuc n) = n < 2 ^ 31

pub signed64-back : (z : ℤ) → Fits32 z → signed64 (of_ℤ z) ≡ z
signed64-back (pos n) h = ground arith
signed64-back (negsuc n) h = ground arith

pub u64_small : (n : ℕ) → n < 2 ^ 64 → n ≡ u64 n
u64_small n h = omega arith

pub shr-lt : (n k m : ℕ) → n < m → shr n k < m
shr-lt n k m h = omega (arith, div-le_self n (2 ^ k), h)

pub floor_div-Fits32 : (z : ℤ) (k : ℕ) → Fits32 z → Fits32 (floor_div z (2 ^ k))
floor_div-Fits32 (pos n) k h = shr-lt n k _ h
floor_div-Fits32 (negsuc n) k h = shr-lt n k _ h

-- The extension of a word whose upper bits are its sign already.
pub sext64-of_ℤ : (z : ℤ) → Fits32 z → sext64 (of_ℤ z) 31 ≡ of_ℤ z
unfolding sext64
sext64-of_ℤ (pos n) h = ground (arith, bit_and_bit 31 (of_ℤ (pos n)))
sext64-of_ℤ (negsuc n) h =
    ground (arith, bit_and_bit 31 (of_ℤ (negsuc n)), ones (2 ^ 32 - 1 - n) (omega arith))
  where
    ones :
        (r : ℕ)
        → r < 2 ^ 32
        → bit_or ((2 ^ 32 - 1) * 2 ^ 32 + r) ((2 ^ 32 - 1) * 2 ^ 32 + 0) ≡ (2 ^ 32 - 1) * 2 ^ 32 + r
    ones r h =
        (bit_or_fields 32 (2 ^ 32 - 1) (2 ^ 32 - 1) r 0 h (omega arith)).0
        ∙ ap (λ (t : ℕ). (2 ^ 32 - 1) * 2 ^ 32 + t) (bit_or-zero r)
