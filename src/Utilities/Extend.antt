-- ===== src/Utilities/Extend.antt =====
-- What `sext32` and `sext64` compute: the word of the same signed integer.
use native.Mathlib.Nat.{
  pow-suc, pow-le-pow_right, mul-add-mod_self_left, mod-eq_of_lt, div-eq_of_lt-le,
}
use native.Mathlib.Nat.{div-eq_of_lt, mul_comm}
use ece375_project.Base.{ℕ, zero, suc, ◌+◌, ◌-◌, ◌*◌, ◌%◌, ◌^◌, ◌≤◌, ◌<◌, ◌≡◌, ap, sym, ◌∙◌, arith}
use ece375_project.Base.{bit_and, bit_or, ltb, if◌then◌else◌, ◌==◌}
use ece375_project.Base.{ℤ, pos, negsuc}
use ece375_project.Word.{u32, of_ℤ}
use ece375_project.Word.Fields.{bit_and_bit, bit_or_below, pow_pos}
use ece375_project.Utilities.Bits.{sext32, sext64}

pub pow-add : (a b : ℕ) → 2 ^ (a + b) ≡ 2 ^ a * 2 ^ b
pow-add a zero = rw ((let e : a + 0 ≡ a = omega arith in e)) (omega arith)
pow-add a (suc b) =
    let e : a + suc b ≡ suc (a + b) = omega arith in
    rw e (omega (arith, pow-suc 2 (a + b), ap (λ (t : ℕ). 2 ^ a * t) (pow-suc 2 b), pow-add a b))

-- The integer that the low `s + 1` bits stand for, bit `s` being the sign.
abbrev pub signed_at : ℕ → ℕ → ℤ
signed_at s imm = if ltb imm (2 ^ s) then pos imm else negsuc (2 ^ (s + 1) - 1 - imm)

-- The bit `s` of an immediate of `s + 1` bits is set when the immediate is not below 2 ^ s.
sign_bit :
    (s imm : ℕ) → imm < 2 ^ (s + 1) → bit_and imm (2 ^ s) ≡ (if ltb imm (2 ^ s) then 0 else 2 ^ s)
sign_bit s imm h = ground (
  arith,
  bit_and_bit s imm,
  pow-add s 1,
  div-eq_of_lt {n = imm} {m = 2 ^ s},
  div-eq_of_lt-le {k = 1} (2 ^ s) {m = imm},
)

-- All bits above the low `p`, in a word of `p + t` bits.
suc_sub_one : (n : ℕ) → suc n - 1 ≡ n
suc_sub_one n = omega arith

word_ones : (a b : ℕ) → 0 < a → 0 < b → (a * b - 1) * a % (a * b) ≡ (b - 1) * a
word_ones (suc a) (suc b) ha hb =
    let e : suc a * suc b ≡ suc (a * b + a + b) = omega arith in
    let m : ℕ = a * b + a + b in
    let split : m * suc a ≡ suc m * a + b * suc a = omega arith in
    rw (e, suc_sub_one m, split, mul-add-mod_self_left (suc m) a (b * suc a), suc_sub_one b)
      (mod-eq_of_lt (omega arith))
word_ones zero b ha hb = absurd (omega arith)
word_ones (suc a) zero ha hb = absurd (omega arith)

predecessor : (a b : ℕ) → 0 < a → (a - 1) * b + b ≡ a * b
predecessor zero b h = absurd (omega arith)
predecessor (suc a) b h = let e : suc a - 1 ≡ a = omega arith in rw e (omega arith)

high_ones : (p t : ℕ) → (2 ^ (p + t) - 1) * 2 ^ p % 2 ^ (p + t) ≡ (2 ^ t - 1) * 2 ^ p
high_ones p t = rw (pow-add p t) (word_ones (2 ^ p) (2 ^ t) (pow_pos p) (pow_pos t))

-- The body of both functions, in a word of `s + 1 + t` bits.
extend :
    (s t imm : ℕ)
    → imm < 2 ^ (s + 1)
    → (if bit_and imm (1 * 2 ^ s % 2 ^ (s + 1 + t)) == 0
        then imm
        else bit_or imm ((2 ^ (s + 1 + t) - 1) * 2 ^ (s + 1) % 2 ^ (s + 1 + t)))
      ≡ (if ltb imm (2 ^ s) then imm else imm + 2 ^ (s + 1 + t) - 2 ^ (s + 1))
extend s t imm fits =
    rw (single, high_ones (s + 1) t, sign_bit s imm fits, bit_or_below (s + 1) (2 ^ t - 1) imm fits)
      (ground (arith, pow_pos s, sum))
  where
    single : 1 * 2 ^ s % 2 ^ (s + 1 + t) ≡ 2 ^ s
    single = ground (
      arith,
      pow_pos s,
      pow_pos t,
      pow-le-pow_right {n = 2} (omega arith) {i = s + 1} {j = s + 1 + t} (omega arith),
      pow-add s 1,
      mod-eq_of_lt {n = 1 * 2 ^ s} {m = 2 ^ (s + 1 + t)},
    )

    sum : (2 ^ t - 1) * 2 ^ (s + 1) + 2 ^ (s + 1) ≡ 2 ^ (s + 1 + t)
    sum = predecessor (2 ^ t) (2 ^ (s + 1)) (pow_pos t) ∙ mul_comm _ _ ∙ sym (pow-add (s + 1) t)

pub of_ℤ-lt : (n : ℤ) → of_ℤ n < 2 ^ 64
of_ℤ-lt (pos n) = omega arith
of_ℤ-lt (negsuc n) = omega arith

-- For s below 63 and a value of s + 1 bits, sext64 gives the 64-bit word of the signed integer
-- that the s + 1 bits stand for.
pub sext64-eq-signed :
    (s imm : ℕ) → s < 63 → imm < 2 ^ (s + 1) → sext64 imm s ≡ of_ℤ (signed_at s imm)
unfolding sext64
sext64-eq-signed s imm below fits =
    let e : s + 1 + (63 - s) ≡ 64 = omega arith in
    let low : 2 ^ (s + 1) ≤ 2 ^ 63 =
      pow-le-pow_right {n = 2} (omega arith) {i = s + 1} {j = 63} (omega arith) in
    (rw e at (extend s (63 - s) imm fits)) ∙ ground (arith, low, pow-add s 1)

-- For s below 31 and a value of s + 1 bits, sext32 gives the 32-bit word of the signed integer
-- that the s + 1 bits stand for.
pub sext32-eq-signed :
    (s imm : ℕ) → s < 31 → imm < 2 ^ (s + 1) → sext32 imm s ≡ u32 (of_ℤ (signed_at s imm))
unfolding sext32
sext32-eq-signed s imm below fits =
    let e : s + 1 + (31 - s) ≡ 32 = omega arith in
    let low : 2 ^ (s + 1) ≤ 2 ^ 31 =
      pow-le-pow_right {n = 2} (omega arith) {i = s + 1} {j = 31} (omega arith) in
    (rw e at (extend s (31 - s) imm fits)) ∙ ground (arith, low, pow-add s 1)
