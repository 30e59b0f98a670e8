-- ===== src/Word/Fields.antt =====
-- `&`, `|` and `^` act on each group of adjacent bits by itself; so masks are remainders, `|` of
-- disjoint fields is a sum, and no operation leaves the width of its operands.
use Prim.Native.Nat.{differ, bit_or-bitwise}
use native.Mathlib.Nat.{pow-suc, one-le-pow, div-add-mod', mod-lt}
use ece375_project.Base.{ℕ, zero, suc, ◌+◌, ◌-◌, ◌*◌, ◌/◌, ◌%◌, ◌^◌, ◌<◌, min, max}
use ece375_project.Base.{bit_and, bit_or, bit_xor, ◌≡◌, refl, ap, arith, halving}
use ece375_project.Word.Digits.{Stepwise, bit_and-Stepwise, bit_or-Stepwise, bit_xor-Stepwise}

double_pow : (q k : ℕ) → q * 2 ^ suc k ≡ 2 * (q * 2 ^ k)
double_pow q k = omega (arith, ap (λ (t : ℕ). q * t) (pow-suc 2 k))

pub pow_pos : (k : ℕ) → 0 < 2 ^ k
pow_pos k = one-le-pow k 2 (omega arith)

-- Any operation that works digit by digit works field by field.
module _ (op digit : ℕ → ℕ → ℕ) (blank : op 0 0 ≡ 0) (step : Stepwise op digit)
    (binary : (a b : ℕ) → a < 2 → b < 2 → digit a b < 2) where
  abbrev Splits : ℕ → ℕ → ℕ → ℕ → ℕ → Type 0
  Splits k q q' r r' =
      (op (q * 2 ^ k + r) (q' * 2 ^ k + r') ≡ op q q' * 2 ^ k + op r r') × (op r r' < 2 ^ k)

  op_fields : (k q q' r r' : ℕ) → r < 2 ^ k → r' < 2 ^ k → Splits k q q' r r'
  op_fields zero q q' zero zero h h' =
      let left : q * 2 ^ 0 + 0 ≡ q = omega arith in
      let right : q' * 2 ^ 0 + 0 ≡ q' = omega arith in
      (rw (left, right, blank) (omega arith), omega (arith, blank))
  op_fields zero q q' zero (suc r') h h' = absurd (omega arith)
  op_fields zero q q' (suc r) r' h h' = absurd (omega arith)
  op_fields (suc k) q q' r r' h h' = ground (
    arith,
    step (q * 2 ^ suc k + r) (q' * 2 ^ suc k + r'),
    step r r',
    double_pow q k,
    double_pow q' k,
    double_pow (op q q') k,
    pow-suc 2 k,
    binary (r % 2) (r' % 2) (omega arith) (omega arith),
    op_fields k q q' (r / 2) (r' / 2) (omega (arith, pow-suc 2 k)) (omega (arith, pow-suc 2 k)),
  )

bit_and_fields :
    (k q q' r r' : ℕ)
    → r < 2 ^ k
    → r' < 2 ^ k
    → (bit_and (q * 2 ^ k + r) (q' * 2 ^ k + r') ≡ bit_and q q' * 2 ^ k + bit_and r r')
      × (bit_and r r' < 2 ^ k)
bit_and_fields = op_fields bit_and min refl bit_and-Stepwise (λ a b p q. omega arith)

pub bit_or_fields :
    (k q q' r r' : ℕ)
    → r < 2 ^ k
    → r' < 2 ^ k
    → (bit_or (q * 2 ^ k + r) (q' * 2 ^ k + r') ≡ bit_or q q' * 2 ^ k + bit_or r r')
      × (bit_or r r' < 2 ^ k)
bit_or_fields = op_fields bit_or max refl bit_or-Stepwise (λ a b p q. omega arith)

differ_binary : (a b : ℕ) → a < 2 → b < 2 → differ a b < 2
differ_binary zero zero p q = omega arith
differ_binary zero (suc zero) p q = omega arith
differ_binary (suc zero) zero p q = omega arith
differ_binary (suc zero) (suc zero) p q = omega arith
differ_binary zero (suc (suc b)) p q = absurd (omega arith)
differ_binary (suc zero) (suc (suc b)) p q = absurd (omega arith)
differ_binary (suc (suc a)) b p q = absurd (omega arith)

bit_xor_fields :
    (k q q' r r' : ℕ)
    → r < 2 ^ k
    → r' < 2 ^ k
    → (bit_xor (q * 2 ^ k + r) (q' * 2 ^ k + r') ≡ bit_xor q q' * 2 ^ k + bit_xor r r')
      × (bit_xor r r' < 2 ^ k)
bit_xor_fields = op_fields bit_xor differ refl bit_xor-Stepwise differ_binary

-- The neutral and the absorbing operand.
pub bit_or-zero : (a : ℕ) → bit_or a 0 ≡ a
bit_or-zero =
    halving (λ x. bit_or x 0 ≡ x) refl (λ x half. ground (arith, bit_or-Stepwise x 0, half))

zero-bit_or : (b : ℕ) → bit_or 0 b ≡ b
zero-bit_or b = bit_or-bitwise 0 b

bit_and-zero : (a : ℕ) → bit_and a 0 ≡ 0
bit_and-zero =
    halving (λ x. bit_and x 0 ≡ 0) refl (λ x half. ground (arith, bit_and-Stepwise x 0, half))

bit_and_ones : (k r : ℕ) → r < 2 ^ k → bit_and r (2 ^ k - 1) ≡ r
bit_and_ones zero r h = rw bit_and-zero (omega arith)
bit_and_ones (suc k) r h = ground (
  arith,
  pow-suc 2 k,
  pow_pos k,
  bit_and-Stepwise r (2 ^ suc k - 1),
  bit_and_ones k (r / 2) (omega (arith, pow-suc 2 k)),
)

bit_or_ones : (k r : ℕ) → r < 2 ^ k → bit_or r (2 ^ k - 1) ≡ 2 ^ k - 1
bit_or_ones zero r h = rw bit_or-zero (omega arith)
bit_or_ones (suc k) r h = ground (
  arith,
  pow-suc 2 k,
  pow_pos k,
  bit_or-Stepwise r (2 ^ suc k - 1),
  bit_or_ones k (r / 2) (omega (arith, pow-suc 2 k)),
)

-- A mask of `k` ones takes the remainder by `2 ^ k`.
pub bit_and_mask : (k a : ℕ) → bit_and a (2 ^ k - 1) ≡ a % 2 ^ k
bit_and_mask k a = ground (
  arith,
  pow_pos k,
  div-add-mod' a (2 ^ k),
  mod-lt a (pow_pos k),
  bit_and_fields k (a / 2 ^ k) 0 (a % 2 ^ k) (2 ^ k - 1) (mod-lt a (pow_pos k))
      (omega (arith, pow_pos k)),
  bit_and-zero (a / 2 ^ k),
  bit_and_ones k (a % 2 ^ k) (mod-lt a (pow_pos k)),
)

bit_and-one : (a : ℕ) → bit_and a 1 ≡ a % 2
bit_and-one a = bit_and_mask 1 a

-- A mask of the one bit `k`.
pub bit_and_bit : (k a : ℕ) → bit_and a (2 ^ k) ≡ a / 2 ^ k % 2 * 2 ^ k
bit_and_bit k a = ground (
  arith,
  div-add-mod' a (2 ^ k),
  bit_and_fields k (a / 2 ^ k) 1 (a % 2 ^ k) 0 (mod-lt a (pow_pos k)) (pow_pos k),
  bit_and-zero (a % 2 ^ k),
  bit_and-one (a / 2 ^ k),
)

-- `|` of disjoint fields is their sum, in either order.
pub bit_or_above : (k q r : ℕ) → r < 2 ^ k → bit_or (q * 2 ^ k) r ≡ q * 2 ^ k + r
bit_or_above k q r h =
    ground (arith, bit_or_fields k q 0 0 r (pow_pos k) h, bit_or-zero q, zero-bit_or r)

pub bit_or_below : (k q r : ℕ) → r < 2 ^ k → bit_or r (q * 2 ^ k) ≡ q * 2 ^ k + r
bit_or_below k q r h =
    ground (arith, bit_or_fields k 0 q r 0 h (pow_pos k), bit_or-zero r, zero-bit_or q)

-- No operation leaves the width of its operands.
module _ (k a b : ℕ) (ha : a < 2 ^ k) (hb : b < 2 ^ k) where
  pub bit_and-lt : bit_and a b < 2 ^ k
  bit_and-lt = (bit_and_fields k 0 0 a b ha hb).1

  pub bit_or-lt : bit_or a b < 2 ^ k
  bit_or-lt = (bit_or_fields k 0 0 a b ha hb).1

  pub bit_xor-lt : bit_xor a b < 2 ^ k
  bit_xor-lt = (bit_xor_fields k 0 0 a b ha hb).1
