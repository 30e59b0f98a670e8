-- ===== src/Word/Digits.antt =====
-- The lowest binary digit of `&`, `|` and `^` at variables: the native operations stand for a
-- recursion over binary digits with fuel, and the fuel does not matter once it is enough.
use Prim.Native.Nat.{digits, bitwise, bit_and-bitwise, bit_or-bitwise, bit_xor-bitwise, differ}
use ece375_project.Base.{ℕ, zero, suc, ◌+◌, ◌*◌, ◌/◌, ◌%◌, ◌≤◌, min, max, halving}
use ece375_project.Base.{bit_and, bit_or, bit_xor, ◌≡◌, refl, sym, ◌∙◌, arith}

-- The operation works on the lowest digits and on the rest by itself.
abbrev pub Stepwise : (ℕ → ℕ → ℕ) → (ℕ → ℕ → ℕ) → Type 0
Stepwise op digit = (x y : ℕ) → op x y ≡ op (x / 2) (y / 2) * 2 + digit (x % 2) (y % 2)

module _ (rest : ℕ → ℕ) (digit : ℕ → ℕ → ℕ) where
  no_digits : (fuel y : ℕ) → digits rest digit fuel 0 y ≡ rest y
  no_digits zero y = refl
  no_digits (suc fuel) y = refl

  -- Two amounts of fuel that are both enough.
  Enough : ℕ → Type 0
  Enough x =
      (y fuel fuel' : ℕ)
      → x ≤ fuel
      → x ≤ fuel'
      → digits rest digit fuel x y ≡ digits rest digit fuel' x y

  double-Enough : (x : ℕ) → Enough (x / 2) → Enough x
  unfolding Enough
  double-Enough zero half y fuel fuel' h h' = no_digits fuel y ∙ sym (no_digits fuel' y)
  double-Enough (suc x) half y zero fuel' h h' = absurd (omega arith)
  double-Enough (suc x) half y (suc fuel) zero h h' = absurd (omega arith)
  double-Enough (suc x) half y (suc fuel) (suc fuel') h h' =
      rw (half (y / 2) fuel fuel' (omega arith) (omega arith)) refl

  all-Enough : (x : ℕ) → Enough x
  unfolding Enough
  all-Enough =
      halving Enough (λ y fuel fuel' h h'. no_digits fuel y ∙ sym (no_digits fuel' y)) double-Enough

  bitwise-Stepwise :
      (x y : ℕ)
      → bitwise rest digit (suc x) y
        ≡ bitwise rest digit (suc x / 2) (y / 2) * 2 + digit (suc x % 2) (y % 2)
  unfolding Enough
  bitwise-Stepwise x y =
      let same = all-Enough (suc x / 2) (y / 2) x (suc x / 2) (omega arith) (omega arith) in
      omega (arith, same)

pub bit_and-Stepwise : Stepwise bit_and min
bit_and-Stepwise zero y = simp bit_and-bitwise (omega arith)
bit_and-Stepwise (suc x) y = simp bit_and-bitwise (bitwise-Stepwise (λ _. 0) min x y)

pub bit_or-Stepwise : Stepwise bit_or max
bit_or-Stepwise zero y = simp bit_or-bitwise (omega arith)
bit_or-Stepwise (suc x) y = simp bit_or-bitwise (bitwise-Stepwise (λ y. y) max x y)

pub bit_xor-Stepwise : Stepwise bit_xor differ
bit_xor-Stepwise zero y = simp bit_xor-bitwise (omega arith)
bit_xor-Stepwise (suc x) y = simp bit_xor-bitwise (bitwise-Stepwise (λ y. y) differ x y)
