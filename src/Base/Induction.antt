-- ===== src/Base/Induction.antt =====
-- Induction along binary digits.
use Prim.Native.Nat.{ℕ, zero, suc, ◌/◌, ◌<◌}
use native.Mathlib.Omega.{arith}

-- From the half of a number to the number.
module _ {ℓ} (P : ℕ → Type ℓ) (base : P 0) (double : (n : ℕ) → P (n / 2) → P n) where
  halving_below : (k n : ℕ) → n < k → P n
  halving_below zero n h = absurd (omega arith)
  halving_below (suc k) zero h = base
  halving_below (suc k) (suc n) h = double (suc n) (halving_below k (suc n / 2) (omega arith))

  pub halving : (n : ℕ) → P n
  halving n = halving_below (suc n) n (omega arith)
