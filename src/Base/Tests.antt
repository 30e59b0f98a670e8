-- ===== src/Base/Tests.antt =====
-- Boolean tests on native numbers, the conditional, and `switch` for a C++ switch statement.
use Prim.Native.Nat.{ℕ, compare, Ordering}
use mathlib.Core.Path.{◌≡◌, refl}
use mathlib.Core.Logic.{◌⊎◌, inl, inr}
use mathlib.Core.Bool.{Bool, true, false}
use mathlib.Core.Option.{Option, none, some}
use native.Mathlib.Omega.{arith}
use mathlib.Core.List.{List, [], ◌∷◌}

abbrev pub ltb : ℕ → ℕ → Bool
ltb a b = elim (compare a b) [ Ordering.lt ↦ true | _ ↦ false ]

abbrev pub leb : ℕ → ℕ → Bool
leb a b = elim (compare a b) [ Ordering.gt ↦ false | _ ↦ true ]

infix 50 ◌==◌
abbrev pub ◌==◌ : ℕ → ℕ → Bool
a == b = elim (compare a b) [ Ordering.eq ↦ true | _ ↦ false ]

infix 1 if◌then◌else◌
abbrev pub if◌then◌else◌ {ℓ} : {A : Type ℓ} → Bool → A → A → A
if true then x else y = x
if false then x else y = y

-- `switch (n) { case k: …; break; … default: … }`, whose cases all end in `break` or `return`.
abbrev pub switch {ℓ} : {A : Type ℓ} → ℕ → List (ℕ × A) → A → A
switch n [] d = d
switch n ((k, v) ∷ cases) d = if n == k then v else switch n cases d

pub Bool-cases : (b : Bool) → (b ≡ true) ⊎ (b ≡ false)
Bool-cases true = inl refl
Bool-cases false = inr refl

pub Option-cases {ℓ} : {A : Type ℓ} (o : Option A) → (o ≡ none) ⊎ ((a : A) × (o ≡ some a))
Option-cases none = inl refl
Option-cases (some a) = inr (a, refl)

-- What holds of each branch holds of the conditional.
pub if_both {ℓ κ} :
    {A : Type ℓ} (P : A → Type κ) (b : Bool) {x y : A} → P x → P y → P (if b then x else y)
if_both P true p q = p
if_both P false p q = q

abbrev pub AllCases {ℓ κ} : {A : Type ℓ} → (A → Type κ) → List (ℕ × A) → Type κ
AllCases P [] = Unit
AllCases P ((k, v) ∷ cases) = P v × AllCases P cases

-- The proofs for the cases of a `switch`, in their order.
infixr 20 ◌&◌
abbrev pub ◌&◌ {ℓ κ} : {A : Type ℓ} {B : Type κ} → A → B → A × B
a & b = (a, b)

-- What holds of every case and of the default holds of the `switch`.
pub switch_all {ℓ κ} :
    {A : Type ℓ} (P : A → Type κ) (n : ℕ) (cases : List (ℕ × A)) {d : A}
    → AllCases P cases
    → P d
    → P (switch n cases d)
switch_all P n [] h hd = hd
switch_all P n ((k, v) ∷ cases) h hd = if_both P (n == k) h.0 (switch_all P n cases h.1 hd)

-- What holds of the first branch under the condition, and of the second, holds of the conditional.
pub if_known {ℓ κ} :
    {A : Type ℓ} (P : A → Type κ) (b : Bool) {x y : A}
    → (b ≡ true → P x)
    → P y
    → P (if b then x else y)
if_known P true p q = p refl
if_known P false p q = q

-- The same, where each case may use its key.
abbrev pub AllKeyed {ℓ κ} : {A : Type ℓ} → (A → Type κ) → ℕ → List (ℕ × A) → Type κ
AllKeyed P n [] = Unit
AllKeyed P n ((k, v) ∷ cases) = (n ≡ k → P v) × AllKeyed P n cases

pub switch_keyed {ℓ κ} :
    {A : Type ℓ} (P : A → Type κ) (n : ℕ) (cases : List (ℕ × A)) {d : A}
    → AllKeyed P n cases
    → P d
    → P (switch n cases d)
switch_keyed P n [] h hd = hd
switch_keyed P n ((k, v) ∷ cases) h hd =
    if_known P (n == k) (λ e. h.0 (ground arith)) (switch_keyed P n cases h.1 hd)

abbrev pub mapped {ℓ κ} : {A : Type ℓ} {B : Type κ} → (A → B) → List (ℕ × A) → List (ℕ × B)
mapped g [] = []
mapped g ((k, v) ∷ cases) = (k, g v) ∷ mapped g cases

pub switch-mapped {ℓ κ} :
    {A : Type ℓ} {B : Type κ} (g : A → B) (n : ℕ) (cases : List (ℕ × A)) (d : A)
    → g (switch n cases d) ≡ switch n (mapped g cases) (g d)
switch-mapped g n [] d = refl
switch-mapped g n ((k, v) ∷ cases) d =
    elim (n == k)
      as (λ b.
        g (if b then v else switch n cases d)
        ≡ (if b then g v else switch n (mapped g cases) (g d))) [
          | true ↦ refl
          | false ↦ switch-mapped g n cases d
        ]

-- None of the cases is that of `n`.
abbrev pub NoKey {ℓ} : {A : Type ℓ} → ℕ → List (ℕ × A) → Type 0
NoKey n [] = Unit
NoKey n ((k, v) ∷ cases) = ((n == k) ≡ false) × NoKey n cases

pub switch_default {ℓ} :
    {A : Type ℓ} (n : ℕ) (cases : List (ℕ × A)) (d : A) → NoKey n cases → switch n cases d ≡ d
switch_default n [] d h = refl
switch_default n ((k, v) ∷ cases) d (h, hs) = rw h (switch_default n cases d hs)

-- The same again, where the default may use that it is reached.
pub switch_known {ℓ κ} :
    {A : Type ℓ} (P : A → Type κ) (n : ℕ) (cases : List (ℕ × A)) {d : A}
    → AllKeyed P n cases
    → (NoKey n cases → P d)
    → P (switch n cases d)
switch_known P n [] h hd = hd tt
switch_known P n ((k, v) ∷ cases) {d} h hd = elim (Bool-cases (n == k)) [
  | inl on ↦ rw on (h.0 (ground (arith, on)))
  | inr off ↦ rw off (switch_known P n cases {d = d} h.1 (λ r. hd (off, r)))
]

-- Whether a number is one of a list of codes, and a case for each of them.
abbrev pub one_of : ℕ → List ℕ → Bool
one_of n [] = false
one_of n (k ∷ codes) = if n == k then true else one_of n codes

abbrev pub AllAt {ℓ} : Type ℓ → ℕ → List ℕ → Type ℓ
AllAt P n [] = Unit
AllAt P n (k ∷ codes) = (n ≡ k → P) × AllAt P n codes

pub by_code {ℓ} :
    {P : Type ℓ} (n : ℕ) (codes : List ℕ) → one_of n codes ≡ true → AllAt P n codes → P
by_code n [] h cases = absurd cc
by_code n (k ∷ codes) h cases = elim (Bool-cases (n == k)) [
  | inl on ↦ cases.0 (ground (arith, on))
  | inr off ↦ by_code n codes (ground (arith, off, h)) cases.1
]
