-- ===== src/Main/Paths.antt =====
-- What `getBaseFilename` keeps of a path.
use Prim.Native.Char.{Char, code}
use Prim.Native.String.{String, ◌++◌}
use text.Mathlib.TextLemmas.{nil-append, cons-append}
use ece375_project.Base.{ℕ, suc, ◌≡◌, ◌≢◌, refl, ap, arith, some, none, ◌==◌, false, true}
use ece375_project.Main.Arguments.{rfind, substr, get_base_filename}

-- The character does not occur.
abbrev pub HasNo : ℕ → String → Type 0
HasNo c String.[] = Unit
HasNo c (String.◌∷◌ d s) = (code d ≢ c) × HasNo c s

size : String → ℕ
size String.[] = 0
size (String.◌∷◌ d s) = suc (size s)

differ : (a b : ℕ) → a ≢ b → (a == b) ≡ false
differ a b h = ground arith

same : (a b : ℕ) → a ≡ b → (a == b) ≡ true
same a b h = ground arith

rfind-none : (c : ℕ) (s : String) → HasNo c s → rfind c s ≡ none
unfolding rfind
rfind-none c String.[] h = refl
rfind-none c (String.◌∷◌ d s) h = rw (rfind, rfind-none c s h.1, differ (code d) c h.0)

rfind-here :
    (c : ℕ) (b : String) (d : Char) → code d ≡ c → HasNo c b → rfind c (String.◌∷◌ d b) ≡ some 0
unfolding rfind
rfind-here c b d e h = rw (rfind, rfind-none c b h, same (code d) c e)

-- The last occurrence.
rfind-append :
    (c : ℕ) (a b : String) (d : Char)
    → code d ≡ c
    → HasNo c b
    → rfind c (a ++ String.◌∷◌ d b) ≡ some (size a)
unfolding rfind size
rfind-append c String.[] b d e h = rw (nil-append (String.◌∷◌ d b)) (rfind-here c b d e h)
rfind-append c (String.◌∷◌ x a) b d e h =
    rw (cons-append x a (String.◌∷◌ d b), rfind, rfind-append c a b d e h) (ap some (omega arith))

substr-append : (a b : String) → substr (size a) (a ++ b) ≡ a
unfolding substr size
substr-append String.[] b = refl
substr-append (String.◌∷◌ x a) b = rw (cons-append x a b) (ap (String.◌∷◌ x) (substr-append a b))

-- Of a path with a dot, getBaseFilename keeps what stands before the last one, and a path without
-- a dot it keeps whole.
pub get_base_filename_lem :
    (stem extension : String)
    → HasNo b'.' extension
    → (get_base_filename (stem ++ String.◌∷◌ "." extension) ≡ stem)
      × (get_base_filename extension ≡ extension)
unfolding get_base_filename
get_base_filename_lem stem extension h = (
  rw (get_base_filename, rfind-append b'.' stem extension "." refl h)
      (substr-append stem (String.◌∷◌ "." extension)),
  rw (get_base_filename, rfind-none b'.' extension h),
)
