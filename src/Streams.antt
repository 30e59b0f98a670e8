-- ===== src/Streams.antt =====
-- `std::ifstream` and the files of a directory, as the sources use them. Neither is code of this
-- repository, so both are parameters.
use Prim.Native.String.{String}
use ece375_project.Base.{ℕ, ◌^◌, ◌<◌, ◌≡◌, Bool, true, false, Option, List}

-- A stream as a condition, `>>` into an unsigned number of so many bits that holds a value, with and
-- without `std::hex`, and `std::getline` into a string that is not looked at.
pub record Reader (S : Type 0) : Type 0 where
  pub good : S → Bool
  pub extract_hex : ℕ → ℕ → S → ℕ × S
  pub extract : ℕ → ℕ → S → ℕ × S
  pub skip_line : S → S

-- What the standard says of `>>`: a stream that has failed stays as it is, and so does the variable;
-- an extraction that succeeds takes at least one of the characters left and gives a value in range.
pub record IsReader {S : Type 0} (r : Reader S) (left : S → ℕ) : Type 0 where
  pub failed : (w v : ℕ) (s : S) → r.good s ≡ false → r.extract_hex w v s ≡ (v, s)
  pub takes :
      (w v : ℕ) (s : S)
      → r.good (r.extract_hex w v s).1 ≡ true
      → left (r.extract_hex w v s).1 < left s
  pub in_range :
      (w v : ℕ) (s : S) → r.good (r.extract_hex w v s).1 ≡ true → (r.extract_hex w v s).0 < 2 ^ w

-- The text files and the bytes of a file, `none` where it does not open, and whether a file can be
-- opened for writing.
pub record Files (S : Type 0) : Type 0 where
  pub text : String → Option S
  pub bytes : String → Option (List ℕ)
  pub writable : String → Bool
