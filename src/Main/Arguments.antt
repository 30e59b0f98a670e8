-- ===== src/Main/Arguments.antt =====
-- `getBaseFilename` of src/Utilities.h and `parseArgs` of src/sim_cycle.cpp.
pub mod Configs
use Prim.Native.Char.{code}
use Prim.Native.String.{String}
use ece375_project.Base.{ℕ, zero, suc, ◌+◌, List, [], ◌∷◌, Option, none, some, ◌==◌, if◌then◌else◌}
use ece375_project.Streams.{Reader, Files}
use ece375_project.Cache.{CacheConfig}

-- `path.rfind(c)` and `path.substr(0, n)`.
unfoldable pub rfind : ℕ → String → Option ℕ
rfind c String.[] = none
rfind c (String.◌∷◌ d s) = elim (rfind c s) [
  | some i ↦ some (i + 1)
  | none ↦ if code d == c then some 0 else none
]

unfoldable pub substr : ℕ → String → String
substr zero s = String.[]
substr (suc n) String.[] = String.[]
substr (suc n) (String.◌∷◌ d s) = String.◌∷◌ d (substr n s)

unfoldable pub get_base_filename : String → String
get_base_filename path = elim (rfind b'.' path) [ some end ↦ substr end path | none ↦ path ]

-- What reads from a stream and may throw.
abbrev pub Parser : Type 0 → Type 0 → Type 0
Parser S A = S → Option (A × S)

infixl 5 ◌>>=◌
abbrev pub ◌>>=◌ : {S A B : Type 0} → Parser S A → (A → Parser S B) → Parser S B
◌>>=◌ p f s = elim (p s) [ none ↦ none | some (a, s') ↦ f a s' ]

abbrev give : {S A : Type 0} → A → Parser S A
give a s = some (a, s)

module _ {S : Type 0} (r : Reader S) where
  -- A number of 32 bits, and the rest of its line dropped; `none` is the exception.
  unfoldable pub parse_next_line : Parser S ℕ
  parse_next_line s =
      let (value, s') = r.extract 32 0 s in if r.good s' then some (value, r.skip_line s') else none

  unfoldable pub parse_config : Parser S CacheConfig
  parse_config = do
    size ← parse_next_line
    block ← parse_next_line
    ways ← parse_next_line
    latency ← parse_next_line
    give (record { cache_size = size; block_size = block; ways = ways; miss_latency = latency })

  unfoldable pub parse_configs : Parser S (CacheConfig × CacheConfig)
  parse_configs = do ic_config ← parse_config; dc_config ← parse_config; give (ic_config, dc_config)

  -- `none` is `exit(ERROR)`.
  unfoldable pub parse_args : Files S → List String → Option (String × CacheConfig × CacheConfig)
  parse_args files (program ∷ input_file ∷ cache_file ∷ []) = elim (files.text cache_file) [
    | none ↦ none
    | some s ↦ elim (parse_configs s) [
      | none ↦ none
      | some (configs, s') ↦ some (input_file, configs.0, configs.1)
    ]
  ]
  parse_args files args = none
