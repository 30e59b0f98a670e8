-- ===== src/Tests/Readers.antt =====
-- A stream that is a list of numbers.
use ece375_project.Base.{
  ℕ, ◌-◌, ◌^◌, ◌<◌, ◌≡◌, refl, arith, Bool, true, false, not, ltb, if◌then◌else◌, List, [], ◌∷◌,
  length,
}
use ece375_project.Streams.{Reader, IsReader}

-- A stream that has failed or not, with the numbers left.
abbrev pub Numbers : Type 0
Numbers = Bool × List ℕ

unfoldable pub read_number : ℕ → ℕ → Numbers → ℕ × Numbers
read_number w v (true, ns) = (v, (true, ns))
read_number w v (false, []) = (v, (true, []))
read_number w v (false, n ∷ ns) =
    if ltb n (2 ^ w) then (n, (false, ns)) else (2 ^ w - 1, (true, ns))

abbrev pub reader : Reader Numbers
reader = record {
  good = λ s. not s.0;
  extract_hex = read_number;
  extract = read_number;
  skip_line = λ s. s;
}

pub reader-IsReader : IsReader reader (λ s. length s.1)
unfolding read_number
reader-IsReader = record { failed = failed; takes = takes; in_range = in_range }
  where
    failed : (w v : ℕ) (s : Numbers) → reader.good s ≡ false → read_number w v s ≡ (v, s)
    failed w v (true, ns) e = refl
    failed w v (false, ns) e = absurd (cc e)

    takes :
        (w v : ℕ) (s : Numbers)
        → reader.good (read_number w v s).1 ≡ true
        → length (read_number w v s).1.1 < length s.1
    takes w v (true, ns) e = absurd (cc e)
    takes w v (false, []) e = absurd (cc e)
    takes w v (false, n ∷ ns) e = ground arith

    in_range :
        (w v : ℕ) (s : Numbers)
        → reader.good (read_number w v s).1 ≡ true
        → (read_number w v s).0 < 2 ^ w
    in_range w v (true, ns) e = absurd (cc e)
    in_range w v (false, []) e = absurd (cc e)
    in_range w v (false, n ∷ ns) e = ground arith
