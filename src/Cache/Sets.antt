-- ===== src/Cache/Sets.antt =====
-- One set of the cache: which tags it holds before and after an access.
use ece375_project.Base.{ℕ, zero, suc, ◌+◌, ◌≤◌, ◌<◌, ◌≡◌, ◌≢◌, refl, ◌∙◌, arith, ◌⊎◌, inl, inr}
use ece375_project.Base.{Bool, true, false, ◌&&◌, ◌||◌, ltb, ◌==◌}
use ece375_project.Base.{
  none, some, List, [], ◌∷◌, length, replicate, get_elem?, set, All, Bool-cases,
}
use ece375_project.Cache.{
  CacheLine, empty_line, probe, find_invalid, oldest, int_rounds, evict, stamp,
}
use ece375_project.Base.{◌-◌, ◌^◌, ap, sym, take, take_all}

-- Some valid line of the set has the tag.
unfoldable pub holds : ℕ → List CacheLine → Bool
holds tag [] = false
holds tag (line ∷ lines) = (line.is_valid && line.tag == tag) || holds tag lines

-- The probing loop finds a way exactly if the set holds the tag; the way is one with the tag.
pub probe-none :
    (way tag : ℕ) (lines : List CacheLine) → holds tag lines ≡ false → probe way tag lines ≡ none
unfolding probe holds
probe-none way tag [] h = refl
probe-none way tag (line ∷ lines) h = ground (arith, probe-none (suc way) tag lines)

-- The line that a hit stamps.
pub record IsHit (tag : ℕ) (lines : List CacheLine) (i : ℕ) : Type 0 where
  pub line : CacheLine
  pub there : get_elem? lines i ≡ some line
  pub valid : line.is_valid ≡ true
  pub same_tag : line.tag ≡ tag

pub probe-IsHit :
    (way tag : ℕ) (lines : List CacheLine)
    → holds tag lines ≡ true
    → (i : ℕ) × (probe way tag lines ≡ some (way + i)) × IsHit tag lines i
unfolding probe holds
probe-IsHit way tag [] h = absurd (cc)
probe-IsHit way tag (line ∷ lines) h = elim (Bool-cases (line.is_valid && line.tag == tag)) [
  | inl here ↦ (
    0,
    ground arith,
    record { line = line; there = refl; valid = ground arith; same_tag = ground arith },
  )
  | inr on ↦
      let (i, found, hit) = probe-IsHit (suc way) tag lines (ground arith) in
      (
        suc i,
        ground (arith, found),
        record { line = hit.line; there = hit.there; valid = hit.valid; same_tag = hit.same_tag },
      )
]

-- A new time stamp changes no tag.
pub holds-stamp :
    (t : ℕ) (lines : List CacheLine) (way now : ℕ) → holds t (stamp lines way now) ≡ holds t lines
unfolding holds stamp
holds-stamp t [] way now = refl
holds-stamp t (line ∷ lines) zero now = refl
holds-stamp t (line ∷ lines) (suc way) now = rw (holds-stamp t lines way now) refl

-- Filling a way: its own tag is held, its old one is not looked at, every other is as before.
pub holds-set_self :
    (lines : List CacheLine) (i : ℕ) (new : CacheLine)
    → new.is_valid ≡ true
    → i < length lines
    → holds new.tag (set lines i new) ≡ true
unfolding holds
holds-set_self [] i new v h = absurd (omega arith)
holds-set_self (line ∷ lines) zero new v h = ground arith
holds-set_self (line ∷ lines) (suc i) new v h = ground (arith, holds-set_self lines i new v)

pub holds-set_other :
    (t : ℕ) (lines : List CacheLine) (i : ℕ) (old new : CacheLine)
    → get_elem? lines i ≡ some old
    → new.tag ≢ t
    → (old.is_valid && old.tag == t) ≡ false
    → holds t (set lines i new) ≡ holds t lines
unfolding holds
holds-set_other t [] i old new e ne gone = cc
holds-set_other t (line ∷ lines) zero old new e ne gone = ground arith
holds-set_other t (line ∷ lines) (suc i) old new e ne gone =
    ground (arith, holds-set_other t lines i old new e ne gone)

-- The way to fill when one is free.
pub find_invalid-some :
    (way : ℕ) (lines : List CacheLine) (r : ℕ)
    → find_invalid way lines ≡ some r
    → (i : ℕ) × (old : CacheLine) × (r ≡ way + i)
      × (get_elem? lines i ≡ some old)
      × (old.is_valid ≡ false)
unfolding find_invalid
find_invalid-some way [] r e = absurd (cc)
find_invalid-some way (line ∷ lines) r e = elim (Bool-cases line.is_valid) [
  | inl on ↦
      let (i, old, at, there, free) = find_invalid-some (suc way) lines r (ground arith) in
      (suc i, old, omega arith, there, free)
  | inr off ↦ (0, line, ground arith, refl, off)
]

pub find_invalid-none :
    (way : ℕ) (lines : List CacheLine)
    → find_invalid way lines ≡ none
    → All (λ line. line.is_valid ≡ true) lines
unfolding find_invalid
find_invalid-none way [] e = tt
find_invalid-none way (line ∷ lines) e =
    (ground arith, find_invalid-none (suc way) lines (ground arith))

-- Way `i` holds a line that is no younger than any of the set.
pub record IsOldest (lines : List CacheLine) (i : ℕ) : Type 0 where
  pub line : CacheLine
  pub there : get_elem? lines i ≡ some line
  pub least : All (λ other. line.lru_timestamp ≤ other.lru_timestamp) lines

oldest_younger :
    (way m v : ℕ) (line : CacheLine) (lines : List CacheLine)
    → ltb line.lru_timestamp m ≡ true
    → oldest way m v (line ∷ lines) ≡ oldest (suc way) line.lru_timestamp way lines
unfolding oldest
oldest_younger way m v line lines h = ground arith

oldest_kept :
    (way m v : ℕ) (line : CacheLine) (lines : List CacheLine)
    → ltb line.lru_timestamp m ≡ false
    → oldest way m v (line ∷ lines) ≡ oldest (suc way) m v lines
unfolding oldest
oldest_kept way m v line lines h = ground arith

oldest_lem :
    (way m v : ℕ) (lines : List CacheLine)
    → ((oldest way m v lines ≡ v) × All (λ other. m ≤ other.lru_timestamp) lines)
      ⊎ ((i : ℕ) × (oldest way m v lines ≡ way + i)
          × ((o : IsOldest lines i) × (o.line.lru_timestamp ≤ m)))
unfolding oldest
oldest_lem way m v [] = inl (refl, tt)
oldest_lem way m v (line ∷ lines) = elim (Bool-cases (ltb line.lru_timestamp m)) [
  | inl less ↦ elim (oldest_lem (suc way) line.lru_timestamp way lines) [
    | inl (found, all) ↦ inr (
      0,
      oldest_younger way m v line lines less ∙ found ∙ omega arith,
      (record { line = line; there = refl; least = (omega arith, all) }, ground arith),
    )
    | inr (i, found, (o, small)) ↦ inr (
      suc i,
      oldest_younger way m v line lines less ∙ found ∙ omega arith,
      (record { line = o.line; there = o.there; least = (small, o.least) }, ground arith),
    )
  ]
  | inr more ↦ elim (oldest_lem (suc way) m v lines) [
    | inl (found, all) ↦ inl (oldest_kept way m v line lines more ∙ found, (ground arith, all))
    | inr (i, found, (o, small)) ↦ inr (
      suc i,
      oldest_kept way m v line lines more ∙ found ∙ omega arith,
      (record { line = o.line; there = o.there; least = (ground arith, o.least) }, small),
    )
  ]
]

-- Of fewer than 2 ^ 31 ways the loops look at all.
pub int_rounds_lem : (ways : ℕ) → ways < 2 ^ 31 → int_rounds ways ≡ ways
unfolding int_rounds
int_rounds_lem ways small = ground arith

pub looks_at_all :
    (ways : ℕ) (lines : List CacheLine)
    → ways < 2 ^ 31
    → length lines ≡ ways
    → take (int_rounds ways) lines ≡ lines
looks_at_all ways lines small whole =
    take_all (int_rounds ways) lines (omega (arith, int_rounds_lem ways small))

evict-cons :
    (ways : ℕ) (line : CacheLine) (lines : List CacheLine)
    → ways < 2 ^ 31
    → suc (length lines) ≡ ways
    → evict ways (line ∷ lines) ≡ some (oldest 1 line.lru_timestamp 0 lines)
unfolding evict
evict-cons ways line lines small whole =
    let all : take (int_rounds ways - 1) lines ≡ lines =
      take_all (int_rounds ways - 1) lines (omega (arith, int_rounds_lem ways small)) in
    ap (λ ls. some (oldest 1 line.lru_timestamp 0 ls)) all

pub evict_lem :
    (ways : ℕ) (lines : List CacheLine) (r : ℕ)
    → ways < 2 ^ 31
    → length lines ≡ ways
    → evict ways lines ≡ some r
    → IsOldest lines r
evict_lem ways [] r small whole e = absurd (unfold evict in cc)
evict_lem ways (line ∷ lines) r small whole e' =
    let e : some (oldest 1 line.lru_timestamp 0 lines) ≡ some r =
      sym (evict-cons ways line lines small whole) ∙ e' in
    elim (oldest_lem 1 line.lru_timestamp 0 lines) [
      | inl (found, all) ↦
          let at : r ≡ 0 = ground arith in
          rw at (record { line = line; there = refl; least = (omega arith, all) })
      | inr (i, found, (o, small)) ↦
          let at : r ≡ suc i = ground arith in
          rw at (record { line = o.line; there = o.there; least = (small, o.least) })
    ]

-- A set of empty lines holds nothing.
pub empty_set : (t n : ℕ) → holds t (replicate n empty_line) ≡ false
unfolding holds
empty_set t zero = refl
empty_set t (suc n) = empty_set t n
