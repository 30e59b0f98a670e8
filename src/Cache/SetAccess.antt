-- ===== src/Cache/SetAccess.antt =====
-- An access to one set of the cache: when it hits, and which tags stay.
use ece375_project.Base.{ℕ, zero, suc, ◌+◌, ◌<◌, ◌≡◌, ◌≢◌, refl, ap, sym, ◌∙◌, arith, ◌⊎◌, inl, inr}
use ece375_project.Base.{Bool, true, false, ◌&&◌, ◌==◌, none, some, List, [], ◌∷◌}
use ece375_project.Base.{
  length, length-set, get_elem?, get_elem?_lt, set, All, Bool-cases, Option-cases,
}
use ece375_project.Base.{◌^◌, take}
use ece375_project.Cache.{
  CacheLine, probe, find_invalid, int_rounds, evict, choose_victim, stamp, access_set,
}
use ece375_project.Cache.Sets.{
  holds, IsOldest, probe-none, probe-IsHit, holds-stamp, holds-set_self, holds-set_other,
  find_invalid-some, find_invalid-none, looks_at_all, evict_lem,
}

-- The tag that an access pushes out: no way was free, and its line has the least time stamp.
pub record IsEvicted (lines : List CacheLine) (t : ℕ) : Type 0 where
  pub way : ℕ
  pub full : All (λ line. line.is_valid ≡ true) lines
  pub victim : IsOldest lines way
  pub its_tag : victim.line.tag ≡ t

-- An access that returned `hit` and left `after`.
pub record IsAccessed (lines : List CacheLine) (tag : ℕ) (hit : Bool) (after : List CacheLine)
    : Type 0 where
  pub reports : hit ≡ holds tag lines
  pub present : holds tag after ≡ true
  pub others :
      (t : ℕ) → t ≢ tag → (holds t after ≡ holds t lines) ⊎ ((hit ≡ false) × IsEvicted lines t)
  pub same_ways : length after ≡ length lines

abbrev pub fresh : ℕ → ℕ → CacheLine
fresh tag now = record { is_valid = true; tag = tag; lru_timestamp = now }

length-stamp : (lines : List CacheLine) (way now : ℕ) → length (stamp lines way now) ≡ length lines
unfolding stamp
length-stamp [] way now = refl
length-stamp (line ∷ lines) zero now = refl
length-stamp (line ∷ lines) (suc way) now = ap suc (length-stamp lines way now)

evict-some :
    (ways : ℕ) (lines : List CacheLine) → 0 < length lines → (r : ℕ) × (evict ways lines ≡ some r)
unfolding evict
evict-some ways [] h = absurd (omega arith)
evict-some ways (line ∷ lines) h = (_, refl)

pub choose_victim-some :
    (ways : ℕ) (lines : List CacheLine)
    → 0 < length lines
    → (r : ℕ) × (choose_victim ways lines ≡ some r)
unfolding choose_victim
choose_victim-some ways lines h =
    let (r, out) = evict-some ways lines h in
    elim (Option-cases (find_invalid 0 (take (int_rounds ways) lines))) [
      | inr (way, free) ↦ (way, rw (free, choose_victim) refl)
      | inl full ↦ (r, rw (full, choose_victim) out)
    ]

-- An access to a set with a way returns and keeps the number of the ways, however many its loops
-- look at.
pub access_set-returns :
    (ways : ℕ) (lines : List CacheLine) (tag now : ℕ)
    → 0 < length lines
    → (hit : Bool) × (after : List CacheLine) × (access_set ways lines tag now ≡ some (hit, after))
      × (length after ≡ length lines)
unfolding access_set
access_set-returns ways lines tag now h =
    let (r, chosen) = choose_victim-some ways lines h in
    elim (Option-cases (probe 0 tag (take (int_rounds ways) lines))) [
      | inr (way, found) ↦
          (true, stamp lines way now, rw (found, access_set) refl, length-stamp lines way now)
      | inl miss ↦ (
        false,
        set lines r (fresh tag now),
        rw (miss, access_set, chosen) refl,
        length-set lines r _,
      )
    ]

-- A set of fewer than 2 ^ 31 ways, all of which the loops look at.
module _ (ways : ℕ) (lines : List CacheLine) (small : ways < 2 ^ 31) (whole : length lines ≡ ways)
    (tag now : ℕ) where
  all_seen : take (int_rounds ways) lines ≡ lines
  all_seen = looks_at_all ways lines small whole

  abbrev Result : Type 0
  Result =
      (hit : Bool) × (after : List CacheLine) × (access_set ways lines tag now ≡ some (hit, after))
      × IsAccessed lines tag hit after

  pub access_hit :
      (way : ℕ)
      → probe 0 tag lines ≡ some way
      → access_set ways lines tag now ≡ some (true, stamp lines way now)
  unfolding access_set
  access_hit way e = rw (all_seen, e, access_set) refl

  pub access_miss :
      (way : ℕ)
      → probe 0 tag lines ≡ none
      → choose_victim ways lines ≡ some way
      → access_set ways lines tag now ≡ some (false, set lines way (fresh tag now))
  unfolding access_set
  access_miss way e chosen = rw (all_seen, e, access_set, chosen) refl

  on_hit : holds tag lines ≡ true → Result
  on_hit h =
      let (i, found, _) = probe-IsHit 0 tag lines h in
      (
        true,
        stamp lines (0 + i) now,
        access_hit (0 + i) found,
        record {
          reports = rw h refl;
          present = holds-stamp tag lines (0 + i) now ∙ h;
          others = λ t ne. inl (holds-stamp t lines (0 + i) now);
          same_ways = length-stamp lines (0 + i) now;
        },
      )

  -- A miss that fills way `i`.
  filled :
      (i : ℕ) (old : CacheLine)
      → holds tag lines ≡ false
      → choose_victim ways lines ≡ some i
      → get_elem? lines i ≡ some old
      → ((t : ℕ) → (old.is_valid && old.tag == t) ≡ false ⊎ IsEvicted lines t)
      → Result
  filled i old miss chosen there fate = (
    false,
    set lines i (fresh tag now),
    access_miss i (probe-none 0 tag lines miss) chosen,
    record {
      reports = rw miss refl;
      present = holds-set_self lines i (fresh tag now) refl (get_elem?_lt lines i there);
      others = λ t ne. elim (fate t) [
        | inl free ↦
            inl (holds-set_other t lines i old (fresh tag now) there (λ e. ne (sym e)) free)
        | inr out ↦ inr (refl, out)
      ];
      same_ways = length-set lines i (fresh tag now);
    },
  )

  chosen_free : (r : ℕ) → find_invalid 0 lines ≡ some r → choose_victim ways lines ≡ some r
  unfolding choose_victim
  chosen_free r e = rw (all_seen, e, choose_victim) refl

  chosen_full :
      (r : ℕ)
      → find_invalid 0 lines ≡ none
      → evict ways lines ≡ some r
      → choose_victim ways lines ≡ some r
  unfolding choose_victim
  chosen_full r e out = rw (all_seen, e, choose_victim) out

  fate :
      (r : ℕ) (o : IsOldest lines r)
      → All (λ line. line.is_valid ≡ true) lines
      → (t : ℕ) → (o.line.is_valid && o.line.tag == t) ≡ false ⊎ IsEvicted lines t
  fate r o full t = elim (Bool-cases (o.line.is_valid && o.line.tag == t)) [
    | inl same ↦ inr (record { way = r; full = full; victim = o; its_tag = ground arith })
    | inr free ↦ inl free
  ]

  on_miss : 0 < length lines → holds tag lines ≡ false → Result
  on_miss some_way miss = elim (Option-cases (find_invalid 0 lines)) [
    | inr (r, free) ↦
        let (i, old, at, there, invalid) = find_invalid-some 0 lines r free in
        let at' : r ≡ i = omega arith in
        filled i old miss (chosen_free r free ∙ ap some at') there (λ t. inl (rw invalid refl))
    | inl full ↦
        let (r, out) = evict-some ways lines some_way in
        let o = evict_lem ways lines r small whole out in
        filled r o.line miss (chosen_full r full out) o.there
          (λ t. fate r o (find_invalid-none 0 lines full) t)
  ]

  -- An access to a set with at least one way and fewer than 2 ^ 31 returns. It hits exactly if the set holds the tag;
  -- after it the set holds the tag and has as many ways; every other tag is held as before, or
  -- else the access missed, the set was full, and the tag stood in a line with the least time
  -- stamp.
  pub access_set-IsAccessed :
      0 < length lines
      → (hit : Bool) × (after : List CacheLine) × (access_set ways lines tag now
          ≡ some (hit, after))
        × IsAccessed lines tag hit after
  access_set-IsAccessed some_way = elim (Bool-cases (holds tag lines)) [
    | inl h ↦ on_hit h
    | inr miss ↦ on_miss some_way miss
  ]
