-- ===== src/Cache/Recency.antt =====
-- The replacement in a set of the cache against the times of the accesses to its tags.
use ece375_project.Base.{
  ◌^◌, ℕ, zero, suc, ◌+◌, ◌<◌, ◌≤◌, ◌≡◌, ◌≢◌, refl, ap, sym, ◌∙◌, arith, inl, inr, Bool, true,
  false, ◌==◌, if◌then◌else◌, some, List, [], ◌∷◌, length, get_elem?, set, All-get_elem?,
  Bool-cases, Option-cases,
}
use ece375_project.Cache.{CacheLine, choose_victim, stamp, access_set}
use ece375_project.Cache.Sets.{holds, probe-none, probe-IsHit, holds-stamp}
use ece375_project.Cache.SetAccess.{
  choose_victim-some, fresh, access_hit, access_miss, access_set-IsAccessed,
}

-- The times of the last accesses to the tags, once `tag` is accessed at the time `now`.
abbrev pub renewed : ℕ → ℕ → (ℕ → ℕ) → ℕ → ℕ
renewed tag now times t = if tag == t then now else times t

-- Every valid line has the time of the last access to its tag, and no two have the same tag.
abbrev pub IsTimed : (ℕ → ℕ) → List CacheLine → Type 0
IsTimed times [] = Unit
IsTimed times (line ∷ lines) =
    (line.is_valid ≡ true → (line.lru_timestamp ≡ times line.tag) × (holds line.tag lines ≡ false))
    × IsTimed times lines

-- The time of the last access to the tag of a valid line.
line_time :
    (times : ℕ → ℕ) (i : ℕ) (lines : List CacheLine) (l : CacheLine)
    → IsTimed times lines
    → get_elem? lines i ≡ some l
    → l.is_valid ≡ true
    → l.lru_timestamp ≡ times l.tag
line_time times i [] l t e v = absurd cc
line_time times zero (line ∷ lines) l (t, ts) e v =
    let same : l ≡ line = ground (arith, e) in rw same ((t (ground (arith, same, v))).0)
line_time times (suc i) (line ∷ lines) l (t, ts) e v = line_time times i lines l ts e v

has_way : (t : ℕ) (lines : List CacheLine) → holds t lines ≡ true → 0 < length lines
unfolding holds
has_way t [] h = absurd cc
has_way t (line ∷ lines) h = omega arith

module _ (tag now : ℕ) (times : ℕ → ℕ) where
  IsTimed-absent :
      (lines : List CacheLine)
      → holds tag lines ≡ false
      → IsTimed times lines
      → IsTimed (renewed tag now times) lines
  unfolding holds
  IsTimed-absent [] absent t = tt
  IsTimed-absent (line ∷ lines) absent (t, ts) =
      ((λ v. ground (arith, absent, t v)), IsTimed-absent lines (ground (arith, absent)) ts)

  holds_there :
      (i : ℕ) (lines : List CacheLine) (l : CacheLine)
      → get_elem? lines i ≡ some l
      → l.is_valid ≡ true
      → l.tag ≡ tag
      → holds tag lines ≡ true
  unfolding holds
  holds_there i [] l e v same = absurd cc
  holds_there zero (line ∷ lines) l e v same = ground (arith, e, v, same)
  holds_there (suc i) (line ∷ lines) l e v same = ground (arith, holds_there i lines l e v same)

  IsTimed-stamp :
      (i : ℕ) (lines : List CacheLine) (l : CacheLine)
      → get_elem? lines i ≡ some l
      → l.is_valid ≡ true
      → l.tag ≡ tag
      → IsTimed times lines
      → IsTimed (renewed tag now times) (stamp lines i now)
  unfolding stamp
  IsTimed-stamp i [] l e v same t = tt
  IsTimed-stamp zero (line ∷ lines) l e v same (t, ts) =
      let its : line.tag ≡ tag = ground (arith, e, same) in
      let old = t (ground (arith, e, v)) in
      (
        (λ w. (ground (arith, its), old.1)),
        IsTimed-absent lines (ap (λ (n : ℕ). holds n lines) (sym its) ∙ old.1) ts,
      )
  IsTimed-stamp (suc i) (line ∷ lines) l e v same (t, ts) =
      let there = holds_there i lines l e v same in
      let other : line.is_valid ≡ true → line.tag ≢ tag =
        λ w its. absurd (ground (arith, there, ap (λ (n : ℕ). holds n lines) its, (t w).1)) in
      (
        (λ w. (ground (arith, (t w).0, other w), holds-stamp line.tag lines i now ∙ (t w).1)),
        IsTimed-stamp i lines l e v same ts,
      )

  holds_fill :
      (t i : ℕ) (lines : List CacheLine)
      → t ≢ tag
      → holds t lines ≡ false
      → holds t (set lines i (fresh tag now)) ≡ false
  unfolding holds
  holds_fill t i [] ne h = refl
  holds_fill t zero (line ∷ lines) ne h = ground (arith, ne, h)
  holds_fill t (suc i) (line ∷ lines) ne h = ground (arith, h, holds_fill t i lines ne)

  IsTimed-fill :
      (i : ℕ) (lines : List CacheLine)
      → holds tag lines ≡ false
      → IsTimed times lines
      → IsTimed (renewed tag now times) (set lines i (fresh tag now))
  IsTimed-fill i [] absent t = tt
  IsTimed-fill zero (line ∷ lines) absent (t, ts) =
      let absent' : holds tag lines ≡ false = unfold holds in ground (arith, absent) in
      ((λ v. (ground arith, absent')), IsTimed-absent lines absent' ts)
  IsTimed-fill (suc i) (line ∷ lines) absent (t, ts) =
      let absent' : holds tag lines ≡ false = unfold holds in ground (arith, absent) in
      let other : line.is_valid ≡ true → line.tag ≢ tag =
        λ v same. absurd (unfold holds in ground (arith, absent, v, same)) in
      (
        (λ v. (ground (arith, (t v).0, other v), holds_fill line.tag i lines (other v) (t v).1)),
        IsTimed-fill i lines absent' ts,
      )

  module _ (ways : ℕ) (lines : List CacheLine) (small : ways < 2 ^ 31)
      (whole : length lines ≡ ways) where
    pub IsTimed-access :
        (hit : Bool) (after : List CacheLine)
        → access_set ways lines tag now ≡ some (hit, after)
        → 0 < length lines
        → IsTimed times lines
        → IsTimed (renewed tag now times) after
    IsTimed-access hit after e some_way t = elim (Bool-cases (holds tag lines)) [
      | inl h ↦
          let (i, found, l) = probe-IsHit 0 tag lines h in
          let done = access_hit ways lines small whole tag now (0 + i) found in
          let same : after ≡ stamp lines i now = ground (arith, sym e ∙ done) in
          rw same (IsTimed-stamp i lines l.line l.there l.valid l.same_tag t)
      | inr miss ↦ elim (Option-cases (choose_victim ways lines)) [
        | inl no_way ↦ absurd (
            let (way, chosen) = choose_victim-some ways lines some_way in
            ground (arith, chosen, no_way))
        | inr (i, chosen) ↦
            let done =
              access_miss ways lines small whole tag now i (probe-none 0 tag lines miss) chosen in
            let same : after ≡ set lines i (fresh tag now) = ground (arith, sym e ∙ done) in
            rw same (IsTimed-fill i lines miss t)
      ]
    ]

    -- Of the tags that a set holds, an access pushes out one with the least time, and only on a
    -- miss.
    pub evicts-least :
        (t t' : ℕ) (hit : Bool) (after : List CacheLine)
        → IsTimed times lines
        → access_set ways lines tag now ≡ some (hit, after)
        → t ≢ tag
        → holds t lines ≡ true
        → holds t after ≡ false
        → holds t' lines ≡ true
        → (hit ≡ false) × (times t ≤ times t')
    evicts-least t t' hit after timed did ne held gone held' =
        let (hit1, after1, did1, a) =
          access_set-IsAccessed ways lines small whole tag now (has_way t lines held) in
        let hits : hit ≡ hit1 = ground (arith, sym did ∙ did1) in
        let sets : after ≡ after1 = ground (arith, sym did ∙ did1) in
        elim (a.others t ne) [
          | inl stays ↦ absurd (ground (arith, stays, held, ap (holds t) sets, gone))
          | inr (miss, out) ↦
              let (i, found, l) = probe-IsHit 0 t' lines held' in
              let v = out.victim in
              let valid =
                All-get_elem? (λ line. line.is_valid ≡ true) lines out.way out.full v.there in
              let least =
                All-get_elem? (λ other. v.line.lru_timestamp ≤ other.lru_timestamp) lines i v.least
                  l.there in
              let mine = line_time times out.way lines v.line timed v.there valid in
              let yours = line_time times i lines l.line timed l.there l.valid in
              (
                hits ∙ miss,
                omega (arith, least, mine, yours, ap times out.its_tag, ap times l.same_tag),
              )
        ]

-- A set that holds nothing serves for any times.
pub IsTimed-nothing :
    (times : ℕ → ℕ) (lines : List CacheLine)
    → ((t : ℕ) → holds t lines ≡ false)
    → IsTimed times lines
unfolding holds
IsTimed-nothing times [] h = tt
IsTimed-nothing times (line ∷ lines) h = (
  (λ v. absurd (ground (arith, h line.tag, v))),
  IsTimed-nothing times lines (λ t. ground (arith, h t)),
)

-- Times that agree everywhere serve alike.
pub IsTimed-same :
    (times times' : ℕ → ℕ) (lines : List CacheLine)
    → ((t : ℕ) → times t ≡ times' t)
    → IsTimed times lines
    → IsTimed times' lines
IsTimed-same times times' [] same t = tt
IsTimed-same times times' (line ∷ lines) same (t, ts) =
    ((λ v. ((t v).0 ∙ same line.tag, (t v).1)), IsTimed-same times times' lines same ts)
