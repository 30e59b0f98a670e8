-- ===== src/Cache/Lru.antt =====
-- The replacement of the whole cache against the list of its accesses.
use mathlib.Core.Path.{subst}
use native.Mathlib.Nat.{div-add-mod'}
use ece375_project.Base.{Bool-cases, inl, inr, set, get_elem?-set_self, get_elem?-set_ne}
use ece375_project.Base.{
  ℕ, ◌≤◌, ◌+◌, ◌*◌, ◌/◌, ◌%◌, ◌^◌, ◌<◌, ◌≡◌, ◌≢◌, ap, sym, ◌∙◌, arith, Bool, true, false, ◌==◌,
  some, List, length, get_elem?, get_elem?_lt,
}
use ece375_project.Cache.Create.{IsRegular}
use ece375_project.Cache.{
  CacheConfig, CacheDataType, create, Cache, CacheLine, CacheOperation, get_index_and_tag,
  access_set, access,
}
use ece375_project.Cache.Address.{index_and_tag_lem}
use ece375_project.Cache.Clocked.{
  last_request, in_set, IsClocked, found, accesses-IsClocked, created-IsClocked,
}
use ece375_project.Cache.Sets.{holds}
use ece375_project.Cache.SetAccess.{access_set-IsAccessed}
use ece375_project.Cache.Recency.{evicts-least}
use ece375_project.Cache.Runs.{accesses}
use ece375_project.Cache.Access.{Holds, IsShaped, served, served-IsShaped}

-- A block number that stands in the sets, or does not.
abbrev HoldsBlock : List (List CacheLine) → ℕ → ℕ → Bool → Type 0
HoldsBlock sets m x v =
    (lines : List CacheLine) × (get_elem? sets (x % m) ≡ some lines) × (holds (x / m) lines ≡ v)

Holds-block :
    (c : Cache) (address : ℕ) (v : Bool)
    → IsShaped c
    → Holds c address v
    → HoldsBlock c.sets (2 ^ c.set_index_bits) (address / 2 ^ c.block_offset_bits) v
Holds-block c address v s h =
    subst
      (λ (p : ℕ × ℕ).
        (lines : List CacheLine) × (get_elem? c.sets p.0 ≡ some lines) × (holds p.1 lines ≡ v))
      (index_and_tag_lem c address (omega (arith, s.bits))) h

-- The same in a set that is known.
in_known_set :
    (sets : List (List CacheLine)) (m j x : ℕ) (v : Bool) (lines : List CacheLine)
    → x % m ≡ j
    → get_elem? sets j ≡ some lines
    → HoldsBlock sets m x v
    → holds (x / m) lines ≡ v
in_known_set sets m j x v lines e there (found, at, held) =
    ground (arith, there, at, held, ap (λ (k : ℕ). get_elem? sets k) e)

module _ (c : Cache) (n : ℕ) (times : ℕ → ℕ) (h : IsClocked c n times) (block : ℕ) (hit : Bool)
    (lines after : List CacheLine) where
  abbrev size : ℕ
  size = 2 ^ c.set_index_bits

  -- The block that an access pushes out, against another of its set.
  evicts-clocked :
      get_elem? c.sets (block % size) ≡ some lines
      → length lines ≡ c.config.ways
      → access_set c.config.ways lines (block / size) (n + 1) ≡ some (hit, after)
      → (gone kept : ℕ) → HoldsBlock c.sets size gone true
      → HoldsBlock (set c.sets (block % size) after) size gone false
      → HoldsBlock c.sets size kept true
      → kept % size ≡ gone % size
      → (hit ≡ false) × (gone % size ≡ block % size) × (times gone ≤ times kept)
  evicts-clocked there whole did gone kept a b d e =
      elim (Bool-cases (gone % size == block % size)) [
        | inl same ↦
            let ej : gone % size ≡ block % size = ground (arith, same) in
            let inside = get_elem?_lt c.sets (block % size) there in
            let held = in_known_set c.sets size (block % size) gone true lines ej there a in
            let held' = in_known_set c.sets size (block % size) kept true lines (e ∙ ej) there d in
            let out =
              in_known_set (set c.sets (block % size) after) size (block % size) gone false after ej
                (get_elem?-set_self c.sets (block % size) after inside) b in
            let (hit1, after1, did1, acc) =
              access_set-IsAccessed c.config.ways lines h.few_ways whole (block / size) (n + 1)
                (rw whole h.shaped.some_way) in
            let left : after1 ≡ after = ground (arith, sym did1 ∙ did) in
            let present : holds (block / size) after ≡ true =
              ap (holds (block / size)) (sym left) ∙ acc.present in
            let ne : gone / size ≢ block / size =
              λ eq. absurd (ground (arith, present, out, ap (λ (t : ℕ). holds t after) eq)) in
            let (miss, least) =
              evicts-least (block / size) (n + 1) (in_set c (block % size) times) c.config.ways
                lines h.few_ways whole (gone / size) (kept / size) hit after
                (h.timed (block % size) lines there) did ne held out held' in
            let it : gone / size * size + block % size ≡ gone =
              omega (arith, div-add-mod' gone size, ej) in
            let other : kept / size * size + block % size ≡ kept =
              omega (arith, div-add-mod' kept size, e ∙ ej) in
            (miss, ej, omega (arith, least, ap times it, ap times other))
        | inr off ↦
            let ne : block % size ≢ gone % size = λ eq. absurd (ground (arith, off, eq)) in
            let stays = get_elem?-set_ne c.sets (block % size) (gone % size) after ne in
            absurd
              (ground (arith, stays, a.1, a.2, b.1, b.2, ap (holds (gone / size)) (clash stays)))
      ]
    where
      clash :
          get_elem? (set c.sets (block % size) after) (gone % size) ≡ get_elem? c.sets (gone % size)
          → b.0 ≡ a.0
      clash stays = ground (arith, stays, a.1, b.1)

-- The replacement is true LRU. In a cache that the constructor makes of a configuration of 2 ^ k
-- sets of at least one way and fewer than 2 ^ 31, with blocks of 2 ^ b bytes and a size below
-- 2 ^ 64, after any list of fewer than 2 ^ 64 - 1 requests: where the next access pushes a block
-- out of the cache, it misses, the block is of the set that it selects, and no block that this
-- set holds was last requested earlier.
pub evicts-last_request :
    (config : CacheConfig) (data_type : CacheDataType) (b k : ℕ)
    (requests : List (ℕ × CacheOperation)) (c0 c c' : Cache) (address : ℕ) (op : CacheOperation)
    (hit : Bool) (gone kept : ℕ)
    → IsRegular config b k
    → config.ways < 2 ^ 31
    → length requests + 1 < 2 ^ 64
    → create config data_type ≡ some c0
    → accesses requests c0 ≡ some c
    → access c address op ≡ some (hit, c')
    → Holds c gone true
    → Holds c' gone false
    → Holds c kept true
    → (get_index_and_tag c kept).0 ≡ (get_index_and_tag c gone).0
    → let last = λ (a : ℕ). last_request config.block_size 0 0 requests (a / config.block_size) in
      (hit ≡ false)
      × ((get_index_and_tag c gone).0 ≡ (get_index_and_tag c address).0)
      × (last gone ≤ last kept)
evicts-last_request config data_type b k requests c0 c c' address op hit gone kept r small few made
      ran did a d e same =
    let (h0, eb0, ek0) = created-IsClocked config data_type b k r small made in
    let (h, eb, ek) =
      accesses-IsClocked requests c0 c b k 0 (λ x. 0) h0 eb0 ek0 (omega arith) ran in
    let times = λ (x : ℕ). last_request (2 ^ b) 0 0 requests x in
    let m = 2 ^ c.set_index_bits in
    let block = address / 2 ^ c.block_offset_bits in
    let bits : c.set_index_bits < 64 = omega (arith, h.shaped.bits) in
    let index : (x : ℕ) → (get_index_and_tag c x).0 ≡ x / 2 ^ c.block_offset_bits % m =
      λ x. ap (λ (p : ℕ × ℕ). p.0) (index_and_tag_lem c x bits) in
    let (lines, after, there, whole, got, keeps, left) =
      found c (0 + length requests) times h address c' op hit (omega arith) did in
    let d' : Holds (served c address hit after) gone false =
      subst (λ (s : Cache). Holds s gone false) left d in
    let sound = served-IsShaped c address hit after h.shaped (keeps ∙ whole) in
    let outside =
      subst (λ (j : ℕ). HoldsBlock (set c.sets j after) m (gone / 2 ^ c.block_offset_bits) false)
        (index address) (Holds-block (served c address hit after) gone false sound d') in
    let (miss, in_it, least) =
      evicts-clocked c (0 + length requests) times h block hit lines after there whole got
        (gone / 2 ^ c.block_offset_bits) (kept / 2 ^ c.block_offset_bits)
        (Holds-block c gone true h.shaped a) outside (Holds-block c kept true h.shaped e)
        (sym (index kept) ∙ same ∙ index gone) in
    (
      miss,
      index gone ∙ in_it ∙ sym (index address),
      subst
          (λ (s : ℕ).
            last_request s 0 0 requests (gone / s) ≤ last_request s 0 0 requests (kept / s))
          (sym r.block) (subst (λ (o : ℕ). times (gone / 2 ^ o) ≤ times (kept / 2 ^ o)) eb least),
    )
