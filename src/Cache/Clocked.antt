-- ===== src/Cache/Clocked.antt =====
-- The clock and the time stamps of the whole cache against the list of its accesses.
use mathlib.Core.Path.{subst}
use native.Mathlib.Nat.{
  mul-add-div_right, div-eq_of_lt, mod-lt, div-add-mod', mul-add-mod_self_right, mod-eq_of_lt,
}
use ece375_project.Base.{
  Bool-cases, inl, inr, set, get_elem?-set_self, get_elem?-set_ne, All-get_elem?,
}
use ece375_project.Base.{
  ℕ, suc, ◌+◌, ◌*◌, ◌/◌, ◌%◌, ◌^◌, ◌<◌, ◌≡◌, ◌≢◌, refl, ap, sym, ◌∙◌, arith, Bool, false, ◌==◌,
  if◌then◌else◌, some, List, [], ◌∷◌, length, get_elem?, get_elem?_lt,
}
use ece375_project.Word.{u64}
use ece375_project.Word.Fields.{pow_pos}
use ece375_project.Cache.Create.{IsRegular, create-IsShaped}
use ece375_project.Cache.{
  CacheConfig, CacheDataType, create, Cache, CacheLine, CacheOperation, get_index_and_tag,
  access_set, access,
}
use ece375_project.Cache.Address.{index_and_tag_lem}
use ece375_project.Cache.Sets.{holds}
use ece375_project.Cache.Recency.{IsTimed-nothing, IsTimed, IsTimed-access, IsTimed-same}
use ece375_project.Cache.Runs.{accesses}
use ece375_project.Cache.Access.{IsShaped, served, served-IsShaped, access-served, access-returns}

-- The number of the last request to a block of `bytes` bytes, where the first of the list has the
-- number `n + 1`; `found` if there is none.
pub last_request : ℕ → ℕ → ℕ → List (ℕ × CacheOperation) → ℕ → ℕ
last_request bytes n found [] block = found
last_request bytes n found ((address, op) ∷ rest) block =
    last_request bytes (n + 1) (if address / bytes == block then n + 1 else found) rest block

-- The block with a tag in a set, as a block number.
abbrev pub in_set : Cache → ℕ → (ℕ → ℕ) → ℕ → ℕ
in_set c j times tag = times (tag * 2 ^ c.set_index_bits + j)

-- After `n` accesses the clock is `n`, and every line has the time of the last one to its block.
pub record IsClocked (c : Cache) (n : ℕ) (times : ℕ → ℕ) : Type 0 where
  pub shaped : IsShaped c
  pub few_ways : c.config.ways < 2 ^ 31
  pub clock : c.lru_clock ≡ n
  pub timed :
      (j : ℕ) (lines : List CacheLine)
      → get_elem? c.sets j ≡ some lines
      → IsTimed (in_set c j times) lines

-- A block number against the tag and the index of another.
same_key : (block m t : ℕ) → 0 < m → (block / m == t) ≡ (block == t * m + block % m)
same_key block m t h =
    let tag : (t * m + block % m) / m ≡ t =
      mul-add-div_right h t (block % m) ∙ omega (arith, div-eq_of_lt (mod-lt block h)) in
    ground (arith, div-add-mod' block m, tag)

other_key : (block m t j : ℕ) → j < m → block % m ≢ j → (block == t * m + j) ≡ false
other_key block m t j h ne =
    let index : (t * m + j) % m ≡ j = mul-add-mod_self_right t m j ∙ mod-eq_of_lt h in
    ground (arith, index, ne)

-- The blocks that the requests address, each with the number of its last access.
abbrev touched : ℕ → ℕ → (ℕ → ℕ) → ℕ → ℕ
touched block now times b = if block == b then now else times b

module _ (c : Cache) (n : ℕ) (times : ℕ → ℕ) (h : IsClocked c n times) (address : ℕ) where
  abbrev m : ℕ
  m = 2 ^ c.set_index_bits

  abbrev block : ℕ
  block = address / 2 ^ c.block_offset_bits

  parts : get_index_and_tag c address ≡ (block % m, block / m)
  parts = index_and_tag_lem c address (omega (arith, h.shaped.bits))

  IsTimed-served :
      (hit : Bool) (lines after : List CacheLine)
      → get_elem? c.sets (block % m) ≡ some lines
      → length lines ≡ c.config.ways
      → access_set c.config.ways lines (block / m) (n + 1) ≡ some (hit, after)
      → (j : ℕ) (lines' : List CacheLine) → get_elem? (set c.sets (block % m) after) j ≡ some lines'
      → IsTimed (in_set c j (touched block (n + 1) times)) lines'
  IsTimed-served hit lines after there whole did j lines' at = elim (Bool-cases (block % m == j)) [
    | inl here ↦
        let same : block % m ≡ j = ground (arith, here) in
        let inside = get_elem?_lt c.sets (block % m) there in
        let found : lines' ≡ after = ground (
          arith,
          at,
          get_elem?-set_self c.sets (block % m) after inside,
          ap (λ (k : ℕ). get_elem? (set c.sets (block % m) after) k) same,
        ) in
        let done =
          IsTimed-access (block / m) (n + 1) (in_set c (block % m) times) c.config.ways lines
            h.few_ways whole hit after did (rw whole h.shaped.some_way)
            (h.timed (block % m) lines there) in
        subst (λ (k : ℕ). IsTimed (in_set c k (touched block (n + 1) times)) lines') same
          (rw found (
            IsTimed-same _ _ after
              (λ t.
                ap (λ (b : Bool). if b then n + 1 else times (t * m + block % m))
                  (same_key block m t (pow_pos c.set_index_bits)))
              done))
    | inr off ↦
        let other : block % m ≢ j = λ e. absurd (ground (arith, off, e)) in
        let before : get_elem? c.sets j ≡ some lines' =
          sym (get_elem?-set_ne c.sets (block % m) j after other) ∙ at in
        let inside : j < m = omega (arith, get_elem?_lt c.sets j before, h.shaped.all_sets) in
        IsTimed-same _ _ lines'
          (λ t.
            ap (λ (b : Bool). if b then n + 1 else times (t * m + j))
              (sym (other_key block m t j inside other)))
          (h.timed j lines' before)
  ]

  -- What the access finds, with the index and the tag computed from the block.
  pub found :
      (c' : Cache) (op : CacheOperation) (hit : Bool)
      → n + 1 < 2 ^ 64
      → access c address op ≡ some (hit, c')
      → (lines : List CacheLine) × (after : List CacheLine) × (get_elem? c.sets (block % m)
          ≡ some lines)
        × (length lines ≡ c.config.ways)
        × (access_set c.config.ways lines (block / m) (n + 1) ≡ some (hit, after))
        × (length after ≡ length lines)
        × (c' ≡ served c address hit after)
  found c' op hit few e =
      let (lines, after, there, whole, did, kept, same) =
        access-served c c' address op hit h.shaped e in
      let now : u64 (c.lru_clock + 1) ≡ n + 1 = omega (arith, h.clock) in
      (
        lines,
        after,
        ap (λ (p : ℕ × ℕ). get_elem? c.sets p.0) (sym parts) ∙ there,
        whole,
        ap (λ (p : ℕ × ℕ). access_set c.config.ways lines p.1 (n + 1)) (sym parts)
            ∙ ap (λ (k : ℕ). access_set c.config.ways lines (get_index_and_tag c address).1 k)
                (sym now)
            ∙ did,
        kept,
        same,
      )

  access-IsClocked :
      (c' : Cache) (op : CacheOperation) (hit : Bool)
      → n + 1 < 2 ^ 64
      → access c address op ≡ some (hit, c')
      → IsClocked c' (n + 1) (touched block (n + 1) times)
        × (c'.block_offset_bits ≡ c.block_offset_bits)
        × (c'.set_index_bits ≡ c.set_index_bits)
  access-IsClocked c' op hit few e =
      let (lines, after, there, whole, did, kept, same) = found c' op hit few e in
      rw same (
        (record {
          shaped = served-IsShaped c address hit after h.shaped (kept ∙ whole);
          few_ways = h.few_ways;
          clock = omega (arith, h.clock);
          timed = λ j lines' at.
              IsTimed-served hit lines after there whole did j lines'
                (ap (λ (p : ℕ × ℕ). get_elem? (set c.sets p.0 after) j) (sym parts) ∙ at);
        }),
        refl,
        refl,
      )

-- A run of accesses, counted on from `n`.
pub accesses-IsClocked :
    (requests : List (ℕ × CacheOperation)) (c c' : Cache) (b k n : ℕ) (times : ℕ → ℕ)
    → IsClocked c n times
    → c.block_offset_bits ≡ b
    → c.set_index_bits ≡ k
    → n + length requests < 2 ^ 64
    → accesses requests c ≡ some c'
    → IsClocked c' (n + length requests) (λ x. last_request (2 ^ b) n (times x) requests x)
      × (c'.block_offset_bits ≡ b)
      × (c'.set_index_bits ≡ k)
unfolding accesses last_request
accesses-IsClocked [] c c' b k n times h eb ek few e =
    let same : c' ≡ c = ground (arith, e) in
    let count : n + 0 ≡ n = omega arith in rw (same, count) (h, eb, ek)
accesses-IsClocked ((address, op) ∷ rest) c c' b k n times h eb ek few e =
    let (hit, c1, did, s, h1, m1) = access-returns c address op h.shaped in
    let (h', eb', ek') = access-IsClocked c n times h address c1 op hit (omega arith) did in
    let on : accesses rest c1 ≡ some c' = ground (arith, e, did) in
    let clocked =
      subst (λ (x : ℕ). IsClocked c1 (n + 1) (touched (address / 2 ^ x) (n + 1) times)) eb h' in
    let count : n + 1 + length rest ≡ n + suc (length rest) = omega arith in
    subst
      (λ (x : ℕ).
        IsClocked c' x
          (λ y. last_request (2 ^ b) (n + 1) (touched (address / 2 ^ b) (n + 1) times y) rest y)
        × (c'.block_offset_bits ≡ b)
        × (c'.set_index_bits ≡ k))
      count
      (accesses-IsClocked rest c1 c' b k (n + 1) _ clocked (eb' ∙ eb) (ek' ∙ ek) (omega arith) on)

pub created-IsClocked :
    (config : CacheConfig) (data_type : CacheDataType) (b k : ℕ) {c : Cache}
    → IsRegular config b k
    → config.ways < 2 ^ 31
    → create config data_type ≡ some c
    → IsClocked c 0 (λ x. 0) × (c.block_offset_bits ≡ b) × (c.set_index_bits ≡ k)
created-IsClocked config data_type b k {c} r small e =
    let (c1, made, s, same, eb, ek, none_held, h, m, clock) =
      create-IsShaped config data_type b k r in
    let it : c ≡ c1 = ground (arith, e, made) in
    rw it (
      (record {
        shaped = s;
        few_ways = rw same small;
        clock = clock;
        timed = λ j lines at. IsTimed-nothing _ lines (
            All-get_elem? (λ (ls : List CacheLine). (t : ℕ) → holds t ls ≡ false) c1.sets j
              none_held at);
      }),
      eb,
      ek,
    )
