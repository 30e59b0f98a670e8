-- ===== src/Cache/Runs.antt =====
-- Several accesses to a cache, one after the other.
use ece375_project.Base.{
  ℕ, ◌+◌, ◌%◌, ◌^◌, ◌≡◌, refl, ◌∙◌, arith, Bool, true, some, none, Option, List, [], ◌∷◌, length,
}
use ece375_project.Base.{ap, ◌<◌, if◌then◌else◌}
use ece375_project.Word.{u64}
use ece375_project.Cache.{CacheConfig, Cache, CacheOperation, access}
use ece375_project.Cache.Access.{IsShaped, Holds, access-returns, access-IsServed}

-- A cache holds a block or does not.
Holds-unique :
    (c : Cache) (address : ℕ) (b b' : Bool) → Holds c address b → Holds c address b' → b ≡ b'
Holds-unique c address b b' (lines, there, e) (lines', there', e') =
    ground (arith, there, there', e, e')

-- In a cache of a sound shape with fewer than 2 ^ 31 ways, an access to an address returns, and the next access to the same
-- address, reading or writing, hits.
pub access_again :
    (c : Cache) (address : ℕ) (op op' : CacheOperation)
    → IsShaped c
    → c.config.ways < 2 ^ 31
    → (hit : Bool) × (c' : Cache) × (c'' : Cache) × (access c address op ≡ some (hit, c'))
      × (access c' address op' ≡ some (true, c''))
access_again c address op op' s small =
    let (hit, c', did, served) = access-IsServed c address op s small in
    let (hit', c'', did', again) =
      access-IsServed c' address op' served.shaped
        (omega (arith, ap (λ (g : CacheConfig). g.ways) served.same_config.0)) in
    let same = Holds-unique c' address hit' true again.reports served.present in
    (hit, c', c'', did, ground (arith, did', same))

-- The accesses of a list, in their order.
unfoldable pub accesses : List (ℕ × CacheOperation) → Cache → Option Cache
accesses [] c = some c
accesses ((address, op) ∷ rest) c = elim (access c address op) [
  | none ↦ none
  | some (hit, c') ↦ accesses rest c'
]

counted :
    (c c' : Cache) (address : ℕ) (hit : Bool)
    → c'.hits ≡ (if hit then u64 (c.hits + 1) else c.hits)
    → c'.misses ≡ (if hit then c.misses else u64 (c.misses + 1))
    → (c'.hits + c'.misses) % 2 ^ 64 ≡ (c.hits + c.misses + 1) % 2 ^ 64
counted c c' address hit h m = ground (arith, h, m)

accesses-cons :
    (address : ℕ) (op : CacheOperation) (rest : List (ℕ × CacheOperation)) (c c' : Cache)
    (hit : Bool)
    → access c address op ≡ some (hit, c')
    → accesses ((address, op) ∷ rest) c ≡ accesses rest c'
unfolding accesses
accesses-cons address op rest c c' hit e = rw (e, accesses) refl

accesses-nil : (c : Cache) → accesses [] c ≡ some c
unfolding accesses
accesses-nil c = refl

-- From a cache of a sound shape any list of accesses runs through, leaves the shape sound, and
-- adds its length, modulo 2 ^ 64, to the sum of hits and misses.
pub accesses-IsShaped :
    (list : List (ℕ × CacheOperation)) (c : Cache)
    → IsShaped c
    → (c' : Cache) × (accesses list c ≡ some c')
      × IsShaped c'
      × ((c'.hits + c'.misses) % 2 ^ 64 ≡ (c.hits + c.misses + length list) % 2 ^ 64)
accesses-IsShaped [] c s = (c, accesses-nil c, s, omega arith)
accesses-IsShaped ((address, op) ∷ rest) c s =
    let (hit, c', did, sound, h, m) = access-returns c address op s in
    let (c'', run, shaped, count) = accesses-IsShaped rest c' sound in
    let one = counted c c' address hit h m in
    (c'', accesses-cons address op rest c c' hit did ∙ run, shaped, omega (arith, one, count))
