-- ===== src/Blk/Find.antt =====
-- What the two searches of the cache find.
use base_nexs.Common.{
  ℕ, zero, suc, ◌+◌, ◌≤◌, ◌<◌, ◌≡◌, refl, true, false, Bool-cases, inl, inr, none, some, arith,
}
use native.Mathlib.Decide.{ℕ_discrete}
use base_nexs.Blk.{
  Buf, blk_cache, holds_block, find_from, cache_find, better, next_best, evict_from, cache_evict,
}

find_from_sound :
    (n i : ℕ) (c : ℕ → Buf) (dev lba j : ℕ)
    → find_from n i c dev lba ≡ some j
    → (j < i + n) × (holds_block dev lba (c j) ≡ true)
unfolding find_from
find_from_sound zero i c dev lba j e = cc
find_from_sound (suc n) i c dev lba j e = ground (arith, find_from_sound n (i + 1) c dev lba j)

find_from-none :
    (n i : ℕ) (c : ℕ → Buf) (dev lba : ℕ)
    → find_from n i c dev lba ≡ none
    → (j : ℕ) → i ≤ j
    → j < i + n
    → holds_block dev lba (c j) ≡ false
unfolding find_from
find_from-none zero i c dev lba e j h k = absurd (omega arith)
find_from-none (suc n) i c dev lba e j h k = elim (ℕ_discrete i j) [
  | yes p ↦ rw (← p) (ground arith)
  | no p ↦ find_from-none n (i + 1) c dev lba (ground arith) j (omega arith) (omega arith)
]

-- A slot that the search finds lies in the cache and holds the block.
pub cache_find_sound :
    (c : ℕ → Buf) (dev lba j : ℕ)
    → cache_find c dev lba ≡ some j
    → (j < blk_cache) × (holds_block dev lba (c j) ≡ true)
unfolding cache_find
cache_find_sound c dev lba j e = find_from_sound blk_cache 0 c dev lba j e

-- Where the search finds nothing, no slot holds the block.
pub cache_find-none :
    (c : ℕ → Buf) (dev lba : ℕ)
    → cache_find c dev lba ≡ none
    → (j : ℕ) → j < blk_cache
    → holds_block dev lba (c j) ≡ false
unfolding cache_find
cache_find-none c dev lba e j h = find_from-none blk_cache 0 c dev lba e j (omega arith) h

evict_from-some :
    (n i : ℕ) (c : ℕ → Buf) (k : ℕ)
    → k < i + n
    → (j : ℕ) × (evict_from n i c (some k) ≡ some j) × (j < i + n)
unfolding evict_from next_best better
evict_from-some zero i c k h = (k, refl, h)
evict_from-some (suc n) i c k h = elim (Bool-cases ((c i).valid)) [
  | inr e ↦ rw e (i, refl, omega arith)
  | inl e ↦ elim (Bool-cases (better (c i) (c k))) [
    | inl f ↦
        rw (e, f)
          (let (j, g, b) = evict_from-some n (i + 1) c i (omega arith) in (j, g, omega arith))
    | inr f ↦
        rw (e, f)
          (let (j, g, b) = evict_from-some n (i + 1) c k (omega arith) in (j, g, omega arith))
  ]
]

evict_from_start :
    (n i : ℕ) (c : ℕ → Buf) → (j : ℕ) × (evict_from (suc n) i c none ≡ some j) × (j < i + suc n)
unfolding evict_from next_best
evict_from_start n i c = elim (Bool-cases ((c i).valid)) [
  | inr e ↦ rw e (i, refl, omega arith)
  | inl e ↦
      rw e (let (j, g, b) = evict_from-some n (i + 1) c i (omega arith) in (j, g, omega arith))
]

-- `cache_evict` always answers a slot of the cache.
pub cache_evict-some : (c : ℕ → Buf) → (j : ℕ) × (cache_evict c ≡ some j) × (j < blk_cache)
unfolding cache_evict
cache_evict-some c = let (j, e, h) = evict_from_start 255 0 c in (j, e, omega arith)
