-- ===== src/Blk.antt =====
-- kernel/blk.c: the buffer cache over the block devices. A device driver is not part of the source:
-- what `BlkReadFn` and `BlkWriteFn` do is the argument `Driver`, over a state of the devices.
pub mod Find
pub mod Coherence
pub mod Flush
pub mod Ops
pub mod Read
pub mod Sync
mod Tests
use base_nexs.Common.{
  ℕ, zero, suc, ◌+◌, ◌%◌, ◌^◌, Bool, true, false, not, ◌&&◌, ◌||◌, Option, none, some, List, [],
  ◌∷◌, ◌++◌, ltb, ◌==◌, if◌then◌else◌, update, length,
}

abbrev pub blk_cache : ℕ
blk_cache = 256

abbrev pub max_devs : ℕ
max_devs = 8

-- The contents of one block, BLK_SIZE bytes.
abbrev pub Bytes : Type 0
Bytes = List ℕ

-- `BlkBuf`
pub record Buf : Type 0 where
  pub lba : ℕ
  pub bytes : Bytes
  pub dirty : Bool
  pub valid : Bool
  pub dev_id : ℕ
  pub last_access : ℕ

-- `BlkDev`: which of the two functions the device was registered with.
pub record Dev : Type 0 where
  pub id : ℕ
  pub reads : Bool
  pub writes : Bool

-- What the registered functions do to the state `D` of the devices.
pub record Driver (D : Type 0) : Type 0 where
  pub read : D → ℕ → ℕ → Option Bytes
  pub write : D → ℕ → ℕ → Bytes → D

-- A registry write of the cache: `/dev/blk/<dev>/<lba>/dirty` is set.
pub record Note : Type 0 where
  pub dev : ℕ
  pub lba : ℕ
  pub dirty : Bool

-- The static variables of blk.c, the devices, and the registry writes, newest first.
pub record State (D : Type 0) : Type 0 where
  pub cache : ℕ → Buf
  pub clock : ℕ
  pub devs : List Dev
  pub disk : D
  pub notes : List Note

abbrev pub blank : Buf
blank = record { lba = 0; bytes = []; dirty = false; valid = false; dev_id = 0; last_access = 0 }

unfoldable pub find_dev : ℕ → List Dev → Option Dev
find_dev dev [] = none
find_dev dev (d ∷ ds) = if d.id == dev then some d else find_dev dev ds

abbrev pub can_write : ℕ → List Dev → Bool
can_write dev devs = elim (find_dev dev devs) [ some d ↦ d.writes | none ↦ false ]

abbrev pub can_read : ℕ → List Dev → Bool
can_read dev devs = elim (find_dev dev devs) [ some d ↦ d.reads | none ↦ false ]

abbrev pub holds_block : ℕ → ℕ → Buf → Bool
holds_block dev lba b = b.valid && (b.dev_id == dev && b.lba == lba)

-- The loop of `cache_find` over the `n` slots from `i` on.
unfoldable pub find_from : ℕ → ℕ → (ℕ → Buf) → ℕ → ℕ → Option ℕ
find_from zero i cache dev lba = none
find_from (suc n) i cache dev lba =
    if holds_block dev lba (cache i) then some i else find_from n (i + 1) cache dev lba

unfoldable pub cache_find : (ℕ → Buf) → ℕ → ℕ → Option ℕ
cache_find cache dev lba = find_from blk_cache 0 cache dev lba

-- Whether slot `i` is to replace the best slot so far.
pub better : Buf → Buf → Bool
better b best =
    not b.dirty && best.dirty
    || ((if b.dirty then best.dirty else not best.dirty) && ltb b.last_access best.last_access)

-- The best slot after slot `i` has been looked at.
pub next_best : (ℕ → Buf) → ℕ → Option ℕ → Option ℕ
next_best cache i none = some i
next_best cache i (some j) = if better (cache i) (cache j) then some i else some j

-- The loop of `cache_evict`: the first free slot, or the best of all.
pub evict_from : ℕ → ℕ → (ℕ → Buf) → Option ℕ → Option ℕ
evict_from zero i cache best = best
evict_from (suc n) i cache best =
    let rest = evict_from n (i + 1) cache (next_best cache i best) in
    if (cache i).valid then rest else some i

unfoldable pub cache_evict : (ℕ → Buf) → Option ℕ
cache_evict cache = evict_from blk_cache 0 cache none

module _ {D : Type 0} (driver : Driver D) where
  unfoldable pub blk_init : State D → State D
  blk_init s = record s { cache = λ _. blank; clock = 0; devs = [] }

  unfoldable pub register_dev : State D → Dev → State D
  register_dev s d =
      if ltb (length s.devs) max_devs then record s { devs = s.devs ++ (d ∷ []) } else s

  -- `flush_buf` on slot `i`.
  unfoldable pub flush_buf : State D → ℕ → State D
  flush_buf s i =
      let b = s.cache i in
      if b.valid && (b.dirty && can_write b.dev_id s.devs)
      then record s {
        disk = driver.write s.disk b.dev_id b.lba b.bytes;
        cache = update s.cache i (record b { dirty = false });
      }
      else s

  -- Slot `i` takes a new block, and the clock advances.
  unfoldable pub install : State D → ℕ → Buf → State D
  install s i b =
      let now = (s.clock + 1) % 2 ^ 64 in
      record s { cache = update s.cache i (record b { last_access = now }); clock = now }

  abbrev pub clean_buf : ℕ → ℕ → Bytes → Buf
  clean_buf dev lba bytes = record {
    lba = lba;
    bytes = bytes;
    dirty = false;
    valid = true;
    dev_id = dev;
    last_access = 0;
  }

  -- A block that is not cached is read from its device into a slot.
  unfoldable pub load_block : State D → ℕ → ℕ → State D × Option Bytes
  load_block s dev lba = elim (driver.read s.disk dev lba) [
    | none ↦ (s, none)
    | some bytes ↦ elim (cache_evict s.cache) [
      | none ↦ (s, none)
      | some i ↦ (install (flush_buf s i) i (clean_buf dev lba bytes), some bytes)
    ]
  ]

  -- The result is what goes through `buf`, or -1. `cache_evict` always answers a slot.
  unfoldable pub blk_read : State D → ℕ → ℕ → State D × Option Bytes
  blk_read s dev lba = elim (cache_find s.cache dev lba) [
    | some i ↦ (install s i (s.cache i), some ((s.cache i).bytes))
    | none ↦ if can_read dev s.devs then load_block s dev lba else (s, none)
  ]

  abbrev pub dirty_buf : ℕ → ℕ → Bytes → Buf
  dirty_buf dev lba bytes = record {
    lba = lba;
    bytes = bytes;
    dirty = true;
    valid = true;
    dev_id = dev;
    last_access = 0;
  }

  abbrev pub noted : State D → ℕ → ℕ → Bool → State D
  noted s dev lba d = record s { notes = record { dev = dev; lba = lba; dirty = d } ∷ s.notes }

  unfoldable pub blk_write : State D → ℕ → ℕ → Bytes → State D
  blk_write s dev lba bytes = elim (cache_find s.cache dev lba) [
    | some i ↦ noted (install s i (dirty_buf dev lba bytes)) dev lba true
    | none ↦ elim (cache_evict s.cache) [
      | none ↦ s
      | some i ↦ noted (install (flush_buf s i) i (dirty_buf dev lba bytes)) dev lba true
    ]
  ]

  -- One round of the loop of `blk_sync`.
  unfoldable pub sync_slot : State D → ℕ → State D
  sync_slot s i =
      let b = s.cache i in
      if b.valid && (b.dirty && can_write b.dev_id s.devs)
      then noted (flush_buf s i) b.dev_id b.lba false
      else s

  unfoldable pub sync_from : ℕ → ℕ → State D → State D
  sync_from zero i s = s
  sync_from (suc n) i s = sync_from n (i + 1) (sync_slot s i)

  unfoldable pub blk_sync : State D → State D
  blk_sync s = sync_from blk_cache 0 s
