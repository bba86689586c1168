-- ===== src/Pager.antt =====
-- core/pager.c: the page slot table, the hosted and the bare-metal page allocator, and the allocator
-- that chooses between pages and the buddy pool. `mmap` is not part of the source: what it answers is an
-- argument. A pointer is an address, and 0 is NULL.
pub mod Slots
pub mod Regions
mod Tests
use base_nexs.Common.{
  ℕ, zero, suc, ◌+◌, ◌-◌, ◌*◌, ◌/◌, ◌%◌, ◌^◌, Bool, true, false, not, ◌&&◌, ◌||◌, Option, none,
  some, ltb, leb, ◌==◌, if◌then◌else◌, update,
}

abbrev pub page_size : ℕ
page_size = 4096

abbrev pub max_page_allocs : ℕ
max_page_allocs = 256

abbrev pub large_alloc_thresh : ℕ
large_alloc_thresh = 512 * 1024

-- `PageSlot`
pub record Slot : Type 0 where
  pub base : ℕ
  pub pages : ℕ
  pub used : Bool

-- `page_table`
abbrev pub Table : Type 0
Table = ℕ → Slot

-- The first slot of the `n` from `i` on that is not used; `none` is -1.
unfoldable pub find_free_from : ℕ → ℕ → Table → Option ℕ
find_free_from zero i t = none
find_free_from (suc n) i t = if (t i).used then find_free_from n (i + 1) t else some i

unfoldable pub page_slot_find_free : Table → Option ℕ
page_slot_find_free t = find_free_from max_page_allocs 0 t

abbrev pub tracks : ℕ → Slot → Bool
tracks ptr s = s.used && s.base == ptr

-- The first slot that tracks the pointer.
unfoldable pub find_ptr_from : ℕ → ℕ → Table → ℕ → Option ℕ
find_ptr_from zero i t ptr = none
find_ptr_from (suc n) i t ptr = if tracks ptr (t i) then some i else find_ptr_from n (i + 1) t ptr

unfoldable pub find_ptr : Table → ℕ → Option ℕ
find_ptr t ptr = find_ptr_from max_page_allocs 0 t ptr

unfoldable pub is_page_ptr : Table → ℕ → Bool
is_page_ptr t ptr =
    if ptr == 0 then false else elim (find_ptr t ptr) [ none ↦ false | some i ↦ true ]

-- Hosted: `mapped` is what mmap answers for the wanted bytes, `none` for MAP_FAILED.
unfoldable pub page_alloc : Table → ℕ → Option ℕ → Table × Option ℕ
page_alloc t n_pages mapped = if n_pages == 0 then (t, none) else elim mapped [
  | none ↦ (t, none)
  | some p ↦ elim (page_slot_find_free t) [
    | none ↦ (t, none)
    | some i ↦ (update t i (record { base = p; pages = n_pages; used = true }), some p)
  ]
]

unfoldable pub page_free : Table → ℕ → ℕ → Table
page_free t ptr n_pages = if ptr == 0 || n_pages == 0 then t else elim (find_ptr t ptr) [
  | none ↦ t
  | some i ↦ update t i (record { base = 0; pages = 0; used = false })
]

-- Bare metal: the table and `large_brk`.
pub record Bump : Type 0 where
  pub table : Table
  pub brk : ℕ

-- `large_pool` is the address of the static pool of `pool_pages` pages.
unfoldable pub bump_alloc : ℕ → ℕ → Bump → ℕ → Bump × Option ℕ
bump_alloc large_pool pool_pages b n_pages =
    let bytes = n_pages * page_size % 2 ^ 64 in
    if n_pages == 0
    then (b, none)
    else if ltb (pool_pages * page_size) ((b.brk + bytes) % 2 ^ 64)
    then (b, none)
    else elim (page_slot_find_free b.table) [
      | none ↦ (b, none)
      | some i ↦
          let p = large_pool + b.brk in
          (
            record {
              table = update b.table i (record { base = p; pages = n_pages; used = true });
              brk = (b.brk + bytes) % 2 ^ 64;
            },
            some p,
          )
    ]

-- The slot is given back, and the memory is not.
unfoldable pub bump_free : Bump → ℕ → Bump
bump_free b ptr = elim (find_ptr b.table ptr) [
  | none ↦ b
  | some i ↦ record b { table = update b.table i (record (b.table i) { used = false }) }
]

-- Where `nexs_alloc` takes the memory from: so many pages, or the buddy pool.
pub data Source : Type 0 where
  from_pages : ℕ → Source
  from_buddy : Source

abbrev pub pages_for : ℕ → ℕ
pages_for size = (size + page_size - 1) / page_size

unfoldable pub alloc_source : ℕ → Source
alloc_source size = if ltb large_alloc_thresh size then from_pages (pages_for size) else from_buddy

-- What `nexs_free` calls: nothing, `page_free` with so many pages, or `xfree`.
pub data Release : Type 0 where
  nothing : Release
  to_pages : ℕ → Release
  to_buddy : Release

unfoldable pub free_target : Table → ℕ → ℕ → Release
free_target t ptr size =
    if ptr == 0 then nothing else if is_page_ptr t ptr then to_pages (pages_for size) else to_buddy
