-- ===== src/Pager/Tests.antt =====
-- Runs of the page allocator.
use base_nexs.Common.{ℕ, ◌<◌, ◌+◌, ◌*◌, ◌≡◌, ◌≢◌, refl, true, false, none, some, update, arith}
use base_nexs.Pager.{
  Table, Bump, tracks, is_page_ptr, page_alloc, page_free, bump_alloc, bump_free, max_page_allocs,
}
use base_nexs.Pager.{page_slot_find_free, find_free_from, alloc_source, from_pages, from_buddy}
use base_nexs.Pager.Slots.{IsUnique, page_free-is_page_ptr}
use base_nexs.Pager.Regions.{
  IsLaidOut, Allocated, released, bump_alloc-IsLaidOut, bump_free-IsLaidOut,
}

abbrev empty : Table
empty = λ _. record { base = 0; pages = 0; used = false }

-- One region of two pages at 8192.
abbrev one_region : Table
one_region = update empty 0 (record { base = 8192; pages = 2; used = true })

page_alloc_first : (page_alloc empty 2 (some 8192)).1 ≡ some 8192
unfolding page_alloc page_slot_find_free find_free_from
page_alloc_first = refl

page_alloc_nothing : (page_alloc empty 0 (some 8192)).1 ≡ none
unfolding page_alloc
page_alloc_nothing = refl

threshold : alloc_source (512 * 1024) ≡ from_buddy
unfolding alloc_source
threshold = refl

over_threshold : alloc_source (512 * 1024 + 1) ≡ from_pages 129
unfolding alloc_source
over_threshold = refl

only_slot : (ptr i : ℕ) → tracks ptr (one_region i) ≡ true → i ≡ 0
only_slot ptr i e = ground arith

one_region-IsUnique : IsUnique one_region
one_region-IsUnique ptr i j h g e f =
    let a = only_slot ptr i e in let b = only_slot ptr j f in omega arith

page_free-is_page_ptr_example :
    (is_page_ptr (page_free one_region 8192 2) 8192 ≡ false)
    × ((q : ℕ) → q ≢ 8192 → is_page_ptr (page_free one_region 8192 2) q ≡ is_page_ptr one_region q)
    × IsUnique (page_free one_region 8192 2)
page_free-is_page_ptr_example =
    page_free-is_page_ptr one_region 8192 2 one_region-IsUnique (omega arith) (omega arith)

abbrev fresh_pool : Bump
fresh_pool = record { table = empty; brk = 0 }

fresh_pool-IsLaidOut : IsLaidOut 65536 8 fresh_pool
fresh_pool-IsLaidOut = record {
  within = omega arith;
  inside = λ i u. ground arith;
  filled = λ i u. ground arith;
  apart = λ i j d u v. ground arith;
}

bump_alloc-IsLaidOut_example :
    IsLaidOut 65536 8 (bump_alloc 65536 8 fresh_pool 3).0
    × Allocated 65536 8 fresh_pool 3 (bump_alloc 65536 8 fresh_pool 3)
bump_alloc-IsLaidOut_example =
    bump_alloc-IsLaidOut 65536 8 fresh_pool 3 fresh_pool-IsLaidOut (omega arith) (omega arith)

granted_pool-IsLaidOut : IsLaidOut 65536 8 (bump_alloc 65536 8 fresh_pool 3).0
granted_pool-IsLaidOut =
    (bump_alloc-IsLaidOut 65536 8 fresh_pool 3 fresh_pool-IsLaidOut (omega arith) (omega arith)).0

-- A request for the whole pool is granted.
exact_fit : (bump_alloc 65536 8 fresh_pool 8).1 ≡ some 65536
unfolding bump_alloc page_slot_find_free find_free_from
exact_fit = refl

bump_free-IsLaidOut_example :
    let b = (bump_alloc 65536 8 fresh_pool 3).0 in
    IsLaidOut 65536 8 (bump_free b 65536)
    × (((bump_free b 65536).brk ≡ b.brk)
        × ((j : ℕ)
            → j < max_page_allocs
            → (bump_free b 65536).table j ≡ released 65536 (b.table j)))
bump_free-IsLaidOut_example =
    bump_free-IsLaidOut 65536 8 ((bump_alloc 65536 8 fresh_pool 3).0) 65536 granted_pool-IsLaidOut
