-- ===== src/Pager/Slots.antt =====
-- The slot table tracks just the pages that are allocated.
use base_nexs.Common.{
  ℕ, zero, suc, ◌+◌, ◌≤◌, ◌<◌, ◌≡◌, ◌≢◌, refl, true, false, none, some, update, arith, Bool-cases,
  Option-cases, inl, inr, ne→==,
}
use native.Mathlib.Decide.{ℕ_discrete}
use base_nexs.Pager.{Table, tracks, find_free_from, find_ptr_from, find_ptr, is_page_ptr}
use base_nexs.Pager.{page_free, page_slot_find_free, max_page_allocs}

find_ptr_from_sound :
    (n i : ℕ) (t : Table) (ptr j : ℕ)
    → find_ptr_from n i t ptr ≡ some j
    → (i ≤ j) × (j < i + n) × (tracks ptr (t j) ≡ true)
unfolding find_ptr_from
find_ptr_from_sound zero i t ptr j e = cc
find_ptr_from_sound (suc n) i t ptr j e = ground (arith, find_ptr_from_sound n (i + 1) t ptr j)

pub find_ptr_sound :
    (t : Table) (ptr j : ℕ)
    → find_ptr t ptr ≡ some j
    → (j < max_page_allocs) × (tracks ptr (t j) ≡ true)
unfolding find_ptr
find_ptr_sound t ptr j e =
    let (a, b, c) = find_ptr_from_sound max_page_allocs 0 t ptr j e in (omega arith, c)

find_ptr_from-none :
    (n i : ℕ) (t : Table) (ptr j : ℕ)
    → find_ptr_from n i t ptr ≡ none
    → i ≤ j
    → j < i + n
    → tracks ptr (t j) ≡ false
unfolding find_ptr_from
find_ptr_from-none zero i t ptr j e h g = absurd (omega arith)
find_ptr_from-none (suc n) i t ptr j e h g = elim (ℕ_discrete i j) [
  | yes p ↦ rw (← p) (ground arith)
  | no p ↦ find_ptr_from-none n (i + 1) t ptr j (ground arith) (omega arith) (omega arith)
]

pub find_ptr-none :
    (t : Table) (ptr j : ℕ) → find_ptr t ptr ≡ none → j < max_page_allocs → tracks ptr (t j) ≡ false
unfolding find_ptr
find_ptr-none t ptr j e h =
    find_ptr_from-none max_page_allocs 0 t ptr j e (omega arith) (omega arith)

find_free_from_sound :
    (n i : ℕ) (t : Table) (j : ℕ)
    → find_free_from n i t ≡ some j
    → (i ≤ j) × (j < i + n) × ((t j).used ≡ false)
unfolding find_free_from
find_free_from_sound zero i t j e = cc
find_free_from_sound (suc n) i t j e = ground (arith, find_free_from_sound n (i + 1) t j)

find_free_from-none :
    (n i : ℕ) (t : Table) (j : ℕ)
    → find_free_from n i t ≡ none
    → i ≤ j
    → j < i + n
    → (t j).used ≡ true
unfolding find_free_from
find_free_from-none zero i t j e h g = absurd (omega arith)
find_free_from-none (suc n) i t j e h g = elim (ℕ_discrete i j) [
  | yes p ↦ rw (← p) (ground arith)
  | no p ↦ find_free_from-none n (i + 1) t j (ground arith) (omega arith) (omega arith)
]

pub page_slot_find_free_sound :
    (t : Table) (j : ℕ)
    → page_slot_find_free t ≡ some j
    → (j < max_page_allocs) × ((t j).used ≡ false)
unfolding page_slot_find_free
page_slot_find_free_sound t j e =
    let (a, b, c) = find_free_from_sound max_page_allocs 0 t j e in (omega arith, c)

pub page_slot_find_free-none :
    (t : Table) (j : ℕ) → page_slot_find_free t ≡ none → j < max_page_allocs → (t j).used ≡ true
unfolding page_slot_find_free
page_slot_find_free-none t j e h =
    find_free_from-none max_page_allocs 0 t j e (omega arith) (omega arith)

-- A pointer is a page pointer just if some slot of the table tracks it.
is_page_ptr_of_slot :
    (t : Table) (ptr j : ℕ)
    → ptr ≢ 0
    → j < max_page_allocs
    → tracks ptr (t j) ≡ true
    → is_page_ptr t ptr ≡ true
unfolding is_page_ptr find_ptr
is_page_ptr_of_slot t ptr j z h e = elim (Option-cases (find_ptr_from max_page_allocs 0 t ptr)) [
  | inl f ↦ let g = find_ptr_from-none max_page_allocs 0 t ptr j f (omega arith) (omega arith) in cc
  | inr (i, f) ↦ rw (ne→== ptr 0 z, f)
]

is_page_ptr_slot :
    (t : Table) (ptr : ℕ)
    → is_page_ptr t ptr ≡ true
    → (j : ℕ) × (j < max_page_allocs) × (tracks ptr (t j) ≡ true)
unfolding is_page_ptr find_ptr
is_page_ptr_slot t ptr e = elim (Option-cases (find_ptr_from max_page_allocs 0 t ptr)) [
  | inl f ↦ absurd (no_slot f)
  | inr (i, f) ↦
      let (a, b, c) = find_ptr_from_sound max_page_allocs 0 t ptr i f in (i, omega arith, c)
]
  where
    no_slot : find_ptr_from max_page_allocs 0 t ptr ≡ none → ⊥
    no_slot f = ground arith

find_ptr_from-cong :
    (n i : ℕ) (t t' : Table) (ptr : ℕ)
    → ((j : ℕ) → j < i + n → tracks ptr (t' j) ≡ tracks ptr (t j))
    → find_ptr_from n i t' ptr ≡ find_ptr_from n i t ptr
unfolding find_ptr_from
find_ptr_from-cong zero i t t' ptr h = refl
find_ptr_from-cong (suc n) i t t' ptr h =
    rw (h i (omega arith), find_ptr_from-cong n (i + 1) t t' ptr (λ j g. h j (omega arith)))

is_page_ptr-cong :
    (t t' : Table) (ptr : ℕ)
    → ((j : ℕ) → j < max_page_allocs → tracks ptr (t' j) ≡ tracks ptr (t j))
    → is_page_ptr t' ptr ≡ is_page_ptr t ptr
unfolding is_page_ptr find_ptr
is_page_ptr-cong t t' ptr h =
    rw (find_ptr_from-cong max_page_allocs 0 t t' ptr (λ j g. h j (omega arith)))

-- Two used slots never have the same base.
abbrev pub IsUnique : Table → Type 0
IsUnique t =
    (ptr i j : ℕ)
    → i < max_page_allocs
    → j < max_page_allocs
    → tracks ptr (t i) ≡ true
    → tracks ptr (t j) ≡ true
    → i ≡ j

abbrev freed_at : Table → ℕ → Table
freed_at t i = update t i (record { base = 0; pages = 0; used = false })

free_state :
    (t : Table) (ptr n_pages i : ℕ)
    → ptr ≢ 0
    → n_pages ≢ 0
    → find_ptr t ptr ≡ some i
    → page_free t ptr n_pages ≡ freed_at t i
unfolding page_free
free_state t ptr n i z m e = rw (ne→== ptr 0 z, ne→== n 0 m, e, page_free)

free_unknown :
    (t : Table) (ptr n_pages : ℕ)
    → ptr ≢ 0
    → n_pages ≢ 0
    → find_ptr t ptr ≡ none
    → page_free t ptr n_pages ≡ t
unfolding page_free
free_unknown t ptr n z m e = rw (ne→== ptr 0 z, ne→== n 0 m, e, page_free)

tracks-freed_at :
    (t : Table) (i q j : ℕ) → tracks q (freed_at t i j) ≡ true → (j ≢ i) × (tracks q (t j) ≡ true)
tracks-freed_at t i q j e = ground arith

untracked : (t : Table) (ptr : ℕ) → find_ptr t ptr ≡ none → is_page_ptr t ptr ≡ false
unfolding is_page_ptr
untracked t ptr e = ground arith

freed_own :
    (t : Table) (ptr i : ℕ)
    → IsUnique t
    → i < max_page_allocs
    → tracks ptr (t i) ≡ true
    → is_page_ptr (freed_at t i) ptr ≡ false
freed_own t ptr i u h e = elim (Bool-cases (is_page_ptr (freed_at t i) ptr)) [
  | inr f ↦ f
  | inl f ↦
      let (j, g, k) = is_page_ptr_slot (freed_at t i) ptr f in
      let (ne, l) = tracks-freed_at t i ptr j k in absurd (ne (u ptr j i g h l e))
]

tracks_other :
    (t : Table) (ptr i q j : ℕ)
    → tracks ptr (t i) ≡ true
    → q ≢ ptr
    → tracks q (freed_at t i j) ≡ tracks q (t j)
tracks_other t ptr i q j e n = elim (ℕ_discrete j i) [
  | yes p ↦ rw (p) (ground arith)
  | no p ↦ ground arith
]

freed_at-IsUnique : (t : Table) (i : ℕ) → IsUnique t → IsUnique (freed_at t i)
freed_at-IsUnique t i u q j k h g e f =
    u q j k h g ((tracks-freed_at t i q j e).1) ((tracks-freed_at t i q k f).1)

-- In a table in which no pointer has two slots, `page_free` forgets just its pointer: that one is a page
-- pointer no longer, every other stays what it was, and no pointer has two slots after it.
pub page_free-is_page_ptr :
    (t : Table) (ptr n_pages : ℕ)
    → IsUnique t
    → ptr ≢ 0
    → n_pages ≢ 0
    → (is_page_ptr (page_free t ptr n_pages) ptr ≡ false)
      × ((q : ℕ) → q ≢ ptr → is_page_ptr (page_free t ptr n_pages) q ≡ is_page_ptr t q)
      × IsUnique (page_free t ptr n_pages)
page_free-is_page_ptr t ptr n u z m = elim (Option-cases (find_ptr t ptr)) [
  | inl e ↦ rw (free_unknown t ptr n z m e) (untracked t ptr e, λ q d. refl, u)
  | inr (i, e) ↦
      let (b, c) = find_ptr_sound t ptr i e in
      rw (free_state t ptr n i z m e) (
        freed_own t ptr i u b c,
        λ q d. is_page_ptr-cong t (freed_at t i) q (λ j g. tracks_other t ptr i q j c d),
        freed_at-IsUnique t i u,
      )
]
