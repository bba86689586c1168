-- ===== src/Pager/Regions.antt =====
-- The bare-metal page allocator: where the regions of the slot table lie in the pool.
use base_nexs.Common.{
  ℕ, ◌+◌, ◌*◌, ◌%◌, ◌^◌, ◌≤◌, ◌<◌, ◌≡◌, ◌≢◌, ◌⊎◌, refl, ap, true, false, Option, none, some, ltb,
  update, arith, Bool-cases, Option-cases, inl, inr, sym, ◌∙◌, ne→==, eq→==, if◌then◌else◌, le→ltb,
}
use native.Mathlib.Decide.{ℕ_discrete}
use base_nexs.Pager.{
  Slot, Bump, find_ptr, page_slot_find_free, bump_alloc, bump_free, page_size, max_page_allocs,
  tracks,
}
use base_nexs.Pager.Slots.{
  find_ptr_sound, find_ptr-none, page_slot_find_free_sound, page_slot_find_free-none,
}

-- The regions of two slots have no byte in common.
abbrev pub Apart : Slot → Slot → Type 0
Apart s s' = (s.base + s.pages * page_size ≤ s'.base) ⊎ (s'.base + s'.pages * page_size ≤ s.base)

-- The used slots lie in the part of the pool that is handed out, with no byte in common, and none is empty.
pub record IsLaidOut (large_pool pool_pages : ℕ) (b : Bump) : Type 0 where
  pub within : b.brk ≤ pool_pages * page_size
  pub inside :
      (i : ℕ)
      → (b.table i).used ≡ true
      → (large_pool ≤ (b.table i).base)
        × ((b.table i).base + (b.table i).pages * page_size ≤ large_pool + b.brk)
  pub filled : (i : ℕ) → (b.table i).used ≡ true → 0 < (b.table i).pages
  pub apart :
      (i j : ℕ)
      → i ≢ j
      → (b.table i).used ≡ true
      → (b.table j).used ≡ true
      → Apart (b.table i) (b.table j)

-- Slot `i` tracks the next `n` pages, and the rest of the pool begins behind them.
abbrev pub granted : ℕ → Bump → ℕ → ℕ → Bump
granted large_pool b n i = record {
  table = update b.table i (record { base = large_pool + b.brk; pages = n; used = true });
  brk = b.brk + n * page_size;
}

new-Apart :
    (large_pool pool_pages : ℕ) (b : Bump) (n k : ℕ)
    → IsLaidOut large_pool pool_pages b
    → (b.table k).used ≡ true
    → Apart (b.table k) (record { base = large_pool + b.brk; pages = n; used = true })
new-Apart large_pool pool_pages b n k l u = inl ((l.inside k u).1)

granted-Apart :
    (large_pool pool_pages : ℕ) (b : Bump) (n i j k : ℕ)
    → IsLaidOut large_pool pool_pages b
    → j ≢ k
    → ((granted large_pool b n i).table j).used ≡ true
    → ((granted large_pool b n i).table k).used ≡ true
    → Apart ((granted large_pool b n i).table j) ((granted large_pool b n i).table k)
granted-Apart large_pool pool_pages b n i j k l d u v = elim (ℕ_discrete j i) [
  | yes p ↦
      let e = ne→== k i (λ q. d (p ∙ sym q)) in
      let x = new-Apart large_pool pool_pages b n k l (ground arith) in ground arith
  | no p ↦ elim (ℕ_discrete k i) [
    | yes q ↦ let x = new-Apart large_pool pool_pages b n j l (ground arith) in ground arith
    | no q ↦ let x = l.apart j k d (ground arith) (ground arith) in ground arith
  ]
]

granted-IsLaidOut :
    (large_pool pool_pages : ℕ) (b : Bump) (n i : ℕ)
    → IsLaidOut large_pool pool_pages b
    → n ≢ 0
    → b.brk + n * page_size ≤ pool_pages * page_size
    → IsLaidOut large_pool pool_pages (granted large_pool b n i)
granted-IsLaidOut large_pool pool_pages b n i l m h = record {
  within = h;
  inside = λ j u. elim (ℕ_discrete j i) [
    | yes p ↦ ground arith
    | no p ↦ let (a, c) = l.inside j (ground arith) in ground arith
  ];
  filled = λ j u. elim (ℕ_discrete j i) [
    | yes p ↦ ground arith
    | no p ↦ let a = l.filled j (ground arith) in ground arith
  ];
  apart = λ j k d u v. granted-Apart large_pool pool_pages b n i j k l d u v;
}

forgotten : Bump → ℕ → Bump
forgotten b i = record b { table = update b.table i (record (b.table i) { used = false }) }

forgotten_slot :
    (b : Bump) (i j : ℕ)
    → ((forgotten b i).table j).used ≡ true
    → ((b.table j).used ≡ true) × ((forgotten b i).table j ≡ b.table j)
unfolding forgotten
forgotten_slot b i j u = elim (ℕ_discrete j i) [ yes p ↦ ground arith | no p ↦ ground arith ]

forgotten-IsLaidOut :
    (large_pool pool_pages : ℕ) (b : Bump) (i : ℕ)
    → IsLaidOut large_pool pool_pages b
    → IsLaidOut large_pool pool_pages (forgotten b i)
unfolding forgotten
forgotten-IsLaidOut large_pool pool_pages b i l = record {
  within = l.within;
  inside = λ j u. let (a, e) = forgotten_slot b i j u in rw (e) (l.inside j a);
  filled = λ j u. let (a, e) = forgotten_slot b i j u in rw (e) (l.filled j a);
  apart = λ j k d u v.
      let (a, e) = forgotten_slot b i j u in
      let (c, f) = forgotten_slot b i k v in rw (e, f) (l.apart j k d a c);
}

grant_state :
    (large_pool pool_pages : ℕ) (b : Bump) (n i : ℕ)
    → b.brk + n * page_size < 2 ^ 64
    → n ≢ 0
    → b.brk + n * page_size ≤ pool_pages * page_size
    → page_slot_find_free b.table ≡ some i
    → bump_alloc large_pool pool_pages b n ≡ (granted large_pool b n i, some (large_pool + b.brk))
unfolding bump_alloc
grant_state large_pool pool_pages b n i h m g e =
    rw (ne→== n 0 m, no_overrun, e, bump_alloc) (ap result wrapped)
  where
    result : ℕ → Bump × Option ℕ
    result x = (
      record {
        table = update b.table i (record { base = large_pool + b.brk; pages = n; used = true });
        brk = x;
      },
      some (large_pool + b.brk),
    )

    wrapped : (b.brk + n * page_size % 2 ^ 64) % 2 ^ 64 ≡ b.brk + n * page_size
    wrapped = omega arith

    no_overrun : ltb (pool_pages * page_size) ((b.brk + n * page_size % 2 ^ 64) % 2 ^ 64) ≡ false
    no_overrun = rw (wrapped) (le→ltb (pool_pages * page_size) (b.brk + n * page_size) g)

-- Why `page_alloc` answers NULL: nothing is asked for, the rest of the pool is too short, or all slots are used.
abbrev pub Refused : ℕ → Bump → ℕ → Type 0
Refused pool_pages b n =
    (n ≡ 0)
    ⊎ ((pool_pages * page_size < b.brk + n * page_size)
        ⊎ ((i : ℕ) → i < max_page_allocs → (b.table i).used ≡ true))

-- What `page_alloc` comes to: NULL with nothing changed, or the start of the rest of the pool, in a slot that was free.
pub data Allocated (large_pool pool_pages : ℕ) (b : Bump) (n : ℕ) (out : Bump × Option ℕ)
    : Type 0 where
  refused : out ≡ (b, none) → Refused pool_pages b n → Allocated large_pool pool_pages b n out
  fits :
      (i : ℕ)
      → i < max_page_allocs
      → (b.table i).used ≡ false
      → n ≢ 0
      → b.brk + n * page_size ≤ pool_pages * page_size
      → out ≡ (granted large_pool b n i, some (large_pool + b.brk))
      → Allocated large_pool pool_pages b n out

alloc_cases :
    (large_pool pool_pages : ℕ) (b : Bump) (n : ℕ)
    → b.brk + n * page_size < 2 ^ 64
    → Allocated large_pool pool_pages b n (bump_alloc large_pool pool_pages b n)
unfolding bump_alloc
alloc_cases large_pool pool_pages b n h = elim (ℕ_discrete n 0) [
  | yes p ↦ refused (ground arith) (inl p)
  | no m ↦ elim (Bool-cases (ltb (pool_pages * page_size) (b.brk + n * page_size))) [
    | inl f ↦ refused (ground arith) (inr (inl (ground arith)))
    | inr f ↦ elim (Option-cases (page_slot_find_free b.table)) [
      | inl e ↦ refused (ground arith) (inr (inr (λ j g. page_slot_find_free-none b.table j e g)))
      | inr (i, e) ↦
          let (a, c) = page_slot_find_free_sound b.table i e in
          fits i a c m (ground arith) (grant_state large_pool pool_pages b n i h m (ground arith) e)
    ]
  ]
]

-- In a pool that is laid out, with a pool and a request whose sizes in bytes are below 2^63: `page_alloc` keeps it
-- laid out. It answers NULL, with nothing changed, just if the request is for no page, does not fit the rest of the
-- pool or finds all slots used; else the start of the rest of the pool, which gets shorter by the request, in a slot
-- that was free, with no other slot changed.
pub bump_alloc-IsLaidOut :
    (large_pool pool_pages : ℕ) (b : Bump) (n_pages : ℕ)
    → IsLaidOut large_pool pool_pages b
    → pool_pages * page_size < 2 ^ 63
    → n_pages * page_size < 2 ^ 63
    → IsLaidOut large_pool pool_pages (bump_alloc large_pool pool_pages b n_pages).0
      × Allocated large_pool pool_pages b n_pages (bump_alloc large_pool pool_pages b n_pages)
bump_alloc-IsLaidOut large_pool pool_pages b n l h g =
    let c = alloc_cases large_pool pool_pages b n (let w = l.within in omega arith) in
    (
      elim c [
        | refused e r ↦ rw (e) l
        | fits i a u m f e ↦ rw (e) (granted-IsLaidOut large_pool pool_pages b n i l m f)
      ],
      c,
    )

-- No two slots track the same pointer.
tracked_once :
    (large_pool pool_pages : ℕ) (b : Bump) (ptr i j : ℕ)
    → IsLaidOut large_pool pool_pages b
    → i ≢ j
    → tracks ptr (b.table i) ≡ true
    → tracks ptr (b.table j) ≡ false
tracked_once large_pool pool_pages b ptr i j l d e = elim (Bool-cases (tracks ptr (b.table j))) [
  | inr f ↦ f
  | inl f ↦
      let (u, x) = used_at (b.table i) e in
      let (v, y) = used_at (b.table j) f in
      let a = l.filled i u in
      let c = l.filled j v in
      absurd (elim (l.apart i j d u v) [ inl z ↦ omega arith | inr z ↦ omega arith ])
]
  where
    used_at : (s : Slot) → tracks ptr s ≡ true → (s.used ≡ true) × (s.base ≡ ptr)
    used_at s e = (ground arith, ground arith)

-- The slot that tracks the pointer is not used any more; any other is as it was.
abbrev pub released : ℕ → Slot → Slot
released ptr s = if tracks ptr s then record s { used = false } else s

-- In a pool that is laid out, `page_free` keeps it laid out and the rest of the pool as it is; of the slots, just
-- the one that tracks the pointer, if there is one, is not used any more.
pub bump_free-IsLaidOut :
    (large_pool pool_pages : ℕ) (b : Bump) (ptr : ℕ)
    → IsLaidOut large_pool pool_pages b
    → IsLaidOut large_pool pool_pages (bump_free b ptr)
      × (((bump_free b ptr).brk ≡ b.brk)
          × ((j : ℕ) → j < max_page_allocs → (bump_free b ptr).table j ≡ released ptr (b.table j)))
unfolding bump_free forgotten
bump_free-IsLaidOut large_pool pool_pages b ptr l = elim (Option-cases (find_ptr b.table ptr)) [
  | inl e ↦ rw (e, bump_free) (l, (refl, λ j h. rw (find_ptr-none b.table ptr j e h) refl))
  | inr (i, e) ↦
      let (a, c) = find_ptr_sound b.table ptr i e in
      rw (e, bump_free)
        (
          forgotten-IsLaidOut large_pool pool_pages b i l,
          (
            refl,
            λ j h. elim (ℕ_discrete j i) [
              | yes p ↦ rw (p, c, eq→== i i refl) refl
              | no p ↦
                  rw
                    (ne→== j i p, tracked_once large_pool pool_pages b ptr i j l (λ q. p (sym q)) c)
                    refl
            ],
          ),
        )
]
