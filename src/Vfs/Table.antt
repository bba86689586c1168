-- ===== src/Vfs/Table.antt =====
-- The descriptor table.
use base_nexs.Common.{
  ℕ, zero, suc, ◌+◌, ◌-◌, ◌≤◌, ◌<◌, ◌≡◌, ◌≢◌, true, false, none, some, arith, update, Option-cases,
  inl, inr, ◌⊎◌,
}
use native.Mathlib.Decide.{ℕ_discrete}
use base_nexs.Vfs.{
  pos, Vfs, Fd, max_fd, free_from, fd_alloc, fd_get, vfs_close, vfs_dup, dup_to, choose_fd,
}

free_from_sound :
    (n i : ℕ) (fds : ℕ → Fd) (j : ℕ)
    → free_from n i fds ≡ some j
    → (i ≤ j) × (j < i + n) × ((fds j).in_use ≡ false)
unfolding free_from
free_from_sound zero i fds j e = cc
free_from_sound (suc n) i fds j e = ground (arith, free_from_sound n (i + 1) fds j)

free_from-none :
    (n i : ℕ) (fds : ℕ → Fd) (k : ℕ)
    → free_from n i fds ≡ none
    → i ≤ k
    → k < i + n
    → (fds k).in_use ≡ true
unfolding free_from
free_from-none zero i fds k e h g = absurd (omega arith)
free_from-none (suc n) i fds k e h g = elim (ℕ_discrete i k) [
  | yes p ↦ rw (← p) (ground arith)
  | no p ↦ free_from-none n (i + 1) fds k (ground arith) (omega arith) (omega arith)
]

free_from_least :
    (n i : ℕ) (fds : ℕ → Fd) (j k : ℕ)
    → free_from n i fds ≡ some j
    → i ≤ k
    → k < j
    → (fds k).in_use ≡ true
unfolding free_from
free_from_least zero i fds j k e h g = cc
free_from_least (suc n) i fds j k e h g = elim (ℕ_discrete i k) [
  | yes p ↦ rw (← p) (ground arith)
  | no p ↦ free_from_least n (i + 1) fds j k (ground arith) (omega arith) g
]

-- What `fd_alloc` has done when it answers descriptor `i`.
pub record IsAllocated (s s' : Vfs) (ino flags i : ℕ) : Type 0 where
  pub in_range : (3 ≤ i) × (i < max_fd)
  pub was_free : (s.fds i).in_use ≡ false
  pub lowest : (k : ℕ) → 3 ≤ k → k < i → (s.fds k).in_use ≡ true
  pub entry : s'.fds i ≡ record { in_use = true; ino = ino; flags = flags; pos = 0 }
  pub others : (k : ℕ) → k ≢ i → s'.fds k ≡ s.fds k

alloc_state :
    (s : Vfs) (ino flags i : ℕ)
    → free_from (max_fd - 3) 3 s.fds ≡ some i
    → fd_alloc s ino flags ≡ (
      record s {
        fds = update s.fds i (record { in_use = true; ino = ino; flags = flags; pos = 0 });
      },
      some i,
    )
unfolding fd_alloc
alloc_state s ino flags i e = rw (e, fd_alloc)

-- `fd_alloc` opens the lowest descriptor from 3 on that is free, at position 0, and touches no other; it
-- answers -1 only if all of them are in use.
pub fd_alloc-IsAllocated :
    (s : Vfs) (ino flags : ℕ)
    → (fd_alloc s ino flags ≡ (s, none)) × ((k : ℕ) → 3 ≤ k → k < max_fd → (s.fds k).in_use ≡ true)
      ⊎ ((s' : Vfs) × (i : ℕ) × (fd_alloc s ino flags ≡ (s', some i))
          × IsAllocated s s' ino flags i)
fd_alloc-IsAllocated s ino flags = elim (Option-cases (free_from (max_fd - 3) 3 s.fds)) [
  | inl e ↦ inl (
    unfold fd_alloc in rw (e, fd_alloc),
    λ k h g. free_from-none (max_fd - 3) 3 s.fds k e h (omega arith),
  )
  | inr (i, e) ↦
      let (a, b, c) = free_from_sound (max_fd - 3) 3 s.fds i e in
      inr (
        record s {
          fds = update s.fds i (record { in_use = true; ino = ino; flags = flags; pos = 0 });
        },
        i,
        alloc_state s ino flags i e,
        record {
          in_range = (a, omega arith);
          was_free = c;
          lowest = λ k h g. free_from_least (max_fd - 3) 3 s.fds i k e h g;
          entry = ground arith;
          others = λ k h. ground arith;
        },
      )
]

-- Copying an open descriptor from 3 on to itself answers the descriptor, and leaves it closed.
pub vfs_dup_self :
    (s : Vfs) (fd : ℕ)
    → 3 ≤ fd
    → fd < max_fd
    → (s.fds fd).in_use ≡ true
    → ((vfs_dup s (pos fd) (pos fd)).1 ≡ some fd)
      × (fd_get ((vfs_dup s (pos fd) (pos fd)).0) (pos fd) ≡ none)
unfolding vfs_dup fd_get dup_to choose_fd vfs_close
vfs_dup_self s fd h g e = (ground arith, ground arith)

-- Copying an open descriptor to another in range closes that one if need be, makes it an equal entry,
-- and leaves the first as it was.
pub vfs_dup_other :
    (s : Vfs) (fd to : ℕ)
    → fd < max_fd
    → to < max_fd
    → fd ≢ to
    → (s.fds fd).in_use ≡ true
    → ((vfs_dup s (pos fd) (pos to)).1 ≡ some to)
      × ((vfs_dup s (pos fd) (pos to)).0.fds to ≡ s.fds fd)
      × ((vfs_dup s (pos fd) (pos to)).0.fds fd ≡ s.fds fd)
unfolding vfs_dup fd_get dup_to choose_fd vfs_close
vfs_dup_other s fd to h g n e = (ground arith, ground arith, ground arith)
