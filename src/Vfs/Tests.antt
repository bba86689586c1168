-- ===== src/Vfs/Tests.antt =====
-- Runs of the file layer.
use base_nexs.Common.{ℕ, ◌≤◌, ◌⊎◌, ◌<◌, ◌≡◌, refl, true, false, none, some, [], ◌∷◌, arith, str_eq}
use base_nexs.Vfs.{
  pos, negsuc, Vfs, Fd, Inode, max_fd, vfs_init, fd_alloc, free_from, fd_get, vfs_open, path_to_ino,
  ino_from, ino_create,
}
use base_nexs.Vfs.{vfs_close, vfs_dup, vfs_write, vfs_seek, vfs_read}
use base_nexs.Vfs.Table.{IsAllocated, fd_alloc-IsAllocated, vfs_dup_self, vfs_dup_other}
use base_nexs.Vfs.Files.{vfs_read-vfs_write}

abbrev boot : Vfs
boot = record {
  fds = λ _. record { in_use = false; ino = 0; flags = 0; pos = 0 };
  next_ino = 1;
  inodes = λ _. record { path = none; mode = none; bytes = none };
  mounts = [];
  console_in = [];
  console_out = [];
}

-- Descriptor 3 is open on the new file "/a".
abbrev opened : Vfs
opened = (vfs_open (vfs_init boot) (47 ∷ 97 ∷ []) 0o101).0

open_creates : (vfs_open (vfs_init boot) (47 ∷ 97 ∷ []) 0o101).1 ≡ some 3
unfolding vfs_init vfs_open path_to_ino ino_from ino_create fd_alloc free_from
open_creates = refl

open_missing : (vfs_open (vfs_init boot) (47 ∷ 97 ∷ []) 0o001).1 ≡ none
unfolding vfs_init vfs_open path_to_ino ino_from ino_create fd_alloc free_from
open_missing = refl

open_again : path_to_ino opened (47 ∷ 97 ∷ []) ≡ 1
unfolding vfs_init vfs_open path_to_ino ino_from ino_create fd_alloc free_from str_eq
open_again = refl

in_use_3 : (opened.fds 3).in_use ≡ true
unfolding vfs_init vfs_open path_to_ino ino_from ino_create fd_alloc free_from
in_use_3 = refl

empty_3 : base_nexs.Vfs.contents (opened.inodes ((opened.fds 3).ino)) ≡ []
unfolding vfs_init vfs_open path_to_ino ino_from ino_create fd_alloc free_from
empty_3 = refl

vfs_dup_self_example :
    ((vfs_dup opened (pos 3) (pos 3)).1 ≡ some 3)
    × (fd_get ((vfs_dup opened (pos 3) (pos 3)).0) (pos 3) ≡ none)
vfs_dup_self_example = vfs_dup_self opened 3 (omega arith) (omega arith) in_use_3

vfs_dup_other_example :
    ((vfs_dup opened (pos 3) (pos 1)).1 ≡ some 1)
    × ((vfs_dup opened (pos 3) (pos 1)).0.fds 1 ≡ opened.fds 3)
    × ((vfs_dup opened (pos 3) (pos 1)).0.fds 3 ≡ opened.fds 3)
vfs_dup_other_example = vfs_dup_other opened 3 1 (omega arith) (omega arith) (omega arith) in_use_3

vfs_read-vfs_write_example :
    let s₁ = (vfs_write opened (pos 3) (104 ∷ 105 ∷ [])).0 in
    let s₂ = (vfs_seek s₁ (pos 3) (pos 0) 0).0 in (vfs_read s₂ (pos 3) 2).1 ≡ some (104 ∷ 105 ∷ [])
vfs_read-vfs_write_example =
    vfs_read-vfs_write opened 3 (104 ∷ 105 ∷ []) (omega arith) (omega arith) in_use_3 empty_3
      (omega arith)

fd_alloc-IsAllocated_example :
    (fd_alloc opened 7 1 ≡ (opened, none))
      × ((k : ℕ) → 3 ≤ k → k < max_fd → (opened.fds k).in_use ≡ true)
    ⊎ ((s' : Vfs) × (i : ℕ) × (fd_alloc opened 7 1 ≡ (s', some i)) × IsAllocated opened s' 7 1 i)
fd_alloc-IsAllocated_example = fd_alloc-IsAllocated opened 7 1
