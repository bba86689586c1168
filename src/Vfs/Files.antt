-- ===== src/Vfs/Files.antt =====
-- What is written to a file is read back.
use base_nexs.Common.{
  ℕ, ◌≤◌, ◌<◌, ◌≡◌, true, some, arith, List, [], length, NoNul, c_str-eq, take_all,
}
use base_nexs.Vfs.{
  pos, Vfs, max_fd, fd_get, vfs_write, append_file, vfs_seek, seek_target, moved, vfs_read,
  read_file, read_at, contents,
}

-- Bytes without NUL that are written to an open, empty file are read back after a seek to the start.
pub vfs_read-vfs_write :
    (s : Vfs) (fd : ℕ) (buf : List ℕ)
    → 3 ≤ fd
    → fd < max_fd
    → (s.fds fd).in_use ≡ true
    → contents (s.inodes ((s.fds fd).ino)) ≡ []
    → NoNul buf
    → let s₁ = (vfs_write s (pos fd) buf).0 in
      let s₂ = (vfs_seek s₁ (pos fd) (pos 0) 0).0 in
      (vfs_read s₂ (pos fd) (length buf)).1 ≡ some buf
unfolding vfs_write vfs_seek vfs_read fd_get append_file seek_target moved read_file read_at
vfs_read-vfs_write s fd buf h g e f n = ground (arith, c_str-eq buf n, take_all buf)
