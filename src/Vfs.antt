-- ===== src/Vfs.antt =====
-- kernel/vfs.c: file descriptors, inodes and mounts. The registry keys that it uses are a store with one
-- cell for each attribute of an inode; the console is a list of characters on either side.
pub mod Table
pub mod Files
mod Tests
use Prim.Native.Nat.{bit_and, bit_or}
use base_nexs.Common.{
  ℕ, zero, suc, ◌+◌, ◌-◌, ◌%◌, ◌^◌, Bool, true, false, not, ◌&&◌, ◌||◌, Option, none, some, List,
  [], ◌∷◌, ◌++◌, ltb, leb, ◌==◌, if◌then◌else◌, update, length, take, drop, c_str, str_eq,
}

abbrev pub max_fd : ℕ
max_fd = 64

abbrev pub max_mounts : ℕ
max_mounts = 16

-- `VfsFd`
pub record Fd : Type 0 where
  pub in_use : Bool
  pub ino : ℕ
  pub flags : ℕ
  pub pos : ℕ

-- `VfsMount`
pub record Mount : Type 0 where
  pub src : List ℕ
  pub dst : List ℕ
  pub fstype : List ℕ

-- The keys /vfs/inode/<ino>/path, /mode and /data; `none` is a key that is not there.
pub record Inode : Type 0 where
  pub path : Option (List ℕ)
  pub mode : Option ℕ
  pub bytes : Option (List ℕ)

pub record Vfs : Type 0 where
  pub fds : ℕ → Fd
  pub next_ino : ℕ
  pub inodes : ℕ → Inode
  pub mounts : List Mount
  pub console_in : List ℕ
  pub console_out : List ℕ

-- An `int` argument that may be negative.
pub data ℤ : Type 0 where
  pos : ℕ → ℤ
  negsuc : ℕ → ℤ

abbrev pub std_fd : ℕ → ℕ → Fd
std_fd i flags = record { in_use = true; ino = i; flags = flags; pos = 0 }

unfoldable pub vfs_init : Vfs → Vfs
vfs_init s = record s {
  fds = update (update (update s.fds 0 (std_fd 0 0)) 1 (std_fd 1 1)) 2 (std_fd 2 1);
}

-- The first slot of the `n` from `i` on that is not in use.
unfoldable pub free_from : ℕ → ℕ → (ℕ → Fd) → Option ℕ
free_from zero i fds = none
free_from (suc n) i fds = if (fds i).in_use then free_from n (i + 1) fds else some i

unfoldable pub fd_alloc : Vfs → ℕ → ℕ → Vfs × Option ℕ
fd_alloc s ino flags = elim (free_from (max_fd - 3) 3 s.fds) [
  | none ↦ (s, none)
  | some i ↦ (
    record s { fds = update s.fds i (record { in_use = true; ino = ino; flags = flags; pos = 0 }) },
    some i,
  )
]

-- The index of the descriptor, if it is open.
unfoldable pub fd_get : Vfs → ℤ → Option ℕ
fd_get s (negsuc n) = none
fd_get s (pos fd) = if leb max_fd fd || not (s.fds fd).in_use then none else some fd

abbrev pub is_std : ℤ → Bool
is_std (negsuc n) = false
is_std (pos n) = ltb n 3

-- 0 is `some tt`, -1 is `none`.
unfoldable pub vfs_close : Vfs → ℤ → Vfs × Option (Unit {0})
vfs_close s fd = if is_std fd then (s, some tt) else elim (fd_get s fd) [
  | none ↦ (s, none)
  | some i ↦ (record s { fds = update s.fds i (record (s.fds i) { in_use = false }) }, some tt)
]

-- The last lines of `vfs_dup`, at a descriptor that has been chosen. `src` points into the table, so the
-- entry is read after the target has been closed.
unfoldable pub dup_to : Vfs → ℕ → ℤ → Vfs × Option ℕ
dup_to s i (negsuc n) = (s, none)
dup_to s i (pos n) =
    if leb max_fd n
    then (s, none)
    else let s' = if (s.fds n).in_use then (vfs_close s (pos n)).0 else s in
      (record s' { fds = update s'.fds n (s'.fds i) }, some n)

-- `newfd == -1` asks for the first free descriptor.
unfoldable pub choose_fd : Vfs → ℤ → ℤ
choose_fd s (pos n) = pos n
choose_fd s (negsuc (suc n)) = negsuc (suc n)
choose_fd s (negsuc zero) = elim (free_from (max_fd - 3) 3 s.fds) [
  | none ↦ negsuc 0
  | some i ↦ pos i
]

unfoldable pub vfs_dup : Vfs → ℤ → ℤ → Vfs × Option ℕ
vfs_dup s oldfd newfd = elim (fd_get s oldfd) [
  | none ↦ (s, none)
  | some i ↦ dup_to s i (choose_fd s newfd)
]

-- `position + offset`, if it is not negative. The sum is one of `int64_t`: above that the C is undefined, and `none`
-- stands for no position.
unfoldable pub moved : ℕ → ℤ → Option ℕ
moved p (pos n) = if ltb (p + n) (2 ^ 63) then some (p + n) else none
moved p (negsuc n) = if ltb n p then some (p - (n + 1)) else none

-- SEEK_SET, SEEK_CUR and SEEK_END; the last is treated as the first.
unfoldable pub seek_target : ℕ → ℤ → ℕ → Option ℕ
unfolding moved
seek_target p offset whence =
    if whence == 0
    then moved 0 offset
    else if whence == 1
    then moved p offset
    else if whence == 2
    then moved 0 offset
    else none

-- The result is cut to an `int`.
unfoldable pub vfs_seek : Vfs → ℤ → ℤ → ℕ → Vfs × Option ℕ
vfs_seek s fd offset whence = elim (fd_get s fd) [
  | none ↦ (s, none)
  | some i ↦ elim (seek_target ((s.fds i).pos) offset whence) [
    | none ↦ (s, none)
    | some p ↦ (record s { fds = update s.fds i (record (s.fds i) { pos = p }) }, some (p % 2 ^ 32))
  ]
]

abbrev pub has_path : Inode → List ℕ → Bool
has_path n path = elim (n.path) [ none ↦ false | some p ↦ str_eq p path ]

unfoldable pub ino_from : ℕ → ℕ → (ℕ → Inode) → List ℕ → ℕ
ino_from zero ino inodes path = 0
ino_from (suc n) ino inodes path =
    if has_path (inodes ino) path then ino else ino_from n (ino + 1) inodes path

-- 0 is no inode.
unfoldable pub path_to_ino : Vfs → List ℕ → ℕ
path_to_ino s path = ino_from (s.next_ino - 1) 1 s.inodes path

-- `ino_alloc` and `ino_publish`.
unfoldable pub ino_create : Vfs → List ℕ → ℕ → Vfs
ino_create s path mode = record s {
  next_ino = s.next_ino + 1;
  inodes =
      update s.inodes s.next_ino
        (record (s.inodes s.next_ino) { path = some path; mode = some mode });
}

unfoldable pub vfs_open : Vfs → List ℕ → ℕ → Vfs × Option ℕ
vfs_open s path flags =
    let ino = path_to_ino s path in
    if ino == 0
    then if bit_and flags 0o100 == 0
      then (s, none)
      else fd_alloc (ino_create s path 0o100644) s.next_ino flags
    else fd_alloc s ino flags

-- Standard input: up to `n` characters, to the end of the line or of what is there.
unfoldable pub read_line : ℕ → List ℕ → List ℕ × List ℕ
read_line zero cs = ([], cs)
read_line (suc n) [] = ([], [])
read_line (suc n) (c ∷ cs) =
    let (got, rest) = read_line n cs in if c == 10 then (c ∷ [], cs) else (c ∷ got, rest)

-- The bytes of a file at a position, and how many there are.
unfoldable pub read_at : List ℕ → ℕ → ℕ → List ℕ
read_at bytes p n = take n (drop p bytes)

unfoldable pub read_file : Vfs → ℕ → ℕ → Vfs × Option (List ℕ)
read_file s i n = elim ((s.inodes ((s.fds i).ino)).bytes) [
  | none ↦ (s, some [])
  | some bytes ↦
      let got = read_at bytes ((s.fds i).pos) n in
      (
        record s { fds = update s.fds i (record (s.fds i) { pos = (s.fds i).pos + length got }) },
        some got,
      )
]

-- What goes through `buf`; the result is its length, or -1.
unfoldable pub vfs_read : Vfs → ℤ → ℕ → Vfs × Option (List ℕ)
vfs_read s (negsuc k) n = (s, none)
vfs_read s (pos fd) n =
    if fd == 0
    then (let (got, rest) = read_line n s.console_in in (record s { console_in = rest }, some got))
    else elim (fd_get s (pos fd)) [ none ↦ (s, none) | some i ↦ read_file s i n ]

abbrev pub contents : Inode → List ℕ
contents n = elim (n.bytes) [ none ↦ [] | some bytes ↦ bytes ]

-- Append, whatever the position; the registry keeps a C string.
unfoldable pub append_file : Vfs → ℕ → List ℕ → Vfs
append_file s i buf =
    let ino = (s.fds i).ino in
    let old = contents (s.inodes ino) in
    record s {
      inodes = update s.inodes ino (record (s.inodes ino) { bytes = some (c_str (old ++ buf)) });
      fds = update s.fds i (record (s.fds i) { pos = (s.fds i).pos + length buf });
    }

unfoldable pub vfs_write : Vfs → ℤ → List ℕ → Vfs × Option ℕ
vfs_write s (negsuc k) buf = (s, none)
vfs_write s (pos fd) buf =
    if fd == 1 || fd == 2
    then (record s { console_out = s.console_out ++ buf }, some (length buf))
    else elim (fd_get s (pos fd)) [
      | none ↦ (s, none)
      | some i ↦ (append_file s i buf, some (length buf))
    ]

-- The inode, its mode (0100644 where there is none) of what `vfs_stat` fills in.
unfoldable pub vfs_stat : Vfs → List ℕ → Option (ℕ × ℕ)
vfs_stat s path =
    let ino = path_to_ino s path in
    if ino == 0
    then none
    else some (ino, elim ((s.inodes ino).mode) [ some m ↦ m | none ↦ 0o100644 ])

unfoldable pub vfs_mkdir : Vfs → List ℕ → ℕ → Vfs
vfs_mkdir s path mode =
    if path_to_ino s path == 0 then ino_create s path (bit_or mode 0o040000) else s

unfoldable pub vfs_mount : Vfs → List ℕ → List ℕ → List ℕ → Vfs × Option (Unit {0})
vfs_mount s src dst fstype = if leb max_mounts (length s.mounts) then (s, none) else (
  record s { mounts = s.mounts ++ (record { src = src; dst = dst; fstype = fstype } ∷ []) },
  some tt,
)
