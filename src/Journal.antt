-- ===== src/Journal.antt =====
-- kernel/journal.c: a log of the old contents of blocks, from which they are restored.
-- The blocks are reached through `Blocks`, which the block cache fills; each is a list of bytes.
pub mod Store
pub mod Records
pub mod Layout
pub mod Scan
pub mod Replay
pub mod Logged
pub mod Undo
pub mod Committed
pub mod OverCache
mod Tests
use base_nexs.Common.{
  ℕ, zero, suc, ◌+◌, ◌-◌, ◌*◌, ◌%◌, ◌^◌, Bool, true, false, not, ◌||◌, ◌&&◌, Option, none, some,
  List, [], ◌∷◌, ◌++◌, ◌==◌, if◌then◌else◌, le_bytes, le_at,
}

-- `blk_read`, `blk_write` and `blk_sync` over the state `S` of the block device layer.
pub record Blocks (S : Type 0) : Type 0 where
  pub blk_read : S → ℕ → ℕ → S × Option (List ℕ)
  pub blk_write : S → ℕ → ℕ → List ℕ → S
  pub blk_sync : S → S

abbrev pub blk_size : ℕ
blk_size = 4096

abbrev pub journal_magic : ℕ
journal_magic = 1314409036

abbrev pub journal_hdr_meta : ℕ
journal_hdr_meta = 25

abbrev pub zeros : ℕ → List ℕ
zeros zero = []
zeros (suc n) = 0 ∷ zeros n

-- `JournalHdr`, without the padding.
pub record JournalHdr : Type 0 where
  pub magic : ℕ
  pub seq : ℕ
  pub dev : ℕ
  pub lba : ℕ
  pub commit : ℕ

-- The packed struct in memory, padded to a block, and what a block read into it holds.
unfoldable pub hdr_bytes : JournalHdr → List ℕ
hdr_bytes h =
    le_bytes 4 h.magic
    ++ (le_bytes 8 h.seq
        ++ (le_bytes 4 h.dev
            ++ (le_bytes 8 h.lba ++ (le_bytes 1 h.commit ++ zeros (blk_size - journal_hdr_meta)))))

unfoldable pub hdr_of : List ℕ → JournalHdr
hdr_of bytes = record {
  magic = le_at 0 4 bytes;
  seq = le_at 4 8 bytes;
  dev = le_at 12 4 bytes;
  lba = le_at 16 8 bytes;
  commit = le_at 24 1 bytes;
}

-- A registry write below "/sys/journal".
pub data Note : Type 0 where
  status_ok : Note
  status_checkpointed : Note
  capacity : ℕ → Note
  txn_open : ℕ → Note
  last_seq : ℕ → Note
  commit_cnt : ℕ → Note
  replayed : ℕ → Note

-- The static variables of journal.c, and the registry writes, newest first. The count of commits starts again
-- at 64, and so has no limit here.
pub record Journal : Type 0 where
  pub dev : ℕ
  pub base_lba : ℕ
  pub n_blocks : ℕ
  pub write_pos : ℕ
  pub seq : ℕ
  pub in_txn : Bool
  pub commit_count : ℕ
  pub notes : List Note

unfoldable pub journal_lba_hdr : Journal → ℕ → ℕ
journal_lba_hdr j pos = (j.base_lba + pos * 2 % 2 ^ 64 % (j.n_blocks * 2 % 2 ^ 32)) % 2 ^ 64

unfoldable pub journal_lba_data : Journal → ℕ → ℕ
journal_lba_data j pos = (j.base_lba + (pos * 2 + 1) % 2 ^ 64 % (j.n_blocks * 2 % 2 ^ 32)) % 2 ^ 64

unfoldable pub journal_init : Journal → ℕ → ℕ → ℕ → Journal
journal_init j dev lba n = record {
  dev = dev;
  base_lba = lba;
  n_blocks = n;
  write_pos = 0;
  seq = 0;
  in_txn = false;
  commit_count = 0;
  notes = capacity n ∷ status_ok ∷ j.notes;
}

-- `none` for -1.
unfoldable pub journal_begin : Journal → Option Journal
journal_begin j =
    if j.in_txn
    then none
    else some (record j { seq = (j.seq + 1) % 2 ^ 64; in_txn = true; notes = txn_open 1 ∷ j.notes })

module _ {S : Type 0} (blocks : Blocks S) where
  unfoldable pub write_record : Journal → S → ℕ → ℕ → ℕ → Option (List ℕ) → ℕ → S
  write_record j s pos dev lba contents commit =
      let h =
        hdr_bytes
          (record { magic = journal_magic; seq = j.seq; dev = dev; lba = lba; commit = commit }) in
      let s' = blocks.blk_write s j.dev (journal_lba_hdr j pos) h in
      elim contents [
        | none ↦ s'
        | some bytes ↦ blocks.blk_write s' j.dev (journal_lba_data j pos) bytes
      ]

  abbrev pub next_pos : Journal → Journal
  next_pos j = record j { write_pos = (j.write_pos + 1) % 2 ^ 64 }

  -- The old contents as they are logged: zeroes where the block cannot be read.
  abbrev pub or_zeros : Option (List ℕ) → List ℕ
  or_zeros none = zeros blk_size
  or_zeros (some bytes) = bytes

  unfoldable pub journal_log : Journal → S → ℕ → ℕ → Option (Journal × S)
  journal_log j s dev lba =
      let old = blocks.blk_read s dev lba in
      if not j.in_txn || j.n_blocks == 0
      then none
      else some (next_pos j, write_record j (old.0) j.write_pos dev lba (some (or_zeros (old.1))) 0)

  unfoldable pub journal_checkpoint : Journal → S → Journal × S
  journal_checkpoint j s = (
    record j { write_pos = 0; commit_count = 0; notes = status_checkpointed ∷ j.notes },
    blocks.blk_sync s,
  )

  abbrev pub closed : Journal → Journal
  closed j = record j {
    in_txn = false;
    commit_count = j.commit_count + 1;
    notes = commit_cnt (j.commit_count + 1) ∷ last_seq j.seq ∷ txn_open 0 ∷ j.notes;
  }

  unfoldable pub journal_commit : Journal → S → Option (Journal × S)
  journal_commit j s =
      let s' = write_record j s j.write_pos j.dev 0 none 1 in
      let j' = closed (next_pos j) in
      if j.in_txn
      then some (if j'.commit_count % 64 == 0 then journal_checkpoint j' s' else (j', s'))
      else none

  -- The old contents go back where the record says, if they can be read.
  unfoldable pub restore : Journal → S → ℕ → JournalHdr → S
  restore j s pos h =
      let r = blocks.blk_read s j.dev (journal_lba_data j pos) in
      elim (r.1) [ none ↦ r.0 | some bytes ↦ blocks.blk_write (r.0) h.dev h.lba bytes ]

  -- The loop of `journal_replay` over the `left` records from `pos` on, and where it stops.
  unfoldable pub replay_from : ℕ → ℕ → Journal → S → S × ℕ
  replay_from zero pos j s = (s, pos)
  replay_from (suc left) pos j s =
      let r = blocks.blk_read s j.dev (journal_lba_hdr j pos) in
      elim (r.1) [
        | none ↦ (r.0, pos)
        | some bytes ↦
            let h = hdr_of bytes in
            let restored = restore j (r.0) pos h in
            let s' = if h.commit == 0 then restored else r.0 in
            let rest = replay_from left (pos + 1) j s' in
            if h.magic == journal_magic then rest else (r.0, pos)
      ]

  unfoldable pub journal_replay : Journal → S → Journal × S
  journal_replay j s =
      let out = replay_from j.n_blocks 0 j s in
      if j.n_blocks == 0 then (j, s) else (record j { notes = replayed (out.1) ∷ j.notes }, out.0)
