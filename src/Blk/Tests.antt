-- ===== src/Blk/Tests.antt =====
-- The cache over one device that is a table of blocks.
use base_nexs.Common.{ℕ, ◌≡◌, refl, true, Option, none, some, [], ◌∷◌, if◌then◌else◌}
use base_nexs.Blk.{
  Bytes, Driver, State, blank, find_dev, cache_find, find_from, cache_evict, evict_from,
}
use base_nexs.Blk.{
  better, next_best, install, flush_buf, blk_read, load_block, blk_write, blk_sync, can_read,
  can_write,
}
use base_nexs.Blk.Coherence.{same, IsDisk, content, IsCoherent}
use base_nexs.Blk.Ops.{IsWritten, blk_write-IsWritten}
use base_nexs.Blk.Read.{IsRead, blk_read-IsRead}
use base_nexs.Blk.Sync.{blk_sync-disk}

abbrev Table : Type 0
Table = ℕ → ℕ → Option Bytes

abbrev table_driver : Driver Table
table_driver = record {
  read = λ x dev lba. x dev lba;
  write = λ x dev lba bytes dev' lba'. if same dev lba dev' lba' then some bytes else x dev' lba';
}

table-IsDisk : IsDisk table_driver
table-IsDisk = record { stored = λ x dev lba dev' lba' bytes. refl }

-- Device 1 has zeroes in block 5, and nothing is cached.
abbrev start : State Table
start = record {
  cache = λ _. blank;
  clock = 0;
  devs = record { id = 1; reads = true; writes = true } ∷ [];
  disk = λ dev lba. if same dev lba 1 5 then some (0 ∷ []) else none;
  notes = [];
}

start-IsCoherent : IsCoherent table_driver start
start-IsCoherent = record {
  unique = λ dev lba i j h k e f. cc;
  sound = λ i h. record { clean = λ e f. cc; readable = λ e. cc; writable = λ e f. cc };
}

reads_device : can_read 1 start.devs ≡ true
unfolding find_dev
reads_device = refl

writes_device : can_write 1 start.devs ≡ true
unfolding find_dev
writes_device = refl

abbrev wrote : State Table
wrote = blk_write table_driver start 1 5 (7 ∷ [])

-- A block that has been written is read back, with the device not yet written.
write_then_read : (blk_read table_driver wrote 1 5).1 ≡ some (7 ∷ [])
unfolding blk_read blk_write load_block cache_find find_from cache_evict evict_from next_best better
    install flush_buf find_dev
write_then_read = refl

disk_not_yet : wrote.disk 1 5 ≡ some (0 ∷ [])
unfolding blk_read blk_write load_block cache_find find_from cache_evict evict_from next_best better
    install flush_buf find_dev
disk_not_yet = refl

blk_write-IsWritten_example : IsWritten table_driver table-IsDisk start wrote 1 5 (7 ∷ [])
blk_write-IsWritten_example =
    blk_write-IsWritten table_driver table-IsDisk start 1 5 (7 ∷ []) start-IsCoherent reads_device
      writes_device

wrote-IsCoherent : IsCoherent table_driver wrote
wrote-IsCoherent =
    (blk_write-IsWritten table_driver table-IsDisk start 1 5 (7 ∷ []) start-IsCoherent reads_device
      writes_device).coherent

blk_read-IsRead_example :
    IsRead table_driver wrote (content table_driver wrote 1 5) (blk_read table_driver wrote 1 5)
blk_read-IsRead_example = blk_read-IsRead table_driver table-IsDisk wrote 1 5 wrote-IsCoherent

blk_sync-disk_example :
    IsCoherent table_driver (blk_sync table_driver wrote)
    × ((dev lba : ℕ)
        → content table_driver (blk_sync table_driver wrote) dev lba
          ≡ content table_driver wrote dev lba)
    × ((dev lba : ℕ)
        → can_read dev wrote.devs ≡ true
        → table_driver.read ((blk_sync table_driver wrote).disk) dev lba
          ≡ content table_driver wrote dev lba)
blk_sync-disk_example = blk_sync-disk table_driver table-IsDisk wrote wrote-IsCoherent
