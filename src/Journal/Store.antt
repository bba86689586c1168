-- ===== src/Journal/Store.antt =====
-- What the journal relies on: the contract of the block cache.
use base_nexs.Common.{ℕ, ◌≡◌, Bool, List, Option, some, ◌&&◌, ◌==◌, if◌then◌else◌}
use base_nexs.Journal.{Blocks}

abbrev pub same : ℕ → ℕ → ℕ → ℕ → Bool
same dev lba dev' lba' = dev == dev' && lba == lba'

-- In a `Good` state, a read answers the content of the block and changes none, a write to an `Open` device
-- changes the content of its block only, and a sync changes none; and all leave a `Good` state.
pub record IsBlocks {S : Type 0} (blocks : Blocks S) : Type 1 where
  pub Good : S → Type 0
  pub Open : ℕ → Type 0
  pub content : S → ℕ → ℕ → Option (List ℕ)
  pub read_answer :
      (s : S) (dev lba : ℕ) → Good s → (blocks.blk_read s dev lba).1 ≡ content s dev lba
  pub read_good : (s : S) (dev lba : ℕ) → Good s → Good ((blocks.blk_read s dev lba).0)
  pub read_content :
      (s : S) (dev lba d l : ℕ)
      → Good s
      → content ((blocks.blk_read s dev lba).0) d l ≡ content s d l
  pub write_good :
      (s : S) (dev lba : ℕ) (bytes : List ℕ)
      → Good s
      → Open dev
      → Good (blocks.blk_write s dev lba bytes)
  pub write_content :
      (s : S) (dev lba : ℕ) (bytes : List ℕ) (d l : ℕ)
      → Good s
      → Open dev
      → content (blocks.blk_write s dev lba bytes) d l
        ≡ (if same dev lba d l then some bytes else content s d l)
  pub sync_good : (s : S) → Good s → Good (blocks.blk_sync s)
  pub sync_content : (s : S) (d l : ℕ) → Good s → content (blocks.blk_sync s) d l ≡ content s d l
