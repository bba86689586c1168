-- ===== src/Journal/OverCache.antt =====
-- kernel/journal.c over kernel/blk.c: the block cache keeps the contract that the journal relies on.
use base_nexs.Common.{
  ℕ, zero, suc, ◌+◌, ◌≡◌, refl, sym, ◌∙◌, true, Bool-cases, Option-cases, inl, inr, arith, List,
}
use mathlib.Core.Path.{subst}
use base_nexs.Blk.{
  Driver, State, Dev, cache_find, cache_evict, can_read, can_write, install, flush_buf, blk_read,
  load_block, blk_write, sync_slot, sync_from, blk_sync, blk_cache,
}
use base_nexs.Blk.Coherence.{IsDisk, content, IsCoherent}
use base_nexs.Blk.Ops.{IsWritten, blk_write-IsWritten}
use base_nexs.Blk.Read.{blk_read-IsRead}
use base_nexs.Blk.Sync.{blk_sync-disk}
use base_nexs.Journal.{Blocks}
use base_nexs.Journal.Store.{IsBlocks}

module _ {D : Type 0} (driver : Driver D) where
  flush_devs : (s : State D) (i : ℕ) → (flush_buf driver s i).devs ≡ s.devs
  unfolding flush_buf
  flush_devs s i = ground arith

  sync_slot_devs : (s : State D) (i : ℕ) → (sync_slot driver s i).devs ≡ s.devs
  unfolding sync_slot
  sync_slot_devs s i = let x = flush_devs s i in ground arith

  sync_from_devs : (n i : ℕ) (s : State D) → (sync_from driver n i s).devs ≡ s.devs
  unfolding sync_from
  sync_from_devs zero i s = refl
  sync_from_devs (suc n) i s = sync_from_devs n (i + 1) (sync_slot driver s i) ∙ sync_slot_devs s i

  load_devs : (s : State D) (dev lba : ℕ) → ((load_block driver s dev lba).0).devs ≡ s.devs
  unfolding load_block install
  load_devs s dev lba = elim (Option-cases (driver.read s.disk dev lba)) [
    | inl e ↦ rw (load_block, e) refl
    | inr (bytes, e) ↦ elim (Option-cases (cache_evict s.cache)) [
      | inl f ↦ rw (load_block, e, f) refl
      | inr (i, f) ↦ rw (load_block, e, f) (flush_devs s i)
    ]
  ]

  pub read_devs : (s : State D) (dev lba : ℕ) → ((blk_read driver s dev lba).0).devs ≡ s.devs
  unfolding blk_read install
  read_devs s dev lba = elim (Option-cases (cache_find s.cache dev lba)) [
    | inl e ↦ elim (Bool-cases (can_read dev s.devs)) [
      | inl c ↦ rw (blk_read, e, c) (load_devs s dev lba)
      | inr c ↦ rw (blk_read, e, c) refl
    ]
    | inr (i, e) ↦ rw (blk_read, e) refl
  ]

  pub write_devs :
      (s : State D) (dev lba : ℕ) (bytes : List ℕ)
      → (blk_write driver s dev lba bytes).devs ≡ s.devs
  unfolding blk_write install
  write_devs s dev lba bytes = elim (Option-cases (cache_find s.cache dev lba)) [
    | inl e ↦ elim (Option-cases (cache_evict s.cache)) [
      | inl f ↦ rw (blk_write, e, f) refl
      | inr (i, f) ↦ rw (blk_write, e, f) (flush_devs s i)
    ]
    | inr (i, e) ↦ rw (blk_write, e) refl
  ]

  pub sync_devs : (s : State D) → (blk_sync driver s).devs ≡ s.devs
  unfolding blk_sync
  sync_devs s = sync_from_devs blk_cache 0 s

  -- A write in a good state to an open device.
  pub written :
      (works : IsDisk driver) (devs : List Dev) (s : State D) (dev lba : ℕ) (bytes : List ℕ)
      → IsCoherent driver s × (s.devs ≡ devs)
      → (can_read dev devs ≡ true) × (can_write dev devs ≡ true)
      → IsWritten driver works s (blk_write driver s dev lba bytes) dev lba bytes
  written works devs s dev lba bytes g o =
      blk_write-IsWritten driver works s dev lba bytes (g.0)
        (subst (λ x. can_read dev x ≡ true) (sym (g.1)) (o.0))
        (subst (λ x. can_write dev x ≡ true) (sym (g.1)) (o.1))

  abbrev pub cache_blocks : Blocks (State D)
  cache_blocks = record {
    blk_read = blk_read driver;
    blk_write = blk_write driver;
    blk_sync = blk_sync driver;
  }

  -- The cache over devices that keep what is written, with the devices of `devs` registered.
  unfoldable pub cache-IsBlocks : IsDisk driver → List Dev → IsBlocks cache_blocks
  cache-IsBlocks works devs = record {
    Good = λ s. IsCoherent driver s × (s.devs ≡ devs);
    Open = λ dev. (can_read dev devs ≡ true) × (can_write dev devs ≡ true);
    content = content driver;
    read_answer = λ s dev lba g. (blk_read-IsRead driver works s dev lba (g.0)).bytes;
    read_good = λ s dev lba g.
        ((blk_read-IsRead driver works s dev lba (g.0)).coherent, read_devs s dev lba ∙ g.1);
    read_content = λ s dev lba d l g. (blk_read-IsRead driver works s dev lba (g.0)).contents d l;
    write_good = λ s dev lba bytes g o.
        ((written works devs s dev lba bytes g o).coherent, write_devs s dev lba bytes ∙ g.1);
    write_content =
        λ s dev lba bytes d l g o. (written works devs s dev lba bytes g o).contents d l;
    sync_good = λ s g. ((blk_sync-disk driver works s (g.0)).0, sync_devs s ∙ g.1);
    sync_content = λ s d l g. (blk_sync-disk driver works s (g.0)).1 d l;
  }
