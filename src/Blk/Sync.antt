-- ===== src/Blk/Sync.antt =====
-- After `blk_sync` the devices hold what the cache stands for.
use base_nexs.Common.{
  ℕ, zero, suc, ◌+◌, ◌≤◌, ◌<◌, ◌≡◌, ◌≢◌, refl, sym, ◌∙◌, Bool, true, false, Bool-cases, inl, inr,
  ◌⊎◌, none, arith, if◌then◌else◌, ◌&&◌, Option-cases,
}
use mathlib.Core.Path.{subst}
use native.Mathlib.Decide.{ℕ_discrete}
use base_nexs.Blk.{Driver, State, blk_cache, cache_find, can_read, can_write}
use base_nexs.Blk.{flush_buf, sync_slot, sync_from, blk_sync, noted}
use base_nexs.Blk.Find.{cache_find_sound, cache_find-none}
use base_nexs.Blk.Coherence.{
  IsDisk, content, IsCoherent, content_clean, content_uncached, holds_block_key,
}
use base_nexs.Blk.Flush.{flush_buf-IsFlushed}
use base_nexs.Blk.Ops.{noted-IsCoherent}

-- The slots below `i` are clean, and nothing has changed that a read can see.
record IsSynced {D : Type 0} (driver : Driver D) (s s' : State D) (i : ℕ) : Type 0 where
  coherent : IsCoherent driver s'
  contents : (dev lba : ℕ) → content driver s' dev lba ≡ content driver s dev lba
  devices : s'.devs ≡ s.devs
  are_clean : (j : ℕ) → j < i → (s'.cache j).valid ≡ true → (s'.cache j).dirty ≡ false

module _ {D : Type 0} (driver : Driver D) (works : IsDisk driver) where
  slot_ne : (s : State D) (i j : ℕ) → j ≢ i → (flush_buf driver s i).cache j ≡ s.cache j
  unfolding flush_buf
  slot_ne s i j h = ground arith

  -- `sync_slot` does what `flush_buf` does, but for the registry write.
  sync_slot_lem :
      (s : State D) (i : ℕ)
      → (sync_slot driver s i ≡ flush_buf driver s i)
        ⊎ (sync_slot driver s i
            ≡ noted driver (flush_buf driver s i) ((s.cache i).dev_id) ((s.cache i).lba) false)
  unfolding sync_slot flush_buf
  sync_slot_lem s i =
      elim (Bool-cases
        ((s.cache i).valid && ((s.cache i).dirty && can_write ((s.cache i).dev_id) s.devs))) [
          | inl e ↦ inr (rw e)
          | inr e ↦ inl (rw e)
        ]

  flushed-IsSynced :
      (s s' : State D) (i : ℕ)
      → i < blk_cache
      → IsSynced driver s s' i
      → IsSynced driver s (flush_buf driver s' i) (suc i)
  flushed-IsSynced s s' i h y =
      let fl = flush_buf-IsFlushed driver works s' i h y.coherent in
      record {
        coherent = fl.coherent;
        contents = λ dev lba. fl.contents dev lba ∙ y.contents dev lba;
        devices = fl.devices ∙ y.devices;
        are_clean = λ j g v. elim (ℕ_discrete j i) [
          | yes p ↦ rw p (fl.is_clean (rw p at v))
          | no p ↦ rw (slot_ne s' i j p) (y.are_clean j (omega arith) (rw (slot_ne s' i j p) at v))
        ];
      }

  noted-IsSynced :
      (s s' : State D) (i dev lba : ℕ) (d : Bool)
      → IsSynced driver s s' i
      → IsSynced driver s (noted driver s' dev lba d) i
  unfolding content
  noted-IsSynced s s' i dev lba d y = record {
    coherent = noted-IsCoherent driver works s' dev lba d y.coherent;
    contents = y.contents;
    devices = y.devices;
    are_clean = y.are_clean;
  }

  slot-IsSynced :
      (s s' : State D) (i : ℕ)
      → i < blk_cache
      → IsSynced driver s s' i
      → IsSynced driver s (sync_slot driver s' i) (suc i)
  slot-IsSynced s s' i h y = elim (sync_slot_lem s' i) [
    | inl e ↦ rw e (flushed-IsSynced s s' i h y)
    | inr e ↦ rw e (
        noted-IsSynced s (flush_buf driver s' i) (suc i) ((s'.cache i).dev_id) ((s'.cache i).lba)
          false (flushed-IsSynced s s' i h y))
  ]

  sync_from-IsSynced :
      (n i m : ℕ) (s s' : State D)
      → i + n ≡ m
      → m ≤ blk_cache
      → IsSynced driver s s' i
      → IsSynced driver s (sync_from driver n i s') m
  unfolding sync_from
  sync_from-IsSynced zero i m s s' e h y = let e' : i ≡ m = omega arith in rw (← e') y
  sync_from-IsSynced (suc n) i m s s' e h y =
      sync_from-IsSynced n (i + 1) m s (sync_slot driver s' i) (omega arith) h
        (let e' : suc i ≡ i + 1 = omega arith in rw e' at (slot-IsSynced s s' i (omega arith) y))

  sync-IsSynced :
      (s : State D) → IsCoherent driver s → IsSynced driver s (blk_sync driver s) blk_cache
  unfolding blk_sync
  sync-IsSynced s v =
      sync_from-IsSynced blk_cache 0 blk_cache s s (omega arith) (omega arith) (record {
        coherent = v;
        contents = λ dev lba. refl;
        devices = refl;
        are_clean = λ j h. absurd (omega arith);
      })

  -- From a coherent cache `blk_sync` leaves a coherent cache, the content of every block as it was, and
  -- on every device that can be read just this content.
  pub blk_sync-disk :
      (s : State D)
      → IsCoherent driver s
      → IsCoherent driver (blk_sync driver s)
        × ((dev lba : ℕ) → content driver (blk_sync driver s) dev lba ≡ content driver s dev lba)
        × ((dev lba : ℕ)
            → can_read dev s.devs ≡ true
            → driver.read ((blk_sync driver s).disk) dev lba ≡ content driver s dev lba)
  blk_sync-disk s v =
      let y = sync-IsSynced s v in
      let s' = blk_sync driver s in
      (
        y.coherent,
        y.contents,
        λ dev lba c.
            let c' : can_read dev s'.devs ≡ true =
              subst (λ x. can_read dev x ≡ true) (sym y.devices) c in
            sym (on_disk s s' dev lba y ∙ rw c') ∙ y.contents dev lba,
      )
    where
      on_disk :
          (s s' : State D) (dev lba : ℕ)
          → IsSynced driver s s' blk_cache
          → content driver s' dev lba
            ≡ (if can_read dev s'.devs then driver.read s'.disk dev lba else none)
      on_disk s s' dev lba y = elim (Option-cases (cache_find s'.cache dev lba)) [
        | inl e ↦ content_uncached driver s' dev lba (cache_find-none s'.cache dev lba e)
        | inr (i, e) ↦
            let (h, k) = cache_find_sound s'.cache dev lba i e in
            content_clean driver s' dev lba i y.coherent h k
              (y.are_clean i h (holds_block_key driver dev lba (s'.cache i) k).0)
      ]
