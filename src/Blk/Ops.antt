-- ===== src/Blk/Ops.antt =====
-- The operations of the cache against the disk that it stands for.
use base_nexs.Common.{
  ℕ, ◌<◌, ◌≡◌, refl, ◌∙◌, ap, Bool, true, false, Bool-cases, inl, inr, none, some, arith,
  if◌then◌else◌, Option-cases,
}
use base_nexs.Blk.{
  Bytes, Buf, Driver, State, blk_cache, holds_block, cache_find, cache_evict, can_read, can_write,
}
use base_nexs.Blk.{install, flush_buf, blk_write, noted, dirty_buf}
use base_nexs.Blk.Find.{cache_find_sound, cache_find-none, cache_evict-some}
use base_nexs.Blk.Coherence.{same, IsDisk, content, IsCoherent, holds_block_key}
use base_nexs.Blk.Coherence.{IsReplacement, install-IsCoherent, content-install}
use base_nexs.Blk.Flush.{IsFlushed, flush_buf-IsFlushed}

module _ {D : Type 0} (driver : Driver D) (works : IsDisk driver) where
  -- The registry writes are not read back.
  pub noted-IsCoherent :
      (s : State D) (dev lba : ℕ) (d : Bool)
      → IsCoherent driver s
      → IsCoherent driver (noted driver s dev lba d)
  noted-IsCoherent s dev lba d v = record { unique = v.unique; sound = v.sound }

  -- Slot `i`, found for the block, may hold new bytes of it.
  pub found-IsReplacement :
      (s : State D) (dev lba i : ℕ) (b : Buf)
      → IsCoherent driver s
      → cache_find s.cache dev lba ≡ some i
      → b.valid ≡ true
      → b.dev_id ≡ dev
      → b.lba ≡ lba
      → (b.dirty ≡ false → driver.read s.disk dev lba ≡ some b.bytes)
      → can_read dev s.devs ≡ true
      → (b.dirty ≡ true → can_write dev s.devs ≡ true)
      → IsReplacement driver s i dev lba b
  found-IsReplacement s dev lba i b v e p q r a c w =
      let (h, k) = cache_find_sound s.cache dev lba i e in
      record {
        within = h;
        alone = λ j g ne. elim (Bool-cases (holds_block dev lba (s.cache j))) [
          | inr z ↦ z
          | inl z ↦ absurd (ne (v.unique dev lba j i g h z k))
        ];
        kept = λ z z'. let (f, g, m) = holds_block_key driver dev lba (s.cache i) k in ground arith;
        is_valid = p;
        is_dev = q;
        is_lba = r;
        agrees = a;
        reads = c;
        writes = w;
      }

  -- A slot that has been flushed may be given to a block that no slot holds.
  pub flushed-IsReplacement :
      (s s' : State D) (dev lba i : ℕ) (b : Buf)
      → IsFlushed driver s s' i
      → i < blk_cache
      → cache_find s.cache dev lba ≡ none
      → b.valid ≡ true
      → b.dev_id ≡ dev
      → b.lba ≡ lba
      → (b.dirty ≡ false → driver.read s'.disk dev lba ≡ some b.bytes)
      → can_read dev s'.devs ≡ true
      → (b.dirty ≡ true → can_write dev s'.devs ≡ true)
      → IsReplacement driver s' i dev lba b
  flushed-IsReplacement s s' dev lba i b fl h e p q r a c w = record {
    within = h;
    alone = λ j g ne. fl.places dev lba j ∙ cache_find-none s.cache dev lba e j g;
    kept = λ z z'. fl.is_clean z';
    is_valid = p;
    is_dev = q;
    is_lba = r;
    agrees = a;
    reads = c;
    writes = w;
  }

  -- What a step that stores `bytes` in the block leaves.
  pub record IsWritten (s s' : State D) (dev lba : ℕ) (bytes : Bytes) : Type 0 where
    pub coherent : IsCoherent driver s'
    pub contents :
        (dev' lba' : ℕ)
        → content driver s' dev' lba'
          ≡ (if same dev lba dev' lba' then some bytes else content driver s dev' lba')

  installed :
      (s s' : State D) (i dev lba : ℕ) (b : Buf)
      → IsCoherent driver s'
      → ((dev' lba' : ℕ) → content driver s' dev' lba' ≡ content driver s dev' lba')
      → IsReplacement driver s' i dev lba b
      → IsWritten s (install driver s' i b) dev lba b.bytes
  installed s s' i dev lba b v c r = record {
    coherent = install-IsCoherent driver s' i dev lba b v r;
    contents = λ dev' lba'.
        content-install driver s' i dev lba b v r dev' lba'
        ∙ ap (λ x. if same dev lba dev' lba' then some b.bytes else x) (c dev' lba');
  }

  module _ (s : State D) (dev lba : ℕ) where
    write_found :
        (bytes : Bytes) (i : ℕ)
        → cache_find s.cache dev lba ≡ some i
        → blk_write driver s dev lba bytes
          ≡ noted driver (install driver s i (dirty_buf driver dev lba bytes)) dev lba true
    unfolding blk_write
    write_found bytes i e = rw (e, blk_write)

    write_missed :
        (bytes : Bytes) (i : ℕ)
        → cache_find s.cache dev lba ≡ none
        → cache_evict s.cache ≡ some i
        → blk_write driver s dev lba bytes
          ≡ noted driver
              (install driver (flush_buf driver s i) i (dirty_buf driver dev lba bytes))
              dev
              lba
              true
    unfolding blk_write
    write_missed bytes i e f = rw (e, f, blk_write)

    noted-IsWritten :
        (s' : State D) (bytes : Bytes) (d : Bool)
        → IsWritten s s' dev lba bytes
        → IsWritten s (noted driver s' dev lba d) dev lba bytes
    unfolding content
    noted-IsWritten s' bytes d x = record {
      coherent = noted-IsCoherent s' dev lba d x.coherent;
      contents = x.contents;
    }

    -- After `blk_write` to a device that is registered with both functions, the block has the bytes that
    -- were written, every other block has the content that it had, and the cache is coherent again.
    pub blk_write-IsWritten :
        (bytes : Bytes)
        → IsCoherent driver s
        → can_read dev s.devs ≡ true
        → can_write dev s.devs ≡ true
        → IsWritten s (blk_write driver s dev lba bytes) dev lba bytes
    blk_write-IsWritten bytes v c w = elim (Option-cases (cache_find s.cache dev lba)) [
      | inr (i, e) ↦
          let b = dirty_buf driver dev lba bytes in
          let r = found-IsReplacement s dev lba i b v e refl refl refl (λ z. cc) c (λ z. w) in
          rw (write_found bytes i e) (
            noted-IsWritten (install driver s i b) bytes true
              (installed s s i dev lba b v (λ x y. refl) r))
      | inl e ↦
          let (i, f, h) = cache_evict-some s.cache in
          let fl = flush_buf-IsFlushed driver works s i h v in
          let s' = flush_buf driver s i in
          let b = dirty_buf driver dev lba bytes in
          let r =
            flushed-IsReplacement s s' dev lba i b fl h e refl refl refl (λ z. cc)
              (rw (fl.devices) c) (λ z. rw (fl.devices) w) in
          rw (write_missed bytes i e f) (
            noted-IsWritten (install driver s' i b) bytes true
              (installed s s' i dev lba b fl.coherent fl.contents r))
    ]
