-- ===== src/Blk/Read.antt =====
-- `blk_read` answers the content of the block, and changes the content of none.
use base_nexs.Common.{
  ℕ, ◌<◌, ◌≡◌, refl, sym, ◌∙◌, ap, true, Bool-cases, inl, inr, Option, none, some, arith,
  if◌then◌else◌, Option-cases,
}
use mathlib.Core.Path.{subst, subst₂}
use base_nexs.Blk.{Bytes, Driver, State, blk_cache, cache_find, cache_evict, can_read, can_write}
use base_nexs.Blk.{install, flush_buf, blk_read, load_block, clean_buf}
use base_nexs.Blk.Find.{cache_find_sound, cache_find-none, cache_evict-some}
use base_nexs.Blk.Coherence.{
  same, IsDisk, content, IsCoherent, content_cached, content_uncached, holds_block_key,
}
use base_nexs.Blk.Coherence.{install-IsCoherent, content-install}
use base_nexs.Blk.Flush.{flush_buf-IsFlushed}
use base_nexs.Blk.Ops.{found-IsReplacement, flushed-IsReplacement}

-- A read answers `answer`, and leaves the same contents behind.
pub record IsRead {D : Type 0} (driver : Driver D) (s : State D) (answer : Option Bytes)
    (out : State D × Option Bytes) : Type 0 where
  pub bytes : out.1 ≡ answer
  pub coherent : IsCoherent driver (out.0)
  pub contents : (dev lba : ℕ) → content driver (out.0) dev lba ≡ content driver s dev lba

module _ {D : Type 0} (driver : Driver D) (works : IsDisk driver) (s : State D) (dev lba : ℕ)
    (v : IsCoherent driver s) where
  -- Storing in the block what it contains already changes no content.
  same-content :
      (s' : State D) (bytes : Bytes)
      → content driver s dev lba ≡ some bytes
      → ((dev' lba' : ℕ)
          → content driver s' dev' lba'
            ≡ (if same dev lba dev' lba' then some bytes else content driver s dev' lba'))
      → (dev' lba' : ℕ) → content driver s' dev' lba' ≡ content driver s dev' lba'
  same-content s' bytes e h dev' lba' = elim (Bool-cases (same dev lba dev' lba')) [
    | inr f ↦ let g = rw f at (h dev' lba') in g
    | inl f ↦
        let g = rw f at (h dev' lba') in
        let (p, q) = key f in g ∙ sym (subst₂ (λ x y. content driver s x y ≡ some bytes) p q e)
  ]
    where
      key : same dev lba dev' lba' ≡ true → (dev ≡ dev') × (lba ≡ lba')
      key f = ground arith

  unchanged :
      (answer : Option Bytes)
      → answer ≡ content driver s dev lba
      → IsRead driver s (content driver s dev lba) (s, answer)
  unchanged answer e = record { bytes = e; coherent = v; contents = λ x y. refl }

  IsRead-found :
      (i : ℕ)
      → cache_find s.cache dev lba ≡ some i
      → IsRead driver s
          (content driver s dev lba)
          (install driver s i (s.cache i), some ((s.cache i).bytes))
  IsRead-found i e =
      let (h, k) = cache_find_sound s.cache dev lba i e in
      let (a, b, c) = holds_block_key driver dev lba (s.cache i) k in
      let f = content_cached driver s dev lba i v h k in
      let sd = v.sound i h in
      let r =
        found-IsReplacement driver works s dev lba i (s.cache i) v e a b c
          (λ z.
            subst₂ (λ x y. driver.read s.disk x y ≡ some ((s.cache i).bytes)) b c (sd.clean a z))
          (subst (λ x. can_read x s.devs ≡ true) b (sd.readable a))
          (λ z. subst (λ x. can_write x s.devs ≡ true) b (sd.writable a z)) in
      record {
        bytes = sym f;
        coherent = install-IsCoherent driver s i dev lba (s.cache i) v r;
        contents =
            same-content (install driver s i (s.cache i)) ((s.cache i).bytes) f
              (content-install driver s i dev lba (s.cache i) v r);
      }

  read_missed :
      (i : ℕ) (bytes : Bytes)
      → cache_find s.cache dev lba ≡ none
      → can_read dev s.devs ≡ true
      → driver.read s.disk dev lba ≡ some bytes
      → i < blk_cache
      → IsRead driver s
          (content driver s dev lba)
          (install driver (flush_buf driver s i) i (clean_buf driver dev lba bytes), some bytes)
  read_missed i bytes e c f h =
      let fl = flush_buf-IsFlushed driver works s i h v in
      let s' = flush_buf driver s i in
      let b = clean_buf driver dev lba bytes in
      let c' : can_read dev s'.devs ≡ true = rw (fl.devices) c in
      let old : content driver s dev lba ≡ some bytes =
        content_uncached driver s dev lba (cache_find-none s.cache dev lba e) ∙ rw c f in
      let nowhere = λ (j : ℕ) (g : j < blk_cache).
        fl.places dev lba j ∙ cache_find-none s.cache dev lba e j g in
      let now : driver.read s'.disk dev lba ≡ some bytes =
        (rw c' at (sym (content_uncached driver s' dev lba nowhere))) ∙ fl.contents dev lba ∙ old in
      let r =
        flushed-IsReplacement driver works s s' dev lba i b fl h e refl refl refl (λ z. now) c'
          (λ z. cc) in
      record {
        bytes = sym old;
        coherent = install-IsCoherent driver s' i dev lba b fl.coherent r;
        contents = same-content (install driver s' i b) bytes old (λ x y.
            content-install driver s' i dev lba b fl.coherent r x y
            ∙ ap (λ z. if same dev lba x y then some bytes else z) (fl.contents x y));
      }

  -- The branches of `blk_read`.
  branch_found :
      (i : ℕ)
      → cache_find s.cache dev lba ≡ some i
      → blk_read driver s dev lba ≡ (install driver s i (s.cache i), some ((s.cache i).bytes))
  unfolding blk_read
  branch_found i e = rw (e, blk_read)

  branch_load :
      cache_find s.cache dev lba ≡ none
      → blk_read driver s dev lba
        ≡ (if can_read dev s.devs then load_block driver s dev lba else (s, none))
  unfolding blk_read
  branch_load e = rw (e, blk_read)

  load_failed : driver.read s.disk dev lba ≡ none → load_block driver s dev lba ≡ (s, none)
  unfolding load_block
  load_failed e = rw (e, load_block)

  load_done :
      (i : ℕ) (bytes : Bytes)
      → driver.read s.disk dev lba ≡ some bytes
      → cache_evict s.cache ≡ some i
      → load_block driver s dev lba
        ≡ (install driver (flush_buf driver s i) i (clean_buf driver dev lba bytes), some bytes)
  unfolding load_block
  load_done i bytes e f = rw (e, f, load_block)

  -- From a coherent cache `blk_read` answers the content of the block, -1 where it has none, and leaves
  -- the cache coherent and the content of every block as it was.
  pub blk_read-IsRead : IsRead driver s (content driver s dev lba) (blk_read driver s dev lba)
  blk_read-IsRead = elim (Option-cases (cache_find s.cache dev lba)) [
    | inr (i, e) ↦ rw (branch_found i e) (IsRead-found i e)
    | inl e ↦
        let u = content_uncached driver s dev lba (cache_find-none s.cache dev lba e) in
        elim (Bool-cases (can_read dev s.devs)) [
          | inr c ↦ let u' = rw c at u in rw (branch_load e, c) (unchanged none (sym u'))
          | inl c ↦ elim (Option-cases (driver.read s.disk dev lba)) [
            | inl f ↦ rw (branch_load e, c, load_failed f) (unchanged none (sym (u ∙ rw c f)))
            | inr (bytes, f) ↦
                let (i, g, h) = cache_evict-some s.cache in
                rw (branch_load e, c, load_done i bytes f g) (read_missed i bytes e c f h)
          ]
        ]
  ]
