-- ===== src/Blk/Coherence.antt =====
-- The cache refines a disk: what a read answers for a block changes by a write to that block only.
use base_nexs.Common.{
  ℕ, ◌<◌, ◌≡◌, ◌≢◌, refl, sym, List, ◌∙◌, Bool, true, false, Bool-cases, inl, inr, Option, none,
  some, arith, if◌then◌else◌, ◌&&◌, ◌==◌, Option-cases,
}
use mathlib.Core.Path.{subst, subst₂}
use native.Mathlib.Decide.{ℕ_discrete}
use base_nexs.Blk.{
  Bytes, Buf, Dev, Driver, State, blk_cache, holds_block, cache_find, can_read, can_write,
}
use base_nexs.Blk.{install}
use base_nexs.Blk.Find.{cache_find_sound, cache_find-none}

abbrev pub same : ℕ → ℕ → ℕ → ℕ → Bool
same dev lba dev' lba' = dev == dev' && lba == lba'

-- A device keeps what is written to a block, until the block is written again.
pub record IsDisk {D : Type 0} (driver : Driver D) : Type 0 where
  pub stored :
      (x : D) (dev lba dev' lba' : ℕ) (bytes : Bytes)
      → driver.read (driver.write x dev lba bytes) dev' lba'
        ≡ (if same dev lba dev' lba' then some bytes else driver.read x dev' lba')

module _ {D : Type 0} (driver : Driver D) where
  -- What a read of the block answers: the cached bytes, or else the device's.
  unfoldable pub content : State D → ℕ → ℕ → Option Bytes
  content s dev lba = elim (cache_find s.cache dev lba) [
    | some i ↦ some ((s.cache i).bytes)
    | none ↦ if can_read dev s.devs then driver.read s.disk dev lba else none
  ]

  -- A clean buffer agrees with its device, and the device of a buffer can be read, and written if the
  -- buffer is dirty.
  pub record IsSound (disk : D) (devs : List Dev) (b : Buf) : Type 0 where
    pub clean : b.valid ≡ true → b.dirty ≡ false → driver.read disk b.dev_id b.lba ≡ some b.bytes
    pub readable : b.valid ≡ true → can_read b.dev_id devs ≡ true
    pub writable : b.valid ≡ true → b.dirty ≡ true → can_write b.dev_id devs ≡ true

  -- No block is cached twice, and every buffer is sound.
  pub record IsCoherent (s : State D) : Type 0 where
    pub unique :
        (dev lba i j : ℕ)
        → i < blk_cache
        → j < blk_cache
        → holds_block dev lba (s.cache i) ≡ true
        → holds_block dev lba (s.cache j) ≡ true
        → i ≡ j
    pub sound : (i : ℕ) → i < blk_cache → IsSound s.disk s.devs (s.cache i)

  -- The content of a block that some slot holds.
  pub content_cached :
      (s : State D) (dev lba i : ℕ)
      → IsCoherent s
      → i < blk_cache
      → holds_block dev lba (s.cache i) ≡ true
      → content s dev lba ≡ some ((s.cache i).bytes)
  unfolding content
  content_cached s dev lba i v h k = elim (Option-cases (cache_find s.cache dev lba)) [
    | inl e ↦ let f = cache_find-none s.cache dev lba e i h in cc
    | inr (j, e) ↦
        let (b, f) = cache_find_sound s.cache dev lba j e in
        let g : j ≡ i = v.unique dev lba j i b h f k in rw (e, content, g)
  ]

  -- The content of a block that no slot holds.
  pub content_uncached :
      (s : State D) (dev lba : ℕ)
      → ((i : ℕ) → i < blk_cache → holds_block dev lba (s.cache i) ≡ false)
      → content s dev lba ≡ (if can_read dev s.devs then driver.read s.disk dev lba else none)
  unfolding content
  content_uncached s dev lba h = elim (Option-cases (cache_find s.cache dev lba)) [
    | inl e ↦ rw (e, content)
    | inr (j, e) ↦ let (b, f) = cache_find_sound s.cache dev lba j e in let g = h j b in cc
  ]

  pub holds_block_key :
      (dev lba : ℕ) (b : Buf)
      → holds_block dev lba b ≡ true
      → (b.valid ≡ true) × (b.dev_id ≡ dev) × (b.lba ≡ lba)
  holds_block_key dev lba b e = ground arith

  -- The content of a block that a clean slot holds is also the device's.
  pub content_clean :
      (s : State D) (dev lba i : ℕ)
      → IsCoherent s
      → i < blk_cache
      → holds_block dev lba (s.cache i) ≡ true
      → (s.cache i).dirty ≡ false
      → content s dev lba ≡ (if can_read dev s.devs then driver.read s.disk dev lba else none)
  content_clean s dev lba i v h k f =
      let (e, a, c) = holds_block_key dev lba (s.cache i) k in
      let r = (v.sound i h).readable e in
      let g = (v.sound i h).clean e f in
      content_cached s dev lba i v h k
      ∙ (rw (
        subst₂ (λ x y. driver.read s.disk x y ≡ some ((s.cache i).bytes)) a c g,
        subst (λ x. can_read x s.devs ≡ true) a r,
      ))

  -- Slot `i` may be given to the block: no other slot holds it, and what the slot held is not lost.
  pub record IsReplacement (s : State D) (i dev lba : ℕ) (b : Buf) : Type 0 where
    pub within : i < blk_cache
    pub alone : (j : ℕ) → j < blk_cache → j ≢ i → holds_block dev lba (s.cache j) ≡ false
    pub kept :
        same dev lba ((s.cache i).dev_id) ((s.cache i).lba) ≡ false
        → (s.cache i).valid ≡ true
        → (s.cache i).dirty ≡ false
    pub is_valid : b.valid ≡ true
    pub is_dev : b.dev_id ≡ dev
    pub is_lba : b.lba ≡ lba
    pub agrees : b.dirty ≡ false → driver.read s.disk dev lba ≡ some b.bytes
    pub reads : can_read dev s.devs ≡ true
    pub writes : b.dirty ≡ true → can_write dev s.devs ≡ true

  module _ (s : State D) (i dev lba : ℕ) (b : Buf) (v : IsCoherent s)
      (r : IsReplacement s i dev lba b) where
    slot_self :
        (install driver s i b).cache i ≡ record b { last_access = (install driver s i b).clock }
    unfolding install
    slot_self = ground arith

    slot_ne : (j : ℕ) → j ≢ i → (install driver s i b).cache j ≡ s.cache j
    unfolding install
    slot_ne j h = ground arith

    same_rest : ((install driver s i b).disk ≡ s.disk) × ((install driver s i b).devs ≡ s.devs)
    unfolding install
    same_rest = (refl, refl)

    holds_self :
        (dev' lba' : ℕ)
        → holds_block dev' lba' ((install driver s i b).cache i) ≡ same dev lba dev' lba'
    holds_self dev' lba' = rw (slot_self, r.is_valid, r.is_dev, r.is_lba) refl

    -- Another slot that holds a block holds another block.
    elsewhere :
        (dev' lba' j : ℕ)
        → j < blk_cache
        → j ≢ i
        → holds_block dev' lba' ((install driver s i b).cache j) ≡ true
        → same dev lba dev' lba' ≡ false
    elsewhere dev' lba' j hj p e =
        let g = r.alone j hj p in let f = rw (slot_ne j p) at e in ground arith

    install_unique :
        (dev' lba' j k : ℕ)
        → j < blk_cache
        → k < blk_cache
        → holds_block dev' lba' ((install driver s i b).cache j) ≡ true
        → holds_block dev' lba' ((install driver s i b).cache k) ≡ true
        → j ≡ k
    install_unique dev' lba' j k hj hk e f = elim (ℕ_discrete j i) [
      | yes p ↦ elim (ℕ_discrete k i) [
        | yes q ↦ omega arith
        | no q ↦
            let g = rw (p, holds_self dev' lba') at e in let h = elsewhere dev' lba' k hk q f in cc
      ]
      | no p ↦ elim (ℕ_discrete k i) [
        | yes q ↦
            let g = rw (q, holds_self dev' lba') at f in let h = elsewhere dev' lba' j hj p e in cc
        | no q ↦ v.unique dev' lba' j k hj hk (rw (slot_ne j p) at e) (rw (slot_ne k q) at f)
      ]
    ]

    new_buf-IsSound :
        IsSound s.disk s.devs (record b { last_access = (install driver s i b).clock })
    new_buf-IsSound = record {
      clean = λ e f. rw (r.is_dev, r.is_lba) (r.agrees f);
      readable = λ e. rw (r.is_dev) (r.reads);
      writable = λ e f. rw (r.is_dev) (r.writes f);
    }

    -- The cache is coherent when the slot has been given to the block.
    pub install-IsCoherent : IsCoherent (install driver s i b)
    install-IsCoherent = record { unique = install_unique; sound = sound }
      where
        sound :
            (j : ℕ)
            → j < blk_cache
            → IsSound
                ((install driver s i b).disk)
                ((install driver s i b).devs)
                ((install driver s i b).cache j)
        sound j h =
            rw (same_rest.0, same_rest.1)
              (elim (ℕ_discrete j i) [
                | yes p ↦ rw (p) (subst (IsSound s.disk s.devs) (sym slot_self) new_buf-IsSound)
                | no p ↦ subst (IsSound s.disk s.devs) (sym (slot_ne j p)) (v.sound j h)
              ])

    not_here :
        (dev' lba' j : ℕ)
        → same dev lba dev' lba' ≡ false
        → holds_block dev' lba' ((install driver s i b).cache j) ≡ true
        → j ≢ i
    not_here dev' lba' j e g p = let h = rw (p, holds_self dev' lba') at g in cc

    hit :
        (dev' lba' j : ℕ)
        → same dev lba dev' lba' ≡ false
        → cache_find ((install driver s i b).cache) dev' lba' ≡ some j
        → content (install driver s i b) dev' lba' ≡ content s dev' lba'
    hit dev' lba' j e f =
        let (h, g) = cache_find_sound ((install driver s i b).cache) dev' lba' j f in
        let ne = not_here dev' lba' j e g in
        content_cached (install driver s i b) dev' lba' j install-IsCoherent h g
        ∙ (rw (slot_ne j ne) (sym (content_cached s dev' lba' j v h (rw (slot_ne j ne) at g))))

    missed :
        (dev' lba' : ℕ)
        → same dev lba dev' lba' ≡ false
        → cache_find ((install driver s i b).cache) dev' lba' ≡ none
        → content s dev' lba'
          ≡ (if can_read dev' s.devs then driver.read s.disk dev' lba' else none)
    missed dev' lba' e f = elim (Option-cases (cache_find s.cache dev' lba')) [
      | inl g ↦ content_uncached s dev' lba' (cache_find-none s.cache dev' lba' g)
      | inr (k, g) ↦
          let (h, m) = cache_find_sound s.cache dev' lba' k g in
          let gone = cache_find-none ((install driver s i b).cache) dev' lba' f k h in
          elim (ℕ_discrete k i) [
            | yes p ↦
                let m' = rw p at m in
                let (a, c, d) = holds_block_key dev' lba' (s.cache i) m' in
                content_clean s dev' lba' i v r.within m' (r.kept (rw (c, d) e) a)
            | no p ↦ let gone' = rw (slot_ne k p) at gone in cc
          ]
    ]

    -- Then the block has the new bytes, and all others keep their content.
    pub content-install :
        (dev' lba' : ℕ)
        → content (install driver s i b) dev' lba'
          ≡ (if same dev lba dev' lba' then some b.bytes else content s dev' lba')
    content-install dev' lba' = elim (Bool-cases (same dev lba dev' lba')) [
      | inl e ↦ rw (
        e,
        content_cached (install driver s i b) dev' lba' i install-IsCoherent r.within
            (holds_self dev' lba' ∙ e),
        slot_self,
      )
      | inr e ↦ rw e (elim (Option-cases (cache_find ((install driver s i b).cache) dev' lba')) [
        | inl f ↦
            content_uncached (install driver s i b) dev' lba'
              (cache_find-none ((install driver s i b).cache) dev' lba' f)
            ∙ rw (same_rest.0, same_rest.1) (sym (missed dev' lba' e f))
        | inr (j, f) ↦ hit dev' lba' j e f
      ])
    ]
