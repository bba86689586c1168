-- ===== src/Blk/Flush.antt =====
-- Writing a dirty buffer back leaves every block's content as it is.
use base_nexs.Common.{
  ℕ, ◌<◌, ◌≡◌, ◌≢◌, refl, sym, ◌∙◌, ap, true, false, Bool-cases, inl, inr, arith, ◌&&◌,
  Option-cases, update,
}
use mathlib.Core.Path.{subst}
use native.Mathlib.Decide.{ℕ_discrete}
use base_nexs.Blk.{Buf, Driver, State, blk_cache, holds_block, cache_find, can_write}
use base_nexs.Blk.{flush_buf}
use base_nexs.Blk.Find.{cache_find_sound, cache_find-none}
use base_nexs.Blk.Coherence.{
  same, IsDisk, content, IsSound, IsCoherent, content_cached, content_uncached,
}

same_iff : (a b c d : ℕ) → same a b c d ≡ true → (a ≡ c) × (b ≡ d)
same_iff a b c d h = ground arith

same_refl : (a b : ℕ) → same a b a b ≡ true
same_refl a b = ground arith

pub holds_of_key :
    (dev lba : ℕ) (b : Buf)
    → b.valid ≡ true
    → dev ≡ b.dev_id
    → lba ≡ b.lba
    → holds_block dev lba b ≡ true
holds_of_key dev lba b e f g = ground arith

module _ {D : Type 0} (driver : Driver D) (s : State D) (i : ℕ) where
  abbrev written : State D
  written =
      let b = s.cache i in
      record s {
        disk = driver.write s.disk b.dev_id b.lba b.bytes;
        cache = update s.cache i (record b { dirty = false });
      }

  slot_self : written.cache i ≡ record (s.cache i) { dirty = false }
  slot_self = ground arith

  slot_ne : (j : ℕ) → j ≢ i → written.cache j ≡ s.cache j
  slot_ne j h = ground arith

  holds-written :
      (dev lba j : ℕ) → holds_block dev lba (written.cache j) ≡ holds_block dev lba (s.cache j)
  holds-written dev lba j = elim (ℕ_discrete j i) [
    | yes p ↦ rw (p, slot_self) refl
    | no p ↦ rw (slot_ne j p) refl
  ]

  bytes-written : (j : ℕ) → (written.cache j).bytes ≡ (s.cache j).bytes
  bytes-written j = elim (ℕ_discrete j i) [
    | yes p ↦ rw (p, slot_self) refl
    | no p ↦ rw (slot_ne j p) refl
  ]

  module _ (works : IsDisk driver) (i_lt : i < blk_cache) (v : IsCoherent driver s)
      (is_valid : (s.cache i).valid ≡ true) where
    self-IsSound : IsSound driver written.disk s.devs (record (s.cache i) { dirty = false })
    self-IsSound =
        let b = s.cache i in
        record {
          clean = λ e f.
              works.stored s.disk b.dev_id b.lba b.dev_id b.lba b.bytes
              ∙ rw (same_refl b.dev_id b.lba);
          readable = (v.sound i i_lt).readable;
          writable = λ e f. cc;
        }

    other-IsSound : (j : ℕ) → j < blk_cache → j ≢ i → IsSound driver written.disk s.devs (s.cache j)
    other-IsSound j h p =
        let b = s.cache i in
        let c = s.cache j in
        record {
          clean = λ e f.
              works.stored s.disk b.dev_id b.lba c.dev_id c.lba b.bytes
              ∙ rw (apart j h p e) ((v.sound j h).clean e f);
          readable = (v.sound j h).readable;
          writable = (v.sound j h).writable;
        }
      where
        apart :
            (j : ℕ)
            → j < blk_cache
            → j ≢ i
            → (s.cache j).valid ≡ true
            → same ((s.cache i).dev_id) ((s.cache i).lba) ((s.cache j).dev_id) ((s.cache j).lba)
              ≡ false
        apart j h p e =
            elim (Bool-cases (
              same ((s.cache i).dev_id) ((s.cache i).lba) ((s.cache j).dev_id) ((s.cache j).lba))) [
                | inr g ↦ g
                | inl g ↦
                    let (a, b') =
                      same_iff ((s.cache i).dev_id) ((s.cache i).lba) ((s.cache j).dev_id)
                        ((s.cache j).lba) g in
                    let b = s.cache i in
                    let mine = holds_of_key b.dev_id b.lba b is_valid refl refl in
                    let other = holds_of_key b.dev_id b.lba (s.cache j) e a b' in
                    absurd (p (sym (v.unique b.dev_id b.lba i j i_lt h mine other)))
              ]

    written-IsCoherent : IsCoherent driver written
    written-IsCoherent = record {
      unique = λ dev lba j k hj hk e f.
          v.unique dev lba j k hj hk (rw holds-written at e) (rw holds-written at f);
      sound = λ j h. elim (ℕ_discrete j i) [
        | yes p ↦
            subst (IsSound driver written.disk s.devs) (sym (ap written.cache p ∙ slot_self))
              self-IsSound
        | no p ↦
            subst (IsSound driver written.disk s.devs) (sym (slot_ne j p)) (other-IsSound j h p)
      ];
    }

    content-written : (dev lba : ℕ) → content driver written dev lba ≡ content driver s dev lba
    content-written dev lba = elim (Option-cases (cache_find s.cache dev lba)) [
      | inl e ↦
          let none_here = cache_find-none s.cache dev lba e in
          content_uncached driver written dev lba (λ j h. holds-written dev lba j ∙ none_here j h)
          ∙ (rw
              (
                works.stored s.disk ((s.cache i).dev_id) ((s.cache i).lba) dev lba
                    ((s.cache i).bytes),
                uncached_key dev lba (none_here i i_lt),
              )
              (sym (content_uncached driver s dev lba none_here)))
      | inr (j, e) ↦
          let (h, k) = cache_find_sound s.cache dev lba j e in
          content_cached driver written dev lba j written-IsCoherent h (holds-written dev lba j ∙ k)
          ∙ (rw bytes-written (sym (content_cached driver s dev lba j v h k)))
    ]
      where
        uncached_key :
            (dev lba : ℕ)
            → holds_block dev lba (s.cache i) ≡ false
            → same ((s.cache i).dev_id) ((s.cache i).lba) dev lba ≡ false
        uncached_key dev lba h = ground arith

-- After `flush_buf` the slot is clean, and nothing else has changed that a read can see.
pub record IsFlushed {D : Type 0} (driver : Driver D) (s s' : State D) (i : ℕ) : Type 0 where
  pub coherent : IsCoherent driver s'
  pub contents : (dev lba : ℕ) → content driver s' dev lba ≡ content driver s dev lba
  pub places : (dev lba j : ℕ) → holds_block dev lba (s'.cache j) ≡ holds_block dev lba (s.cache j)
  pub is_clean : (s'.cache i).valid ≡ true → (s'.cache i).dirty ≡ false
  pub devices : s'.devs ≡ s.devs

module _ {D : Type 0} (driver : Driver D) (s : State D) (i : ℕ) where
  flush_skip :
      ((s.cache i).valid && ((s.cache i).dirty && can_write ((s.cache i).dev_id) s.devs)) ≡ false
      → flush_buf driver s i ≡ s
  unfolding flush_buf
  flush_skip e = rw e

  flush_write :
      (s.cache i).valid ≡ true
      → (s.cache i).dirty ≡ true
      → can_write ((s.cache i).dev_id) s.devs ≡ true
      → flush_buf driver s i ≡ written driver s i
  unfolding flush_buf
  flush_write e f g = simp (e, f, g)

  unchanged-IsFlushed :
      IsCoherent driver s
      → ((s.cache i).valid ≡ true → (s.cache i).dirty ≡ false)
      → IsFlushed driver s s i
  unchanged-IsFlushed v h = record {
    coherent = v;
    contents = λ dev lba. refl;
    places = λ dev lba j. refl;
    is_clean = h;
    devices = refl;
  }

pub flush_buf-IsFlushed :
    {D : Type 0} (driver : Driver D) (works : IsDisk driver) (s : State D) (i : ℕ)
    → i < blk_cache
    → IsCoherent driver s
    → IsFlushed driver s (flush_buf driver s i) i
flush_buf-IsFlushed driver works s i h v = elim (Bool-cases ((s.cache i).valid)) [
  | inr e ↦
      subst (λ x. IsFlushed driver s x i) (sym (flush_skip driver s i (simp e)))
        (unchanged-IsFlushed driver s i v (λ g. cc))
  | inl e ↦ elim (Bool-cases ((s.cache i).dirty)) [
    | inr f ↦
        subst (λ x. IsFlushed driver s x i) (sym (flush_skip driver s i (simp (e, f))))
          (unchanged-IsFlushed driver s i v (λ g. f))
    | inl f ↦
        subst (λ x. IsFlushed driver s x i)
          (sym (flush_write driver s i e f ((v.sound i h).writable e f)))
          (record {
            coherent = written-IsCoherent driver s i works h v e;
            contents = content-written driver s i works h v e;
            places = holds-written driver s i;
            is_clean = λ g. ap (λ b. b.dirty) (slot_self driver s i);
            devices = refl;
          })
  ]
]
