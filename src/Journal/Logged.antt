-- ===== src/Journal/Logged.antt =====
-- kernel/journal.c: what `journal_log` leaves.
use base_nexs.Common.{ℕ, ◌^◌, ◌<◌, ◌≡◌, ◌≢◌, refl, sym, ◌∙◌, true, false, some, List, arith, ne→==}
use mathlib.Core.Path.{subst}
use base_nexs.Journal.{
  Blocks, Journal, hdr_bytes, journal_lba_hdr, journal_lba_data, write_record, journal_log,
  next_pos, or_zeros,
}
use base_nexs.Journal.Store.{IsBlocks, same}
use base_nexs.Journal.Layout.{HasRoom, IsInside, same_self, same_lba, apart}
use base_nexs.Journal.Scan.{IsFresh, logged_hdr}

module _ {S : Type 0} (blocks : Blocks S) (w : IsBlocks blocks) where
  -- What a record of the block leaves in a state.
  pub record IsLogged (j : Journal) (s s' : S) (d l : ℕ) : Type 0 where
    pub good : w.Good s'
    pub header :
        w.content s' j.dev (journal_lba_hdr j j.write_pos) ≡ some (hdr_bytes (logged_hdr j d l))
    pub contents :
        w.content s' j.dev (journal_lba_data j j.write_pos)
        ≡ some (or_zeros blocks (w.content s d l))
    pub others :
        (a b : ℕ)
        → same j.dev (journal_lba_hdr j j.write_pos) a b ≡ false
        → same j.dev (journal_lba_data j j.write_pos) a b ≡ false
        → w.content s' a b ≡ w.content s a b

  pub log_done :
      (j : Journal) (s : S) (d l : ℕ)
      → j.in_txn ≡ true
      → 0 < j.n_blocks
      → journal_log blocks j s d l
        ≡ some (
          next_pos blocks j,
          write_record blocks j
              ((blocks.blk_read s d l).0)
              j.write_pos
              d
              l
              (some (or_zeros blocks ((blocks.blk_read s d l).1)))
              0,
        )
  unfolding journal_log
  log_done j s d l t n = rw (t, ne→== j.n_blocks 0 (omega arith)) refl

  pub written-IsLogged :
      (j : Journal) (s : S) (d l : ℕ)
      → w.Good s
      → w.Open j.dev
      → journal_lba_hdr j j.write_pos ≢ journal_lba_data j j.write_pos
      → IsLogged j s
          (write_record blocks j
            ((blocks.blk_read s d l).0)
            j.write_pos
            d
            l
            (some (or_zeros blocks ((blocks.blk_read s d l).1)))
            0)
          d
          l
  unfolding write_record
  written-IsLogged j s d l g o apart =
      let hdr = journal_lba_hdr j j.write_pos in
      let data_lba = journal_lba_data j j.write_pos in
      let s1 = (blocks.blk_read s d l).0 in
      let bytes = hdr_bytes (logged_hdr j d l) in
      let s2 = blocks.blk_write s1 j.dev hdr bytes in
      let g1 = w.read_good s d l g in
      let g2 = w.write_good s1 j.dev hdr bytes g1 o in
      let c1 = λ (x : List ℕ) (a b : ℕ). w.write_content s2 j.dev data_lba x a b g2 o in
      let c2 = λ (a b : ℕ). w.write_content s1 j.dev hdr bytes a b g1 o in
      rw (w.read_answer s d l g) (record {
        good = w.write_good s2 j.dev data_lba _ g2 o;
        header =
            c1 _ j.dev hdr
            ∙ rw (same_lba j.dev data_lba hdr (λ e. apart (sym e)))
                (c2 j.dev hdr ∙ rw (same_self j.dev hdr) refl);
        contents = c1 _ j.dev data_lba ∙ rw (same_self j.dev data_lba) refl;
        others = λ a b p q. c1 _ a b ∙ rw q (c2 a b ∙ rw p (w.read_content s d l a b g));
      })

-- The journal and the block of a transaction: the journal is open, is at its start and has no records yet, and the
-- block lies outside it.
pub record IsReady {S : Type 0} {blocks : Blocks S} (w : IsBlocks blocks) (j : Journal) (s : S)
    (d l : ℕ) : Type 0 where
  pub room : HasRoom j
  pub starts : j.write_pos ≡ 0
  pub opened : j.in_txn ≡ true
  pub seq_fits : j.seq < 2 ^ 64
  pub dev_fits : d < 2 ^ 32
  pub lba_fits : l < 2 ^ 64
  pub good : w.Good s
  pub journal_open : w.Open j.dev
  pub block_open : w.Open d
  pub outside : IsInside j d l → ⊥
  pub fresh : IsFresh j (w.content s)

-- In a transaction that is ready, `journal_log` succeeds.
pub journal_log-IsLogged :
    {S : Type 0} (blocks : Blocks S) (w : IsBlocks blocks) (j : Journal) (s : S) (d l : ℕ)
    → IsReady w j s d l
    → 0 < j.n_blocks
    → (s1 : S) × ((journal_log blocks j s d l ≡ some (next_pos blocks j, s1))
        × IsLogged blocks w j s s1 d l)
journal_log-IsLogged blocks w j s d l ready n = (
  write_record blocks j ((blocks.blk_read s d l).0) j.write_pos d l
      (some (or_zeros blocks ((blocks.blk_read s d l).1))) 0,
  (
    log_done blocks w j s d l ready.opened n,
    written-IsLogged blocks w j s d l ready.good ready.journal_open (
        subst (λ p. journal_lba_hdr j p ≢ journal_lba_data j p) (sym ready.starts)
          (apart j 0 ready.room n)),
  ),
)
