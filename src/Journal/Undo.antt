-- ===== src/Journal/Undo.antt =====
-- kernel/journal.c: a logged block gets its old contents back.
use base_nexs.Common.{
  ℕ, zero, suc, ◌-◌, ◌≤◌, ◌<◌, ◌≡◌, ◌≢◌, refl, sym, ap, ◌∙◌, some, some_inj, Bool-cases, inl, inr,
  List, if◌then◌else◌, arith,
}
use base_nexs.Journal.{
  Blocks, Journal, journal_magic, hdr_bytes, hdr_of, journal_lba_hdr, journal_lba_data, journal_log,
  journal_replay, next_pos, or_zeros,
}
use base_nexs.Journal.Store.{IsBlocks, same}
use base_nexs.Journal.Records.{Fits, hdr_of-hdr_bytes}
use base_nexs.Journal.Layout.{
  hdr_at, data_at, IsInside, same_eq, same_outside, data-IsInside, hdr-IsInside, same_lba,
  same_other,
}
use base_nexs.Journal.Scan.{after_records, logged_hdr, one_record}
use base_nexs.Journal.Logged.{IsReady, journal_log-IsLogged, IsLogged}
use base_nexs.Journal.Replay.{IsRecoverable, journal_replay-after_records}

module _ {S : Type 0} (blocks : Blocks S) (w : IsBlocks blocks) (j : Journal) (s s1 : S) (d l : ℕ)
    (ready : IsReady w j s d l) (logged : IsLogged blocks w j s s1 d l) where
  -- The header's block and the data's are different, and in the journal; the others keep their contents.
  header_kept :
      (pos : ℕ)
      → suc pos < j.n_blocks
      → w.content s1 j.dev (journal_lba_hdr j (suc pos))
        ≡ w.content s j.dev (journal_lba_hdr j (suc pos))
  unfolding journal_lba_hdr journal_lba_data
  header_kept pos h =
      let z = ready.starts in
      logged.others j.dev (journal_lba_hdr j (suc pos))
        (same_lba j.dev _ _ (
          rw (z, hdr_at j 0 ready.room (omega arith), hdr_at j (suc pos) ready.room h)
            (λ e. omega arith)))
        (same_lba j.dev _ _ (
          rw (z, data_at j 0 ready.room (omega arith), hdr_at j (suc pos) ready.room h)
            (λ e. omega arith)))

  outside_kept :
      (a b : ℕ) → 0 < j.n_blocks → (IsInside j a b → ⊥) → w.content s1 a b ≡ w.content s a b
  unfolding journal_lba_hdr journal_lba_data
  outside_kept a b h out =
      let z = ready.starts in
      logged.others a b (rw z (same_other j j.dev _ a b (hdr-IsInside j 0 ready.room h) out))
        (rw z (same_other j j.dev _ a b (data-IsInside j 0 ready.room h) out))

  module _ (new : List ℕ) where
    -- The state after the logged block has been written.
    abbrev pub overwritten : S
    overwritten = blocks.blk_write s1 d l new

    overwritten_kept : (a b : ℕ) → IsInside j a b → w.content overwritten a b ≡ w.content s1 a b
    overwritten_kept a b i =
        w.write_content s1 d l new a b logged.good ready.block_open
        ∙ rw (same_outside j d l a b ready.outside i) refl

    overwritten_back :
        (a b : ℕ) (old : List ℕ)
        → 0 < j.n_blocks
        → w.content s d l ≡ some old
        → (IsInside j a b → ⊥)
        → (if same d l a b then some old else w.content overwritten a b) ≡ w.content s a b
    overwritten_back a b old n e out = elim (Bool-cases (same d l a b)) [
      | inl t ↦ let (p, q) = same_eq d l a b t in rw (t, ← p, ← q) (sym e)
      | inr f ↦ rw f (
          w.write_content s1 d l new a b logged.good ready.block_open
          ∙ rw f (outside_kept a b n out))
    ]

    pub first_hdr :
        0 < j.n_blocks
        → w.content overwritten j.dev (journal_lba_hdr j 0) ≡ some (hdr_bytes (logged_hdr j d l))
    first_hdr n =
        overwritten_kept j.dev (journal_lba_hdr j 0) (hdr-IsInside j 0 ready.room n)
        ∙ ap (λ p. w.content s1 j.dev (journal_lba_hdr j p)) (sym ready.starts)
        ∙ logged.header

    pub first_data :
        0 < j.n_blocks
        → w.content overwritten j.dev (journal_lba_data j 0)
          ≡ some (or_zeros blocks (w.content s d l))
    first_data n =
        overwritten_kept j.dev (journal_lba_data j 0) (data-IsInside j 0 ready.room n)
        ∙ ap (λ p. w.content s1 j.dev (journal_lba_data j p)) (sym ready.starts)
        ∙ logged.contents

    pub later_hdr :
        (pos : ℕ) (bytes : List ℕ)
        → suc pos < j.n_blocks
        → w.content overwritten j.dev (journal_lba_hdr j (suc pos)) ≡ some bytes
        → (hdr_of bytes).magic ≢ journal_magic
    later_hdr pos bytes h e = ready.fresh (suc pos) bytes h (
        sym (header_kept pos h)
        ∙ sym (overwritten_kept j.dev _ (hdr-IsInside j (suc pos) ready.room h))
        ∙ e)

    pub hdr-Fits : Fits (logged_hdr j d l)
    hdr-Fits = record {
      magic = omega arith;
      seq = ready.seq_fits;
      dev = ready.dev_fits;
      lba = ready.lba_fits;
      commit = omega arith;
    }

    overwritten-IsRecoverable : IsRecoverable blocks w j (w.content overwritten)
    overwritten-IsRecoverable zero bytes h e m z =
        let same_bytes : hdr_bytes (logged_hdr j d l) ≡ bytes =
          some_inj _ _ (sym (first_hdr h) ∙ e) in
        let back = hdr_of-hdr_bytes (logged_hdr j d l) hdr-Fits in
        rw (← same_bytes, back) (ready.block_open, ready.outside)
    overwritten-IsRecoverable (suc pos) bytes h e m z = absurd (later_hdr pos bytes h e m)

-- In a transaction on a journal without records, with room for two: `journal_log` of a block that can be read
-- succeeds, and if the block is then overwritten and the transaction never committed, `journal_replay` leaves every
-- block outside the journal with the content that it had before the transaction.
pub journal_replay-undoes :
    {S : Type 0} (blocks : Blocks S) (w : IsBlocks blocks) (j : Journal) (s : S) (d l : ℕ)
    (old new : List ℕ)
    → IsReady w j s d l
    → 2 ≤ j.n_blocks
    → w.content s d l ≡ some old
    → (j1 : Journal) × ((s1 : S) × ((journal_log blocks j s d l ≡ some (j1, s1))
          × ((a b : ℕ)
              → (IsInside j a b → ⊥)
              → w.content ((journal_replay blocks j1 (blocks.blk_write s1 d l new)).1) a b
                ≡ w.content s a b)))
unfolding journal_lba_hdr journal_lba_data
journal_replay-undoes blocks w j s d l old new ready n e =
    let (s1, (done, logged)) = journal_log-IsLogged blocks w j s d l ready (omega arith) in
    let s3 = blocks.blk_write s1 d l new in
    let j1 = next_pos blocks j in
    let (g, (inside, result)) =
      journal_replay-after_records blocks w j1 s3
        (record { few = ready.room.few; within = ready.room.within }) (omega arith)
        (w.write_good s1 d l new logged.good ready.block_open)
        (overwritten-IsRecoverable blocks w j s s1 d l ready logged new) in
    let two : j.n_blocks ≡ suc (suc (j.n_blocks - 2)) = omega arith in
    (
      j1,
      (
        s1,
        (
          done,
          λ a b out.
              result a b
              ∙ ap (λ m. after_records m 0 j1 (w.content s3) a b (w.content s3 a b)) two
              ∙ one_record j1 (w.content s3) (j.n_blocks - 2) a b d l (w.content s3 a b) old
                  (hdr-Fits blocks w j s s1 d l ready logged new)
                  (first_hdr blocks w j s s1 d l ready logged new (omega arith))
                  (first_data blocks w j s s1 d l ready logged new (omega arith)
                    ∙ ap (λ o. some (or_zeros blocks o)) e)
                  (λ bytes q.
                    later_hdr blocks w j s s1 d l ready logged new 0 bytes (omega arith) q)
              ∙ overwritten_back blocks w j s s1 d l ready logged new a b old (omega arith) e out,
        ),
      ),
    )
