-- ===== src/Journal/Committed.antt =====
-- kernel/journal.c: a replay undoes a transaction that was committed, too.
use base_nexs.Common.{
  ℕ, zero, suc, ◌+◌, ◌-◌, ◌%◌, ◌^◌, ◌≤◌, ◌<◌, ◌≡◌, ◌≢◌, refl, sym, ap, ◌∙◌, true, Option, some,
  some_inj, List, if◌then◌else◌, arith, ne→==,
}
use base_nexs.Journal.{
  Blocks, Journal, JournalHdr, journal_magic, hdr_bytes, hdr_of, journal_lba_hdr, journal_lba_data,
  write_record, journal_log, journal_commit, closed, journal_replay, next_pos, or_zeros,
}
use base_nexs.Journal.Store.{IsBlocks, same}
use base_nexs.Journal.Records.{Fits, hdr_of-hdr_bytes}
use base_nexs.Journal.Layout.{hdr_at, data_at, Contents, same_self, same_lba}
use base_nexs.Journal.Scan.{undone, after_records, logged_hdr, marked, unmarked}
use base_nexs.Journal.Logged.{IsLogged, IsReady, journal_log-IsLogged}
use base_nexs.Journal.Undo.{overwritten, first_hdr, first_data, later_hdr, hdr-Fits}
use base_nexs.Journal.Replay.{IsRecoverable, journal_replay-after_records}

-- The header of a commit.
abbrev pub commit_hdr : Journal → JournalHdr
commit_hdr j = record { magic = journal_magic; seq = j.seq; dev = j.dev; lba = 0; commit = 1 }

-- The record of a block and that of a commit, which `i` has written, and no other one behind them.
two_records :
    (i j : Journal) (c : Contents) (left d l : ℕ) (x : Option (List ℕ)) (old : List ℕ)
    → Fits (logged_hdr i d l)
    → Fits (commit_hdr i)
    → c j.dev (journal_lba_hdr j 0) ≡ some (hdr_bytes (logged_hdr i d l))
    → c j.dev (journal_lba_data j 0) ≡ some old
    → c j.dev (journal_lba_hdr j 1) ≡ some (hdr_bytes (commit_hdr i))
    → ((bytes : List ℕ)
        → c j.dev (journal_lba_hdr j 2) ≡ some bytes
        → (hdr_of bytes).magic ≢ journal_magic)
    → after_records (suc (suc (suc left))) 0 j c d l x ≡ some old
two_records i j c left d l x old f k e g m stop =
    let y = undone j c 0 (logged_hdr i d l) d l x in
    marked j c (suc (suc left)) 0 d l x (logged_hdr i d l) f refl e
    ∙ marked j c (suc left) 1 d l y (commit_hdr i) k refl m
    ∙ unmarked j c left 2 d l y stop
    ∙ rw (same_self d l, g) refl

module _ {S : Type 0} (blocks : Blocks S) (w : IsBlocks blocks) where
  -- A commit that makes no checkpoint.
  commit_done :
      (j : Journal) (s : S)
      → j.in_txn ≡ true
      → (j.commit_count + 1) % 64 ≢ 0
      → journal_commit blocks j s
        ≡ some (
          closed blocks (next_pos blocks j),
          blocks.blk_write s j.dev (journal_lba_hdr j j.write_pos) (hdr_bytes (commit_hdr j)),
        )
  unfolding journal_commit write_record
  commit_done j s t n = rw (t, ne→== ((j.commit_count + 1) % 64) 0 n) refl

  module _ (j : Journal) (s s1 : S) (d l : ℕ) (new : List ℕ) (ready : IsReady w j s d l)
      (logged : IsLogged blocks w j s s1 d l) (dev_fits : j.dev < 2 ^ 32)
      (three : 3 ≤ j.n_blocks) where
    -- The state after the commit.
    abbrev committed : S
    committed =
        blocks.blk_write (overwritten blocks w j s s1 d l ready logged new) j.dev
          (journal_lba_hdr j 1) (hdr_bytes (commit_hdr j))

    committed_content :
        (a b : ℕ)
        → w.content committed a b ≡ (
            if same j.dev (journal_lba_hdr j 1) a b
            then some (hdr_bytes (commit_hdr j))
            else w.content (overwritten blocks w j s s1 d l ready logged new) a b)
    committed_content a b =
        w.write_content _ j.dev (journal_lba_hdr j 1) _ a b
          (w.write_good s1 d l new logged.good ready.block_open) ready.journal_open

    -- A block of the journal other than the commit's.
    committed_kept :
        (lba : ℕ)
        → journal_lba_hdr j 1 ≢ lba
        → w.content committed j.dev lba
          ≡ w.content (overwritten blocks w j s s1 d l ready logged new) j.dev lba
    committed_kept lba h =
        committed_content j.dev lba ∙ rw (same_lba j.dev (journal_lba_hdr j 1) lba h) refl

    first_kept :
        w.content committed j.dev (journal_lba_hdr j 0) ≡ some (hdr_bytes (logged_hdr j d l))
    first_kept =
        committed_kept (journal_lba_hdr j 0) (
          rw (hdr_at j 1 ready.room (omega arith), hdr_at j 0 ready.room (omega arith))
            (λ e. omega arith))
        ∙ first_hdr blocks w j s s1 d l ready logged new (omega arith)

    data_kept :
        w.content committed j.dev (journal_lba_data j 0) ≡ some (or_zeros blocks (w.content s d l))
    data_kept =
        committed_kept (journal_lba_data j 0) (
          rw (hdr_at j 1 ready.room (omega arith), data_at j 0 ready.room (omega arith))
            (λ e. omega arith))
        ∙ first_data blocks w j s s1 d l ready logged new (omega arith)

    second : w.content committed j.dev (journal_lba_hdr j 1) ≡ some (hdr_bytes (commit_hdr j))
    second =
        committed_content j.dev (journal_lba_hdr j 1)
        ∙ rw (same_self j.dev (journal_lba_hdr j 1)) refl

    rest_unmarked :
        (pos : ℕ) (bytes : List ℕ)
        → suc (suc pos) < j.n_blocks
        → w.content committed j.dev (journal_lba_hdr j (suc (suc pos))) ≡ some bytes
        → (hdr_of bytes).magic ≢ journal_magic
    rest_unmarked pos bytes h e = later_hdr blocks w j s s1 d l ready logged new (suc pos) bytes h (
        sym (
          committed_kept (journal_lba_hdr j (suc (suc pos))) (
            rw (hdr_at j 1 ready.room (omega arith), hdr_at j (suc (suc pos)) ready.room h)
              (λ q. omega arith)))
        ∙ e)

    commit-Fits : Fits (commit_hdr j)
    commit-Fits = record {
      magic = omega arith;
      seq = ready.seq_fits;
      dev = dev_fits;
      lba = omega arith;
      commit = omega arith;
    }

    committed-IsRecoverable : IsRecoverable blocks w j (w.content committed)
    committed-IsRecoverable zero bytes h e m z =
        let same_bytes : hdr_bytes (logged_hdr j d l) ≡ bytes = some_inj _ _ (sym first_kept ∙ e) in
        rw
          (
            ← same_bytes,
            hdr_of-hdr_bytes (logged_hdr j d l) (hdr-Fits blocks w j s s1 d l ready logged new),
          )
          (ready.block_open, ready.outside)
    committed-IsRecoverable (suc zero) bytes h e m z =
        let same_bytes : bytes ≡ hdr_bytes (commit_hdr j) = some_inj _ _ (sym e ∙ second) in
        let one : (hdr_of bytes).commit ≡ 1 =
          ap (λ x. (hdr_of x).commit) same_bytes
          ∙ ap (λ x. x.commit) (hdr_of-hdr_bytes (commit_hdr j) commit-Fits) in
        absurd (omega arith)
    committed-IsRecoverable (suc (suc pos)) bytes h e m z = absurd (rest_unmarked pos bytes h e m)

-- In a transaction on a journal without records, with room for three, whose commit makes no checkpoint:
-- `journal_log` of a block that can be read and, after the block is overwritten, `journal_commit` succeed; and
-- `journal_replay` then gives the block back the content that it had before the committed transaction.
pub journal_replay-committed :
    {S : Type 0} (blocks : Blocks S) (w : IsBlocks blocks) (j : Journal) (s : S) (d l : ℕ)
    (old new : List ℕ)
    → IsReady w j s d l
    → 3 ≤ j.n_blocks
    → j.dev < 2 ^ 32
    → (j.commit_count + 1) % 64 ≢ 0
    → w.content s d l ≡ some old
    → (j1 : Journal) × ((s1 : S) × ((journal_log blocks j s d l ≡ some (j1, s1))
          × ((j2 : Journal) × ((s2 : S) × ((journal_commit blocks j1 (blocks.blk_write s1 d l new)
                    ≡ some (j2, s2))
                  × (w.content ((journal_replay blocks j2 s2).1) d l ≡ some old))))))
unfolding journal_lba_hdr journal_lba_data
journal_replay-committed blocks w j s d l old new ready three dev_fits count e =
    let (s1, (done, logged)) = journal_log-IsLogged blocks w j s d l ready (omega arith) in
    let j1 = next_pos blocks j in
    let j2 = closed blocks (next_pos blocks j1) in
    let s2 = committed blocks w j s s1 d l new ready logged dev_fits three in
    let s3 = blocks.blk_write s1 d l new in
    let z = ready.starts in
    let one : (j.write_pos + 1) % 2 ^ 64 ≡ 1 = omega arith in
    let at : journal_lba_hdr j1 j1.write_pos ≡ journal_lba_hdr j 1 = ap (journal_lba_hdr j) one in
    let commits : journal_commit blocks j1 s3 ≡ some (j2, s2) =
      commit_done blocks w j1 s3 ready.opened count
      ∙ ap (λ p. some (j2, blocks.blk_write s3 j.dev p (hdr_bytes (commit_hdr j)))) at in
    let (g, (inside, result)) =
      journal_replay-after_records blocks w j2 s2
        (record { few = ready.room.few; within = ready.room.within }) (omega arith)
        (w.write_good s3 j.dev _ _ (w.write_good s1 d l new logged.good ready.block_open)
          ready.journal_open)
        (committed-IsRecoverable blocks w j s s1 d l new ready logged dev_fits three) in
    let n : j.n_blocks ≡ suc (suc (suc (j.n_blocks - 3))) = omega arith in
    (
      j1,
      (
        s1,
        (
          done,
          (
            j2,
            (
              s2,
              (
                commits,
                result d l
                    ∙ ap (λ m. after_records m 0 j2 (w.content s2) d l (w.content s2 d l)) n
                    ∙ two_records j j2 (w.content s2) (j.n_blocks - 3) d l (w.content s2 d l) old
                        (hdr-Fits blocks w j s s1 d l ready logged new)
                        (commit-Fits blocks w j s s1 d l new ready logged dev_fits three)
                        (first_kept blocks w j s s1 d l new ready logged dev_fits three)
                        (data_kept blocks w j s s1 d l new ready logged dev_fits three
                          ∙ ap (λ o. some (or_zeros blocks o)) e)
                        (second blocks w j s s1 d l new ready logged dev_fits three)
                        (λ bytes q.
                          rest_unmarked blocks w j s s1 d l new ready logged dev_fits three 0 bytes
                            (omega arith) q),
              ),
            ),
          ),
        ),
      ),
    )
