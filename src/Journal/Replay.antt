-- ===== src/Journal/Replay.antt =====
-- kernel/journal.c: what `journal_replay` restores.
use base_nexs.Common.{
  ℕ, zero, suc, ◌+◌, ◌<◌, ◌≡◌, refl, sym, ap, ◌∙◌, Bool, true, false, none, some, Option-cases,
  Bool-cases, inl, inr, List, ◌==◌, if◌then◌else◌, arith, ne→==,
}
use base_nexs.Journal.{
  Blocks, Journal, JournalHdr, journal_magic, hdr_of, journal_lba_hdr, journal_lba_data,
  journal_replay, restore, replay_from,
}
use base_nexs.Journal.Store.{IsBlocks, same}
use base_nexs.Journal.Layout.{
  HasRoom, IsInside, Contents, same_outside, data-IsInside, hdr-IsInside,
}
use base_nexs.Journal.Scan.{or_else, undone, after_records, records-none, records-some}

pub if_either {ℓ} : {A : Type ℓ} (b : Bool) (x : A) → (if b then x else x) ≡ x
if_either true x = refl
if_either false x = refl

module _ {S : Type 0} (blocks : Blocks S) (w : IsBlocks blocks) where
  -- Every record that is not committed is of a block outside the journal, on a device that can be written.
  abbrev pub IsRecoverable : Journal → Contents → Type 0
  IsRecoverable j c =
      (pos : ℕ) (bytes : List ℕ)
      → pos < j.n_blocks
      → c j.dev (journal_lba_hdr j pos) ≡ some bytes
      → (hdr_of bytes).magic ≡ journal_magic
      → (hdr_of bytes).commit ≡ 0
      → w.Open ((hdr_of bytes).dev) × (IsInside j ((hdr_of bytes).dev) ((hdr_of bytes).lba) → ⊥)

  -- A state whose journal is that of `c`.
  pub record Agrees (j : Journal) (c : Contents) (s : S) : Type 0 where
    pub good : w.Good s
    pub inside : (d l : ℕ) → IsInside j d l → w.content s d l ≡ c d l

  restore-none :
      (j : Journal) (s : S) (pos : ℕ) (h : JournalHdr)
      → (blocks.blk_read s j.dev (journal_lba_data j pos)).1 ≡ none
      → restore blocks j s pos h ≡ (blocks.blk_read s j.dev (journal_lba_data j pos)).0
  unfolding restore
  restore-none j s pos h e = rw (restore, e) refl

  restore-some :
      (j : Journal) (s : S) (pos : ℕ) (h : JournalHdr) (bytes : List ℕ)
      → (blocks.blk_read s j.dev (journal_lba_data j pos)).1 ≡ some bytes
      → restore blocks j s pos h
        ≡ blocks.blk_write ((blocks.blk_read s j.dev (journal_lba_data j pos)).0) h.dev h.lba bytes
  unfolding restore
  restore-some j s pos h bytes e = rw (restore, e) refl

  restore-content :
      (j : Journal) (s : S) (pos : ℕ) (h : JournalHdr)
      → w.Good s
      → w.Open h.dev
      → w.Good (restore blocks j s pos h)
        × ((d l : ℕ)
            → w.content (restore blocks j s pos h) d l ≡ (
                if same h.dev h.lba d l
                then or_else (w.content s j.dev (journal_lba_data j pos)) (w.content s d l)
                else w.content s d l))
  restore-content j s pos h g o =
      let at = journal_lba_data j pos in
      let r = blocks.blk_read s j.dev at in
      let gr = w.read_good s j.dev at g in
      let answer = w.read_answer s j.dev at g in
      elim (Option-cases (r.1)) [
        | inl e ↦
            rw (restore-none j s pos h e, sym answer ∙ e)
              (
                gr,
                λ d l. w.read_content s j.dev at d l g ∙ sym (if_either (same h.dev h.lba d l) _),
              )
        | inr (bytes, e) ↦
            rw (restore-some j s pos h bytes e, sym answer ∙ e)
              (
                w.write_good (r.0) h.dev h.lba bytes gr o,
                λ d l.
                    w.write_content (r.0) h.dev h.lba bytes d l gr o
                    ∙ ap (λ x. if same h.dev h.lba d l then some bytes else x)
                        (w.read_content s j.dev at d l g),
              )
      ]

  -- One record that has been read, and its magic number found.
  abbrev followed : Journal → S → ℕ → JournalHdr → S
  followed j s pos h = if h.commit == 0 then restore blocks j s pos h else s

  Agrees-followed :
      (j : Journal) (c : Contents) (s : S) (pos : ℕ) (h : JournalHdr)
      → Agrees j c s
      → IsInside j j.dev (journal_lba_data j pos)
      → (h.commit ≡ 0 → w.Open h.dev × (IsInside j h.dev h.lba → ⊥))
      → Agrees j c (followed j s pos h)
        × ((d l : ℕ) → w.content (followed j s pos h) d l ≡ undone j c pos h d l (w.content s d l))
  Agrees-followed j c s pos h a i ok = elim (Bool-cases (h.commit == 0)) [
    | inr f ↦ rw f (a, λ d l. refl)
    | inl t ↦
        let (o, out) = ok (ground arith) in
        let (g, now) = restore-content j s pos h a.good o in
        rw (t, ← a.inside j.dev (journal_lba_data j pos) i)
          (
            record {
              good = g;
              inside =
                  λ d l k. now d l ∙ rw (same_outside j (h.dev) (h.lba) d l out k) (a.inside d l k);
            },
            now,
          )
  ]

  -- The branches of one round.
  round-none :
      (left pos : ℕ) (j : Journal) (s : S)
      → (blocks.blk_read s j.dev (journal_lba_hdr j pos)).1 ≡ none
      → replay_from blocks (suc left) pos j s
        ≡ ((blocks.blk_read s j.dev (journal_lba_hdr j pos)).0, pos)
  unfolding replay_from
  round-none left pos j s e = rw (replay_from, e) refl

  round-some :
      (left pos : ℕ) (j : Journal) (s : S) (bytes : List ℕ)
      → (blocks.blk_read s j.dev (journal_lba_hdr j pos)).1 ≡ some bytes
      → replay_from blocks (suc left) pos j s ≡ (
          if (hdr_of bytes).magic == journal_magic
          then replay_from blocks left
              (pos + 1)
              j
              (followed j ((blocks.blk_read s j.dev (journal_lba_hdr j pos)).0) pos (hdr_of bytes))
          else ((blocks.blk_read s j.dev (journal_lba_hdr j pos)).0, pos))
  unfolding replay_from
  round-some left pos j s bytes e = rw (replay_from, e) refl

  Agrees-read :
      (j : Journal) (c : Contents) (s : S) (dev lba : ℕ)
      → Agrees j c s
      → Agrees j c ((blocks.blk_read s dev lba).0)
  Agrees-read j c s dev lba a = record {
    good = w.read_good s dev lba a.good;
    inside = λ d l k. w.read_content s dev lba d l a.good ∙ a.inside d l k;
  }

  replay_from-Agrees :
      (j : Journal) (c : Contents)
      → HasRoom j
      → IsRecoverable j c
      → (left pos : ℕ) (s : S) → pos + left ≡ j.n_blocks
      → Agrees j c s
      → Agrees j c ((replay_from blocks left pos j s).0)
        × ((d l : ℕ)
            → w.content ((replay_from blocks left pos j s).0) d l
              ≡ after_records left pos j c d l (w.content s d l))
  unfolding replay_from after_records
  replay_from-Agrees j c room ok zero pos s e a = (a, λ d l. refl)
  replay_from-Agrees j c room ok (suc left) pos s e a =
      let at = journal_lba_hdr j pos in
      let r = blocks.blk_read s j.dev at in
      let h : pos < j.n_blocks = omega arith in
      let ar = Agrees-read j c s j.dev at a in
      let kept = λ (d l : ℕ). w.read_content s j.dev at d l a.good in
      let known : (r.1) ≡ c j.dev at =
        w.read_answer s j.dev at a.good ∙ a.inside j.dev at (hdr-IsInside j pos room h) in
      elim (Option-cases (r.1)) [
        | inl n ↦
            rw (round-none left pos j s n)
              (ar, λ d l. kept d l ∙ sym (records-none left pos j c d l _ (sym known ∙ n)))
        | inr (bytes, b) ↦
            let hdr = hdr_of bytes in
            let there : c j.dev at ≡ some bytes = sym known ∙ b in
            elim (Bool-cases (hdr.magic == journal_magic)) [
              | inr m ↦
                  rw (round-some left pos j s bytes b, m)
                    (
                      ar,
                      λ d l.
                          rw (records-some left pos j c d l (w.content s d l) bytes there, m)
                            (kept d l),
                    )
              | inl m ↦
                  let (af, now) =
                    Agrees-followed j c (r.0) pos hdr ar (data-IsInside j pos room h)
                      (ok pos bytes h there (ground arith)) in
                  let (done, result) =
                    replay_from-Agrees j c room ok left (pos + 1) (followed j (r.0) pos hdr)
                      (omega arith) af in
                  rw (round-some left pos j s bytes b, m)
                    (
                      done,
                      λ d l.
                          rw (records-some left pos j c d l (w.content s d l) bytes there, m)
                            (result d l
                              ∙ ap (after_records left (pos + 1) j c d l)
                                  (now d l ∙ ap (undone j c pos hdr d l) (kept d l))),
                    )
            ]
      ]

  replay_nonempty :
      (j : Journal) (s : S)
      → 0 < j.n_blocks
      → (journal_replay blocks j s).1 ≡ (replay_from blocks j.n_blocks 0 j s).0
  unfolding journal_replay
  replay_nonempty j s h = rw (ne→== j.n_blocks 0 (omega arith)) refl

  -- In a journal with room for its positions, whose open records are of blocks outside it on devices that can be
  -- written, `journal_replay` from a good state leaves a good state, the journal's blocks as they were, and every
  -- block with the content that the records give: those of the journal, in their order, up to the first without
  -- the magic number.
  pub journal_replay-after_records :
      (j : Journal) (s : S)
      → HasRoom j
      → 0 < j.n_blocks
      → w.Good s
      → IsRecoverable j (w.content s)
      → let s' = (journal_replay blocks j s).1 in
        w.Good s'
        × (((d l : ℕ) → IsInside j d l → w.content s' d l ≡ w.content s d l)
            × ((d l : ℕ)
                → w.content s' d l
                  ≡ after_records j.n_blocks 0 j (w.content s) d l (w.content s d l)))
  journal_replay-after_records j s room h g ok =
      let a : Agrees j (w.content s) s = record { good = g; inside = λ d l i. refl } in
      let (done, result) =
        replay_from-Agrees j (w.content s) room ok j.n_blocks 0 s (omega arith) a in
      rw (replay_nonempty j s h) (done.good, (done.inside, result))
