-- ===== src/Journal/Scan.antt =====
-- kernel/journal.c: what the records of a journal say, by its contents alone.
use base_nexs.Common.{
  ℕ, zero, suc, ◌+◌, ◌<◌, ◌≡◌, ◌≢◌, refl, ◌∙◌, ◌&&◌, Option, none, some, Option-cases, inl, inr,
  List, ◌==◌, if◌then◌else◌, eq→==, ne→==,
}
use base_nexs.Journal.{
  Journal, JournalHdr, journal_magic, hdr_bytes, hdr_of, journal_lba_hdr, journal_lba_data,
}
use base_nexs.Journal.Store.{same}
use base_nexs.Journal.Records.{Fits, hdr_of-hdr_bytes}
use base_nexs.Journal.Layout.{Contents}

abbrev pub or_else : Option (List ℕ) → Option (List ℕ) → Option (List ℕ)
or_else none old = old
or_else (some bytes) old = some bytes

-- What one record does to the content of a block.
abbrev pub undone : Journal → Contents → ℕ → JournalHdr → ℕ → ℕ → Option (List ℕ) → Option (List ℕ)
undone j c pos h d l old =
    if h.commit == 0 && same h.dev h.lba d l
    then or_else (c j.dev (journal_lba_data j pos)) old
    else old

-- The content of a block after the `left` records from `pos` on, by the contents of the journal alone: the records
-- are followed while their magic number is there, and each that is not committed puts back what it holds.
unfoldable pub after_records :
    ℕ → ℕ → Journal → Contents → ℕ → ℕ → Option (List ℕ) → Option (List ℕ)
after_records zero pos j c d l old = old
after_records (suc left) pos j c d l old = elim (c j.dev (journal_lba_hdr j pos)) [
  | none ↦ old
  | some bytes ↦
      let h = hdr_of bytes in
      let rest = after_records left (pos + 1) j c d l (undone j c pos h d l old) in
      if h.magic == journal_magic then rest else old
]

pub records-none :
    (left pos : ℕ) (j : Journal) (c : Contents) (d l : ℕ) (old : Option (List ℕ))
    → c j.dev (journal_lba_hdr j pos) ≡ none
    → after_records (suc left) pos j c d l old ≡ old
unfolding after_records
records-none left pos j c d l old e = rw (after_records, e) refl

pub records-some :
    (left pos : ℕ) (j : Journal) (c : Contents) (d l : ℕ) (old : Option (List ℕ)) (bytes : List ℕ)
    → c j.dev (journal_lba_hdr j pos) ≡ some bytes
    → after_records (suc left) pos j c d l old ≡ (
        if (hdr_of bytes).magic == journal_magic
        then after_records left (pos + 1) j c d l (undone j c pos (hdr_of bytes) d l old)
        else old)
unfolding after_records
records-some left pos j c d l old bytes e = rw (after_records, e) refl

-- No block of the journal begins with the magic number.
abbrev pub IsFresh : Journal → Contents → Type 0
IsFresh j c =
    (pos : ℕ) (bytes : List ℕ)
    → pos < j.n_blocks
    → c j.dev (journal_lba_hdr j pos) ≡ some bytes
    → (hdr_of bytes).magic ≢ journal_magic

-- The header of a record that is logged.
abbrev pub logged_hdr : Journal → ℕ → ℕ → JournalHdr
logged_hdr j d l = record { magic = journal_magic; seq = j.seq; dev = d; lba = l; commit = 0 }

module _ (j : Journal) (c : Contents) where
  -- The records end at a position without the magic number.
  pub unmarked :
      (n pos a b : ℕ) (x : Option (List ℕ))
      → ((bytes : List ℕ)
          → c j.dev (journal_lba_hdr j pos) ≡ some bytes
          → (hdr_of bytes).magic ≢ journal_magic)
      → after_records (suc n) pos j c a b x ≡ x
  unmarked n pos a b x stop = elim (Option-cases (c j.dev (journal_lba_hdr j pos))) [
    | inl e ↦ records-none n pos j c a b x e
    | inr (bytes, e) ↦
        rw
          (
            records-some n pos j c a b x bytes e,
            ne→== ((hdr_of bytes).magic) journal_magic (stop bytes e),
          )
          refl
  ]

  pub marked :
      (n pos a b : ℕ) (x : Option (List ℕ)) (h : JournalHdr)
      → Fits h
      → h.magic ≡ journal_magic
      → c j.dev (journal_lba_hdr j pos) ≡ some (hdr_bytes h)
      → after_records (suc n) pos j c a b x
        ≡ after_records n (pos + 1) j c a b (undone j c pos h a b x)
  marked n pos a b x h f m e =
      records-some n pos j c a b x (hdr_bytes h) e
      ∙ rw (hdr_of-hdr_bytes h f, eq→== h.magic journal_magic m) refl

  -- One record of a block, and no other one behind it.
  pub one_record :
      (left a b d l : ℕ) (x : Option (List ℕ)) (old : List ℕ)
      → Fits (logged_hdr j d l)
      → c j.dev (journal_lba_hdr j 0) ≡ some (hdr_bytes (logged_hdr j d l))
      → c j.dev (journal_lba_data j 0) ≡ some old
      → ((bytes : List ℕ)
          → c j.dev (journal_lba_hdr j 1) ≡ some bytes
          → (hdr_of bytes).magic ≢ journal_magic)
      → after_records (suc (suc left)) 0 j c a b x ≡ (if same d l a b then some old else x)
  one_record left a b d l x old f e g stop =
      marked (suc left) 0 a b x (logged_hdr j d l) f refl e
      ∙ unmarked left 1 a b (undone j c 0 (logged_hdr j d l) a b x) stop
      ∙ rw g refl
