-- ===== src/Journal/Records.antt =====
-- kernel/journal.c: the header of a record, as it lies in its block.
use base_nexs.Common.{
  ℕ, suc, ◌^◌, ◌<◌, ◌≡◌, refl, List, ◌++◌, le_bytes, le_at, le_at-one, le_at-four, le_at-eight,
}
use base_nexs.Journal.{JournalHdr, hdr_bytes, hdr_of}

-- The fields fit the types of the struct.
pub record Fits (h : JournalHdr) : Type 0 where
  pub magic : h.magic < 2 ^ 32
  pub seq : h.seq < 2 ^ 64
  pub dev : h.dev < 2 ^ 32
  pub lba : h.lba < 2 ^ 64
  pub commit : h.commit < 2 ^ 8

skip_four :
    (v off n : ℕ) (rest : List ℕ)
    → le_at (suc (suc (suc (suc off)))) (suc n) (le_bytes 4 v ++ rest) ≡ le_at off (suc n) rest
unfolding le_at le_bytes
skip_four v off n rest = refl

skip_eight :
    (v off n : ℕ) (rest : List ℕ)
    → le_at (suc (suc (suc (suc (suc (suc (suc (suc off)))))))) (suc n) (le_bytes 8 v ++ rest)
      ≡ le_at off (suc n) rest
unfolding le_at le_bytes
skip_eight v off n rest = refl

-- A header whose fields fit the struct is read back from the block that it fills.
pub hdr_of-hdr_bytes : (h : JournalHdr) → Fits h → hdr_of (hdr_bytes h) ≡ h
unfolding hdr_of hdr_bytes
hdr_of-hdr_bytes h f =
    rw
      (
        le_at-four h.magic _ f.magic,
        skip_four h.magic 0 7 _,
        le_at-eight h.seq _ f.seq,
        skip_four h.magic 8 3 _,
        skip_eight h.seq 0 3 _,
        le_at-four h.dev _ f.dev,
        skip_four h.magic 12 7 _,
        skip_eight h.seq 4 7 _,
        skip_four h.dev 0 7 _,
        le_at-eight h.lba _ f.lba,
        skip_four h.magic 20 0 _,
        skip_eight h.seq 12 0 _,
        skip_four h.dev 8 0 _,
        skip_eight h.lba 0 0 _,
        le_at-one h.commit _ f.commit,
      )
      refl
