-- ===== src/Journal/Layout.antt =====
-- kernel/journal.c: where the journal lies, and which blocks are outside it.
use base_nexs.Common.{
  ℕ, ◌+◌, ◌*◌, ◌%◌, ◌^◌, ◌≤◌, ◌<◌, ◌≡◌, ◌≢◌, refl, true, false, Option, Bool-cases, inl, inr, List,
  arith,
}
use native.Mathlib.Nat.{mod-eq_of_lt}
use base_nexs.Journal.{Journal, journal_lba_hdr, journal_lba_data}
use base_nexs.Journal.Store.{same}

-- The positions of the journal and its blocks are computed without wrapping around.
pub record HasRoom (j : Journal) : Type 0 where
  pub few : j.n_blocks < 2 ^ 31
  pub within : j.base_lba + j.n_blocks * 2 ≤ 2 ^ 64

pub hdr_at :
    (j : Journal) (pos : ℕ)
    → HasRoom j
    → pos < j.n_blocks
    → journal_lba_hdr j pos ≡ j.base_lba + pos * 2
unfolding journal_lba_hdr
hdr_at j pos r h =
    let f = r.few in
    let w = r.within in
    let a : j.n_blocks * 2 % 2 ^ 32 ≡ j.n_blocks * 2 = omega arith in
    let b : pos * 2 % 2 ^ 64 ≡ pos * 2 = omega arith in
    rw (a, b, mod-eq_of_lt {n = pos * 2} {m = j.n_blocks * 2} (omega arith)) (omega arith)

pub data_at :
    (j : Journal) (pos : ℕ)
    → HasRoom j
    → pos < j.n_blocks
    → journal_lba_data j pos ≡ j.base_lba + (pos * 2 + 1)
unfolding journal_lba_data
data_at j pos r h =
    let f = r.few in
    let w = r.within in
    let a : j.n_blocks * 2 % 2 ^ 32 ≡ j.n_blocks * 2 = omega arith in
    let b : (pos * 2 + 1) % 2 ^ 64 ≡ pos * 2 + 1 = omega arith in
    rw (a, b, mod-eq_of_lt {n = pos * 2 + 1} {m = j.n_blocks * 2} (omega arith)) (omega arith)

-- The blocks of the journal itself, and the others.
abbrev pub IsInside : Journal → ℕ → ℕ → Type 0
IsInside j d l = (d ≡ j.dev) × ((j.base_lba ≤ l) × (l < j.base_lba + j.n_blocks * 2))

abbrev pub Contents : Type 0
Contents = ℕ → ℕ → Option (List ℕ)

pub same_eq : (dev lba d l : ℕ) → same dev lba d l ≡ true → (dev ≡ d) × (lba ≡ l)
same_eq dev lba d l e = ground arith

-- A block inside the journal is none outside.
pub same_outside :
    (j : Journal) (dev lba d l : ℕ)
    → (IsInside j dev lba → ⊥)
    → IsInside j d l
    → same dev lba d l ≡ false
same_outside j dev lba d l out i = elim (Bool-cases (same dev lba d l)) [
  | inr f ↦ f
  | inl t ↦ let (p, q) = same_eq dev lba d l t in absurd (out (rw (p, q) i))
]

pub data-IsInside :
    (j : Journal) (pos : ℕ)
    → HasRoom j
    → pos < j.n_blocks
    → IsInside j j.dev (journal_lba_data j pos)
data-IsInside j pos r h = rw (data_at j pos r h) (refl, (omega arith, omega arith))

pub hdr-IsInside :
    (j : Journal) (pos : ℕ)
    → HasRoom j
    → pos < j.n_blocks
    → IsInside j j.dev (journal_lba_hdr j pos)
hdr-IsInside j pos r h = rw (hdr_at j pos r h) (refl, (omega arith, omega arith))

pub same_self : (d l : ℕ) → same d l d l ≡ true
same_self d l = ground arith

pub same_lba : (d l l' : ℕ) → l ≢ l' → same d l d l' ≡ false
same_lba d l l' h = ground arith

pub same_other :
    (j : Journal) (d l a b : ℕ) → IsInside j d l → (IsInside j a b → ⊥) → same d l a b ≡ false
same_other j d l a b i out = elim (Bool-cases (same d l a b)) [
  | inr f ↦ f
  | inl t ↦ let (p, q) = same_eq d l a b t in absurd (out (rw (← p, ← q) i))
]

pub apart :
    (j : Journal) (pos : ℕ)
    → HasRoom j
    → pos < j.n_blocks
    → journal_lba_hdr j pos ≢ journal_lba_data j pos
apart j pos r h = rw (hdr_at j pos r h, data_at j pos r h) (λ e. omega arith)
