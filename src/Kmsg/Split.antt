-- ===== src/Kmsg/Split.antt =====
-- kernel/msg.c: the words that `strtok` finds between colons.
use base_nexs.Common.{
  ℕ, ◌<◌, ◌≡◌, ◌≢◌, refl, ap, none, some, List, [], ◌∷◌, ◌++◌, length, All, ne→==, arith,
}
use base_nexs.Kmsg.{skip_sep, read_word, strtok}

-- A text that is one word: not empty, and without a colon.
abbrev pub IsWord : List ℕ → Type 0
IsWord s = (0 < length s) × All (λ c. c ≢ 58) s

read_word-append :
    (s rest : List ℕ) → All (λ c. c ≢ 58) s → read_word (s ++ (58 ∷ rest)) ≡ (s, rest)
unfolding read_word
read_word-append [] rest h = refl
read_word-append (c ∷ s) rest h =
    rw (ne→== c 58 (h.0)) (ap (λ w. (c ∷ w.0, w.1)) (read_word-append s rest (h.1)))

read_word_only : (s : List ℕ) → All (λ c. c ≢ 58) s → read_word s ≡ (s, [])
unfolding read_word
read_word_only [] h = refl
read_word_only (c ∷ s) h = rw (ne→== c 58 (h.0)) (ap (λ w. (c ∷ w.0, w.1)) (read_word_only s (h.1)))

skip_sep_word : (c : ℕ) (s : List ℕ) → c ≢ 58 → skip_sep (c ∷ s) ≡ c ∷ s
unfolding skip_sep
skip_sep_word c s h = rw (ne→== c 58 h) refl

pub strtok-append : (s rest : List ℕ) → IsWord s → strtok (s ++ (58 ∷ rest)) ≡ some (s, rest)
unfolding strtok
strtok-append [] rest h = absurd (omega arith)
strtok-append (c ∷ s) rest h =
    rw (skip_sep_word c (s ++ (58 ∷ rest)) (h.1.0)) (ap some (read_word-append (c ∷ s) rest (h.1)))

pub strtok_only : (s : List ℕ) → IsWord s → strtok s ≡ some (s, [])
unfolding strtok
strtok_only [] h = absurd (omega arith)
strtok_only (c ∷ s) h = rw (skip_sep_word c s (h.1.0)) (ap some (read_word_only (c ∷ s) (h.1)))

-- An empty word is not found.
pub strtok_skips : (s : List ℕ) → strtok (58 ∷ s) ≡ strtok s
unfolding strtok skip_sep
strtok_skips s = refl

pub strtok_end : strtok [] ≡ none
unfolding strtok skip_sep
strtok_end = refl
