-- ===== src/Common/Decimal.antt =====
-- Decimal numerals: what `%u` prints, and what `atoi` reads.
use Prim.Native.Nat.{ℕ, zero, suc, ◌+◌, ◌-◌, ◌*◌, ◌/◌, ◌%◌, ◌^◌, ◌≤◌, ◌<◌}
use mathlib.Core.Path.{◌≡◌, ◌∙◌}
use mathlib.Core.Bool.{Bool, ◌&&◌}
use mathlib.Core.List.{List, [], ◌∷◌, ◌++◌}
use native.Mathlib.Omega.{arith}
use native.Mathlib.Decide.{dec_lt}
use native.Mathlib.Numerals.{unary_clauses}
use base_nexs.Common.Tests.{ltb, leb, if◌then◌else◌, lt→ltb, le→ltb}
use base_nexs.Common.Lists.{All, All-append, length, length-append}

-- The digits of a number, with its own size as fuel, which is enough.
unfoldable pub digits : ℕ → ℕ → List ℕ
digits zero n = []
digits (suc fuel) n =
    let rest = digits fuel (n / 10) in
    if ltb n 10 then (48 + n) ∷ [] else rest ++ ((48 + n % 10) ∷ [])

unfoldable pub decimal : ℕ → List ℕ
decimal n = digits (suc n) n

abbrev pub is_digit : ℕ → Bool
is_digit c = leb 48 c && leb c 57

-- The number that a string of digits begins with, after what has been read.
unfoldable pub read_digits : ℕ → List ℕ → ℕ
read_digits acc [] = acc
read_digits acc (c ∷ s) =
    let more = read_digits (acc * 10 + (c - 48)) s in if is_digit c then more else acc

abbrev pub Digits : List ℕ → Type 0
Digits = All (λ c. (48 ≤ c) × (c ≤ 57))

read-append :
    (acc : ℕ) (s : List ℕ) (d : ℕ)
    → Digits s
    → d < 10
    → read_digits acc (s ++ ((48 + d) ∷ [])) ≡ read_digits acc s * 10 + d
unfolding read_digits
read-append acc [] d h g = ground arith
read-append acc (c ∷ s) d h g =
    let x = read-append (acc * 10 + (c - 48)) s d (h.1) g in ground arith

digits-Digits : (fuel n : ℕ) → Digits (digits fuel n)
unfolding digits
digits-Digits zero n = tt
digits-Digits (suc fuel) n = elim (dec_lt n 10) [
  | yes h ↦ rw (lt→ltb n 10 h) ((omega arith, omega arith), tt)
  | no h ↦ rw (le→ltb n 10 (omega arith)) (
      All-append _ (digits fuel (n / 10)) ((48 + n % 10) ∷ []) (digits-Digits fuel (n / 10))
        ((omega arith, omega arith), tt))
]

read-digits : (fuel n : ℕ) → n < fuel → read_digits 0 (digits fuel n) ≡ n
unfolding digits read_digits
read-digits zero n h = absurd (omega arith)
read-digits (suc fuel) n h = elim (dec_lt n 10) [
  | yes g ↦ rw (lt→ltb n 10 g) (read-append 0 [] n tt g ∙ omega arith)
  | no g ↦
      let x = read-digits fuel (n / 10) (omega arith) in
      let y =
        read-append 0 (digits fuel (n / 10)) (n % 10) (digits-Digits fuel (n / 10)) (omega arith) in
      rw (le→ltb n 10 (omega arith)) (y ∙ omega arith)
]

pub decimal-Digits : (n : ℕ) → Digits (decimal n)
unfolding decimal
decimal-Digits n = digits-Digits (suc n) n

pub read-decimal : (n : ℕ) → read_digits 0 (decimal n) ≡ n
unfolding decimal
read-decimal n = read-digits (suc n) n (omega arith)

pub length-decimal : (n : ℕ) → 0 < length (decimal n)
unfolding decimal digits
length-decimal n = elim (dec_lt n 10) [
  | yes h ↦ rw (lt→ltb n 10 h) (omega arith)
  | no h ↦
      rw (le→ltb n 10 (omega arith), length-append (digits n (n / 10)) ((48 + n % 10) ∷ []))
        (omega arith)
]

-- A number below 10 ^ (k + 1) has at most k + 1 digits.
length-digits : (k fuel n : ℕ) → n < 10 ^ suc k → length (digits fuel n) ≤ suc k
unfolding digits
length-digits k zero n h = omega arith
length-digits zero (suc fuel) n h = rw (lt→ltb n 10 (omega arith)) (omega arith)
length-digits (suc k) (suc fuel) n h = elim (dec_lt n 10) [
  | yes g ↦ rw (lt→ltb n 10 g) (omega arith)
  | no g ↦
      let h2 : n < 10 ^ k * 10 * 10 = simp unary_clauses at h in
      let x = length-digits k fuel (n / 10) (simp unary_clauses (omega arith)) in
      rw (le→ltb n 10 (omega arith), length-append (digits fuel (n / 10)) ((48 + n % 10) ∷ []))
        (omega arith)
]

pub decimal_max : (k n : ℕ) → n < 10 ^ suc k → length (decimal n) ≤ suc k
unfolding decimal
decimal_max k n h = length-digits k (suc n) n h
