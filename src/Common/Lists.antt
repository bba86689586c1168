-- ===== src/Common/Lists.antt =====
-- Lists measured and indexed by native numbers, and maps as functions.
use Prim.Native.Nat.{ℕ, zero, suc, ◌+◌, ◌≤◌, ◌<◌}
use mathlib.Core.Path.{◌≡◌, refl, ap}
use mathlib.Core.Bool.{Bool, true, false}
use native.Mathlib.Decide.{ℕ_discrete}
use mathlib.Core.List.{List, [], ◌∷◌, ◌++◌}
use mathlib.Core.Option.{Option, none, some}
use native.Mathlib.Omega.{arith}
use base_nexs.Common.Tests.{◌==◌, if◌then◌else◌}

module _ {ℓ} {A : Type ℓ} where
  abbrev pub length : List A → ℕ
  length [] = 0
  length (x ∷ xs) = suc (length xs)

  abbrev pub get_elem? : List A → ℕ → Option A
  get_elem? [] i = none
  get_elem? (x ∷ xs) zero = some x
  get_elem? (x ∷ xs) (suc i) = get_elem? xs i

  -- A write out of bounds changes nothing.
  abbrev pub set : List A → ℕ → A → List A
  set [] i v = []
  set (x ∷ xs) zero v = v ∷ xs
  set (x ∷ xs) (suc i) v = x ∷ set xs i v

  abbrev pub All {κ} : (A → Type κ) → List A → Type κ
  All P [] = Unit {κ}
  All P (x ∷ xs) = P x × All P xs

  -- `m[i] = v` on a table that is a function of its index.
  abbrev pub update : (ℕ → A) → ℕ → A → ℕ → A
  update m i v j = if j == i then v else m j

module _ {ℓ} {A : Type ℓ} where
  pub length-append : (xs ys : List A) → length (xs ++ ys) ≡ length xs + length ys
  length-append [] ys = omega arith
  length-append (x ∷ xs) ys = omega (arith, length-append xs ys)

  pub length-set : (xs : List A) (i : ℕ) (v : A) → length (set xs i v) ≡ length xs
  length-set [] i v = refl
  length-set (x ∷ xs) zero v = refl
  length-set (x ∷ xs) (suc i) v = ap suc (length-set xs i v)

  pub All-append {κ} : (P : A → Type κ) (xs ys : List A) → All P xs → All P ys → All P (xs ++ ys)
  All-append P [] ys h k = k
  All-append P (x ∷ xs) ys h k = (h.0, All-append P xs ys h.1 k)

-- The first of the `n` indices from `i` on that passes the test.
unfoldable pub first_from : ℕ → ℕ → (ℕ → Bool) → Option ℕ
first_from zero i test = none
first_from (suc n) i test = if test i then some i else first_from n (i + 1) test

pub first_from_sound :
    (n i : ℕ) (test : ℕ → Bool) (j : ℕ)
    → first_from n i test ≡ some j
    → (i ≤ j) × (j < i + n) × (test j ≡ true)
unfolding first_from
first_from_sound zero i test j e = cc
first_from_sound (suc n) i test j e = ground (arith, first_from_sound n (i + 1) test j)

pub first_from-none :
    (n i : ℕ) (test : ℕ → Bool) (j : ℕ)
    → first_from n i test ≡ none
    → i ≤ j
    → j < i + n
    → test j ≡ false
unfolding first_from
first_from-none zero i test j e h g = absurd (omega arith)
first_from-none (suc n) i test j e h g = elim (ℕ_discrete i j) [
  | yes p ↦ rw (← p) (ground arith)
  | no p ↦ first_from-none n (i + 1) test j (ground arith) (omega arith) (omega arith)
]

pub first_from-least :
    (n i : ℕ) (test : ℕ → Bool) (j k : ℕ)
    → first_from n i test ≡ some j
    → i ≤ k
    → k < j
    → test k ≡ false
unfolding first_from
first_from-least zero i test j k e h g = cc
first_from-least (suc n) i test j k e h g = elim (ℕ_discrete i k) [
  | yes p ↦ rw (← p) (ground arith)
  | no p ↦ first_from-least n (i + 1) test j k (ground arith) (omega arith) g
]

pub All-weaken {ℓ κ} :
    {A : Type ℓ} (P Q : A → Type κ) (xs : List A) → ((x : A) → P x → Q x) → All P xs → All Q xs
All-weaken P Q [] f h = tt
All-weaken P Q (x ∷ xs) f h = (f x (h.0), All-weaken P Q xs f (h.1))
