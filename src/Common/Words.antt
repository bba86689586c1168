-- ===== src/Common/Words.antt =====
-- Numbers as the machine lays them out: little-endian, in so many bytes.
use Prim.Native.Nat.{ℕ, zero, suc, ◌+◌, ◌*◌, ◌/◌, ◌%◌, ◌^◌, ◌<◌}
use mathlib.Core.Path.{◌≡◌}
use mathlib.Core.List.{List, [], ◌∷◌, ◌++◌}
use native.Mathlib.Omega.{arith}

unfoldable pub le_bytes : ℕ → ℕ → List ℕ
le_bytes zero v = []
le_bytes (suc n) v = v % 256 ∷ le_bytes n (v / 256)

-- The number whose `n` bytes begin after the first `off` bytes.
unfoldable pub le_at : ℕ → ℕ → List ℕ → ℕ
le_at off zero bytes = 0
le_at off (suc n) [] = 0
le_at zero (suc n) (b ∷ bytes) = b + 256 * le_at zero n bytes
le_at (suc off) (suc n) (b ∷ bytes) = le_at off (suc n) bytes

pub le_at-one : (v : ℕ) (rest : List ℕ) → v < 256 → le_at 0 1 (le_bytes 1 v ++ rest) ≡ v
unfolding le_at le_bytes
le_at-one v rest h = omega arith

pub le_at-four : (v : ℕ) (rest : List ℕ) → v < 2 ^ 32 → le_at 0 4 (le_bytes 4 v ++ rest) ≡ v
unfolding le_at le_bytes
le_at-four v rest h = omega arith

pub le_at-eight : (v : ℕ) (rest : List ℕ) → v < 2 ^ 64 → le_at 0 8 (le_bytes 8 v ++ rest) ≡ v
unfolding le_at le_bytes
le_at-eight v rest h = omega arith
