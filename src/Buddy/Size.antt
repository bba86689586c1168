-- ===== src/Buddy/Size.antt =====
-- Block sizes: `units l d` bytes are the least block doubled `d` times.
use base_nexs.Common.{ℕ, zero, suc, ◌+◌, ◌*◌, ◌/◌, ◌^◌, ◌≤◌, ◌<◌, ◌≡◌, arith}
use native.Mathlib.Nat.{pow-suc, pow-le-pow_right}
use base_nexs.Config.{Limits, IsBuddySized, tree_nodes}
use base_nexs.Buddy.Node.{pow_pos}

unfoldable pub units : Limits → ℕ → ℕ
units l d = l.min_block * 2 ^ d

module _ (l : Limits) where
  pub units-zero : units l 0 ≡ l.min_block
  unfolding units
  units-zero = omega arith

  pub units-suc : (d : ℕ) → units l (suc d) ≡ 2 * units l d
  unfolding units
  units-suc d = rw pow-suc (omega arith)

  pub units-half : (d : ℕ) → units l (suc d) / 2 ≡ units l d
  units-half d = rw units-suc (omega arith)

  pub units_pos : (d : ℕ) → 0 < l.min_block → 0 < units l d
  units_pos zero h = omega (arith, units-zero)
  units_pos (suc d) h = omega (arith, units_pos d h, units-suc d)

  pub units_mono : (d r : ℕ) → d ≤ r → units l d ≤ units l r
  unfolding units
  units_mono d r h = grind (arith, pow-le-pow_right {n = 2} (omega arith) h)

  pub units_lt : (d r : ℕ) → 0 < l.min_block → d < r → units l d < units l r
  units_lt d r m h = omega (arith, units_mono (suc d) r h, units-suc d, units_pos d m)

  -- The node `n` with `d` levels below it lies inside the array.
  pub InTree : ℕ → ℕ → Type 0
  InTree d n = (n + 2) * 2 ^ d ≤ tree_nodes l + 1

  pub InTree-lt : (d n : ℕ) → InTree d n → n < tree_nodes l
  unfolding InTree
  InTree-lt d n h = grind (arith, pow_pos d)

  pub InTree-left : (d n : ℕ) → InTree (suc d) n → InTree d (2 * n + 1)
  unfolding InTree
  InTree-left d n h = let k = rw pow-suc at h in omega arith

  pub InTree-right : (d n : ℕ) → InTree (suc d) n → InTree d (2 * n + 2)
  unfolding InTree
  InTree-right d n h = let k = rw pow-suc at h in omega arith

  pub InTree-root : (d : ℕ) → IsBuddySized l d → InTree d 0
  unfolding InTree
  InTree-root d s = let e = s.nodes in let k = rw pow-suc at e in omega arith
