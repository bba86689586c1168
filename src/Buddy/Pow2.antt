-- ===== src/Buddy/Pow2.antt =====
-- `buddy_next_pow2` rounds a size up to the next block size.
use base_nexs.Common.{
  ℕ, zero, suc, ◌+◌, ◌*◌, ◌%◌, ◌^◌, ◌≤◌, ◌<◌, ◌≡◌, refl, ◌⊎◌, some, arith, Bool-cases, inl, inr,
  ltb, ltb→lt, ltb→le,
}
use native.Mathlib.Decide.{dec_lt}
use base_nexs.Config.{Limits, IsBuddySized}
use base_nexs.Buddy.{next_pow2_loop, buddy_next_pow2}
use base_nexs.Buddy.Size.{units, units-zero, units-suc, units_mono}

-- The block size that a request gets: large enough, and the least block or under twice the request.
pub record IsRounded (l : Limits) (levels size r : ℕ) : Type 0 where
  pub within : r ≤ levels
  pub enough : size ≤ units l r
  pub tight : (r ≡ 0) ⊎ (units l r < 2 * size)

module _ (l : Limits) (levels : ℕ) (sized : IsBuddySized l levels) where
  pub pool_units : l.pool_size ≡ units l levels
  unfolding units
  pool_units = sized.pool

  no_wrap : (d : ℕ) → suc d ≤ levels → units l d * 2 % 2 ^ 64 ≡ units l (suc d)
  no_wrap d h =
      let s = sized.small in omega (arith, units_mono l (suc d) levels h, units-suc l d, pool_units)

  -- A block size below a request that the pool can hold is not the pool's.
  below_top : (size d : ℕ) → size ≤ l.pool_size → d ≤ levels → units l d < size → d < levels
  below_top size d h m below = elim (dec_lt d levels) [
    | yes g ↦ g
    | no g ↦ let e : d ≡ levels = omega arith in absurd (omega (arith, rw e at below, pool_units))
  ]

  loop-IsRounded :
      (fuel size d : ℕ)
      → size ≤ l.pool_size
      → d ≤ levels
      → levels < fuel + d
      → (d ≡ 0) ⊎ (units l d < 2 * size)
      → (r : ℕ) × (next_pow2_loop l fuel size (units l d) ≡ some (units l r))
        × IsRounded l levels size r
  unfolding next_pow2_loop
  loop-IsRounded zero size d h m f t = absurd (omega arith)
  loop-IsRounded (suc fuel) size d h m f t = elim (Bool-cases (ltb (units l d) size)) [
    | inl e ↦
        let below = ltb→lt (units l d) size e in
        let g : suc d ≤ levels = below_top size d h m below in
        rw (e, no_wrap d g)
          (loop-IsRounded fuel size (suc d) h g (omega arith) (inr (omega (arith, units-suc l d))))
    | inr e ↦ rw e (d, refl, record { within = m; enough = ltb→le (units l d) size e; tight = t })
  ]

  -- For every size up to the pool the loop ends, without overflow.
  pub next_pow2-IsRounded :
      (size : ℕ)
      → size ≤ l.pool_size
      → (r : ℕ) × (buddy_next_pow2 l size ≡ some (units l r)) × IsRounded l levels size r
  unfolding buddy_next_pow2
  next_pow2-IsRounded size h =
      let f = sized.few in
      rw (units-zero l) at (loop-IsRounded 65 size 0 h (omega arith) (omega arith) (inl refl))
