-- ===== src/Array/Growth.antt =====
-- The capacity that an array grows to.
use base_nexs.Common.{
  ℕ, zero, suc, ◌+◌, ◌*◌, ◌%◌, ◌^◌, ◌≤◌, ◌<◌, ◌≡◌, refl, some, arith, ◌∙◌, le→leb, lt→leb,
}
use native.Mathlib.Decide.{dec_le}
use base_nexs.Array.{grow_loop}

-- What the loop ends with: a capacity above the index, the old one if that is, else at most twice the index.
pub record IsGrown (index nc r : ℕ) : Type 0 where
  pub above : index < r
  pub no_less : nc ≤ r
  pub kept : index < nc → r ≡ nc
  pub tight : nc ≤ index → r ≤ 2 * index

grow_step :
    (fuel index nc : ℕ)
    → index < 2 ^ 63
    → nc ≤ index
    → grow_loop (suc fuel) index nc ≡ grow_loop fuel index (nc * 2)
unfolding grow_loop
grow_step fuel index nc h g =
    let e : nc * 2 % 2 ^ 64 ≡ nc * 2 = omega arith in rw (le→leb nc index g, e)

-- With two more rounds than there are numbers from the capacity to the index, the loop ends.
pub grow_loop-IsGrown :
    (fuel index nc : ℕ)
    → 0 < nc
    → index < 2 ^ 63
    → index + 1 < fuel + nc
    → 0 < fuel
    → (r : ℕ) × (grow_loop fuel index nc ≡ some r) × IsGrown index nc r
grow_loop-IsGrown zero index nc p h g z = absurd (omega arith)
grow_loop-IsGrown (suc fuel) index nc p h g z = elim (dec_le nc index) [
  | no e ↦ (
    nc,
    unfold grow_loop in rw (lt→leb nc index (omega arith)),
    record {
      above = omega arith;
      no_less = omega arith;
      kept = λ x. refl;
      tight = λ x. omega arith;
    },
  )
  | yes e ↦
      let (r, f, x) =
        grow_loop-IsGrown fuel index (nc * 2) (omega arith) h (omega arith) (omega arith) in
      let k = x.kept in
      let t = x.tight in
      (
        r,
        grow_step fuel index nc h e ∙ f,
        record {
          above = x.above;
          no_less = (let y = x.no_less in omega arith);
          kept = λ y. absurd (omega arith);
          tight = λ y. tighten r (nc * 2) index (omega arith) x;
        },
      )
]
  where
    tighten : (r m i : ℕ) → m ≤ 2 * i → IsGrown i m r → r ≤ 2 * i
    tighten r m i le y = elim (dec_le m i) [
      | yes q ↦ y.tight q
      | no q ↦ let w = y.kept (omega arith) in omega arith
    ]
