-- ===== src/Buddy/Place.antt =====
-- First fit takes one vacant block, fails only where none is large enough, and release undoes it.
use base_nexs.Common.{
  ℕ, zero, suc, ◌+◌, ◌-◌, ◌*◌, ◌^◌, ◌≤◌, ◌<◌, ◌≡◌, refl, sym, ◌∙◌, ap, Option, none, some, List, [],
  ◌∷◌, ◌++◌, arith, Bool-cases, inl, inr, lt→ltb, le→ltb, ltb→lt, ltb→le, ltb, ◌==◌, if◌then◌else◌,
  eq→==,
}
use mathlib.Core.List.{append_assoc, append-nil}
use native.Mathlib.Nat.{pow-suc}
use base_nexs.Config.{Limits}
use base_nexs.Buddy.Block.{Block, vacant, taken, fork, carve, place, join, release, spans}
use base_nexs.Buddy.Block.{IsNormal, IsVacant, HasRoom}
use base_nexs.Buddy.Size.{units, units-suc, units-half, units_pos, units_mono}

-- How first fit finds its block: the derivation that `place d r b` gives the block `b'` and place `o`.
pub data Fit (r : ℕ) : ℕ → Block → Block → ℕ → Type 0 where
  here : (d k : ℕ) → d ≡ k + r → Fit r d vacant (carve k) 0
  left : (d : ℕ) (a a' b : Block) (o : ℕ) → Fit r d a a' o → Fit r (suc d) (fork a b) (fork a' b) o
  right :
      (d : ℕ) (a b b' : Block) (o p : ℕ)
      → p ≡ 2 ^ d + o
      → Fit r d b b' o
      → Fit r (suc d) (fork a b) (fork a b') p

-- `place` finds a fit, or there is no room.
pub data Outcome (d r : ℕ) (b : Block) : Option (Block × ℕ) → Type 0 where
  fits : (b' : Block) (o : ℕ) → Fit r d b b' o → Outcome d r b (some (b', o))
  full : (HasRoom d r b → ⊥) → Outcome d r b none

vacant-Outcome : (d r : ℕ) → Outcome d r vacant (if ltb d r then none else some (carve (d - r), 0))
vacant-Outcome d r = elim (Bool-cases (ltb d r)) [
  | inl e ↦ rw e (full (λ h. omega (arith, ltb→lt d r e)))
  | inr e ↦ rw e (fits (carve (d - r)) 0 (here d (d - r) (omega (arith, ltb→le d r e))))
]

place_fork :
    (d r : ℕ) (a b : Block) (p q : Option (Block × ℕ))
    → place d r a ≡ p
    → place d r b ≡ q
    → Outcome d r a p
    → Outcome d r b q
    → Outcome (suc d) r (fork a b) (place (suc d) r (fork a b))
unfolding place
place_fork d r a b _ q e f (fits a' o x) y = rw (e) (fits (fork a' b) o (left d a a' b o x))
place_fork d r a b _ _ e f (full x) (fits b' o y) =
    rw (e, f) (fits (fork a b') (2 ^ d + o) (right d a b b' o (2 ^ d + o) refl y))
place_fork d r a b _ _ e f (full x) (full y) = rw (e, f) (full (elim [ inl h ↦ x h | inr h ↦ y h ]))

pub place-Outcome : (d r : ℕ) (b : Block) → Outcome d r b (place d r b)
unfolding place
place-Outcome zero r taken = full (λ h. h)
place-Outcome (suc d) r taken = full (λ h. h)
place-Outcome zero r vacant = vacant-Outcome zero r
place-Outcome (suc d) r vacant = vacant-Outcome (suc d) r
place-Outcome zero r (fork a b) = full (λ h. h)
place-Outcome (suc d) r (fork a b) =
    place_fork d r a b (place d r a) (place d r b) refl refl (place-Outcome d r a)
      (place-Outcome d r b)

Fit-le : {r d : ℕ} {b b' : Block} {o : ℕ} → Fit r d b b' o → r ≤ d
Fit-le (here d k e) = omega arith
Fit-le (left d a a' b o f) = omega (arith, Fit-le f)
Fit-le (right d a b b' o p e f) = omega (arith, Fit-le f)

vacant-IsNormal : (d : ℕ) → IsNormal d vacant
vacant-IsNormal zero = tt
vacant-IsNormal (suc d) = tt

taken-IsNormal : (d : ℕ) → IsNormal d taken
taken-IsNormal zero = tt
taken-IsNormal (suc d) = tt

join-IsNormal : (d : ℕ) (a b : Block) → IsNormal d a → IsNormal d b → IsNormal (suc d) (join a b)
unfolding join
join-IsNormal d vacant vacant n m = tt
join-IsNormal d vacant taken n m = (n, m, λ v w. w)
join-IsNormal d vacant (fork a b) n m = (n, m, λ v w. w)
join-IsNormal d taken b n m = (n, m, λ v w. v)
join-IsNormal d (fork a c) b n m = (n, m, λ v w. v)

carve_not_vacant : (k : ℕ) → IsVacant (carve k) → ⊥
unfolding carve
carve_not_vacant zero v = v
carve_not_vacant (suc k) v = v

carve-IsNormal : (k d : ℕ) → k ≤ d → IsNormal d (carve k)
unfolding carve
carve-IsNormal zero d h = taken-IsNormal d
carve-IsNormal (suc k) zero h = absurd (omega arith)
carve-IsNormal (suc k) (suc d) h =
    (carve-IsNormal k d (omega arith), vacant-IsNormal d, λ v w. carve_not_vacant k v)

not_vacant : {r d : ℕ} {b b' : Block} {o : ℕ} → Fit r d b b' o → IsVacant b' → ⊥
not_vacant (here d k e) v = carve_not_vacant k v
not_vacant (left d a a' b o f) v = v
not_vacant (right d a b b' o p e f) v = v

-- First fit keeps the block normal.
pub Fit-IsNormal : {r d : ℕ} {b b' : Block} {o : ℕ} → Fit r d b b' o → IsNormal d b → IsNormal d b'
Fit-IsNormal (here d k e) n = carve-IsNormal k d (omega arith)
Fit-IsNormal (left d a a' b o f) n = (Fit-IsNormal f n.0, n.1, λ v w. not_vacant f v)
Fit-IsNormal (right d a b b' o p e f) n = (n.0, Fit-IsNormal f n.1, λ v w. not_vacant f w)

-- The block at `start` was vacant and is taken; the others stay as they were.
unfoldable pub Inserted : ℕ → ℕ → List (ℕ × ℕ) → List (ℕ × ℕ) → Type 0
Inserted start size before after =
    (xs : List (ℕ × ℕ)) × (ys : List (ℕ × ℕ)) × (before ≡ xs ++ ys)
    × (after ≡ xs ++ ((start, size) ∷ ys))

module _ (l : Limits) where
  pub Fit-bound :
      {r d : ℕ} {b b' : Block} {o : ℕ} → Fit r d b b' o → l.min_block * o + units l r ≤ units l d
  unfolding units
  Fit-bound {r} (here d k e) = omega (arith, units_mono l r d (omega arith))
  Fit-bound (left d a a' b o f) = omega (arith, Fit-bound f, units-suc l d)
  Fit-bound (right d a b b' o p e f) = rw e (omega (arith, Fit-bound f, units-suc l d))

  pow_split : (j r d : ℕ) → d ≡ j + r → (k : ℕ) × (2 ^ d ≡ k * 2 ^ r)
  pow_split zero r d e = let g : d ≡ r = omega arith in (1, rw g (omega arith))
  pow_split (suc j) r zero e = absurd (omega arith)
  pow_split (suc j) r (suc d) e =
      let (k, g) = pow_split j r d (omega arith) in (k * 2, rw (pow-suc, g) (omega arith))

  -- A block starts at a multiple of its size.
  pub Fit-aligned :
      {r d : ℕ} {b b' : Block} {o : ℕ}
      → Fit r d b b' o
      → (k : ℕ) × (l.min_block * o ≡ k * units l r)
  unfolding units
  Fit-aligned (here d k e) = (0, omega arith)
  Fit-aligned (left d a a' b o f) = Fit-aligned f
  Fit-aligned {r} (right d a b b' o p q f) =
      let (k, e) = Fit-aligned f in
      let (j, g) = pow_split (d - r) r d (omega (arith, Fit-le f)) in
      (j + k, rw (q, g) (omega (arith, e)))

  place_at :
      (off d o p : ℕ) → p ≡ 2 ^ d + o → off + units l d + l.min_block * o ≡ off + l.min_block * p
  unfolding units
  place_at off d o p q = rw q (omega arith)

  spans-carve :
      (k r d off : ℕ) → d ≡ k + r → spans (units l d) off (carve k) ≡ (off, units l r) ∷ []
  unfolding spans carve
  spans-carve zero r d off e = let g : d ≡ r = omega arith in rw g
  spans-carve (suc k) r zero off e = absurd (omega arith)
  spans-carve (suc k) r (suc d) off e =
      rw (units-half, spans-carve k r d off (omega arith), append-nil)

  pub spans-Fit :
      {r d : ℕ} {b b' : Block} {o : ℕ} (off : ℕ)
      → Fit r d b b' o
      → Inserted
          (off + l.min_block * o)
          (units l r)
          (spans (units l d) off b)
          (spans (units l d) off b')
  unfolding spans Inserted
  spans-Fit {r} off (here d k e) =
      let g : off + l.min_block * 0 ≡ off = omega arith in
      ([], [], refl, rw g (spans-carve k r d off e))
  spans-Fit off (left d a a' b o f) =
      let (xs, ys, e, g) = spans-Fit off f in
      let zs = spans (units l d) (off + units l d) b in
      (
        xs,
        ys ++ zs,
        rw (units-half, e) (append_assoc xs ys zs),
        rw (units-half, g) (append_assoc xs _ zs),
      )
  spans-Fit {r} off (right d a b b' o p q f) =
      let (xs, ys, e, g) = spans-Fit (off + units l d) f in
      let zs = spans (units l d) off a in
      (
        zs ++ xs,
        ys,
        rw (units-half, e) (sym (append_assoc zs xs ys)),
        rw (units-half, g, place_at off d o p q) (sym (append_assoc zs xs _)),
      )

  module _ (least : 0 < l.min_block) where
    release-carve : (k r d off : ℕ) → d ≡ k + r → release off (units l d) off (carve k) ≡ vacant
    unfolding release carve join
    release-carve zero r d off e = rw (eq→== off off refl)
    release-carve (suc k) r zero off e = absurd (omega arith)
    release-carve (suc k) r (suc d) off e = rw (
      units-half,
      lt→ltb off (off + units l d) (omega (arith, units_pos l d least)),
      release-carve k r d off (omega arith),
    )

    join-normal : (a b : Block) → (IsVacant a → IsVacant b → ⊥) → join a b ≡ fork a b
    unfolding join
    join-normal vacant vacant h = absurd (h tt tt)
    join-normal vacant taken h = refl
    join-normal vacant (fork a b) h = refl
    join-normal taken b h = refl
    join-normal (fork a c) b h = refl

    -- Release undoes first fit.
    pub release-Fit :
        {r d : ℕ} {b b' : Block} {o : ℕ} (off : ℕ)
        → Fit r d b b' o
        → IsNormal d b
        → release (off + l.min_block * o) (units l d) off b' ≡ b
    unfolding release
    release-Fit {r} off (here d k e) n =
        let g : off + l.min_block * 0 ≡ off = omega arith in rw g (release-carve k r d off e)
    release-Fit {r} off (left d a a' b o f) n =
        rw
          (
            units-half,
            lt→ltb (off + l.min_block * o) (off + units l d)
                (omega (arith, Fit-bound f, units_pos l r least)),
            release-Fit off f n.0,
          )
          (join-normal a b n.2)
    release-Fit {r} off (right d a b b' o p q f) n =
        let g = place_at off d o p q in
        rw (units-half, le→ltb (off + l.min_block * p) (off + units l d) (omega (arith, g)))
          (ap (join a) (
              ap (λ x. release x (units l d) (off + units l d) b') (sym g)
              ∙ release-Fit (off + units l d) f n.1)
            ∙ join-normal a b n.2)

    -- Release keeps the block normal.
    pub release-IsNormal :
        (target d off : ℕ) (b : Block)
        → IsNormal d b
        → IsNormal d (release target (units l d) off b)
    unfolding release
    release-IsNormal target zero off vacant n = tt
    release-IsNormal target (suc d) off vacant n = tt
    release-IsNormal target d off taken n = elim (Bool-cases (off == target)) [
      | inl e ↦ rw e (vacant-IsNormal d)
      | inr e ↦ rw e (taken-IsNormal d)
    ]
    release-IsNormal target zero off (fork a b) n = absurd n
    release-IsNormal target (suc d) off (fork a b) n =
        elim (Bool-cases (ltb target (off + units l d))) [
          | inl e ↦
              rw (units-half, e)
                (join-IsNormal d (release target (units l d) off a) b
                  (release-IsNormal target d off a n.0) n.1)
          | inr e ↦
              rw (units-half, e)
                (join-IsNormal d a (release target (units l d) (off + units l d) b) n.0
                  (release-IsNormal target d (off + units l d) b n.1))
        ]
