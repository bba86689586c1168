-- ===== src/Buddy/Pool.antt =====
-- The allocator as a whole.
use base_nexs.Common.{
  ℕ, zero, suc, ◌+◌, ◌-◌, ◌*◌, ◌≤◌, ◌<◌, ◌≡◌, refl, sym, ap, ◌∙◌, Option, none, some, arith,
  Bool-cases, inl, inr, ltb, leb, ltb→lt, ltb→le, if◌then◌else◌, ◌==◌, ◌&&◌, Bool, ne→==, le→ltb,
  lt→leb, le→leb, ==_iff,
}
use mathlib.Core.Path.{subst}
use base_nexs.Config.{Limits, IsBuddySized}
use base_nexs.Buddy.{
  Tree, free, Search, alloc_node, alloc_result, buddy_alloc, free_node, buddy_free,
}
use base_nexs.Buddy.Block.{
  Block, vacant, place, spans, release, IsNormal, HasRoom, Ordered, without,
}
use base_nexs.Buddy.Node.{Holds, AllFree, ChildrenFree}
use base_nexs.Buddy.Size.{units, InTree-root, units_pos}
use base_nexs.Buddy.Alloc.{Placed, Finds, alloc_node-Placed}
use base_nexs.Buddy.Free.{free_node-Released}
use base_nexs.Buddy.Spans.{spans-Ordered, spans-release}
use base_nexs.Buddy.Place.{
  Outcome, fits, full, place-Outcome, Inserted, spans-Fit, Fit-IsNormal, release-Fit,
}
use base_nexs.Buddy.Place.{Fit-aligned, Fit-bound, release-IsNormal}
use base_nexs.Buddy.Pow2.{IsRounded, pool_units, next_pow2-IsRounded}

-- The array stands for a block in which no two vacant halves are left apart.
pub record IsPool (l : Limits) (levels : ℕ) (t : Tree) (b : Block) : Type 0 where
  pub holds : Holds t levels 0 b
  pub normal : IsNormal levels b

-- What `buddy_alloc` answers for a size.
pub data Answer (l : Limits) (levels : ℕ) (t : Tree) (b : Block) (size : ℕ)
    : Option (Tree × Option ℕ) → Type 0 where
  granted :
      (r k start : ℕ) (t' : Tree) (b' : Block)
      → IsRounded l levels size r
      → IsPool l levels t' b'
      → start ≡ k * units l r
      → start + units l r ≤ l.pool_size
      → Inserted start (units l r) (spans l.pool_size 0 b) (spans l.pool_size 0 b')
      → Ordered 0 l.pool_size (spans l.pool_size 0 b')
      → release start l.pool_size 0 b' ≡ b
      → Answer l levels t b size (some (t', some start))
  refused :
      (r : ℕ)
      → IsRounded l levels size r
      → (HasRoom levels r b → ⊥)
      → Answer l levels t b size (some (t, none))

-- Whether an address lies in the pool that starts at `pool`.
abbrev pub in_pool : Limits → ℕ → ℕ → Bool
in_pool l pool ptr = leb pool ptr && ltb ptr (pool + l.pool_size)

abbrev tree_of : Option (Tree × Option ℕ) → Tree
tree_of none = λ _. free
tree_of (some (t, p)) = t

abbrev start_of : Option (Tree × Option ℕ) → ℕ
start_of none = 0
start_of (some (t, none)) = 0
start_of (some (t, some s)) = s

module _ (l : Limits) (levels : ℕ) (sized : IsBuddySized l levels) where
  -- A fact about the pool's size, from the same about the units that it is made of.
  whole : (P : ℕ → Type 0) → P (units l levels) → P l.pool_size
  whole P h = subst P (sym (pool_units l levels sized)) h

  pool-Ordered :
      (b : Block) → IsNormal levels b → Ordered 0 (units l levels) (spans (units l levels) 0 b)
  pool-Ordered b n =
      let e : 0 + units l levels ≡ units l levels = omega arith in
      subst (λ x. Ordered 0 x (spans (units l levels) 0 b)) e
        (spans-Ordered l sized.least levels 0 b n)

  answer :
      (r size : ℕ) (t : Tree) (b : Block) (p : Option (Block × ℕ)) (out : Tree × Search)
      → IsRounded l levels size r
      → IsPool l levels t b
      → Outcome levels r b p
      → Placed l t levels 0 0 p out
      → Answer l levels t b size (alloc_result out)
  unfolding alloc_result
  answer r size t b _ out q v (full n) e = rw e (refused r q n)
  answer r size t b _ out q v (fits b' o f) (t', e, h, k) =
      let (j, a) = Fit-aligned l f in
      let start = 0 + l.min_block * o in
      let n' = Fit-IsNormal f v.normal in
      rw e (
        granted r j start t' b' q (record { holds = h; normal = n' }) (omega arith)
          (omega (arith, Fit-bound l f, pool_units l levels sized))
          (whole (λ p. Inserted start (units l r) (spans p 0 b) (spans p 0 b')) (spans-Fit l 0 f))
          (whole (λ p. Ordered 0 p (spans p 0 b')) (pool-Ordered b' n'))
          (whole (λ p. release start p 0 b' ≡ b) (release-Fit l sized.least 0 f v.normal)))

  -- `buddy_alloc` ends with fuel above the levels, and answers as specified.
  pub buddy_alloc-Answer :
      (fuel size : ℕ) (t : Tree) (b : Block)
      → levels < fuel
      → 0 < size
      → size ≤ l.pool_size
      → IsPool l levels t b
      → Answer l levels t b size (buddy_alloc l fuel t size)
  unfolding buddy_alloc Finds
  buddy_alloc-Answer fuel size t b m s h v =
      let (r, e, q) = next_pow2-IsRounded l levels sized size h in
      rw (ne→== size 0 (omega arith), le→ltb l.pool_size size h, e)
        (answer r size t b (place levels r b) (alloc_node l fuel (units l r) t 0 l.pool_size 0) q v
          (place-Outcome levels r b)
          (whole
            (λ p. Placed l t levels 0 0 (place levels r b) (alloc_node l fuel (units l r) t 0 p 0))
            (alloc_node-Placed l sized.least fuel levels r m t 0 0 b (InTree-root l levels sized)
              v.holds)))

  released :
      (fuel target : ℕ) (t : Tree) (b : Block)
      → levels < fuel
      → IsPool l levels t b
      → (t' : Tree) × (b' : Block) × (free_node l fuel target t 0 l.pool_size 0 ≡ some t')
        × IsPool l levels t' b'
        × (spans l.pool_size 0 b' ≡ without target (spans l.pool_size 0 b))
  released fuel target t b m v =
      let (t', e, h, k) =
        free_node-Released l fuel levels target 0 0 t b m (InTree-root l levels sized) v.holds in
      let b' = release target (units l levels) 0 b in
      (
        t',
        b',
        whole (λ p. free_node l fuel target t 0 p 0 ≡ some t') e,
        record { holds = h; normal = release-IsNormal l sized.least target levels 0 b v.normal },
        whole (λ p. spans p 0 b' ≡ without target (spans p 0 b))
            (spans-release l sized.least target levels 0 b v.normal),
      )

  -- `buddy_free` ends, keeps the array a pool, and takes away just the block that starts at the
  -- pointer; a pointer outside the pool, or at no block's start, takes nothing away.
  pub buddy_free-spans :
      (pool fuel ptr : ℕ) (t : Tree) (b : Block)
      → levels < fuel
      → 0 < pool
      → IsPool l levels t b
      → (t' : Tree) × (b' : Block) × (buddy_free l pool fuel t ptr ≡ some t')
        × IsPool l levels t' b'
        × (spans l.pool_size 0 b' ≡ (
            if in_pool l pool ptr
            then without (ptr - pool) (spans l.pool_size 0 b)
            else spans l.pool_size 0 b))
  unfolding buddy_free
  buddy_free-spans pool fuel ptr t b m z v = elim (Bool-cases (ptr == 0)) [
    | inl e ↦ rw (e, lt→leb pool ptr (omega (arith, (==_iff ptr 0).0 e))) (t, b, refl, v, refl)
    | inr e ↦ elim (Bool-cases (ltb ptr pool)) [
      | inl f ↦ rw (e, f, lt→leb pool ptr (ltb→lt ptr pool f)) (t, b, refl, v, refl)
      | inr f ↦ elim (Bool-cases (ltb ptr (pool + l.pool_size))) [
        | inl g ↦
            rw
              (
                e,
                f,
                g,
                le→leb pool ptr (ltb→le ptr pool f),
                lt→leb (pool + l.pool_size) ptr (ltb→lt ptr (pool + l.pool_size) g),
              )
              (released fuel (ptr - pool) t b m v)
        | inr g ↦
            rw
              (
                e,
                f,
                g,
                le→leb pool ptr (ltb→le ptr pool f),
                le→leb (pool + l.pool_size) ptr (ltb→le ptr (pool + l.pool_size) g),
              )
              (t, b, refl, v, refl)
      ]
    ]
  ]

  inside :
      (pool fuel start : ℕ) (t : Tree)
      → 0 < pool
      → start < l.pool_size
      → buddy_free l pool fuel t (pool + start) ≡ free_node l fuel start t 0 l.pool_size 0
  unfolding buddy_free
  inside pool fuel start t z h =
      let e : pool + start - pool ≡ start = omega arith in
      rw (
        ne→== (pool + start) 0 (omega arith),
        le→ltb (pool + start) pool (omega arith),
        lt→leb (pool + l.pool_size) (pool + start) (omega arith),
        e,
      )

  undo :
      (size start : ℕ) (t t' : Tree) (b : Block) (out : Option (Tree × Option ℕ))
      → Answer l levels t b size out
      → out ≡ some (t', some start)
      → (b' : Block) × IsPool l levels t' b'
        × (start < l.pool_size)
        × (release start l.pool_size 0 b' ≡ b)
  undo size start t t' b _ (refused r q n) e = cc
  undo size start t t' b _ (granted r k s t₁ b' q v a h i o u) e =
      let et : t₁ ≡ t' = ap tree_of e in
      let es : s ≡ start = ap start_of e in
      (
        b',
        subst (λ x. IsPool l levels x b') et v,
        omega (arith, units_pos l r sized.least),
        rw es at u,
      )

  -- What `buddy_alloc` has granted, `buddy_free` takes back: the pool is as it was before.
  pub buddy_free-buddy_alloc :
      (pool fuel size start : ℕ) (t t' : Tree) (b : Block)
      → levels < fuel
      → 0 < pool
      → 0 < size
      → size ≤ l.pool_size
      → IsPool l levels t b
      → buddy_alloc l fuel t size ≡ some (t', some start)
      → (t'' : Tree) × (buddy_free l pool fuel t' (pool + start) ≡ some t'') × IsPool l levels t'' b
  buddy_free-buddy_alloc pool fuel size start t t' b m z s h v e =
      let (b', v', below, back) =
        undo size start t t' b (buddy_alloc l fuel t size)
          (buddy_alloc-Answer fuel size t b m s h v) e in
      let (t'', f, h'', k) =
        free_node-Released l fuel levels start 0 0 t' b' m (InTree-root l levels sized) v'.holds in
      let e' : release start (units l levels) 0 b' ≡ b =
        subst (λ p. release start p 0 b' ≡ b) (pool_units l levels sized) back in
      (
        t'',
        inside pool fuel start t' z below
            ∙ whole (λ p. free_node l fuel start t' 0 p 0 ≡ some t'') f,
        record { holds = subst (Holds t'' levels 0) e' h''; normal = v.normal },
      )

all_free : (d n : ℕ) → AllFree (λ _. free) d n
all_free zero n = refl
all_free (suc d) n = (refl, all_free d (2 * n + 1), all_free d (2 * n + 2))

children_free : (d n : ℕ) → ChildrenFree (λ _. free) d n
children_free zero n = tt
children_free (suc d) n = (all_free d (2 * n + 1), all_free d (2 * n + 2))

IsNormal-vacant : (d : ℕ) → IsNormal d vacant
IsNormal-vacant zero = tt
IsNormal-vacant (suc d) = tt

-- `buddy_tree` as the program starts: zero-filled, so every node is free.
pub fresh-IsPool : (l : Limits) (levels : ℕ) → IsPool l levels (λ _. free) vacant
fresh-IsPool l zero = record { holds = (refl, children_free zero 0); normal = IsNormal-vacant zero }
fresh-IsPool l (suc d) = record {
  holds = (refl, children_free (suc d) 0);
  normal = IsNormal-vacant (suc d);
}
