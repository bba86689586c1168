-- ===== src/Buddy/Free.antt =====
-- `buddy_free_node` gives back the taken block at the target, and joins vacant halves on the way up.
use base_nexs.Common.{
  ℕ, zero, suc, ◌+◌, ◌*◌, ◌<◌, ◌≡◌, refl, ◌∙◌, Option, some, arith, Bool, true, false, Bool-cases,
  inl, inr, lt→leb, lt→ltb, ltb, ◌==◌, if◌then◌else◌, update, ◌&&◌,
}
use mathlib.Core.Path.{subst₂}
use base_nexs.Config.{Limits, tree_nodes}
use base_nexs.Buddy.{Tree, free, split, used, coalesce, free_child, free_node}
use base_nexs.Buddy.Block.{Block, vacant, taken, fork, join, release}
use base_nexs.Buddy.Node.{
  Holds, Keeps, Holds-left, Holds-right, Holds-merge, Keeps-update, Keeps-trans, Keeps-refl,
}
use base_nexs.Buddy.Node.{ChildrenFree-update, update_self, is_vacant, is_free-Holds}
use base_nexs.Buddy.Size.{units, units-half, InTree, InTree-lt, InTree-left, InTree-right}

-- `join` by a test.
join_lem : (a b : Block) → join a b ≡ (if is_vacant a && is_vacant b then vacant else fork a b)
unfolding join
join_lem vacant vacant = refl
join_lem vacant taken = refl
join_lem vacant (fork a b) = refl
join_lem taken b = refl
join_lem (fork a c) b = refl

vacant_halves : (a b : Block) → (is_vacant a && is_vacant b) ≡ true → (a ≡ vacant) × (b ≡ vacant)
vacant_halves vacant vacant h = (refl, refl)
vacant_halves vacant taken h = cc
vacant_halves vacant (fork a b) h = cc
vacant_halves taken b h = cc
vacant_halves (fork a c) b h = cc

module _ (l : Limits) where
  coalesce_test :
      (d n : ℕ) (t : Tree) (a b : Block)
      → InTree l (suc d) n
      → Holds t (suc d) n (fork a b)
      → coalesce l t n ≡ (if is_vacant a && is_vacant b then update t n free else t)
  unfolding coalesce
  coalesce_test d n t a b i (e, x, y) = rw (
    e,
    lt→ltb (2 * n + 2) (tree_nodes l) (InTree-lt l d (2 * n + 2) (InTree-right l d n i)),
    is_free-Holds d (2 * n + 1) t a x,
    is_free-Holds d (2 * n + 2) t b y,
  )

  -- Coalescing is `join`, and touches the one node.
  coalesce-join :
      (d n : ℕ) (t : Tree) (a b : Block)
      → InTree l (suc d) n
      → Holds t (suc d) n (fork a b)
      → Holds (coalesce l t n) (suc d) n (join a b) × Keeps t (coalesce l t n) n
  coalesce-join d n t a b i h = elim (Bool-cases (is_vacant a && is_vacant b)) [
    | inl v ↦
        rw (coalesce_test d n t a b i h, join_lem a b, v)
          (
            Holds-merge d n t (
                let (p, q) = vacant_halves a b v in
                subst₂ (λ x y. Holds t (suc d) n (fork x y)) p q h),
            Keeps-update t n free,
          )
    | inr v ↦ rw (coalesce_test d n t a b i h, join_lem a b, v) (h, Keeps-refl t n)
  ]

  -- What the release of `target` leaves at node `n`, with `d` levels below it and its first byte at `off`.
  abbrev pub Released : Tree → ℕ → ℕ → Block → Option Tree → Type 0
  Released t d n b out = (t' : Tree) × (out ≡ some t') × Holds t' d n b × Keeps t t' n

  module _ (fuel target size off n : ℕ) (t : Tree) (inside : n < tree_nodes l) where
    node_free : t n ≡ free → free_node l (suc fuel) target t n size off ≡ some t
    unfolding free_node
    node_free e = rw (lt→leb (tree_nodes l) n inside, e)

    node_used :
        t n ≡ used
        → free_node l (suc fuel) target t n size off
          ≡ (if off == target then some (update t n free) else some t)
    unfolding free_node
    node_used e = rw (lt→leb (tree_nodes l) n inside, e)

    node_split :
        t n ≡ split
        → (t' : Tree) → free_child (free_node l fuel target) target t n size off ≡ some t'
        → free_node l (suc fuel) target t n size off ≡ some (coalesce l t' n)
    unfolding free_node
    node_split e t' h = rw (lt→leb (tree_nodes l) n inside, e, h)

  taken-Released :
      (target off d n : ℕ) (t : Tree) (test : Bool)
      → Holds t d n taken
      → Released t d n
          (if test then vacant else taken)
          (if test then some (update t n free) else some t)
  taken-Released target off d n t true (e, f) = (
    update t n free,
    refl,
    (update_self t n free, ChildrenFree-update d n t free f),
    Keeps-update t n free,
  )
  taken-Released target off d n t false h = (t, refl, h, Keeps-refl t n)

  -- Joining after the release in one half.
  joined-Released :
      (fuel target size off d n : ℕ) (t t' : Tree) (a b : Block)
      → InTree l (suc d) n
      → t n ≡ split
      → free_child (free_node l fuel target) target t n size off ≡ some t'
      → Holds t' (suc d) n (fork a b)
      → Keeps t t' n
      → Released t (suc d) n (join a b) (free_node l (suc fuel) target t n size off)
  joined-Released fuel target size off d n t t' a b i e f h k =
      let (g, k') = coalesce-join d n t' a b i h in
      (
        coalesce l t' n,
        node_split fuel target size off n t (InTree-lt l (suc d) n i) e t' f,
        g,
        Keeps-trans t t' (coalesce l t' n) n k k',
      )

  module _ (d : ℕ) (give : Tree → ℕ → ℕ → ℕ → Option Tree) (target : ℕ) (t : Tree) (n off : ℕ) where
    child_left :
        ltb target (off + units l d) ≡ true
        → free_child give target t n (units l (suc d)) off ≡ give t (2 * n + 1) (units l d) off
    unfolding free_child
    child_left e = rw (units-half, e)

    child_right :
        ltb target (off + units l d) ≡ false
        → free_child give target t n (units l (suc d)) off
          ≡ give t (2 * n + 2) (units l d) (off + units l d)
    unfolding free_child
    child_right e = rw (units-half, e)

  -- `buddy_free_node` terminates with fuel for the levels, and releases the target.
  pub free_node-Released :
      (fuel d target n off : ℕ) (t : Tree) (b : Block)
      → d < fuel
      → InTree l d n
      → Holds t d n b
      → Released t d n
          (release target (units l d) off b)
          (free_node l fuel target t n (units l d) off)
  unfolding release
  free_node-Released zero d target n off t b m i h = absurd (omega arith)
  free_node-Released (suc fuel) d target n off t vacant m i h =
      (t, node_free fuel target (units l d) off n t (InTree-lt l d n i) h.0, h, Keeps-refl t n)
  free_node-Released (suc fuel) d target n off t taken m i h =
      rw (node_used fuel target (units l d) off n t (InTree-lt l d n i) h.0)
        (taken-Released target off d n t (off == target) h)
  free_node-Released (suc fuel) zero target n off t (fork a b) m i h = absurd h
  free_node-Released (suc fuel) (suc d) target n off t (fork a b) m i h =
      elim (Bool-cases (ltb target (off + units l d))) [
        | inl e ↦
            let (t', f, h', k) =
              free_node-Released fuel d target (2 * n + 1) off t a (omega arith)
                (InTree-left l d n i) h.1 in
            let (g, k') = Holds-left d n t t' a (release target (units l d) off a) b h k h' in
            rw (units-half, e)
              (joined-Released fuel target (units l (suc d)) off d n t t'
                (release target (units l d) off a) b i h.0
                (child_left d (free_node l fuel target) target t n off e ∙ f) g k')
        | inr e ↦
            let (t', f, h', k) =
              free_node-Released fuel d target (2 * n + 2) (off + units l d) t b (omega arith)
                (InTree-right l d n i) h.2 in
            let (g, k') =
              Holds-right d n t t' a b (release target (units l d) (off + units l d) b) h k h' in
            rw (units-half, e)
              (joined-Released fuel target (units l (suc d)) off d n t t' a
                (release target (units l d) (off + units l d) b) i h.0
                (child_right d (free_node l fuel target) target t n off e ∙ f) g k')
      ]
