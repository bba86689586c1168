-- ===== src/Buddy/Alloc.antt =====
-- `buddy_alloc_node` is first fit on the block that the array stands for.
use base_nexs.Common.{
  ℕ, zero, suc, ◌+◌, ◌-◌, ◌*◌, ◌/◌, ◌^◌, ◌≤◌, ◌<◌, ◌≡◌, refl, ◌∙◌, ap, Option, none, some, arith,
  lt→leb, eq→==, ne→==, Bool-cases, ◌==◌, inl, inr, lt→ltb, le→ltb, update,
}
use native.Mathlib.Decide.{dec_lt}
use base_nexs.Config.{Limits, tree_nodes}
use base_nexs.Buddy.{Tree, free, split, used, Search, found, nothing}
use base_nexs.Buddy.{alloc_children, alloc_node}
use base_nexs.Buddy.Block.{Block, vacant, taken, fork, carve, place}
use base_nexs.Buddy.Node.{
  Holds, Keeps, Holds-left, Holds-right, Holds-split, Keeps-update, Keeps-trans,
}
use base_nexs.Buddy.Node.{ChildrenFree-update, update_self}
use base_nexs.Buddy.Size.{units, units-zero, units-half, units_lt, units_mono}
use base_nexs.Buddy.Size.{InTree, InTree-lt, InTree-left, InTree-right}

-- Nothing fits in a block that is too small.
place_taken : (d r : ℕ) → place d r taken ≡ none
unfolding place
place_taken zero r = refl
place_taken (suc d) r = refl

pub place_small : (d r : ℕ) (b : Block) → d < r → place d r b ≡ none
unfolding place
place_small d r vacant h = rw (lt→ltb d r h)
place_small d r taken h = refl
place_small zero r (fork a b) h = refl
place_small (suc d) r (fork a b) h =
    rw (place_small d r a (omega arith), place_small d r b (omega arith))

pub place_vacant : (d r : ℕ) → r ≤ d → place d r vacant ≡ some (carve (d - r), 0)
unfolding place
place_vacant zero r h = rw (le→ltb zero r h, place)
place_vacant (suc d) r h = rw (le→ltb (suc d) r h, place)

place_exact : (d : ℕ) → place d d vacant ≡ some (taken, 0)
unfolding carve
place_exact d =
    let e : d - d ≡ 0 = omega arith in
    place_vacant d d (omega arith) ∙ ap (λ k. some (carve k, 0)) e

place_open : (d r : ℕ) → r ≤ d → place (suc d) r vacant ≡ some (fork (carve (d - r)) vacant, 0)
unfolding carve
place_open d r h =
    let e : suc d - r ≡ suc (d - r) = omega arith in
    place_vacant (suc d) r (omega arith) ∙ ap (λ k. some (carve k, 0)) e

-- First fit in a fork, by the answers for its halves.
place_left :
    (d r : ℕ) (a b a' : Block) (o : ℕ)
    → place d r a ≡ some (a', o)
    → place (suc d) r (fork a b) ≡ some (fork a' b, o)
unfolding place
place_left d r a b a' o e = rw e

place_right :
    (d r : ℕ) (a b b' : Block) (o : ℕ)
    → place d r a ≡ none
    → place d r b ≡ some (b', o)
    → place (suc d) r (fork a b) ≡ some (fork a b', 2 ^ d + o)
unfolding place
place_right d r a b b' o e f = rw (e, f)

place_nowhere :
    (d r : ℕ) (a b : Block)
    → place d r a ≡ none
    → place d r b ≡ none
    → place (suc d) r (fork a b) ≡ none
unfolding place
place_nowhere d r a b e f = rw (e, f)

children_left :
    (alloc : Tree → ℕ → ℕ → ℕ → Tree × Search) (t t' : Tree) (n size off o : ℕ)
    → alloc t (2 * n + 1) (size / 2) off ≡ (t', found o)
    → alloc_children alloc t n size off ≡ (t', found o)
unfolding alloc_children
children_left alloc t t' n size off o e = rw (e, alloc_children)

children_right :
    (alloc : Tree → ℕ → ℕ → ℕ → Tree × Search) (t : Tree) (n size off : ℕ)
    → alloc t (2 * n + 1) (size / 2) off ≡ (t, nothing)
    → alloc_children alloc t n size off ≡ alloc t (2 * n + 2) (size / 2) (off + size / 2)
unfolding alloc_children
children_right alloc t n size off e = rw (e, alloc_children)

module _ (l : Limits) where
  -- The answer of a search at node `n`, with `d` levels below it and its first byte at `off`.
  abbrev pub Placed : Tree → ℕ → ℕ → ℕ → Option (Block × ℕ) → Tree × Search → Type 0
  Placed t d n off none out = out ≡ (t, nothing)
  Placed t d n off (some (b, o)) out =
      (t' : Tree) × (out ≡ (t', found (off + l.min_block * o))) × Holds t' d n b × Keeps t t' n

  -- What the recursion gives for the halves.
  unfoldable pub Finds : ℕ → ℕ → (Tree → ℕ → ℕ → ℕ → Tree × Search) → Type 0
  Finds r d alloc =
      (t : Tree) (n off : ℕ) (b : Block)
      → InTree l d n
      → Holds t d n b
      → Placed t d n off (place d r b) (alloc t n (units l d) off)

  place_offset : (d off o : ℕ) → off + units l d + l.min_block * o ≡ off + l.min_block * (2 ^ d + o)
  unfolding units
  place_offset d off o = omega arith

  module _ (r d : ℕ) (alloc : Tree → ℕ → ℕ → ℕ → Tree × Search) where
    found_left :
        (t : Tree) (n off : ℕ) (a b a' : Block) (o : ℕ)
        → Holds t (suc d) n (fork a b)
        → Placed t d (2 * n + 1) off (some (a', o)) (alloc t (2 * n + 1) (units l d) off)
        → Placed t
            (suc d)
            n
            off
            (some (fork a' b, o))
            (alloc_children alloc t n (units l (suc d)) off)
    found_left t n off a b a' o h (t', e, h', k) =
        let (g, k') = Holds-left d n t t' a a' b h k h' in
        (t', children_left alloc t t' n (units l (suc d)) off _ (rw units-half e), g, k')

    found_right :
        (t : Tree) (n off : ℕ) (a b b' : Block) (o : ℕ)
        → Holds t (suc d) n (fork a b)
        → alloc t (2 * n + 1) (units l d) off ≡ (t, nothing)
        → Placed t d
            (2 * n + 2)
            (off + units l d)
            (some (b', o))
            (alloc t (2 * n + 2) (units l d) (off + units l d))
        → Placed t
            (suc d)
            n
            off
            (some (fork a b', 2 ^ d + o))
            (alloc_children alloc t n (units l (suc d)) off)
    found_right t n off a b b' o h e' (t', e, h', k) =
        let (g, k') = Holds-right d n t t' a b b' h k h' in
        (
          t',
          children_right alloc t n (units l (suc d)) off (rw units-half e')
              ∙ rw units-half (e ∙ ap (λ x. (t', found x)) (place_offset d off o)),
          g,
          k',
        )

    -- Both recursive calls together search the fork as first fit does.
    children-Placed :
        Finds r d alloc
        → (t : Tree) (n off : ℕ) (a b : Block) → InTree l (suc d) n
        → Holds t (suc d) n (fork a b)
        → Placed t
            (suc d)
            n
            off
            (place (suc d) r (fork a b))
            (alloc_children alloc t n (units l (suc d)) off)
    unfolding Finds
    children-Placed ih t n off a b i h = go (place d r a) (place d r b) refl refl
      where
        go :
            (p q : Option (Block × ℕ))
            → place d r a ≡ p
            → place d r b ≡ q
            → Placed t
                (suc d)
                n
                off
                (place (suc d) r (fork a b))
                (alloc_children alloc t n (units l (suc d)) off)
        go (some (a', o)) q e f = rw (place_left d r a b a' o e) (
            found_left t n off a b a' o h
              (rw e at (ih t (2 * n + 1) off a (InTree-left l d n i) h.1)))
        go none (some (b', o)) e f = rw (place_right d r a b b' o e f) (
            found_right t n off a b b' o h
              (rw e at (ih t (2 * n + 1) off a (InTree-left l d n i) h.1))
              (rw f at (ih t (2 * n + 2) (off + units l d) b (InTree-right l d n i) h.2)))
        go none none e f = rw (place_nowhere d r a b e f) (
            children_right alloc t n (units l (suc d)) off
              (rw units-half (rw e at (ih t (2 * n + 1) off a (InTree-left l d n i) h.1)))
            ∙ rw units-half
                (rw f at (ih t (2 * n + 2) (off + units l d) b (InTree-right l d n i) h.2)))

  -- The branches of `buddy_alloc_node` at a node inside the array.
  module _ (fuel req size off n : ℕ) (t : Tree) (inside : n < tree_nodes l) where
    node_used : t n ≡ used → alloc_node l (suc fuel) req t n size off ≡ (t, nothing)
    unfolding alloc_node
    node_used e = ground arith

    node_small : size < req → alloc_node l (suc fuel) req t n size off ≡ (t, nothing)
    unfolding alloc_node
    node_small h = ground arith

    node_exact :
        t n ≡ free
        → size ≡ req
        → alloc_node l (suc fuel) req t n size off ≡ (update t n used, found off)
    unfolding alloc_node
    node_exact e h =
        rw (lt→leb (tree_nodes l) n inside, e, le→ltb size req (omega arith), eq→== size req h)

    node_open :
        t n ≡ free
        → req < size
        → l.min_block < size
        → alloc_node l (suc fuel) req t n size off
          ≡ alloc_children (alloc_node l fuel req) (update t n split) n size off
    unfolding alloc_node
    node_open e h g = rw (
      lt→leb (tree_nodes l) n inside,
      e,
      le→ltb size req (omega arith),
      ne→== size req (omega arith),
      lt→leb size l.min_block g,
    )

    node_split :
        t n ≡ split
        → req ≤ size
        → alloc_node l (suc fuel) req t n size off
          ≡ alloc_children (alloc_node l fuel req) t n size off
    unfolding alloc_node
    node_split e h = elim (Bool-cases (size == req)) [
      | inl q ↦ rw (lt→leb (tree_nodes l) n inside, e, le→ltb size req h, q)
      | inr q ↦ rw (lt→leb (tree_nodes l) n inside, e, le→ltb size req h, q)
    ]

  module _ (least : 0 < l.min_block) where
    -- A free node whose block is the wanted size is marked used.
    exact-Placed :
        (fuel d n off : ℕ) (t : Tree)
        → InTree l d n
        → Holds t d n vacant
        → Placed t d n off
            (some (taken, 0))
            (alloc_node l (suc fuel) (units l d) t n (units l d) off)
    exact-Placed fuel d n off t i (e, f) = (
      update t n used,
      node_exact fuel (units l d) (units l d) off n t (InTree-lt l d n i) e refl
          ∙ ap (λ x. (update t n used, found x)) (omega arith),
      (update_self t n used, ChildrenFree-update d n t used f),
      Keeps-update t n used,
    )

    -- A node whose block is too small is passed over.
    small-Placed :
        (fuel d r n off : ℕ) (t : Tree) (b : Block)
        → d < r
        → InTree l d n
        → Placed t d n off (place d r b) (alloc_node l (suc fuel) (units l r) t n (units l d) off)
    small-Placed fuel d r n off t b g i = rw (place_small d r b g) (
        node_small fuel (units l r) (units l d) off n t (InTree-lt l d n i)
          (units_lt l d r least g))

    above_least : (d : ℕ) → 0 < d → l.min_block < units l d
    above_least d h = omega (arith, units_lt l 0 d least h, units-zero l)

    -- A larger free node is split, and the search goes on in its halves.
    open-Placed :
        (d r : ℕ) (alloc : Tree → ℕ → ℕ → ℕ → Tree × Search)
        → r ≤ d
        → Finds r d alloc
        → (t : Tree) (n off : ℕ) → InTree l (suc d) n
        → Holds t (suc d) n vacant
        → Placed t
            (suc d)
            n
            off
            (some (fork (carve (d - r)) vacant, 0))
            (alloc_children alloc (update t n split) n (units l (suc d)) off)
    open-Placed d r alloc g ih t n off i h =
        let e = place_left d r vacant vacant (carve (d - r)) 0 (place_vacant d r g) in
        let (t', f, h', k) = rw e at (
          children-Placed r d alloc ih (update t n split) n off vacant vacant i
            (Holds-split d n t h)) in
        (t', f, h', Keeps-trans t (update t n split) t' n (Keeps-update t n split) k)

    -- `buddy_alloc_node` answers as first fit does, for every block and with fuel for its levels.
    pub alloc_node-Placed : (fuel d r : ℕ) → d < fuel → Finds r d (alloc_node l fuel (units l r))
    unfolding Finds
    alloc_node-Placed zero d r m t n off b i h = absurd (omega arith)
    alloc_node-Placed (suc fuel) d r m t n off taken i h =
        rw place_taken (node_used fuel (units l r) (units l d) off n t (InTree-lt l d n i) h.0)
    alloc_node-Placed (suc fuel) zero r m t n off vacant i h = elim (dec_lt zero r) [
      | yes g ↦ small-Placed fuel zero r n off t vacant g i
      | no g ↦
          let e : r ≡ zero = omega arith in rw (e, place_exact) (exact-Placed fuel zero n off t i h)
    ]
    alloc_node-Placed (suc fuel) (suc d) r m t n off vacant i h = elim (dec_lt (suc d) r) [
      | yes g ↦ small-Placed fuel (suc d) r n off t vacant g i
      | no g ↦ elim (dec_lt r (suc d)) [
        | no k ↦
            let e : r ≡ suc d = omega arith in
            rw (e, place_exact) (exact-Placed fuel (suc d) n off t i h)
        | yes k ↦
            rw
              (
                place_open d r (omega arith),
                node_open fuel (units l r) (units l (suc d)) off n t (InTree-lt l (suc d) n i) h.0
                    (units_lt l r (suc d) least k) (above_least (suc d) (omega arith)),
              )
              (open-Placed d r (alloc_node l fuel (units l r)) (omega arith)
                (alloc_node-Placed fuel d r (omega arith)) t n off i h)
      ]
    ]
    alloc_node-Placed (suc fuel) zero r m t n off (fork a b) i h = absurd h
    alloc_node-Placed (suc fuel) (suc d) r m t n off (fork a b) i h = elim (dec_lt (suc d) r) [
      | yes g ↦ small-Placed fuel (suc d) r n off t (fork a b) g i
      | no g ↦
          rw
            (node_split fuel (units l r) (units l (suc d)) off n t (InTree-lt l (suc d) n i) h.0
              (units_mono l r (suc d) (omega arith)))
            (children-Placed r d (alloc_node l fuel (units l r))
              (alloc_node-Placed fuel d r (omega arith)) t n off a b i h)
    ]
