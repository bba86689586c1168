-- ===== src/Buddy.antt =====
-- core/buddy.c: the tree of node states, allocation, release. A pointer into `memory_pool` is its
-- offset; `buddy_free` takes an address, and the address of the pool is an argument.
pub mod Block
pub mod Node
pub mod Size
pub mod Alloc
pub mod Free
pub mod Spans
pub mod Place
pub mod Pow2
pub mod Pool
mod Tests
use base_nexs.Common.{
  ℕ, zero, suc, ◌+◌, ◌-◌, ◌*◌, ◌/◌, ◌%◌, ◌^◌, Bool, true, false, ◌&&◌, ◌||◌, Option, none, some,
  ltb, leb, ◌==◌, if◌then◌else◌, update,
}
use base_nexs.Config.{Limits, tree_nodes}

-- `BuddyNodeState`
pub data NodeState : Type 0 where
  free split used : NodeState

abbrev pub is_free : NodeState → Bool
is_free free = true
is_free _ = false

abbrev pub is_split : NodeState → Bool
is_split split = true
is_split _ = false

abbrev pub is_used : NodeState → Bool
is_used used = true
is_used _ = false

-- `buddy_tree`
abbrev pub Tree : Type 0
Tree = ℕ → NodeState

-- What `buddy_alloc_node` answers: 1 with `*out_offset`, or 0. `stuck` is no answer of the code:
-- the recursion ran out of fuel.
pub data Search : Type 0 where
  found : ℕ → Search
  nothing : Search
  stuck : Search

-- The second search is made, in the tree that the first one left, only if the first answers 0.
or_else : (Tree → Tree × Search) → Tree × Search → Tree × Search
or_else again (t, found o) = (t, found o)
or_else again (t, nothing) = again t
or_else again (t, stuck) = (t, stuck)

-- The two recursive calls of `buddy_alloc_node`.
pub alloc_children : (Tree → ℕ → ℕ → ℕ → Tree × Search) → Tree → ℕ → ℕ → ℕ → Tree × Search
unfolding or_else
alloc_children alloc t node size off =
    let cs = size / 2 in
    or_else (λ t'. alloc t' (2 * node + 2) cs (off + cs)) (alloc t (2 * node + 1) cs off)

-- `none` is a recursion that ran out of fuel.
pub alloc_result : Tree × Search → Option (Tree × Option ℕ)
alloc_result (t, found o) = some (t, some o)
alloc_result (t, nothing) = some (t, none)
alloc_result (t, stuck) = none

-- The one recursive call of `buddy_free_node`: into the half that holds the target.
pub free_child : (Tree → ℕ → ℕ → ℕ → Option Tree) → ℕ → Tree → ℕ → ℕ → ℕ → Option Tree
free_child give target t node size off =
    let cs = size / 2 in
    if ltb target (off + cs)
    then give t (2 * node + 1) cs off
    else give t (2 * node + 2) cs (off + cs)

module _ (l : Limits) where
  -- `while (p < x) p <<= 1`
  pub next_pow2_loop : ℕ → ℕ → ℕ → Option ℕ
  next_pow2_loop zero x p = none
  next_pow2_loop (suc fuel) x p =
      let more = next_pow2_loop fuel x (p * 2 % 2 ^ 64) in if ltb p x then more else some p

  pub buddy_next_pow2 : ℕ → Option ℕ
  buddy_next_pow2 x = next_pow2_loop 65 x l.min_block

  pub alloc_node : ℕ → ℕ → Tree → ℕ → ℕ → ℕ → Tree × Search
  alloc_node zero req t node size off = (t, stuck)
  alloc_node (suc fuel) req t node size off =
      let deeper = alloc_children (alloc_node fuel req) in
      if leb (tree_nodes l) node
      then (t, nothing)
      else if is_used (t node)
      then (t, nothing)
      else if ltb size req
      then (t, nothing)
      else if size == req && is_free (t node)
      then (update t node used, found off)
      else if is_free (t node)
      then if leb size l.min_block then (t, nothing) else deeper (update t node split) node size off
      else deeper t node size off

  -- The second component is the offset of the block, or NULL; `none` outside is a loop without end.
  pub buddy_alloc : ℕ → Tree → ℕ → Option (Tree × Option ℕ)
  buddy_alloc fuel t size =
      if size == 0 || ltb l.pool_size size then some (t, none) else elim (buddy_next_pow2 size) [
        | none ↦ none
        | some req ↦ alloc_result (alloc_node fuel req t 0 l.pool_size 0)
      ]

  -- The last lines of `buddy_free_node`: two free halves become one free node.
  pub coalesce : Tree → ℕ → Tree
  coalesce t node =
      if is_split (t node)
        && (ltb (2 * node + 2) (tree_nodes l)
            && (is_free (t (2 * node + 1)) && is_free (t (2 * node + 2))))
      then update t node free
      else t

  -- `none`: the recursion ran out of fuel.
  pub free_node : ℕ → ℕ → Tree → ℕ → ℕ → ℕ → Option Tree
  free_node zero target t node size off = none
  free_node (suc fuel) target t node size off =
      let below = free_child (free_node fuel target) target t node size off in
      if leb (tree_nodes l) node then some t else elim (t node) [
        | free ↦ some t
        | used ↦ if off == target then some (update t node free) else some t
        | split ↦ elim below [ none ↦ none | some t' ↦ some (coalesce t' node) ]
      ]

  -- `pool` is the address of `memory_pool`; address 0 is NULL.
  pub buddy_free : ℕ → ℕ → Tree → ℕ → Option Tree
  buddy_free pool fuel t ptr =
      if ptr == 0
      then some t
      else if ltb ptr pool || leb (pool + l.pool_size) ptr
      then some t
      else free_node fuel (ptr - pool) t 0 l.pool_size 0
