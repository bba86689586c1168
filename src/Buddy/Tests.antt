-- ===== src/Buddy/Tests.antt =====
-- Runs of the allocator on the 4 KB pool.
use base_nexs.Common.{ℕ, zero, suc, ◌-◌, ◌≡◌, refl, Option, none, some, arith, if◌then◌else◌}
use base_nexs.Config.{Limits, limits, pool_4kb, levels_lem, IsBuddySized}
use base_nexs.Buddy.{Tree, free, split, used}
use base_nexs.Buddy.{buddy_next_pow2, buddy_alloc, buddy_free, alloc_node, next_pow2_loop}
use base_nexs.Buddy.{alloc_children, alloc_result}
use base_nexs.Buddy.Block.{Block, vacant, taken, fork, spans, without}
use base_nexs.Buddy.Pool.{
  IsPool, Answer, fresh-IsPool, buddy_alloc-Answer, buddy_free-spans, buddy_free-buddy_alloc,
  in_pool,
}

abbrev small : Limits
small = limits pool_4kb

abbrev empty : Tree
empty = λ _. free

tree_after : Option (Tree × Option ℕ) → Tree
tree_after none = empty
tree_after (some (t, p)) = t

one_block : Tree
unfolding tree_after
one_block = tree_after (buddy_alloc small 9 empty 100)

offset_after : Option (Tree × Option ℕ) → Option ℕ
offset_after none = none
offset_after (some (t, p)) = p

rounding : buddy_next_pow2 small 100 ≡ some 128
unfolding buddy_next_pow2 next_pow2_loop
rounding = refl

-- Two blocks of 128 bytes lie side by side.
second_block : offset_after (buddy_alloc small 9 one_block 70) ≡ some 128
unfolding offset_after one_block tree_after buddy_alloc buddy_next_pow2 next_pow2_loop alloc_node
    alloc_children alloc_result
second_block = refl

-- Room for an array of 16 items of 48 bytes.
items : offset_after (buddy_alloc small 9 empty 768) ≡ some 0
unfolding offset_after buddy_alloc buddy_next_pow2 next_pow2_loop alloc_node alloc_children
    alloc_result
items = refl

too_large : offset_after (buddy_alloc small 9 one_block 4096) ≡ none
unfolding offset_after one_block tree_after buddy_alloc buddy_next_pow2 next_pow2_loop alloc_node
    alloc_children alloc_result
too_large = refl

buddy_alloc-Answer_example : Answer small 8 empty vacant 100 (buddy_alloc small 9 empty 100)
buddy_alloc-Answer_example =
    buddy_alloc-Answer small 8 (levels_lem pool_4kb) 9 100 empty vacant (omega arith) (omega arith)
      (omega arith) (fresh-IsPool small 8)

-- Four least blocks, of which the first two are one taken block.
abbrev tiny : Limits
tiny = record small { pool_size = 64; min_block = 16 }

tiny-IsBuddySized : IsBuddySized tiny 2
tiny-IsBuddySized = record {
  pool = refl;
  nodes = refl;
  least = omega arith;
  small = omega arith;
  few = omega arith;
}

abbrev half_taken : Tree
half_taken zero = split
half_taken (suc zero) = used
half_taken _ = free

half_taken-IsPool : IsPool tiny 2 half_taken (fork taken vacant)
half_taken-IsPool = record {
  holds = (refl, (refl, (refl, refl)), (refl, (refl, refl)));
  normal = (tt, tt, λ v w. v);
}

buddy_free-spans_example :
    (t' : Tree) × (b' : Block) × (buddy_free tiny 65536 3 half_taken 65536 ≡ some t')
    × IsPool tiny 2 t' b'
    × (spans 64 0 b' ≡ (
        if in_pool tiny 65536 65536
        then without (65536 - 65536) (spans 64 0 (fork taken vacant))
        else spans 64 0 (fork taken vacant)))
buddy_free-spans_example =
    buddy_free-spans tiny 2 tiny-IsBuddySized 65536 3 65536 half_taken (fork taken vacant)
      (omega arith) (omega arith) half_taken-IsPool

one_block_at : buddy_alloc small 9 empty 100 ≡ some (one_block, some 0)
unfolding one_block buddy_alloc buddy_next_pow2 next_pow2_loop alloc_node alloc_children
    alloc_result
one_block_at = refl

buddy_free-buddy_alloc_example :
    (t'' : Tree) × (buddy_free small 65536 9 one_block 65536 ≡ some t'') × IsPool small 8 t'' vacant
buddy_free-buddy_alloc_example =
    buddy_free-buddy_alloc small 8 (levels_lem pool_4kb) 65536 9 100 0 empty one_block vacant
      (omega arith) (omega arith) (omega arith) (omega arith) (fresh-IsPool small 8) one_block_at
