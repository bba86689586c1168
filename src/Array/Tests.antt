-- ===== src/Array/Tests.antt =====
-- Runs of arrays.
use base_nexs.Config.{limits, pool_4kb}
use base_nexs.Buddy.{free, buddy_alloc}
use base_nexs.Common.{ℕ, Bool, false, ◌≡◌, ltb, true, ◌^◌, refl, none, some}
use base_nexs.Value.{int}
use base_nexs.Array.{
  died, overrun, xmalloc, grow_to, arr_ensure_cap, arr_create_anon, arr_set, grow_loop, arr_unref,
}

-- The fresh 4 KB pool of Buddy.
abbrev pool_room : ℕ → Bool
pool_room n = elim (buddy_alloc (limits pool_4kb) 9 (λ _. free) n) [
  | none ↦ false
  | some (t, p) ↦ elim p [ none ↦ false | some offset ↦ true ]
]

grows : grow_loop 12 9 4 ≡ some 16
unfolding grow_loop
grows = refl

last_reference : arr_unref arr_create_anon ≡ none
unfolding arr_unref arr_create_anon
last_reference = refl

-- The pool has no block for 16 items.
no_room : arr_set (λ n. ltb n 512) (λ v. true) 12 arr_create_anon 9 (int 5) ≡ died
unfolding arr_set arr_ensure_cap grow_loop grow_to xmalloc arr_create_anon
no_room = refl

-- A capacity of 2^60, of which the bytes wrap.
wrapped : grow_to (λ n. true) arr_create_anon (2 ^ 60) ≡ overrun
unfolding grow_to xmalloc
wrapped = refl
