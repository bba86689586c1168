-- ===== src/Registry/Count.antt =====
-- The count of keys, and the loop that frees a key with all that is below it.
use base_nexs.Common.{
  ℕ, zero, suc, ◌+◌, ◌-◌, ◌^◌, ◌<◌, ◌≤◌, ◌≡◌, refl, sym, ap, ◌∙◌, inl, inr, none, some, List, [],
  ◌∷◌, ltb, if◌then◌else◌, str_eq, length, arith, Bool-cases, none_ne_some, some_inj, lt→ltb,
}
use mathlib.Core.Path.{subst}
use base_nexs.Registry.{Keys, end, key, Key, find_child, at_child}
use base_nexs.Registry.Remove.{
  size, key_size, push_children, free_loop, free_stack_max, regkey_free_recursive, remove_child,
  one_less, unmount_names,
}
use base_nexs.Registry.Tree.{find_hit, find_miss}

-- All keys below those of a stack.
abbrev pub stack_size : List Key → ℕ
stack_size [] = 0
stack_size (k ∷ stack) = key_size k + stack_size stack

push-le :
    (cs : Keys) (stack : List Key)
    → stack_size (push_children cs stack) ≤ size cs + stack_size stack
unfolding push_children size
push-le end stack = omega arith
push-le (key n cs next) stack = elim (Bool-cases (ltb (length stack) free_stack_max)) [
  | inl e ↦ let x = push-le next ((n, cs) ∷ stack) in ground arith
  | inr e ↦ let x = push-le next stack in ground arith
]

-- With as much fuel as there are keys, the loop that frees them ends, and takes at most so many off the count.
pub free_loop-ends :
    (fuel : ℕ) (stack : List Key) (total : ℕ)
    → stack_size stack ≤ fuel
    → (t : ℕ) × (free_loop fuel stack total ≡ some t) × (total - stack_size stack ≤ t) × (t ≤ total)
unfolding free_loop
free_loop-ends zero [] total h = (total, refl, omega arith, omega arith)
free_loop-ends (suc fuel) [] total h = (total, refl, omega arith, omega arith)
free_loop-ends zero (k ∷ stack) total h = absurd (omega arith)
free_loop-ends (suc fuel) (k ∷ stack) total h =
    let p = push-le (k.1) stack in
    let (t, e, a, b) = free_loop-ends fuel (push_children (k.1) stack) (total - 1) (omega arith) in
    (t, e, omega arith, omega arith)

-- Where the stack has room for all, none is forgotten.
length-push :
    (cs : Keys) (stack : List Key)
    → length stack + size cs ≤ free_stack_max
    → stack_size (push_children cs stack) ≡ size cs + stack_size stack
unfolding push_children size
length-push end stack h = omega arith
length-push (key n cs next) stack h =
    let e = lt→ltb (length stack) free_stack_max (omega arith) in
    let x = length-push next ((n, cs) ∷ stack) (omega arith) in rw (e) (omega arith)

length-stack : (stack : List Key) → length stack ≤ stack_size stack
length-stack [] = omega arith
length-stack (k ∷ stack) = let x = length-stack stack in omega arith

free_loop-exact :
    (fuel : ℕ) (stack : List Key) (total : ℕ)
    → stack_size stack ≤ fuel
    → stack_size stack ≤ free_stack_max
    → free_loop fuel stack total ≡ some (total - stack_size stack)
unfolding free_loop
free_loop-exact zero [] total h g = ap some (omega arith)
free_loop-exact (suc fuel) [] total h g = ap some (omega arith)
free_loop-exact zero (k ∷ stack) total h g = absurd (omega arith)
free_loop-exact (suc fuel) (k ∷ stack) total h g =
    let q = length-stack stack in
    let p = length-push (k.1) stack (omega arith) in
    free_loop-exact fuel (push_children (k.1) stack) (total - 1) (omega arith) (omega arith)
    ∙ ap some (omega arith)

-- Freeing a key with at most 1024 keys in it takes just so many off the count.
pub free-exact :
    (k : Key) (total : ℕ)
    → key_size k ≤ free_stack_max
    → regkey_free_recursive k total ≡ total - key_size k
unfolding regkey_free_recursive
free-exact k total h =
    let e = free_loop-exact (key_size k) (k ∷ []) total (omega arith) (omega arith) in
    rw (e, regkey_free_recursive) (omega arith)

module _ (name : List ℕ) where
  pub size-remove_child :
      (ks : Keys) (k : Key)
      → find_child name ks ≡ some k
      → size (remove_child name ks) + key_size k ≡ size ks
  unfolding find_child remove_child size
  size-remove_child end k e = cc
  size-remove_child (key n cs next) k e = elim (Bool-cases (str_eq n.name name)) [
    | inl h ↦
        let x : (n, cs) ≡ k = some_inj (n, cs) k (sym (find_hit name n cs next h) ∙ e) in
        subst
          (λ z.
            size (if str_eq n.name name then next else key n cs (remove_child name next))
              + key_size z
            ≡ suc (size cs + size next))
          x (rw (h) (omega arith))
    | inr h ↦
        let x = size-remove_child next k (sym (find_miss name n cs next h) ∙ e) in
        rw (h) (omega arith)
  ]

  -- A change of one child changes the count by as much.
  pub size-at_child :
      (f : Key → Key) (ks : Keys) (k : Key)
      → find_child name ks ≡ some k
      → size (at_child name f ks) + key_size k ≡ size ks + key_size (f k)
  unfolding find_child at_child size
  size-at_child f end k e = cc
  size-at_child f (key n cs next) k e = elim (Bool-cases (str_eq n.name name)) [
    | inl h ↦
        let x : (n, cs) ≡ k = some_inj (n, cs) k (sym (find_hit name n cs next h) ∙ e) in
        subst
          (λ z.
            size (at_child name f (key n cs next)) + key_size z
            ≡ suc (size cs + size next) + key_size (f z))
          x (rw (h) (omega arith))
    | inr h ↦
        let x = size-at_child f next k (sym (find_miss name n cs next h) ∙ e) in
        rw (h) (omega arith)
  ]

  pub at_child-none :
      (f : Key → Key) (ks : Keys) → find_child name ks ≡ none → at_child name f ks ≡ ks
  unfolding find_child at_child
  at_child-none f end e = refl
  at_child-none f (key n cs next) e = elim (Bool-cases (str_eq n.name name)) [
    | inl h ↦ absurd (none_ne_some (n, cs) (sym e ∙ find_hit name n cs next h))
    | inr h ↦
        let x = at_child-none f next (sym (find_miss name n cs next h) ∙ e) in
        rw (h) (ap (λ r. key n cs r) x)
  ]

-- Where the count of keys is not 0 and fits 64 bits: unmounting a key that is below the target, with at most 1024
-- keys in it, takes it, with what is below it, from the tree, and one more than its keys off the count, or all that
-- is left of the count.
pub unmount_names-count :
    (name : List ℕ) (ks : Keys) (total : ℕ) (k : Key)
    → find_child name ks ≡ some k
    → key_size k ≤ free_stack_max
    → 0 < total
    → total < 2 ^ 64
    → (size ((unmount_names (name ∷ []) (ks, total)).0) + key_size k ≡ size ks)
      × ((unmount_names (name ∷ []) (ks, total)).1 ≡ total - (1 + key_size k))
unfolding unmount_names
unmount_names-count name ks total k e h some_left fits =
    let less : one_less total ≡ total - 1 = omega arith in
    let x = free-exact k (total - 1) h in
    rw (unmount_names, e)
      (size-remove_child name ks k e, ap (regkey_free_recursive k) less ∙ x ∙ omega arith)
