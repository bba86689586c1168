-- ===== src/Registry/Totals.antt =====
-- `total_keys` is the number of keys in the tree.
use base_nexs.Common.{
  ℕ, suc, ◌+◌, ◌%◌, ◌^◌, ◌≤◌, ◌<◌, ◌≡◌, refl, sym, ap, ◌∙◌, inl, inr, none, some, List, [], ◌∷◌,
  length, arith, Option-cases, none_ne_some, some_inj,
}
use base_nexs.Config.{Limits}
use base_nexs.Value.{Value}
use base_nexs.Registry.{
  Node, end, Key, Registry, find_child, walk, at_walk, make, missing, store, place, reg_set,
  reg_lookup,
}
use base_nexs.Registry.{child_path, regkey_alloc}
use base_nexs.Registry.Remove.{
  size, key_size, free_stack_max, regkey_free_recursive, remove_at, reg_delete, deleted,
}
use base_nexs.Registry.Tree.{walk_step, walk_stop}
use base_nexs.Registry.Make.{make_found, make_new}
use base_nexs.Registry.Store.{lookup-place, set-found, set-new}
use base_nexs.Registry.Count.{size-remove_child, size-at_child, at_child-none, free-exact}

abbrev pub KeepsSize : (Key → Key) → Type 0
KeepsSize f = (k : Key) → key_size (f k) ≡ key_size k

-- A write that keeps the size of its key keeps that of the tree.
pub size-at_walk : (ss : List (List ℕ)) (f : Key → Key) → KeepsSize f → KeepsSize (at_walk ss f)
unfolding at_walk
size-at_walk [] f h k = h k
size-at_walk (s ∷ ss) f h k = elim (Option-cases (find_child s (k.1))) [
  | inl e ↦ ap (λ z. suc (size z)) (at_child-none s (at_walk ss f) (k.1) e)
  | inr (c, e) ↦
      let x = size-at_child s (at_walk ss f) (k.1) c e in
      let y = size-at_walk ss f h c in omega arith
]

size-remove_at :
    (s : List ℕ) (ss : List (List ℕ)) (k c : Key)
    → walk (s ∷ ss) k ≡ some c
    → key_size (remove_at (s ∷ ss) k) + key_size c ≡ key_size k
unfolding remove_at walk
size-remove_at s [] k c e = elim (Option-cases (find_child s (k.1))) [
  | inl g ↦ absurd (none_ne_some c (sym (walk_stop s [] k g) ∙ e))
  | inr (d, g) ↦
      let y : d ≡ c = some_inj d c (sym (walk_step s [] k d g) ∙ e) in
      let x = size-remove_child s (k.1) c (g ∙ ap some y) in omega arith
]
size-remove_at s (s' ∷ ss) k c e = elim (Option-cases (find_child s (k.1))) [
  | inl g ↦ absurd (none_ne_some c (sym (walk_stop s (s' ∷ ss) k g) ∙ e))
  | inr (d, g) ↦
      let y = size-remove_at s' ss d c (sym (walk_step s (s' ∷ ss) k d g) ∙ e) in
      let x = size-at_child s (remove_at (s' ∷ ss)) (k.1) d g in omega arith
]

store_size : (v : Value) (rights : ℕ) → KeepsSize (store v rights)
store_size v rights k = refl

module _ (l : Limits) where
  missing-end : (ss : List (List ℕ)) (n : Node) → missing l ss (n, end) ≡ length ss
  unfolding missing find_child
  missing-end [] n = refl
  missing-end (s ∷ ss) n = ap suc (missing-end ss n)

  missing_found :
      (s : List ℕ) (ss : List (List ℕ)) (k c : Key)
      → find_child s (k.1) ≡ some c
      → missing l (s ∷ ss) k ≡ missing l ss c
  unfolding missing
  missing_found s ss k c e = rw (missing, e)

  missing_new :
      (s : List ℕ) (ss : List (List ℕ)) (k : Key)
      → find_child s (k.1) ≡ none
      → missing l (s ∷ ss) k ≡ suc (length ss)
  unfolding missing
  missing_new s ss k e = rw (missing, e) (ap suc (missing-end ss (k.0)))

  missing-le : (ss : List (List ℕ)) (k : Key) → missing l ss k ≤ length ss
  unfolding missing
  missing-le [] k = omega arith
  missing-le (s ∷ ss) k = elim (Option-cases (find_child s (k.1))) [
    | inl e ↦ let x = missing_new s ss k e in omega arith
    | inr (c, e) ↦ let x = missing_found s ss k c e in let y = missing-le ss c in omega arith
  ]

  -- Making a path adds just the keys that were missing.
  size-make :
      (built : List ℕ) (ss : List (List ℕ)) (rights : ℕ) (f : Key → Key) (k : Key)
      → KeepsSize f
      → key_size (make l built ss rights f k) ≡ key_size k + missing l ss k
  unfolding make missing size
  size-make built [] rights f k h = let x = h k in omega arith
  size-make built (s ∷ ss) rights f k h = elim (Option-cases (find_child s (k.1))) [
    | inr (c, e) ↦
        let g = make l (child_path l built s) ss rights f in
        let x = size-at_child s g (k.1) c e in
        let y = size-make (child_path l built s) ss rights f c h in
        let m = missing_found s ss k c e in
        ap key_size (make_found l built s ss rights f k c e) ∙ omega arith
    | inl e ↦
        let a = regkey_alloc l s (child_path l built s) rights in
        let y = size-make (child_path l built s) ss rights f (a, end) h in
        let z = missing-end ss a in
        let m = missing_new s ss k e in
        ap key_size (make_new l built s ss rights f k e) ∙ omega arith
  ]

-- The count of keys is right.
abbrev pub IsCounted : Registry → Type 0
IsCounted r = r.total_keys ≡ key_size r.root

-- `reg_set` at a path that begins with a slash keeps the count of keys right, as long as it fits 64 bits.
pub reg_set-IsCounted :
    (l : Limits) (r : Registry) (path : List ℕ) (ss : List (List ℕ)) (v : Value) (rights : ℕ)
    → place l path ≡ some ss
    → IsCounted r
    → r.total_keys + length ss < 2 ^ 64
    → (r' : Registry) × (reg_set l r path v rights ≡ some r') × IsCounted r'
reg_set-IsCounted l r path ss v rights e c h = elim (Option-cases (walk ss r.root)) [
  | inr (k, f) ↦
      let x = size-at_walk ss (store v rights) (store_size v rights) r.root in
      (
        record r { root = at_walk ss (store v rights) r.root },
        set-found l r path ss v rights k e f,
        c ∙ sym x,
      )
  | inl f ↦
      let x = size-make l (47 ∷ []) ss rights (store v rights) r.root (store_size v rights) in
      let y = missing-le l ss r.root in
      (
        record {
          root = make l (47 ∷ []) ss rights (store v rights) r.root;
          total_keys = (r.total_keys + missing l ss r.root) % 2 ^ 64;
        },
        set-new l r path ss v rights e f,
        omega arith,
      )
]

deleted_state :
    (l : Limits) (r : Registry) (path s : List ℕ) (ss : List (List ℕ)) (k : Key)
    → place l path ≡ some (s ∷ ss)
    → walk (s ∷ ss) r.root ≡ some k
    → reg_delete l r path
      ≡ deleted (record {
        root = remove_at (s ∷ ss) r.root;
        total_keys = regkey_free_recursive k r.total_keys;
      })
unfolding reg_delete
deleted_state l r path s ss k e f = rw (reg_delete, e, f)

-- `reg_delete` of a key other than the root, with at most 1024 keys in it, keeps the count of keys right.
pub reg_delete-IsCounted :
    (l : Limits) (r : Registry) (path s : List ℕ) (ss : List (List ℕ)) (k : Key)
    → place l path ≡ some (s ∷ ss)
    → reg_lookup l r path ≡ some k
    → key_size k ≤ free_stack_max
    → IsCounted r
    → (r' : Registry) × (reg_delete l r path ≡ deleted r') × IsCounted r'
reg_delete-IsCounted l r path s ss k e f h c =
    let w = sym (lookup-place l r path (s ∷ ss) e) ∙ f in
    let x = size-remove_at s ss r.root k w in
    let y = free-exact k r.total_keys h in
    (
      record {
        root = remove_at (s ∷ ss) r.root;
        total_keys = regkey_free_recursive k r.total_keys;
      },
      deleted_state l r path s ss k e w,
      omega arith,
    )
