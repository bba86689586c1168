-- ===== src/Registry/Remove.antt =====
-- registry/registry.c: freeing, deleting, unmounting and moving keys. What is freed only leaves the tree and
-- the count of keys.

use base_nexs.Common.{
  ℕ, zero, suc, ◌+◌, ◌-◌, ◌%◌, ◌^◌, Bool, true, false, ◌&&◌, Option, none, some, List, [], ◌∷◌, ltb,
  ◌==◌, if◌then◌else◌, length, take, str_eq,
}
use base_nexs.Config.{Limits}
use base_nexs.Registry.{
  Keys, end, key, Key, Registry, find_child, walk, at_child, path_buf, child_path, place,
  reg_lookup, reg_mkpath_with, at_path, rk_all,
}
use base_nexs.PathName.{nexs_path_dirname, nexs_path_basename}

abbrev pub free_stack_max : ℕ
free_stack_max = 1024

-- How many keys there are from a first key on, and in a key.
unfoldable pub size : Keys → ℕ
size end = 0
size (key n cs next) = suc (size cs + size next)

abbrev pub key_size : Key → ℕ
key_size k = suc (size (k.1))

-- The children go on the stack while there is room, the last one on top.
unfoldable pub push_children : Keys → List Key → List Key
push_children end stack = stack
push_children (key n cs next) stack =
    push_children next (if ltb (length stack) free_stack_max then (n, cs) ∷ stack else stack)

-- The loop of `regkey_free_recursive` over its stack, with `total_keys`; `none` ran out of fuel.
unfoldable pub free_loop : ℕ → List Key → ℕ → Option ℕ
free_loop fuel [] total = some total
free_loop zero (k ∷ stack) total = none
free_loop (suc fuel) (k ∷ stack) total = free_loop fuel (push_children (k.1) stack) (total - 1)

-- `total_keys` after the key has been freed. The fuel is enough.
unfoldable pub regkey_free_recursive : Key → ℕ → ℕ
regkey_free_recursive k total = elim (free_loop (key_size k) (k ∷ []) total) [
  | none ↦ total
  | some t ↦ t
]

-- The first child of the name leaves the list.
unfoldable pub remove_child : List ℕ → Keys → Keys
remove_child name end = end
remove_child name (key n cs next) =
    let rest = remove_child name next in if str_eq n.name name then next else key n cs rest

-- The key at a place below the root leaves its parent.
unfoldable pub remove_at : List (List ℕ) → Key → Key
remove_at [] k = k
remove_at (s ∷ []) k = (k.0, remove_child s (k.1))
remove_at (s ∷ s' ∷ ss) k = (k.0, at_child s (remove_at (s' ∷ ss)) (k.1))

-- What `reg_delete` comes to: -1; a registry; or the root has been freed, which the registry still points to.
pub data Deleted : Type 0 where
  not_found : Deleted
  deleted : Registry → Deleted
  root_freed : Deleted

-- `total_keys--` on 64 bits, where nothing keeps it from wrapping around.
abbrev pub one_less : ℕ → ℕ
one_less total = (total + 2 ^ 64 - 1) % 2 ^ 64

-- `regkey_detach_child`: the child of the name leaves a list, and the count goes down.
abbrev pub detached : List ℕ → Keys × ℕ → Keys × ℕ
detached name s = (remove_child name (s.0), one_less (s.1))

-- The names of the keys of a list.
abbrev pub names : Keys → List (List ℕ)
names end = []
names (key n cs next) = n.name ∷ names next

-- All keys of a list are freed.
unfoldable pub free_all : Keys → ℕ → ℕ
free_all end total = total
free_all (key n cs next) total = free_all next (regkey_free_recursive (n, cs) total)

-- The loop of `reg_unmount` over the names below the source, on the children of the target.
unfoldable pub unmount_names : List (List ℕ) → Keys × ℕ → Keys × ℕ
unmount_names [] s = s
unmount_names (name ∷ rest) s = elim (find_child name (s.0)) [
  | none ↦ unmount_names rest s
  | some k ↦ let s' = detached name s in unmount_names rest (s'.0, regkey_free_recursive k (s'.1))
]

abbrev pub with_children : Keys → Key → Key
with_children cs k = (k.0, cs)

-- `strncmp(dst, src, strlen(src)) == 0 && (dst[strlen(src)] == '/' || dst[strlen(src)] == '\0')`
unfoldable pub is_below : List ℕ → List ℕ → Bool
is_below [] [] = true
is_below [] (c ∷ dst) = c == 47
is_below (c ∷ src) [] = false
is_below (c ∷ src) (d ∷ dst) = c == d && is_below src dst

-- What `reg_move` comes to: -1; 0 with the registry after it; or the root has become a child of its own.
pub data Moved : Type 0 where
  refused : Moved
  moved : Registry → Moved
  cyclic : Moved

module _ (l : Limits) where
  unfoldable pub reg_delete : Registry → List ℕ → Deleted
  reg_delete r path = elim (place l path) [
    | none ↦ not_found
    | some ss ↦ elim (walk ss r.root) [
      | none ↦ not_found
      | some k ↦ elim ss [
        | [] ↦ root_freed
        | s ∷ rest ↦ deleted (record {
          root = remove_at (s ∷ rest) r.root;
          total_keys = regkey_free_recursive k r.total_keys;
        })
      ]
    ]
  ]

  -- `reg_pop_scope` of a path.
  unfoldable pub reg_pop_scope : Registry → List ℕ → Deleted
  reg_pop_scope r scope_path = reg_delete r scope_path

  -- `none` is -1. A source of NULL is `none`; the source is neither the target nor among what is removed.
  unfoldable pub reg_unmount : Registry → Option (List ℕ) → List ℕ → Option Registry
  reg_unmount r src dst = elim (reg_lookup l r dst) [
    | none ↦ none
    | some d ↦ elim src [
      | none ↦ some (record (at_path l r dst (with_children end)) {
        total_keys = free_all (d.1) r.total_keys;
      })
      | some src_path ↦ elim (reg_lookup l r src_path) [
        | none ↦ none
        | some s ↦
            let left = unmount_names (names (s.1)) (d.1, r.total_keys) in
            some (record (at_path l r dst (with_children (left.0))) { total_keys = left.1 })
      ]
    ]
  ]

  -- `regkey_update_paths`, on a tree with at most 1024 keys waiting at any time.
  unfoldable pub retitle : List ℕ → Keys → Keys
  retitle parent end = end
  retitle parent (key n cs next) =
      let path = child_path l parent n.name in
      key (record n { path = path }) (retitle path cs) (retitle parent next)

  -- The key under its new name and path, added to the children of its new parent.
  unfoldable pub adopt : List ℕ → List ℕ → Key → Key → Key
  adopt dst dst_parent k p =
      let name = take (l.name_len - 1) (nexs_path_basename dst) in
      let path = child_path l (path_buf l dst_parent) name in
      (p.0, key (record (k.0) { name = name; path = path }) (retitle path (k.1)) (p.1))

  -- After the key `k` has been detached.
  unfoldable pub attach : Registry → List ℕ → Key → Moved
  attach r dst k =
      let dst_parent = nexs_path_dirname dst l.reg_path_max in
      elim (reg_lookup l r dst_parent) [
        | some p ↦
            let r' = at_path l r dst_parent (adopt dst dst_parent k) in
            moved (record r' { total_keys = (r'.total_keys + 1) % 2 ^ 64 })
        | none ↦ elim (reg_mkpath_with l r dst_parent rk_all (adopt dst dst_parent k)) [
          | none ↦ refused
          | some r' ↦ moved (record r' { total_keys = (r'.total_keys + 1) % 2 ^ 64 })
        ]
      ]

  unfoldable pub reg_move : Registry → List ℕ → List ℕ → Moved
  reg_move r src dst = elim (place l src) [
    | none ↦ refused
    | some ss ↦ elim (place l dst) [
      | none ↦ refused
      | some ds ↦
          if str_eq src (47 ∷ [])
          then refused
          else if str_eq src dst
          then moved r
          else elim (walk ss r.root) [
            | none ↦ refused
            | some k ↦ if is_below src dst then refused else elim ss [
              | [] ↦ cyclic
              | s ∷ rest ↦
                  attach
                    (record {
                      root = remove_at (s ∷ rest) r.root;
                      total_keys = one_less r.total_keys;
                    })
                    dst k
            ]
          ]
    ]
  ]
