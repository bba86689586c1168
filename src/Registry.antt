-- ===== src/Registry.antt =====
-- registry/registry.c: the tree of keys. `Keys` is the pointer to a first key: each key has the pointer to
-- its first child and the one to the key after it, and `end` is NULL. A pointer into the tree is the place
-- that a walk from the root leads to. The registry is one after
-- `reg_init`, so there is a root. Values are copied; the diagnostic prints do not show.
pub mod Remove
pub mod Tree
pub mod Places
pub mod Make
pub mod Store
pub mod Count
pub mod Totals
pub mod Pointers
pub mod Scope
pub mod Resolve
mod Tests
use base_nexs.Common.{
  ℕ, zero, suc, ◌+◌, ◌-◌, ◌%◌, ◌^◌, Bool, true, false, not, Option, none, some, List, [], ◌∷◌, ◌++◌,
  ltb, leb, ◌==◌, if◌then◌else◌, take, str_eq,
}
use base_nexs.Config.{Limits}
use base_nexs.Value.{
  Value, nil, int, float, str, arr, fn, err, bool, ref, ptr, null_str, null_ref, null_ptr,
}
use base_nexs.Ipc.{Queue}

-- `RegKey`, its links apart.
pub record Node : Type 0 where
  pub name : List ℕ
  pub path : List ℕ
  pub val : Value
  pub rights : ℕ
  pub queue : Option Queue

-- A first key with its children and the key after it.
pub data Keys : Type 0 where
  end : Keys
  key : Node → Keys → Keys → Keys

-- One key: what it holds, and its first child.
abbrev pub Key : Type 0
Key = Node × Keys

-- `Registry`
pub record Registry : Type 0 where
  pub root : Key
  pub total_keys : ℕ

abbrev pub rk_all : ℕ
rk_all = 15

-- The segments of a path that are not empty, as `strtok` with "/" gives them; `word` is the one begun.
abbrev pub close_word : List ℕ → List (List ℕ) → List (List ℕ)
close_word [] words = words
close_word (c ∷ word) words = (c ∷ word) ∷ words

unfoldable pub split_from : List ℕ → List ℕ → List (List ℕ)
split_from word [] = close_word word []
split_from word (c ∷ path) =
    let closed = close_word word (split_from [] path) in
    let longer = split_from (word ++ (c ∷ [])) path in if c == 47 then closed else longer

unfoldable pub segments : List ℕ → List (List ℕ)
segments path = split_from [] path

-- `regkey_find_child`
unfoldable pub find_child : List ℕ → Keys → Option Key
find_child name end = none
find_child name (key n cs next) = if str_eq n.name name then some (n, cs) else find_child name next

unfoldable pub walk : List (List ℕ) → Key → Option Key
walk [] k = some k
walk (s ∷ ss) k = elim (find_child s (k.1)) [ none ↦ none | some c ↦ walk ss c ]

-- A write through the pointer that `find_child` or `walk` gives.
unfoldable pub at_child : List ℕ → (Key → Key) → Keys → Keys
at_child name f end = end
at_child name f (key n cs next) =
    let k = f (n, cs) in
    let rest = at_child name f next in
    if str_eq n.name name then key (k.0) (k.1) next else key n cs rest

unfoldable pub at_walk : List (List ℕ) → (Key → Key) → Key → Key
at_walk [] f k = f k
at_walk (s ∷ ss) f k = (k.0, at_child s (at_walk ss f) (k.1))

-- "registry key not found"
abbrev pub no_key : List ℕ
no_key =
    114 ∷ 101 ∷ 103 ∷ 105 ∷ 115 ∷ 116 ∷ 114 ∷ 121 ∷ 32 ∷ 107 ∷ 101 ∷ 121 ∷ 32 ∷ 110 ∷ 111 ∷ 116 ∷ 32
    ∷ 102 ∷ 111 ∷ 117 ∷ 110 ∷ 100 ∷ []

-- "reg_get_deref: key not found"
abbrev pub no_target : List ℕ
no_target =
    114 ∷ 101 ∷ 103 ∷ 95 ∷ 103 ∷ 101 ∷ 116 ∷ 95 ∷ 100 ∷ 101 ∷ 114 ∷ 101 ∷ 102 ∷ 58 ∷ 32 ∷ 107 ∷ 101
    ∷ 121 ∷ 32 ∷ 110 ∷ 111 ∷ 116 ∷ 32 ∷ 102 ∷ 111 ∷ 117 ∷ 110 ∷ 100 ∷ []

-- "reg_get_deref: pointer chain too deep (circular?)"
abbrev pub too_deep : List ℕ
too_deep =
    114 ∷ 101 ∷ 103 ∷ 95 ∷ 103 ∷ 101 ∷ 116 ∷ 95 ∷ 100 ∷ 101 ∷ 114 ∷ 101 ∷ 102 ∷ 58 ∷ 32 ∷ 112 ∷ 111
    ∷ 105 ∷ 110 ∷ 116 ∷ 101 ∷ 114 ∷ 32 ∷ 99 ∷ 104 ∷ 97 ∷ 105 ∷ 110 ∷ 32 ∷ 116 ∷ 111 ∷ 111 ∷ 32 ∷ 100
    ∷ 101 ∷ 101 ∷ 112 ∷ 32 ∷ 40 ∷ 99 ∷ 105 ∷ 114 ∷ 99 ∷ 117 ∷ 108 ∷ 97 ∷ 114 ∷ 63 ∷ 41 ∷ []

-- `k->val = val` and `k->rights = rights`
abbrev pub store : Value → ℕ → Key → Key
store v rights k = (record (k.0) { val = v; rights = rights }, k.1)

-- "reg_get_deref: NULL pointer target"
abbrev pub null_target : List ℕ
null_target =
    114 ∷ 101 ∷ 103 ∷ 95 ∷ 103 ∷ 101 ∷ 116 ∷ 95 ∷ 100 ∷ 101 ∷ 114 ∷ 101 ∷ 102 ∷ 58 ∷ 32 ∷ 78 ∷ 85
    ∷ 76 ∷ 76 ∷ 32 ∷ 112 ∷ 111 ∷ 105 ∷ 110 ∷ 116 ∷ 101 ∷ 114 ∷ 32 ∷ 116 ∷ 97 ∷ 114 ∷ 103 ∷ 101 ∷ 116
    ∷ []

-- A pointer is followed, but to NULL, and any other value is the answer.
abbrev pub deref_value : (List ℕ → Value) → Value → Value
deref_value follow (ptr target) = follow target
deref_value follow null_ptr = err 3 null_target
deref_value follow v = v

module _ (l : Limits) where
  -- What of a string goes into a path buffer.
  abbrev pub path_buf : List ℕ → List ℕ
  path_buf s = take (l.reg_path_max - 1) s

  abbrev pub is_root : List ℕ → Bool
  is_root path = str_eq path (47 ∷ [])

  -- "/seg" below the root, else "parent/seg".
  abbrev pub child_path : List ℕ → List ℕ → List ℕ
  child_path parent seg = path_buf (if is_root parent then 47 ∷ seg else parent ++ (47 ∷ seg))

  unfoldable pub regkey_alloc : List ℕ → List ℕ → ℕ → Node
  regkey_alloc name path rights = record {
    name = take (l.name_len - 1) name;
    path = path_buf path;
    val = nil;
    rights = rights;
    queue = none;
  }

  -- Where the segments of a path stand in the tree: behind the slash that it begins with.
  unfoldable pub place : List ℕ → Option (List (List ℕ))
  place [] = none
  place (c ∷ path) = if c == 47 then some (segments (take (l.reg_path_max - 2) path)) else none

  -- `none` is NULL.
  unfoldable pub reg_lookup : Registry → List ℕ → Option Key
  reg_lookup r path = elim (place path) [ none ↦ none | some ss ↦ walk ss r.root ]

  -- The loop of `reg_mkpath` from a key whose path is `built`, and then `f` at the key that is reached.
  unfoldable pub make : List ℕ → List (List ℕ) → ℕ → (Key → Key) → Key → Key
  make built [] rights f k = f k
  make built (s ∷ ss) rights f k =
      let path = child_path built s in
      let below = make path ss rights f in
      let new = below (regkey_alloc s path rights, end) in
      elim (find_child s (k.1)) [
        | some c ↦ (k.0, at_child s below (k.1))
        | none ↦ (k.0, key (new.0) (new.1) (k.1))
      ]

  -- How many keys it makes.
  unfoldable pub missing : List (List ℕ) → Key → ℕ
  missing [] k = 0
  missing (s ∷ ss) k = elim (find_child s (k.1)) [
    | none ↦ suc (missing ss (k.0, end))
    | some c ↦ missing ss c
  ]

  -- `reg_mkpath` and what is then done to its key; `none` is NULL.
  unfoldable pub reg_mkpath_with : Registry → List ℕ → ℕ → (Key → Key) → Option Registry
  reg_mkpath_with r path rights f = elim (place path) [
    | none ↦ none
    | some ss ↦ some (record {
      root = make (47 ∷ []) ss rights f r.root;
      total_keys = (r.total_keys + missing ss r.root) % 2 ^ 64;
    })
  ]

  abbrev pub reg_mkpath : Registry → List ℕ → ℕ → Option Registry
  reg_mkpath r path rights = reg_mkpath_with r path rights (λ k. k)

  -- A write at the key that `reg_lookup` gives.
  unfoldable pub at_path : Registry → List ℕ → (Key → Key) → Registry
  at_path r path f = elim (place path) [
    | none ↦ r
    | some ss ↦ record r { root = at_walk ss f r.root }
  ]

  -- `none` is -1.
  unfoldable pub reg_set : Registry → List ℕ → Value → ℕ → Option Registry
  reg_set r path val rights = elim (reg_lookup r path) [
    | some k ↦ some (at_path r path (store val rights))
    | none ↦ reg_mkpath_with r path rights (store val rights)
  ]

  unfoldable pub reg_get : Registry → List ℕ → Value
  reg_get r path = elim (reg_lookup r path) [ none ↦ err 3 no_key | some k ↦ (k.0).val ]

  unfoldable pub reg_set_ptr : Registry → List ℕ → List ℕ → Option Registry
  reg_set_ptr r path target = reg_set r path (ptr target) rk_all

  -- So many hops from a path on.
  unfoldable pub deref_from : ℕ → Registry → List ℕ → Value
  deref_from zero r path = err 3 too_deep
  deref_from (suc hops) r path = elim (reg_lookup r path) [
    | none ↦ err 3 no_target
    | some k ↦ deref_value (λ target. deref_from hops r (path_buf target)) ((k.0).val)
  ]

  unfoldable pub reg_get_deref : Registry → List ℕ → Value
  reg_get_deref r path = deref_from 64 r path
