-- ===== src/Registry/Tests.antt =====
-- Runs of the registry.
use base_nexs.Common.{
  ℕ, ◌+◌, ◌-◌, ◌^◌, ◌≤◌, ◌<◌, ◌≡◌, ◌≢◌, refl, some, List, [], ◌∷◌, arith, length, str_eq,
}
use mathlib.Core.Path.{subst, sym}
use base_nexs.Config.{Limits, limits, pool_4kb}
use base_nexs.Value.{int, ptr, err}
use base_nexs.Registry.{
  end, key, Registry, place, segments, split_from, find_child, walk, make, missing, regkey_alloc,
  reg_lookup, reg_mkpath_with, reg_set, reg_get_deref, too_deep,
}
use base_nexs.Registry.Remove.{size, key_size, reg_delete, deleted, unmount_names}
use base_nexs.Registry.Scope.{reg_init, search_scopes, stuck}
use base_nexs.Registry.Count.{unmount_names-count}
use base_nexs.Registry.Totals.{IsCounted, reg_set-IsCounted, reg_delete-IsCounted}
use base_nexs.Registry.Pointers.{Points, reg_get_deref-cycle}
use base_nexs.Registry.Resolve.{search_scopes-ends}

abbrev small : Limits
small = limits pool_4kb

abbrev start : Registry
start = reg_init small

-- "/a/b"
abbrev a_b : List ℕ
a_b = 47 ∷ 97 ∷ 47 ∷ 98 ∷ []

-- "/p"
abbrev p : List ℕ
p = 47 ∷ 112 ∷ []

-- The key "/p" is a pointer to itself.
abbrev looped : Registry
looped = record {
  root = (
    regkey_alloc small (47 ∷ []) (47 ∷ []) 15,
    key (record (regkey_alloc small (112 ∷ []) p 15) { val = ptr p }) end end,
  );
  total_keys = 2;
}

a_b-place : place small a_b ≡ some ((97 ∷ []) ∷ (98 ∷ []) ∷ [])
unfolding place segments split_from
a_b-place = refl

init-IsCounted : IsCounted start
unfolding reg_init reg_mkpath_with place segments split_from make missing find_child size str_eq
    regkey_alloc
init-IsCounted = refl

seven : start.total_keys + length {A = List ℕ} ((97 ∷ []) ∷ (98 ∷ []) ∷ []) < 2 ^ 64
unfolding reg_init reg_mkpath_with place segments split_from make missing find_child str_eq
    regkey_alloc
seven = omega arith

reg_set-IsCounted_example :
    (r' : Registry) × (reg_set small start a_b (int 7) 3 ≡ some r') × IsCounted r'
reg_set-IsCounted_example =
    reg_set-IsCounted small start a_b ((97 ∷ []) ∷ (98 ∷ []) ∷ []) (int 7) 3 a_b-place
      init-IsCounted seven

p-place : place small p ≡ some ((112 ∷ []) ∷ [])
unfolding place segments split_from
p-place = refl

p-lookup :
    reg_lookup small looped p
    ≡ some (record (regkey_alloc small (112 ∷ []) p 15) { val = ptr p }, end)
unfolding reg_lookup place segments split_from walk find_child str_eq regkey_alloc
p-lookup = refl

looped-IsCounted : IsCounted looped
unfolding size
looped-IsCounted = refl

p-small : key_size (record (regkey_alloc small (112 ∷ []) p 15) { val = ptr p }, end) ≤ 1024
unfolding size
p-small = omega arith

reg_delete-IsCounted_example :
    (r' : Registry) × (reg_delete small looped p ≡ deleted r') × IsCounted r'
reg_delete-IsCounted_example =
    reg_delete-IsCounted small looped p (112 ∷ []) []
      (record (regkey_alloc small (112 ∷ []) p 15) { val = ptr p }, end) p-place p-lookup p-small
      looped-IsCounted

p-Points : Points small looped p p
p-Points = record { at_key = _; found = p-lookup; pointer = refl; fits = omega arith }

reg_get_deref-cycle_example : reg_get_deref small looped p ≡ err 3 too_deep
reg_get_deref-cycle_example =
    reg_get_deref-cycle small looped (λ q. q ≡ p) p
      (λ q e. (p, subst (λ z. Points small looped z p) (sym e) p-Points, refl)) refl

-- "/q"
abbrev q : List ℕ
q = 47 ∷ 113 ∷ []

-- The key "/p" is a pointer to "/q", which holds a 7.
abbrev linked : Registry
linked = record {
  root = (
    regkey_alloc small (47 ∷ []) (47 ∷ []) 15,
    key (record (regkey_alloc small (112 ∷ []) p 15) { val = ptr q }) end
        (key (record (regkey_alloc small (113 ∷ []) q 15) { val = int 7 }) end end),
  );
  total_keys = 3;
}

search_scopes-ends_example :
    search_scopes small (length {A = ℕ} a_b + 2) start (120 ∷ []) a_b ≢ stuck
search_scopes-ends_example = search_scopes-ends small start (120 ∷ []) a_b (omega arith)

p-child :
    find_child (112 ∷ []) (looped.root.1)
    ≡ some (record (regkey_alloc small (112 ∷ []) p 15) { val = ptr p }, end)
unfolding find_child str_eq regkey_alloc
p-child = refl

unmount_names-count_example :
    (size ((unmount_names ((112 ∷ []) ∷ []) (looped.root.1, 2)).0)
        + key_size (record (regkey_alloc small (112 ∷ []) p 15) { val = ptr p }, end)
      ≡ size (looped.root.1))
    × ((unmount_names ((112 ∷ []) ∷ []) (looped.root.1, 2)).1
        ≡ 2 - (1 + key_size (record (regkey_alloc small (112 ∷ []) p 15) { val = ptr p }, end)))
unmount_names-count_example =
    unmount_names-count (112 ∷ []) (looped.root.1) 2
      (record (regkey_alloc small (112 ∷ []) p 15) { val = ptr p }, end) p-child p-small
      (omega arith) (omega arith)
