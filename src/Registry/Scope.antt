-- ===== src/Registry/Scope.antt =====
-- registry/registry.c: the scopes in which a name is looked for, and the first keys.
use base_nexs.Common.{
  ℕ, zero, suc, ◌+◌, Option, none, some, List, [], ◌∷◌, ◌++◌, if◌then◌else◌, length, decimal,
}
use base_nexs.Config.{Limits}
use base_nexs.Registry.{
  Keys, end, key, Key, Registry, reg_lookup, reg_mkpath, path_buf, is_root, rk_all, regkey_alloc,
}
use base_nexs.PathName.{nexs_path_dirname}

-- "/local", "/fn", "/sys", "/mod", "/env" and "/type"
abbrev pub reg_local : List ℕ
reg_local = 47 ∷ 108 ∷ 111 ∷ 99 ∷ 97 ∷ 108 ∷ []

abbrev pub reg_fn : List ℕ
reg_fn = 47 ∷ 102 ∷ 110 ∷ []

abbrev pub reg_sys : List ℕ
reg_sys = 47 ∷ 115 ∷ 121 ∷ 115 ∷ []

abbrev pub reg_mod : List ℕ
reg_mod = 47 ∷ 109 ∷ 111 ∷ 100 ∷ []

abbrev pub reg_env : List ℕ
reg_env = 47 ∷ 101 ∷ 110 ∷ 118 ∷ []

abbrev pub reg_type : List ℕ
reg_type = 47 ∷ 116 ∷ 121 ∷ 112 ∷ 101 ∷ []

-- The end of the loop over a scope and its ancestors. `stuck` is none: the fuel ran out.
pub data Search : Type 0 where
  found : Key → Search
  nowhere : Search
  stuck : Search

module _ (l : Limits) where
  -- "scope/name"
  abbrev pub in_scope : List ℕ → List ℕ → List ℕ
  in_scope sp name = path_buf l (sp ++ (47 ∷ name))

  abbrev pub parent_scope : List ℕ → List ℕ
  parent_scope sp = path_buf l (nexs_path_dirname sp l.reg_path_max)

  unfoldable pub search_scopes : ℕ → Registry → List ℕ → List ℕ → Search
  search_scopes zero r name sp = stuck
  search_scopes (suc fuel) r name sp =
      let outer = search_scopes fuel r name (parent_scope sp) in
      elim (reg_lookup l r (in_scope sp name)) [
        | some k ↦ found k
        | none ↦ if is_root l sp then nowhere else outer
      ]

  -- The modules from a first one on.
  unfoldable pub search_modules : Registry → List ℕ → Keys → Option Key
  search_modules r name end = none
  search_modules r name (key n cs next) =
      elim (reg_lookup l r (in_scope (reg_mod ++ (47 ∷ n.name)) name)) [
        | some k ↦ some k
        | none ↦ search_modules r name next
      ]

  unfoldable pub search_rest : Registry → List ℕ → Option Key
  search_rest r name = elim (reg_lookup l r (in_scope reg_fn name)) [
    | some k ↦ some k
    | none ↦ elim (reg_lookup l r (in_scope reg_sys name)) [
      | some k ↦ some k
      | none ↦ elim (reg_lookup l r reg_mod) [ none ↦ none | some m ↦ search_modules r name (m.1) ]
    ]
  ]

  -- The two rounds above the length of the scope are enough fuel.
  unfoldable pub reg_resolve : Registry → List ℕ → Option (List ℕ) → Option Key
  reg_resolve r [] scope_path = none
  reg_resolve r (c ∷ name) scope_path =
      let sp = path_buf l (elim scope_path [ none ↦ reg_local | some s ↦ s ]) in
      elim (search_scopes (length sp + 2) r (c ∷ name) sp) [
        | found k ↦ some k
        | nowhere ↦ search_rest r (c ∷ name)
        | stuck ↦ none
      ]

  -- The path, the counter after it, and the registry; a name of NULL is "anon".
  unfoldable pub reg_push_scope : Registry → ℕ → List ℕ → List ℕ × ℕ × Registry
  reg_push_scope r g_scope_counter fn_name =
      let path = path_buf l (reg_local ++ (47 ∷ (fn_name ++ (95 ∷ decimal g_scope_counter)))) in
      (path, g_scope_counter + 1, (elim (reg_mkpath l r path rk_all) [ none ↦ r | some r' ↦ r' ]))

  abbrev pub with_path : List ℕ → ℕ → Registry → Registry
  with_path path rights r = elim (reg_mkpath l r path rights) [ none ↦ r | some r' ↦ r' ]

  unfoldable pub reg_init : Registry
  reg_init =
      let r₀ : Registry = record {
        root = (regkey_alloc l (47 ∷ []) (47 ∷ []) rk_all, end);
        total_keys = 1;
      } in
      let r₁ = with_path reg_local rk_all r₀ in
      let r₂ = with_path reg_fn 5 r₁ in
      let r₃ = with_path reg_sys 5 r₂ in
      let r₄ = with_path reg_mod rk_all r₃ in
      let r₅ = with_path reg_env rk_all r₄ in with_path reg_type 9 r₅
