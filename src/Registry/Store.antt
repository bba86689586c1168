-- ===== src/Registry/Store.antt =====
-- What is stored at a path is found there, and nothing else changes.
use base_nexs.Common.{ℕ, ◌+◌, ◌%◌, ◌^◌, ◌≡◌, ◌≢◌, ◌∙◌, Option, none, some, List, [], ◌∷◌}
use base_nexs.Config.{Limits}
use base_nexs.Value.{Value, err}
use base_nexs.Registry.{Node, Key, Registry, walk, at_walk, make, store, missing}
use base_nexs.Registry.{place, reg_lookup, reg_set, reg_get, at_path, reg_mkpath_with, no_key}

abbrev value_of : Option Node → Value
value_of none = err 3 no_key
value_of (some n) = n.val

module _ (l : Limits) (r : Registry) where
  pub lookup-place :
      (path : List ℕ) (ss : List (List ℕ))
      → place l path ≡ some ss
      → reg_lookup l r path ≡ walk ss r.root
  unfolding reg_lookup
  lookup-place path ss e = rw (e, reg_lookup)

  pub set-found :
      (path : List ℕ) (ss : List (List ℕ)) (v : Value) (rights : ℕ) (k : Key)
      → place l path ≡ some ss
      → walk ss r.root ≡ some k
      → reg_set l r path v rights ≡ some (record r { root = at_walk ss (store v rights) r.root })
  unfolding reg_set at_path
  set-found path ss v rights k e f =
      let g = lookup-place path ss e ∙ f in rw (g, reg_set, at_path, e)

  pub set-new :
      (path : List ℕ) (ss : List (List ℕ)) (v : Value) (rights : ℕ)
      → place l path ≡ some ss
      → walk ss r.root ≡ none
      → reg_set l r path v rights
        ≡ some (record {
          root = make l (47 ∷ []) ss rights (store v rights) r.root;
          total_keys = (r.total_keys + missing l ss r.root) % 2 ^ 64;
        })
  unfolding reg_set reg_mkpath_with
  set-new path ss v rights e f =
      let g = lookup-place path ss e ∙ f in rw (g, reg_set, reg_mkpath_with, e)

-- What `reg_set` of `v` at a path has done.
pub record IsSetTo (l : Limits) (r r' : Registry) (path : List ℕ) (ss : List (List ℕ)) (v : Value)
    : Type 0 where
  pub stored : reg_get l r' path ≡ v
  pub others :
      (q : List ℕ) (qs : List (List ℕ))
      → place l q ≡ some qs
      → qs ≢ ss
      → reg_lookup l r q ≢ none
      → reg_get l r' q ≡ reg_get l r q
