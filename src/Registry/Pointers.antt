-- ===== src/Registry/Pointers.antt =====
-- Where following pointers leads.
use base_nexs.Common.{
  ℕ, zero, suc, ◌-◌, ◌<◌, ◌≡◌, refl, ap, ◌∙◌, some, List, length, take_short, arith,
}
use base_nexs.Config.{Limits}
use base_nexs.Value.{Value, err, ptr, null_ptr}
use base_nexs.Registry.{
  Key, Registry, reg_lookup, deref_from, deref_value, reg_get_deref, too_deep, path_buf,
}

abbrev pub NotPtr : Value → Type 0
NotPtr (ptr target) = ⊥
NotPtr null_ptr = ⊥
NotPtr v = Unit

module _ (l : Limits) (r : Registry) where
  -- The key at a path is a pointer to another path.
  pub record Points (path target : List ℕ) : Type 0 where
    pub at_key : Key
    pub found : reg_lookup l r path ≡ some at_key
    pub pointer : (at_key.0).val ≡ ptr target
    pub fits : length target < l.reg_path_max

  -- From a path, so many pointers lead to a value that is not a pointer. With none, the value is at the path itself.
  pub data Chain : List ℕ → ℕ → Value → Type 0 where
    stop :
        {path : List ℕ} (k : Key)
        → reg_lookup l r path ≡ some k
        → NotPtr (k.0).val
        → Chain path 0 (k.0).val
    hop :
        {path target : List ℕ} {n : ℕ} {v : Value}
        → Points path target
        → Chain target n v
        → Chain path (suc n) v

  found_value :
      (hops : ℕ) (path : List ℕ) (k : Key)
      → reg_lookup l r path ≡ some k
      → deref_from l (suc hops) r path
        ≡ deref_value (λ t. deref_from l hops r (path_buf l t)) (k.0).val
  unfolding deref_from
  found_value hops path k e = rw (e, deref_from)

  follow :
      (hops : ℕ) (path target : List ℕ)
      → Points path target
      → deref_from l (suc hops) r path ≡ deref_from l hops r target
  follow hops path target p =
      let e : path_buf l target ≡ target =
        (let f = p.fits in take_short (l.reg_path_max - 1) target (omega arith)) in
      found_value hops path p.at_key p.found
      ∙ ap (deref_value (λ t. deref_from l hops r (path_buf l t))) p.pointer
      ∙ ap (deref_from l hops r) e

  cycle-deref :
      (P : List ℕ → Type 0)
      → ((path : List ℕ) → P path → (t : List ℕ) × Points path t × P t)
      → (hops : ℕ) (path : List ℕ) → P path
      → deref_from l hops r path ≡ err 3 too_deep
  unfolding deref_from
  cycle-deref P step zero path p = refl
  cycle-deref P step (suc hops) path p =
      let (t, q, x) = step path p in follow hops path t q ∙ cycle-deref P step hops t x

-- From a path in a set of paths that are pointers into the set, `reg_get_deref` ends with an error.
pub reg_get_deref-cycle :
    (l : Limits) (r : Registry) (P : List ℕ → Type 0) (path : List ℕ)
    → ((q : List ℕ) → P q → (t : List ℕ) × Points l r q t × P t)
    → P path
    → reg_get_deref l r path ≡ err 3 too_deep
unfolding reg_get_deref
reg_get_deref-cycle l r P path step p = cycle-deref l r P step 64 path p
