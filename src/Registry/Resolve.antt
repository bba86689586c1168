-- ===== src/Registry/Resolve.antt =====
-- The search for a name ends.
use base_nexs.Common.{
  ℕ, zero, suc, ◌+◌, ◌-◌, ◌≤◌, ◌<◌, ◌≡◌, ◌≢◌, sym, ap, ◌∙◌, true, false, none, some, List, [], ◌∷◌,
  if◌then◌else◌, take, length, arith, Option-cases, Bool-cases, inl, inr, str_eq, ne→==,
}
use Prim.Native.Nat.{min}
use mathlib.Core.Path.{subst}
use base_nexs.Config.{Limits}
use base_nexs.Registry.{Registry, reg_lookup, path_buf, is_root}
use base_nexs.PathName.{nexs_path_dirname, last_slash}
use base_nexs.PathName.Split.{last_slash-IsSplit, root, dir_none, dir_zero}
use base_nexs.Registry.Scope.{stuck, search_scopes, in_scope, parent_scope}

length-take :
    {A : Type 0} (n : ℕ) (xs : List A) → (length (take n xs) ≤ n) × (length (take n xs) ≤ length xs)
length-take zero xs = (omega arith, omega arith)
length-take (suc n) [] = (omega arith, omega arith)
length-take (suc n) (x ∷ xs) = let (a, b) = length-take n xs in (omega arith, omega arith)

module _ (l : Limits) (h : 1 < l.reg_path_max) where
  -- How many scopes may lie around one.
  abbrev around : List ℕ → ℕ
  around sp = if is_root l sp then 0 else length sp + 1

  around-le : (sp : List ℕ) → around sp ≤ length sp + 1
  around-le sp = ground arith

  root_parent :
      (sp : List ℕ)
      → nexs_path_dirname sp l.reg_path_max ≡ take (l.reg_path_max - 1) (47 ∷ [])
      → around (parent_scope l sp) ≡ 0
  unfolding str_eq
  root_parent sp e =
      let x : parent_scope l sp ≡ 47 ∷ [] =
        ap (path_buf l) (e ∙ root l.reg_path_max h) ∙ root l.reg_path_max h in
      ap around x

  inner_parent :
      (sp : List ℕ) (i : ℕ)
      → i < length sp
      → nexs_path_dirname sp l.reg_path_max ≡ take (min i (l.reg_path_max - 1)) sp
      → around (parent_scope l sp) < length sp + 1
  inner_parent sp i g e =
      let t = take (min i (l.reg_path_max - 1)) sp in
      let (a, b) = length-take (min i (l.reg_path_max - 1)) sp in
      let (c, d) = length-take (l.reg_path_max - 1) t in
      let x = around-le (path_buf l t) in
      subst (λ z. around (path_buf l z) < length sp + 1) (sym e) (omega arith)

  long_dir :
      (sp : List ℕ) (i : ℕ)
      → last_slash sp ≡ some (suc i)
      → nexs_path_dirname sp l.reg_path_max ≡ take (min (suc i) (l.reg_path_max - 1)) sp
  unfolding nexs_path_dirname
  long_dir sp i e = rw (e, nexs_path_dirname, ne→== (suc i) 0 (omega arith))

  around_inner : (sp : List ℕ) → is_root l sp ≡ false → around sp ≡ length sp + 1
  around_inner sp e = rw (e)

  -- Around the parent of a scope lie fewer scopes.
  parent-around : (sp : List ℕ) → is_root l sp ≡ false → around (parent_scope l sp) < around sp
  parent-around sp e = elim (Option-cases (last_slash sp)) [
    | inl f ↦
        let x = root_parent sp (dir_none sp l.reg_path_max f) in
        let y = around_inner sp e in omega (arith, x, y)
    | inr (zero, f) ↦
        let x = root_parent sp (dir_zero sp l.reg_path_max f) in
        let y = around_inner sp e in omega (arith, x, y)
    | inr (suc i, f) ↦
        let z = last_slash-IsSplit sp (suc i) f in
        let x = inner_parent sp (suc i) z.inside (long_dir sp i f) in
        let y = around_inner sp e in omega (arith, x, y)
  ]

  at_root :
      (fuel : ℕ) (r : Registry) (name sp : List ℕ)
      → is_root l sp ≡ true
      → search_scopes l (suc fuel) r name sp ≢ stuck
  unfolding search_scopes
  at_root fuel r name sp e g = elim (Option-cases (reg_lookup l r (in_scope l sp name))) [
    | inl f ↦ ground arith
    | inr (k, f) ↦ ground arith
  ]

  go_out :
      (fuel : ℕ) (r : Registry) (name sp : List ℕ)
      → is_root l sp ≡ false
      → search_scopes l fuel r name (parent_scope l sp) ≢ stuck
      → search_scopes l (suc fuel) r name sp ≢ stuck
  unfolding search_scopes
  go_out fuel r name sp e u g = elim (Option-cases (reg_lookup l r (in_scope l sp name))) [
    | inl f ↦ u (sym (outer f) ∙ g)
    | inr (k, f) ↦ ground arith
  ]
    where
      outer :
          reg_lookup l r (in_scope l sp name) ≡ none
          → search_scopes l (suc fuel) r name sp ≡ search_scopes l fuel r name (parent_scope l sp)
      outer f = rw (f, search_scopes, e)

  ends :
      (fuel : ℕ) (r : Registry) (name sp : List ℕ)
      → around sp < fuel
      → search_scopes l fuel r name sp ≢ stuck
  ends zero r name sp g = absurd (omega arith)
  ends (suc fuel) r name sp g = elim (Bool-cases (is_root l sp)) [
    | inl e ↦ at_root fuel r name sp e
    | inr e ↦
        go_out fuel r name sp e
          (ends fuel r name (parent_scope l sp) (let x = parent-around sp e in omega arith))
  ]

-- In a build whose paths may be two bytes long at least, the loop of `reg_resolve` over a scope and its
-- ancestors ends, in two rounds more than the scope has bytes.
pub search_scopes-ends :
    (l : Limits) (r : Registry) (name sp : List ℕ)
    → 1 < l.reg_path_max
    → search_scopes l (length sp + 2) r name sp ≢ stuck
search_scopes-ends l r name sp h =
    ends l h (length sp + 2) r name sp (let x = around-le l h sp in omega arith)
