-- ===== src/PathName/Split.antt =====
-- A path is its directory, a slash, and its last name.
use Prim.Native.Nat.{min}
use base_nexs.Common.{
  ℕ, zero, suc, ◌-◌, ◌<◌, ◌≡◌, ◌≢◌, ◌⊎◌, inl, inr, refl, ap, sym, ◌∙◌, none, some, List, [], ◌∷◌,
  ◌++◌, ◌==◌, if◌then◌else◌, take, drop, length, All, arith, Option-cases, ne→==,
}
use mathlib.Core.Path.{subst}
use base_nexs.PathName.{last_slash, nexs_path_basename, nexs_path_dirname}

abbrev pub NoSlash : List ℕ → Type 0
NoSlash = All (λ c. c ≢ 47)

deeper : (c : ℕ) (s : List ℕ) (i : ℕ) → last_slash s ≡ some i → last_slash (c ∷ s) ≡ some (suc i)
unfolding last_slash
deeper c s i e = rw (e, last_slash)

here :
    (c : ℕ) (s : List ℕ)
    → last_slash s ≡ none
    → last_slash (c ∷ s) ≡ (if c == 47 then some 0 else none)
unfolding last_slash
here c s e = rw (e, last_slash)

last_slash-NoSlash : (s : List ℕ) → last_slash s ≡ none → NoSlash s
last_slash-NoSlash [] e = tt
last_slash-NoSlash (c ∷ s) e = elim (Option-cases (last_slash s)) [
  | inl f ↦ (λ g. let x = sym (here c s f) ∙ e in ground arith, last_slash-NoSlash s f)
  | inr (i, f) ↦ let x : some (suc i) ≡ none = sym (deeper c s i f) ∙ e in cc
]

-- At the last slash a path falls into what is before it and what is after it.
pub record IsSplit (s : List ℕ) (i : ℕ) : Type 0 where
  pub whole : take i s ++ (47 ∷ drop (suc i) s) ≡ s
  pub last : NoSlash (drop (suc i) s)
  pub inside : i < length s

IsSplit-here : (c : ℕ) (s : List ℕ) → last_slash s ≡ none → c ≡ 47 → IsSplit (c ∷ s) 0
IsSplit-here c s e h = record {
  whole = ap (λ x. x ∷ s) (sym h);
  last = last_slash-NoSlash s e;
  inside = omega arith;
}

IsSplit-deeper : (c : ℕ) (s : List ℕ) (i : ℕ) → IsSplit s i → IsSplit (c ∷ s) (suc i)
IsSplit-deeper c s i x = record {
  whole = ap (λ t. c ∷ t) x.whole;
  last = x.last;
  inside = (let y = x.inside in omega arith);
}

pub last_slash-IsSplit : (s : List ℕ) (i : ℕ) → last_slash s ≡ some i → IsSplit s i
unfolding last_slash
last_slash-IsSplit [] i e = cc
last_slash-IsSplit (c ∷ s) i e = elim (Option-cases (last_slash s)) [
  | inr (j, f) ↦
      let g : some (suc j) ≡ some i = sym (deeper c s j f) ∙ e in
      let k : suc j ≡ i = cc in
      subst (IsSplit (c ∷ s)) k (IsSplit-deeper c s j (last_slash-IsSplit s j f))
  | inl f ↦
      let g : (if c == 47 then some 0 else none) ≡ some i = sym (here c s f) ∙ e in
      let (h, k) : (c ≡ 47) × (0 ≡ i) = at_zero c i g in
      subst (IsSplit (c ∷ s)) k (IsSplit-here c s f h)
]
  where
    at_zero : (c i : ℕ) → (if c == 47 then some 0 else none) ≡ some i → (c ≡ 47) × (0 ≡ i)
    at_zero c i g = ground arith

take_nothing : (n : ℕ) → take {A = ℕ} n [] ≡ []
take_nothing zero = refl
take_nothing (suc n) = refl

pub root : (n : ℕ) → 1 < n → take {A = ℕ} (n - 1) (47 ∷ []) ≡ 47 ∷ []
root zero a = absurd (omega arith)
root (suc zero) a = absurd (omega arith)
root (suc (suc n)) a =
    let m : suc (suc n) - 1 ≡ suc n = omega arith in rw (m) (ap (λ x. 47 ∷ x) (take_nothing n))

module _ (path : List ℕ) (outsz : ℕ) where
  base_none : last_slash path ≡ none → nexs_path_basename path ≡ path
  unfolding nexs_path_basename
  base_none e = rw (e, nexs_path_basename)

  base_some : (i : ℕ) → last_slash path ≡ some i → nexs_path_basename path ≡ drop (suc i) path
  unfolding nexs_path_basename
  base_some i e = rw (e, nexs_path_basename)

  pub dir_none : last_slash path ≡ none → nexs_path_dirname path outsz ≡ take (outsz - 1) (47 ∷ [])
  unfolding nexs_path_dirname
  dir_none e = rw (e, nexs_path_dirname)

  pub dir_zero :
      last_slash path ≡ some 0 → nexs_path_dirname path outsz ≡ take (outsz - 1) (47 ∷ [])
  unfolding nexs_path_dirname
  dir_zero e = rw (e, nexs_path_dirname)

  pub dir_some :
      (i : ℕ)
      → last_slash path ≡ some (suc i)
      → suc i < length path
      → length path < outsz
      → nexs_path_dirname path outsz ≡ take (suc i) path
  unfolding nexs_path_dirname
  dir_some i e k h =
      let m : min (suc i) (outsz - 1) ≡ suc i = omega arith in
      rw (e, ne→== (suc i) 0 (omega arith), nexs_path_dirname, m)

  -- With a buffer larger than the path: the last name has no slash; the directory, a slash and the last name
  -- are the path, unless the directory is "/", and then the path is the last name, or it after a slash.
  pub nexs_path_dirname-nexs_path_basename :
      length path < outsz
      → 1 < outsz
      → NoSlash (nexs_path_basename path)
        × ((nexs_path_dirname path outsz ++ (47 ∷ nexs_path_basename path) ≡ path)
            ⊎ ((nexs_path_dirname path outsz ≡ 47 ∷ [])
                × ((path ≡ nexs_path_basename path) ⊎ (path ≡ 47 ∷ nexs_path_basename path))))
  nexs_path_dirname-nexs_path_basename h g = elim (Option-cases (last_slash path)) [
    | inl e ↦ rw (base_none e, dir_none e) (last_slash-NoSlash path e, inr (root outsz g, inl refl))
    | inr (zero, e) ↦
        let x = last_slash-IsSplit path 0 e in
        rw (base_some 0 e, dir_zero e) (x.last, inr (root outsz g, inr (sym x.whole)))
    | inr (suc i, e) ↦
        let x = last_slash-IsSplit path (suc i) e in
        rw (base_some (suc i) e, dir_some i e x.inside h) (x.last, inl x.whole)
  ]
