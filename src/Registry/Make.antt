-- ===== src/Registry/Make.antt =====
-- What making the keys of a path does to the keys that are there.
use base_nexs.Common.{
  ℕ, ◌-◌, ◌<◌, ◌≡◌, ◌≢◌, refl, sym, ap, ◌∙◌, inl, inr, false, none, some, List, [], ◌∷◌, take_short,
  str_eq, str_eq→eq, str_eq_refl, length, All, arith, Option-cases, Bool-cases,
}
use mathlib.Core.Path.{subst}
use base_nexs.Config.{Limits}
use base_nexs.Value.{Value}
use base_nexs.Registry.{
  Node, end, key, Key, find_child, walk, at_child, make, regkey_alloc, child_path, store,
}
use base_nexs.Registry.Places.{node_step, node_cong, child_exists, same_cons, store_name}
use base_nexs.Registry.Tree.{
  KeepsName, find_hit, find_miss, find-at_child, find-at_child_other, walk_step, node_at,
}

module _ (l : Limits) where
  -- Names that the buffer of a key holds.
  abbrev pub Short : List (List ℕ) → Type 0
  Short = All (λ s. length s < l.name_len)

  pub make_found :
      (built : List ℕ) (s : List ℕ) (ss : List (List ℕ)) (rights : ℕ) (f : Key → Key) (k c : Key)
      → find_child s (k.1) ≡ some c
      → make l built (s ∷ ss) rights f k
        ≡ (k.0, at_child s (make l (child_path l built s) ss rights f) (k.1))
  unfolding make
  make_found built s ss rights f k c e = rw (make, e)

  -- The key that is made below, with all that is below it.
  abbrev made : List ℕ → List ℕ → List (List ℕ) → ℕ → (Key → Key) → Key
  made built s ss rights f =
      make l (child_path l built s) ss rights f
        (regkey_alloc l s (child_path l built s) rights, end)

  pub make_new :
      (built : List ℕ) (s : List ℕ) (ss : List (List ℕ)) (rights : ℕ) (f : Key → Key) (k : Key)
      → find_child s (k.1) ≡ none
      → make l built (s ∷ ss) rights f k
        ≡ (k.0, key ((made built s ss rights f).0) ((made built s ss rights f).1) (k.1))
  unfolding make
  make_new built s ss rights f k e = rw (make, e)

  make_name :
      (built : List ℕ) (ss : List (List ℕ)) (rights : ℕ) (f : Key → Key)
      → KeepsName f
      → KeepsName (make l built ss rights f)
  unfolding make
  make_name built [] rights f h k = h k
  make_name built (s ∷ ss) rights f h k = elim (Option-cases (find_child s (k.1))) [
    | inl e ↦ ap (λ z. z.0.name) (make_new built s ss rights f k e)
    | inr (c, e) ↦ ap (λ z. z.0.name) (make_found built s ss rights f k c e)
  ]

  alloc_name :
      (s path : List ℕ) (rights : ℕ)
      → length s < l.name_len
      → (regkey_alloc l s path rights).name ≡ s
  unfolding regkey_alloc
  alloc_name s path rights h = take_short (l.name_len - 1) s (omega arith)

  -- Where the names are short, `make` makes the key at a place, or finds it, and `f` is applied to it.
  pub walk-make :
      (built : List ℕ) (ss : List (List ℕ)) (rights : ℕ) (f : Key → Key) (k : Key)
      → Short ss
      → KeepsName f
      → (c : Key) × (walk ss (make l built ss rights f k) ≡ some (f c))
  unfolding walk make
  walk-make built [] rights f k h keeps = (k, refl)
  walk-make built (s ∷ ss) rights f k h keeps = elim (Option-cases (find_child s (k.1))) [
    | inr (c, e) ↦
        let x = make l (child_path l built s) ss rights f in
        let (d, w) = walk-make (child_path l built s) ss rights f c (h.1) keeps in
        let g = find-at_child x s (make_name (child_path l built s) ss rights f keeps) (k.1) c e in
        (
          d,
          ap (walk (s ∷ ss)) (make_found built s ss rights f k c e)
              ∙ walk_step s ss (k.0, at_child s x (k.1)) (x c) g
              ∙ w,
        )
    | inl e ↦
        let a : Key = (regkey_alloc l s (child_path l built s) rights, end) in
        let (d, w) = walk-make (child_path l built s) ss rights f a (h.1) keeps in
        let m : Key = made built s ss rights f in
        let n : (m.0).name ≡ s =
          make_name (child_path l built s) ss rights f keeps a
          ∙ alloc_name s (child_path l built s) rights (h.0) in
        let g = find_hit s (m.0) (m.1) (k.1) (ap (λ z. str_eq z s) n ∙ str_eq_refl s) in
        (
          d,
          ap (walk (s ∷ ss)) (make_new built s ss rights f k e)
              ∙ walk_step s ss (k.0, key (m.0) (m.1) (k.1)) m g
              ∙ w,
        )
  ]

  -- A key that is there holds what it held, unless it is the one that `f` is applied to.
  pub node-make :
      (built : List ℕ) (ss qs : List (List ℕ)) (v : Value) (rights : ℕ) (k : Key) (n : Node)
      → Short ss
      → qs ≢ ss
      → node_at qs k ≡ some n
      → node_at qs (make l built ss rights (store v rights) k) ≡ some n
  unfolding node_at walk make
  node-make built [] [] v rights k n h d e = absurd (d refl)
  node-make built [] (q ∷ qs) v rights k n h d e = e
  node-make built (s ∷ ss) [] v rights k n h d e = elim (Option-cases (find_child s (k.1))) [
    | inl g ↦ ap (λ z. some (z.0)) (make_new built s ss rights (store v rights) k g) ∙ e
    | inr (c, g) ↦ ap (λ z. some (z.0)) (make_found built s ss rights (store v rights) k c g) ∙ e
  ]
  node-make built (s ∷ ss) (q ∷ qs) v rights k n h d e = elim (Option-cases (find_child s (k.1))) [
    | inl g ↦
        let m : Key = made built s ss rights (store v rights) in
        let a : (m.0).name ≡ s =
          make_name (child_path l built s) ss rights (store v rights) (store_name v rights)
            (regkey_alloc l s (child_path l built s) rights, end)
          ∙ alloc_name s (child_path l built s) rights (h.0) in
        ap (node_at (q ∷ qs)) (make_new built s ss rights (store v rights) k g)
        ∙ node_cong q qs k (k.0, key (m.0) (m.1) (k.1))
            (find_miss q (m.0) (m.1) (k.1)
              (ap (λ z. str_eq z q) a ∙ apart s q g (child_exists q qs k n e)))
        ∙ e
    | inr (c, g) ↦
        let x = make l (child_path l built s) ss rights (store v rights) in
        let named =
          make_name (child_path l built s) ss rights (store v rights) (store_name v rights) in
        let k' : Key = (k.0, at_child s x (k.1)) in
        ap (node_at (q ∷ qs)) (make_found built s ss rights (store v rights) k c g)
        ∙ elim (Bool-cases (str_eq s q)) [
          | inr b ↦ node_cong q qs k k' (find-at_child_other x s named q (k.1) b) ∙ e
          | inl b ↦
              let p = str_eq→eq s q b in
              let f : find_child q (k.1) ≡ some c = subst (λ z. find_child z (k.1) ≡ some c) p g in
              let f' : find_child q (k'.1) ≡ some (x c) =
                subst (λ z. find_child z (k'.1) ≡ some (x c)) p
                  (find-at_child x s named (k.1) c g) in
              node_step q qs k' (x c) f'
              ∙ node-make (child_path l built s) ss qs v rights c n (h.1)
                  (λ y. d (same_cons s q ss qs p y)) (sym (node_step q qs k c f) ∙ e)
        ]
  ]
    where
      apart :
          (s q : List ℕ)
          → find_child s (k.1) ≡ none
          → find_child q (k.1) ≢ none
          → str_eq s q ≡ false
      apart s q g u = elim (Bool-cases (str_eq s q)) [
        | inl b ↦ absurd (u (subst (λ z. find_child z (k.1) ≡ none) (str_eq→eq s q b) g))
        | inr b ↦ b
      ]
