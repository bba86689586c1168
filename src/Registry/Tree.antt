-- ===== src/Registry/Tree.antt =====
-- Keys that a write in the tree reaches, and those that it leaves.
use base_nexs.Common.{
  ℕ, ◌≡◌, refl, sym, ap, ◌∙◌, inl, inr, true, false, Option, none, some, List, [], ◌∷◌, str_eq,
  str_eq→eq, Option-cases, Bool-cases, none_ne_some,
}
use base_nexs.Registry.{Node, Keys, end, key, Key, find_child, walk, at_child, at_walk}

-- The name of the key at a place does not change.
abbrev pub KeepsName : (Key → Key) → Type 0
KeepsName f = (k : Key) → (f k).0.name ≡ (k.0).name

pub find_hit :
    (name : List ℕ) (n : Node) (cs next : Keys)
    → str_eq n.name name ≡ true
    → find_child name (key n cs next) ≡ some (n, cs)
unfolding find_child
find_hit name n cs next h = rw (h)

pub find_miss :
    (name : List ℕ) (n : Node) (cs next : Keys)
    → str_eq n.name name ≡ false
    → find_child name (key n cs next) ≡ find_child name next
unfolding find_child
find_miss name n cs next h = rw (find_child, h)

module _ (f : Key → Key) (name : List ℕ) where
  at_hit :
      (n : Node) (cs next : Keys)
      → str_eq n.name name ≡ true
      → at_child name f (key n cs next) ≡ key ((f (n, cs)).0) ((f (n, cs)).1) next
  unfolding at_child
  at_hit n cs next h = rw (at_child, h)

  at_miss :
      (n : Node) (cs next : Keys)
      → str_eq n.name name ≡ false
      → at_child name f (key n cs next) ≡ key n cs (at_child name f next)
  unfolding at_child
  at_miss n cs next h = rw (at_child, h)

module _ (f : Key → Key) (name : List ℕ) (keeps : KeepsName f) where
  -- The child that the write is at is found, and it is written to.
  pub find-at_child :
      (ks : Keys) (k : Key)
      → find_child name ks ≡ some k
      → find_child name (at_child name f ks) ≡ some (f k)
  unfolding find_child
  find-at_child end k e = cc
  find-at_child (key n cs next) k e = elim (Bool-cases (str_eq n.name name)) [
    | inl h ↦
        let x : some (n, cs) ≡ some k = sym (find_hit name n cs next h) ∙ e in
        let y : (n, cs) ≡ k = cc in
        ap (find_child name) (at_hit f name n cs next h)
        ∙ find_hit name (f (n, cs)).0 (f (n, cs)).1 next
            (ap (λ z. str_eq z name) (keeps (n, cs)) ∙ h)
        ∙ ap (λ z. some (f z)) y
    | inr h ↦
        ap (find_child name) (at_miss f name n cs next h)
        ∙ find_miss name n cs (at_child name f next) h
        ∙ find-at_child next k (sym (find_miss name n cs next h) ∙ e)
  ]

  -- A child of another name is found as it was.
  pub find-at_child_other :
      (q : List ℕ) (ks : Keys)
      → str_eq name q ≡ false
      → find_child q (at_child name f ks) ≡ find_child q ks
  unfolding find_child at_child
  find-at_child_other q end d = refl
  find-at_child_other q (key n cs next) d = elim (Bool-cases (str_eq n.name name)) [
    | inl h ↦
        let m : str_eq n.name q ≡ false = ap (λ z. str_eq z q) (str_eq→eq n.name name h) ∙ d in
        ap (find_child q) (at_hit f name n cs next h)
        ∙ find_miss q (f (n, cs)).0 (f (n, cs)).1 next (ap (λ z. str_eq z q) (keeps (n, cs)) ∙ m)
        ∙ sym (find_miss q n cs next m)
    | inr h ↦ ap (find_child q) (at_miss f name n cs next h) ∙ elim (Bool-cases (str_eq n.name q)) [
      | inl m ↦ find_hit q n cs (at_child name f next) m ∙ sym (find_hit q n cs next m)
      | inr m ↦
          find_miss q n cs (at_child name f next) m
          ∙ find-at_child_other q next d
          ∙ sym (find_miss q n cs next m)
    ]
  ]

  pub find-at_child-none :
      (ks : Keys) → find_child name ks ≡ none → find_child name (at_child name f ks) ≡ none
  unfolding find_child at_child
  find-at_child-none end e = e
  find-at_child-none (key n cs next) e = elim (Bool-cases (str_eq n.name name)) [
    | inl h ↦ absurd (none_ne_some (n, cs) (sym e ∙ find_hit name n cs next h))
    | inr h ↦
        ap (find_child name) (at_miss f name n cs next h)
        ∙ find_miss name n cs (at_child name f next) h
        ∙ find-at_child-none next (sym (find_miss name n cs next h) ∙ e)
  ]

pub walk_step :
    (s : List ℕ) (ss : List (List ℕ)) (k c : Key)
    → find_child s (k.1) ≡ some c
    → walk (s ∷ ss) k ≡ walk ss c
unfolding walk
walk_step s ss k c e = rw (e, walk)

pub walk_stop :
    (s : List ℕ) (ss : List (List ℕ)) (k : Key) → find_child s (k.1) ≡ none → walk (s ∷ ss) k ≡ none
unfolding walk
walk_stop s ss k e = rw (e, walk)

pub at_walk_name : (ss : List (List ℕ)) (f : Key → Key) → KeepsName f → KeepsName (at_walk ss f)
unfolding at_walk
at_walk_name [] f h k = h k
at_walk_name (s ∷ ss) f h k = refl

-- A write at the place of a key is found there.
pub walk-at_walk :
    (ss : List (List ℕ)) (f : Key → Key) (k c : Key)
    → KeepsName f
    → walk ss k ≡ some c
    → walk ss (at_walk ss f k) ≡ some (f c)
unfolding walk at_walk
walk-at_walk [] f k c h e = let x : k ≡ c = cc in ap (λ z. some (f z)) x
walk-at_walk (s ∷ ss) f k c h e = elim (Option-cases (find_child s (k.1))) [
  | inl g ↦ let x : none ≡ some c = sym (walk_stop s ss k g) ∙ e in cc
  | inr (d, g) ↦
      let x = find-at_child (at_walk ss f) s (at_walk_name ss f h) (k.1) d g in
      walk_step s ss (at_walk (s ∷ ss) f k) (at_walk ss f d) x
      ∙ walk-at_walk ss f d c h (sym (walk_step s ss k d g) ∙ e)
]

abbrev pub node_of : Option Key → Option Node
node_of none = none
node_of (some k) = some (k.0)

-- What the key at a place holds, its children apart.
unfoldable pub node_at : List (List ℕ) → Key → Option Node
node_at ss k = node_of (walk ss k)
