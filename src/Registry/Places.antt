-- ===== src/Registry/Places.antt =====
-- What a store at one place does to the keys at others.
use base_nexs.Common.{
  ℕ, ◌≡◌, ◌≢◌, refl, sym, ap, ◌∙◌, inl, inr, none, some, List, [], ◌∷◌, str_eq, str_eq→eq,
  Option-cases, Bool-cases, none_ne_some,
}
use mathlib.Core.Path.{subst}
use base_nexs.Value.{Value}
use base_nexs.Registry.{Node, Key, find_child, walk, at_walk, store}
use base_nexs.Registry.Tree.{
  KeepsName, find-at_child, find-at_child_other, find-at_child-none, walk_step, walk_stop,
  at_walk_name, node_of, node_at,
}

pub node_step :
    (s : List ℕ) (ss : List (List ℕ)) (k c : Key)
    → find_child s (k.1) ≡ some c
    → node_at (s ∷ ss) k ≡ node_at ss c
unfolding node_at
node_step s ss k c e = ap node_of (walk_step s ss k c e)

pub node_stop :
    (s : List ℕ) (ss : List (List ℕ)) (k : Key)
    → find_child s (k.1) ≡ none
    → node_at (s ∷ ss) k ≡ none
unfolding node_at
node_stop s ss k e = ap node_of (walk_stop s ss k e)

pub node_cong :
    (q : List ℕ) (qs : List (List ℕ)) (k k' : Key)
    → find_child q (k'.1) ≡ find_child q (k.1)
    → node_at (q ∷ qs) k' ≡ node_at (q ∷ qs) k
unfolding node_at walk
node_cong q qs k k' e = ap (λ o. node_of (elim o [ none ↦ none | some c ↦ walk qs c ])) e

pub child_exists :
    (q : List ℕ) (qs : List (List ℕ)) (k : Key) (n : Node)
    → node_at (q ∷ qs) k ≡ some n
    → find_child q (k.1) ≢ none
child_exists q qs k n e g = none_ne_some n (sym (node_stop q qs k g) ∙ e)

pub same_cons : (s q : List ℕ) (ss qs : List (List ℕ)) → s ≡ q → qs ≡ ss → q ∷ qs ≡ s ∷ ss
same_cons s q ss qs e f = cc

pub store_name : (v : Value) (rights : ℕ) → KeepsName (store v rights)
store_name v rights k = refl

-- A store at one place leaves what the keys at other places hold.
pub node-at_walk :
    (ss qs : List (List ℕ)) (v : Value) (rights : ℕ) (k : Key)
    → qs ≢ ss
    → node_at qs (at_walk ss (store v rights) k) ≡ node_at qs k
unfolding node_at walk at_walk
node-at_walk [] [] v rights k d = absurd (d refl)
node-at_walk [] (q ∷ qs) v rights k d = refl
node-at_walk (s ∷ ss) [] v rights k d = refl
node-at_walk (s ∷ ss) (q ∷ qs) v rights k d =
    let f = at_walk ss (store v rights) in
    let named = at_walk_name ss (store v rights) (store_name v rights) in
    let k' : Key = at_walk (s ∷ ss) (store v rights) k in
    elim (Bool-cases (str_eq s q)) [
      | inr h ↦ node_cong q qs k k' (find-at_child_other f s named q (k.1) h)
      | inl h ↦
          subst (λ z. node_at (z ∷ qs) k' ≡ node_at (z ∷ qs) k) (str_eq→eq s q h)
            (elim (Option-cases (find_child s (k.1))) [
              | inl g ↦
                  node_stop s qs k' (find-at_child-none f s named (k.1) g)
                  ∙ sym (node_stop s qs k g)
              | inr (c, g) ↦
                  node_step s qs k' (f c) (find-at_child f s named (k.1) c g)
                  ∙ node-at_walk ss qs v rights c (λ e. d (same_cons s q ss qs (str_eq→eq s q h) e))
                  ∙ sym (node_step s qs k c g)
            ])
    ]
