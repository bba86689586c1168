-- ===== src/Buddy/Node.antt =====
-- When the nodes below one node of `buddy_tree` stand for a block.
use base_nexs.Common.{
  Bool, true, false, refl, ℕ, zero, suc, ◌+◌, ◌*◌, ◌^◌, ◌≤◌, ◌<◌, ◌≡◌, ◌≢◌, ◌∙◌, update, arith,
}
use native.Mathlib.Nat.{pow-suc, pow-le-pow_right}
use native.Mathlib.Decide.{dec_lt}
use base_nexs.Buddy.{is_free, NodeState, free, split, used, Tree}
use base_nexs.Buddy.Block.{Block, vacant, taken, fork}

-- `m` is `n` or stands below it in the array.
pub Below : ℕ → ℕ → Type 0
Below n m = (k : ℕ) × ((n + 1) * 2 ^ k ≤ m + 1) × (m + 1 < (n + 2) * 2 ^ k)

pub pow_pos : (k : ℕ) → 0 < 2 ^ k
pow_pos zero = omega arith
pow_pos (suc k) = omega (arith, pow_pos k, pow-suc 2 k)

pub Below-self : (n : ℕ) → Below n n
unfolding Below
Below-self n = (0, omega arith, omega arith)

pub Below-left : (n m : ℕ) → Below (2 * n + 1) m → Below n m
unfolding Below
Below-left n m (k, lo, hi) = (suc k, rw pow-suc (omega arith), rw pow-suc (omega arith))

pub Below-right : (n m : ℕ) → Below (2 * n + 2) m → Below n m
unfolding Below
Below-right n m (k, lo, hi) = (suc k, rw pow-suc (omega arith), rw pow-suc (omega arith))

pub self_not_left : (n : ℕ) → Below (2 * n + 1) n → ⊥
unfolding Below
self_not_left n (k, lo, hi) = grind (arith, pow_pos k)

pub self_not_right : (n : ℕ) → Below (2 * n + 2) n → ⊥
unfolding Below
self_not_right n (k, lo, hi) = grind (arith, pow_pos k)

pow_double : {k j : ℕ} → k < j → 2 * 2 ^ k ≤ 2 ^ j
pow_double {k} {j} h = omega (arith, pow-suc 2 k, pow-le-pow_right {n = 2} (omega arith) h)

apart_deeper : (n m p q : ℕ) → 2 * p ≤ q → m + 1 < (2 * n + 3) * p → (2 * n + 3) * q ≤ m + 1 → ⊥
apart_deeper n m p q h a b = grind arith

apart_higher : (n m p q : ℕ) → 2 * q ≤ p → (2 * n + 2) * p ≤ m + 1 → m + 1 < (2 * n + 4) * q → ⊥
apart_higher n m p q h a b = grind arith

-- The two halves of the array below a node have no node in common.
pub apart : (n m : ℕ) → Below (2 * n + 1) m → Below (2 * n + 2) m → ⊥
unfolding Below
apart n m (k, lo, hi) (j, lo', hi') = elim (dec_lt k j) [
  | yes h ↦ apart_deeper n m (2 ^ k) (2 ^ j) (pow_double h) (omega arith) (omega arith)
  | no h ↦ elim (dec_lt j k) [
    | yes g ↦ apart_higher n m (2 ^ k) (2 ^ j) (pow_double g) (omega arith) (omega arith)
    | no g ↦ let e : k ≡ j = omega arith in let lo'' = rw (← e) at lo' in omega arith
  ]
]

-- All nodes down to `d` levels below `n` are free.
abbrev pub AllFree : Tree → ℕ → ℕ → Type 0
AllFree t zero n = t n ≡ free
AllFree t (suc d) n = (t n ≡ free) × AllFree t d (2 * n + 1) × AllFree t d (2 * n + 2)

abbrev pub ChildrenFree : Tree → ℕ → ℕ → Type 0
ChildrenFree t zero n = Unit {0}
ChildrenFree t (suc d) n = AllFree t d (2 * n + 1) × AllFree t d (2 * n + 2)

-- The nodes from `n` down `d` levels stand for a block. Below a free or a used node all are free.
abbrev pub Holds : Tree → ℕ → ℕ → Block → Type 0
Holds t d n vacant = (t n ≡ free) × ChildrenFree t d n
Holds t d n taken = (t n ≡ used) × ChildrenFree t d n
Holds t zero n (fork a b) = ⊥
Holds t (suc d) n (fork a b) = (t n ≡ split) × Holds t d (2 * n + 1) a × Holds t d (2 * n + 2) b

-- Two trees agree below a node.
pub Agree : Tree → Tree → ℕ → Type 0
Agree t t' n = (m : ℕ) → Below n m → t' m ≡ t m

-- A step changed nothing but what stands below a node.
pub Keeps : Tree → Tree → ℕ → Type 0
Keeps t t' n = (m : ℕ) → (Below n m → ⊥) → t' m ≡ t m

AllFree-cong : (d n : ℕ) (t t' : Tree) → Agree t t' n → AllFree t d n → AllFree t' d n
unfolding Agree
AllFree-cong zero n t t' h f = h n (Below-self n) ∙ f
AllFree-cong (suc d) n t t' h (f, x, y) = (
  h n (Below-self n) ∙ f,
  AllFree-cong d (2 * n + 1) t t' (λ m b. h m (Below-left n m b)) x,
  AllFree-cong d (2 * n + 2) t t' (λ m b. h m (Below-right n m b)) y,
)

ChildrenFree-cong :
    (d n : ℕ) (t t' : Tree) → Agree t t' n → ChildrenFree t d n → ChildrenFree t' d n
unfolding Agree
ChildrenFree-cong zero n t t' h f = tt
ChildrenFree-cong (suc d) n t t' h (x, y) = (
  AllFree-cong d (2 * n + 1) t t' (λ m b. h m (Below-left n m b)) x,
  AllFree-cong d (2 * n + 2) t t' (λ m b. h m (Below-right n m b)) y,
)

pub Holds-cong : (d n : ℕ) (t t' : Tree) (b : Block) → Agree t t' n → Holds t d n b → Holds t' d n b
unfolding Agree
Holds-cong d n t t' vacant h (e, f) = (h n (Below-self n) ∙ e, ChildrenFree-cong d n t t' h f)
Holds-cong d n t t' taken h (e, f) = (h n (Below-self n) ∙ e, ChildrenFree-cong d n t t' h f)
Holds-cong zero n t t' (fork a b) h f = f
Holds-cong (suc d) n t t' (fork a b) h (e, x, y) = (
  h n (Below-self n) ∙ e,
  Holds-cong d (2 * n + 1) t t' a (λ m c. h m (Below-left n m c)) x,
  Holds-cong d (2 * n + 2) t t' b (λ m c. h m (Below-right n m c)) y,
)

-- A block that has changed in its left half, or in its right half, only.
pub Holds-left :
    (d n : ℕ) (t t' : Tree) (a a' b : Block)
    → Holds t (suc d) n (fork a b)
    → Keeps t t' (2 * n + 1)
    → Holds t' d (2 * n + 1) a'
    → Holds t' (suc d) n (fork a' b) × Keeps t t' n
unfolding Keeps Agree
Holds-left d n t t' a a' b (e, x, y) k h = (
  (
    k n (self_not_left n) ∙ e,
    h,
    Holds-cong d (2 * n + 2) t t' b (λ m c. k m (λ c'. apart n m c' c)) y,
  ),
  λ m c. k m (λ c'. c (Below-left n m c')),
)

pub Holds-right :
    (d n : ℕ) (t t' : Tree) (a b b' : Block)
    → Holds t (suc d) n (fork a b)
    → Keeps t t' (2 * n + 2)
    → Holds t' d (2 * n + 2) b'
    → Holds t' (suc d) n (fork a b') × Keeps t t' n
unfolding Keeps Agree
Holds-right d n t t' a b b' (e, x, y) k h = (
  (
    k n (self_not_right n) ∙ e,
    Holds-cong d (2 * n + 1) t t' a (λ m c. k m (λ c'. apart n m c c')) x,
    h,
  ),
  λ m c. k m (λ c'. c (Below-right n m c')),
)

AllFree→Holds : (d n : ℕ) (t : Tree) → AllFree t d n → Holds t d n vacant
AllFree→Holds zero n t f = (f, tt)
AllFree→Holds (suc d) n t (f, x, y) = (f, (x, y))

Holds→AllFree : (d n : ℕ) (t : Tree) → Holds t d n vacant → AllFree t d n
Holds→AllFree zero n t f = f.0
Holds→AllFree (suc d) n t (f, (x, y)) = (f, x, y)

pub update_self : (t : Tree) (n : ℕ) (s : NodeState) → update t n s n ≡ s
update_self t n s = ground arith

update_ne : (t : Tree) (n m : ℕ) (s : NodeState) → m ≢ n → update t n s m ≡ t m
update_ne t n m s h = ground arith

-- A write to a node keeps what does not stand below it, and both halves below it.
pub Keeps-update : (t : Tree) (n : ℕ) (s : NodeState) → Keeps t (update t n s) n
unfolding Keeps
Keeps-update t n s m h = update_ne t n m s (λ e. h (rw e (Below-self n)))

pub Agree-left : (t : Tree) (n : ℕ) (s : NodeState) → Agree t (update t n s) (2 * n + 1)
unfolding Agree
Agree-left t n s m h = update_ne t n m s (λ e. self_not_left n (rw e at h))

pub Agree-right : (t : Tree) (n : ℕ) (s : NodeState) → Agree t (update t n s) (2 * n + 2)
unfolding Agree
Agree-right t n s m h = update_ne t n m s (λ e. self_not_right n (rw e at h))

pub Keeps-trans : (t t' t'' : Tree) (n : ℕ) → Keeps t t' n → Keeps t' t'' n → Keeps t t'' n
unfolding Keeps
Keeps-trans t t' t'' n h k m c = k m c ∙ h m c

-- Marking a free node used, a used node free, and a free node split.
pub ChildrenFree-update :
    (d n : ℕ) (t : Tree) (s : NodeState) → ChildrenFree t d n → ChildrenFree (update t n s) d n
ChildrenFree-update zero n t s f = tt
ChildrenFree-update (suc d) n t s (x, y) = (
  AllFree-cong d (2 * n + 1) t (update t n s) (Agree-left t n s) x,
  AllFree-cong d (2 * n + 2) t (update t n s) (Agree-right t n s) y,
)

pub Holds-split :
    (d n : ℕ) (t : Tree)
    → Holds t (suc d) n vacant
    → Holds (update t n split) (suc d) n (fork vacant vacant)
Holds-split d n t (e, f) =
    let g = ChildrenFree-update (suc d) n t split f in
    (
      update_self t n split,
      AllFree→Holds d (2 * n + 1) (update t n split) g.0,
      AllFree→Holds d (2 * n + 2) (update t n split) g.1,
    )

pub Holds-merge :
    (d n : ℕ) (t : Tree)
    → Holds t (suc d) n (fork vacant vacant)
    → Holds (update t n free) (suc d) n vacant
Holds-merge d n t (e, x, y) = (
  update_self t n free,
  ChildrenFree-update (suc d) n t free
      (Holds→AllFree d (2 * n + 1) t x, Holds→AllFree d (2 * n + 2) t y),
)

pub Keeps-refl : (t : Tree) (n : ℕ) → Keeps t t n
unfolding Keeps
Keeps-refl t n m h = refl

abbrev pub is_vacant : Block → Bool
is_vacant vacant = true
is_vacant _ = false

-- A node is free just if its block is vacant.
pub is_free-Holds : (d n : ℕ) (t : Tree) (b : Block) → Holds t d n b → is_free (t n) ≡ is_vacant b
is_free-Holds d n t vacant h = rw (h.0)
is_free-Holds d n t taken h = rw (h.0)
is_free-Holds zero n t (fork a b) h = absurd h
is_free-Holds (suc d) n t (fork a b) h = rw (h.0)
