-- ===== src/Sched/Pick.antt =====
-- Which process is picked, and what picking leaves as it was.
use base_nexs.Common.{
  ℕ, zero, suc, ◌+◌, ◌≤◌, ◌<◌, ◌≡◌, refl, ◌∙◌, ap, sym, true, false, Option, none, some, arith,
  Option-cases, Bool-cases, inl, inr, ◌⊎◌,
}
use native.Mathlib.Decide.{ℕ_discrete}
use base_nexs.Sched.{
  Sched, Proc, is_ready, link, rotate, pick_from, sched_pick_next, sched_levels, set_next,
}

set_next_state :
    (procs : ℕ → Proc) (p q : ℕ) (n : Option ℕ) → (set_next procs p n q).state ≡ (procs q).state
set_next_state procs p q n = elim (ℕ_discrete q p) [ yes e ↦ ground arith | no e ↦ ground arith ]

link_state : (s : Sched) (lvl p q : ℕ) → ((link s lvl p).procs q).state ≡ (s.procs q).state
unfolding link
link_state s lvl p q = elim (Option-cases (s.tails lvl)) [
  | inl e ↦ rw (e, link) (set_next_state s.procs p q none)
  | inr (t, e) ↦
      rw (e, link)
        (set_next_state (set_next s.procs p none) t q (some p) ∙ set_next_state s.procs p q none)
]

link_current : (s : Sched) (lvl p : ℕ) → (link s lvl p).current ≡ s.current
unfolding link
link_current s lvl p = elim (Option-cases (s.tails lvl)) [
  | inl e ↦ rw (e, link)
  | inr (t, e) ↦ rw (e, link)
]

-- The level of a pick: its head is ready, and that of no level before it is.
pub record IsPicked (s : Sched) (p lvl : ℕ) : Type 0 where
  pub in_range : lvl < sched_levels
  pub at_head : s.heads lvl ≡ some p
  pub is_ready_now : is_ready (s.procs p) ≡ true
  pub first : (k q : ℕ) → k < lvl → s.heads k ≡ some q → is_ready (s.procs q) ≡ false

-- No head of the levels from `lvl` to `m` is ready.
abbrev NoneReady : Sched → ℕ → ℕ → Type 0
NoneReady s lvl m = (k q : ℕ) → lvl ≤ k → k < m → s.heads k ≡ some q → is_ready (s.procs q) ≡ false

record PickedFrom (s : Sched) (lvl n p m : ℕ) : Type 0 where
  result : pick_from n lvl s ≡ (rotate s m p, some p)
  from : lvl ≤ m
  to : m < lvl + n
  head : s.heads m ≡ some p
  is_ready_now : is_ready (s.procs p) ≡ true
  first : NoneReady s lvl m

Outcome : Sched → ℕ → ℕ → Type 0
Outcome s lvl n =
    ((pick_from n lvl s ≡ (s, none)) × NoneReady s lvl (lvl + n))
    ⊎ ((p : ℕ) × (m : ℕ) × PickedFrom s lvl n p m)

not_ready_below :
    (s : Sched) (lvl m : ℕ)
    → ((q : ℕ) → s.heads lvl ≡ some q → is_ready (s.procs q) ≡ false)
    → NoneReady s (lvl + 1) m
    → NoneReady s lvl m
not_ready_below s lvl m h g k q a b e = elim (ℕ_discrete k lvl) [
  | yes x ↦ h q (ap s.heads (sym x) ∙ e)
  | no x ↦ g k q (omega arith) b e
]

skipped :
    (n lvl : ℕ) (s : Sched)
    → pick_from (suc n) lvl s ≡ pick_from n (lvl + 1) s
    → ((q : ℕ) → s.heads lvl ≡ some q → is_ready (s.procs q) ≡ false)
    → Outcome s (lvl + 1) n
    → Outcome s lvl (suc n)
unfolding Outcome
skipped n lvl s e h (inl (f, g)) =
    inl (e ∙ f, not_ready_below s lvl (lvl + suc n) h (λ k q a b. g k q a (omega arith)))
skipped n lvl s e h (inr (p, m, x)) =
    let a = x.from in
    let b = x.to in
    inr (
      p,
      m,
      record {
        result = e ∙ x.result;
        from = omega arith;
        to = omega arith;
        head = x.head;
        is_ready_now = x.is_ready_now;
        first = not_ready_below s lvl m h x.first;
      },
    )

pick_none :
    (n lvl : ℕ) (s : Sched) → s.heads lvl ≡ none → pick_from (suc n) lvl s ≡ pick_from n (lvl + 1) s
unfolding pick_from
pick_none n lvl s e = rw (e, pick_from)

pick_busy :
    (n lvl : ℕ) (s : Sched) (p : ℕ)
    → s.heads lvl ≡ some p
    → is_ready (s.procs p) ≡ false
    → pick_from (suc n) lvl s ≡ pick_from n (lvl + 1) s
unfolding pick_from
pick_busy n lvl s p e f = ground arith

pick_ready :
    (n lvl : ℕ) (s : Sched) (p : ℕ)
    → s.heads lvl ≡ some p
    → is_ready (s.procs p) ≡ true
    → pick_from (suc n) lvl s ≡ (rotate s lvl p, some p)
unfolding pick_from
pick_ready n lvl s p e f = ground arith

pick_from-Outcome : (n lvl : ℕ) (s : Sched) → Outcome s lvl n
unfolding Outcome pick_from
pick_from-Outcome zero lvl s = inl (refl, λ k q h g e. absurd (omega arith))
pick_from-Outcome (suc n) lvl s = elim (Option-cases (s.heads lvl)) [
  | inl e ↦
      skipped n lvl s (pick_none n lvl s e) (λ q f. absurd (none_some q (sym e ∙ f)))
        (pick_from-Outcome n (lvl + 1) s)
  | inr (p, e) ↦ elim (Bool-cases (is_ready (s.procs p))) [
    | inl f ↦ inr (
      p,
      lvl,
      record {
        result = pick_ready n lvl s p e f;
        from = omega arith;
        to = omega arith;
        head = e;
        is_ready_now = f;
        first = λ k q a b. absurd (omega arith);
      },
    )
    | inr f ↦
        skipped n lvl s (pick_busy n lvl s p e f) (λ q g. let x : some p ≡ some q = sym e ∙ g in cc)
          (pick_from-Outcome n (lvl + 1) s)
  ]
]
  where
    none_some : (q : ℕ) → none ≡ some q → ⊥
    none_some q x = cc

rotate_state : (s : Sched) (lvl p q : ℕ) → ((rotate s lvl p).procs q).state ≡ (s.procs q).state
unfolding rotate
rotate_state s lvl p q = link_state _ lvl p q

rotate_current : (s : Sched) (lvl p : ℕ) → (rotate s lvl p).current ≡ s.current
unfolding rotate
rotate_current s lvl p = link_current _ lvl p

-- `sched_pick_next` answers the head of the first level whose head is ready, and none if no head is; no
-- process changes its state, and the current process stays.
pub sched_pick_next-IsPicked :
    (s : Sched)
    → ((sched_pick_next s ≡ (s, none))
        × ((k q : ℕ) → k < sched_levels → s.heads k ≡ some q → is_ready (s.procs q) ≡ false))
      ⊎ ((s' : Sched) × (p : ℕ) × (lvl : ℕ) × (sched_pick_next s ≡ (s', some p))
          × IsPicked s p lvl
          × ((q : ℕ) → (s'.procs q).state ≡ (s.procs q).state)
          × (s'.current ≡ s.current)
          × (s' ≡ rotate s lvl p))
unfolding sched_pick_next
sched_pick_next-IsPicked s = elim (outcome) [
  | inl (e, h) ↦ inl (e, λ k q a b. h k q (omega arith) (omega arith) b)
  | inr (p, m, x) ↦
      let b = x.to in
      inr (
        rotate s m p,
        p,
        m,
        x.result,
        record {
          in_range = omega arith;
          at_head = x.head;
          is_ready_now = x.is_ready_now;
          first = λ k q a e. x.first k q (omega arith) a e;
        },
        λ q. rotate_state s m p q,
        rotate_current s m p,
        refl,
      )
]
  where
    outcome :
        ((pick_from sched_levels 0 s ≡ (s, none)) × NoneReady s 0 sched_levels)
        ⊎ ((p : ℕ) × (m : ℕ) × PickedFrom s 0 sched_levels p m)
    outcome = unfold Outcome in pick_from-Outcome sched_levels 0 s
