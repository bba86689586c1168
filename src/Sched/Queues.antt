-- ===== src/Sched/Queues.antt =====
-- kernel/sched.c: the queue of each level as the list of its processes, and what a pick does to it.
use base_nexs.Common.{
  ℕ, ◌<◌, ◌≡◌, ◌≢◌, refl, ◌∙◌, ap, sym, true, false, Option, none, some, List, [], ◌∷◌, ◌++◌, arith,
  inl, inr, All, All-append, All-weaken, update, eq→==, ne→==, some_inj, none_ne_some,
}
use mathlib.Core.Path.{subst}
use native.Mathlib.Decide.{ℕ_discrete}
use base_nexs.Sched.{
  Sched, Proc, is_ready, prio_level, link, rotate, sched_pick_next, sched_levels, set_next,
}
use base_nexs.Sched.Pick.{sched_pick_next-IsPicked}

-- The processes from a first one on, each linked to the next.
abbrev pub Chain : (ℕ → Proc) → Option ℕ → List ℕ → Type 0
Chain procs first [] = first ≡ none
Chain procs first (p ∷ ps) = (first ≡ some p) × Chain procs ((procs p).next) ps

abbrev pub last : List ℕ → Option ℕ
last [] = none
last (p ∷ []) = some p
last (p ∷ q ∷ ps) = last (q ∷ ps)

abbrev pub Distinct : List ℕ → Type 0
Distinct [] = Unit
Distinct (p ∷ ps) = All (λ q. q ≢ p) ps × Distinct ps

-- The queue of a level is this list: linked from the head, with the tail at its end, and each process of it once and of
-- the level's priority.
pub record IsQueue (s : Sched) (lvl : ℕ) (ps : List ℕ) : Type 0 where
  pub chain : Chain s.procs (s.heads lvl) ps
  pub tail : s.tails lvl ≡ last ps
  pub distinct : Distinct ps
  pub level : All (λ q. prio_level (s.procs q) ≡ lvl) ps

abbrev pub IsQueued : Sched → (ℕ → List ℕ) → Type 0
IsQueued s queues = (k : ℕ) → k < sched_levels → IsQueue s k (queues k)

last-All : (P : ℕ → Type 0) (ps : List ℕ) (t : ℕ) → All P ps → last ps ≡ some t → P t
last-All P [] t h e = absurd (none_ne_some t e)
last-All P (p ∷ []) t h e = subst P (some_inj p t e) (h.0)
last-All P (p ∷ q ∷ ps) t h e = last-All P (q ∷ ps) t (h.1) e

last-some : (p : ℕ) (ps : List ℕ) → (t : ℕ) × (last (p ∷ ps) ≡ some t)
last-some p [] = (p, refl)
last-some p (q ∷ ps) = last-some q ps

last-append : (ps : List ℕ) (p : ℕ) → last (ps ++ (p ∷ [])) ≡ some p
last-append [] p = refl
last-append (q ∷ []) p = refl
last-append (q ∷ r ∷ ps) p = last-append (r ∷ ps) p

Distinct-append :
    (ps : List ℕ) (p : ℕ) → Distinct ps → All (λ q. q ≢ p) ps → Distinct (ps ++ (p ∷ []))
Distinct-append [] p d h = (tt, tt)
Distinct-append (q ∷ ps) p d h =
    (All-append _ ps (p ∷ []) (d.0) ((λ e. h.0 (sym e)), tt), Distinct-append ps p (d.1) (h.1))

-- `p` behind `t`.
abbrev linked : (ℕ → Proc) → ℕ → ℕ → ℕ → Proc
linked procs p t = set_next (set_next procs p none) t (some p)

linked_next :
    (procs : ℕ → Proc) (p t q : ℕ) → q ≢ p → q ≢ t → (linked procs p t q).next ≡ (procs q).next
linked_next procs p t q h g = rw (ne→== q t g, ne→== q p h) refl

linked_level :
    (procs : ℕ → Proc) (p t q : ℕ) → prio_level (linked procs p t q) ≡ prio_level (procs q)
linked_level procs p t q = ground arith

alone_level :
    (procs : ℕ → Proc) (p q : ℕ) → prio_level (set_next procs p none q) ≡ prio_level (procs q)
alone_level procs p q = ground arith

-- A chain that has neither of the two is as it was.
Chain-linked :
    (procs : ℕ → Proc) (p t : ℕ) (first : Option ℕ) (ps : List ℕ)
    → All (λ q. (q ≢ p) × (q ≢ t)) ps
    → Chain procs first ps
    → Chain (linked procs p t) first ps
Chain-linked procs p t first [] h c = c
Chain-linked procs p t first (q ∷ ps) h c =
    (c.0, rw (linked_next procs p t q (h.0.0) (h.0.1)) (Chain-linked procs p t _ ps (h.1) (c.1)))

Chain-alone :
    (procs : ℕ → Proc) (p : ℕ) (first : Option ℕ) (ps : List ℕ)
    → All (λ q. q ≢ p) ps
    → Chain procs first ps
    → Chain (set_next procs p none) first ps
Chain-alone procs p first [] h c = c
Chain-alone procs p first (q ∷ ps) h c =
    (c.0, rw (ne→== q p (h.0)) (Chain-alone procs p _ ps (h.1) (c.1)))

-- A chain that ends in `t` is one longer.
Chain-longer :
    (procs : ℕ → Proc) (p t : ℕ) (first : Option ℕ) (q : ℕ) (ps : List ℕ)
    → All (λ r. r ≢ p) (q ∷ ps)
    → Distinct (q ∷ ps)
    → last (q ∷ ps) ≡ some t
    → Chain procs first (q ∷ ps)
    → Chain (linked procs p t) first ((q ∷ ps) ++ (p ∷ []))
Chain-longer procs p t first q [] h d e c =
    let x : q ≡ t = some_inj q t e in
    (c.0, (rw (x, eq→== t t refl) refl, rw (ne→== p t (λ y. h.0 (x ∙ sym y)), eq→== p p refl) refl))
Chain-longer procs p t first q (r ∷ ps) h d e c =
    let ne : t ≢ q = last-All (λ x. x ≢ q) (r ∷ ps) t (d.0) e in
    (
      c.0,
      rw (linked_next procs p t q (h.0) (λ y. ne (sym y)))
          (Chain-longer procs p t _ r ps (h.1) (d.1) e (c.1)),
    )

-- `rotate` with the process behind the head given.
abbrev rotated : Sched → ℕ → ℕ → Option ℕ → Sched
rotated s lvl p after =
    link
      (record s {
        heads = update s.heads lvl after;
        tails = elim after [ none ↦ update s.tails lvl none | some q ↦ s.tails ];
      })
      lvl p

rotate_as : (s : Sched) (lvl p : ℕ) → rotate s lvl p ≡ rotated s lvl p ((s.procs p).next)
unfolding rotate
rotate_as s lvl p = refl

rotate_alone :
    (s : Sched) (lvl p : ℕ)
    → (s.procs p).next ≡ none
    → rotate s lvl p ≡ record s {
      procs = set_next s.procs p none;
      heads = update (update s.heads lvl none) lvl (some p);
      tails = update (update s.tails lvl none) lvl (some p);
    }
unfolding link
rotate_alone s lvl p e =
    rotate_as s lvl p ∙ ap (rotated s lvl p) e ∙ rw (link, eq→== lvl lvl refl) refl

rotate_more :
    (s : Sched) (lvl p q t : ℕ)
    → (s.procs p).next ≡ some q
    → s.tails lvl ≡ some t
    → rotate s lvl p ≡ record s {
      procs = linked s.procs p t;
      heads = update s.heads lvl (some q);
      tails = update s.tails lvl (some p);
    }
unfolding link
rotate_more s lvl p q t e f = rotate_as s lvl p ∙ ap (rotated s lvl p) e ∙ rw (link, f) refl

-- The processes of another level are others.
other_level :
    (s : Sched) (k lvl p : ℕ) (ps : List ℕ)
    → k ≢ lvl
    → prio_level (s.procs p) ≡ lvl
    → All (λ q. prio_level (s.procs q) ≡ k) ps
    → All (λ q. q ≢ p) ps
other_level s k lvl p ps d h =
    All-weaken _ _ ps (λ q e x. d (sym e ∙ ap (λ r. prio_level (s.procs r)) x ∙ h))

both :
    (p t : ℕ) (ps : List ℕ)
    → All (λ q. q ≢ p) ps
    → All (λ q. q ≢ t) ps
    → All (λ q. (q ≢ p) × (q ≢ t)) ps
both p t [] h g = tt
both p t (q ∷ ps) h g = ((h.0, g.0), both p t ps (h.1) (g.1))

-- The level of the pick: its first process has become its last.
module _ (s : Sched) (lvl p : ℕ) where
  own-alone : IsQueue s lvl (p ∷ []) → IsQueue (rotate s lvl p) lvl (p ∷ [])
  own-alone y = rw (rotate_alone s lvl p (y.chain.1)) (record {
    chain = (rw (eq→== lvl lvl refl) refl, rw (eq→== p p refl) refl);
    tail = rw (eq→== lvl lvl refl) refl;
    distinct = (tt, tt);
    level = (alone_level s.procs p p ∙ y.level.0, tt);
  })

  own-more :
      (q : ℕ) (ps : List ℕ)
      → IsQueue s lvl (p ∷ q ∷ ps)
      → IsQueue (rotate s lvl p) lvl ((q ∷ ps) ++ (p ∷ []))
  own-more q ps y =
      let (t, e) = last-some q ps in
      let ne = y.distinct.0 in
      rw (rotate_more s lvl p q t (y.chain.1.0) (y.tail ∙ e)) (record {
        chain =
            rw (eq→== lvl lvl refl)
              (Chain-longer s.procs p t (some q) q ps ne (y.distinct.1) e (refl, y.chain.1.1));
        tail = rw (eq→== lvl lvl refl) (sym (last-append (q ∷ ps) p));
        distinct = Distinct-append (q ∷ ps) p (y.distinct.1) ne;
        level =
            All-append _ (q ∷ ps) (p ∷ [])
              (All-weaken _ _ (q ∷ ps) (λ r h. linked_level s.procs p t r ∙ h) (y.level.1))
              (linked_level s.procs p t p ∙ y.level.0, tt);
      })

  -- Any other level stays as it is.
  other-alone :
      (k : ℕ) (qs : List ℕ)
      → k ≢ lvl
      → IsQueue s lvl (p ∷ [])
      → IsQueue s k qs
      → IsQueue (rotate s lvl p) k qs
  other-alone k qs d y z = rw (rotate_alone s lvl p (y.chain.1)) (record {
    chain =
        rw (ne→== k lvl d)
          (Chain-alone s.procs p _ qs (other_level s k lvl p qs d (y.level.0) z.level) z.chain);
    tail = rw (ne→== k lvl d) z.tail;
    distinct = z.distinct;
    level = All-weaken _ _ qs (λ r h. alone_level s.procs p r ∙ h) z.level;
  })

  other-more :
      (k q : ℕ) (ps qs : List ℕ)
      → k ≢ lvl
      → IsQueue s lvl (p ∷ q ∷ ps)
      → IsQueue s k qs
      → IsQueue (rotate s lvl p) k qs
  other-more k q ps qs d y z =
      let (t, e) = last-some q ps in
      let at : prio_level (s.procs t) ≡ lvl = last-All _ (q ∷ ps) t (y.level.1) e in
      rw (rotate_more s lvl p q t (y.chain.1.0) (y.tail ∙ e)) (record {
        chain = rw (ne→== k lvl d) (
            Chain-linked s.procs p t _ qs
              (both p t qs (other_level s k lvl p qs d (y.level.0) z.level)
                (other_level s k lvl t qs d at z.level))
              z.chain);
        tail = rw (ne→== k lvl d) z.tail;
        distinct = z.distinct;
        level = All-weaken _ _ qs (λ r h. linked_level s.procs p t r ∙ h) z.level;
      })

rotate-IsQueued :
    (s : Sched) (queues : ℕ → List ℕ) (lvl p : ℕ) (ps : List ℕ)
    → lvl < sched_levels
    → queues lvl ≡ p ∷ ps
    → IsQueued s queues
    → IsQueued (rotate s lvl p) (update queues lvl (ps ++ (p ∷ [])))
rotate-IsQueued s queues lvl p [] l e y k h =
    let own = subst (IsQueue s lvl) e (y lvl l) in
    elim (ℕ_discrete k lvl) [
      | yes x ↦ rw (x, eq→== lvl lvl refl) (own-alone s lvl p own)
      | no x ↦ rw (ne→== k lvl x) (other-alone s lvl p k (queues k) x own (y k h))
    ]
rotate-IsQueued s queues lvl p (q ∷ ps) l e y k h =
    let own = subst (IsQueue s lvl) e (y lvl l) in
    elim (ℕ_discrete k lvl) [
      | yes x ↦ rw (x, eq→== lvl lvl refl) (own-more s lvl p q ps own)
      | no x ↦ rw (ne→== k lvl x) (other-more s lvl p k q ps (queues k) x own (y k h))
    ]

-- The head of a level is the first of its list.
head-IsQueue :
    (s : Sched) (k p : ℕ) (ps : List ℕ)
    → IsQueue s k ps
    → s.heads k ≡ some p
    → (rest : List ℕ) × (ps ≡ p ∷ rest)
head-IsQueue s k p [] y e = absurd (none_ne_some p (sym y.chain ∙ e))
head-IsQueue s k p (q ∷ ps) y e = (ps, ap (λ r. r ∷ ps) (some_inj q p (sym (y.chain.0) ∙ e)))

first-IsQueue :
    (s : Sched) (k q : ℕ) (xs ps : List ℕ) → IsQueue s k xs → xs ≡ q ∷ ps → s.heads k ≡ some q
first-IsQueue s k q xs ps y e = (subst (IsQueue s k) e y).chain.0

-- No level below `m` has a first process that is ready.
abbrev pub NoneFirst : Sched → (ℕ → List ℕ) → ℕ → Type 0
NoneFirst s queues m =
    (k q : ℕ) (ps : List ℕ) → k < m → queues k ≡ q ∷ ps → is_ready (s.procs q) ≡ false

-- What a pick answers on queues that are lists, and what it leaves.
pub data Picked (s : Sched) (queues : ℕ → List ℕ) : Type 0 where
  nothing : sched_pick_next s ≡ (s, none) → NoneFirst s queues sched_levels → Picked s queues
  picked :
      (s' : Sched) (p lvl : ℕ) (rest : List ℕ)
      → sched_pick_next s ≡ (s', some p)
      → lvl < sched_levels
      → queues lvl ≡ p ∷ rest
      → is_ready (s.procs p) ≡ true
      → NoneFirst s queues lvl
      → IsQueued s' (update queues lvl (rest ++ (p ∷ [])))
      → ((q : ℕ) → (s'.procs q).state ≡ (s.procs q).state)
      → s'.current ≡ s.current
      → Picked s queues

-- Where the queue of each level is a list of processes: `sched_pick_next` answers the first process of the first
-- level whose first process is ready. A level whose first process is not ready is passed over, whoever waits behind
-- it. The process that is picked becomes the last of its level, and all other queues, the states and the current
-- process stay; if no level has one, nothing is answered and nothing changes.
pub sched_pick_next-IsQueued :
    (s : Sched) (queues : ℕ → List ℕ) → IsQueued s queues → Picked s queues
sched_pick_next-IsQueued s queues y = elim (sched_pick_next-IsPicked s) [
  | inl (e, h) ↦ nothing e (λ k q ps l f. h k q l (first-IsQueue s k q (queues k) ps (y k l) f))
  | inr (s', p, lvl, e, x, st, cu, r) ↦
      let l = x.in_range in
      let (rest, f) = head-IsQueue s lvl p (queues lvl) (y lvl l) x.at_head in
      picked s' p lvl rest e l f x.is_ready_now
        (λ k q ps h g. x.first k q h (first-IsQueue s k q (queues k) ps (y k (omega arith)) g))
        (subst (λ z. IsQueued z (update queues lvl (rest ++ (p ∷ [])))) (sym r)
          (rotate-IsQueued s queues lvl p rest l f y))
        st cu
]
