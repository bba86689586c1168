-- ===== src/Sched/Block.antt =====
-- What a tick does to the states of processes, and what becomes of a process that blocks.
use base_nexs.Common.{
  ℕ, ◌<◌, false, ne→==, ◌+◌, ◌%◌, ◌^◌, ◌≡◌, ◌≢◌, refl, ◌∙◌, ap, sym, true, none, some, List, arith,
  inl, inr,
}
use mathlib.Core.Path.{subst}
use base_nexs.Sched.{
  Sched, Proc, ready, running, blocked, is_ready, sched_levels, sched_pick_next, set_state,
  switch_to, sched_tick, sched_yield, proc_block, mark_blocked, after_pick, block_on,
}
use base_nexs.Sched.Pick.{sched_pick_next-IsPicked}

abbrev pub ticked : Sched → Sched
ticked s = record s { tick = (s.tick + 1) % 2 ^ 64 }

tick_idle : (s : Sched) → sched_pick_next (ticked s) ≡ (ticked s, none) → sched_tick s ≡ ticked s
unfolding sched_tick after_pick
tick_idle s e = ap after_pick e

-- From process `p`, process `q` has been switched to.
record Switched (s s' : Sched) (p q : ℕ) : Type 0 where
  now : s'.current ≡ some q
  runs : (s'.procs q).state ≡ running
  waits : (s'.procs p).state ≡ ready
  others : (r : ℕ) → r ≢ p → r ≢ q → (s'.procs r).state ≡ (s.procs r).state

switch_state :
    (s : Sched) (p q : ℕ)
    → s.current ≡ some p
    → p ≢ q
    → after_pick (s, some q)
      ≡ record s { current = some q; procs = set_state (set_state s.procs q running) p ready }
unfolding after_pick switch_to
switch_state s p q c d = ground (arith, c)

switch-Switched :
    (s : Sched) (p q : ℕ) → s.current ≡ some p → p ≢ q → Switched s (after_pick (s, some q)) p q
switch-Switched s p q c d = rw (switch_state s p q c d) (record {
  now = refl;
  runs = ground arith;
  waits = ground arith;
  others = λ r a b. ground arith;
})

tick_switch :
    (s s' : Sched) (p q : ℕ)
    → sched_pick_next (ticked s) ≡ (s', some q)
    → s'.current ≡ some p
    → p ≢ q
    → Switched s' (sched_tick s) p q
unfolding sched_tick
tick_switch s s' p q e c d =
    subst (λ x. Switched s' x p q) (sym (ap after_pick e)) (switch-Switched s' p q c d)

-- What `proc_block` in `s` by the current process `p` comes to, with `s'` after it.
pub data Blocked (s : Sched) (p : ℕ) (s' : Sched) : Type 0 where
  -- No level has another process that is ready at its head: the process stays current, and is blocked.
  stays :
      ((k q : ℕ) → k < sched_levels → s.heads k ≡ some q → q ≢ p → is_ready (s.procs q) ≡ false)
      → s'.current ≡ some p
      → (s'.procs p).state ≡ blocked
      → Blocked s p s'
  -- The first other process that is ready at the head of its level runs, and the one that blocks is ready.
  leaves :
      (q lvl : ℕ)
      → q ≢ p
      → lvl < sched_levels
      → s.heads lvl ≡ some q
      → is_ready (s.procs q) ≡ true
      → ((k r : ℕ) → k < lvl → s.heads k ≡ some r → r ≢ p → is_ready (s.procs r) ≡ false)
      → s'.current ≡ some q
      → (s'.procs q).state ≡ running
      → (s'.procs p).state ≡ ready
      → Blocked s p s'

marked_state :
    (n : ℕ) (s : Sched) (p : ℕ) (path : List ℕ)
    → ((mark_blocked n s p path).procs p).state ≡ blocked
unfolding mark_blocked
marked_state n s p path = ground arith

marked_current :
    (n : ℕ) (s : Sched) (p : ℕ) (path : List ℕ) → (mark_blocked n s p path).current ≡ s.current
unfolding mark_blocked
marked_current n s p path = refl

not_ready : (p : Proc) → p.state ≡ blocked → is_ready p ≡ true → ⊥
not_ready p e f = ground arith

marked_other :
    (n : ℕ) (s : Sched) (p : ℕ) (path : List ℕ) (q : ℕ)
    → q ≢ p
    → is_ready ((mark_blocked n s p path).procs q) ≡ is_ready (s.procs q)
unfolding mark_blocked
marked_other n s p path q d = rw (ne→== q p d) refl

marked_heads :
    (n : ℕ) (s : Sched) (p : ℕ) (path : List ℕ) (k : ℕ)
    → (mark_blocked n s p path).heads k ≡ s.heads k
unfolding mark_blocked
marked_heads n s p path k = refl

-- What is not ready in the marked state is not ready in the state before, but for the process itself.
unready :
    (n : ℕ) (s : Sched) (p : ℕ) (path : List ℕ) (k q : ℕ)
    → ((r : ℕ)
        → (mark_blocked n s p path).heads k ≡ some r
        → is_ready ((mark_blocked n s p path).procs r) ≡ false)
    → s.heads k ≡ some q
    → q ≢ p
    → is_ready (s.procs q) ≡ false
unready n s p path k q h e d =
    sym (marked_other n s p path q d) ∙ h q (marked_heads n s p path k ∙ e)

tick-Blocked :
    (n : ℕ) (s : Sched) (p : ℕ) (path : List ℕ)
    → s.current ≡ some p
    → Blocked s p (sched_tick (mark_blocked n s p path))
tick-Blocked n s p path c =
    let m = mark_blocked n s p path in
    let b = marked_state n s p path in
    let cur = marked_current n s p path ∙ c in
    elim (sched_pick_next-IsPicked (ticked m)) [
      | inl (e, h) ↦
          subst (Blocked s p) (sym (tick_idle m e))
            (stays (λ k q l f d. unready n s p path k q (λ r g. h k r l g) f d) cur b)
      | inr (s', q, lvl, e, x, st, cu, r) ↦
          let d : p ≢ q = λ g.
            not_ready (m.procs p) b
              (subst (λ r. is_ready (m.procs r) ≡ true) (sym g) x.is_ready_now) in
          let d' : q ≢ p = λ g. d (sym g) in
          let y = tick_switch m s' p q e (cu ∙ cur) d in
          leaves q lvl d' x.in_range (sym (marked_heads n s p path lvl) ∙ x.at_head)
            (sym (marked_other n s p path q d') ∙ x.is_ready_now)
            (λ k r l f z. unready n s p path k r (λ u g. x.first k u l g) f z) y.now y.runs y.waits
    ]

block_state :
    (n : ℕ) (s : Sched) (p : ℕ) (path : List ℕ)
    → s.current ≡ some p
    → proc_block n s path ≡ sched_tick (mark_blocked n s p path)
unfolding proc_block block_on sched_yield
block_state n s p path c = ap (block_on n s path) c

-- When the current process calls `proc_block`: if another process is ready at the head of its level, the first such
-- one runs after the call, and the process that called is ready again; if none is, the process is blocked, and
-- current still.
pub proc_block-Blocked :
    (reg_path_max : ℕ) (s : Sched) (p : ℕ) (path : List ℕ)
    → s.current ≡ some p
    → Blocked s p (proc_block reg_path_max s path)
proc_block-Blocked n s p path c =
    subst (Blocked s p) (sym (block_state n s p path c)) (tick-Blocked n s p path c)
