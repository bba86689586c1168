-- ===== src/Sched/Tests.antt =====
-- Runs of the scheduler.
use base_nexs.Common.{
  ℕ, ◌≡◌, refl, none, some, List, [], ◌∷◌, ◌==◌, if◌then◌else◌, ne→==, sym, arith,
}
use base_nexs.Sched.{
  Sched, zombie, ready, link, sched_init, sched_add, proc_create, proc_block, sched_tick,
  sched_pick_next, pick_from, rotate, switch_to, sched_yield, mark_blocked, after_pick, block_on,
}
use mathlib.Core.Path.{subst}
use native.Mathlib.Decide.{ℕ_discrete}
use base_nexs.Sched.Queues.{IsQueue, IsQueued, Picked, sched_pick_next-IsQueued}
use base_nexs.Sched.Block.{Blocked, proc_block-Blocked}

abbrev boot : Sched
boot = record {
  procs =
      λ _. record { pid = 0; state = zombie; name = []; priority = 0; wait_path = []; next = none };
  heads = λ _. none;
  tails = λ _. none;
  counts = λ _. 0;
  total = 0;
  tick = 0;
  current = none;
  next_pid = 1;
}

-- Processes at 10 and 20, and the first of them runs.
abbrev two : Sched
two = sched_tick (proc_create (proc_create (sched_init boot) 10 []) 20 [])

two_current : two.current ≡ some 10
unfolding sched_init proc_create sched_add link sched_tick sched_pick_next pick_from rotate
    switch_to after_pick
two_current = refl

-- The process that runs has gone to the end of its level.
two_head : two.heads 4 ≡ some 20
unfolding sched_init proc_create sched_add link sched_tick sched_pick_next pick_from rotate
    switch_to after_pick
two_head = refl

block_awake : ((proc_block 64 two (47 ∷ [])).procs 10).state ≡ ready
unfolding sched_init proc_create sched_add link sched_tick sched_pick_next pick_from rotate
    switch_to after_pick proc_block block_on mark_blocked sched_yield
block_awake = refl

abbrev two_queues : ℕ → List ℕ
two_queues k = if k == 4 then 20 ∷ 10 ∷ [] else []

two-IsQueued : IsQueued two two_queues
unfolding sched_init proc_create sched_add link sched_tick sched_pick_next pick_from rotate
    switch_to after_pick
two-IsQueued k h = elim (ℕ_discrete k 4) [
  | yes x ↦
      subst (λ z. IsQueue two z (two_queues z)) (sym x)
        (record {
          chain = (refl, (refl, refl));
          tail = refl;
          distinct = ((omega arith, tt), (tt, tt));
          level = (refl, (refl, tt));
        })
  | no x ↦ rw (ne→== k 4 x) (record {
    chain = rw (ne→== k 4 x) refl;
    tail = rw (ne→== k 4 x) refl;
    distinct = tt;
    level = tt;
  })
]

sched_pick_next-IsQueued_example : Picked two two_queues
sched_pick_next-IsQueued_example = sched_pick_next-IsQueued two two_queues two-IsQueued

proc_block-Blocked_example : Blocked two 10 (proc_block 64 two (47 ∷ []))
proc_block-Blocked_example = proc_block-Blocked 64 two 10 (47 ∷ []) two_current
