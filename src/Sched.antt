-- ===== src/Sched.antt =====
-- kernel/sched.c and kernel/proc.c: the run queues and the current process. A process is an address into
-- `procs`, and NULL is `none`. The registry writes, the switch of contexts and the interrupt mask do not
-- show; memory for a process is an argument. The queues' counts stop at 0.
pub mod Pick
pub mod Block
pub mod Queues
mod Tests
use base_nexs.Common.{
  ℕ, zero, suc, ◌+◌, ◌-◌, ◌*◌, ◌/◌, ◌%◌, ◌^◌, Bool, true, false, ◌&&◌, Option, none, some, List, [],
  ◌==◌, if◌then◌else◌, update, take, str_eq,
}

abbrev pub sched_levels : ℕ
sched_levels = 8

-- `ProcState`
pub data ProcState : Type 0 where
  running ready blocked zombie : ProcState

-- `NexsProc`
pub record Proc : Type 0 where
  pub pid : ℕ
  pub state : ProcState
  pub name : List ℕ
  pub priority : ℕ
  pub wait_path : List ℕ
  pub next : Option ℕ

-- The static variables of the two files, and the memory of the processes.
pub record Sched : Type 0 where
  pub procs : ℕ → Proc
  pub heads : ℕ → Option ℕ
  pub tails : ℕ → Option ℕ
  pub counts : ℕ → ℕ
  pub total : ℕ
  pub tick : ℕ
  pub current : Option ℕ
  pub next_pid : ℕ

abbrev pub prio_level : Proc → ℕ
prio_level p = p.priority * sched_levels / 256

abbrev pub is_at : Option ℕ → ℕ → Bool
is_at none p = false
is_at (some q) p = q == p

abbrev pub is_ready : Proc → Bool
is_ready p = elim (p.state) [ ready ↦ true | _ ↦ false ]

abbrev pub is_blocked : Proc → Bool
is_blocked p = elim (p.state) [ blocked ↦ true | _ ↦ false ]

abbrev pub set_next : (ℕ → Proc) → ℕ → Option ℕ → ℕ → Proc
set_next procs p n = update procs p (record (procs p) { next = n })

abbrev pub set_state : (ℕ → Proc) → ℕ → ProcState → ℕ → Proc
set_state procs p st = update procs p (record (procs p) { state = st })

unfoldable pub sched_init : Sched → Sched
sched_init s = record s {
  heads = λ _. none;
  tails = λ _. none;
  counts = λ _. 0;
  total = 0;
  tick = 0;
}

-- The process becomes the last of its level.
unfoldable pub link : Sched → ℕ → ℕ → Sched
link s lvl p =
    let procs = set_next s.procs p none in
    let tails = update s.tails lvl (some p) in
    elim (s.tails lvl) [
      | none ↦ record s { procs = procs; heads = update s.heads lvl (some p); tails = tails }
      | some t ↦ record s { procs = set_next procs t (some p); tails = tails }
    ]

unfoldable pub sched_add : Sched → ℕ → Sched
sched_add s p =
    let lvl = prio_level (s.procs p) in
    let s' = link s lvl p in
    record s' {
      counts = update s'.counts lvl (s'.counts lvl + 1);
      total = s'.total + 1;
      procs = set_state s'.procs p ready;
    }

-- What `sched_remove` does at the process, with the one before it.
unfoldable pub unlink : Sched → ℕ → Option ℕ → ℕ → Sched
unlink s lvl prev p =
    let after = (s.procs p).next in
    let s' : Sched = elim prev [
      | none ↦ record s { heads = update s.heads lvl after }
      | some q ↦ record s { procs = set_next s.procs q after }
    ] in
    record s' {
      tails = if is_at (s'.tails lvl) p then update s'.tails lvl prev else s'.tails;
      procs = set_next s'.procs p none;
      counts = update s'.counts lvl (s'.counts lvl - 1);
      total = s'.total - 1;
    }

-- `none` is a walk that ran out of fuel.
unfoldable pub remove_from : ℕ → Sched → ℕ → ℕ → Option ℕ → Option ℕ → Option Sched
remove_from fuel s lvl p prev none = some s
remove_from zero s lvl p prev (some cur) = none
remove_from (suc fuel) s lvl p prev (some cur) =
    let rest = remove_from fuel s lvl p (some cur) ((s.procs cur).next) in
    if cur == p then some (unlink s lvl prev p) else rest

unfoldable pub sched_remove : ℕ → Sched → ℕ → Option Sched
sched_remove fuel s p =
    let lvl = prio_level (s.procs p) in remove_from fuel s lvl p none (s.heads lvl)

-- The head of a level goes to its end.
unfoldable pub rotate : Sched → ℕ → ℕ → Sched
rotate s lvl p =
    let after = (s.procs p).next in
    link
      (record s {
        heads = update s.heads lvl after;
        tails = elim after [ none ↦ update s.tails lvl none | some q ↦ s.tails ];
      })
      lvl p

-- The loop over the `n` levels from `lvl` on.
unfoldable pub pick_from : ℕ → ℕ → Sched → Sched × Option ℕ
pick_from zero lvl s = (s, none)
pick_from (suc n) lvl s =
    let rest = pick_from n (lvl + 1) s in
    elim (s.heads lvl) [
      | none ↦ rest
      | some p ↦ if is_ready (s.procs p) then (rotate s lvl p, some p) else rest
    ]

unfoldable pub sched_pick_next : Sched → Sched × Option ℕ
sched_pick_next s = pick_from sched_levels 0 s

-- The last lines of `sched_tick`.
unfoldable pub switch_to : Sched → ℕ → Sched
switch_to s q =
    let procs = set_state s.procs q running in
    elim (s.current) [
      | none ↦ record s { current = some q; procs = procs }
      | some p ↦ record s { current = some q; procs = set_state procs p ready }
    ]

-- What `sched_tick` does with the answer of `sched_pick_next`.
unfoldable pub after_pick : Sched × Option ℕ → Sched
after_pick (s, none) = s
after_pick (s, some q) = if is_at s.current q then s else switch_to s q

unfoldable pub sched_tick : Sched → Sched
sched_tick s = after_pick (sched_pick_next (record s { tick = (s.tick + 1) % 2 ^ 64 }))

unfoldable pub sched_yield : Sched → Sched
sched_yield s = sched_tick s

unfoldable pub find_in : ℕ → Sched → ℕ → Option ℕ → Option ℕ
find_in fuel s pid none = none
find_in zero s pid (some p) = none
find_in (suc fuel) s pid (some p) =
    let rest = find_in fuel s pid ((s.procs p).next) in
    if (s.procs p).pid == pid then some p else rest

unfoldable pub find_level : ℕ → ℕ → ℕ → Sched → ℕ → Option ℕ
find_level fuel zero lvl s pid = none
find_level fuel (suc n) lvl s pid = elim (find_in fuel s pid (s.heads lvl)) [
  | some p ↦ some p
  | none ↦ find_level fuel n (lvl + 1) s pid
]

-- No level may be longer than the fuel.
unfoldable pub sched_find : ℕ → Sched → ℕ → Option ℕ
sched_find fuel s pid = find_level fuel sched_levels 0 s pid

unfoldable pub wake : Proc → List ℕ → Proc
wake p path =
    if is_blocked p && str_eq p.wait_path path
    then record p { state = ready; wait_path = [] }
    else p

unfoldable pub wake_in : ℕ → Sched → List ℕ → Option ℕ → Sched
wake_in fuel s path none = s
wake_in zero s path (some p) = s
wake_in (suc fuel) s path (some p) =
    let s' = record s { procs = update s.procs p (wake (s.procs p) path) } in
    wake_in fuel s' path ((s'.procs p).next)

unfoldable pub wake_levels : ℕ → ℕ → ℕ → Sched → List ℕ → Sched
wake_levels fuel zero lvl s path = s
wake_levels fuel (suc n) lvl s path =
    let s' = wake_in fuel s path (s.heads lvl) in wake_levels fuel n (lvl + 1) s' path

unfoldable pub sched_unblock_waiting : ℕ → Sched → List ℕ → Sched
sched_unblock_waiting fuel s path = wake_levels fuel sched_levels 0 s path

-- `p` is the address of the memory for the process, and a name is given.
unfoldable pub proc_create : Sched → ℕ → List ℕ → Sched
proc_create s p name =
    let proc : Proc = record {
      pid = s.next_pid;
      state = ready;
      name = take 63 name;
      priority = 128;
      wait_path = [];
      next = none;
    } in
    sched_add (record s { procs = update s.procs p proc; next_pid = (s.next_pid + 1) % 2 ^ 32 }) p

unfoldable pub proc_destroy : ℕ → Sched → ℕ → Option Sched
proc_destroy fuel s p = elim (sched_remove fuel s p) [
  | none ↦ none
  | some s' ↦ some (record s' { procs = set_state s'.procs p zombie })
]

-- The first lines of `proc_block`; `reg_path_max` is REG_PATH_MAX.
unfoldable pub mark_blocked : ℕ → Sched → ℕ → List ℕ → Sched
mark_blocked reg_path_max s p path = record s {
  procs =
      update s.procs p
        (record (s.procs p) { state = blocked; wait_path = take (reg_path_max - 1) path });
}

unfoldable pub block_on : ℕ → Sched → List ℕ → Option ℕ → Sched
block_on reg_path_max s path none = s
block_on reg_path_max s path (some p) = sched_yield (mark_blocked reg_path_max s p path)

unfoldable pub proc_block : ℕ → Sched → List ℕ → Sched
proc_block reg_path_max s path = block_on reg_path_max s path s.current
