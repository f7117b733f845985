-- ===== src/Kernel/Process.antt =====
-- Processes and the scheduler: system/resched.c and ready.c. The fields of `proctab` and
-- `semtab` are functions of the index. A step gives the state at the context switch that it ends
-- with; `none` stands for a search that does not end and for an empty ready list.
pub mod Calls
pub mod Ordered
pub mod Resched
use internetworking_nat_box.Base.{
  ℕ, zero, suc, ◌+◌, ◌-◌, ◌*◌, ◌/◌, ◌%◌, ◌^◌, ◌≤◌, ◌<◌, min, max, ◌≡◌, refl, sym, ap, ap₂, ◌∙◌, ◌≢◌,
  ◌↔◌, ◌⊎◌, inl, inr, Bool, true, false, not, ◌&&◌, ◌||◌, Option, none, some, List, [], ◌∷◌, ◌++◌,
  map, arith, ltb, leb, ◌==◌, if◌then◌else◌, ltb→lt, lt→ltb, le→ltb, ==_iff, Bool-cases,
  Option-cases, eq_of_some, ◌>>=◌, Ensures, Ensures-bind, Ensures-some, length, get_elem?, get_or,
  set, take, drop, replicate, All, length-append, length-set, length-replicate, get_elem?-set_self,
  get_elem?-set_ne, All-append, All-set, All-get, set-append_right, get_or-append_right, take-set,
  length-take, All-take, get_or-set_self, get_or-set_ne, All-mem, get_elem?-mem, bind-inv,
  take_append, drop_append, set-append_left, Ensures, Ensures-bind, Ensures-some, Succeeds,
  Succeeds-bind, take_all, take-take, take_all, drop_all, length-take_le, take-append_take-drop,
}
use internetworking_nat_box.Kernel.Queue.{
  QueueTab, nproc, upd, firstid, isempty, sle, getitem, enqueue, dequeue, insert, insertd, set_key,
}

abbrev pub pr_free : ℕ
pr_free = 0

abbrev pub pr_curr : ℕ
pr_curr = 1

abbrev pub pr_ready : ℕ
pr_ready = 2

abbrev pub pr_recv : ℕ
pr_recv = 3

abbrev pub pr_sleep : ℕ
pr_sleep = 4

abbrev pub pr_susp : ℕ
pr_susp = 5

abbrev pub pr_wait : ℕ
pr_wait = 6

abbrev pub pr_rectim : ℕ
pr_rectim = 7

-- A priority is the 16-bit pattern of a `pri16`, a count the 32-bit pattern of an `int32`.
pub record System : Type 0 where
  pub queues : QueueTab
  pub prstate : ℕ → ℕ
  pub prprio : ℕ → ℕ
  pub prsem : ℕ → ℕ
  pub prmsg : ℕ → ℕ
  pub prhasmsg : ℕ → ℕ
  pub currpid : ℕ
  pub readylist : ℕ
  pub sleepq : ℕ
  pub ndefers : ℕ
  pub attempt : Bool
  pub preempt : ℕ
  pub sstate : ℕ → ℕ
  pub scount : ℕ → ℕ
  pub squeue : ℕ → ℕ
  pub nextsem : ℕ

abbrev pub isbadpid : System → ℕ → Bool
isbadpid sys pid = leb nproc pid || (sys.prstate pid == pr_free)

-- `x < 0` and `x > 0` of an `int32`.
abbrev pub is_negative : ℕ → Bool
is_negative x = leb (2 ^ 31) x

abbrev pub is_positive : ℕ → Bool
is_positive x = ltb 0 x && ltb x (2 ^ 31)

-- A `pri16` as an `int32`.
abbrev pub sign_extend : ℕ → ℕ
sign_extend prio = if ltb prio (2 ^ 15) then prio else prio + (2 ^ 32 - 2 ^ 16)

abbrev pub set_state : System → ℕ → ℕ → System
set_state sys pid state = record sys { prstate = upd sys.prstate pid state }

-- `queues` of an `insert` whose status is not looked at.
abbrev pub or_same : QueueTab → Option QueueTab → QueueTab
or_same tab none = tab
or_same tab (some after) = after

-- `insert(pid, readylist, prprio)`.
unfoldable pub insert_ready : ℕ → System → Option System
insert_ready pid sys =
    insert (isbadpid sys) pid sys.readylist (sign_extend (sys.prprio pid)) sys.queues >>= λ after.
    some (record sys { queues = or_same sys.queues after })

-- The switch to the first ready process. The time slice is 2 (QUANTUM).
unfoldable pub switch : System → Option System
switch sys = dequeue sys.readylist sys.queues >>= λ (first, after). first >>= λ pid.
    some (record (set_state sys pid pr_curr) { queues = after; currpid = pid; preempt = 2 })

unfoldable pub resched : System → Option System
unfolding switch insert_ready
resched sys =
    if is_positive sys.ndefers
    then some (record sys { attempt = true })
    else if not (sys.prstate sys.currpid == pr_curr)
    then switch sys
    else if not (
        sle (sign_extend (sys.prprio sys.currpid))
          (sys.queues.qkey (firstid sys.queues sys.readylist)))
    then some sys
    else (insert_ready sys.currpid (set_state sys sys.currpid pr_ready) >>= λ queued. switch queued)

unfoldable pub defer_start : System → System
defer_start sys = record sys {
  attempt = if sys.ndefers == 0 then false else sys.attempt;
  ndefers = (sys.ndefers + 1) % 2 ^ 32;
}

unfoldable pub defer_stop : System → Option System
unfolding resched
defer_stop sys =
    let less = record sys { ndefers = (sys.ndefers + (2 ^ 32 - 1)) % 2 ^ 32 } in
    if not (is_positive sys.ndefers)
    then some sys
    else if (less.ndefers == 0) && sys.attempt
    then resched less
    else some less

-- A bad process changes nothing; no caller looks at the status.
unfoldable pub ready : ℕ → System → Option System
unfolding insert_ready resched
ready pid sys =
    if isbadpid sys pid
    then some sys
    else (insert_ready pid (set_state sys pid pr_ready) >>= λ queued. resched queued)

-- `ready` of a result of `dequeue` or `getfirst`, where SYSERR and EMPTY are bad processes.
abbrev pub ready_first : Option ℕ → System → Option System
ready_first none sys = some sys
ready_first (some pid) sys = ready pid sys

-- A call's status (`false` is SYSERR) and the state.
abbrev pub Called : Type 0
Called = Bool × System
