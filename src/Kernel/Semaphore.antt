-- ===== src/Kernel/Semaphore.antt =====
-- Semaphores: system/semcreate.c, wait.c, signal.c, signaln.c, semreset.c, semdelete.c, semcount.c.
-- A status is `false` for SYSERR.
pub mod Signal
pub mod Waiting
pub mod Calls
pub mod Counts
mod Tests
use internetworking_nat_box.Base.{
  ℕ, zero, suc, ◌+◌, ◌-◌, ◌*◌, ◌/◌, ◌%◌, ◌^◌, ◌≤◌, ◌<◌, min, max, ◌≡◌, refl, sym, ap, ap₂, ◌∙◌, ◌≢◌,
  ◌↔◌, ◌⊎◌, inl, inr, Bool, true, false, not, ◌&&◌, ◌||◌, Option, none, some, List, [], ◌∷◌, ◌++◌,
  map, arith, ltb, leb, ◌==◌, if◌then◌else◌, ltb→lt, lt→ltb, le→ltb, ==_iff, Bool-cases,
  Option-cases, eq_of_some, ◌>>=◌, Ensures, Ensures-bind, Ensures-some, length, get_elem?, get_or,
  set, take, drop, replicate, All, length-append, length-set, length-replicate, get_elem?-set_self,
  get_elem?-set_ne, All-append, All-set, All-get, set-append_right, get_or-append_right, take-set,
  length-take, All-take, get_or-set_self, get_or-set_ne, All-mem, get_elem?-mem, bind-inv,
  take_append, drop_append, set-append_left, Ensures, Ensures-bind, Ensures-some, Succeeds,
  Succeeds-bind, take_all, take-take, take_all, drop_all, length-take_le, take-append_take-drop,
}
use internetworking_nat_box.Kernel.Queue.{nproc, upd, enqueue, dequeue, getfirst}
use internetworking_nat_box.Kernel.Process.{
  System, Called, pr_wait, isbadpid, is_negative, set_state, resched, ready, ready_first,
  defer_start, defer_stop, or_same,
}

abbrev pub nsem : ℕ
nsem = 100

abbrev pub s_free : ℕ
s_free = 0

abbrev pub s_used : ℕ
s_used = 1

abbrev pub isbadsem : ℕ → Bool
isbadsem sem = leb nsem sem

abbrev pub count_down : ℕ → ℕ
count_down count = (count + (2 ^ 32 - 1)) % 2 ^ 32

abbrev pub count_up : ℕ → ℕ
count_up count = (count + 1) % 2 ^ 32

abbrev pub set_count : System → ℕ → ℕ → System
set_count sys sem count = record sys { scount = upd sys.scount sem count }

-- The semaphore does not exist or is not in use.
abbrev pub unusable : System → ℕ → Bool
unusable sys sem = isbadsem sem || (sys.sstate sem == s_free)

-- The caller waits: its state, its semaphore, and its place at the end of the queue.
unfoldable pub block_on : ℕ → System → System
block_on sem sys = record (set_state sys sys.currpid pr_wait) {
  prsem = upd sys.prsem sys.currpid sem;
  queues = or_same sys.queues (
      enqueue (isbadpid (set_state sys sys.currpid pr_wait)) sys.currpid (sys.squeue sem)
        sys.queues);
}

unfoldable pub wait : ℕ → System → Option Called
unfolding block_on resched
wait sem sys =
    let less = set_count sys sem (count_down (sys.scount sem)) in
    if unusable sys sem
    then some (false, sys)
    else if is_negative (less.scount sem)
    then (resched (block_on sem less) >>= λ after. some (true, after))
    else some (true, less)

-- One signal: the process that `dequeue` gives is made ready.
unfoldable pub signal_once : ℕ → System → Option System
unfolding ready
signal_once sem sys =
    let more = set_count sys sem (count_up (sys.scount sem)) in
    if is_negative (sys.scount sem)
    then elim (dequeue (sys.squeue sem) sys.queues) [
      | none ↦ some more
      | some (first, after) ↦ ready_first first (record more { queues = after })
    ]
    else some more

unfoldable pub signal : ℕ → System → Option Called
unfolding signal_once
signal sem sys =
    if unusable sys sem
    then some (false, sys)
    else (signal_once sem sys >>= λ after. some (true, after))

unfoldable pub signal_times : ℕ → ℕ → System → Option System
unfolding signal_once
signal_times zero sem sys = some sys
signal_times (suc count) sem sys = signal_once sem sys >>= λ after. signal_times count sem after

unfoldable pub signaln : ℕ → ℕ → System → Option Called
unfolding signal_times defer_start defer_stop
signaln sem count sys =
    if isbadsem sem || is_negative count
    then some (false, sys)
    else if sys.sstate sem == s_free
    then some (false, sys)
    else (signal_times count sem (defer_start sys) >>= λ signalled.
        defer_stop signalled >>= λ after. some (true, after))

-- The loop of `semreset`, which ends with the queue.
unfoldable pub free_waiting : ℕ → ℕ → System → Option System
unfolding getfirst ready
free_waiting zero queue sys = none
free_waiting (suc rounds) queue sys = elim (getfirst sys.queues queue).0 [
  | none ↦ some sys
  | some pid ↦ ready pid (record sys { queues = (getfirst sys.queues queue).1 }) >>= λ freed.
      free_waiting rounds queue freed
]

unfoldable pub semreset : ℕ → ℕ → System → Option Called
unfolding free_waiting defer_start defer_stop
semreset sem count sys =
    if is_negative count || unusable sys sem
    then some (false, sys)
    else (free_waiting (suc nproc) (sys.squeue sem) (defer_start sys) >>= λ freed.
        defer_stop (set_count freed sem count) >>= λ after. some (true, after))

-- The loop of `semdelete`: as many rounds as the count is below 0, and a last test.
unfoldable pub free_counted : ℕ → ℕ → System → Option System
unfolding getfirst ready
free_counted zero sem sys = some (set_count sys sem (count_up (sys.scount sem)))
free_counted (suc rounds) sem sys =
    let (first, rest) = getfirst sys.queues (sys.squeue sem) in
    let more = record (set_count sys sem (count_up (sys.scount sem))) { queues = rest } in
    ready_first first more >>= λ freed. free_counted rounds sem freed

abbrev pub rounds_below : ℕ → ℕ
rounds_below count = if is_negative count then 2 ^ 32 - count else 0

unfoldable pub semdelete : ℕ → System → Option Called
unfolding free_counted defer_start defer_stop
semdelete sem sys =
    if unusable sys sem
    then some (false, sys)
    else (free_counted (rounds_below (sys.scount sem)) sem
          (defer_start (record sys { sstate = upd sys.sstate sem s_free }))
        >>= λ freed. defer_stop freed >>= λ after. some (true, after))

-- The search of `newsem` for a free entry, which starts where the last one stopped. `none` is
-- SYSERR.
unfoldable pub newsem : ℕ → System → Option ℕ × System
newsem zero sys = (none, sys)
newsem (suc left) sys =
    let sem = sys.nextsem in
    let next = record sys { nextsem = if leb nsem (sem + 1) then 0 else sem + 1 } in
    let rest = newsem left next in
    if sys.sstate sem == s_free
    then (some sem, record next { sstate = upd sys.sstate sem s_used })
    else rest

unfoldable pub semcreate : ℕ → System → Option ℕ × System
unfolding newsem
semcreate count sys = if is_negative count then (none, sys) else elim (newsem nsem sys).0 [
  | none ↦ newsem nsem sys
  | some sem ↦ (some sem, set_count (newsem nsem sys).1 sem count)
]

-- `none` is SYSERR.
unfoldable pub semcount : ℕ → System → Option ℕ
semcount sem sys = if unusable sys sem then none else some (sys.scount sem)
