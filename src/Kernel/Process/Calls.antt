-- ===== src/Kernel/Process/Calls.antt =====
-- Calls that put processes to sleep and wake them, suspend and resume them, and pass messages:
-- system/unsleep.c, sleep.c, wakeup.c, yield.c, suspend.c, resume.c, chprio.c, getprio.c, send.c,
-- receive.c, recvclr.c, recvtime.c.
use internetworking_nat_box.Base.{
  ℕ, zero, suc, ◌+◌, ◌*◌, ◌%◌, ◌^◌, true, false, not, ◌&&◌, ◌||◌, Option, none, some, ltb, ◌==◌,
  if◌then◌else◌, ◌>>=◌,
}
use internetworking_nat_box.Kernel.Queue.{
  nproc, upd, firstid, isempty, sle, getitem, dequeue, insertd, set_key,
}
use internetworking_nat_box.Kernel.Process.{
  System, Called, sign_extend, pr_curr, pr_ready, pr_recv, pr_sleep, pr_susp, pr_rectim, isbadpid,
  is_negative, set_state, resched, defer_start, defer_stop, ready, ready_first,
}

-- A process that sleeps is in the queue of sleepers, so the node behind it is never EMPTY.
unfoldable pub unsleep : ℕ → System → Called
unsleep pid sys =
    let next = sys.queues.qnext pid in
    let asleep = (sys.prstate pid == pr_sleep) || (sys.prstate pid == pr_rectim) in
    let later = set_key sys.queues next ((sys.queues.qkey next + sys.queues.qkey pid) % 2 ^ 32) in
    if isbadpid sys pid || not asleep
    then (false, sys)
    else (true, record sys { queues = getitem (if ltb next nproc then later else sys.queues) pid })

unfoldable pub yield : System → Option System
yield sys = resched sys

-- `sleepms`, of a delay as an `int32`.
unfoldable pub sleepms : ℕ → System → Option Called
unfolding resched
sleepms delay sys =
    if is_negative delay
    then some (false, sys)
    else if delay == 0
    then (resched sys >>= λ after. some (true, after))
    else (insertd (isbadpid sys) sys.currpid sys.sleepq delay sys.queues >>= λ slept. elim slept [
      | none ↦ some (false, sys)
      | some after ↦
          resched (set_state (record sys { queues = after }) sys.currpid pr_sleep) >>= λ switched.
          some (true, switched)
    ])

-- `sleep` of seconds: at most MAXSECONDS.
unfoldable pub sleep : ℕ → System → Option Called
unfolding sleepms
sleep delay sys =
    if is_negative delay || ltb 2147483 delay
    then some (false, sys)
    else (sleepms (1000 * delay % 2 ^ 32) sys >>= λ (_, after). some (true, after))

-- The loop of `wakeup`: a round takes a process from the queue of sleepers.
unfoldable pub wake_all : ℕ → System → Option System
unfolding ready
wake_all zero sys = none
wake_all (suc rounds) sys =
    if not (isempty sys.queues sys.sleepq)
      && sle (sys.queues.qkey (firstid sys.queues sys.sleepq)) 0
    then (dequeue sys.sleepq sys.queues >>= λ (first, after).
        ready_first first (record sys { queues = after }) >>= λ woken. wake_all rounds woken)
    else some sys

unfoldable pub wakeup : System → Option System
unfolding wake_all defer_start defer_stop
wakeup sys = wake_all (suc nproc) (defer_start sys) >>= λ woken. defer_stop woken

unfoldable pub suspend : ℕ → System → Option Called
unfolding resched
suspend pid sys =
    if isbadpid sys pid || (pid == 0)
    then some (false, sys)
    else if sys.prstate pid == pr_ready
    then some (true, set_state (record sys { queues = getitem sys.queues pid }) pid pr_susp)
    else if sys.prstate pid == pr_curr
    then (resched (set_state sys pid pr_susp) >>= λ after. some (true, after))
    else some (false, sys)

unfoldable pub resume : ℕ → System → Option Called
unfolding ready
resume pid sys =
    if isbadpid sys pid || not (sys.prstate pid == pr_susp)
    then some (false, sys)
    else (ready pid sys >>= λ after. some (true, after))

unfoldable pub send : ℕ → ℕ → System → Option Called
unfolding ready unsleep
send pid msg sys =
    let delivered = record sys {
      prmsg = upd sys.prmsg pid msg;
      prhasmsg = upd sys.prhasmsg pid 1;
    } in
    if isbadpid sys pid || not (sys.prhasmsg pid == 0)
    then some (false, sys)
    else if sys.prstate pid == pr_recv
    then (ready pid delivered >>= λ after. some (true, after))
    else if sys.prstate pid == pr_rectim
    then (ready pid (unsleep pid delivered).1 >>= λ after. some (true, after))
    else some (true, delivered)

-- `receive` up to its context switch, if it blocks, and from there on.
unfoldable pub receive_block : System → Option System
unfolding resched
receive_block sys =
    if sys.prhasmsg sys.currpid == 0 then resched (set_state sys sys.currpid pr_recv) else some sys

unfoldable pub receive_message : System → ℕ × System
receive_message sys =
    (sys.prmsg sys.currpid, record sys { prhasmsg = upd sys.prhasmsg sys.currpid 0 })

-- The message, or OK, which is 1, where there is none.
unfoldable pub recvclr : System → ℕ × System
unfolding receive_message
recvclr sys = if sys.prhasmsg sys.currpid == 1 then receive_message sys else (1, sys)

-- `none` is SYSERR.
unfoldable pub getprio : ℕ → System → Option ℕ
getprio pid sys = if isbadpid sys pid then none else some (sign_extend (sys.prprio pid))

-- The priority before. A process in the ready list stays where it is.
unfoldable pub chprio : ℕ → ℕ → System → Option ℕ × System
chprio pid newprio sys =
    if isbadpid sys pid
    then (none, sys)
    else (some (sys.prprio pid), record sys { prprio = upd sys.prprio pid newprio })

-- `recvtime` up to its context switch, if it blocks, and from there on; `none` is TIMEOUT.
unfoldable pub recvtime_block : ℕ → System → Option Called
unfolding resched
recvtime_block maxwait sys =
    if is_negative maxwait
    then some (false, sys)
    else if not (sys.prhasmsg sys.currpid == 0)
    then some (true, sys)
    else (insertd (isbadpid sys) sys.currpid sys.sleepq maxwait sys.queues >>= λ slept. elim slept [
      | none ↦ some (false, sys)
      | some after ↦
          resched (set_state (record sys { queues = after }) sys.currpid pr_rectim) >>= λ switched.
          some (true, switched)
    ])

unfoldable pub recvtime_message : System → Option ℕ × System
unfolding receive_message
recvtime_message sys =
    if sys.prhasmsg sys.currpid == 0
    then (none, sys)
    else (some (receive_message sys).0, (receive_message sys).1)
