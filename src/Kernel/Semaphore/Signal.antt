-- ===== src/Kernel/Semaphore/Signal.antt =====
-- The count of a semaphore and the processes that wait on it, through `signal`.
use internetworking_nat_box.Base.{
  ℕ, ◌-◌, ◌^◌, ◌<◌, ◌≡◌, refl, sym, ap, ◌∙◌, ◌≢◌, true, false, some, List, ◌∷◌, arith, ◌>>=◌,
  length, All,
}
use mathlib.Core.Path.{subst}
use internetworking_nat_box.Kernel.Queue.{QueueTab, dequeue}
use internetworking_nat_box.Kernel.Queue.Chain.{Apart}
use internetworking_nat_box.Kernel.Queue.Represents.{
  IsQueue, Represents, change, change_self, change_ne,
}
use internetworking_nat_box.Kernel.Queue.Fifo.{front, dequeue-Represents, taken-free}
use internetworking_nat_box.Kernel.Process.{System, pr_free, is_negative, ready}
use internetworking_nat_box.Kernel.Process.Ordered.{IsOrdered, IsCurrent, All-change}
use internetworking_nat_box.Kernel.Process.Resched.{ready-Stepped}
use internetworking_nat_box.Kernel.Semaphore.{
  nsem, s_free, count_up, set_count, signal, signal_once,
}
use internetworking_nat_box.Kernel.Semaphore.Counts.{
  waiting, IsCounted, IsSystem, IsCounted-Stepped, recount-IsCounted, waiting-count_up,
  waiting-count_up_none,
}
use internetworking_nat_box.Kernel.Semaphore.Waiting.{usable, recounted-IsSystem}

-- What a signal does where a process waits.
signal_once-ready :
    (s y : ℕ) (sys after : System) (queues : QueueTab)
    → is_negative (sys.scount s) ≡ true
    → dequeue (sys.squeue s) sys.queues ≡ some (some y, queues)
    → ready y (record (set_count sys s (count_up (sys.scount s))) { queues = queues }) ≡ some after
    → signal_once s sys ≡ some after
unfolding signal_once
signal_once-ready s y sys after queues neg taken readied = rw (neg, taken) readied

module _ (n : ℕ) (sys : System) (view : ℕ → List ℕ) (s : ℕ) (i : IsSystem n sys view)
    (exists : s < nsem) (used : sys.sstate s ≢ s_free) where
  -- A signal for which no process waits.
  pub signal-pass :
      sys.scount s ≢ 2 ^ 31 - 1
      → is_negative (sys.scount s) ≡ false
      → (after : System) × (signal s sys ≡ some (true, after)) × IsSystem n after view
  unfolding signal signal_once
  signal-pass most pos =
      let none_now : waiting (sys.scount s) ≡ 0 = rw pos refl in
      (
        set_count sys s (count_up (sys.scount s)),
        rw (usable n sys view s i exists used, pos) refl,
        recounted-IsSystem n sys view s i exists used (count_up (sys.scount s)) (omega arith) (
            waiting-count_up_none (sys.scount s) (i.counts.count_size s exists) most pos
            ∙ sym none_now),
      )

  -- A signal that releases the process that waits longest.
  module _ (y : ℕ) (ys : List ℕ) (here : view (sys.squeue s) ≡ y ∷ ys)
      (neg : is_negative (sys.scount s) ≡ true) where
    abbrev released_view : ℕ → List ℕ
    released_view = change view (sys.squeue s) ys

    abbrev released : QueueTab → System
    released queues = record (set_count sys s (count_up (sys.scount s))) { queues = queues }

    lives : All (λ x. sys.prstate x ≢ pr_free) (y ∷ ys)
    lives =
        subst (All (λ x. sys.prstate x ≢ pr_free)) here
          (i.ordered.live (sys.squeue s) (i.counts.sem_head s exists))

    current-Apart : Apart sys.currpid (y ∷ ys)
    current-Apart =
        subst (Apart sys.currpid) here (i.current.apart (sys.squeue s) (i.counts.sem_head s exists))

    released-IsOrdered :
        (queues : QueueTab)
        → Represents n queues released_view
        → IsOrdered n (released queues) released_view
    released-IsOrdered queues v = record {
      high = i.ordered.high;
      represents = v;
      ready_head = i.ordered.ready_head;
      live = λ r hr.
          All-change (λ x. sys.prstate x ≢ pr_free) view (sys.squeue s) ys r lives.1
            (i.ordered.live r hr);
      no_defers = i.ordered.no_defers;
      prio_size = i.ordered.prio_size;
    }

    released-IsCurrent : (queues : QueueTab) → IsCurrent n (released queues) released_view
    released-IsCurrent queues = record {
      pid = i.current.pid;
      state = i.current.state;
      apart = λ r hr.
          All-change (λ x. sys.currpid ≢ x) view (sys.squeue s) ys r current-Apart.1
            (i.current.apart r hr);
    }

    released-IsCounted : (queues : QueueTab) → IsCounted n (released queues) released_view
    released-IsCounted queues =
        recount-IsCounted n sys (released queues) view released_view s (count_up (sys.scount s))
          i.counts exists (omega arith) refl refl refl
          (ap length (change_self view (sys.squeue s) ys)
            ∙ omega (
              arith,
              ap length here,
              i.counts.counted s exists,
              waiting-count_up (sys.scount s) (i.counts.count_size s exists) neg,
            ))
          (λ q ne. change_ne view (sys.squeue s) ys q (λ e. ne (sym e)))

    pub signal-release :
        (after : System) × (later : ℕ → List ℕ) × (signal s sys ≡ some (true, after))
        × IsSystem n after later
    unfolding signal
    signal-release =
        let (queues, done, v) =
          dequeue-Represents n sys.queues view (sys.squeue s) i.ordered.high i.ordered.represents
            (i.counts.sem_head s exists) in
        let taken : dequeue (sys.squeue s) sys.queues ≡ some (some y, queues) =
          done ∙ ap (λ l. some ((front l).0, queues)) here in
        let w : Represents n queues released_view =
          subst (λ l. Represents n queues (change view (sys.squeue s) (front l).1)) here v in
        let queue =
          subst (IsQueue sys.queues (sys.squeue s)) here
            (i.ordered.represents.queue (sys.squeue s) (i.counts.sem_head s exists)) in
        let (after, later, readied, t) =
          ready-Stepped n (released queues) released_view y (released-IsOrdered queues w)
            (released-IsCurrent queues) queue.pids.0
            (taken-free n sys.queues view (sys.squeue s) y ys i.ordered.represents
              (i.counts.sem_head s exists) here)
            lives.0 (λ e. current-Apart.0 (sym e)) in
        (
          after,
          later,
          rw (usable n sys view s i exists used) (
              ap (λ m. m >>= λ end. some (true, end))
                (signal_once-ready s y sys after queues neg taken readied)),
          record {
            ordered = t.ordered;
            current = t.current;
            counts =
                IsCounted-Stepped n (released queues) after released_view later
                  (released-IsCounted queues) t;
          },
        )
