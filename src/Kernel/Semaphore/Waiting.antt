-- ===== src/Kernel/Semaphore/Waiting.antt =====
-- The count of a semaphore and the processes that wait on it, through `wait`.
use internetworking_nat_box.Base.{
  ℕ, ◌^◌, ◌<◌, ◌≡◌, refl, sym, ap, ◌∙◌, ◌≢◌, true, false, some, List, [], ◌∷◌, ◌++◌, arith, ◌==◌,
  ◌>>=◌, length, length-append, All-append,
}
use mathlib.Core.Path.{subst}
use internetworking_nat_box.Kernel.Queue.Chain.{upd_self}
use internetworking_nat_box.Kernel.Queue.Represents.{Represents, change, change_self, change_ne}
use internetworking_nat_box.Kernel.Queue.Fifo.{enqueue-Represents}
use internetworking_nat_box.Kernel.Process.{
  System, pr_free, pr_curr, pr_wait, isbadpid, is_negative, is_positive, set_state, switch, resched,
  or_same,
}
use internetworking_nat_box.Kernel.Process.Ordered.{IsOrdered, All-change, upd-live, switch-Stepped}
use internetworking_nat_box.Kernel.Semaphore.{
  nsem, s_free, unusable, count_down, set_count, block_on, wait,
}
use internetworking_nat_box.Kernel.Semaphore.Counts.{
  waiting, IsCounted, IsSystem, IsCounted-Stepped, recount-IsCounted, waiting-count_down,
  waiting-count_down_pass,
}

-- A process that waits gives way to the first ready one.
resched-switch :
    (sys after : System)
    → sys.ndefers ≡ 0
    → sys.prstate sys.currpid ≡ pr_wait
    → switch sys ≡ some after
    → resched sys ≡ some after
unfolding resched
resched-switch sys after no_defers waits switched =
    let now : is_positive sys.ndefers ≡ false = ap is_positive no_defers in
    let gone : (sys.prstate sys.currpid == pr_curr) ≡ false = ap (λ v. v == pr_curr) waits in
    simp (now, gone, switched)

module _ (n : ℕ) (sys : System) (view : ℕ → List ℕ) (s : ℕ) (i : IsSystem n sys view)
    (exists : s < nsem) (used : sys.sstate s ≢ s_free) where
  pub usable : unusable sys s ≡ false
  usable = ground (arith, exists, used)

  abbrev size : sys.scount s < 2 ^ 32
  size = i.counts.count_size s exists

  -- The state with another count that no process waits for.
  pub recounted-IsSystem :
      (count : ℕ)
      → count < 2 ^ 32
      → waiting count ≡ waiting (sys.scount s)
      → IsSystem n (set_count sys s count) view
  recounted-IsSystem count small same =
      let after = set_count sys s count in
      record {
        ordered = record {
          high = i.ordered.high;
          represents = i.ordered.represents;
          ready_head = i.ordered.ready_head;
          live = i.ordered.live;
          no_defers = i.ordered.no_defers;
          prio_size = i.ordered.prio_size;
        };
        current = record { pid = i.current.pid; state = i.current.state; apart = i.current.apart };
        counts =
            recount-IsCounted n sys after view view s count i.counts exists small refl refl refl
              (i.counts.counted s exists ∙ sym same) (λ q ne. refl);
      }

  -- A caller that need not wait.
  pub wait-pass :
      sys.scount s ≢ 2 ^ 31
      → is_negative (count_down (sys.scount s)) ≡ false
      → (after : System) × (wait s sys ≡ some (true, after)) × IsSystem n after view
  unfolding wait
  wait-pass least pass = (
    set_count sys s (count_down (sys.scount s)),
    rw (usable, upd_self sys.scount s (count_down (sys.scount s)), pass) refl,
    recounted-IsSystem (count_down (sys.scount s)) (omega arith)
        (waiting-count_down_pass (sys.scount s) size pass least),
  )

  abbrev less : System
  less = set_count sys s (count_down (sys.scount s))

  abbrev blocked_view : ℕ → List ℕ
  blocked_view = change view (sys.squeue s) (view (sys.squeue s) ++ (sys.currpid ∷ []))

  -- The caller at the end of the semaphore's queue.
  block_on-IsOrdered : IsOrdered n (block_on s less) blocked_view
  unfolding block_on
  block_on-IsOrdered =
      let good : isbadpid (set_state less sys.currpid pr_wait) sys.currpid ≡ false =
        rw (upd_self sys.prstate sys.currpid pr_wait) (ground (arith, i.current.pid)) in
      let (queues, done, v) =
        enqueue-Represents n sys.queues view (sys.squeue s) sys.currpid
          (isbadpid (set_state less sys.currpid pr_wait)) i.ordered.high i.ordered.represents
          (i.counts.sem_head s exists) good i.current.pid i.current.apart in
      let alive : sys.prstate sys.currpid ≢ pr_free =
        λ e. absurd (omega (arith, e, i.current.state)) in
      record {
        high = i.ordered.high;
        represents =
            subst (λ t. Represents n t blocked_view) (sym (ap (or_same sys.queues) done)) v;
        ready_head = i.ordered.ready_head;
        live = λ r hr.
            upd-live sys.prstate sys.currpid pr_wait (blocked_view r)
              (λ e. absurd (omega (arith, e)))
              (All-change (λ y. sys.prstate y ≢ pr_free) view (sys.squeue s) _ r
                (All-append (λ y. sys.prstate y ≢ pr_free) (view (sys.squeue s)) (sys.currpid ∷ [])
                  (i.ordered.live (sys.squeue s) (i.counts.sem_head s exists)) (alive, tt))
                (i.ordered.live r hr));
        no_defers = i.ordered.no_defers;
        prio_size = i.ordered.prio_size;
      }

  block_on-IsCounted :
      sys.scount s ≢ 2 ^ 31
      → is_negative (count_down (sys.scount s)) ≡ true
      → IsCounted n (block_on s less) blocked_view
  unfolding block_on
  block_on-IsCounted least neg =
      recount-IsCounted n sys (block_on s less) view blocked_view s (count_down (sys.scount s))
        i.counts exists (omega arith) refl refl refl
        (ap length (change_self view (sys.squeue s) _)
          ∙ omega (
            arith,
            length-append (view (sys.squeue s)) (sys.currpid ∷ []),
            i.counts.counted s exists,
            waiting-count_down (sys.scount s) size least neg,
          ))
        (λ q ne. change_ne view (sys.squeue s) _ q (λ e. ne (sym e)))

  -- A caller that waits, where another process is ready.
  pub wait-block :
      (x : ℕ) (xs : List ℕ)
      → view sys.readylist ≡ x ∷ xs
      → sys.scount s ≢ 2 ^ 31
      → is_negative (count_down (sys.scount s)) ≡ true
      → (after : System) × (later : ℕ → List ℕ) × (wait s sys ≡ some (true, after))
        × IsSystem n after later
  unfolding wait block_on
  wait-block x xs others least neg =
      let first : blocked_view sys.readylist ≡ x ∷ xs =
        change_ne view (sys.squeue s) _ sys.readylist (i.counts.sem_apart s exists) ∙ others in
      let (after, switched, t) =
        switch-Stepped n (block_on s less) blocked_view x xs block_on-IsOrdered first in
      let gone =
        resched-switch (block_on s less) after i.ordered.no_defers
          (upd_self sys.prstate sys.currpid pr_wait) switched in
      let count : less.scount s ≡ count_down (sys.scount s) =
        upd_self sys.scount s (count_down (sys.scount s)) in
      (
        after,
        change blocked_view sys.readylist xs,
        rw (usable, count, neg) (ap (λ m. m >>= λ end. some (true, end)) gone),
        record {
          ordered = t.ordered;
          current = t.current;
          counts =
              IsCounted-Stepped n (block_on s less) after blocked_view
                (change blocked_view sys.readylist xs) (block_on-IsCounted least neg) t;
        },
      )
