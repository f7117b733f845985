-- ===== src/Kernel/Process/Ordered.antt =====
-- The ready list and the current process through `ready`, `resched` and the switch.
use internetworking_nat_box.Base.{
  ℕ, ◌^◌, ◌≤◌, ◌<◌, ◌≡◌, refl, sym, ap, ◌∙◌, ◌≢◌, inl, inr, false, some, List, [], ◌∷◌, ◌++◌, arith,
  ltb, Bool-cases, ◌>>=◌, All, All-append,
}
use mathlib.Core.Path.{subst}
use internetworking_nat_box.Kernel.Queue.{QueueTab, nqent, minkey, upd, sle, dequeue}
use internetworking_nat_box.Kernel.Queue.Chain.{Apart, upd_self}
use internetworking_nat_box.Kernel.Queue.Splice.{All-split}
use internetworking_nat_box.Kernel.Queue.Represents.{
  IsHead, IsPid, IsQueue, Represents, change, change_self, change_ne, same_or_not,
}
use internetworking_nat_box.Kernel.Queue.Fifo.{front, dequeue-Represents, taken-free}
use internetworking_nat_box.Kernel.Queue.Priority.{insert-Represents}
use internetworking_nat_box.Kernel.Process.{
  System, pr_free, pr_curr, isbadpid, sign_extend, set_state, insert_ready, switch, or_same,
}

-- The queues of a system whose scheduling is not deferred: they stand for the lists of the view,
-- and no process in them is free.
pub record IsOrdered (n : ℕ) (sys : System) (view : ℕ → List ℕ) : Type 0 where
  pub high : n ≤ nqent
  pub represents : Represents n sys.queues view
  pub ready_head : IsHead n sys.readylist
  pub live : (r : ℕ) → IsHead n r → All (λ x. sys.prstate x ≢ pr_free) (view r)
  pub no_defers : sys.ndefers ≡ 0
  pub prio_size : (p : ℕ) → sys.prprio p < 2 ^ 16

-- The current process has its state and waits nowhere.
pub record IsCurrent (n : ℕ) (sys : System) (view : ℕ → List ℕ) : Type 0 where
  pub pid : IsPid sys.currpid
  pub state : sys.prstate sys.currpid ≡ pr_curr
  pub apart : (r : ℕ) → IsHead n r → Apart sys.currpid (view r)

-- What a step of the scheduler leaves alone: the semaphores, and all queues but the ready list.
pub record Stepped (n : ℕ) (sys : System) (view : ℕ → List ℕ) (after : System) (later : ℕ → List ℕ)
    : Type 0 where
  pub ordered : IsOrdered n after later
  pub current : IsCurrent n after later
  pub readylist : after.readylist ≡ sys.readylist
  pub squeue : after.squeue ≡ sys.squeue
  pub scount : after.scount ≡ sys.scount
  pub elsewhere : (q : ℕ) → q ≢ sys.readylist → later q ≡ view q

pub All-change :
    (P : ℕ → Type 0) (view : ℕ → List ℕ) (q : ℕ) (xs : List ℕ) (r : ℕ)
    → All P xs
    → All P (view r)
    → All P (change view q xs r)
All-change P view q xs r here there = elim (same_or_not q r) [
  | inl e ↦ subst (All P) (sym (change_self view q xs) ∙ ap (change view q xs) e) here
  | inr ne ↦ subst (All P) (sym (change_ne view q xs r ne)) there
]

pub upd-live :
    (f : ℕ → ℕ) (a v : ℕ) (ns : List ℕ)
    → v ≢ 0
    → All (λ x. f x ≢ 0) ns
    → All (λ x. upd f a v x ≢ 0) ns
upd-live f a v [] h l = tt
upd-live f a v (n ∷ ns) h l = (ground (arith, h, l.0), upd-live f a v ns h l.1)

pub set_state-IsOrdered :
    (n : ℕ) (sys : System) (view : ℕ → List ℕ) (p state : ℕ)
    → IsOrdered n sys view
    → state ≢ 0
    → IsOrdered n (set_state sys p state) view
set_state-IsOrdered n sys view p state o h = record {
  high = o.high;
  represents = o.represents;
  ready_head = o.ready_head;
  live = λ r hr. upd-live sys.prstate p state (view r) h (o.live r hr);
  no_defers = o.no_defers;
  prio_size = o.prio_size;
}

sign_extend-minkey : (prio : ℕ) → prio < 2 ^ 16 → sle (sign_extend prio) minkey ≡ false
sign_extend-minkey prio h = elim (Bool-cases (ltb prio (2 ^ 15))) [
  | inl small ↦ rw small (ground (arith, small))
  | inr large ↦ rw large (ground (arith, large, h))
]

-- A process that waits nowhere goes to its place in the ready list.
pub insert_ready-IsOrdered :
    (n : ℕ) (sys : System) (view : ℕ → List ℕ) (p : ℕ)
    → IsOrdered n sys view
    → IsPid p
    → ((r : ℕ) → IsHead n r → Apart p (view r))
    → sys.prstate p ≢ pr_free
    → (before : List ℕ) × (behind : List ℕ) × (queues : QueueTab) × (insert_ready p sys
        ≡ some (record sys { queues = queues }))
      × (view sys.readylist ≡ before ++ behind)
      × IsOrdered n
          (record sys { queues = queues })
          (change view sys.readylist (before ++ (p ∷ behind)))
unfolding insert_ready
insert_ready-IsOrdered n sys view p o pid free alive =
    let good : isbadpid sys p ≡ false = ground (arith, pid, alive) in
    let (before, behind, queues, place, done, v, _) =
      insert-Represents n sys.queues view sys.readylist p (sign_extend (sys.prprio p))
        (isbadpid sys) o.high o.represents o.ready_head good pid free
        (sign_extend-minkey (sys.prprio p) (o.prio_size p)) in
    let lives =
      All-split (λ x. sys.prstate x ≢ pr_free) before behind
        (subst (All (λ x. sys.prstate x ≢ pr_free)) place.whole
          (o.live sys.readylist o.ready_head)) in
    (
      before,
      behind,
      queues,
      ap (λ m. m >>= λ after. some (record sys { queues = or_same sys.queues after })) done,
      place.whole,
      record {
        high = o.high;
        represents = v;
        ready_head = o.ready_head;
        live = λ r hr.
            All-change (λ x. sys.prstate x ≢ pr_free) view sys.readylist (before ++ (p ∷ behind)) r
              (All-append (λ x. sys.prstate x ≢ pr_free) before (p ∷ behind) lives.0
                (alive, lives.1))
              (o.live r hr);
        no_defers = o.no_defers;
        prio_size = o.prio_size;
      },
    )

-- The first ready process becomes the current one.
pub switch-Stepped :
    (n : ℕ) (sys : System) (view : ℕ → List ℕ) (x : ℕ) (xs : List ℕ)
    → IsOrdered n sys view
    → view sys.readylist ≡ x ∷ xs
    → (after : System) × (switch sys ≡ some after)
      × Stepped n sys view after (change view sys.readylist xs)
unfolding switch
switch-Stepped n sys view x xs o here =
    let (queues, done, v) =
      dequeue-Represents n sys.queues view sys.readylist o.high o.represents o.ready_head in
    let taken : dequeue sys.readylist sys.queues ≡ some (some x, queues) =
      done ∙ ap (λ l. some ((front l).0, queues)) here in
    let after = record (set_state sys x pr_curr) { queues = queues; currpid = x; preempt = 2 } in
    let lives =
      subst (All (λ y. sys.prstate y ≢ pr_free)) here (o.live sys.readylist o.ready_head) in
    let queue =
      subst (IsQueue sys.queues sys.readylist) here
        (o.represents.queue sys.readylist o.ready_head) in
    (
      after,
      rw taken refl,
      record {
        ordered = record {
          high = o.high;
          represents =
              subst (λ l. Represents n queues (change view sys.readylist (front l).1)) here v;
          ready_head = o.ready_head;
          live = λ r hr.
              upd-live sys.prstate x pr_curr (change view sys.readylist xs r)
                (λ e. absurd (omega (arith, e)))
                (All-change (λ y. sys.prstate y ≢ pr_free) view sys.readylist xs r lives.1
                  (o.live r hr));
          no_defers = o.no_defers;
          prio_size = o.prio_size;
        };
        current = record {
          pid = queue.pids.0;
          state = upd_self sys.prstate x pr_curr;
          apart = taken-free n sys.queues view sys.readylist x xs o.represents o.ready_head here;
        };
        readylist = refl;
        squeue = refl;
        scount = refl;
        elsewhere = λ q ne. change_ne view sys.readylist xs q (λ e. ne (sym e));
      },
    )
