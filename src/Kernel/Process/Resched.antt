-- ===== src/Kernel/Process/Resched.antt =====
-- `resched` and `ready` end with a current process and lose none.
use internetworking_nat_box.Base.{
  ℕ, ◌≡◌, refl, sym, ap, ◌∙◌, ◌≢◌, inl, inr, true, false, some, List, [], ◌∷◌, ◌++◌, arith, ◌==◌,
  Bool-cases,
}
use mathlib.Core.Path.{subst}
use internetworking_nat_box.Kernel.Queue.{sle, firstid}
use internetworking_nat_box.Kernel.Queue.Chain.{Apart, upd_self, upd_ne}
use internetworking_nat_box.Kernel.Queue.Represents.{IsHead, IsPid, change, change_self, change_ne}
use internetworking_nat_box.Kernel.Process.{
  System, pr_free, pr_curr, pr_ready, isbadpid, is_positive, sign_extend, set_state, insert_ready,
  switch, resched, ready,
}
use internetworking_nat_box.Kernel.Process.Ordered.{
  IsOrdered, IsCurrent, Stepped, All-change, set_state-IsOrdered, insert_ready-IsOrdered,
  switch-Stepped,
}

some_first :
    (before : List ℕ) (p : ℕ) (behind : List ℕ)
    → (z : ℕ) × (zs : List ℕ) × (before ++ (p ∷ behind) ≡ z ∷ zs)
some_first [] p behind = (p, behind, refl)
some_first (b ∷ before) p behind = (b, before ++ (p ∷ behind), refl)

-- What `resched` does where it does not return at once.
resched-switch :
    (sys queued after : System)
    → sys.ndefers ≡ 0
    → sys.prstate sys.currpid ≡ pr_curr
    → sle
        (sign_extend (sys.prprio sys.currpid))
        (sys.queues.qkey (firstid sys.queues sys.readylist))
      ≡ true
    → insert_ready sys.currpid (set_state sys sys.currpid pr_ready) ≡ some queued
    → switch queued ≡ some after
    → resched sys ≡ some after
unfolding resched
resched-switch sys queued after no_defers state low put switched =
    let now : is_positive sys.ndefers ≡ false = ap is_positive no_defers in
    let same : (sys.prstate sys.currpid == pr_curr) ≡ true = ap (λ v. v == pr_curr) state in
    simp (now, same, low, put, switched)

resched-stay :
    (sys : System)
    → sys.ndefers ≡ 0
    → sys.prstate sys.currpid ≡ pr_curr
    → sle
        (sign_extend (sys.prprio sys.currpid))
        (sys.queues.qkey (firstid sys.queues sys.readylist))
      ≡ false
    → resched sys ≡ some sys
unfolding resched
resched-stay sys no_defers state high =
    let now : is_positive sys.ndefers ≡ false = ap is_positive no_defers in
    let same : (sys.prstate sys.currpid == pr_curr) ≡ true = ap (λ v. v == pr_curr) state in
    simp (now, same, high)

pub resched-Stepped :
    (n : ℕ) (sys : System) (view : ℕ → List ℕ)
    → IsOrdered n sys view
    → IsCurrent n sys view
    → (after : System) × (later : ℕ → List ℕ) × (resched sys ≡ some after)
      × Stepped n sys view after later
resched-Stepped n sys view o c =
    elim (Bool-cases (
      sle (sign_extend (sys.prprio sys.currpid))
        (sys.queues.qkey (firstid sys.queues sys.readylist)))) [
          | inr high ↦ (
            sys,
            view,
            resched-stay sys o.no_defers c.state high,
            record {
              ordered = o;
              current = c;
              readylist = refl;
              squeue = refl;
              scount = refl;
              elsewhere = λ q ne. refl;
            },
          )
          | inl low ↦
              let (before, behind, queues, put, here, o2) =
                insert_ready-IsOrdered n (set_state sys sys.currpid pr_ready) view sys.currpid
                  (set_state-IsOrdered n sys view sys.currpid pr_ready o
                    (λ e. absurd (omega (arith, e))))
                  c.pid c.apart
                  (λ e. absurd (omega (arith, e, upd_self sys.prstate sys.currpid pr_ready))) in
              let mid = change view sys.readylist (before ++ (sys.currpid ∷ behind)) in
              let (z, zs, first) = some_first before sys.currpid behind in
              let queued = record (set_state sys sys.currpid pr_ready) { queues = queues } in
              let (after, switched, t) =
                switch-Stepped n queued mid z zs o2 (change_self view sys.readylist _ ∙ first) in
              (
                after,
                change mid sys.readylist zs,
                resched-switch sys queued after o.no_defers c.state low put switched,
                record {
                  ordered = t.ordered;
                  current = t.current;
                  readylist = t.readylist;
                  squeue = t.squeue;
                  scount = t.scount;
                  elsewhere = λ q ne.
                      t.elsewhere q ne
                      ∙ change_ne view sys.readylist (before ++ (sys.currpid ∷ behind)) q
                          (λ e. ne (sym e));
                },
              )
        ]

ready-queued :
    (p : ℕ) (sys queued after : System)
    → isbadpid sys p ≡ false
    → insert_ready p (set_state sys p pr_ready) ≡ some queued
    → resched queued ≡ some after
    → ready p sys ≡ some after
unfolding ready
ready-queued p sys queued after good put next = simp (good, put, next)

-- A process that waits nowhere is made ready, and the scheduler picks a current process.
pub ready-Stepped :
    (n : ℕ) (sys : System) (view : ℕ → List ℕ) (p : ℕ)
    → IsOrdered n sys view
    → IsCurrent n sys view
    → IsPid p
    → ((r : ℕ) → IsHead n r → Apart p (view r))
    → sys.prstate p ≢ pr_free
    → p ≢ sys.currpid
    → (after : System) × (later : ℕ → List ℕ) × (ready p sys ≡ some after)
      × Stepped n sys view after later
ready-Stepped n sys view p o c pid free alive other =
    let (before, behind, queues, put, here, o2) =
      insert_ready-IsOrdered n (set_state sys p pr_ready) view p
        (set_state-IsOrdered n sys view p pr_ready o (λ e. absurd (omega (arith, e)))) pid free
        (λ e. absurd (omega (arith, e, upd_self sys.prstate p pr_ready))) in
    let mid = change view sys.readylist (before ++ (p ∷ behind)) in
    let queued = record (set_state sys p pr_ready) { queues = queues } in
    let lists : (r : ℕ) → IsHead n r → Apart sys.currpid (mid r) = λ r hr.
      All-change (λ i. sys.currpid ≢ i) view sys.readylist (before ++ (p ∷ behind)) r
        (put_Apart before behind
          (subst (Apart sys.currpid) here (c.apart sys.readylist o.ready_head)))
        (c.apart r hr) in
    let (after, later, next, t) = resched-Stepped n queued mid o2 (record {
      pid = c.pid;
      state = upd_ne sys.prstate p pr_ready sys.currpid other ∙ c.state;
      apart = lists;
    }) in
    let good : isbadpid sys p ≡ false = ground (arith, pid, alive) in
    (
      after,
      later,
      ready-queued p sys queued after good put next,
      record {
        ordered = t.ordered;
        current = t.current;
        readylist = t.readylist;
        squeue = t.squeue;
        scount = t.scount;
        elsewhere = λ q ne.
            t.elsewhere q ne
            ∙ change_ne view sys.readylist (before ++ (p ∷ behind)) q (λ e. ne (sym e));
      },
    )
  where
    put_Apart :
        (before behind : List ℕ)
        → Apart sys.currpid (before ++ behind)
        → Apart sys.currpid (before ++ (p ∷ behind))
    put_Apart [] behind a = ((λ e. other (sym e)), a)
    put_Apart (b ∷ before) behind a = (a.0, put_Apart before behind a.1)
