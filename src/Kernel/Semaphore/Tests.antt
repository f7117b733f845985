-- ===== src/Kernel/Semaphore/Tests.antt =====
-- A semaphore with the count 0, a current and a ready process.
use internetworking_nat_box.Base.{
  ℕ, suc, ◌+◌, ◌-◌, ◌*◌, ◌%◌, ◌≡◌, refl, sym, ap, ◌∙◌, ◌≢◌, inl, inr, true, false, some, List, [],
  ◌∷◌, arith, ◌==◌, if◌then◌else◌, length, All,
}
use mathlib.Core.Path.{subst}
use internetworking_nat_box.Kernel.Queue.{QueueTab, maxkey, minkey}
use internetworking_nat_box.Kernel.Queue.Represents.{
  IsHead, IsQueue, Disjoint, Represents, same_or_not,
}
use internetworking_nat_box.Kernel.Process.{System}
use internetworking_nat_box.Kernel.Semaphore.{wait}
use internetworking_nat_box.Kernel.Semaphore.Counts.{IsSystem}
use internetworking_nat_box.Kernel.Semaphore.Calls.{waits, sem_call-IsSystem}

-- All queues are empty but the ready list, at 300, in which the process 7 is.
abbrev table : QueueTab
table = record {
  qkey = λ i. if i % 2 == 0 then maxkey else minkey;
  qnext = λ i. if 300 == i then 7 else if 7 == i then 301 else suc i;
  qprev = λ i. if 301 == i then 7 else if 7 == i then 300 else i - 1;
}

abbrev lists : ℕ → List ℕ
lists q = if 300 == q then 7 ∷ [] else []

abbrev system : System
system = record {
  queues = table;
  prstate = λ p. if 3 == p then 1 else 2;
  prprio = λ p. 20;
  prsem = λ p. 0;
  prmsg = λ p. 0;
  prhasmsg = λ p. 0;
  currpid = 3;
  readylist = 300;
  sleepq = 302;
  ndefers = 0;
  attempt = false;
  preempt = 2;
  sstate = λ s. 1;
  scount = λ s. 0;
  squeue = λ s. 100 + s * 2;
  nextsem = 0;
}

lists-other : (q : ℕ) → 300 ≢ q → lists q ≡ []
lists-other q ne = ground arith

IsQueue-other : (q : ℕ) → IsHead 304 q → 300 ≢ q → IsQueue table q []
IsQueue-other q h ne = record {
  chain = ((ground (arith, h.low), ground (arith, h.low)), tt);
  pids = tt;
  distinct = tt;
  head_key = ground (arith, h.even);
  tail_key = ground (arith, h.even);
}

IsQueue-ready : IsQueue table 300 (7 ∷ [])
IsQueue-ready = record {
  chain = ((refl, refl), ((refl, refl), tt));
  pids = (omega arith, tt);
  distinct = (tt, tt);
  head_key = refl;
  tail_key = refl;
}

table-Represents : Represents 304 table lists
table-Represents = record {
  queue = λ q h. elim (same_or_not 300 q) [
    | inl e ↦ subst (λ r. IsQueue table r (lists r)) e IsQueue-ready
    | inr ne ↦ subst (IsQueue table q) (sym (lists-other q ne)) (IsQueue-other q h ne)
  ];
  one_queue = λ q r h k ne. elim (same_or_not 300 q) [
    | inl e ↦
        subst (Disjoint (lists q)) (sym (lists-other r (λ f. ne (sym e ∙ f))))
          (subst (λ x. Disjoint (lists x) []) e (tt, tt))
    | inr other ↦ subst (λ l. Disjoint l (lists r)) (sym (lists-other q other)) tt
  ];
}

lists-All : (P : ℕ → Type 0) → P 7 → (q : ℕ) → All P (lists q)
lists-All P h q = elim (same_or_not 300 q) [
  | inl e ↦ subst (λ r. All P (lists r)) e (h, tt)
  | inr ne ↦ subst (All P) (sym (lists-other q ne)) tt
]

system-IsSystem : IsSystem 304 system lists
system-IsSystem = record {
  ordered = record {
    high = omega arith;
    represents = table-Represents;
    ready_head = record { low = omega arith; high = omega arith; even = refl };
    live = λ r h. lists-All (λ x. system.prstate x ≢ 0) (λ e. absurd (omega (arith, e))) r;
    no_defers = refl;
    prio_size = λ p. omega arith;
  };
  current = record {
    pid = omega arith;
    state = refl;
    apart = λ r h. lists-All (λ x. 3 ≢ x) (λ e. absurd (omega (arith, e))) r;
  };
  counts = record {
    sem_head = λ s h. record { low = omega arith; high = omega arith; even = omega arith };
    sem_apart = λ s h e. absurd (omega (arith, h, e));
    sem_distinct = λ s t h k ne e. ne (omega (arith, e));
    counted = λ s h. ap length (lists-other (100 + s * 2) (λ e. absurd (omega (arith, h, e))));
    count_size = λ s h. omega arith;
  };
}

sem_call-IsSystem_example :
    (after : System) × (later : ℕ → List ℕ) × (wait 5 system ≡ some (true, after))
    × IsSystem 304 after later
sem_call-IsSystem_example =
    sem_call-IsSystem waits 304 system lists 5 system-IsSystem (omega arith)
      (λ e. absurd (omega (arith, e))) ((λ e. absurd (omega (arith, e))), omega arith)
