-- ===== src/Kernel/Semaphore/Counts.antt =====
-- What a semaphore's count says of its queue, and the invariant of a running system.
use internetworking_nat_box.Base.{
  ℕ, suc, ◌-◌, ◌^◌, ◌<◌, ◌≡◌, sym, ap, ◌∙◌, ◌≢◌, inl, inr, true, false, List, arith, if◌then◌else◌,
  length,
}
use mathlib.Core.Path.{subst}
use internetworking_nat_box.Kernel.Queue.{upd}
use internetworking_nat_box.Kernel.Queue.Chain.{upd_self, upd_ne}
use internetworking_nat_box.Kernel.Queue.Represents.{IsHead, same_or_not}
use internetworking_nat_box.Kernel.Process.{System, is_negative}
use internetworking_nat_box.Kernel.Process.Ordered.{IsOrdered, IsCurrent, Stepped}
use internetworking_nat_box.Kernel.Semaphore.{nsem, count_down, count_up}

-- The number of processes that wait on a semaphore with this count.
abbrev pub waiting : ℕ → ℕ
waiting count = if is_negative count then 2 ^ 32 - count else 0

-- Each semaphore has a queue of its own, and as many processes wait in it as its count is below 0.
pub record IsCounted (n : ℕ) (sys : System) (view : ℕ → List ℕ) : Type 0 where
  pub sem_head : (s : ℕ) → s < nsem → IsHead n (sys.squeue s)
  pub sem_apart : (s : ℕ) → s < nsem → sys.squeue s ≢ sys.readylist
  pub sem_distinct : (s t : ℕ) → s < nsem → t < nsem → s ≢ t → sys.squeue s ≢ sys.squeue t
  pub counted : (s : ℕ) → s < nsem → length (view (sys.squeue s)) ≡ waiting (sys.scount s)
  pub count_size : (s : ℕ) → s < nsem → sys.scount s < 2 ^ 32

-- The queues, the current process and the semaphores of a running system.
pub record IsSystem (n : ℕ) (sys : System) (view : ℕ → List ℕ) : Type 0 where
  pub ordered : IsOrdered n sys view
  pub current : IsCurrent n sys view
  pub counts : IsCounted n sys view

pub IsCounted-Stepped :
    (n : ℕ) (sys after : System) (view later : ℕ → List ℕ)
    → IsCounted n sys view
    → Stepped n sys view after later
    → IsCounted n after later
IsCounted-Stepped n sys after view later k t = record {
  sem_head = λ s h. subst (λ f. IsHead n (f s)) (sym t.squeue) (k.sem_head s h);
  sem_apart = λ s h e. k.sem_apart s h (ap (λ f. f s) (sym t.squeue) ∙ e ∙ t.readylist);
  sem_distinct = λ s r hs hr ne e.
      k.sem_distinct s r hs hr ne (ap (λ f. f s) (sym t.squeue) ∙ e ∙ ap (λ f. f r) t.squeue);
  counted = λ s h.
      ap (λ f. length (later (f s))) t.squeue
      ∙ ap length (t.elsewhere (sys.squeue s) (k.sem_apart s h))
      ∙ k.counted s h
      ∙ ap (λ f. waiting (f s)) (sym t.scount);
  count_size = λ s h. subst (λ f. f s < 2 ^ 32) (sym t.scount) (k.count_size s h);
}

-- One count and one queue changed together.
pub recount-IsCounted :
    (n : ℕ) (sys after : System) (view later : ℕ → List ℕ) (s count : ℕ)
    → IsCounted n sys view
    → s < nsem
    → count < 2 ^ 32
    → after.readylist ≡ sys.readylist
    → after.squeue ≡ sys.squeue
    → after.scount ≡ upd sys.scount s count
    → length (later (sys.squeue s)) ≡ waiting count
    → ((q : ℕ) → q ≢ sys.squeue s → later q ≡ view q)
    → IsCounted n after later
recount-IsCounted n sys after view later s count k exists small list queue counts own others =
    record {
      sem_head = λ t h. subst (λ f. IsHead n (f t)) (sym queue) (k.sem_head t h);
      sem_apart = λ t h e. k.sem_apart t h (ap (λ f. f t) (sym queue) ∙ e ∙ list);
      sem_distinct = λ t r ht hr ne e.
          k.sem_distinct t r ht hr ne (ap (λ f. f t) (sym queue) ∙ e ∙ ap (λ f. f r) queue);
      counted = λ t h.
          ap (λ f. length (later (f t))) queue ∙ kept t h ∙ ap (λ f. waiting (f t)) (sym counts);
      count_size = λ t h. subst (λ f. f t < 2 ^ 32) (sym counts) (sized t h);
    }
  where
    kept : (t : ℕ) → t < nsem → length (later (sys.squeue t)) ≡ waiting (upd sys.scount s count t)
    kept t h = elim (same_or_not s t) [
      | inl e ↦
          subst (λ r. length (later (sys.squeue r)) ≡ waiting (upd sys.scount s count r)) e
            (own ∙ ap waiting (sym (upd_self sys.scount s count)))
      | inr ne ↦
          ap length (others (sys.squeue t) (λ e. k.sem_distinct s t exists h ne (sym e)))
          ∙ k.counted t h
          ∙ ap waiting (sym (upd_ne sys.scount s count t ne))
    ]

    sized : (t : ℕ) → t < nsem → upd sys.scount s count t < 2 ^ 32
    sized t h = ground (arith, small, k.count_size t h)

pub waiting-count_down :
    (count : ℕ)
    → count < 2 ^ 32
    → count ≢ 2 ^ 31
    → is_negative (count_down count) ≡ true
    → waiting (count_down count) ≡ suc (waiting count)
waiting-count_down count h least neg = ground arith

pub waiting-count_down_pass :
    (count : ℕ)
    → count < 2 ^ 32
    → is_negative (count_down count) ≡ false
    → count ≢ 2 ^ 31
    → waiting (count_down count) ≡ waiting count
waiting-count_down_pass count h pass least = ground arith

pub waiting-count_up :
    (count : ℕ)
    → count < 2 ^ 32
    → is_negative count ≡ true
    → waiting count ≡ suc (waiting (count_up count))
waiting-count_up count h neg = ground arith

pub waiting-count_up_none :
    (count : ℕ)
    → count < 2 ^ 32
    → count ≢ 2 ^ 31 - 1
    → is_negative count ≡ false
    → waiting (count_up count) ≡ 0
waiting-count_up_none count h most pos = ground arith
