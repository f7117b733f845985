-- ===== src/Kernel/Queue/New.antt =====
-- `newqueue` of system/newqueue.c on the view of the table.
use internetworking_nat_box.Base.{
  ℕ, suc, ◌+◌, ◌%◌, ◌≤◌, ◌<◌, ◌≡◌, refl, sym, ◌∙◌, ◌≢◌, inl, inr, false, some, List, [], ◌∷◌, arith,
  leb, All, All-append,
}
use mathlib.Core.Path.{subst}
use internetworking_nat_box.Kernel.Queue.{
  QueueTab, nproc, nqent, queuetail, upd, newqueue, empty, maxkey, minkey,
}
use internetworking_nat_box.Kernel.Queue.Chain.{Apart, upd_self, upd_ne}
use internetworking_nat_box.Kernel.Queue.Splice.{upd-upd-Apart, IsChain-same}
use internetworking_nat_box.Kernel.Queue.Represents.{
  IsHead, nodes, IsPid, IsQueue, Represents, change, change_self, change_ne, same_or_not, Disjoint,
  Disjoint-sym, Apart-pids,
}

-- A view in which no queue was made.
pub no_queue-Represents : (tab : QueueTab) (view : ℕ → List ℕ) → Represents nproc tab view
no_queue-Represents tab view = record {
  queue = λ q h. absurd (omega (arith, h.low, h.high));
  one_queue = λ q r h k ne. absurd (omega (arith, h.low, h.high));
}

-- What is behind all queues that were made is none of their nodes.
behind-Apart :
    (n r i : ℕ) (xs : List ℕ) → IsHead n r → n % 2 ≡ 0 → n ≤ i → All IsPid xs → Apart i (nodes r xs)
behind-Apart n r i xs h even le pids = (
  (λ e. absurd (omega (arith, h.high, e))),
  All-append (λ j. i ≢ j) xs (queuetail r ∷ [])
      (Apart-pids i xs (omega (arith, h.low, h.high)) pids)
      ((λ e. absurd (omega (arith, h.high, h.even, e))), tt),
)

-- The heads after a new queue are the old ones and the new one.
old-IsHead : (n r : ℕ) → n % 2 ≡ 0 → n ≢ r → IsHead (n + 2) r → IsHead n r
old-IsHead n r even ne h = record {
  low = h.low;
  high = ground (arith, h.high, h.even);
  even = h.even;
}

-- `newqueue` makes an empty queue where the table has room, and leaves the queues that there are.
-- The next free index is even, as the first one is.
pub newqueue-Represents :
    (n : ℕ) (tab : QueueTab) (view : ℕ → List ℕ)
    → nproc ≤ n
    → n < nqent
    → n % 2 ≡ 0
    → Represents n tab view
    → (after : QueueTab) × (newqueue n tab ≡ some (n, n + 2, after))
      × Represents (n + 2) after (change view n [])
unfolding newqueue
newqueue-Represents n tab view low room even v =
    (after, rw full refl, record { queue = queue_after; one_queue = disjoint_after })
  where
    full : leb nqent n ≡ false
    full = ground (arith, room)

    after : QueueTab
    after = record {
      qnext = upd (upd tab.qnext n (queuetail n)) (queuetail n) empty;
      qprev = upd (upd tab.qprev n empty) (queuetail n) n;
      qkey = upd (upd tab.qkey n maxkey) (queuetail n) minkey;
    }

    other : suc n ≢ n
    other e = absurd (omega (arith, e))

    new_queue : IsQueue after n []
    new_queue = record {
      chain = (
        (
          upd_ne (upd tab.qnext n (queuetail n)) (queuetail n) empty n other
              ∙ upd_self tab.qnext n (queuetail n),
          upd_self (upd tab.qprev n empty) (queuetail n) n,
        ),
        tt,
      );
      pids = tt;
      distinct = tt;
      head_key =
          upd_ne (upd tab.qkey n maxkey) (queuetail n) minkey n other ∙ upd_self tab.qkey n maxkey;
      tail_key = upd_self (upd tab.qkey n maxkey) (queuetail n) minkey;
    }

    old_queue : (r : ℕ) → IsHead n r → IsQueue after r (view r)
    old_queue r h =
        let before = v.queue r h in
        let at = behind-Apart n r n (view r) h even (omega arith) before.pids in
        let behind = behind-Apart n r (suc n) (view r) h even (omega arith) before.pids in
        record {
          chain =
              IsChain-same tab after (nodes r (view r))
                (upd-upd-Apart tab.qnext n (queuetail n) (queuetail n) empty (nodes r (view r)) at
                  behind)
                (upd-upd-Apart tab.qprev n empty (queuetail n) n (nodes r (view r)) at behind)
                before.chain;
          pids = before.pids;
          distinct = before.distinct;
          head_key =
              upd_ne (upd tab.qkey n maxkey) (queuetail n) minkey r behind.0
              ∙ upd_ne tab.qkey n maxkey r at.0
              ∙ before.head_key;
          tail_key =
              upd_ne (upd tab.qkey n maxkey) (queuetail n) minkey (suc r)
                (λ e. at.0 (omega (arith, e)))
              ∙ upd_ne tab.qkey n maxkey (suc r) (λ e. absurd (omega (arith, h.high, h.even, e)))
              ∙ before.tail_key;
        }

    queue_after : (r : ℕ) → IsHead (n + 2) r → IsQueue after r (change view n [] r)
    queue_after r h = elim (same_or_not n r) [
      | inl e ↦
          subst (λ s. IsQueue after s (change view n [] s)) e
            (subst (IsQueue after n) (sym (change_self view n [])) new_queue)
      | inr ne ↦
          subst (IsQueue after r) (sym (change_ne view n [] r ne))
            (old_queue r (old-IsHead n r even ne h))
    ]

    none_in : (b : ℕ) → Disjoint (change view n [] n) (change view n [] b)
    none_in b = subst (λ l. Disjoint l (change view n [] b)) (sym (change_self view n [])) tt

    disjoint_after :
        (a b : ℕ)
        → IsHead (n + 2) a
        → IsHead (n + 2) b
        → a ≢ b
        → Disjoint (change view n [] a) (change view n [] b)
    disjoint_after a b ha hb ne = elim (same_or_not n a) [
      | inl e ↦ subst (λ c. Disjoint (change view n [] c) (change view n [] b)) e (none_in b)
      | inr n_a ↦ elim (same_or_not n b) [
        | inl e ↦
            Disjoint-sym (change view n [] b) (change view n [] a)
              (subst (λ c. Disjoint (change view n [] c) (change view n [] a)) e (none_in a))
        | inr n_b ↦
            subst (λ l. Disjoint l (change view n [] b)) (sym (change_ne view n [] a n_a))
              (subst (Disjoint (view a)) (sym (change_ne view n [] b n_b))
                (v.one_queue a b (old-IsHead n a even n_a ha) (old-IsHead n b even n_b hb) ne))
      ]
    ]
