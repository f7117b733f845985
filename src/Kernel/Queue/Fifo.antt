-- ===== src/Kernel/Queue/Fifo.antt =====
-- `enqueue`, `dequeue` and `newqueue` on the view of the table: a queue is first in, first out.
use internetworking_nat_box.Base.{
  ℕ, suc, ◌≤◌, ◌<◌, ◌≡◌, refl, sym, ap, ap₂, ◌∙◌, inl, inr, Bool, true, false, Option, none, some,
  List, [], ◌∷◌, ◌++◌, arith, get_or,
}
use mathlib.Core.List.{append-nil}
use mathlib.Core.Path.{subst}
use internetworking_nat_box.Kernel.Queue.{
  QueueTab, nproc, nqent, queuetail, isempty, firstid, isbadqid, link_in, getitem, getfirst,
  enqueue, dequeue, clear_links, empty,
}
use internetworking_nat_box.Kernel.Queue.Chain.{Apart, IsChain, IsChain-cut}
use internetworking_nat_box.Kernel.Queue.Splice.{upd-Apart, IsChain-same}
use internetworking_nat_box.Kernel.Queue.Represents.{
  IsHead, nodes, IsPid, IsQueue, Disjoint, Represents, change, change_self, change_ne, same_or_not,
  Apart-nodes, Represents-change,
}
use internetworking_nat_box.Kernel.Queue.Steps.{
  Gap, gap, Gap-nodes, put-Represents, take-Represents,
}

-- The nodes beside a place point at each other.
pub Gap-links :
    (tab : QueueTab) (q : ℕ) (xs ys : List ℕ) (g : Gap q xs ys)
    → IsQueue tab q (xs ++ ys)
    → (tab.qnext g.u ≡ g.v) × (tab.qprev g.v ≡ g.u)
Gap-links tab q xs ys g queue =
    (IsChain-cut tab g.l g.u (g.v ∷ g.r)
      (subst (IsChain tab) (Gap-nodes q xs [] ys g) queue.chain)).1.0

pub head-isbadqid : (n q : ℕ) → IsHead n q → n ≤ nqent → isbadqid q ≡ false
head-isbadqid n q h le = ground (arith, h.low, h.high, h.even)

-- `enqueue` puts a process that waits nowhere at the end of the queue, and changes no other queue.
pub enqueue-Represents :
    (n : ℕ) (tab : QueueTab) (view : ℕ → List ℕ) (q pid : ℕ) (bad : ℕ → Bool)
    → n ≤ nqent
    → Represents n tab view
    → IsHead n q
    → bad pid ≡ false
    → IsPid pid
    → ((r : ℕ) → IsHead n r → Apart pid (view r))
    → (after : QueueTab) × (enqueue bad pid q tab ≡ some after)
      × Represents n after (change view q (view q ++ (pid ∷ [])))
unfolding enqueue
enqueue-Represents n tab view q pid bad le v head good small free =
    let g = gap q (view q) [] in
    let whole : view q ≡ view q ++ [] = sym (append-nil (view q)) in
    let links = Gap-links tab q (view q) [] g (subst (IsQueue tab q) whole (v.queue q head)) in
    let tail : queuetail q ≡ g.v = ap (λ l. get_or l 0 0) g.right in
    let prev : tab.qprev (queuetail q) ≡ g.u = ap tab.qprev tail ∙ links.1 in
    let same : link_in tab (tab.qprev (queuetail q)) pid (queuetail q) ≡ link_in tab g.u pid g.v =
      ap₂ (λ a b. link_in tab a pid b) prev tail in
    (
      link_in tab g.u pid g.v,
      rw (head-isbadqid n q head le, good) (ap some same),
      put-Represents n tab view q (view q) [] v head g pid whole small free,
    )

nonempty-first :
    (tab : QueueTab) (q x : ℕ) (xs : List ℕ)
    → IsQueue tab q (x ∷ xs)
    → (firstid tab q ≡ x) × (isempty tab q ≡ false)
nonempty-first tab q x xs queue =
    let first : tab.qnext q ≡ x = queue.chain.0.0 in
    let small : x < nproc = queue.pids.0 in (first, rw first (ground (arith, small)))

empty-isempty :
    (tab : QueueTab) (n q : ℕ) → IsHead n q → n ≤ nqent → IsQueue tab q [] → isempty tab q ≡ true
empty-isempty tab n q head le queue =
    let first : tab.qnext q ≡ suc q = queue.chain.0.0 in
    rw first (ground (arith, head.low, head.high))

-- Clearing the links of a process that waits nowhere.
clear_links-Represents :
    (n : ℕ) (tab : QueueTab) (view : ℕ → List ℕ) (x : ℕ)
    → Represents n tab view
    → IsPid x
    → ((r : ℕ) → IsHead n r → Apart x (view r))
    → Represents n (clear_links tab (some x)) view
clear_links-Represents n tab view x v pid free = record {
  queue = λ r hr.
      let before = v.queue r hr in
      let apart = Apart-nodes x r (view r) pid hr.low (free r hr) in
      record {
        chain =
            IsChain-same tab (clear_links tab (some x)) (nodes r (view r))
              (upd-Apart tab.qnext x empty (nodes r (view r)) apart)
              (upd-Apart tab.qprev x empty (nodes r (view r)) apart) before.chain;
        pids = before.pids;
        distinct = before.distinct;
        head_key = before.head_key;
        tail_key = before.tail_key;
      };
  one_queue = v.one_queue;
}

-- The first of a list, and the rest.
abbrev pub front : List ℕ → Option ℕ × List ℕ
front [] = (none, [])
front (x ∷ xs) = (some x, xs)

-- A process taken from the front of its queue waits nowhere.
pub taken-free :
    (n : ℕ) (tab : QueueTab) (view : ℕ → List ℕ) (q x : ℕ) (xs : List ℕ)
    → Represents n tab view
    → IsHead n q
    → view q ≡ x ∷ xs
    → (r : ℕ) → IsHead n r
    → Apart x (change view q xs r)
taken-free n tab view q x xs v head here r hr = elim (same_or_not q r) [
  | inl e ↦
      subst (Apart x) (sym (change_self view q xs) ∙ ap (change view q xs) e)
        (subst (IsQueue tab q) here (v.queue q head)).distinct.0
  | inr ne ↦
      subst (Apart x) (sym (change_ne view q xs r ne))
        (subst (λ l. Disjoint l (view r)) here (v.one_queue q r head hr ne)).0
]

-- `dequeue` takes the process at the front of the queue, or reports EMPTY where there is none, and
-- changes no other queue.
pub dequeue-Represents :
    (n : ℕ) (tab : QueueTab) (view : ℕ → List ℕ) (q : ℕ)
    → n ≤ nqent
    → Represents n tab view
    → IsHead n q
    → (after : QueueTab) × (dequeue q tab ≡ some ((front (view q)).0, after))
      × Represents n after (change view q (front (view q)).1)
unfolding dequeue getfirst
dequeue-Represents n tab view q le v head = go (view q) refl
  where
    go :
        (xs : List ℕ)
        → view q ≡ xs
        → (after : QueueTab) × (dequeue q tab ≡ some ((front xs).0, after))
          × Represents n after (change view q (front xs).1)
    go [] here =
        let queue = subst (IsQueue tab q) here (v.queue q head) in
        (
          tab,
          rw (head-isbadqid n q head le, empty-isempty tab n q head le queue) refl,
          Represents-change n tab tab view q [] v head queue (λ r hr ne. v.queue r hr)
              (λ r hr ne. tt),
        )
    go (x ∷ xs) here =
        let queue = subst (IsQueue tab q) here (v.queue q head) in
        let (first, full) = nonempty-first tab q x xs queue in
        (
          clear_links (getitem tab x) (some x),
          rw (head-isbadqid n q head le, full, first) refl,
          clear_links-Represents n (getitem tab x) (change view q xs) x
              (take-Represents n tab view q [] xs v head (gap q [] xs) x here) queue.pids.0
              (taken-free n tab view q x xs v head here),
        )
