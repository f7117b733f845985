-- ===== src/Kernel/Queue/Priority.antt =====
-- `insert` of system/insert.c on the view of the table: a queue ordered by falling keys.
use internetworking_nat_box.Base.{
  ℕ, zero, suc, ◌≤◌, ◌<◌, ◌≡◌, refl, ap, ◌∙◌, inl, inr, Bool, true, false, some, List, [], ◌∷◌,
  ◌++◌, arith, Bool-cases, length, get_or, take, All,
}
use mathlib.Core.Path.{subst}
use internetworking_nat_box.Kernel.Queue.{
  QueueTab, nqent, minkey, queuetail, firstid, sle, link_in, find_below, set_key, insert,
}
use internetworking_nat_box.Kernel.Queue.Chain.{Apart, IsChain, upd_self, upd_ne}
use internetworking_nat_box.Kernel.Queue.Represents.{
  IsHead, nodes, IsPid, IsQueue, Represents, change,
}
use internetworking_nat_box.Kernel.Queue.Steps.{gap, put-Represents}
use internetworking_nat_box.Kernel.Queue.Fifo.{Gap-links, head-isbadqid}
use internetworking_nat_box.Kernel.Queue.Bound.{length-view}

-- The first node of a queue behind some processes.
abbrev first_node : List ℕ → ℕ → ℕ
first_node [] tail = tail
first_node (y ∷ ys) tail = y

-- Where a key belongs: behind the processes of at least this key, before the first of a lower one.
pub record IsPlace (tab : QueueTab) (key : ℕ) (xs front back : List ℕ) : Type 0 where
  pub whole : xs ≡ front ++ back
  pub at_least : All (λ x. sle key (tab.qkey x) ≡ true) front
  pub lower : All (λ x. sle key (tab.qkey x) ≡ false) (take 1 back)

-- The loop stops at the place, at the latest at the tail.
find_below-IsPlace :
    (rounds : ℕ) (tab : QueueTab) (key tail u : ℕ) (xs : List ℕ)
    → length xs < rounds
    → sle key (tab.qkey tail) ≡ false
    → IsChain tab (u ∷ xs ++ (tail ∷ []))
    → (front : List ℕ) × (back : List ℕ) × IsPlace tab key xs front back
      × (find_below rounds tab key (tab.qnext u) ≡ some (first_node back tail))
unfolding find_below
find_below-IsPlace zero tab key tail u xs h stop c = absurd (omega arith)
find_below-IsPlace (suc rounds) tab key tail u [] h stop c =
    ([], [], record { whole = refl; at_least = tt; lower = tt }, rw (c.0.0, stop) refl)
find_below-IsPlace (suc rounds) tab key tail u (x ∷ xs) h stop c =
    elim (Bool-cases (sle key (tab.qkey x))) [
      | inl up ↦
          let (front, back, place, found) =
            find_below-IsPlace rounds tab key tail x xs (omega arith) stop c.1 in
          (
            x ∷ front,
            back,
            record {
              whole = ap (λ l. x ∷ l) place.whole;
              at_least = (up, place.at_least);
              lower = place.lower;
            },
            rw (c.0.0, up) found,
          )
      | inr down ↦ (
        [],
        x ∷ xs,
        record { whole = refl; at_least = tt; lower = (down, tt) },
        rw (c.0.0, down) refl,
      )
    ]

-- The key of a process is no link, and no key of a head or a tail.
set_key-Represents :
    (n : ℕ) (tab : QueueTab) (view : ℕ → List ℕ) (p key : ℕ)
    → Represents n tab view
    → IsPid p
    → Represents n (set_key tab p key) view
set_key-Represents n tab view p key v pid = record {
  queue = λ r hr.
      let before = v.queue r hr in
      record {
        chain = same-IsChain (nodes r (view r)) before.chain;
        pids = before.pids;
        distinct = before.distinct;
        head_key =
            upd_ne tab.qkey p key r (λ e. absurd (omega (arith, pid, hr.low, e))) ∙ before.head_key;
        tail_key =
            upd_ne tab.qkey p key (queuetail r) (λ e. absurd (omega (arith, pid, hr.low, e)))
            ∙ before.tail_key;
      };
  one_queue = v.one_queue;
}
  where
    same-IsChain : (ns : List ℕ) → IsChain tab ns → IsChain (set_key tab p key) ns
    same-IsChain [] c = tt
    same-IsChain (x ∷ []) c = tt
    same-IsChain (x ∷ y ∷ ns) c = (c.0, same-IsChain (y ∷ ns) c.1)

first_node-right :
    (ys : List ℕ) (t v : ℕ) (r : List ℕ) → ys ++ (t ∷ []) ≡ v ∷ r → first_node ys t ≡ v
first_node-right [] t v r e = ap (λ l. get_or l 0 0) e
first_node-right (y ∷ ys) t v r e = ap (λ l. get_or l 0 0) e

-- `insert` ends, and puts a process that waits nowhere behind all processes of the queue whose keys
-- are at least its own, and before the first of a lower key; it gives the process its key and
-- changes no other queue. The key is above the least 32-bit number, which is the key of a tail.
pub insert-Represents :
    (n : ℕ) (tab : QueueTab) (view : ℕ → List ℕ) (q pid key : ℕ) (bad : ℕ → Bool)
    → n ≤ nqent
    → Represents n tab view
    → IsHead n q
    → bad pid ≡ false
    → IsPid pid
    → ((r : ℕ) → IsHead n r → Apart pid (view r))
    → sle key minkey ≡ false
    → (front : List ℕ) × (back : List ℕ) × (after : QueueTab) × IsPlace tab key (view q) front back
      × (insert bad pid q key tab ≡ some (some after))
      × Represents n after (change view q (front ++ (pid ∷ back)))
      × (after.qkey pid ≡ key)
unfolding insert link_in
insert-Represents n tab view q pid key bad le v head good small free above =
    let queue = v.queue q head in
    let size = length-view n tab view q v head in
    let stop : sle key (tab.qkey (queuetail q)) ≡ false = ap (sle key) queue.tail_key ∙ above in
    let (front, back, place, found) =
      find_below-IsPlace nqent tab key (queuetail q) q (view q) (omega (arith, size)) stop
        queue.chain in
    let g = gap q front back in
    let links = Gap-links tab q front back g (subst (IsQueue tab q) place.whole queue) in
    let curr : first_node back (queuetail q) ≡ g.v =
      first_node-right back (queuetail q) g.v g.r g.right in
    let found_v : find_below nqent tab key (firstid tab q) ≡ some g.v = found ∙ ap some curr in
    (
      front,
      back,
      set_key (link_in tab g.u pid g.v) pid key,
      place,
      rw (head-isbadqid n q head le, good, found_v)
          (ap (λ a. some (some (set_key (link_in tab a pid g.v) pid key))) links.1),
      set_key-Represents n (link_in tab g.u pid g.v) (change view q (front ++ (pid ∷ back))) pid key
          (put-Represents n tab view q front back v head g pid place.whole small free) small,
      upd_self tab.qkey pid key,
    )
