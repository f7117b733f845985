-- ===== src/Kernel/Queue/Steps.antt =====
-- A process put into a queue and taken out of it, as steps of the view.
use internetworking_nat_box.Base.{
  ℕ, ◌≡◌, refl, sym, ap, ap₂, ◌∙◌, ◌≢◌, List, [], ◌∷◌, ◌++◌, All, All-append,
}
use mathlib.Core.List.{append_assoc}
use mathlib.Core.Path.{subst}
use internetworking_nat_box.Kernel.Queue.{QueueTab, queuetail, link_in, getitem}
use internetworking_nat_box.Kernel.Queue.Chain.{Apart, Distinct, IsChain, IsChain-cut}
use internetworking_nat_box.Kernel.Queue.Splice.{
  All-split, link_in-IsChain, link_in-frame, getitem-IsChain, getitem-frame,
}
use internetworking_nat_box.Kernel.Queue.Represents.{
  IsHead, nodes, IsPid, IsQueue, Disjoint, Represents, change, nodes-Distinct, Apart-nodes,
  head-Apart, tail-Apart, Represents-change,
}

-- The place between `xs` and `ys` in a queue: the node before it and the one behind it.
pub record Gap (q : ℕ) (xs ys : List ℕ) : Type 0 where
  pub l : List ℕ
  pub u : ℕ
  pub v : ℕ
  pub r : List ℕ
  pub left : q ∷ xs ≡ l ++ (u ∷ [])
  pub right : ys ++ (queuetail q ∷ []) ≡ v ∷ r

last_split : (q : ℕ) (xs : List ℕ) → (l : List ℕ) × (u : ℕ) × (q ∷ xs ≡ l ++ (u ∷ []))
last_split q [] = ([], q, refl)
last_split q (x ∷ xs) = let (l, u, e) = last_split x xs in (q ∷ l, u, ap (λ k. q ∷ k) e)

first_split : (ys : List ℕ) (t : ℕ) → (v : ℕ) × (r : List ℕ) × (ys ++ (t ∷ []) ≡ v ∷ r)
first_split [] t = (t, [], refl)
first_split (y ∷ ys) t = (y, ys ++ (t ∷ []), refl)

pub gap : (q : ℕ) (xs ys : List ℕ) → Gap q xs ys
gap q xs ys =
    let (l, u, left) = last_split q xs in
    let (v, r, right) = first_split ys (queuetail q) in
    record { l = l; u = u; v = v; r = r; left = left; right = right }

-- The nodes of a queue around a place, with something in it.
pub Gap-nodes :
    (q : ℕ) (xs mid ys : List ℕ) (g : Gap q xs ys)
    → nodes q (xs ++ (mid ++ ys)) ≡ g.l ++ (g.u ∷ (mid ++ (g.v ∷ g.r)))
Gap-nodes q xs mid ys g =
    let whole : nodes q (xs ++ (mid ++ ys)) ≡ (q ∷ xs) ++ (mid ++ (ys ++ (queuetail q ∷ []))) =
      ap (λ k. q ∷ k)
        (append_assoc xs (mid ++ ys) (queuetail q ∷ [])
          ∙ ap (λ k. xs ++ k) (append_assoc mid ys (queuetail q ∷ []))) in
    whole
    ∙ ap₂ (λ a b. a ++ (mid ++ b)) g.left g.right
    ∙ append_assoc g.l (g.u ∷ []) (mid ++ (g.v ∷ g.r))

Distinct-put :
    (xs ys : List ℕ) (p : ℕ) → Distinct (xs ++ ys) → Apart p (xs ++ ys) → Distinct (xs ++ (p ∷ ys))
Distinct-put [] ys p d h = (h, d)
Distinct-put (x ∷ xs) ys p d h =
    let (apart_xs, apart_ys) = All-split (λ i. x ≢ i) xs ys d.0 in
    (
      All-append (λ i. x ≢ i) xs (p ∷ ys) apart_xs ((λ e. h.0 (sym e)), apart_ys),
      Distinct-put xs ys p d.1 h.1,
    )

Distinct-take : (xs ys : List ℕ) (x : ℕ) → Distinct (xs ++ (x ∷ ys)) → Distinct (xs ++ ys)
Distinct-take [] ys x d = d.1
Distinct-take (y ∷ xs) ys x d =
    let (apart_xs, apart_ys) = All-split (λ i. y ≢ i) xs (x ∷ ys) d.0 in
    (All-append (λ i. y ≢ i) xs ys apart_xs apart_ys.1, Distinct-take xs ys x d.1)

module _ (n : ℕ) (tab : QueueTab) (view : ℕ → List ℕ) (q : ℕ) (xs ys : List ℕ)
    (v : Represents n tab view) (head : IsHead n q) (g : Gap q xs ys) where
  -- The nodes beside the place are in no other queue.
  beside :
      (r : ℕ)
      → All IsPid (view r)
      → IsHead n r
      → q ≢ r
      → Disjoint xs (view r)
      → Disjoint ys (view r)
      → All IsPid xs
      → All IsPid ys
      → Apart g.u (nodes r (view r)) × Apart g.v (nodes r (view r))
  beside r pids hr ne dx dy px py =
      let ns = nodes r (view r) in
      let lefts : All (λ i. Apart i ns) (q ∷ xs) =
        (head-Apart n q r (view r) head hr ne pids, inside xs dx px) in
      let rights : All (λ i. Apart i ns) (ys ++ (queuetail q ∷ [])) =
        All-append (λ i. Apart i ns) ys (queuetail q ∷ []) (inside ys dy py)
          (tail-Apart n q r (view r) head hr ne pids, tt) in
      (
        (All-split (λ i. Apart i ns) g.l (g.u ∷ [])
            (subst (All (λ i. Apart i ns)) g.left lefts)).1.0,
        (subst (All (λ i. Apart i ns)) g.right rights).0,
      )
    where
      inside :
          (zs : List ℕ)
          → Disjoint zs (view r)
          → All IsPid zs
          → All (λ i. Apart i (nodes r (view r))) zs
      inside [] d p = tt
      inside (z ∷ zs) d p = (Apart-nodes z r (view r) p.0 hr.low d.0, inside zs d.1 p.1)

  -- A process that waits nowhere is put into the place.
  pub put-Represents :
      (p : ℕ)
      → view q ≡ xs ++ ys
      → IsPid p
      → ((r : ℕ) → IsHead n r → Apart p (view r))
      → Represents n (link_in tab g.u p g.v) (change view q (xs ++ (p ∷ ys)))
  unfolding link_in
  put-Represents p here pid free =
      Represents-change n tab (link_in tab g.u p g.v) view q (xs ++ (p ∷ ys)) v head own others
        (λ r hr ne.
          All-append (λ i. Apart i (view r)) xs (p ∷ ys) (disjoint r hr ne).0
            (free r hr, (disjoint r hr ne).1))
    where
      old : IsQueue tab q (xs ++ ys)
      old = subst (IsQueue tab q) here (v.queue q head)

      apart : Apart p (xs ++ ys)
      apart = subst (Apart p) here (free q head)

      parts : All IsPid xs × All IsPid ys
      parts = All-split IsPid xs ys old.pids

      disjoint : (r : ℕ) → IsHead n r → q ≢ r → Disjoint xs (view r) × Disjoint ys (view r)
      disjoint r hr ne =
          All-split (λ i. Apart i (view r)) xs ys
            (subst (λ k. Disjoint k (view r)) here (v.one_queue q r head hr ne))

      own : IsQueue (link_in tab g.u p g.v) q (xs ++ (p ∷ ys))
      own = record {
        chain = subst (IsChain (link_in tab g.u p g.v)) (sym (Gap-nodes q xs (p ∷ []) ys g)) (
            link_in-IsChain tab g.l g.u p g.v g.r
              (subst Distinct (Gap-nodes q xs [] ys g)
                (nodes-Distinct q (xs ++ ys) head.low old.pids old.distinct))
              (subst (Apart p) (Gap-nodes q xs [] ys g)
                (Apart-nodes p q (xs ++ ys) pid head.low apart))
              (subst (IsChain tab) (Gap-nodes q xs [] ys g) old.chain));
        pids = All-append IsPid xs (p ∷ ys) parts.0 (pid, parts.1);
        distinct = Distinct-put xs ys p old.distinct apart;
        head_key = old.head_key;
        tail_key = old.tail_key;
      }

      others : (r : ℕ) → IsHead n r → q ≢ r → IsQueue (link_in tab g.u p g.v) r (view r)
      others r hr ne =
          let before = v.queue r hr in
          let (dx, dy) = disjoint r hr ne in
          let (apart_u, apart_v) = beside r before.pids hr ne dx dy parts.0 parts.1 in
          record {
            chain =
                link_in-frame tab g.u p g.v (nodes r (view r)) apart_u
                  (Apart-nodes p r (view r) pid hr.low (free r hr)) apart_v before.chain;
            pids = before.pids;
            distinct = before.distinct;
            head_key = before.head_key;
            tail_key = before.tail_key;
          }

  -- A process is taken out of its queue.
  pub take-Represents :
      (x : ℕ) → view q ≡ xs ++ (x ∷ ys) → Represents n (getitem tab x) (change view q (xs ++ ys))
  unfolding getitem
  take-Represents x here =
      Represents-change n tab (getitem tab x) view q (xs ++ ys) v head own others (λ r hr ne.
        All-append (λ i. Apart i (view r)) xs ys (disjoint r hr ne).0 (disjoint r hr ne).1.1)
    where
      old : IsQueue tab q (xs ++ (x ∷ ys))
      old = subst (IsQueue tab q) here (v.queue q head)

      parts : All IsPid xs × All IsPid (x ∷ ys)
      parts = All-split IsPid xs (x ∷ ys) old.pids

      disjoint : (r : ℕ) → IsHead n r → q ≢ r → Disjoint xs (view r) × Disjoint (x ∷ ys) (view r)
      disjoint r hr ne =
          All-split (λ i. Apart i (view r)) xs (x ∷ ys)
            (subst (λ k. Disjoint k (view r)) here (v.one_queue q r head hr ne))

      chain : IsChain tab (g.l ++ (g.u ∷ x ∷ g.v ∷ g.r))
      chain = subst (IsChain tab) (Gap-nodes q xs (x ∷ []) ys g) old.chain

      links : IsChain tab (g.u ∷ x ∷ g.v ∷ g.r)
      links = (IsChain-cut tab g.l g.u (x ∷ g.v ∷ g.r) chain).1

      own : IsQueue (getitem tab x) q (xs ++ ys)
      own = record {
        chain = subst (IsChain (getitem tab x)) (sym (Gap-nodes q xs [] ys g)) (
            getitem-IsChain tab g.l g.u x g.v g.r
              (subst Distinct (Gap-nodes q xs (x ∷ []) ys g)
                (nodes-Distinct q (xs ++ (x ∷ ys)) head.low old.pids old.distinct))
              chain);
        pids = All-append IsPid xs ys parts.0 parts.1.1;
        distinct = Distinct-take xs ys x old.distinct;
        head_key = old.head_key;
        tail_key = old.tail_key;
      }

      others : (r : ℕ) → IsHead n r → q ≢ r → IsQueue (getitem tab x) r (view r)
      others r hr ne =
          let before = v.queue r hr in
          let (dx, dy) = disjoint r hr ne in
          let (apart_u, apart_v) = beside r before.pids hr ne dx dy.1 parts.0 parts.1.1 in
          record {
            chain =
                getitem-frame tab g.u x g.v (nodes r (view r)) links.0.1 links.1.0.0 apart_u apart_v
                  before.chain;
            pids = before.pids;
            distinct = before.distinct;
            head_key = before.head_key;
            tail_key = before.tail_key;
          }
