-- ===== src/Kernel/Queue/Represents.antt =====
-- What the table of queues stands for: for each queue that was made, the list of the processes
-- waiting in it.
use internetworking_nat_box.Base.{
  ℕ, ◌%◌, ◌≤◌, ◌<◌, ◌≡◌, sym, ap, ◌∙◌, ◌≢◌, ◌⊎◌, inl, inr, List, [], ◌∷◌, ◌++◌, arith, ◌==◌,
  if◌then◌else◌, ==_iff, Bool-cases, All, All-append,
}
use mathlib.Core.Path.{subst}
use internetworking_nat_box.Kernel.Queue.{QueueTab, nproc, queuetail, maxkey, minkey}
use internetworking_nat_box.Kernel.Queue.Chain.{Apart, Distinct, IsChain}

-- A head that `newqueue` gave out, with `nextqid` at `n`.
pub record IsHead (n q : ℕ) : Type 0 where
  pub low : nproc ≤ q
  pub high : q < n
  pub even : q % 2 ≡ 0

-- The nodes of a queue with the processes `xs`.
abbrev pub nodes : ℕ → List ℕ → List ℕ
nodes q xs = q ∷ xs ++ (queuetail q ∷ [])

abbrev pub IsPid : ℕ → Type 0
IsPid x = x < nproc

pub record IsQueue (tab : QueueTab) (q : ℕ) (xs : List ℕ) : Type 0 where
  pub chain : IsChain tab (nodes q xs)
  pub pids : All IsPid xs
  pub distinct : Distinct xs
  pub head_key : tab.qkey q ≡ maxkey
  pub tail_key : tab.qkey (queuetail q) ≡ minkey

-- No process is in both lists.
abbrev pub Disjoint : List ℕ → List ℕ → Type 0
Disjoint xs ys = All (λ x. Apart x ys) xs

-- The view of the table: no process is in two queues.
pub record Represents (n : ℕ) (tab : QueueTab) (view : ℕ → List ℕ) : Type 0 where
  pub queue : (q : ℕ) → IsHead n q → IsQueue tab q (view q)
  pub one_queue : (q r : ℕ) → IsHead n q → IsHead n r → q ≢ r → Disjoint (view q) (view r)

-- One queue of a view changed.
abbrev pub change : (ℕ → List ℕ) → ℕ → List ℕ → ℕ → List ℕ
change view q xs r = if q == r then xs else view r

pub change_self : (view : ℕ → List ℕ) (q : ℕ) (xs : List ℕ) → change view q xs q ≡ xs
change_self view q xs = ground arith

pub change_ne :
    (view : ℕ → List ℕ) (q : ℕ) (xs : List ℕ) (r : ℕ) → q ≢ r → change view q xs r ≡ view r
change_ne view q xs r h = ground arith

-- A process is no head or tail, so it is apart from the ends of a queue.
pub Apart-pids : (i : ℕ) (xs : List ℕ) → nproc ≤ i → All IsPid xs → Apart i xs
Apart-pids i [] h p = tt
Apart-pids i (x ∷ xs) h p = (λ e. absurd (omega (arith, p.0, e)), Apart-pids i xs h p.1)

Distinct-snoc : (xs : List ℕ) (t : ℕ) → Distinct xs → Apart t xs → Distinct (xs ++ (t ∷ []))
Distinct-snoc [] t d h = (tt, tt)
Distinct-snoc (x ∷ xs) t d h =
    (All-append (λ i. x ≢ i) xs (t ∷ []) d.0 ((λ e. h.0 (sym e)), tt), Distinct-snoc xs t d.1 h.1)

-- The nodes of a queue are all different.
pub nodes-Distinct :
    (q : ℕ) (xs : List ℕ) → nproc ≤ q → All IsPid xs → Distinct xs → Distinct (nodes q xs)
nodes-Distinct q xs low pids d = (
  All-append (λ i. q ≢ i) xs (queuetail q ∷ []) (Apart-pids q xs low pids)
      ((λ e. absurd (omega (arith, e))), tt),
  Distinct-snoc xs (queuetail q) d (Apart-pids (queuetail q) xs (omega arith) pids),
)

-- A process that waits in no queue is apart from the nodes of each.
pub Apart-nodes :
    (x q : ℕ) (xs : List ℕ) → x < nproc → nproc ≤ q → Apart x xs → Apart x (nodes q xs)
Apart-nodes x q xs pid low h = (
  (λ e. absurd (omega (arith, e))),
  All-append (λ i. x ≢ i) xs (queuetail q ∷ []) h ((λ e. absurd (omega (arith, e))), tt),
)

-- The ends of a queue are apart from the nodes of another.
pub head-Apart :
    (n q r : ℕ) (xs : List ℕ)
    → IsHead n q
    → IsHead n r
    → q ≢ r
    → All IsPid xs
    → Apart q (nodes r xs)
head-Apart n q r xs hq hr ne pids = (
  ne,
  All-append (λ i. q ≢ i) xs (queuetail r ∷ []) (Apart-pids q xs hq.low pids)
      ((λ e. absurd (omega (arith, e, hq.even, hr.even))), tt),
)

pub tail-Apart :
    (n q r : ℕ) (xs : List ℕ)
    → IsHead n q
    → IsHead n r
    → q ≢ r
    → All IsPid xs
    → Apart (queuetail q) (nodes r xs)
tail-Apart n q r xs hq hr ne pids = (
  (λ e. absurd (omega (arith, e, hq.even, hr.even))),
  All-append (λ i. queuetail q ≢ i) xs (queuetail r ∷ [])
      (Apart-pids (queuetail q) xs (omega (arith, hq.low)) pids) ((λ e. ne (omega (arith, e))), tt),
)

Apart-head :
    (xs : List ℕ) (y : ℕ) (ys : List ℕ) → Disjoint xs (y ∷ ys) → Apart y xs × Disjoint xs ys
Apart-head [] y ys h = (tt, tt)
Apart-head (x ∷ xs) y ys h =
    let (apart, rest) = Apart-head xs y ys h.1 in (((λ e. h.0.0 (sym e)), apart), (h.0.1, rest))

pub Disjoint-sym : (xs ys : List ℕ) → Disjoint xs ys → Disjoint ys xs
Disjoint-sym xs [] h = tt
Disjoint-sym xs (y ∷ ys) h =
    let (apart, rest) = Apart-head xs y ys h in (apart, Disjoint-sym xs ys rest)

pub same_or_not : (q r : ℕ) → (q ≡ r) ⊎ (q ≢ r)
same_or_not q r = elim (Bool-cases (q == r)) [
  | inl e ↦ inl ((==_iff q r).0 e)
  | inr e ↦ inr (λ s. absurd (ground arith))
]

-- A step on one queue: the others stay, and the list of this one is disjoint from theirs.
pub Represents-change :
    (n : ℕ) (tab tab' : QueueTab) (view : ℕ → List ℕ) (q : ℕ) (xs : List ℕ)
    → Represents n tab view
    → IsHead n q
    → IsQueue tab' q xs
    → ((r : ℕ) → IsHead n r → q ≢ r → IsQueue tab' r (view r))
    → ((r : ℕ) → IsHead n r → q ≢ r → Disjoint xs (view r))
    → Represents n tab' (change view q xs)
Represents-change n tab tab' view q xs v head own others apart = record {
  queue = queue_after;
  one_queue = disjoint_after;
}
  where
    queue_after : (r : ℕ) → IsHead n r → IsQueue tab' r (change view q xs r)
    queue_after r hr = elim (same_or_not q r) [
      | inl e ↦
          subst (λ s. IsQueue tab' s (change view q xs s)) e
            (subst (IsQueue tab' q) (sym (change_self view q xs)) own)
      | inr ne ↦ subst (IsQueue tab' r) (sym (change_ne view q xs r ne)) (others r hr ne)
    ]

    disjoint_after :
        (a b : ℕ)
        → IsHead n a
        → IsHead n b
        → a ≢ b
        → Disjoint (change view q xs a) (change view q xs b)
    disjoint_after a b ha hb ne = elim (same_or_not q a) [
      | inl e ↦
          let q_b : q ≢ b = λ s. ne (sym e ∙ s) in
          subst (λ l. Disjoint l (change view q xs b))
            (sym (change_self view q xs) ∙ ap (change view q xs) e)
            (subst (Disjoint xs) (sym (change_ne view q xs b q_b)) (apart b hb q_b))
      | inr q_a ↦
          subst (λ l. Disjoint l (change view q xs b)) (sym (change_ne view q xs a q_a))
            (elim (same_or_not q b) [
              | inl e ↦
                  subst (Disjoint (view a)) (sym (change_self view q xs) ∙ ap (change view q xs) e)
                    (Disjoint-sym xs (view a) (apart a ha q_a))
              | inr q_b ↦
                  subst (Disjoint (view a)) (sym (change_ne view q xs b q_b))
                    (v.one_queue a b ha hb ne)
            ])
    ]
