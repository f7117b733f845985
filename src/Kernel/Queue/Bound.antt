-- ===== src/Kernel/Queue/Bound.antt =====
-- How many processes a queue can hold.
use internetworking_nat_box.Base.{
  ℕ, zero, suc, ◌≤◌, ◌<◌, sym, inl, inr, List, [], ◌∷◌, arith, ◌==◌, ==_iff, Bool-cases, length,
  All,
}
use mathlib.Core.Path.{subst}
use internetworking_nat_box.Kernel.Queue.{QueueTab, nproc}
use internetworking_nat_box.Kernel.Queue.Chain.{Apart, Distinct}
use internetworking_nat_box.Kernel.Queue.Represents.{IsHead, Represents}

-- The numbers below `n` of a list of different numbers up to `n`: at most one is lost.
record Below (n : ℕ) (xs : List ℕ) : Type 0 where
  rest : List ℕ
  small : All (λ x. x < n) rest
  distinct : Distinct rest
  size : length xs ≤ suc (length rest)
  keeps : (z : ℕ) → Apart z xs → Apart z rest

All-below : (n : ℕ) (xs : List ℕ) → All (λ x. x < suc n) xs → Apart n xs → All (λ x. x < n) xs
All-below n [] h a = tt
All-below n (x ∷ xs) h a = (ground (arith, h.0, a.0), All-below n xs h.1 a.1)

below : (n : ℕ) (xs : List ℕ) → All (λ x. x < suc n) xs → Distinct xs → Below n xs
below n [] h d = record {
  rest = [];
  small = tt;
  distinct = tt;
  size = omega arith;
  keeps = λ z a. tt;
}
below n (x ∷ xs) h d = elim (Bool-cases (n == x)) [
  | inl e ↦ record {
    rest = xs;
    small = All-below n xs h.1 (subst (λ k. Apart k xs) (sym ((==_iff n x).0 e)) d.0);
    distinct = d.1;
    size = omega arith;
    keeps = λ z a. a.1;
  }
  | inr ne ↦
      let b = below n xs h.1 d.1 in
      record {
        rest = x ∷ b.rest;
        small = (ground (arith, h.0, ne), b.small);
        distinct = (b.keeps x d.0, b.distinct);
        size = omega (arith, b.size);
        keeps = λ z a. (a.0, b.keeps z a.1);
      }
]

-- Different numbers below `n` are at most `n`.
pub length-Distinct : (n : ℕ) (xs : List ℕ) → All (λ x. x < n) xs → Distinct xs → length xs ≤ n
length-Distinct zero [] h d = omega arith
length-Distinct zero (x ∷ xs) h d = absurd (omega (arith, h.0))
length-Distinct (suc n) xs h d =
    let b = below n xs h d in omega (arith, b.size, length-Distinct n b.rest b.small b.distinct)

-- A queue of a table that stands for lists of processes holds at most 100 processes, the number of
-- entries of the process table.
pub length-view :
    (n : ℕ) (tab : QueueTab) (view : ℕ → List ℕ) (q : ℕ)
    → Represents n tab view
    → IsHead n q
    → length (view q) ≤ nproc
length-view n tab view q v head =
    let queue = v.queue q head in length-Distinct nproc (view q) queue.pids queue.distinct
