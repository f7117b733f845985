-- ===== src/Kernel/Queue/Tests.antt =====
-- The queue table at concrete processes and keys.
use internetworking_nat_box.Base.{
  ℕ, ◌≡◌, refl, sym, ap, ◌∙◌, inl, inr, Bool, false, none, some, List, [], ◌∷◌, ◌++◌, arith,
}
use mathlib.Core.Path.{subst}
use internetworking_nat_box.Kernel.Queue.{QueueTab, upd, insert}
use internetworking_nat_box.Kernel.Queue.Chain.{Apart}
use internetworking_nat_box.Kernel.Queue.Represents.{
  IsHead, IsQueue, Represents, change, change_self, change_ne, same_or_not,
}
use internetworking_nat_box.Kernel.Queue.Priority.{IsPlace, insert-Represents}
use internetworking_nat_box.Kernel.Queue.Run.{
  QueueOp, make, put, take_first, run, AllAllowed, run-list_run,
}

abbrev all_good : ℕ → Bool
all_good pid = false

abbrev no_view : ℕ → List ℕ
no_view q = []

abbrev blank : QueueTab
blank = record { qkey = λ _. 0; qnext = λ _. 0; qprev = λ _. 0 }

IsHead-first : IsHead 102 100
IsHead-first = record { low = omega arith; high = omega arith; even = refl }

Apart-change :
    (p : ℕ) (view : ℕ → List ℕ) (q : ℕ) (xs : List ℕ) (r : ℕ)
    → Apart p xs
    → Apart p (view r)
    → Apart p (change view q xs r)
Apart-change p view q xs r here there = elim (same_or_not q r) [
  | inl e ↦ subst (Apart p) (sym (change_self view q xs) ∙ ap (change view q xs) e) here
  | inr ne ↦ subst (Apart p) (sym (change_ne view q xs r ne)) there
]

-- One queue, two processes in it, and both taken again.
abbrev calls : List QueueOp
calls = make ∷ put 100 7 ∷ put 100 3 ∷ take_first 100 ∷ take_first 100 ∷ take_first 100 ∷ []

abbrev opened : ℕ → List ℕ
opened = change no_view 100 []

calls-AllAllowed : AllAllowed all_good calls (record { next = 100; view = no_view })
calls-AllAllowed = (
  omega arith,
  (
    (IsHead-first, refl, omega arith, λ r h. Apart-change 7 no_view 100 [] r tt tt),
    (
      (
        IsHead-first,
        refl,
        omega arith,
        λ r h.
            Apart-change 3 opened 100 (7 ∷ []) r ((λ e. absurd (omega (arith, e))), tt)
              (Apart-change 3 no_view 100 [] r tt tt),
      ),
      (IsHead-first, (IsHead-first, (IsHead-first, tt))),
    ),
  ),
)

run-list_run_example :
    run all_good calls 100 blank ≡ some (some 100 ∷ some 7 ∷ some 3 ∷ some 7 ∷ some 3 ∷ none ∷ [])
run-list_run_example = run-list_run all_good calls blank no_view calls-AllAllowed

-- A ready list with the process 7 in it.
abbrev ready : QueueTab
ready = record {
  qkey = upd (upd (upd (λ _. 0) 7 20) 100 0x7FFFFFFF) 101 0x80000000;
  qnext = upd (upd (λ _. 0xFFFF) 100 7) 7 101;
  qprev = upd (upd (λ _. 0xFFFF) 7 100) 101 7;
}

abbrev ready_view : ℕ → List ℕ
ready_view q = 7 ∷ []

only_head : (q : ℕ) → IsHead 102 q → 100 ≡ q
only_head q h = omega (arith, h.low, h.high, h.even)

ready-Represents : Represents 102 ready ready_view
ready-Represents = record {
  queue = λ q h.
      subst (λ r. IsQueue ready r (ready_view r)) (only_head q h)
        (record {
          chain = ((refl, refl), ((refl, refl), tt));
          pids = (omega arith, tt);
          distinct = (tt, tt);
          head_key = refl;
          tail_key = refl;
        });
  one_queue = λ q r h k ne. absurd (ne (sym (only_head q h) ∙ only_head r k));
}

insert-Represents_example :
    (before : List ℕ) × (behind : List ℕ) × (after : QueueTab) × IsPlace ready 20
      (7 ∷ [])
      before
      behind
    × (insert all_good 3 100 20 ready ≡ some (some after))
    × Represents 102 after (change ready_view 100 (before ++ (3 ∷ behind)))
    × (after.qkey 3 ≡ 20)
insert-Represents_example =
    insert-Represents 102 ready ready_view 100 3 20 all_good (omega arith) ready-Represents
      IsHead-first refl (omega arith) (λ r h. ((λ e. absurd (omega (arith, e))), tt)) refl
