-- ===== src/Kernel/Queue/Run.antt =====
-- Sequences of calls of `newqueue`, `enqueue` and `dequeue` on the table, and on lists.
use internetworking_nat_box.Base.{
  ℕ, ◌+◌, ◌%◌, ◌≤◌, ◌<◌, ◌≡◌, refl, Bool, false, Option, some, List, [], ◌∷◌, ◌++◌, arith, ◌>>=◌,
}
use internetworking_nat_box.Kernel.Queue.{QueueTab, nproc, nqent, enqueue, dequeue, newqueue}
use internetworking_nat_box.Kernel.Queue.Chain.{Apart}
use internetworking_nat_box.Kernel.Queue.Represents.{IsHead, IsPid, Represents, change}
use internetworking_nat_box.Kernel.Queue.New.{newqueue-Represents, no_queue-Represents}
use internetworking_nat_box.Kernel.Queue.Fifo.{front, enqueue-Represents, dequeue-Represents}

pub data QueueOp : Type 0 where
  make : QueueOp
  put : ℕ → ℕ → QueueOp
  take_first : ℕ → QueueOp

-- The call and what it returns: the new queue, the process put in, or the process taken, where
-- EMPTY is `none`. As a whole, `none` is SYSERR. The state is `nextqid` and the table.
unfoldable pub call : (ℕ → Bool) → QueueOp → ℕ → QueueTab → Option (Option ℕ × ℕ × QueueTab)
call bad make n tab = newqueue n tab >>= λ (q, n', tab'). some (some q, n', tab')
call bad (put q pid) n tab = enqueue bad pid q tab >>= λ tab'. some (some pid, n, tab')
call bad (take_first q) n tab = dequeue q tab >>= λ (pid, tab'). some (pid, n, tab')

unfoldable pub run : (ℕ → Bool) → List QueueOp → ℕ → QueueTab → Option (List (Option ℕ))
unfolding call
run bad [] n tab = some []
run bad (op ∷ ops) n tab = call bad op n tab >>= λ (result, n', tab').
    run bad ops n' tab' >>= λ results. some (result ∷ results)

-- The same calls where every queue is a list of its own, first in, first out.
pub record Lists : Type 0 where
  pub next : ℕ
  pub view : ℕ → List ℕ

abbrev pub list_call : QueueOp → Lists → Option ℕ × Lists
list_call make s = (some s.next, record { next = s.next + 2; view = change s.view s.next [] })
list_call (put q pid) s = (some pid, record s { view = change s.view q (s.view q ++ (pid ∷ [])) })
list_call (take_first q) s =
    ((front (s.view q)).0, record s { view = change s.view q (front (s.view q)).1 })

abbrev pub list_run : List QueueOp → Lists → List (Option ℕ)
list_run [] s = []
list_run (op ∷ ops) s = (list_call op s).0 ∷ list_run ops (list_call op s).1

-- The callers' part: the table has room, the queue was made, and a process that is put in exists and
-- waits in no queue.
abbrev pub IsAllowed : (ℕ → Bool) → QueueOp → Lists → Type 0
IsAllowed bad make s = s.next < nqent
IsAllowed bad (put q pid) s =
    IsHead s.next q
    × (bad pid ≡ false)
    × IsPid pid
    × ((r : ℕ) → IsHead s.next r → Apart pid (s.view r))
IsAllowed bad (take_first q) s = IsHead s.next q

abbrev pub AllAllowed : (ℕ → Bool) → List QueueOp → Lists → Type 0
AllAllowed bad [] s = Unit
AllAllowed bad (op ∷ ops) s = IsAllowed bad op s × AllAllowed bad ops (list_call op s).1

-- The table of a running system.
record IsTable (s : Lists) (tab : QueueTab) : Type 0 where
  low : nproc ≤ s.next
  high : s.next ≤ nqent
  even : s.next % 2 ≡ 0
  represents : Represents s.next tab s.view

call-list_call :
    (bad : ℕ → Bool) (op : QueueOp) (s : Lists) (tab : QueueTab)
    → IsTable s tab
    → IsAllowed bad op s
    → (after : QueueTab) × (call bad op s.next tab
        ≡ some ((list_call op s).0, (list_call op s).1.next, after))
      × IsTable (list_call op s).1 after
unfolding call
call-list_call bad make s tab t room =
    let (after, made, v) = newqueue-Represents s.next tab s.view t.low room t.even t.represents in
    (
      after,
      rw made refl,
      record {
        low = omega (arith, t.low);
        high = omega (arith, room, t.even);
        even = omega (arith, t.even);
        represents = v;
      },
    )
call-list_call bad (put q pid) s tab t (head, good, small, free) =
    let (after, done, v) =
      enqueue-Represents s.next tab s.view q pid bad t.high t.represents head good small free in
    (after, rw done refl, record { low = t.low; high = t.high; even = t.even; represents = v })
call-list_call bad (take_first q) s tab t head =
    let (after, done, v) = dequeue-Represents s.next tab s.view q t.high t.represents head in
    (after, rw done refl, record { low = t.low; high = t.high; even = t.even; represents = v })

run-tables :
    (bad : ℕ → Bool) (ops : List QueueOp) (s : Lists) (tab : QueueTab)
    → IsTable s tab
    → AllAllowed bad ops s
    → run bad ops s.next tab ≡ some (list_run ops s)
unfolding run
run-tables bad [] s tab t h = refl
run-tables bad (op ∷ ops) s tab t (h, hs) =
    let (after, called, next) = call-list_call bad op s tab t h in
    rw (called, run-tables bad ops (list_call op s).1 after next hs) refl

-- From start-up on, any sequence of calls of `newqueue`, `enqueue` and `dequeue` returns what the
-- same calls return where every queue is a list of its own, first in, first out: the links of the
-- shared table never mix two queues. The calls respect their callers' part: at most 102 queues are
-- made, and a process that is put into a queue waits in none.
pub run-list_run :
    (bad : ℕ → Bool) (ops : List QueueOp) (tab : QueueTab) (view : ℕ → List ℕ)
    → AllAllowed bad ops (record { next = nproc; view = view })
    → run bad ops nproc tab ≡ some (list_run ops (record { next = nproc; view = view }))
run-list_run bad ops tab view h =
    run-tables bad ops (record { next = nproc; view = view }) tab
      (record {
        low = omega arith;
        high = omega arith;
        even = refl;
        represents = no_queue-Represents tab view;
      })
      h
