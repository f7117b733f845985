-- ===== src/Kernel/Semaphore/Calls.antt =====
-- The invariant of the semaphores under `wait` and `signal`.
use internetworking_nat_box.Base.{
  ℕ, ◌-◌, ◌^◌, ◌≤◌, ◌<◌, ◌≡◌, refl, ◌≢◌, inl, inr, true, Option, some, List, [], ◌∷◌, arith,
  Bool-cases, length,
}
use internetworking_nat_box.Kernel.Process.{System, Called, is_negative}
use internetworking_nat_box.Kernel.Semaphore.{nsem, s_free, count_down, wait, signal}
use internetworking_nat_box.Kernel.Semaphore.Counts.{IsSystem}
use internetworking_nat_box.Kernel.Semaphore.Waiting.{wait-pass, wait-block}
use internetworking_nat_box.Kernel.Semaphore.Signal.{signal-pass, signal-release}

pub data SemCall : Type 0 where
  waits : SemCall
  signals : SemCall

abbrev pub sem_call : SemCall → ℕ → System → Option Called
sem_call waits = wait
sem_call signals = signal

-- The count has room for the call, and a caller that may have to wait leaves a ready process.
abbrev pub HasRoom : SemCall → ℕ → System → (ℕ → List ℕ) → Type 0
HasRoom waits s sys view = (sys.scount s ≢ 2 ^ 31) × (1 ≤ length (view sys.readylist))
HasRoom signals s sys view = sys.scount s ≢ 2 ^ 31 - 1

first_of : (xs : List ℕ) → 1 ≤ length xs → (x : ℕ) × (rest : List ℕ) × (xs ≡ x ∷ rest)
first_of [] h = absurd (omega arith)
first_of (x ∷ xs) h = (x, xs, refl)

-- `wait` and `signal` on a semaphore in use succeed and keep the system well formed: each semaphore
-- has as many processes in its queue as its count is below 0, the queue table stands for separate
-- lists of processes that are not free, and the process that runs afterwards is in no queue. The
-- count does not pass the ends of its 32 bits, and a caller of `wait` leaves a process in the ready
-- list.
pub sem_call-IsSystem :
    (call : SemCall) (n : ℕ) (sys : System) (view : ℕ → List ℕ) (s : ℕ)
    → IsSystem n sys view
    → s < nsem
    → sys.sstate s ≢ s_free
    → HasRoom call s sys view
    → (after : System) × (later : ℕ → List ℕ) × (sem_call call s sys ≡ some (true, after))
      × IsSystem n after later
sem_call-IsSystem waits n sys view s i exists used (least, others) =
    elim (Bool-cases (is_negative (count_down (sys.scount s)))) [
      | inl neg ↦
          let (x, xs, here) = first_of (view sys.readylist) others in
          wait-block n sys view s i exists used x xs here least neg
      | inr pass ↦
          let (after, done, kept) = wait-pass n sys view s i exists used least pass in
          (after, view, done, kept)
    ]
sem_call-IsSystem signals n sys view s i exists used most =
    elim (Bool-cases (is_negative (sys.scount s))) [
      | inl neg ↦
          let some_wait : 1 ≤ length (view (sys.squeue s)) =
            ground (arith, i.counts.counted s exists, i.counts.count_size s exists, neg) in
          let (y, ys, here) = first_of (view (sys.squeue s)) some_wait in
          signal-release n sys view s i exists used y ys here neg
      | inr pos ↦
          let (after, done, kept) = signal-pass n sys view s i exists used most pos in
          (after, view, done, kept)
    ]
