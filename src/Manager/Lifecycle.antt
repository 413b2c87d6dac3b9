-- ===== src/Manager/Lifecycle.antt =====
-- The life of a task manager (pfunc/taskmgr.hpp): the constructor and the destructor, in the main thread,
-- together with the worker threads. One step is one access to a shared word, or one call. The start-up
-- barrier is passed in one step, when all threads have come to it. The queues are left out: a look may find a task at
-- any time. `finish` is the return of the task that a worker runs, and nothing says that a task returns;
-- a task that throws ends the thread's work loop, and is left out.
pub mod Invariant
pub mod Safety
use pfunc.Base.{ℕ, suc, ◌+◌, ◌%◌, ◌^◌, ◌<◌, ◌≡◌, Bool, true, false, update}

-- Where the main thread stands, with the index of the loop it is in.
pub data Main : Type 0 where
  creating : ℕ → Main  -- the loop that creates the threads
  waiting : Main  -- `while (thread_start_count != num_threads)`
  constructed : Main
  cancelling joining : ℕ → Main  -- the first two loops of the destructor
  deleted : Main  -- the queue set, the cache and the rest are released

-- Where a worker stands.
pub data Worker : Type 0 where
  absent : Worker
  created : Worker  -- before the start-up barrier
  at_barrier : Worker
  passed : Worker  -- before it adds 1 to `thread_start_count`
  testing : Worker  -- in `get_task`, before it tests whether it is cancelled
  polling : Worker  -- in `get_task`, before it looks into the queues
  running : Worker  -- it runs a task, and notifies it
  exited : Worker

-- `counts` says how often each worker has added to `thread_start_count`.
pub record State : Type 0 where
  pub main : Main
  pub thread_start_count : ℕ
  pub is_cancelled : ℕ → Bool
  pub worker : ℕ → Worker
  pub counts : ℕ → ℕ

-- A worker that has come to the start-up barrier.
abbrev pub HasCome : Worker → Type 0
HasCome absent = ⊥
HasCome created = ⊥
HasCome _ = Unit

abbrev pub goes : State → ℕ → Worker → State
goes s i w = record s { worker = update s.worker i w }

-- One step of the main thread, or of one of the `n` workers.
pub data Step (n : ℕ) (s : State) : State → Type 0 where
  create :
      (k : ℕ)
      → k < n
      → s.main ≡ creating k
      → Step n s (record (goes s k created) { main = creating (suc k) })
  created_all : s.main ≡ creating n → Step n s (record s { main = waiting })
  started : s.main ≡ waiting → s.thread_start_count ≡ n → Step n s (record s { main = constructed })
  destroy : s.main ≡ constructed → Step n s (record s { main = cancelling 0 })
  cancel :
      (k : ℕ)
      → k < n
      → s.main ≡ cancelling k
      → Step n s
          (record s { main = cancelling (suc k); is_cancelled = update s.is_cancelled k true })
  cancelled_all : s.main ≡ cancelling n → Step n s (record s { main = joining 0 })
  join :
      (k : ℕ)
      → k < n
      → s.main ≡ joining k
      → s.worker k ≡ exited
      → Step n s (record s { main = joining (suc k) })
  joined_all : s.main ≡ joining n → Step n s (record s { main = deleted })
  come : (i : ℕ) → i < n → s.worker i ≡ created → Step n s (goes s i at_barrier)
  pass :
      (i : ℕ)
      → i < n
      → s.worker i ≡ at_barrier
      → ((j : ℕ) → j < n → HasCome (s.worker j))
      → Step n s (goes s i passed)
  add :
      (i : ℕ)
      → i < n
      → s.worker i ≡ passed
      → Step n s (record (goes s i testing) {
        thread_start_count = (s.thread_start_count + 1) % 2 ^ 32;
        counts = update s.counts i (suc (s.counts i));
      })
  go_on :
      (i : ℕ)
      → i < n
      → s.worker i ≡ testing
      → s.is_cancelled i ≡ false
      → Step n s (goes s i polling)
  stop :
      (i : ℕ) → i < n → s.worker i ≡ testing → s.is_cancelled i ≡ true → Step n s (goes s i exited)
  find_nothing : (i : ℕ) → i < n → s.worker i ≡ polling → Step n s (goes s i testing)
  find_task : (i : ℕ) → i < n → s.worker i ≡ polling → Step n s (goes s i running)
  finish : (i : ℕ) → i < n → s.worker i ≡ running → Step n s (goes s i testing)

-- The constructor, before it creates the first thread.
abbrev pub start : State
start = record {
  main = creating 0;
  thread_start_count = 0;
  is_cancelled = λ _. false;
  worker = λ _. absent;
  counts = λ _. 0;
}

pub data Reach (n : ℕ) : State → Type 0 where
  here : Reach n start
  next : {s t : State} → Reach n s → Step n s t → Reach n t
