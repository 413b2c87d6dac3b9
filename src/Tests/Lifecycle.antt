-- ===== src/Tests/Lifecycle.antt =====
-- A task manager with one thread, from its constructor to the end of its destructor.
use pfunc.Base.{zero, suc, update, true, ℕ, ◌<◌, ◌≡◌, ◌⊎◌, refl, arith}
use pfunc.Manager.Lifecycle.{
  waiting, created, at_barrier, passed, testing, goes, start, constructed, joining, deleted, exited,
  State, Step, HasCome, create, created_all, started, destroy, cancel, cancelled_all, join,
  joined_all, come, pass, add, stop, Reach, here, next,
}
use pfunc.Manager.Lifecycle.Safety.{IsAtWork, workers-live, left, Onward, joining-goes_on}

abbrev created_thread : State
created_thread = record (goes start 0 created) { main = waiting }

abbrev passed_barrier : State
passed_barrier = goes (goes created_thread 0 at_barrier) 0 passed

abbrev constructor_done : State
constructor_done = record (goes passed_barrier 0 testing) {
  main = constructed;
  thread_start_count = 1;
  counts = update passed_barrier.counts 0 1;
}

abbrev joins_thread : State
joins_thread = record constructor_done {
  main = joining 0;
  is_cancelled = update constructor_done.is_cancelled 0 true;
}

abbrev all_deleted : State
all_deleted = record (goes joins_thread 0 exited) { main = deleted }

all_come : (j : ℕ) → j < 1 → HasCome ((goes created_thread 0 at_barrier).worker j)
all_come zero h = tt
all_come (suc j) h = absurd (omega arith)

constructor_done-Reach : Reach 1 constructor_done
constructor_done-Reach =
    let creates = next (next here (create 0 (omega arith) refl)) (created_all refl) in
    let passes =
      next (next creates (come 0 (omega arith) refl)) (pass 0 (omega arith) refl all_come) in
    next (next passes (add 0 (omega arith) refl)) (started refl refl)

joins_thread-Reach : Reach 1 joins_thread
joins_thread-Reach =
    let cancels = next (next constructor_done-Reach (destroy refl)) (cancel 0 (omega arith) refl) in
    next cancels (cancelled_all refl)

all_deleted-Reach : Reach 1 all_deleted
all_deleted-Reach =
    let stops = next joins_thread-Reach (stop 0 (omega arith) refl refl) in
    next (next stops (join 0 (omega arith) refl refl)) (joined_all refl)

workers-live_example :
    (all_deleted.main ≡ constructed → IsAtWork (all_deleted.worker 0))
    × (all_deleted.main ≡ deleted → all_deleted.worker 0 ≡ exited)
workers-live_example = workers-live (omega arith) all_deleted-Reach 0 (omega arith)

joining-goes_on_example :
    Onward 1 joins_thread 0
    × ((t : State)
        → Step 1 joins_thread t
        → (t.worker 0 ≡ joins_thread.worker 0) ⊎ (left (t.worker 0) < left (joins_thread.worker 0)))
joining-goes_on_example = joining-goes_on (omega arith) joins_thread-Reach 0 (omega arith) refl
