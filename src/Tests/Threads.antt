-- ===== src/Tests/Threads.antt =====
-- Threads at a mutex, threads that poll, and tasks on their way through a task manager.
use mathlib.Core.List.{Nodup}
use pfunc.Base.{
  ℕ, ◌≡◌, ◌≢◌, refl, Bool, true, false, List, [], ◌∷◌, Perm, Option, none, some, arith, leb, ◌==◌,
  if◌then◌else◌, update, ◌⊎◌,
}
use pfunc.Scheduler.Scan.{PredicatePair}
use pfunc.Scheduler.Store.{QueueSet, create}
use pfunc.Scheduler.Policy.{Contract}
use pfunc.Scheduler.Cilk
use pfunc.Manager.Flow.{Flow, Step, Reach, start, placed, placed-perm, finished-perm}
use pfunc.Manager.Flow
use pfunc.Manager.Poll.{Progress, get_task, Ends, Stopped, get_task-Ends, get_task-total}
use pfunc.Sync.Mutex.{
  trylock, trylock-inverted, Word, free, locked, locked_with_waiters, Pc, critical, contend, spin,
  asleep, Move, System,
}
use pfunc.Sync.Mutex
use pfunc.Sync.Mutex.Safety.{IsActive, mutual_exclusion, no_lost_wakeup}

-- Thread 0 holds the mutex, and thread 1 sleeps at it.
abbrev held : System
held = record { word = locked; pc = update Mutex.start.pc 0 critical }

abbrev seen_busy : System
seen_busy = record { word = locked; pc = update held.pc 1 contend }

abbrev announced : System
announced = record { word = locked_with_waiters; pc = update seen_busy.pc 1 spin }

abbrev one_sleeps : System
one_sleeps = record { word = locked_with_waiters; pc = update announced.pc 1 asleep }

one_sleeps-Reach : Mutex.Reach 2 one_sleeps
one_sleeps-Reach =
    Mutex.next
      (Mutex.next
        (Mutex.next (Mutex.next Mutex.here (Mutex.move 0 (omega arith) Mutex.acquire))
          (Mutex.move 1 (omega arith) (Mutex.busy (λ e. cc))))
        (Mutex.move 1 (omega arith) Mutex.mark))
      (Mutex.move 1 (omega arith) Mutex.sleep)

mutual_exclusion_example :
    ((i j : ℕ) → one_sleeps.pc i ≡ critical → one_sleeps.pc j ≡ critical → i ≡ j)
    × ((i : ℕ) → one_sleeps.pc i ≡ critical → one_sleeps.word ≢ free)
    × (one_sleeps.word ≢ free → (i : ℕ) × (one_sleeps.pc i ≡ critical))
mutual_exclusion_example = mutual_exclusion one_sleeps-Reach

no_lost_wakeup_example :
    ((one_sleeps.word ≡ locked_with_waiters) × ((j : ℕ) × (one_sleeps.pc j ≡ critical)))
    ⊎ ((j : ℕ) × IsActive (one_sleeps.pc j))
no_lost_wakeup_example = no_lost_wakeup one_sleeps-Reach 1 refl

-- The predicate stops at its fifth call; the third look gives the task 7.
abbrev done_at_4 : ℕ → Bool
done_at_4 i = leb 4 i

abbrev third_look : ℕ → Option ℕ
third_look i = if i == 2 then some 7 else none

get_task_third :
    get_task done_at_4 third_look 3 5
    ≡ some (record { tested = 4; looked = 3; return_value = some 7 })
unfolding get_task
get_task_third = refl

get_task-Ends_example :
    Ends done_at_4 third_look 0 (record { tested = 4; looked = 3; return_value = some 7 })
    × Stopped done_at_4 third_look (record { tested = 4; looked = 3; return_value = some 7 })
get_task-Ends_example =
    get_task-Ends done_at_4 third_look 3 5
      (record { tested = 4; looked = 3; return_value = some 7 }) get_task_third

get_task-total_example : (p : Progress ℕ) × (get_task done_at_4 third_look 5 3 ≡ some p)
get_task-total_example = get_task-total done_at_4 third_look 4 3 (λ k h. ground arith)

-- Two tasks are spawned on the queue 0; a thief takes the older one, and finishes it.
abbrev deques : Contract ℕ
deques = Cilk.contract

abbrev open_pair : PredicatePair ℕ
open_pair = record { own_pred = λ _. true; steal_pred = λ _. true }

abbrev set_of : List ℕ → QueueSet (List ℕ)
set_of q = record { queues = q ∷ [] ∷ []; num_queues = 2 }

abbrev two : List ℕ
two = 8 ∷ 7 ∷ []

abbrev flow : List ℕ → List ℕ → List ℕ → List ℕ → Flow (List ℕ) ℕ
flow q spawned running finished = record {
  queues = set_of q;
  spawned = spawned;
  running = running;
  finished = finished;
}

after_spawns-Reach : Reach deques 2 (flow (8 ∷ 7 ∷ []) (8 ∷ 7 ∷ []) [] [])
unfolding Cilk.put create
after_spawns-Reach =
    Flow.next (Flow.next Flow.here (Flow.spawn 0 7 (set_of (7 ∷ [])) refl))
      (Flow.spawn 0 8 (set_of (8 ∷ 7 ∷ [])) refl)

after_steal-Reach : Reach deques 2 (flow (8 ∷ []) (8 ∷ 7 ∷ []) (7 ∷ []) [])
unfolding Cilk.test_and_get_back
after_steal-Reach =
    Flow.next after_spawns-Reach (Flow.take open_pair 0 false 7 (set_of (8 ∷ [])) refl)

after_both-Reach : Reach deques 2 (flow [] (8 ∷ 7 ∷ []) [] (8 ∷ 7 ∷ []))
unfolding Cilk.test_and_get_front
after_both-Reach =
    Flow.next
      (Flow.next (Flow.next after_steal-Reach (Flow.take open_pair 0 true 8 (set_of []) refl))
        (Flow.finish (8 ∷ []) [] 7 refl))
      (Flow.finish [] [] 8 refl)

placed-perm_example :
    Perm two (placed deques (flow (8 ∷ []) (8 ∷ 7 ∷ []) (7 ∷ []) []))
    × (Nodup two → Nodup (placed deques (flow (8 ∷ []) (8 ∷ 7 ∷ []) (7 ∷ []) [])))
placed-perm_example = placed-perm deques after_steal-Reach
