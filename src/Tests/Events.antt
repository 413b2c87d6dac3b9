-- ===== src/Tests/Events.antt =====
-- Waiters of an event that was reset for two of them.
use pfunc.Base.{ℕ, ◌<◌, ◌≡◌, ◌≢◌, ◌⊎◌, refl, arith, Bool, false, update}
use pfunc.Task.Event.{active_complete, active_incomplete, event_base}
use pfunc.Task.Event
use pfunc.Task.Event.Waiters.{
  looked, awake, asleep, returned, running, stored, finished, counted_off, start, woken, State,
  Step, see_incomplete, sleep, changed, count, store, wake, Reach, here, next,
}
use pfunc.Task.Event.Waiters.Safety.{returns_complete, returns-count, left, finished-goes_on}
use pfunc.Task.Event.CondWaiters

-- Waiter 0 sleeps, waiter 1 sees the event complete before it falls asleep, and the notifier is done.
abbrev both_looked : State
both_looked = record (start 2 event_base) {
  place = update (update (start 2 event_base).place 0 looked) 1 looked;
}

abbrev one_asleep : State
one_asleep = record both_looked { place = update both_looked.place 0 asleep }

abbrev now_complete : State
now_complete = record one_asleep {
  event = record one_asleep.event { event_state = active_complete };
  notifier = stored;
}

abbrev seen_complete : State
seen_complete = record now_complete { place = update now_complete.place 1 (awake false) }

abbrev notified : State
notified = record seen_complete { notifier = finished; place = λ i. woken (seen_complete.place i) }

abbrev all_returned : State
all_returned = counted_off (counted_off notified 0 (returned false)) 1 (returned false)

notified-Reach : Reach 2 event_base notified
unfolding Event.reset
notified-Reach =
    let both =
      next (next here (see_incomplete 0 (omega arith) refl refl))
        (see_incomplete 1 (omega arith) refl refl) in
    let sleeps = next both (sleep 0 (omega arith) refl refl) in
    let complete = next sleeps (store refl) in
    next (next complete (changed 1 (omega arith) refl (λ e. cc))) (wake refl)

all_returned-Reach : Reach 2 event_base all_returned
unfolding woken Event.reset
all_returned-Reach =
    next (next notified-Reach (count 0 false (omega arith) refl (λ e. omega arith)))
      (count 1 false (omega arith) refl (λ e. omega arith))

returns_complete_example :
    (all_returned.place 0 ≡ returned false → all_returned.event.event_state ≡ active_complete)
    × (all_returned.notifier ≡ finished → all_returned.place 0 ≢ asleep)
returns_complete_example = returns_complete (omega arith) all_returned-Reach 0 (omega arith)

returns-count_example :
    (all_returned.notifier ≡ running → all_returned.event.event_state ≡ active_incomplete)
    × (all_returned.notifier ≢ running → all_returned.event.event_state ≡ active_complete)
    × (all_returned.notifier ≢ running
        → ((i : ℕ) → i < 2 → (b : Bool) × (all_returned.place i ≡ returned b))
        → all_returned.event ≡ record { event_state = active_complete; num_waiters = 0 })
returns-count_example = returns-count (omega arith) all_returned-Reach

finished-goes_on_example :
    ((b : Bool) × (notified.place 0 ≡ returned b))
    ⊎ ((t : State) × Step 2 notified t × (left (t.place 0) < left (notified.place 0)))
finished-goes_on_example = finished-goes_on (omega arith) notified-Reach refl 0 (omega arith)

-- The event when the notifier has stored, and before anyone waits.
abbrev stored_state : CondWaiters.State
stored_state = record CondWaiters.start {
  event_state = active_complete;
  notifier = CondWaiters.stored;
}
