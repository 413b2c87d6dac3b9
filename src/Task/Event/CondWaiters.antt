-- ===== src/Task/Event/CondWaiters.antt =====
-- A waitable event of pfunc/event.hpp over a mutex and a condition variable, with its waiters and its
-- notifier. In `wait` the test of the state guards `lck.lock ()` alone: the second test and `lck.unlock ()`
-- are done in any case. One step is one access to the state, or one call of the mutex or the condition
-- variable. POSIX leaves `unlock` and `cnd.wait` undefined for a thread that does not hold the mutex,
-- and here such a call has no step.
pub mod Unheld
use pfunc.Base.{ℕ, ◌≡◌, ◌≢◌, update}
use pfunc.Task.Event.{EventState, active_incomplete, active_complete}

-- Where a waiter stands in `wait`.
pub data Place : Type 0 where
  outside : Place
  locking : Place  -- it saw the event incomplete, and is before `lck.lock ()`
  testing : Place  -- before the second test
  before_sleep : Place  -- before `cnd.wait (lck)`
  asleep : Place  -- in `cnd.wait`
  relocking : Place  -- `cnd.wait` is about to take the mutex again
  unlocking : Place  -- before `lck.unlock ()`
  awake : Place  -- before the atomic add
  returned : Place

-- Where the notifier stands: before `notify`, before its `lck.lock ()`, `cnd.broadcast ()` and
-- `lck.unlock ()`, after it.
pub data Notifier : Type 0 where
  running stored locked broadcasted finished : Notifier

-- Who holds the mutex.
pub data Holder : Type 0 where
  nobody notifying : Holder
  waiter : ℕ → Holder

-- What `cnd.broadcast ()` does to a waiter.
unfoldable pub roused : Place → Place
roused asleep = relocking
roused p = p

pub record State : Type 0 where
  pub event_state : EventState
  pub holder : Holder
  pub notifier : Notifier
  pub place : ℕ → Place

-- One step of a waiter, or of the notifier. (The atomic add is in the model of the other kind of event.)
pub data Step (s : State) : State → Type 0 where
  see_incomplete :
      (i : ℕ)
      → s.place i ≡ outside
      → s.event_state ≡ active_incomplete
      → Step s (record s { place = update s.place i locking })
  see_other :
      (i : ℕ)
      → s.place i ≡ outside
      → s.event_state ≢ active_incomplete
      → Step s (record s { place = update s.place i testing })
  lock :
      (i : ℕ)
      → s.place i ≡ locking
      → s.holder ≡ nobody
      → Step s (record s { holder = waiter i; place = update s.place i testing })
  still_incomplete :
      (i : ℕ)
      → s.place i ≡ testing
      → s.event_state ≡ active_incomplete
      → Step s (record s { place = update s.place i before_sleep })
  now_other :
      (i : ℕ)
      → s.place i ≡ testing
      → s.event_state ≢ active_incomplete
      → Step s (record s { place = update s.place i unlocking })
  sleep :
      (i : ℕ)
      → s.place i ≡ before_sleep
      → s.holder ≡ waiter i
      → Step s (record s { holder = nobody; place = update s.place i asleep })
  -- `cnd.wait` may also return for no reason.
  spurious : (i : ℕ) → s.place i ≡ asleep → Step s (record s { place = update s.place i relocking })
  relock :
      (i : ℕ)
      → s.place i ≡ relocking
      → s.holder ≡ nobody
      → Step s (record s { holder = waiter i; place = update s.place i unlocking })
  unlock :
      (i : ℕ)
      → s.place i ≡ unlocking
      → s.holder ≡ waiter i
      → Step s (record s { holder = nobody; place = update s.place i awake })
  count : (i : ℕ) → s.place i ≡ awake → Step s (record s { place = update s.place i returned })
  store :
      s.notifier ≡ running → Step s (record s { event_state = active_complete; notifier = stored })
  notifier_locks :
      s.notifier ≡ stored
      → s.holder ≡ nobody
      → Step s (record s { holder = notifying; notifier = locked })
  broadcast :
      s.notifier ≡ locked
      → Step s (record s { notifier = broadcasted; place = λ i. roused (s.place i) })
  notifier_unlocks :
      s.notifier ≡ broadcasted → Step s (record s { holder = nobody; notifier = finished })

-- An event that was reset, before anyone waits.
abbrev pub start : State
start = record {
  event_state = active_incomplete;
  holder = nobody;
  notifier = running;
  place = λ _. outside;
}

-- The states after some steps from a state.
pub data From (s : State) : State → Type 0 where
  here : From s s
  next : {t u : State} → From s t → Step t u → From s u
