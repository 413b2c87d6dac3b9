-- ===== src/Task/Event/Waiters.antt =====
-- A waitable event of pfunc/event.hpp over a futex, with all its waiters and the thread that notifies it.
-- One step is one access to its words, or one system call; memory is sequentially consistent, and there are
-- no more than `INT_MAX` waiters, so that a wake-up reaches all sleepers.
pub mod Invariant
pub mod Safety
use pfunc.Base.{ℕ, suc, ◌<◌, ◌≡◌, ◌≢◌, Bool, true, false, update}
use pfunc.Task.Event.{Event, inactive, active_incomplete, active_complete, minus_one, reset}

-- Where a waiter stands in `wait`. The flag says whether its `futex_wait` returned for no reason.
pub data Place : Type 0 where
  outside : Place
  looked : Place  -- it saw the event incomplete, and is before `futex_wait`
  asleep : Place  -- in `futex_wait`
  awake : Bool → Place  -- before the atomic add
  closing : Bool → Place  -- the add returned 0, and `PFUNC_INACTIVE` is not stored yet
  returned : Bool → Place

-- Where the notifier stands: before `notify`, before its `futex_wake`, after it.
pub data Notifier : Type 0 where
  running stored finished : Notifier

-- What `futex_wake (&event_state, INT_MAX)` does to a waiter.
unfoldable pub woken : Place → Place
woken asleep = awake false
woken p = p

-- `counts` says how often each waiter has counted itself off.
pub record State : Type 0 where
  pub event : Event
  pub notifier : Notifier
  pub place : ℕ → Place
  pub counts : ℕ → ℕ

-- The state when waiter `i` has counted itself off, and stands at `p`.
abbrev pub counted_off : State → ℕ → Place → State
counted_off s i p = record s {
  event = record s.event { num_waiters = minus_one s.event.num_waiters };
  place = update s.place i p;
  counts = update s.counts i (suc (s.counts i));
}

-- One step of one of `n` waiters, or of the notifier.
pub data Step (n : ℕ) (s : State) : State → Type 0 where
  see_incomplete :
      (i : ℕ)
      → i < n
      → s.place i ≡ outside
      → s.event.event_state ≡ active_incomplete
      → Step n s (record s { place = update s.place i looked })
  see_other :
      (i : ℕ)
      → i < n
      → s.place i ≡ outside
      → s.event.event_state ≢ active_incomplete
      → Step n s (record s { place = update s.place i (awake false) })
  -- `futex_wait` sleeps only if the event is still incomplete.
  sleep :
      (i : ℕ)
      → i < n
      → s.place i ≡ looked
      → s.event.event_state ≡ active_incomplete
      → Step n s (record s { place = update s.place i asleep })
  changed :
      (i : ℕ)
      → i < n
      → s.place i ≡ looked
      → s.event.event_state ≢ active_incomplete
      → Step n s (record s { place = update s.place i (awake false) })
  -- `futex_wait` may also return for no reason.
  spurious :
      (i : ℕ)
      → i < n
      → s.place i ≡ asleep
      → Step n s (record s { place = update s.place i (awake true) })
  count :
      (i : ℕ) (b : Bool)
      → i < n
      → s.place i ≡ awake b
      → s.event.num_waiters ≢ 0
      → Step n s (counted_off s i (returned b))
  count_last :
      (i : ℕ) (b : Bool)
      → i < n
      → s.place i ≡ awake b
      → s.event.num_waiters ≡ 0
      → Step n s (counted_off s i (closing b))
  close :
      (i : ℕ) (b : Bool)
      → i < n
      → s.place i ≡ closing b
      → Step n s (record s {
        event = record s.event { event_state = inactive };
        place = update s.place i (returned b);
      })
  store :
      s.notifier ≡ running
      → Step n s
          (record s { event = record s.event { event_state = active_complete }; notifier = stored })
  wake :
      s.notifier ≡ stored
      → Step n s (record s { notifier = finished; place = λ i. woken (s.place i) })

-- The event as `reset` leaves it for `n` waiters, before anyone waits.
abbrev pub start : ℕ → Event → State
start n e = record { event = reset n e; notifier = running; place = λ _. outside; counts = λ _. 0 }

pub data Reach (n : ℕ) (e : Event) : State → Type 0 where
  here : Reach n e (start n e)
  next : {s t : State} → Reach n e s → Step n s t → Reach n e t
