-- ===== src/Sync/CondBarrier.antt =====
-- The barrier of pfunc/barrier.hpp over a mutex and a condition variable, for systems without futexes. A
-- critical section under `lck` is one step; `cnd.wait` gives up the mutex and sleeps at once, and takes the
-- mutex again when it returns.
pub mod Refinement
pub mod Safety
use pfunc.Base.{ℕ, suc, ◌+◌, ◌%◌, ◌^◌, ◌<◌, ◌≡◌, ◌≢◌, Bool, true, not, update}

pub record Barrier : Type 0 where
  pub barrier_phase : Bool
  pub barrier_count : ℕ
  pub barrier_size : ℕ

-- The constructor.
abbrev pub barrier : Barrier
barrier = record { barrier_phase = true; barrier_count = 0; barrier_size = 0 }

-- `initialize`.
abbrev pub initialize : ℕ → Barrier → Barrier
initialize size b = record b { barrier_size = size }

-- Where a thread stands in `operator()`.
pub data Place : Type 0 where
  outside : Place
  asleep : Bool → Place  -- in `cnd.wait`, with its `my_phase`
  awake : Bool → Place  -- `cnd.wait` is about to return

-- What `cnd.broadcast ()` does to a thread.
unfoldable pub roused : Place → Place
roused (asleep my_phase) = awake my_phase
roused p = p

-- `++barrier_count`.
abbrev pub counted : Barrier → ℕ
counted b = (b.barrier_count + 1) % 2 ^ 32

-- The barrier and its threads; `arrivals` counts how often each has come to it.
pub record State : Type 0 where
  pub bar : Barrier
  pub place : ℕ → Place
  pub arrivals : ℕ → ℕ

pub data Step (s : State) : State → Type 0 where
  come_last :
      (i : ℕ)
      → i < s.bar.barrier_size
      → s.place i ≡ outside
      → counted s.bar ≡ s.bar.barrier_size
      → Step s (record {
        bar = record s.bar { barrier_count = 0; barrier_phase = not s.bar.barrier_phase };
        place = update (λ j. roused (s.place j)) i outside;
        arrivals = update s.arrivals i (suc (s.arrivals i));
      })
  come :
      (i : ℕ)
      → i < s.bar.barrier_size
      → s.place i ≡ outside
      → counted s.bar ≢ s.bar.barrier_size
      → Step s (record {
        bar = record s.bar { barrier_count = counted s.bar };
        place = update s.place i (asleep s.bar.barrier_phase);
        arrivals = update s.arrivals i (suc (s.arrivals i));
      })
  leave :
      (i : ℕ) (my_phase : Bool)
      → i < s.bar.barrier_size
      → s.place i ≡ awake my_phase
      → my_phase ≢ s.bar.barrier_phase
      → Step s (record s { place = update s.place i outside })
  -- The `while` goes round again.
  sleep_again :
      (i : ℕ) (my_phase : Bool)
      → i < s.bar.barrier_size
      → s.place i ≡ awake my_phase
      → my_phase ≡ s.bar.barrier_phase
      → Step s (record s { place = update s.place i (asleep my_phase) })
  -- `cnd.wait` may also return for no reason.
  spurious :
      (i : ℕ) (my_phase : Bool)
      → i < s.bar.barrier_size
      → s.place i ≡ asleep my_phase
      → Step s (record s { place = update s.place i (awake my_phase) })

-- The barrier for `size` threads, with none of them in it.
abbrev pub start : ℕ → State
start size = record { bar = initialize size barrier; place = λ _. outside; arrivals = λ _. 0 }

pub data Reach (size : ℕ) : State → Type 0 where
  here : Reach size (start size)
  next : {s t : State} → Reach size s → Step s t → Reach size t
