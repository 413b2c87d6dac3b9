-- ===== src/Sync/Startup.antt =====
-- The barrier of pfunc/barrier.hpp over a futex, which the threads of a task manager pass before they
-- work. One step is one atomic access to its words, or one system call; memory is sequentially
-- consistent, and there are no more than `INT_MAX` threads, so that a wake-up reaches all sleepers.
pub mod Situation
pub mod Invariant
pub mod Steps
pub mod Turn
pub mod Safety
use pfunc.Base.{ℕ, suc, ◌-◌, ◌^◌, ◌<◌, ◌≡◌, ◌≢◌, update}
use pfunc.Task.Event.{minus_one}

-- `~x` of a 32-bit word.
abbrev pub complement : ℕ → ℕ
complement x = 2 ^ 32 - 1 - x

pub record Barrier : Type 0 where
  pub barrier_size : ℕ
  pub barrier_phase : ℕ
  pub barrier_count : ℕ

-- The constructor.
abbrev pub barrier : Barrier
barrier = record { barrier_size = 0; barrier_phase = 0; barrier_count = 0 }

-- `initialize`.
abbrev pub initialize : ℕ → Barrier → Barrier
initialize size b = record b { barrier_size = size; barrier_count = size }

-- Where a thread stands in `operator()`.
pub data Place : Type 0 where
  outside : Place
  entered : ℕ → Place  -- with its `my_phase`, before the atomic add
  last : Place  -- the add returned 1
  renewed : Place  -- the count is set again
  toggled : Place  -- the phase is changed, before `futex_wake`
  waiting : ℕ → Place  -- in the `while`, with its `my_phase`
  asleep : ℕ → Place  -- in `futex_wait`

-- What `futex_wake (&barrier_phase, INT_MAX)` does to a thread.
unfoldable pub woken : Place → Place
woken (asleep my_phase) = waiting my_phase
woken p = p

-- The barrier and its threads; `arrivals` counts the atomic adds of each.
pub record State : Type 0 where
  pub bar : Barrier
  pub place : ℕ → Place
  pub arrivals : ℕ → ℕ

-- The count after a thread's atomic add.
abbrev pub counted_off : Barrier → Barrier
counted_off b = record b { barrier_count = minus_one b.barrier_count }

-- One step of one thread. (The spinning before `futex_wait` reads the phase and changes nothing.)
pub data Step (s : State) : State → Type 0 where
  enter :
      (i : ℕ)
      → i < s.bar.barrier_size
      → s.place i ≡ outside
      → Step s (record s { place = update s.place i (entered s.bar.barrier_phase) })
  come_last :
      (i my_phase : ℕ)
      → i < s.bar.barrier_size
      → s.place i ≡ entered my_phase
      → s.bar.barrier_count ≡ 1
      → Step s (record {
        bar = counted_off s.bar;
        place = update s.place i last;
        arrivals = update s.arrivals i (suc (s.arrivals i));
      })
  come :
      (i my_phase : ℕ)
      → i < s.bar.barrier_size
      → s.place i ≡ entered my_phase
      → s.bar.barrier_count ≢ 1
      → Step s (record {
        bar = counted_off s.bar;
        place = update s.place i (waiting my_phase);
        arrivals = update s.arrivals i (suc (s.arrivals i));
      })
  renew :
      (i : ℕ)
      → i < s.bar.barrier_size
      → s.place i ≡ last
      → Step s (record s {
        bar = record s.bar { barrier_count = s.bar.barrier_size };
        place = update s.place i renewed;
      })
  toggle :
      (i : ℕ)
      → i < s.bar.barrier_size
      → s.place i ≡ renewed
      → Step s (record s {
        bar = record s.bar { barrier_phase = complement s.bar.barrier_phase };
        place = update s.place i toggled;
      })
  wake :
      (i : ℕ)
      → i < s.bar.barrier_size
      → s.place i ≡ toggled
      → Step s (record s { place = update (λ j. woken (s.place j)) i outside })
  leave :
      (i my_phase : ℕ)
      → i < s.bar.barrier_size
      → s.place i ≡ waiting my_phase
      → my_phase ≢ s.bar.barrier_phase
      → Step s (record s { place = update s.place i outside })
  -- `futex_wait` sleeps only if the phase is still the thread's own.
  sleep :
      (i my_phase : ℕ)
      → i < s.bar.barrier_size
      → s.place i ≡ waiting my_phase
      → my_phase ≡ s.bar.barrier_phase
      → Step s (record s { place = update s.place i (asleep my_phase) })
  -- `futex_wait` may also return for no reason.
  spurious :
      (i my_phase : ℕ)
      → i < s.bar.barrier_size
      → s.place i ≡ asleep my_phase
      → Step s (record s { place = update s.place i (waiting my_phase) })

-- The barrier for `size` threads, with none of them in it.
abbrev pub start : ℕ → State
start size = record { bar = initialize size barrier; place = λ _. outside; arrivals = λ _. 0 }

pub data Reach (size : ℕ) : State → Type 0 where
  here : Reach size (start size)
  next : {s t : State} → Reach size s → Step s t → Reach size t
