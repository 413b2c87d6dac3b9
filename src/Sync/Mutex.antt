-- ===== src/Sync/Mutex.antt =====
-- The mutex of pfunc/mutex.hpp over a futex, with any number of threads at it. One step is one atomic
-- access to the word, or one system call; memory is sequentially consistent.
pub mod Safety
use pfunc.Base.{update, ℕ, ◌<◌, ◌≡◌, ◌≢◌, ◌↔◌, refl, Bool, true, false}

-- `PFUNC_MUTEX_FREE`, `PFUNC_MUTEX_LOCKED` and `PFUNC_MUTEX_LOCKED_WITH_WAITERS`.
pub data Word : Type 0 where
  free locked locked_with_waiters : Word

-- Where a thread stands.
pub data Pc : Type 0 where
  idle : Pc  -- outside
  contend : Pc  -- at the head of the `do` loop of `lock`
  spin : Pc  -- before `futex_wait`
  asleep : Pc  -- in `futex_wait`
  retry : Pc  -- before the compare-and-swap of the `while`
  critical : Pc  -- between `lock` and `unlock`
  waking : Pc  -- in `unlock`, before `futex_wake`

-- One step of one thread, on the word and on its own place.
pub data Move : Word → Pc → Word → Pc → Type 0 where
  -- `lock`: the first compare-and-swap, which takes a free mutex.
  acquire : Move free idle locked critical
  busy : {w : Word} → w ≢ free → Move w idle w contend
  -- The compare-and-swap of the loop marks a locked mutex; on a free one it sees that it is free.
  mark : Move locked contend locked_with_waiters spin
  marked : Move locked_with_waiters contend locked_with_waiters spin
  seen_free : Move free contend free retry
  -- `futex_wait` sleeps only if the word still says that there are waiters. (The spinning before it
  -- reads the word and changes nothing.)
  sleep : Move locked_with_waiters spin locked_with_waiters asleep
  changed : {w : Word} → w ≢ locked_with_waiters → Move w spin w retry
  -- `futex_wait` may also return for no reason.
  spurious : {w : Word} → Move w asleep w retry
  retake : Move free retry locked_with_waiters critical
  refused : {w : Word} → w ≢ free → Move w retry w contend
  -- `unlock`: the word is swapped for free, and only a word with waiters leads to `futex_wake`.
  release : Move locked critical free idle
  release_waiters : Move locked_with_waiters critical free waking

pub record System : Type 0 where
  pub word : Word
  pub pc : ℕ → Pc

-- One step of `n` threads. `futex_wake` wakes one sleeper, or none if there is none.
pub data Step (n : ℕ) (s : System) : System → Type 0 where
  move :
      (i : ℕ) {w : Word} {p : Pc}
      → i < n
      → Move s.word (s.pc i) w p
      → Step n s (record { word = w; pc = update s.pc i p })
  wake :
      (i j : ℕ)
      → i < n
      → s.pc i ≡ waking
      → s.pc j ≡ asleep
      → Step n s (record { word = s.word; pc = update (update s.pc j retry) i idle })
  wake_nobody :
      (i : ℕ)
      → i < n
      → s.pc i ≡ waking
      → ((j : ℕ) → s.pc j ≢ asleep)
      → Step n s (record { word = s.word; pc = update s.pc i idle })

abbrev pub start : System
start = record { word = free; pc = λ _. idle }

pub data Reach (n : ℕ) : System → Type 0 where
  here : Reach n start
  next : {s t : System} → Reach n s → Step n s t → Reach n t

-- `trylock`: the word afterwards, and the result of `FREE != pfunc_compare_and_swap_32 (…)`, which
-- returns the old word.
unfoldable pub trylock : Word → Word × Bool
trylock free = (locked, false)
trylock locked = (locked, true)
trylock locked_with_waiters = (locked_with_waiters, true)

-- The code tells the wrong way round: `trylock` returns true exactly if the mutex was not free, and
-- then it has taken nothing; on a free mutex it takes it, and returns false.
pub trylock-inverted :
    (w : Word)
    → (((trylock w).1 ≡ true) ↔ (w ≢ free))
      × (w ≢ free → (trylock w).0 ≡ w)
      × (w ≡ free → trylock w ≡ (locked, false))
unfolding trylock
trylock-inverted free = ((λ e. cc, λ h. absurd (h refl)), λ h. absurd (h refl), λ e. refl)
trylock-inverted locked = ((λ e. λ h. cc, λ h. refl), λ h. refl, λ e. cc)
trylock-inverted locked_with_waiters = ((λ e. λ h. cc, λ h. refl), λ h. refl, λ e. cc)
