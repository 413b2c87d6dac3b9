-- ===== src/Task/Event/CondWaiters/Unheld.antt =====
-- A waiter that comes to a complete event over a condition variable (pfunc/event.hpp).
use pfunc.Base.{ℕ, ◌≡◌, ◌≢◌}
use pfunc.Task.Event.CondWaiters.{Place, testing, before_sleep, unlocking, Holder, waiter, State}

-- Where a waiter may hold the mutex.
abbrev IsInside : Place → Type 0
IsInside testing = Unit
IsInside before_sleep = Unit
IsInside unlocking = Unit
IsInside _ = ⊥

abbrev holder_of : Holder → ℕ
holder_of (waiter i) = i
holder_of _ = 0

abbrev IsWaiter : Holder → Type 0
IsWaiter (waiter i) = Unit
IsWaiter _ = ⊥

-- Only a waiter between its `lock` and its `unlock`, or its `cnd.wait`, holds the mutex.
abbrev Inv : State → Type 0
Inv s = (j : ℕ) → s.holder ≡ waiter j → IsInside (s.place j)

-- A waiter before `lck.unlock ()` that does not hold the mutex.
pub record IsStuck (a : ℕ) (s : State) : Type 0 where
  pub before : s.place a ≡ unlocking
  pub unheld : s.holder ≢ waiter a
