-- ===== src/Task/Event.antt =====
-- pfunc/event.hpp: the event that signals the end of a task. `num_waiters` is a 32-bit word, which
-- an atomic add of -1 wraps.
pub mod Waiters
pub mod CondWaiters
use pfunc.Base.{
  ℕ, zero, suc, ◌+◌, ◌-◌, ◌%◌, ◌^◌, ◌≤◌, ◌<◌, ◌≡◌, refl, Bool, true, false, Option, none, some,
  List, [], ◌∷◌, arith, ◌==◌, if◌then◌else◌, replicate, ℕ_discrete, ◌↔◌,
}

pub data EventState : Type 0 where
  inactive active_incomplete active_complete : EventState

pub record Event : Type 0 where
  pub event_state : EventState
  pub num_waiters : ℕ

-- `pfunc_fetch_and_add_32 (&num_waiters, -1)`, as the word afterwards.
abbrev pub minus_one : ℕ → ℕ
minus_one n = (n + 2 ^ 32 - 1) % 2 ^ 32

-- The constructor `event_base ()`.
abbrev pub event_base : Event
event_base = record { event_state = inactive; num_waiters = 1 }

-- A waiter counts itself off, and the one whose number is `last` puts the event out of use.
count_off : ℕ → Event → Event
count_off last e = record {
  event_state = if e.num_waiters == last then inactive else e.event_state;
  num_waiters = minus_one e.num_waiters;
}

test_in : EventState → Event → Event × Bool
unfolding count_off
test_in active_incomplete e = (e, false)
test_in inactive e = (e, true)
test_in active_complete e = (count_off 1 e, true)

-- `test`.
unfoldable pub test : Event → Event × Bool
unfolding test_in
test e = test_in e.event_state e

-- `reset`.
unfoldable pub reset : ℕ → Event → Event
reset nwait e = record { event_state = active_incomplete; num_waiters = nwait }

-- `notify`, of either kind of event; a sleeper on a waitable event is woken.
unfoldable pub notify : Event → Event
notify e = record e { event_state = active_complete }

-- `wait` of a waitable event, once the caller is awake: after `futex_wait` or `cnd.wait` returned,
-- or at once where the event was not incomplete.
unfoldable pub wake_up : Event → Event
unfolding count_off
wake_up e = count_off 0 e

-- `wait`: `none` is a caller that goes to sleep.
unfoldable pub wait : Event → Option Event
unfolding wake_up
wait e = elim e.event_state [ active_incomplete ↦ none | _ ↦ some (wake_up e) ]

-- `k` tests one after the other, with their results.
abbrev pub tests : ℕ → Event → Event × List Bool
tests zero e = (e, [])
tests (suc k) e = let (e', done) = test e in let (e'', rest) = tests k e' in (e'', done ∷ rest)

-- Until it is notified, a reset event tests false and stays as it is, however often it is tested.
pub tests-reset : (k n : ℕ) (e : Event) → tests k (reset n e) ≡ (reset n e, replicate k false)
unfolding test reset
tests-reset zero n e = refl
tests-reset (suc k) n e = ground (arith, tests-reset k n e)

-- The event after `k` of the `n` waiters have seen it complete.
abbrev pub counted : ℕ → ℕ → Event
counted n k = record {
  event_state = if k == n then inactive else active_complete;
  num_waiters = n - k;
}

abbrev complete : ℕ → Event
complete m = record { event_state = active_complete; num_waiters = m }

-- One test of a complete event, by whether its waiter is the last.
test-complete : (m : ℕ) → 0 < m → m < 2 ^ 31 → test (complete m) ≡ (counted m 1, true)
unfolding test
test-complete m pos small = ground arith

tests-out_of_use : (k n : ℕ) → tests k (counted n n) ≡ (counted n n, replicate k true)
unfolding test
tests-out_of_use zero n = refl
tests-out_of_use (suc k) n = ground (arith, tests-out_of_use k n)

tests-complete :
    (k m : ℕ) → k ≤ m → 0 < m → m < 2 ^ 31 → tests k (complete m) ≡ (counted m k, replicate k true)
tests-complete zero m h pos small = ground arith
tests-complete (suc k) m h pos small = elim (ℕ_discrete m 1) [
  | yes last ↦ ground (arith, test-complete m pos small)
  | no more ↦
      let first : test (complete m) ≡ (complete (m - 1), true) =
        ground (arith, test-complete m pos small) in
      ground (arith, first, tests-complete k (m - 1))
]

-- A reset event with `n` waiters, at least one and fewer than 2^31, once notified, tests true for
-- each of them; it stays complete, with one waiter fewer at each test, until exactly the test of
-- the last one puts it out of use.
pub tests-notify :
    (k n : ℕ) (e : Event)
    → k ≤ n
    → 0 < n
    → n < 2 ^ 31
    → tests k (notify (reset n e)) ≡ (counted n k, replicate k true)
unfolding notify reset
tests-notify k n e h pos small = tests-complete k n h pos small

abbrev wake_ups : ℕ → Event → Event
wake_ups zero e = e
wake_ups (suc k) e = wake_ups k (wake_up e)

-- `wait` counts its waiters one too far: after all `n` of them have woken up, fewer than 2^31, the
-- event is still complete, where `n` tests would have put it out of use; one more wake-up would.
pub wake_ups-complete :
    (n : ℕ) (e : Event)
    → n < 2 ^ 31
    → (wake_ups n (notify (reset n e)) ≡ complete 0)
      × ((wake_up (complete 0)).event_state ≡ inactive)
unfolding notify reset wake_up
wake_ups-complete n e small = (count_down n small, refl)
  where
    count_down : (k : ℕ) → k < 2 ^ 31 → wake_ups k (complete k) ≡ complete 0
    count_down zero h = refl
    count_down (suc k) h =
        let first : wake_up (complete (suc k)) ≡ complete k = ground arith in
        rw first (count_down k (omega arith))

-- A caller of `wait` sleeps exactly while the event is incomplete.
pub wait-none : (e : Event) → (wait e ≡ none) ↔ (e.event_state ≡ active_incomplete)
unfolding wait
wait-none e = ground arith
