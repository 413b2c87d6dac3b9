-- ===== src/Sync/Windows.antt =====
-- The condition variable of pfunc/cond.hpp for Windows, with exceptions: it is made of a semaphore, an event
-- and a count of its waiters. The system is a parameter: `os` says for each call 0, or the error code that
-- `GetLastError` then has.
use Prim.Native.String.{String}
use pfunc.Base.{
  ℕ, suc, ◌+◌, ◌-◌, ◌<◌, ◌≡◌, ◌≢◌, ◌⊎◌, inl, inr, List, [], ◌∷◌, ◌++◌, Bool, true, false,
  Bool-cases, ◌&&◌, ◌==◌, ltb, if◌then◌else◌, arith,
}
use pfunc.Task.Exception.{Result, returns, throws}
use pfunc.Thread.Calls.{Outcome, Attempt, failure, checked}

pub record Cond : Type 0 where
  pub num_waiters : ℕ
  pub was_broadcast : Bool

-- `MAX_COUNT`, the most that the semaphore counts.
abbrev pub max_count : ℕ
max_count = 1024

pub data WindowsCall : Type 0 where
  create_semaphore initialize_section create_event delete_section close_queue close_event :
      WindowsCall
  enter_section leave_section : WindowsCall  -- of `num_waiters_lock`
  sleep_on_queue : WindowsCall  -- `SignalObjectAndWait` of the mutex and the semaphore
  acknowledge : WindowsCall  -- `SignalObjectAndWait` of `all_awake_event` and the mutex
  wait_for_mutex wait_for_all_awake : WindowsCall
  release_semaphore : ℕ → WindowsCall

-- The constructor's variable.
abbrev pub new_cond : Cond
new_cond = record { num_waiters = 0; was_broadcast = false }

-- Calls that cannot fail, before others.
abbrev pub preceded : List WindowsCall → Outcome WindowsCall → Outcome WindowsCall
preceded calls (later, r) = (calls ++ later, r)

module _ (os : WindowsCall → ℕ) where
  abbrev pub one_call : WindowsCall → String → String → Outcome WindowsCall
  one_call call site what = checked os (record { call = call; site = site; what = what } ∷ [])

  abbrev pub refused : WindowsCall → String → String → Result (Unit {0})
  refused call site what =
      throws (failure (record { call = call; site = site; what = what }) (os call))

  -- The constructor's calls.
  unfoldable pub cond : Outcome WindowsCall
  cond =
      let rest = preceded (create_semaphore ∷ initialize_section ∷ []) (
        one_call create_event "pfunc::detail::cond::cond::CreateEvent at "
          "Error in initializing the event") in
      if os create_semaphore == 0 then rest else (
        create_semaphore ∷ [],
        refused create_semaphore "pfunc::detail::cond::cond::CreateSemaphore at "
            "Error in initializing the thread_queue",
      )

  abbrev pub closing : WindowsCall → Attempt WindowsCall
  closing call = record {
    call = call;
    site = "pfunc::detail::cond::~cond::CloseHandle at ";
    what = "Error in destroying the condition variable";
  }

  -- The destructor's calls: the event is not closed where the semaphore cannot be.
  unfoldable pub destroy_cond : Outcome WindowsCall
  destroy_cond =
      preceded (delete_section ∷ []) (checked os (closing close_queue ∷ closing close_event ∷ []))

  -- `wait`, up to its sleep on the semaphore.
  unfoldable pub wait_begins : Cond → Cond × Outcome WindowsCall
  wait_begins c = (
    record c { num_waiters = c.num_waiters + 1 },
    preceded (enter_section ∷ leave_section ∷ []) (
        one_call sleep_on_queue "pfunc::detail::cond::wait::SignalObjectAndWait at "
          "Error on atomically releasing the mutex and waiting on the thread_queue"),
  )

  -- `wait`, from the end of that sleep on.
  unfoldable pub wait_ends : Cond → Cond × Outcome WindowsCall
  wait_ends c =
      let left = c.num_waiters - 1 in
      (
        record c { num_waiters = left },
        preceded (enter_section ∷ leave_section ∷ []) (
            if c.was_broadcast && (left == 0)
            then one_call acknowledge "pfunc::detail::cond::wait::SignalObjectAndWait at "
                "Error while checking we are the last thread out of the broadcast"
            else one_call wait_for_mutex "pfunc::detail::cond::wait::WaitForSingleObject at "
                "Error while waiting for the mutex"),
      )

  unfoldable pub signal : Cond → Outcome WindowsCall
  signal c = preceded (enter_section ∷ leave_section ∷ []) (
      if ltb 0 c.num_waiters
      then one_call (release_semaphore 1) "pfunc::detail::cond::signal::ReleaseSemaphore at "
          "Error releasing the thread_queue"
      else ([], returns tt))

  -- `broadcast`. (It reads `num_waiters` once: its other reads are in the same section.)
  unfoldable pub broadcast : Cond → Cond × Outcome WindowsCall
  broadcast c =
      let n = c.num_waiters in
      let marked = record c { was_broadcast = true } in
      let waited =
        one_call wait_for_all_awake "pfunc::detail::cond::broadcast::WaitForSingleObject at"
          "Error waiting for the broadcast to go through" in
      if ltb 0 n
      then if os (release_semaphore n) == 0
        then (
          if os wait_for_all_awake == 0 then record c { was_broadcast = false } else marked,
          preceded (enter_section ∷ release_semaphore n ∷ leave_section ∷ []) waited,
        )
        else (
          marked,
          (
            enter_section ∷ release_semaphore n ∷ [],
            refused (release_semaphore n) "pfunc::detail::cond::broadcast::ReleaseSemaphore at "
                "Error releasing the thread_queue",
          ),
        )
      else (c, (enter_section ∷ leave_section ∷ [], returns tt))

  -- How often `num_waiters_lock` is held after these calls, if `n` times before.
  abbrev pub held : ℕ → List WindowsCall → ℕ
  held n [] = n
  held n (enter_section ∷ rest) = held (suc n) rest
  held n (leave_section ∷ rest) = held (n - 1) rest
  held n (_ ∷ rest) = held n rest

  -- A wait and a signal leave `num_waiters_lock` free, however their calls come out. A broadcast does so
  -- unless there are waiters and the system refuses to release as many of them: then it throws with
  -- the lock held and `was_broadcast` still set.
  pub broadcast-held :
      (c : Cond)
      → (held 0 (wait_begins c).1.0 ≡ 0)
        × (held 0 (wait_ends c).1.0 ≡ 0)
        × (held 0 (signal c).0 ≡ 0)
        × ((held 0 (broadcast c).1.0 ≡ 0)
            ⊎ ((0 < c.num_waiters)
                × (os (release_semaphore c.num_waiters) ≢ 0)
                × (held 0 (broadcast c).1.0 ≡ 1)
                × ((broadcast c).0.was_broadcast ≡ true)
                × ((broadcast c).1.1 ≢ returns tt)))
  unfolding wait_begins wait_ends signal broadcast checked
  broadcast-held c = (
    ground arith,
    ground arith,
    ground arith,
    elim (Bool-cases (ltb 0 c.num_waiters)) [
      | inr nobody ↦ inl (ground arith)
      | inl somebody ↦ elim (Bool-cases (os (release_semaphore c.num_waiters) == 0)) [
        | inl released ↦ inl (ground arith)
        | inr failed ↦
            inr (ground arith, ground arith, ground arith, ground arith, λ e. ground arith)
      ]
    ],
  )
