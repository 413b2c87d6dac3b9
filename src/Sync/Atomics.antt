-- ===== src/Sync/Atomics.antt =====
-- pfunc/asm/generic.h: atomic operations on a word of `w` bits, as a step relation of any number of threads.
-- Each of the three operations has a static mutex of its own. One step is to take a mutex, one access to the
-- word, or to release a mutex; memory is sequentially consistent. Numbers are the words as unsigned.
pub mod Invariant
pub mod Order
use pfunc.Base.{
  ℕ, ◌+◌, ◌%◌, ◌^◌, ◌≡◌, Bool, true, false, List, [], ◌∷◌, ◌++◌, ◌==◌, if◌then◌else◌, update,
}

-- A call, with its arguments.
pub data Call : Type 0 where
  compare_and_swap : (exchg comprnd : ℕ) → Call
  fetch_and_store : (new_val : ℕ) → Call
  fetch_and_add : (addend : ℕ) → Call

pub data Lock : Type 0 where
  compare_and_swap_lock fetch_and_store_lock fetch_and_add_lock : Lock

unfoldable pub lock_of : Call → Lock
lock_of (compare_and_swap exchg comprnd) = compare_and_swap_lock
lock_of (fetch_and_store new_val) = fetch_and_store_lock
lock_of (fetch_and_add addend) = fetch_and_add_lock

-- Where a thread stands.
pub data Place : Type 0 where
  outside : Place
  comparing : (exchg comprnd : ℕ) → Place  -- before `*cast_loc == comprnd`
  swapping : (exchg comprnd : ℕ) → Place  -- before `*cast_loc = exchg`
  rereading : (exchg comprnd : ℕ) → Place  -- in the other branch, before `result = *cast_loc`
  loading_to_store : (new_val : ℕ) → Place  -- before `result = *cast_loc`
  storing : (new_val result : ℕ) → Place  -- before `*cast_loc = new_val`
  loading_to_add : (addend : ℕ) → Place  -- before `result = *cast_loc`
  adding : (addend result : ℕ) → Place  -- before the read in `*cast_loc += addend`
  summing : (addend result value : ℕ) → Place  -- before the write there
  leaving : (call : Call) (result : ℕ) → Place  -- before the mutex is released

-- Where a call stands when it has its mutex.
unfoldable pub entered : Call → Place
entered (compare_and_swap exchg comprnd) = comparing exchg comprnd
entered (fetch_and_store new_val) = loading_to_store new_val
entered (fetch_and_add addend) = loading_to_add addend

-- The next access to the word `x`: where the thread stands after it, and the word then.
unfoldable pub access : (w : ℕ) → Place → ℕ → Place × ℕ
access w (comparing exchg comprnd) x =
    (if x == comprnd then swapping exchg comprnd else rereading exchg comprnd, x)
access w (swapping exchg comprnd) x = (leaving (compare_and_swap exchg comprnd) exchg, exchg)
access w (rereading exchg comprnd) x = (leaving (compare_and_swap exchg comprnd) x, x)
access w (loading_to_store new_val) x = (storing new_val x, x)
access w (storing new_val result) x = (leaving (fetch_and_store new_val) result, new_val)
access w (loading_to_add addend) x = (adding addend x, x)
access w (adding addend result) x = (summing addend result x, x)
access w (summing addend result value) x =
    (leaving (fetch_and_add addend) result, (value + addend) % 2 ^ w)
access w outside x = (outside, x)
access w (leaving call result) x = (leaving call result, x)

-- `returned` has the calls that have returned, in order, with their results.
pub record State : Type 0 where
  pub word : ℕ
  pub taken : Lock → Bool
  pub place : ℕ → Place
  pub returned : List (Call × ℕ)

-- The mutexes, with one of them taken or released.
unfoldable pub with_lock : (Lock → Bool) → Lock → Bool → Lock → Bool
with_lock taken compare_and_swap_lock b compare_and_swap_lock = b
with_lock taken fetch_and_store_lock b fetch_and_store_lock = b
with_lock taken fetch_and_add_lock b fetch_and_add_lock = b
with_lock taken _ b l = taken l

-- One step of a thread; the threads make the calls that `makes` allows.
pub data Step (w : ℕ) (makes : Call → Type 0) (s : State) : State → Type 0 where
  lock :
      (i : ℕ) (call : Call)
      → makes call
      → s.place i ≡ outside
      → s.taken (lock_of call) ≡ false
      → Step w makes s (record s {
        taken = with_lock s.taken (lock_of call) true;
        place = update s.place i (entered call);
      })
  go :
      (i : ℕ)
      → Step w makes s (record s {
        word = (access w (s.place i) s.word).1;
        place = update s.place i (access w (s.place i) s.word).0;
      })
  unlock :
      (i : ℕ) (call : Call) (result : ℕ)
      → s.place i ≡ leaving call result
      → Step w makes s (record s {
        taken = with_lock s.taken (lock_of call) false;
        place = update s.place i outside;
        returned = s.returned ++ (call, result) ∷ [];
      })

abbrev pub start : ℕ → State
start x = record { word = x; taken = λ _. false; place = λ _. outside; returned = [] }

pub data Reach (w : ℕ) (makes : Call → Type 0) (x : ℕ) : State → Type 0 where
  here : Reach w makes x (start x)
  next : {s t : State} → Reach w makes x s → Step w makes s t → Reach w makes x t

-- What the word is after a call on its own, and what it returns (the code in pfunc/pfunc_atomics.h).
abbrev pub word_after : ℕ → Call → ℕ → ℕ
word_after w (compare_and_swap exchg comprnd) x = if x == comprnd then exchg else x
word_after w (fetch_and_store new_val) x = new_val
word_after w (fetch_and_add addend) x = (x + addend) % 2 ^ w

abbrev pub result_of : Call → ℕ → ℕ
result_of (compare_and_swap exchg comprnd) x = if x == comprnd then exchg else x
result_of (fetch_and_store new_val) x = x
result_of (fetch_and_add addend) x = x

-- These calls, with these results, one after the other, take the word from `x` to `y`.
unfoldable pub Sequential : ℕ → ℕ → List (Call × ℕ) → ℕ → Type 0
Sequential w x [] y = x ≡ y
Sequential w x ((call, result) ∷ rest) y =
    (result ≡ result_of call x) × Sequential w (word_after w call x) rest y
