-- ===== src/Tests/Atomics.antt =====
-- Runs of the atomic operations over mutexes.
use pfunc.Base.{ℕ, ◌≡◌, refl, [], ◌∷◌, arith}
use pfunc.Sync.Atomics.{
  Call, compare_and_swap, fetch_and_store, fetch_and_add, fetch_and_add_lock, lock_of, outside,
  entered, access, with_lock, Reach, here, next, lock, go, unlock, Sequential, State,
}
use pfunc.Sync.Atomics.Order.{Reach-Sequential, mixed-loses_store}

-- The calls of threads that only add.
abbrev Adds : Call → Type 0
Adds (fetch_and_add addend) = Unit
Adds _ = ⊥

Adds-lock : (call : Call) → Adds call → lock_of call ≡ fetch_and_add_lock
unfolding lock_of
Adds-lock (compare_and_swap exchg comprnd) h = absurd h
Adds-lock (fetch_and_store new_val) h = absurd h
Adds-lock (fetch_and_add addend) h = refl

-- On a word of 8 bits, thread 1 adds 250 to 10, and thread 0 then adds 3.
two_adds :
    (s : State) × Reach 8 Adds 10 s
    × ((j : ℕ) → s.place j ≡ outside)
    × (s.word ≡ 7)
    × (s.returned ≡ (fetch_and_add 250, 10) ∷ (fetch_and_add 3, 4) ∷ [])
unfolding lock_of entered access with_lock
two_adds =
    let taken = next here (lock 1 (fetch_and_add 250) tt refl refl) in
    let first = next (next (next taken (go 1)) (go 1)) (go 1) in
    let between = next first (unlock 1 (fetch_and_add 250) 10 refl) in
    let again = next between (lock 0 (fetch_and_add 3) tt refl refl) in
    let second = next (next (next again (go 0)) (go 0)) (go 0) in
    (_, next second (unlock 0 (fetch_and_add 3) 4 refl), (λ j. ground arith), refl, refl)

Reach-Sequential_example : Sequential 8 10 two_adds.0.returned two_adds.0.word
Reach-Sequential_example = Reach-Sequential fetch_and_add_lock Adds-lock two_adds.1 two_adds.2

-- The futex mutex makes such calls: `lock` swaps 1 (taken) for 2 (with waiters), and `unlock` stores 0.
mixed-loses_store_example :
    (s : State) × Reach 32 (λ _. Unit) 1 s
    × ((j : ℕ) → s.place j ≡ outside)
    × (s.returned ≡ (fetch_and_store 0, 1) ∷ (compare_and_swap 2 1, 2) ∷ [])
    × (s.word ≡ 2)
    × ¬ Sequential 32 1 ((fetch_and_store 0, 1) ∷ (compare_and_swap 2 1, 2) ∷ []) 2
    × ¬ Sequential 32 1 ((compare_and_swap 2 1, 2) ∷ (fetch_and_store 0, 1) ∷ []) 2
mixed-loses_store_example = mixed-loses_store 2 1 0 tt tt (ground arith) (ground arith)
