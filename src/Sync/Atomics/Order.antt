-- ===== src/Sync/Atomics/Order.antt =====
-- When the atomic operations of pfunc/asm/generic.h take effect one after the other, and when not.
use pfunc.Base.{ℕ, ◌≡◌, ◌≢◌, refl, ap, subst, ◌∙◌, [], ◌∷◌, update, arith}
use pfunc.Sync.Atomics.{
  Call, compare_and_swap, fetch_and_store, Lock, lock_of, Place, outside, comparing, swapping,
  loading_to_store, storing, leaving, entered, access, State, with_lock, lock, go, unlock, start,
  Reach, here, next, Sequential,
}
use pfunc.Sync.Atomics.Invariant.{Under, idle, busy, Reach-Inv}

-- As long as the threads call one and the same of the three operations, with whatever arguments, it is
-- atomic: whenever no call is under way, the calls that have returned, in the order in which they did, gave
-- the results of their documented code, executed one after the other from the initial word, and the word
-- is what that leaves.
pub Reach-Sequential :
    {w x : ℕ} {makes : Call → Type 0} {s : State} (l : Lock)
    → ((call : Call) → makes call → lock_of call ≡ l)
    → Reach w makes x s
    → ((j : ℕ) → s.place j ≡ outside)
    → Sequential w x s.returned s.word
unfolding Under
Reach-Sequential {w} {x} {makes} {s} l one r outs = elim (Reach-Inv one r) [
  | idle _ _ seq ↦ seq
  | busy i b _ _ _ under _ ↦ absurd (subst (Under w b s.word) (outs i) under)
]

-- An access, with what it leads to written out.
goes_to :
    {w x : ℕ} {makes : Call → Type 0} (s : State) (i : ℕ) (p q : Place) (y : ℕ)
    → s.place i ≡ p
    → access w p s.word ≡ (q, y)
    → Reach w makes x s
    → Reach w makes x (record s { word = y; place = update s.place i q })
goes_to {w} {x} {makes} s i p q y at found r =
    subst (λ a. Reach w makes x (record s { word = a.1; place = update s.place i a.0 }))
      (ap (λ o. access w o s.word) at ∙ found) (next r (go i))

-- A thread 0 compares and swaps while a thread 1 stores.
mixed_run :
    {w : ℕ} {makes : Call → Type 0} (e c n : ℕ)
    → makes (compare_and_swap e c)
    → makes (fetch_and_store n)
    → (s : State) × Reach w makes c s
      × ((j : ℕ) → s.place j ≡ outside)
      × (s.returned ≡ (fetch_and_store n, c) ∷ (compare_and_swap e c, e) ∷ [])
      × (s.word ≡ e)
unfolding access with_lock lock_of entered
mixed_run {w} {makes} e c n swap store =
    let r0 : Reach w makes c (start c) = here in
    let r1 = next r0 (lock 0 (compare_and_swap e c) swap refl refl) in
    let r2 = goes_to _ 0 (comparing e c) (swapping e c) c refl (ground arith) r1 in
    let r3 = next r2 (lock 1 (fetch_and_store n) store refl refl) in
    let r4 = goes_to _ 1 (loading_to_store n) (storing n c) c refl refl r3 in
    let r5 = goes_to _ 1 (storing n c) (leaving (fetch_and_store n) c) n refl refl r4 in
    let r6 = next r5 (unlock 1 (fetch_and_store n) c refl) in
    let r7 = goes_to _ 0 (swapping e c) (leaving (compare_and_swap e c) e) e refl refl r6 in
    let r8 = next r7 (unlock 0 (compare_and_swap e c) e refl) in
    (_, r8, (λ j. ground arith), refl, refl)

-- Different operations are not atomic with one another: while a thread swaps `c` for `e`, a store of another
-- value `n` by another thread may be lost. Both calls return as if they had been alone, the store
-- first, and the word is `e` in the end; in no order of the two would that happen.
pub mixed-loses_store :
    {w : ℕ} {makes : Call → Type 0} (e c n : ℕ)
    → makes (compare_and_swap e c)
    → makes (fetch_and_store n)
    → n ≢ c
    → n ≢ e
    → (s : State) × Reach w makes c s
      × ((j : ℕ) → s.place j ≡ outside)
      × (s.returned ≡ (fetch_and_store n, c) ∷ (compare_and_swap e c, e) ∷ [])
      × (s.word ≡ e)
      × ¬ Sequential w c ((fetch_and_store n, c) ∷ (compare_and_swap e c, e) ∷ []) e
      × ¬ Sequential w c ((compare_and_swap e c, e) ∷ (fetch_and_store n, c) ∷ []) e
unfolding Sequential
mixed-loses_store e c n swap store other differs =
    let (s, r, outs, returned, word) = mixed_run e c n swap store in
    (s, r, outs, returned, word, (λ h. ground arith), λ h. differs h.1.1)
