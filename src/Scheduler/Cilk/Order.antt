-- ===== src/Scheduler/Cilk/Order.antt =====
-- The order in which the Cilk policy serves a queue.

use pfunc.Base.{
  ℕ, ◌<◌, ◌≡◌, ap, ◌∙◌, true, false, List, [], ◌∷◌, ◌++◌, reverse, some, arith, if◌then◌else◌, ◌+◌,
  ◌%◌, ◌==◌, ◌≢◌, inl, inr, ℕ_discrete, Option-cases, get_elem?,
}
use pfunc.Scheduler.Scan.{found, PredicatePair, search_from-own, search_from-found}
use pfunc.Scheduler.Store.{QueueSet, replace}
use pfunc.Scheduler.Policy.{IsOpen}
use pfunc.Scheduler.Runs.{puts_gets, puts_gets-at, foldl-cons, length-reverse}
use pfunc.Scheduler.Cilk.{
  get, put, take_front, take_back, test_and_get_front, test_and_get_back, split_last,
  split_last-some,
}

module _ {A : Type 0} where
  put-at :
      (s : QueueSet (List A)) (q : ℕ) (x : A) (ys : List A)
      → get_elem? s.queues q ≡ some ys
      → put s q x ≡ some (replace s q (x ∷ ys))
  unfolding put
  put-at s q x ys e = rw e

  -- The caller's own queue comes first: if its front passes `own_pred`, `get` returns that task, and
  -- the rest of the queue and all other queues stay as they are.
  pub get-own_front :
      (s : QueueSet (List A)) (q : ℕ) (cnd : PredicatePair A) (x : A) (ys : List A)
      → q < s.num_queues
      → get_elem? s.queues q ≡ some (x ∷ ys)
      → cnd.own_pred x ≡ true
      → get s q cnd ≡ found x (replace s q ys)
  unfolding get test_and_get_front
  get-own_front s q cnd x ys h e ok =
      search_from-own _ s.num_queues q s.num_queues h (omega arith)
        (rw (e, test_and_get_front) (ground arith))

  -- The owner works last come, first served: tasks stored one by one in an empty queue of the set
  -- come back, to a caller of that queue whose predicates accept every task, in the opposite order,
  -- and the set is then as it was.
  pub owner_puts_gets-reverse :
      (s : QueueSet (List A)) (q : ℕ) (cnd : PredicatePair A) (xs : List A)
      → q < s.num_queues
      → get_elem? s.queues q ≡ some []
      → IsOpen cnd
      → puts_gets (λ t. put t q) (λ t. get t q cnd) xs s ≡ some (reverse xs, s)
  owner_puts_gets-reverse s q cnd xs h e o =
      puts_gets-at q (λ y x. x ∷ y) (λ t. put t q) (λ t. get t q cnd) (λ t x ys. put-at t q x ys)
        (λ t x ys lt at_q. get-own_front t q cnd x ys lt at_q (o true x)) s xs (reverse xs) h e
        (foldl-cons xs) (length-reverse xs)

  test_and_get_back-found :
      (s : QueueSet (List A)) (cnd : PredicatePair A) (i : ℕ) (a : A) (t : QueueSet (List A))
      → test_and_get_back s cnd i ≡ found a t
      → (init : List A) × (get_elem? s.queues i ≡ some (init ++ a ∷ []))
        × (t ≡ replace s i init)
        × (cnd.steal_pred a ≡ true)
  unfolding test_and_get_back take_back
  test_and_get_back-found s cnd i a t e = elim (Option-cases (get_elem? s.queues i)) [
    | inl missing ↦ cc (rw (missing, test_and_get_back) at e)
    | inr (queue, at_i) ↦ elim (Option-cases (split_last queue)) [
      | inl empty ↦ ground arith
      | inr ((init, back), ends) ↦
          let here : back ≡ a = ground arith in
          let whole : queue ≡ init ++ a ∷ [] =
            split_last-some queue ends ∙ ap (λ x. init ++ x ∷ []) here in
          (init, at_i ∙ ap some whole, ground arith, ground arith)
    ]
  ]

  -- A thief takes the oldest task of its victim: where the caller's queue is empty, a task that
  -- `get` returns passes `steal_pred` and is the last of another queue, which keeps all tasks in
  -- front of it; nothing else changes.
  pub get-steals_back :
      (s : QueueSet (List A)) (q : ℕ) (cnd : PredicatePair A) (a : A) (t : QueueSet (List A))
      → get_elem? s.queues q ≡ some []
      → get s q cnd ≡ found a t
      → (i : ℕ) × (init : List A) × (i ≢ q)
        × (get_elem? s.queues i ≡ some (init ++ a ∷ []))
        × (t ≡ replace s i init)
        × (cnd.steal_pred a ≡ true)
  unfolding get test_and_get_front take_front
  get-steals_back s q cnd a t empty e =
      let (j, lt, hit, before) = search_from-found _ s.num_queues q s.num_queues q e in
      at_queue ((q + j) % s.num_queues) hit
    where
      at_queue :
          (i : ℕ)
          → (if i == q then test_and_get_front s cnd i else test_and_get_back s cnd i) ≡ found a t
          → (k : ℕ) × (init : List A) × (k ≢ q)
            × (get_elem? s.queues k ≡ some (init ++ a ∷ []))
            × (t ≡ replace s k init)
            × (cnd.steal_pred a ≡ true)
      at_queue i hit = elim (ℕ_discrete i q) [
        | yes own ↦
            let own' : (i == q) ≡ true = ground arith in
            let none_there : get_elem? s.queues i ≡ some [] = rw own empty in
            absurd (ground (arith, none_there))
        | no other ↦
            let other' : (i == q) ≡ false = ground arith in
            let (init, ends, result, ok) =
              test_and_get_back-found s cnd i a t (rw (other') at hit) in
            (i, init, other, ends, result, ok)
      ]
