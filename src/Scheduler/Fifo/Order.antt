-- ===== src/Scheduler/Fifo/Order.antt =====
-- The order in which the FIFO policy serves a queue.
use mathlib.Core.List.{append-nil, append_assoc, foldl}
use pfunc.Base.{ℕ, ◌<◌, ◌≡◌, refl, sym, ◌∙◌, true, List, [], ◌∷◌, ◌++◌, some, arith, get_elem?}
use pfunc.Scheduler.Scan.{found, PredicatePair, search_from-own}
use pfunc.Scheduler.Store.{QueueSet, replace}
use pfunc.Scheduler.Policy.{IsOpen}
use pfunc.Scheduler.Runs.{puts_gets, puts_gets-at}
use pfunc.Scheduler.Fifo.{get, put, test_and_get}

module _ {A : Type 0} where
  put-at :
      (s : QueueSet (List A)) (q : ℕ) (x : A) (ys : List A)
      → get_elem? s.queues q ≡ some ys
      → put s q x ≡ some (replace s q (ys ++ x ∷ []))
  unfolding put
  put-at s q x ys e = rw e

  -- The caller's own queue comes first: if its front passes `own_pred`, `get` returns that task, and
  -- the rest of the queue and all other queues stay as they are.
  pub get-own_front :
      (s : QueueSet (List A)) (q : ℕ) (cnd : PredicatePair A) (x : A) (ys : List A)
      → q < s.num_queues
      → get_elem? s.queues q ≡ some (x ∷ ys)
      → cnd.own_pred x ≡ true
      → get s q cnd ≡ found x (replace s q ys)
  unfolding get test_and_get
  get-own_front s q cnd x ys h e ok =
      search_from-own _ s.num_queues q s.num_queues h (omega arith)
        (rw (e, test_and_get) (ground arith))

  foldl-snoc : (xs ys : List A) → foldl (λ q x. q ++ x ∷ []) ys xs ≡ ys ++ xs
  foldl-snoc [] ys = sym (append-nil ys)
  foldl-snoc (x ∷ xs) ys = foldl-snoc xs (ys ++ x ∷ []) ∙ append_assoc ys (x ∷ []) xs

  -- First come, first served: tasks stored one by one in an empty queue of the set come back, to a
  -- caller of that queue whose predicates accept every task, in the order in which they were
  -- stored, and the set is then as it was.
  pub puts_gets-order :
      (s : QueueSet (List A)) (q : ℕ) (cnd : PredicatePair A) (xs : List A)
      → q < s.num_queues
      → get_elem? s.queues q ≡ some []
      → IsOpen cnd
      → puts_gets (λ t. put t q) (λ t. get t q cnd) xs s ≡ some (xs, s)
  puts_gets-order s q cnd xs h e o =
      puts_gets-at q (λ y x. y ++ x ∷ []) (λ t. put t q) (λ t. get t q cnd)
        (λ t x ys. put-at t q x ys)
        (λ t x ys lt at_q. get-own_front t q cnd x ys lt at_q (o true x)) s xs xs h e
        (foldl-snoc xs []) refl
