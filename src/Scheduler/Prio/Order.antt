-- ===== src/Scheduler/Prio/Order.antt =====
-- Which task the priority policy of pfunc/prio.hpp hands out.
use mathlib.Core.List.{Mem}
use pfunc.Base.{ℕ, ◌<◌, ◌+◌, ◌%◌, ◌≡◌, Bool, true, false, ◌∷◌, Perm, some, ◌==◌, get_elem?}
use pfunc.Scheduler.Scan.{found, PredicatePair, search_from-found}
use pfunc.Scheduler.Store.{QueueSet, replace}
use pfunc.Scheduler.Policy.{accepts}
use pfunc.Scheduler.Prio.{PriorityQueue, compare_task_ptr, get, found_top, refused_top}

module _ {A P : Type 0} (get_priority : A → P) (comp : P → P → Bool)
    (pq : PriorityQueue A (compare_task_ptr get_priority comp)) where
  open pq use {Heap, top, pop, view, top-some, top-max}

  -- A task that `get` returns comes from the first queue, in the round from the caller's own on, of which the
  -- top passes the predicate for its thread: the tops of all queues before it in the round fail it. No
  -- task of that queue has a priority above that of the task returned, as the client's comparison of
  -- priorities has it; the queue loses the task alone, and the other queues are as before.
  pub get-highest :
      (s : QueueSet Heap) (q : ℕ) (cnd : PredicatePair A) (a : A) (t : QueueSet Heap)
      → get pq s q cnd ≡ found a t
      → (j : ℕ) × (j < s.num_queues)
        × (h : Heap) × (get_elem? s.queues ((q + j) % s.num_queues) ≡ some h)
        × ((b : A) → Mem b (view h) → comp (get_priority a) (get_priority b) ≡ false)
        × Perm (view h) (a ∷ view (pop h))
        × (t ≡ replace s ((q + j) % s.num_queues) (pop h))
        × (accepts cnd ((q + j) % s.num_queues == q) a ≡ true)
        × ((j' : ℕ) (h' : Heap) (b : A)
            → j' < j
            → get_elem? s.queues ((q + j') % s.num_queues) ≡ some h'
            → top h' ≡ some b
            → accepts cnd ((q + j') % s.num_queues == q) b ≡ false)
  unfolding get
  get-highest s q cnd a t e =
      let (j, lt, hit, before) = search_from-found _ s.num_queues q s.num_queues q e in
      let (h, at, on_top, result, ok) = found_top pq s cnd ((q + j) % s.num_queues) _ a t hit in
      (
        j,
        lt,
        h,
        at,
        λ b m. top-max h a b on_top m,
        top-some h a on_top,
        result,
        ok,
        λ j' h' b less at' on_top'.
            refused_top pq s cnd ((q + j') % s.num_queues) _ h' b (before j' less) at' on_top',
      )
