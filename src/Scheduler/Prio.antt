-- ===== src/Scheduler/Prio.antt =====
-- pfunc/prio.hpp: highest priority first. `std::priority_queue` is a parameter with the laws that
-- the C++ standard gives it; which of several equal tasks is on top is left open, as there.
pub mod Order
use mathlib.Core.Option
use mathlib.Core.List.{Mem}
use pfunc.Base.{
  ℕ, ◌≡◌, inl, inr, Bool, ◌+◌, ◌%◌, ◌≢◌, true, false, List, [], ◌∷◌, Perm, Option, none, some,
  arith, ◌==◌, if◌then◌else◌, get_elem?, Option-cases, Bool-cases,
}
use pfunc.Scheduler.Scan.{
  Outcome, fault, not_found, found, PredicatePair, search_from, search_from-found,
}
use pfunc.Scheduler.Store.{QueueSet, replace}
use pfunc.Scheduler.Policy.{Contract, Looks, accepts, IsOpen, GetLaws, PutLaws}
use pfunc.Scheduler.Policy.Section.{TakeLaws, look_in-Looks, put_by-PutLaws}
use pfunc.Scheduler.Policy.Search.{search-GetLaws}

-- `std::priority_queue<A, std::vector<A>, comp>`, where `comp a b` says that `a` has the lower
-- priority of the two. `view` lists what it holds, in some order.
pub record PriorityQueue (A : Type 0) (comp : A → A → Bool) : Type 1 where
  pub Heap : Type 0
  pub empty : Heap
  pub push : Heap → A → Heap
  pub top : Heap → Option A  -- `none` on an empty queue
  pub pop : Heap → Heap
  pub view : Heap → List A
  pub view-empty : view empty ≡ []
  pub push-perm : (h : Heap) (a : A) → Perm (view (push h a)) (a ∷ view h)
  pub top-none : (h : Heap) → top h ≡ none → view h ≡ []
  pub top-some : (h : Heap) (a : A) → top h ≡ some a → Perm (view h) (a ∷ view (pop h))
  pub top-max : (h : Heap) (a b : A) → top h ≡ some a → Mem b (view h) → comp a b ≡ false

-- `compare_task_ptr`: tasks compare as their priorities do, by the attribute's `compare_type`.
abbrev pub compare_task_ptr {ℓ κ} :
    {A : Type ℓ} {P : Type κ} → (A → P) → (P → P → Bool) → A → A → Bool
compare_task_ptr get_priority comp ptr1 ptr2 = comp (get_priority ptr1) (get_priority ptr2)

module _ {A : Type 0} {comp : A → A → Bool} (pq : PriorityQueue A comp) where
  open pq use {Heap, push, top, pop, view, push-perm, top-none, top-some, top-max}

  -- The critical section of `test_and_get`, on the queue under lock.
  take_top : QueueSet Heap → PredicatePair A → ℕ → Bool → Heap → Outcome A (QueueSet Heap)
  take_top s cnd i own_queue queue = elim (top queue) [
    | none ↦ not_found
    | some value ↦
        if (if own_queue then cnd.own_pred value else cnd.steal_pred value)
        then found value (replace s i (pop queue))
        else not_found
  ]

  unfoldable pub test_and_get :
      QueueSet Heap → PredicatePair A → ℕ → Bool → Outcome A (QueueSet Heap)
  unfolding take_top
  test_and_get s cnd i own_queue = elim (get_elem? s.queues i) [
    | none ↦ fault
    | some queue ↦ take_top s cnd i own_queue queue
  ]

  unfoldable pub get : QueueSet Heap → ℕ → PredicatePair A → Outcome A (QueueSet Heap)
  unfolding test_and_get
  get s queue_num cnd =
      search_from (λ real_i own. test_and_get s cnd real_i own) s.num_queues queue_num s.num_queues
        queue_num

  -- `none` is an access outside the array.
  unfoldable pub put : QueueSet Heap → ℕ → A → Option (QueueSet Heap)
  put s queue_num value =
      Option.map (λ q. replace s queue_num (push q value)) (get_elem? s.queues queue_num)

  take_top-took :
      (s : QueueSet Heap) (cnd : PredicatePair A) (i : ℕ) (own : Bool) (q : Heap) (a : A)
      (t : QueueSet Heap)
      → take_top s cnd i own q ≡ found a t
      → (top q ≡ some a) × (t ≡ replace s i (pop q)) × (accepts cnd own a ≡ true)
  unfolding take_top
  take_top-took s cnd i own q a t e = elim (Option-cases (top q)) [
    | inl none_there ↦ ground arith
    | inr (b, on_top) ↦ ground arith
  ]

  take_top-found :
      (s : QueueSet Heap) (cnd : PredicatePair A) (i : ℕ) (own : Bool) (q : Heap) (a : A)
      (t : QueueSet Heap)
      → take_top s cnd i own q ≡ found a t
      → (rest : Heap) × Perm (view q) (a ∷ view rest)
        × (t ≡ replace s i rest)
        × (accepts cnd own a ≡ true)
  take_top-found s cnd i own q a t e =
      let (on_top, result, ok) = take_top-took s cnd i own q a t e in
      (pop q, top-some q a on_top, result, ok)

  take_top-not_found :
      (s : QueueSet Heap) (cnd : PredicatePair A) (i : ℕ) (own : Bool) (q : Heap)
      → IsOpen cnd
      → take_top s cnd i own q ≡ not_found
      → view q ≡ []
  unfolding take_top
  take_top-not_found s cnd i own q o e = elim (Option-cases (top q)) [
    | inl none_there ↦ top-none q none_there
    | inr (b, on_top) ↦ absurd (ground (arith, o own b))
  ]

  take_top-ne-fault :
      (s : QueueSet Heap) (cnd : PredicatePair A) (i : ℕ) (own : Bool) (q : Heap)
      → take_top s cnd i own q ≢ fault
  unfolding take_top
  take_top-ne-fault s cnd i own q e = ground arith

  take_top-TakeLaws : TakeLaws view take_top
  take_top-TakeLaws = record {
    take-found = take_top-found;
    take-not_found = take_top-not_found;
    take-ne-fault = take_top-ne-fault;
  }

  -- The contract of `get` holds of the priority policy: on a valid set it never leaves the array; the task
  -- that it hands out is one that the predicates accept and the one that the set lost; and to a
  -- caller whose queue is in the set, under predicates that accept every task, it returns NULL only
  -- if every queue is empty.
  pub heap_get-GetLaws : GetLaws view get
  unfolding get test_and_get
  heap_get-GetLaws = search-GetLaws (look_in-Looks take_top-TakeLaws)

  -- The contract of `put` holds of the priority policy.
  pub put-PutLaws : PutLaws view put
  unfolding put
  put-PutLaws = put_by-PutLaws view push push-perm

  -- A look that gives nothing refuses the top of its queue.
  pub refused_top :
      (s : QueueSet Heap) (cnd : PredicatePair A) (i : ℕ) (own : Bool) (h : Heap) (b : A)
      → test_and_get s cnd i own ≡ not_found
      → get_elem? s.queues i ≡ some h
      → top h ≡ some b
      → accepts cnd own b ≡ false
  unfolding test_and_get take_top
  refused_top s cnd i own h b e at on_top = elim (Bool-cases (accepts cnd own b)) [
    | inl accepted ↦ ground (arith, at, on_top, accepted, e)
    | inr refused ↦ refused
  ]

  pub found_top :
      (s : QueueSet Heap) (cnd : PredicatePair A) (i : ℕ) (own : Bool) (a : A) (t : QueueSet Heap)
      → test_and_get s cnd i own ≡ found a t
      → (h : Heap) × (get_elem? s.queues i ≡ some h)
        × (top h ≡ some a)
        × (t ≡ replace s i (pop h))
        × (accepts cnd own a ≡ true)
  unfolding test_and_get
  found_top s cnd i own a t hit = elim (Option-cases (get_elem? s.queues i)) [
    | inl missing ↦ cc (rw (missing, test_and_get) at hit)
    | inr (h, at) ↦
        let (on_top, result, ok) = take_top-took s cnd i own h a t (rw (at, test_and_get) at hit) in
        (h, at, on_top, result, ok)
  ]

  pub test_and_get-Looks : Looks view test_and_get
  unfolding test_and_get
  test_and_get-Looks = look_in-Looks take_top-TakeLaws

  -- The policy as its client sees it.
  abbrev pub contract : Contract A
  contract = record {
    Queue = Heap;
    empty = pq.empty;
    view = view;
    view-empty = pq.view-empty;
    put = put;
    look = test_and_get;
    get = get;
    put_laws = put-PutLaws;
    look_laws = test_and_get-Looks;
    get_laws = heap_get-GetLaws;
  }
