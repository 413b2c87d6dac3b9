-- ===== src/Scheduler/Fifo.antt =====
-- pfunc/fifo.hpp: first come, first served. `std::queue` is a list, its front first.
pub mod Order
use mathlib.Core.Option
use mathlib.Core.List.Perm
use mathlib.Core.List.{perm_append_singleton}
use pfunc.Base.{
  ℕ, ◌≡◌, refl, Bool, ◌≢◌, true, List, [], ◌∷◌, ◌++◌, Perm, Option, none, some, arith,
  if◌then◌else◌, get_elem?,
}
use pfunc.Scheduler.Scan.{Outcome, fault, not_found, found, PredicatePair, search_from}
use pfunc.Scheduler.Store.{QueueSet, replace}
use pfunc.Scheduler.Policy.{Contract, Looks, accepts, IsOpen, GetLaws, PutLaws}
use pfunc.Scheduler.Policy.Section.{TakeLaws, look_in-Looks, put_by-PutLaws}
use pfunc.Scheduler.Policy.Search.{search-GetLaws}

module _ {A : Type 0} where
  -- The critical section of `test_and_get`, on the queue under lock.
  take_front :
      QueueSet (List A) → PredicatePair A → ℕ → Bool → List A → Outcome A (QueueSet (List A))
  take_front s cnd i own_queue [] = not_found
  take_front s cnd i own_queue (front ∷ rest) =
      if (if own_queue then cnd.own_pred front else cnd.steal_pred front)
      then found front (replace s i rest)
      else not_found

  unfoldable pub test_and_get :
      QueueSet (List A) → PredicatePair A → ℕ → Bool → Outcome A (QueueSet (List A))
  unfolding take_front
  test_and_get s cnd i own_queue = elim (get_elem? s.queues i) [
    | none ↦ fault
    | some queue ↦ take_front s cnd i own_queue queue
  ]

  unfoldable pub get : QueueSet (List A) → ℕ → PredicatePair A → Outcome A (QueueSet (List A))
  unfolding test_and_get
  get s queue_num cnd =
      search_from (λ real_i own. test_and_get s cnd real_i own) s.num_queues queue_num s.num_queues
        queue_num

  -- `none` is an access outside the array.
  unfoldable pub put : QueueSet (List A) → ℕ → A → Option (QueueSet (List A))
  put s queue_num value =
      Option.map (λ q. replace s queue_num (q ++ value ∷ [])) (get_elem? s.queues queue_num)

  take_front-found :
      (s : QueueSet (List A)) (cnd : PredicatePair A) (i : ℕ) (own : Bool) (q : List A) (a : A)
      (t : QueueSet (List A))
      → take_front s cnd i own q ≡ found a t
      → (rest : List A) × Perm q (a ∷ rest) × (t ≡ replace s i rest) × (accepts cnd own a ≡ true)
  unfolding take_front
  take_front-found s cnd i own [] a t e = cc
  take_front-found s cnd i own (front ∷ rest) a t e =
      let here : front ≡ a = ground arith in
      (rest, Perm.cons' here (Perm.refl rest), ground arith, ground arith)

  take_front-not_found :
      (s : QueueSet (List A)) (cnd : PredicatePair A) (i : ℕ) (own : Bool) (q : List A)
      → IsOpen cnd
      → take_front s cnd i own q ≡ not_found
      → q ≡ []
  unfolding take_front
  take_front-not_found s cnd i own [] o e = refl
  take_front-not_found s cnd i own (front ∷ rest) o e = ground (arith, o own front)

  take_front-ne-fault :
      (s : QueueSet (List A)) (cnd : PredicatePair A) (i : ℕ) (own : Bool) (q : List A)
      → take_front s cnd i own q ≢ fault
  unfolding take_front
  take_front-ne-fault s cnd i own [] e = cc
  take_front-ne-fault s cnd i own (front ∷ rest) e = ground arith

  take_front-TakeLaws : TakeLaws (λ (q : List A). q) take_front
  take_front-TakeLaws = record {
    take-found = take_front-found;
    take-not_found = take_front-not_found;
    take-ne-fault = take_front-ne-fault;
  }

  -- The contract of `get` holds of the FIFO policy: on a valid set it never leaves the array; the task
  -- that it hands out is one that the predicates accept and the one that the set lost; and to a
  -- caller whose queue is in the set, under predicates that accept every task, it returns NULL only
  -- if every queue is empty.
  pub queue_get-GetLaws : GetLaws (λ (q : List A). q) get
  unfolding get test_and_get
  queue_get-GetLaws = search-GetLaws (look_in-Looks take_front-TakeLaws)

  -- The contract of `put` holds of the FIFO policy.
  pub put-PutLaws : PutLaws (λ (q : List A). q) put
  unfolding put
  put-PutLaws = put_by-PutLaws (λ q. q) (λ q a. q ++ a ∷ []) (λ q a. perm_append_singleton a q)

  pub test_and_get-Looks : Looks (λ (q : List A). q) test_and_get
  unfolding test_and_get
  test_and_get-Looks = look_in-Looks take_front-TakeLaws

  -- The policy as its client sees it.
  abbrev pub contract : Contract A
  contract = record {
    Queue = List A;
    empty = [];
    view = λ q. q;
    view-empty = refl;
    put = put;
    look = test_and_get;
    get = get;
    put_laws = put-PutLaws;
    look_laws = test_and_get-Looks;
    get_laws = queue_get-GetLaws;
  }
