-- ===== src/Scheduler/Cilk.antt =====
-- pfunc/cilk.hpp: the owner of a queue works at its front, a thief steals from its back.
-- `std::deque` is a list, its front first.
pub mod Order
use mathlib.Core.Option
use mathlib.Core.Path.{fun_ext}
use mathlib.Core.List.Perm
use mathlib.Core.List.{perm_append_singleton}
use pfunc.Base.{
  ℕ, ◌≡◌, refl, subst, sym, inl, inr, Bool, ◌≢◌, true, false, List, [], ◌∷◌, ◌++◌, Perm, Option,
  none, some, arith, if◌then◌else◌, get_elem?, Option-cases,
}
use pfunc.Scheduler.Scan.{Outcome, fault, not_found, found, PredicatePair, search_from}
use pfunc.Scheduler.Store.{QueueSet, replace}
use pfunc.Scheduler.Policy.{Contract, accepts, IsOpen, Looks, GetLaws, PutLaws}
use pfunc.Scheduler.Policy.Section.{TakeLaws, look_in, look_in-Looks, put_by-PutLaws}
use pfunc.Scheduler.Policy.Search.{search-GetLaws}

-- `back()` of a deque, and the deque after `pop_back()`.
abbrev split_last : {A : Type 0} → List A → Option (List A × A)
split_last [] = none
split_last (x ∷ xs) = elim (split_last xs) [
  | none ↦ some ([], x)
  | some (init, last) ↦ some (x ∷ init, last)
]

module _ {A : Type 0} where
  -- The critical section of `test_and_get_front`.
  take_front : QueueSet (List A) → PredicatePair A → ℕ → List A → Outcome A (QueueSet (List A))
  take_front s cnd i [] = not_found
  take_front s cnd i (front ∷ rest) =
      if cnd.own_pred front then found front (replace s i rest) else not_found

  -- The critical section of `test_and_get_back`.
  take_back : QueueSet (List A) → PredicatePair A → ℕ → List A → Outcome A (QueueSet (List A))
  take_back s cnd i queue = elim (split_last queue) [
    | none ↦ not_found
    | some (rest, back) ↦ if cnd.steal_pred back then found back (replace s i rest) else not_found
  ]

  unfoldable pub test_and_get_front :
      QueueSet (List A) → PredicatePair A → ℕ → Outcome A (QueueSet (List A))
  unfolding take_front
  test_and_get_front s cnd i = elim (get_elem? s.queues i) [
    | none ↦ fault
    | some queue ↦ take_front s cnd i queue
  ]

  unfoldable pub test_and_get_back :
      QueueSet (List A) → PredicatePair A → ℕ → Outcome A (QueueSet (List A))
  unfolding take_back
  test_and_get_back s cnd i = elim (get_elem? s.queues i) [
    | none ↦ fault
    | some queue ↦ take_back s cnd i queue
  ]

  unfoldable pub get : QueueSet (List A) → ℕ → PredicatePair A → Outcome A (QueueSet (List A))
  unfolding test_and_get_front test_and_get_back
  get s queue_num cnd =
      search_from
        (λ real_i own.
          if own then test_and_get_front s cnd real_i else test_and_get_back s cnd real_i)
        s.num_queues queue_num s.num_queues queue_num

  -- `none` is an access outside the array.
  unfoldable pub put : QueueSet (List A) → ℕ → A → Option (QueueSet (List A))
  put s queue_num value =
      Option.map (λ q. replace s queue_num (value ∷ q)) (get_elem? s.queues queue_num)

  split_last-none : (q : List A) → split_last q ≡ none → q ≡ []
  split_last-none [] e = refl
  split_last-none (x ∷ q) e = ground arith

  pub split_last-some :
      (q : List A) {init : List A} {last : A}
      → split_last q ≡ some (init, last)
      → q ≡ init ++ last ∷ []
  split_last-some [] e = cc
  split_last-some (x ∷ q) {init} {last} e = elim (Option-cases (split_last q)) [
    | inl empty ↦ ground (arith, split_last-none q empty)
    | inr ((init', last'), e') ↦
        let whole : q ≡ init' ++ last' ∷ [] = split_last-some q e' in ground (arith, whole)
  ]

  -- Both critical sections, by whose queue it is.
  abbrev take_end :
      QueueSet (List A) → PredicatePair A → ℕ → Bool → List A → Outcome A (QueueSet (List A))
  take_end s cnd i own q = if own then take_front s cnd i q else take_back s cnd i q

  take_end-found :
      (s : QueueSet (List A)) (cnd : PredicatePair A) (i : ℕ) (own : Bool) (q : List A) (a : A)
      (t : QueueSet (List A))
      → take_end s cnd i own q ≡ found a t
      → (rest : List A) × Perm q (a ∷ rest) × (t ≡ replace s i rest) × (accepts cnd own a ≡ true)
  unfolding take_front take_back
  take_end-found s cnd i true [] a t e = cc
  take_end-found s cnd i true (front ∷ rest) a t e =
      let here : front ≡ a = ground arith in
      (rest, Perm.cons' here (Perm.refl rest), ground arith, ground arith)
  take_end-found s cnd i false q a t e = elim (Option-cases (split_last q)) [
    | inl empty ↦ ground arith
    | inr ((init, last), e') ↦
        let whole : q ≡ init ++ last ∷ [] = split_last-some q e' in
        let here : last ≡ a = ground arith in
        (
          init,
          subst (λ x. Perm x (a ∷ init)) (sym whole)
              (subst (λ x. Perm (init ++ last ∷ []) (x ∷ init)) here
                (perm_append_singleton last init)),
          ground arith,
          ground arith,
        )
  ]

  take_end-not_found :
      (s : QueueSet (List A)) (cnd : PredicatePair A) (i : ℕ) (own : Bool) (q : List A)
      → IsOpen cnd
      → take_end s cnd i own q ≡ not_found
      → q ≡ []
  unfolding take_front take_back
  take_end-not_found s cnd i true [] o e = refl
  take_end-not_found s cnd i true (front ∷ rest) o e = ground (arith, o true front)
  take_end-not_found s cnd i false q o e = elim (Option-cases (split_last q)) [
    | inl empty ↦ split_last-none q empty
    | inr ((init, last), e') ↦ ground (arith, o false last)
  ]

  take_end-ne-fault :
      (s : QueueSet (List A)) (cnd : PredicatePair A) (i : ℕ) (own : Bool) (q : List A)
      → take_end s cnd i own q ≢ fault
  unfolding take_front take_back
  take_end-ne-fault s cnd i true [] e = cc
  take_end-ne-fault s cnd i true (front ∷ rest) e = ground arith
  take_end-ne-fault s cnd i false q e = ground arith

  take_end-TakeLaws : TakeLaws (λ (q : List A). q) take_end
  take_end-TakeLaws = record {
    take-found = take_end-found;
    take-not_found = take_end-not_found;
    take-ne-fault = take_end-ne-fault;
  }

  abbrev pub look : QueueSet (List A) → PredicatePair A → ℕ → Bool → Outcome A (QueueSet (List A))
  look s cnd i own = if own then test_and_get_front s cnd i else test_and_get_back s cnd i

  look-eq :
      (s : QueueSet (List A)) (cnd : PredicatePair A) (i : ℕ) (own : Bool)
      → look_in take_end-TakeLaws s cnd i own ≡ look s cnd i own
  unfolding test_and_get_front test_and_get_back
  look-eq s cnd i true = refl
  look-eq s cnd i false = refl

  pub look-Looks : Looks (λ (q : List A). q) look
  look-Looks =
      subst (Looks (λ (q : List A). q))
        (fun_ext (λ s. fun_ext (λ cnd. fun_ext (λ i. fun_ext (λ own. look-eq s cnd i own)))))
        (look_in-Looks take_end-TakeLaws)

  -- The contract of `get` holds of the Cilk policy: on a valid set it never leaves the array; the task
  -- that it hands out is one that the predicates accept and the one that the set lost; and to a
  -- caller whose queue is in the set, under predicates that accept every task, it returns NULL only
  -- if every queue is empty.
  pub deque_get-GetLaws : GetLaws (λ (q : List A). q) get
  unfolding get
  deque_get-GetLaws = search-GetLaws look-Looks

  -- The contract of `put` holds of the Cilk policy.
  pub put-PutLaws : PutLaws (λ (q : List A). q) put
  unfolding put
  put-PutLaws = put_by-PutLaws (λ q. q) (λ q a. a ∷ q) (λ q a. Perm.refl (a ∷ q))

  -- The policy as its client sees it.
  abbrev pub contract : Contract A
  contract = record {
    Queue = List A;
    empty = [];
    view = λ q. q;
    view-empty = refl;
    put = put;
    look = look;
    get = get;
    put_laws = put-PutLaws;
    look_laws = look-Looks;
    get_laws = deque_get-GetLaws;
  }
