-- ===== src/Scheduler/Policy/Section.antt =====
-- A look is one critical section on a queue, and `put` another: their laws, from those of the body.
use mathlib.Core.Option
use pfunc.Base.{
  ℕ, ◌<◌, ◌≡◌, ◌≢◌, refl, Bool, true, List, [], ◌∷◌, Perm, Option, none, some, sym, subst,
  Option-cases, inl, inr, get_elem?, get_elem?-total,
}
use pfunc.Scheduler.Scan.{Outcome, fault, not_found, found, PredicatePair}
use pfunc.Scheduler.Store.{QueueSet, IsValid, replace, replace-IsValid, tasks, all_tasks-put}
use pfunc.Scheduler.Policy.{accepts, IsOpen, Took, Looks, PutLaws}

-- The laws of a critical section, on the queue under lock.
pub record TakeLaws {ℓ κ} {A : Type ℓ} {Q : Type κ} (view : Q → List A)
    (take : QueueSet Q → PredicatePair A → ℕ → Bool → Q → Outcome A (QueueSet Q))
    : Type (ℓ ⊔ κ) where
  pub take-found :
      (s : QueueSet Q) (cnd : PredicatePair A) (i : ℕ) (own : Bool) (q : Q) (a : A) (t : QueueSet Q)
      → take s cnd i own q ≡ found a t
      → (q' : Q) × Perm (view q) (a ∷ view q') × (t ≡ replace s i q') × (accepts cnd own a ≡ true)
  pub take-not_found :
      (s : QueueSet Q) (cnd : PredicatePair A) (i : ℕ) (own : Bool) (q : Q)
      → IsOpen cnd
      → take s cnd i own q ≡ not_found
      → view q ≡ []
  pub take-ne-fault :
      (s : QueueSet Q) (cnd : PredicatePair A) (i : ℕ) (own : Bool) (q : Q)
      → take s cnd i own q ≢ fault

module _ {ℓ κ} {A : Type ℓ} {Q : Type κ} {view : Q → List A}
    {take : QueueSet Q → PredicatePair A → ℕ → Bool → Q → Outcome A (QueueSet Q)}
    (laws : TakeLaws view take) where
  -- The queue at `i`, under its lock.
  abbrev pub look_in : QueueSet Q → PredicatePair A → ℕ → Bool → Outcome A (QueueSet Q)
  look_in s cnd i own = elim (get_elem? s.queues i) [
    | none ↦ fault
    | some queue ↦ take s cnd i own queue
  ]

  look_in-found :
      (s : QueueSet Q) (cnd : PredicatePair A) (i : ℕ) (own : Bool) (a : A) (t : QueueSet Q)
      → look_in s cnd i own ≡ found a t
      → Took view s i a t × (accepts cnd own a ≡ true)
  look_in-found s cnd i own a t e = elim (Option-cases (get_elem? s.queues i)) [
    | inl missing ↦ cc (rw (missing, look_in) at e)
    | inr (q, at_i) ↦
        let (q', gave, result, ok) = laws.take-found s cnd i own q a t (rw (at_i, look_in) at e) in
        (record { before = q; after = q'; at_index = at_i; gave = gave; result = result }, ok)
  ]

  look_in-fault :
      (s : QueueSet Q) (cnd : PredicatePair A) (i : ℕ) (own : Bool)
      → look_in s cnd i own ≡ fault
      → get_elem? s.queues i ≡ none
  look_in-fault s cnd i own e = elim (Option-cases (get_elem? s.queues i)) [
    | inl missing ↦ missing
    | inr (q, at_i) ↦ absurd (laws.take-ne-fault s cnd i own q (rw (at_i, look_in) at e))
  ]

  look_in-not_found :
      (s : QueueSet Q) (cnd : PredicatePair A) (i : ℕ) (own : Bool) (q : Q)
      → IsOpen cnd
      → look_in s cnd i own ≡ not_found
      → get_elem? s.queues i ≡ some q
      → view q ≡ []
  look_in-not_found s cnd i own q o e at_i =
      laws.take-not_found s cnd i own q o (rw (at_i, look_in) at e)

  pub look_in-Looks : Looks view look_in
  look_in-Looks = record {
    on_found = look_in-found;
    on_fault = look_in-fault;
    on_not_found = look_in-not_found;
  }

-- `put` writes the queue at an index, and faults outside the array.
module _ {ℓ κ} {A : Type ℓ} {Q : Type κ} (view : Q → List A) (push : Q → A → Q) where
  abbrev pub put_by : QueueSet Q → ℕ → A → Option (QueueSet Q)
  put_by s i a = Option.map (λ q. replace s i (push q a)) (get_elem? s.queues i)

  pub put_by-PutLaws : ((q : Q) (a : A) → Perm (view (push q a)) (a ∷ view q)) → PutLaws view put_by
  put_by-PutLaws grows = record {
    put-total = λ s q a v h.
        let (x, e) = get_elem?-total s.queues q (subst (λ n. q < n) (sym v) h) in
        (replace s q (push x a), rw e);
    put-some = λ s q a t v e. after s q a t v (get_elem? s.queues q) refl e;
  }
    where
      after :
          (s : QueueSet Q) (i : ℕ) (a : A) (t : QueueSet Q)
          → IsValid s
          → (o : Option Q) → get_elem? s.queues i ≡ o
          → Option.map (λ q. replace s i (push q a)) o ≡ some t
          → IsValid t × (t.num_queues ≡ s.num_queues) × Perm (tasks view t) (a ∷ tasks view s)
      after s i a t v none at_i e = cc
      after s i a t v (some q) at_i e =
          let e' : t ≡ replace s i (push q a) = cc in
          rw e' (
            replace-IsValid s i (push q a) v,
            refl,
            all_tasks-put view s.queues i (push q a) a at_i (grows q a),
          )
