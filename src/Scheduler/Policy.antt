-- ===== src/Scheduler/Policy.antt =====
-- What a scheduling policy promises its client, the task manager: the contract behind
-- pfunc/concepts/TaskQueueSet.concept.ipp.
pub mod Search
pub mod Section
use pfunc.Base.{
  ℕ, ◌<◌, ◌≡◌, ◌≢◌, Bool, true, List, [], ◌∷◌, Perm, Option, none, some, if◌then◌else◌, get_elem?,
}
use pfunc.Scheduler.Scan.{Outcome, fault, not_found, found, PredicatePair}
use pfunc.Scheduler.Store.{QueueSet, IsValid, replace, tasks}

-- The predicate that a look applies, to the caller's own queue or to another.
abbrev pub accepts {ℓ} : {A : Type ℓ} → PredicatePair A → Bool → A → Bool
accepts cnd own a = if own then cnd.own_pred a else cnd.steal_pred a

-- The pair lets every task pass.
abbrev pub IsOpen {ℓ} : {A : Type ℓ} → PredicatePair A → Type ℓ
IsOpen {A} cnd = (own : Bool) (a : A) → accepts cnd own a ≡ true

-- A set `t` is `s` less the task `a`, which some queue gave up.
pub record Took {ℓ κ} {A : Type ℓ} {Q : Type κ} (view : Q → List A) (s : QueueSet Q) (i : ℕ) (a : A)
    (t : QueueSet Q) : Type (ℓ ⊔ κ) where
  pub before : Q
  pub after : Q
  pub at_index : get_elem? s.queues i ≡ some before
  pub gave : Perm (view before) (a ∷ view after)
  pub result : t ≡ replace s i after

-- What `get` promises of a task that it hands out.
pub record Handed {ℓ κ} {A : Type ℓ} {Q : Type κ} (view : Q → List A) (s : QueueSet Q)
    (cnd : PredicatePair A) (a : A) (t : QueueSet Q) : Type (ℓ ⊔ κ) where
  pub valid : IsValid t
  pub same_size : t.num_queues ≡ s.num_queues
  pub conserved : Perm (tasks view s) (a ∷ tasks view t)
  pub own : Bool
  pub accepted : accepts cnd own a ≡ true

-- The laws of one look at queue `i`.
pub record Looks {ℓ κ} {A : Type ℓ} {Q : Type κ} (view : Q → List A)
    (look : QueueSet Q → PredicatePair A → ℕ → Bool → Outcome A (QueueSet Q)) : Type (ℓ ⊔ κ) where
  pub on_found :
      (s : QueueSet Q) (cnd : PredicatePair A) (i : ℕ) (own : Bool) (a : A) (t : QueueSet Q)
      → look s cnd i own ≡ found a t
      → Took view s i a t × (accepts cnd own a ≡ true)
  pub on_fault :
      (s : QueueSet Q) (cnd : PredicatePair A) (i : ℕ) (own : Bool)
      → look s cnd i own ≡ fault
      → get_elem? s.queues i ≡ none
  pub on_not_found :
      (s : QueueSet Q) (cnd : PredicatePair A) (i : ℕ) (own : Bool) (q : Q)
      → IsOpen cnd
      → look s cnd i own ≡ not_found
      → get_elem? s.queues i ≡ some q
      → view q ≡ []

-- What `get` promises in the set: never an access outside the array; a task that it hands out is
-- one of those that passes; and under open predicates it comes back empty only from an empty set.
pub record GetLaws {ℓ κ} {A : Type ℓ} {Q : Type κ} (view : Q → List A)
    (get : QueueSet Q → ℕ → PredicatePair A → Outcome A (QueueSet Q)) : Type (ℓ ⊔ κ) where
  pub get-ne-fault :
      (s : QueueSet Q) (q : ℕ) (cnd : PredicatePair A) → IsValid s → get s q cnd ≢ fault
  pub get-found :
      (s : QueueSet Q) (q : ℕ) (cnd : PredicatePair A) (a : A) (t : QueueSet Q)
      → IsValid s
      → get s q cnd ≡ found a t
      → Handed view s cnd a t
  pub get-not_found :
      (s : QueueSet Q) (q : ℕ) (cnd : PredicatePair A)
      → IsValid s
      → q < s.num_queues
      → IsOpen cnd
      → get s q cnd ≡ not_found
      → tasks view s ≡ []

-- What `put` promises: in range it adds the one task and nothing else.
pub record PutLaws {ℓ κ} {A : Type ℓ} {Q : Type κ} (view : Q → List A)
    (put : QueueSet Q → ℕ → A → Option (QueueSet Q)) : Type (ℓ ⊔ κ) where
  pub put-total :
      (s : QueueSet Q) (q : ℕ) (a : A)
      → IsValid s
      → q < s.num_queues
      → (t : QueueSet Q) × (put s q a ≡ some t)
  pub put-some :
      (s : QueueSet Q) (q : ℕ) (a : A) (t : QueueSet Q)
      → IsValid s
      → put s q a ≡ some t
      → IsValid t × (t.num_queues ≡ s.num_queues) × Perm (tasks view t) (a ∷ tasks view s)

-- A policy as its client sees it: a type of queues, the accesses to a set of them, and their laws.
pub record Contract (A : Type 0) : Type 1 where
  pub Queue : Type 0
  pub empty : Queue
  pub view : Queue → List A
  pub view-empty : view empty ≡ []
  pub put : QueueSet Queue → ℕ → A → Option (QueueSet Queue)
  pub look : QueueSet Queue → PredicatePair A → ℕ → Bool → Outcome A (QueueSet Queue)
  pub get : QueueSet Queue → ℕ → PredicatePair A → Outcome A (QueueSet Queue)
  pub put_laws : PutLaws view put
  pub look_laws : Looks view look
  pub get_laws : GetLaws view get
