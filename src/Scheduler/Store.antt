-- ===== src/Scheduler/Store.antt =====
-- The array of queues behind a task queue set (`task_queue_set_data` of pfunc/task_queue_set.hpp),
-- and what it holds in all. Each queue has its mutex, and every access below is one critical
-- section under it, so an access is one step on the whole set.
use mathlib.Core.List.{perm_middle}
use mathlib.Core.List.Perm
use pfunc.Base.{
  ℕ, zero, suc, ◌≡◌, refl, sym, ap, subst, ◌∙◌, List, [], ◌∷◌, ◌++◌, Perm, some, length, get_elem?,
  set, replicate, length-set,
}

pub record QueueSet {ℓ} (Q : Type ℓ) : Type ℓ where
  pub queues : List Q  -- `data[i].queue`
  pub num_queues : ℕ

-- The array has the length that the constructor gave it.
abbrev pub IsValid {ℓ} : {Q : Type ℓ} → QueueSet Q → Type 0
IsValid s = length s.queues ≡ s.num_queues

-- The constructor: `data = new data_type[num_queues]`, with every queue as its constructor left it.
unfoldable pub create {ℓ} : {Q : Type ℓ} → Q → ℕ → QueueSet Q
create empty n = record { queues = replicate n empty; num_queues = n }

-- The set with the queue at `i` written anew.
abbrev pub replace {ℓ} : {Q : Type ℓ} → QueueSet Q → ℕ → Q → QueueSet Q
replace s i q = record s { queues = set s.queues i q }

pub replace-IsValid {ℓ} :
    {Q : Type ℓ} (s : QueueSet Q) (i : ℕ) (q : Q) → IsValid s → IsValid (replace s i q)
replace-IsValid s i q v = length-set s.queues i q ∙ v

pub create-IsValid {ℓ} : {Q : Type ℓ} (empty : Q) (n : ℕ) → IsValid (create empty n)
unfolding create
create-IsValid empty zero = refl
create-IsValid empty (suc n) = ap suc (create-IsValid empty n)

module _ {ℓ κ} {A : Type ℓ} {Q : Type κ} (view : Q → List A) where
  unfoldable pub all_tasks : List Q → List A
  all_tasks [] = []
  all_tasks (q ∷ qs) = view q ++ all_tasks qs

  pub all_tasks-take :
      (qs : List Q) (i : ℕ) {q : Q} (q' : Q) (a : A)
      → get_elem? qs i ≡ some q
      → Perm (view q) (a ∷ view q')
      → Perm (all_tasks qs) (a ∷ all_tasks (set qs i q'))
  unfolding all_tasks
  all_tasks-take [] i q' a e p = cc
  all_tasks-take (x ∷ qs) zero {q} q' a e p =
      let e' : x ≡ q = cc in
      Perm.append_right (all_tasks qs) (subst (λ t. Perm (view t) (a ∷ view q')) (sym e') p)
  all_tasks-take (x ∷ qs) (suc i) q' a e p =
      Perm.trans (Perm.append_left (view x) (all_tasks-take qs i q' a e p))
        (perm_middle (view x) (all_tasks (set qs i q')))

  pub all_tasks-put :
      (qs : List Q) (i : ℕ) {q : Q} (q' : Q) (a : A)
      → get_elem? qs i ≡ some q
      → Perm (view q') (a ∷ view q)
      → Perm (all_tasks (set qs i q')) (a ∷ all_tasks qs)
  unfolding all_tasks
  all_tasks-put [] i q' a e p = cc
  all_tasks-put (x ∷ qs) zero {q} q' a e p =
      let e' : x ≡ q = cc in
      Perm.append_right (all_tasks qs) (subst (λ t. Perm (view q') (a ∷ view t)) (sym e') p)
  all_tasks-put (x ∷ qs) (suc i) q' a e p =
      Perm.trans (Perm.append_left (view x) (all_tasks-put qs i q' a e p))
        (perm_middle (view x) (all_tasks qs))

  pub all_tasks-eq-nil :
      (qs : List Q) → ((i : ℕ) (q : Q) → get_elem? qs i ≡ some q → view q ≡ []) → all_tasks qs ≡ []
  unfolding all_tasks
  all_tasks-eq-nil [] h = refl
  all_tasks-eq-nil (x ∷ qs) h = rw (h 0 x refl) (all_tasks-eq-nil qs (λ i. h (suc i)))

  pub all_tasks-replicate : (q : Q) (n : ℕ) → view q ≡ [] → all_tasks (replicate n q) ≡ []
  unfolding all_tasks
  all_tasks-replicate q zero e = refl
  all_tasks-replicate q (suc n) e = rw e (all_tasks-replicate q n e)

  -- All tasks of a set, queue by queue.
  abbrev pub tasks : QueueSet Q → List A
  tasks s = all_tasks s.queues

  pub all_tasks-create : (q : Q) (n : ℕ) → view q ≡ [] → tasks (create q n) ≡ []
  unfolding create
  all_tasks-create q n e = all_tasks-replicate q n e
