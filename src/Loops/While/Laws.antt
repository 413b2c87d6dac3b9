-- ===== src/Loops/While/Laws.antt =====
-- What the spawning loop of pfunc/parallel_while.hpp leaves.
use mathlib.Core.List.{append-nil, append_assoc, perm_middle}
use mathlib.Core.List.Perm
use pfunc.Base.{
  ℕ, zero, suc, ◌+◌, ◌≤◌, ◌<◌, ◌≡◌, ◌≢◌, refl, sym, ap, subst, ◌∙◌, inl, inr, List, [], ◌∷◌, ◌++◌,
  Perm, Option, some, arith, length, get_elem?, update, update_self, update_ne, Option-cases,
  some-elim, ◌==◌, if◌then◌else◌,
}
use pfunc.Scheduler.Store.{IsValid, tasks}
use pfunc.Scheduler.Policy.{Contract}
use pfunc.Task.Attribute.{queue_current_thread}
use pfunc.Manager.State.{Manager, prepare, target_queue, spawn_task, spawn_default}
use pfunc.Manager.State.Laws.{Spawned, spawn_task-Spawned}
use pfunc.Loops.While.{Loop, turned, go_on, spawn_each}

module _ {P : Type 0} (c : Contract ℕ) where
  -- What a spawn of a task with the defaults leaves as it was.
  abbrev Same : Manager P c.Queue → Manager P c.Queue → Type 0
  Same m m' =
      (m'.thread_queue ≡ m.thread_queue)
      × (m'.default_attribute ≡ m.default_attribute)
      × (m'.default_group ≡ m.default_group)
      × (m'.task_queue.num_queues ≡ m.task_queue.num_queues)
      × IsValid m'.task_queue

  spawn_task-Same :
      (m m' : Manager P c.Queue) (self a work : ℕ)
      → IsValid m.task_queue
      → spawn_default c m self a work ≡ some m'
      → Same m m'
  unfolding spawn_task
  spawn_task-Same m m' self a work valid e =
      elim (Option-cases (c.put m.task_queue (target_queue c m self m.default_attribute) a)) [
        | inl refused ↦ absurd (ground (arith, refused, e))
        | inr (s, stored) ↦
            let (valid', same, grown) =
              c.put_laws.put-some m.task_queue (target_queue c m self m.default_attribute) a s valid
                stored in
            let p = prepare c m a m.default_attribute m.default_group work in
            let made : Manager P c.Queue = record m {
              heap = update m.heap a p.0;
              groups = update m.groups m.default_group p.1;
              task_queue = s;
            } in
            let result : made ≡ m' = some-elim (rw (stored, spawn_task) at e) in
            subst (λ (x : Manager P c.Queue). Same m x) result (refl, refl, refl, same, valid')
      ]

  target-Same :
      (m m' : Manager P c.Queue) (self : ℕ)
      → Same m m'
      → target_queue c m self m.default_attribute < m.task_queue.num_queues
      → target_queue c m' self m'.default_attribute < m'.task_queue.num_queues
  target-Same m m' self (q, at, gp, n, valid) inside =
      subst (λ x. target_queue c m' self m'.default_attribute < x) (sym n)
        (subst (λ x. target_queue c m' self x < m.task_queue.num_queues) (sym at)
          (subst
            (λ (f : ℕ → ℕ).
              (if queue_current_thread == m.default_attribute.queue_number
                then f self
                else m.default_attribute.queue_number)
              < m.task_queue.num_queues)
            (sym q) inside))

-- The addresses of `n` objects, from turn `i` on.
unfoldable pub addresses : (ℕ → ℕ) → ℕ → ℕ → List ℕ
addresses address zero i = []
addresses address (suc n) i = address i ∷ addresses address n (i + 1)

-- `new` returns no address twice.
abbrev pub Fresh : (ℕ → ℕ) → Type 0
Fresh address = (j k : ℕ) → address j ≡ address k → j ≡ k

module _ {P : Type 0} (c : Contract ℕ) (new_task new_functor : ℕ → ℕ) (self : ℕ) where
  abbrev loop : List ℕ → ℕ → Loop P c.Queue → Option (Loop P c.Queue)
  loop = spawn_each c new_task new_functor self

  -- What the loop does, from its turn `i` on.
  pub record Spread (vs : List ℕ) (i : ℕ) (s t : Loop P c.Queue) : Type 0 where
    pub queued :
        Perm
          (tasks c.view t.mgr.task_queue)
          (addresses new_task (length vs) i ++ tasks c.view s.mgr.task_queue)
    pub listed : t.spawned ≡ s.spawned ++ addresses new_task (length vs) i
    pub each :
        (k : ℕ) (v : ℕ)
        → get_elem? vs k ≡ some v
        → Spawned
            (t.mgr.heap (new_task (i + k)))
            s.mgr.default_attribute
            s.mgr.default_group
            (new_functor (i + k))
          × (t.references (new_functor (i + k)) ≡ v)
    pub tasks_kept : (b : ℕ) → ((k : ℕ) → i ≤ k → new_task k ≢ b) → t.mgr.heap b ≡ s.mgr.heap b
    pub references_kept :
        (b : ℕ) → ((k : ℕ) → i ≤ k → new_functor k ≢ b) → t.references b ≡ s.references b

  Spread-nil : (i : ℕ) (s : Loop P c.Queue) → Spread [] i s s
  unfolding addresses
  Spread-nil i s = record {
    queued = Perm.refl _;
    listed = sym (append-nil s.spawned);
    each = λ k v e. cc;
    tasks_kept = λ b h. refl;
    references_kept = λ b h. refl;
  }

  -- The tasks after the turn of one element, and those of the rest.
  Spread-each :
      (v : ℕ) (vs : List ℕ) (i : ℕ) (s t : Loop P c.Queue) (m : Manager P c.Queue)
      → Fresh new_task
      → Fresh new_functor
      → Same c s.mgr m
      → Spawned (m.heap (new_task i)) s.mgr.default_attribute s.mgr.default_group (new_functor i)
      → Spread vs (i + 1) (turned c new_task new_functor self i v s m) t
      → (k : ℕ) (w : ℕ) → get_elem? (v ∷ vs) k ≡ some w
      → Spawned
          (t.mgr.heap (new_task (i + k)))
          s.mgr.default_attribute
          s.mgr.default_group
          (new_functor (i + k))
        × (t.references (new_functor (i + k)) ≡ w)
  Spread-each v vs i s t m fresh fresh' same spawned rest zero w e =
      let here : i ≡ i + 0 = omega arith in
      let kept : t.mgr.heap (new_task i) ≡ m.heap (new_task i) =
        rest.tasks_kept (new_task i) (λ k le h. omega (arith, fresh k i h)) in
      let value : t.references (new_functor i) ≡ v =
        rest.references_kept (new_functor i) (λ k le h. omega (arith, fresh' k i h))
        ∙ update_self s.references (new_functor i) v in
      subst
        (λ j.
          Spawned (t.mgr.heap (new_task j)) s.mgr.default_attribute s.mgr.default_group
            (new_functor j)
          × (t.references (new_functor j) ≡ w))
        here
        (
          subst (λ x. Spawned x s.mgr.default_attribute s.mgr.default_group (new_functor i))
              (sym kept) spawned,
          value ∙ some-elim e,
        )
  Spread-each v vs i s t m fresh fresh' (q, at, gp, n, valid) spawned rest (suc k) w e =
      let later : i + 1 + k ≡ i + suc k = omega arith in
      let (made, value) = rest.each k w e in
      subst
        (λ j.
          Spawned (t.mgr.heap (new_task j)) s.mgr.default_attribute s.mgr.default_group
            (new_functor j)
          × (t.references (new_functor j) ≡ w))
        later
        (
          subst
              (λ x.
                Spawned (t.mgr.heap (new_task (i + 1 + k))) x s.mgr.default_group
                  (new_functor (i + 1 + k)))
              at
              (subst
                (λ x.
                  Spawned (t.mgr.heap (new_task (i + 1 + k))) m.default_attribute x
                    (new_functor (i + 1 + k)))
                gp made),
          value,
        )

  -- The turn of one element, and those of the rest.
  Spread-cons :
      (v : ℕ) (vs : List ℕ) (i : ℕ) (s t : Loop P c.Queue) (m : Manager P c.Queue)
      → Fresh new_task
      → Fresh new_functor
      → Same c s.mgr m
      → Perm (tasks c.view m.task_queue) (new_task i ∷ tasks c.view s.mgr.task_queue)
      → Spawned (m.heap (new_task i)) s.mgr.default_attribute s.mgr.default_group (new_functor i)
      → ((b : ℕ) → new_task i ≢ b → m.heap b ≡ s.mgr.heap b)
      → Spread vs (i + 1) (turned c new_task new_functor self i v s m) t
      → Spread (v ∷ vs) i s t
  unfolding addresses
  Spread-cons v vs i s t m fresh fresh' (q, at, gp, n, valid) grown spawned others rest = record {
    queued = Perm.trans rest.queued (
        Perm.trans (Perm.append_left (addresses new_task (length vs) (i + 1)) grown)
          (perm_middle (addresses new_task (length vs) (i + 1)) (tasks c.view s.mgr.task_queue)));
    listed = rest.listed ∙ append_assoc s.spawned (new_task i ∷ []) _;
    each = Spread-each v vs i s t m fresh fresh' (q, at, gp, n, valid) spawned rest;
    tasks_kept =
        λ b h. rest.tasks_kept b (λ k le. h k (omega arith)) ∙ others b (h i (omega arith));
    references_kept = λ b h.
        rest.references_kept b (λ k le. h k (omega arith))
        ∙ update_ne s.references (new_functor i) v b (λ e. h i (omega arith) (sym e));
  }

  -- Where the queue of the defaults is in range and `new` returns no address twice, the first loop of
  -- `parallel_while` spawns one task for each element of the range: the queues then hold the new
  -- tasks and what they held; the `k`-th new task has the defaults and the functor whose value is
  -- the `k`-th element; the tasks to be waited for are these, in order; and no other task object
  -- and no other functor changes.
  pub spawn_each-Spread :
      (vs : List ℕ) (i : ℕ) (s : Loop P c.Queue)
      → IsValid s.mgr.task_queue
      → target_queue c s.mgr self s.mgr.default_attribute < s.mgr.task_queue.num_queues
      → Fresh new_task
      → Fresh new_functor
      → (t : Loop P c.Queue) × (loop vs i s ≡ some t) × Spread vs i s t
  unfolding spawn_each
  spawn_each-Spread [] i s valid inside fresh fresh' = (s, refl, Spread-nil i s)
  spawn_each-Spread (v ∷ vs) i s valid inside fresh fresh' =
      let (m, e, grown, spawned, others, groups, joined) =
        spawn_task-Spawned c s.mgr self (new_task i) s.mgr.default_attribute s.mgr.default_group
          (new_functor i) valid inside in
      let same = spawn_task-Same c s.mgr m self (new_task i) (new_functor i) valid e in
      let next = turned c new_task new_functor self i v s m in
      let (t, later, rest) =
        spawn_each-Spread vs (i + 1) next same.4 (target-Same c s.mgr m self same inside) fresh
          fresh' in
      (
        t,
        ap
              (go_on c new_task new_functor self
                (λ x. loop vs (i + 1) (turned c new_task new_functor self i v s x)))
              e
            ∙ later,
        Spread-cons v vs i s t m fresh fresh' same grown spawned others rest,
      )
