-- ===== src/Manager/Lifecycle/Safety.antt =====
-- The constructor and the destructor of a task manager (pfunc/taskmgr.hpp), and its workers.
use pfunc.Base.{
  ℕ, ◌^◌, ◌<◌, ◌≡◌, ◌≢◌, refl, sym, ap, subst, ◌∙◌, ◌⊎◌, inl, inr, true, false, update, update_self,
  update_ne, ℕ_discrete, arith,
}
use pfunc.Manager.Lifecycle.{
  Main, constructed, joining, deleted, Worker, absent, created, at_barrier, passed, testing,
  polling, running, exited, State, goes, Step, create, created_all, started, destroy, cancel,
  cancelled_all, join, joined_all, come, pass, add, go_on, stop, find_nothing, find_task, finish,
  Reach,
}
use pfunc.Manager.Lifecycle.Invariant.{counted, Seen, Reach-Inv}

-- A worker that has passed the start-up barrier, and is not cancelled.
abbrev pub IsAtWork : Worker → Type 0
IsAtWork testing = Unit
IsAtWork polling = Unit
IsAtWork running = Unit
IsAtWork _ = ⊥

at_work : (w : Worker) → counted w ≡ 1 → w ≢ exited → IsAtWork w
at_work absent e h = absurd (omega (arith, e))
at_work created e h = absurd (omega (arith, e))
at_work at_barrier e h = absurd (omega (arith, e))
at_work passed e h = absurd (omega (arith, e))
at_work testing e h = tt
at_work polling e h = tt
at_work running e h = tt
at_work exited e h = absurd (h refl)

not_both : false ≢ true
not_both e = cc

abbrev IsJoining : Main → Type 0
IsJoining (joining k) = Unit
IsJoining _ = ⊥

-- When the constructor returns, each of its threads has passed the start-up barrier and takes tasks; and
-- when the destructor releases the queues, each of them has ended, so that none looks into them
-- afterwards. There are fewer than 2^32 threads.
pub workers-live :
    {n : ℕ} {s : State}
    → n < 2 ^ 32
    → Reach n s
    → (i : ℕ) → i < n
    → (s.main ≡ constructed → IsAtWork (s.worker i)) × (s.main ≡ deleted → s.worker i ≡ exited)
workers-live {n} {s} small r i h =
    let inv = Reach-Inv small r in
    let seen : (m : Main) → s.main ≡ m → Seen m i (s.is_cancelled i) (s.worker i) =
      λ m at. subst (λ m. Seen m i (s.is_cancelled i) (s.worker i)) at (inv.seen i h) in
    (
      λ at.
          let (one, free) = seen constructed at in
          at_work (s.worker i) one (λ e. not_both (sym free ∙ inv.stopped i h e)),
      λ at. seen deleted at,
    )

-- How many more steps a cancelled worker takes, at the most.
abbrev pub left : Worker → ℕ
left exited = 0
left testing = 1
left polling = 3
left running = 2
left _ = 4

descends :
    (f : ℕ → Worker) (i : ℕ) (w w' : Worker)
    → f i ≡ w
    → left w' < left w
    → left (update f i w' i) < left (f i)
descends f i w w' at less =
    subst (λ x. left (update f i w' i) < left x) (sym at)
      (subst (λ x. left x < left w) (sym (update_self f i w')) less)

-- A step of one worker leaves the others where they are, or brings this one closer to its end.
closer :
    (f : ℕ → Worker) (k i : ℕ) (w w' : Worker)
    → f i ≡ w
    → left w' < left w
    → (update f i w' k ≡ f k) ⊎ (left (update f i w' k) < left (f k))
closer f k i w w' at less = elim (ℕ_discrete k i) [
  | yes same ↦
      inr (subst (λ j. left (update f i w' j) < left (f j)) (sym same) (descends f i w w' at less))
  | no differs ↦ inl (update_ne f i w' k differs)
]

-- The same for a step that only a worker which is not cancelled, or not counted yet, can take.
other_worker :
    (f : ℕ → Worker) (k i : ℕ) (w' : Worker) {R : Type 0}
    → (i ≡ k → ⊥)
    → (update f i w' k ≡ f k) ⊎ R
other_worker f k i w' differs = inl (update_ne f i w' k (λ e. differs (sym e)))

Step-left :
    {n : ℕ} {s t : State} (k : ℕ)
    → counted (s.worker k) ≡ 1
    → s.is_cancelled k ≡ true
    → s.main ≡ joining k
    → Step n s t
    → (t.worker k ≡ s.worker k) ⊎ (left (t.worker k) < left (s.worker k))
Step-left k one over at (create j h main) = absurd (subst IsJoining (sym at ∙ main) tt)
Step-left k one over at (created_all main) = inl refl
Step-left k one over at (started main full) = inl refl
Step-left k one over at (destroy main) = inl refl
Step-left k one over at (cancel j h main) = inl refl
Step-left k one over at (cancelled_all main) = inl refl
Step-left k one over at (join j h main ended) = inl refl
Step-left k one over at (joined_all main) = inl refl
Step-left {n} {s} k one over at (come i h w) =
    other_worker s.worker k i at_barrier
      (λ e. omega (arith, sym one ∙ ap counted (ap s.worker (sym e) ∙ w)))
Step-left {n} {s} k one over at (pass i h w all) =
    other_worker s.worker k i passed
      (λ e. omega (arith, sym one ∙ ap counted (ap s.worker (sym e) ∙ w)))
Step-left {n} {s} k one over at (add i h w) =
    other_worker s.worker k i testing
      (λ e. omega (arith, sym one ∙ ap counted (ap s.worker (sym e) ∙ w)))
Step-left {n} {s} k one over at (go_on i h w free) =
    other_worker s.worker k i polling (λ e. not_both (sym free ∙ ap s.is_cancelled e ∙ over))
Step-left {n} {s} k one over at (stop i h w cancelled) =
    closer s.worker k i testing exited w (omega arith)
Step-left {n} {s} k one over at (find_nothing i h w) =
    closer s.worker k i polling testing w (omega arith)
Step-left {n} {s} k one over at (find_task i h w) =
    closer s.worker k i polling running w (omega arith)
Step-left {n} {s} k one over at (finish i h w) = closer s.worker k i running testing w (omega arith)

-- A thread has ended, or runs a task, or can take a step towards its end by itself.
abbrev pub Onward : (n : ℕ) → State → ℕ → Type 0
Onward n s k =
    (s.worker k ≡ exited)
    ⊎ ((s.worker k ≡ running)
        ⊎ ((t : State) × Step n s t × (left (t.worker k) < left (s.worker k))))

can_step :
    {n : ℕ} (s : State) (k : ℕ)
    → k < n
    → counted (s.worker k) ≡ 1
    → s.is_cancelled k ≡ true
    → (w : Worker) → s.worker k ≡ w
    → Onward n s k
can_step s k h one over absent e = absurd (omega (arith, sym one ∙ ap counted e))
can_step s k h one over created e = absurd (omega (arith, sym one ∙ ap counted e))
can_step s k h one over at_barrier e = absurd (omega (arith, sym one ∙ ap counted e))
can_step s k h one over passed e = absurd (omega (arith, sym one ∙ ap counted e))
can_step s k h one over testing e =
    inr (inr (goes s k exited, stop k h e over, descends s.worker k testing exited e (omega arith)))
can_step s k h one over polling e = inr (
    inr (goes s k testing, find_nothing k h e, descends s.worker k polling testing e (omega arith)))
can_step s k h one over running e = inr (inl e)
can_step s k h one over exited e = inl e

-- The destructor waits for tasks that run, and for nothing else. While it joins a thread, that thread has
-- ended, or runs a task, or can take a step that brings it closer to its end, whatever the other threads
-- do; each step that it takes, the return of its task too, brings it closer, and the steps of the
-- others leave it where it is. (A task may never return, as when it waits for one that the cancelled
-- threads have left in a queue.) There are fewer than 2^32 threads, and no task throws.
pub joining-goes_on :
    {n : ℕ} {s : State}
    → n < 2 ^ 32
    → Reach n s
    → (k : ℕ) → k < n
    → s.main ≡ joining k
    → Onward n s k
      × ((t : State)
          → Step n s t
          → (t.worker k ≡ s.worker k) ⊎ (left (t.worker k) < left (s.worker k)))
joining-goes_on {n} {s} small r k h at =
    let inv = Reach-Inv small r in
    let (one, over, ended) =
      subst (λ m. Seen m k (s.is_cancelled k) (s.worker k)) at (inv.seen k h) in
    (can_step s k h one over (s.worker k) refl, λ t. Step-left k one over at)
