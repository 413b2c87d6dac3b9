-- ===== src/Manager/Flow.antt =====
-- The flow of tasks through a task manager, with any number of threads at work: the queue accesses
-- of `spawn_task` and of the work loops (pfunc/taskmgr.hpp), in any order. One step is one critical
-- section: a `put`, or one look of some thread's `get`.
use mathlib.Core.List.{perm_middle, append-nil, Nodup}
use mathlib.Core.List.Perm
use mathlib.Core.Path.{ap₂}
use pfunc.Base.{ℕ, ◌≡◌, subst, ◌∙◌, Bool, List, [], ◌∷◌, ◌++◌, Perm, some}
use pfunc.Scheduler.Scan.{found, PredicatePair}
use pfunc.Scheduler.Store.{QueueSet, IsValid, create, create-IsValid, tasks, all_tasks-create}
use pfunc.Scheduler.Policy.{Contract}
use pfunc.Scheduler.Policy.Search.{Took-Handed}

-- Where the tasks are: spawned so far, in the queues, run by some thread, and notified.
pub record Flow (Q : Type 0) (A : Type 0) : Type 0 where
  pub queues : QueueSet Q
  pub spawned : List A
  pub running : List A
  pub finished : List A

module _ {A : Type 0} (c : Contract A) where
  -- `spawn_task` puts a task; a thread's search finds one; a thread has run and notified its task.
  pub data Step (f : Flow c.Queue A) : Flow c.Queue A → Type 0 where
    spawn :
        (q : ℕ) (a : A) (s : QueueSet c.Queue)
        → c.put f.queues q a ≡ some s
        → Step f (record f { queues = s; spawned = a ∷ f.spawned })
    take :
        (cnd : PredicatePair A) (i : ℕ) (own : Bool) (a : A) (s : QueueSet c.Queue)
        → c.look f.queues cnd i own ≡ found a s
        → Step f (record f { queues = s; running = a ∷ f.running })
    finish :
        (xs ys : List A) (a : A)
        → f.running ≡ xs ++ a ∷ ys
        → Step f (record f { running = xs ++ ys; finished = a ∷ f.finished })

  -- The constructor of the task manager: empty queues, and no task yet.
  abbrev pub start : ℕ → Flow c.Queue A
  start num_queues = record {
    queues = create c.empty num_queues;
    spawned = [];
    running = [];
    finished = [];
  }

  pub data Reach (num_queues : ℕ) : Flow c.Queue A → Type 0 where
    here : Reach num_queues (start num_queues)
    next : {f g : Flow c.Queue A} → Reach num_queues f → Step f g → Reach num_queues g

  -- Where each spawned task is, in all.
  abbrev pub placed : Flow c.Queue A → List A
  placed f = f.finished ++ f.running ++ tasks c.view f.queues

  pub record Inv (f : Flow c.Queue A) : Type 0 where
    pub valid : IsValid f.queues
    pub kept : Perm f.spawned (placed f)

  Step-Inv : {f g : Flow c.Queue A} → Step f g → Inv f → Inv g
  Step-Inv {f} (spawn q a s e) inv =
      let (valid, same, grown) = c.put_laws.put-some f.queues q a s inv.valid e in
      record {
        valid = valid;
        kept = Perm.trans (Perm.cons a inv.kept) (
            Perm.trans (Perm.symm (perm_middle (f.finished ++ f.running) _))
              (Perm.append_left (f.finished ++ f.running) (Perm.symm grown)));
      }
  Step-Inv {f} (take cnd i own a s e) inv =
      let (valid, same, shrunk) =
        Took-Handed inv.valid (c.look_laws.on_found f.queues cnd i own a s e).0 in
      record {
        valid = valid;
        kept = Perm.trans inv.kept (
            Perm.trans (Perm.append_left (f.finished ++ f.running) shrunk) (
              Perm.trans (perm_middle (f.finished ++ f.running) (tasks c.view s)) (
                Perm.append_right (tasks c.view s)
                  (Perm.symm (perm_middle f.finished f.running)))));
      }
  Step-Inv {f} (finish xs ys a e) inv = record {
    valid = inv.valid;
    kept =
        Perm.trans
          (subst (λ r. Perm f.spawned (f.finished ++ r ++ tasks c.view f.queues)) e inv.kept)
          (Perm.append_right (tasks c.view f.queues) (
            Perm.trans (Perm.append_left f.finished (perm_middle xs ys))
              (perm_middle f.finished (xs ++ ys))));
  }

  Reach-Inv : {n : ℕ} {f : Flow c.Queue A} → Reach n f → Inv f
  Reach-Inv {n} here = record {
    valid = create-IsValid c.empty n;
    kept = rw (all_tasks-create c.view c.empty n c.view-empty) (Perm.refl []);
  }
  Reach-Inv (next r st) = Step-Inv st (Reach-Inv r)

  -- No task is lost, and none is run twice: whatever the threads do and in whatever order, the tasks
  -- spawned so far are those notified, those being run and those in the queues, each as often as it
  -- was spawned; so tasks that are all different stay so.
  pub placed-perm :
      {n : ℕ} {f : Flow c.Queue A}
      → Reach n f
      → Perm f.spawned (placed f) × (Nodup f.spawned → Nodup (placed f))
  placed-perm r = let kept = (Reach-Inv r).kept in (kept, λ d. Perm.nodup kept d)

  -- When no thread runs a task and the queues are empty, every spawned task has been run and
  -- notified, once for each time that it was spawned.
  pub finished-perm :
      {n : ℕ} {f : Flow c.Queue A}
      → Reach n f
      → f.running ≡ []
      → tasks c.view f.queues ≡ []
      → Perm f.spawned f.finished
  finished-perm {n} {f} r idle empty =
      subst (Perm f.spawned)
        (ap₂ (λ x y. f.finished ++ x ++ y) idle empty
          ∙ append-nil (f.finished ++ [])
          ∙ append-nil f.finished)
        (Reach-Inv r).kept
