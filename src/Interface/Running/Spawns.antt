-- ===== src/Interface/Running/Spawns.antt =====
-- The two ways to spawn a task in the C interface (lib/pfunc_c.cpp).
use pfunc.Base.{
  ℕ, ◌≡◌, ◌≢◌, refl, ap, ◌∙◌, Option, none, some, update, update_self, update-update, arith,
}
use pfunc.Scheduler.Policy.{Contract}
use pfunc.Interface.Codes.{success}
use pfunc.Interface.Handles.{written}
use pfunc.Interface.Running.{
  Work, internal_work_func, no_work, work_init, work_func_set, work_arg_set, World, spawn_cxx,
  spawn_c,
}

-- A work object that is created, then given a function and an argument, is the same as one that is created
-- with both.
work_made :
    (new work arg : ℕ) (works : ℕ → Option Work)
    → new ≢ 0
    → (made : ℕ → Option Work) × (work_init new works
        ≡ ((new, update works new (some no_work)), success))
      × (work_func_set new work (update works new (some no_work)) ≡ some (made, success))
      × (work_arg_set new arg made
          ≡ some (update works new (some (internal_work_func work arg)), success))
unfolding work_func_set work_arg_set
work_made new work arg works there = (
  update (update works new (some no_work)) new (some (internal_work_func work 0)),
  ground arith,
  ap (written (λ w. record w { func_ptr = work }) new (update works new (some no_work)))
      (update_self works new (some no_work)),
  ap
        (written (λ w. record w { func_arg = arg }) new
          (update (update works new (some no_work)) new (some (internal_work_func work 0))))
        (update_self (update works new (some no_work)) new (some (internal_work_func work 0)))
      ∙ ap (λ h. some (h, success))
          (update-update (update works new (some no_work)) new (some (internal_work_func work 0))
              (some (internal_work_func work arg))
            ∙ update-update works new (some no_work) (some (internal_work_func work arg))),
)

-- `spawn_c` does what a user can do step by step: where `new` returns an address, it spawns the task with a
-- work object that is made there by `work_init`, given its function and its argument by the setters, which all
-- succeed, and passed to `spawn_cxx`. The two leave the same task managers and objects, and the same
-- status, or both are faults. Where `new` returns NULL, `spawn_c` is a fault.
pub spawn_c-steps :
    {P : Type 0} (c : Contract ℕ) (w : World P c.Queue)
    (self new taskmgr task attr group work arg : ℕ)
    → new ≢ 0
    → (fresh half whole : ℕ → Option Work) × (work_init new w.works ≡ ((new, fresh), success))
      × (work_func_set new work fresh ≡ some (half, success))
      × (work_arg_set new arg half ≡ some (whole, success))
      × (spawn_c c w self new taskmgr task attr group work arg
          ≡ spawn_cxx c (record w { works = whole }) self taskmgr task attr group new)
      × (spawn_c c w self 0 taskmgr task attr group work arg ≡ none)
unfolding spawn_c spawn_cxx
spawn_c-steps c w self new taskmgr task attr group work arg there =
    let (half, made, func, done) = work_made new work arg w.works there in
    (
      update w.works new (some no_work),
      half,
      update w.works new (some (internal_work_func work arg)),
      made,
      func,
      done,
      ground arith,
      refl,
    )
