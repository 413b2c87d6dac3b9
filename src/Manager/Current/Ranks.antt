-- ===== src/Manager/Current/Ranks.antt =====
-- The ranks that tasks of a group are told (pfunc/taskmgr.hpp, pfunc/group.hpp).
use pfunc.Base.{
  ℕ, ◌%◌, ◌+◌, ◌^◌, ◌≡◌, sym, ap, ◌∙◌, true, Option, none, some, update, update_self, arith,
  Option-cases, some-elim, inl, inr,
}
use pfunc.Task.Attribute.{Attribute}
use pfunc.Task.Group.{join_group}
use pfunc.Task.Object.{set_group, reset_completion, shallow_copy}
use pfunc.Scheduler.Policy.{Contract}
use pfunc.Manager.State.{Manager, prepare, target_queue, spawn_task, cached}
use pfunc.Manager.Startup.{Setup, current_task_information}
use pfunc.Manager.Current.{read, current_task_group_rank, current_task_group_size}

none-ne : {A : Type 0} {a : A} → ◌≡◌ {A = Option A} none (some a) → ⊥
none-ne e = cc

module _ {P : Type 0} (c : Contract ℕ) where
  prepare-rank :
      (m : Manager P c.Queue) (a : ℕ) (attr : Attribute P) (group work : ℕ)
      → attr.join_group ≡ true
      → ((prepare c m a attr group work).0.grank ≡ (m.groups group).rank_token)
        × ((prepare c m a attr group work).0.gsize ≡ (m.groups group).group_size)
        × ((prepare c m a attr group work).1.rank_token
            ≡ ((m.groups group).rank_token + 1) % 2 ^ 32)
  unfolding prepare set_group reset_completion join_group
  prepare-rank m a attr group work joins = (ground arith, ground arith, ground arith)

  -- A task that is spawned into its group is handed the token of the group as its rank, and the token
  -- is raised by one; and when a thread that finds its own number takes the task next, the task manager
  -- tells it that rank, and the size that the group had when it was spawned.
  pub spawn_task-rank :
      (setup : Setup c.Queue) (m m' : Manager P c.Queue) (self runner a : ℕ) (attr : Attribute P)
      (group work : ℕ)
      → attr.join_group ≡ true
      → spawn_task c m self a attr group work ≡ some m'
      → current_task_information setup runner ≡ some runner
      → (current_task_group_rank setup (cached c m' runner a) runner
          ≡ some (m.groups group).rank_token)
        × (current_task_group_size setup (cached c m' runner a) runner
            ≡ some (m.groups group).group_size)
        × ((m'.groups group).rank_token ≡ ((m.groups group).rank_token + 1) % 2 ^ 32)
  unfolding spawn_task current_task_group_rank current_task_group_size shallow_copy
  spawn_task-rank setup m m' self runner a attr group work joins spawned known =
      let p = prepare c m a attr group work in
      let (rank, size, token) = prepare-rank m a attr group work joins in
      elim (Option-cases (c.put m.task_queue (target_queue c m self attr) a)) [
        | inl full ↦ absurd (none-ne (rw (full, spawn_task) at spawned))
        | inr (s, stored) ↦
            let made : m' ≡ record m {
              heap = update m.heap a p.0;
              groups = update m.groups group p.1;
              task_queue = s;
            } =
              sym (some-elim (rw (stored, spawn_task) at spawned)) in
            let told : (cached c m' runner a).task_cache runner
                ≡ shallow_copy (m'.task_cache runner) (m'.heap a) =
              update_self m'.task_cache runner (shallow_copy (m'.task_cache runner) (m'.heap a)) in
            let own : m'.heap a ≡ p.0 = ap (λ x. x.heap a) made ∙ update_self m.heap a p.0 in
            let after : m'.groups group ≡ p.1 =
              ap (λ x. x.groups group) made ∙ update_self m.groups group p.1 in
            (
              ap (λ o. read (λ t. t.grank) (read (λ i. (cached c m' runner a).task_cache i) o))
                    known
                  ∙ ap (λ t. some t.grank) told
                  ∙ ap (λ t. some t.grank) own
                  ∙ ap some rank,
              ap (λ o. read (λ t. t.gsize) (read (λ i. (cached c m' runner a).task_cache i) o))
                    known
                  ∙ ap (λ t. some t.gsize) told
                  ∙ ap (λ t. some t.gsize) own
                  ∙ ap some size,
              ap (λ g. g.rank_token) after ∙ token,
            )
      ]
