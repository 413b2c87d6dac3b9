-- ===== src/Manager/Lifecycle/Invariant.antt =====
-- The invariant of the life of a task manager (pfunc/taskmgr.hpp).
use pfunc.Base.{
  ℕ, suc, ◌+◌, ◌%◌, ◌^◌, ◌≤◌, ◌<◌, ◌≡◌, ◌≢◌, refl, sym, ap, subst, ◌∙◌, Bool, true, false, update,
  update-elim, update_both, arith, ℕ_discrete,
}
use pfunc.Sync.Barrier.Tally.{tally, tally-update, tally-all, tally-none, tally-le}
use pfunc.Manager.Lifecycle.{
  Main, creating, waiting, constructed, cancelling, joining, deleted, Worker, absent, created,
  at_barrier, passed, testing, polling, running, exited, State, goes, Step, create, created_all,
  started, destroy, cancel, cancelled_all, join, joined_all, come, pass, add, go_on, stop,
  find_nothing, find_task, finish, start, Reach, here, next,
}

-- How often a worker has been counted, by where it stands.
abbrev pub counted : Worker → ℕ
counted absent = 0
counted created = 0
counted at_barrier = 0
counted passed = 0
counted testing = 1
counted polling = 1
counted running = 1
counted exited = 1

-- What the main thread has seen to for worker `i`.
abbrev pub Seen : Main → ℕ → Bool → Worker → Type 0
Seen (creating k) i c w = (c ≡ false) × (k ≤ i → w ≡ absent)
Seen waiting i c w = c ≡ false
Seen constructed i c w = (counted w ≡ 1) × (c ≡ false)
Seen (cancelling k) i c w = (counted w ≡ 1) × (i < k → c ≡ true)
Seen (joining k) i c w = (counted w ≡ 1) × (c ≡ true) × (i < k → w ≡ exited)
Seen deleted i c w = w ≡ exited

abbrev pub Within : ℕ → Main → Type 0
Within n (creating k) = k ≤ n
Within n (cancelling k) = k ≤ n
Within n (joining k) = k ≤ n
Within n _ = Unit

pub record Inv (n : ℕ) (s : State) : Type 0 where
  pub sum : s.thread_start_count ≡ tally n s.counts 0
  pub agree : (i : ℕ) → i < n → s.counts i ≡ counted (s.worker i)
  pub stopped : (i : ℕ) → i < n → s.worker i ≡ exited → s.is_cancelled i ≡ true
  pub seen : (i : ℕ) → i < n → Seen s.main i (s.is_cancelled i) (s.worker i)
  pub within : Within n s.main

Inv-start : (n : ℕ) → Inv n start
Inv-start n = record {
  sum = sym (tally-none n (λ _. 0) 0 (λ j h e. omega arith));
  agree = λ i h. refl;
  stopped = λ i h e. cc;
  seen = λ i h. (refl, λ below. refl);
  within = omega arith;
}

-- A worker that is under way goes on.
Seen-goes :
    (m : Main) (i : ℕ) (c : Bool) (w w' : Worker)
    → w ≢ absent
    → w ≢ exited
    → (counted w ≡ 1 → counted w' ≡ 1)
    → Seen m i c w
    → Seen m i c w'
Seen-goes (creating k) i c w w' there going more h = (h.0, λ le. absurd (there (h.1 le)))
Seen-goes waiting i c w w' there going more h = h
Seen-goes constructed i c w w' there going more h = (more h.0, h.1)
Seen-goes (cancelling k) i c w w' there going more h = (more h.0, h.1)
Seen-goes (joining k) i c w w' there going more h = (more h.0, h.1, λ lt. absurd (going (h.2 lt)))
Seen-goes deleted i c w w' there going more h = absurd (going h)

goes-Inv :
    {n : ℕ} {s : State} (i : ℕ) (w w' : Worker)
    → Inv n s
    → i < n
    → s.worker i ≡ w
    → w ≢ absent
    → w ≢ exited
    → counted w ≡ counted w'
    → (w' ≡ exited → s.is_cancelled i ≡ true)
    → Inv n (goes s i w')
goes-Inv {n} {s} i w w' inv h at there going same ends = record {
  sum = inv.sum;
  agree =
      update-elim (λ j v. j < n → s.counts j ≡ counted v) s.worker i w'
        (λ k. inv.agree i k ∙ ap counted at ∙ same) (λ j differs. inv.agree j);
  stopped =
      update-elim (λ j v. j < n → v ≡ exited → s.is_cancelled j ≡ true) s.worker i w' (λ k. ends)
        (λ j differs. inv.stopped j);
  seen =
      update-elim (λ j v. j < n → Seen s.main j (s.is_cancelled j) v) s.worker i w'
        (λ k.
          Seen-goes s.main i (s.is_cancelled i) w w' there going (λ e. sym same ∙ e)
            (subst (λ v. Seen s.main i (s.is_cancelled i) v) at (inv.seen i k)))
        (λ j differs. inv.seen j);
  within = inv.within;
}

-- A worker adds itself to `thread_start_count`.
add-Inv :
    {n : ℕ} {s : State} (i : ℕ)
    → n < 2 ^ 32
    → Inv n s
    → i < n
    → s.worker i ≡ passed
    → Inv n (record (goes s i testing) {
      thread_start_count = (s.thread_start_count + 1) % 2 ^ 32;
      counts = update s.counts i (suc (s.counts i));
    })
add-Inv {n} {s} i small inv h at =
    let before : s.counts i ≡ 0 = inv.agree i h ∙ ap counted at in
    record {
      sum =
          let one : tally n (update s.counts i (suc (s.counts i))) 0 ≡ suc (tally n s.counts 0) =
            rw before (tally-update n i s.counts 0 h before) in
          let room = tally-le n (update s.counts i (suc (s.counts i))) 0 in
          omega (arith, inv.sum, one, room);
      agree =
          update_both (λ j v c. j < n → c ≡ counted v) s.worker s.counts i testing
            (suc (s.counts i)) (λ k. ap suc before) (λ j differs. inv.agree j);
      stopped =
          update-elim (λ j v. j < n → v ≡ exited → s.is_cancelled j ≡ true) s.worker i testing
            (λ k e. cc) (λ j differs. inv.stopped j);
      seen =
          update-elim (λ j v. j < n → Seen s.main j (s.is_cancelled j) v) s.worker i testing
            (λ k.
              Seen-goes s.main i (s.is_cancelled i) passed testing (λ e. cc) (λ e. cc) (λ e. refl)
                (subst (λ v. Seen s.main i (s.is_cancelled i) v) at (inv.seen i k)))
            (λ j differs. inv.seen j);
      within = inv.within;
    }

-- The main thread goes on, and the workers stay.
main-Inv :
    {n : ℕ} {s : State} (m : Main)
    → Inv n s
    → Within n m
    → ((i : ℕ) → i < n → Seen m i (s.is_cancelled i) (s.worker i))
    → Inv n (record s { main = m })
main-Inv m inv bound h = record {
  sum = inv.sum;
  agree = inv.agree;
  stopped = inv.stopped;
  seen = h;
  within = bound;
}

create-Inv :
    {n : ℕ} {s : State} (k : ℕ)
    → k < n
    → Inv n s
    → s.main ≡ creating k
    → Inv n (record (goes s k created) { main = creating (suc k) })
create-Inv {n} {s} k small inv at =
    let seen : (j : ℕ) → j < n → Seen (creating k) j (s.is_cancelled j) (s.worker j) =
      λ j h. subst (λ m. Seen m j (s.is_cancelled j) (s.worker j)) at (inv.seen j h) in
    let fresh : s.worker k ≡ absent = (seen k small).1 (omega arith) in
    record {
      sum = inv.sum;
      agree =
          update-elim (λ j v. j < n → s.counts j ≡ counted v) s.worker k created
            (λ h. inv.agree k h ∙ ap counted fresh) (λ j differs. inv.agree j);
      stopped =
          update-elim (λ j v. j < n → v ≡ exited → s.is_cancelled j ≡ true) s.worker k created
            (λ h e. cc) (λ j differs. inv.stopped j);
      seen =
          update-elim (λ j v. j < n → Seen (creating (suc k)) j (s.is_cancelled j) v) s.worker k
            created (λ h. ((seen k h).0, λ le. absurd (omega arith)))
            (λ j differs h. ((seen j h).0, λ le. (seen j h).1 (omega arith)));
      within = omega arith;
    }

cancel-Inv :
    {n : ℕ} {s : State} (k : ℕ)
    → k < n
    → Inv n s
    → s.main ≡ cancelling k
    → Inv n (record s { main = cancelling (suc k); is_cancelled = update s.is_cancelled k true })
cancel-Inv {n} {s} k small inv at =
    let seen : (j : ℕ) → j < n → Seen (cancelling k) j (s.is_cancelled j) (s.worker j) =
      λ j h. subst (λ m. Seen m j (s.is_cancelled j) (s.worker j)) at (inv.seen j h) in
    record {
      sum = inv.sum;
      agree = inv.agree;
      stopped =
          update-elim (λ j c. j < n → s.worker j ≡ exited → c ≡ true) s.is_cancelled k true
            (λ h e. refl) (λ j differs. inv.stopped j);
      seen =
          update-elim (λ j c. j < n → Seen (cancelling (suc k)) j c (s.worker j)) s.is_cancelled k
            true (λ h. ((seen k h).0, λ lt. refl))
            (λ j differs h. ((seen j h).0, λ lt. (seen j h).1 (omega arith)));
      within = omega arith;
    }

Step-Inv : {n : ℕ} {s t : State} → n < 2 ^ 32 → Inv n s → Step n s t → Inv n t
Step-Inv small inv (create k h at) = create-Inv k h inv at
Step-Inv {n} {s} small inv (created_all at) =
    main-Inv waiting inv tt
      (λ i h. (subst (λ m. Seen m i (s.is_cancelled i) (s.worker i)) at (inv.seen i h)).0)
Step-Inv {n} {s} small inv (started at full) = main-Inv constructed inv tt (λ i h. (
  sym (inv.agree i h) ∙ tally-all n s.counts 0 (sym inv.sum ∙ full) i h,
  subst (λ m. Seen m i (s.is_cancelled i) (s.worker i)) at (inv.seen i h),
))
Step-Inv {n} {s} small inv (destroy at) = main-Inv (cancelling 0) inv (omega arith) (λ i h. (
  (subst (λ m. Seen m i (s.is_cancelled i) (s.worker i)) at (inv.seen i h)).0,
  λ lt. absurd (omega arith),
))
Step-Inv small inv (cancel k h at) = cancel-Inv k h inv at
Step-Inv {n} {s} small inv (cancelled_all at) = main-Inv (joining 0) inv (omega arith) (λ i h.
    let seen = subst (λ m. Seen m i (s.is_cancelled i) (s.worker i)) at (inv.seen i h) in
    (seen.0, seen.1 h, λ lt. absurd (omega arith)))
Step-Inv {n} {s} small inv (join k h at ended) =
    main-Inv (joining (suc k)) inv (omega arith) (λ i below.
      let seen = subst (λ m. Seen m i (s.is_cancelled i) (s.worker i)) at (inv.seen i below) in
      (
        seen.0,
        seen.1,
        λ lt. elim (ℕ_discrete i k) [
          | yes same ↦ ap s.worker same ∙ ended
          | no differs ↦ seen.2 (omega arith)
        ],
      ))
Step-Inv {n} {s} small inv (joined_all at) =
    main-Inv deleted inv tt
      (λ i h. (subst (λ m. Seen m i (s.is_cancelled i) (s.worker i)) at (inv.seen i h)).2 h)
Step-Inv small inv (come i h at) =
    goes-Inv i created at_barrier inv h at (λ e. cc) (λ e. cc) refl (λ e. cc)
Step-Inv small inv (pass i h at all) =
    goes-Inv i at_barrier passed inv h at (λ e. cc) (λ e. cc) refl (λ e. cc)
Step-Inv small inv (add i h at) = add-Inv i small inv h at
Step-Inv small inv (go_on i h at free) =
    goes-Inv i testing polling inv h at (λ e. cc) (λ e. cc) refl (λ e. cc)
Step-Inv small inv (stop i h at over) =
    goes-Inv i testing exited inv h at (λ e. cc) (λ e. cc) refl (λ e. over)
Step-Inv small inv (find_nothing i h at) =
    goes-Inv i polling testing inv h at (λ e. cc) (λ e. cc) refl (λ e. cc)
Step-Inv small inv (find_task i h at) =
    goes-Inv i polling running inv h at (λ e. cc) (λ e. cc) refl (λ e. cc)
Step-Inv small inv (finish i h at) =
    goes-Inv i running testing inv h at (λ e. cc) (λ e. cc) refl (λ e. cc)

pub Reach-Inv : {n : ℕ} {s : State} → n < 2 ^ 32 → Reach n s → Inv n s
Reach-Inv {n} small here = Inv-start n
Reach-Inv small (next r step) = Step-Inv small (Reach-Inv small r) step
