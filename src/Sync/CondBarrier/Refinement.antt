-- ===== src/Sync/CondBarrier/Refinement.antt =====
-- The start-up barrier over a condition variable (pfunc/barrier.hpp) does what the barriers of groups
-- (pfunc/group.hpp) do: a thread that sleeps or has been woken is a task that waits.
use pfunc.Base.{
  ℕ, suc, ◌<◌, ◌≡◌, ◌≢◌, refl, sym, ap, subst, ◌∙◌, Bool, true, false, not, ◌==◌, update,
  update-elim, arith, if◌then◌else◌, ◌⊎◌, inl, inr,
}
use pfunc.Task.Group.{Group, barrier_steal}
use pfunc.Sync.Barrier
use pfunc.Sync.CondBarrier.{
  barrier, initialize, Place, outside, asleep, awake, roused, counted, State, Step, come_last, come,
  leave, sleep_again, spurious, start, Reach, here, next,
}
use pfunc.Sync.CondBarrier

-- The barrier and its threads as a group and its tasks.
abbrev pub as_group : CondBarrier.Barrier → Group
as_group b = record {
  barrier_phase = b.barrier_phase;
  barrier_count = b.barrier_count;
  rank_token = 0;
  group_id = 0;
  group_size = b.barrier_size;
  type_of_barrier = barrier_steal;
}

abbrev pub as_place : Place → Barrier.Place
as_place outside = Barrier.outside
as_place (asleep my_phase) = Barrier.waiting my_phase
as_place (awake my_phase) = Barrier.waiting my_phase

pub record Shows (s : State) (t : Barrier.State) : Type 0 where
  pub same_group : t.grp ≡ as_group s.bar
  pub same_place : (i : ℕ) → t.place i ≡ as_place (s.place i)
  pub same_arrivals : t.arrivals ≡ s.arrivals

roused-place : (p : Place) → as_place (roused p) ≡ as_place p
unfolding roused
roused-place outside = refl
roused-place (asleep my_phase) = refl
roused-place (awake my_phase) = refl

arrive_last :
    (b : CondBarrier.Barrier)
    → 1 < b.barrier_size
    → counted b ≡ b.barrier_size
    → Barrier.barrier (as_group b) ≡ (
      as_group (record b { barrier_count = 0; barrier_phase = not b.barrier_phase }),
      Barrier.outside,
    )
unfolding Barrier.barrier Barrier.arrive
arrive_last b big full = ground arith

arrive_not_last :
    (b : CondBarrier.Barrier)
    → 1 < b.barrier_size
    → counted b ≢ b.barrier_size
    → Barrier.barrier (as_group b)
      ≡ (as_group (record b { barrier_count = counted b }), Barrier.waiting b.barrier_phase)
unfolding Barrier.barrier Barrier.arrive
arrive_not_last b big room = ground arith

alike :
    (b : Bool) (p y : Place) {q x : Barrier.Place}
    → q ≡ as_place p
    → x ≡ as_place y
    → (if b then q else x) ≡ as_place (if b then p else y)
alike true p y own other = own
alike false p y own other = other

-- What a step of the threads does to the state that shows it: a step of the tasks, or nothing.
abbrev pub Matched : Barrier.State → State → Type 0
Matched t s' = (t' : Barrier.State) × (Barrier.Step t t' ⊎ (t ≡ t')) × Shows s' t'

module _ {s : State} {t : Barrier.State} (h : Shows s t) where
  in_range : (i : ℕ) → i < s.bar.barrier_size → i < t.grp.group_size
  in_range i inside = subst (λ g. i < g.group_size) (sym h.same_group) inside

  -- A task comes to the barrier.
  arrives :
      (i : ℕ) (bar : CondBarrier.Barrier) (place : ℕ → Place) (p : Place)
      → i < s.bar.barrier_size
      → s.place i ≡ outside
      → Barrier.barrier (as_group s.bar) ≡ (as_group bar, as_place p)
      → ((j : ℕ) → as_place (place j) ≡ as_place (s.place j))
      → Matched t (record {
        bar = bar;
        place = update place i p;
        arrivals = update s.arrivals i (suc (s.arrivals i));
      })
  arrives i bar place p inside out through others =
      let came : Barrier.barrier t.grp ≡ (as_group bar, as_place p) =
        ap Barrier.barrier h.same_group ∙ through in
      (
        record {
          grp = (Barrier.barrier t.grp).0;
          place = update t.place i (Barrier.barrier t.grp).1;
          arrivals = update t.arrivals i (suc (t.arrivals i));
        },
        inl (
            Barrier.arriving i (in_range i inside) (ap (λ g. g.type_of_barrier) h.same_group)
              (h.same_place i ∙ ap as_place out)),
        record {
          same_group = ap (λ x. x.0) came;
          same_place = λ j.
              alike (i == j) p (place j) (ap (λ x. x.1) came) (h.same_place j ∙ sym (others j));
          same_arrivals = ap (λ f. update f i (suc (f i))) h.same_arrivals;
        },
      )

  -- A thread goes from one place to another that a task does not tell from it.
  stutters :
      (i : ℕ) (p : Place)
      → as_place p ≡ as_place (s.place i)
      → Matched t (record s { place = update s.place i p })
  stutters i p same = (
    t,
    inr refl,
    record {
      same_group = h.same_group;
      same_place =
          update-elim (λ j q. t.place j ≡ as_place q) s.place i p (h.same_place i ∙ sym same)
            (λ j differs. h.same_place j);
      same_arrivals = h.same_arrivals;
    },
  )

  -- A thread leaves.
  leaves :
      (i : ℕ) (my_phase : Bool)
      → i < s.bar.barrier_size
      → s.place i ≡ awake my_phase
      → my_phase ≢ s.bar.barrier_phase
      → Matched t (record s { place = update s.place i outside })
  leaves i my_phase inside woken changed = (
    record t { place = update t.place i Barrier.outside },
    inl (
        Barrier.leaving i my_phase (in_range i inside) (h.same_place i ∙ ap as_place woken)
          (λ e. changed (e ∙ ap (λ g. g.barrier_phase) h.same_group))),
    record {
      same_group = h.same_group;
      same_place = λ j. alike (i == j) outside (s.place j) refl (h.same_place j);
      same_arrivals = h.same_arrivals;
    },
  )

  matched : {s' : State} → 1 < s.bar.barrier_size → Step s s' → Matched t s'
  matched big (come_last i inside out full) =
      arrives i (record s.bar { barrier_count = 0; barrier_phase = not s.bar.barrier_phase })
        (λ j. roused (s.place j)) outside inside out (arrive_last s.bar big full)
        (λ j. roused-place (s.place j))
  matched big (come i inside out room) =
      arrives i (record s.bar { barrier_count = counted s.bar }) s.place
        (asleep s.bar.barrier_phase) inside out (arrive_not_last s.bar big room) (λ j. refl)
  matched big (leave i my_phase inside woken changed) = leaves i my_phase inside woken changed
  matched big (sleep_again i my_phase inside woken own) =
      stutters i (asleep my_phase) (sym (ap as_place woken))
  matched big (spurious i my_phase inside sleeps) =
      stutters i (awake my_phase) (sym (ap as_place sleeps))

then_move :
    {g : Group} {t t' : Barrier.State}
    → Barrier.Reach g t
    → Barrier.Step t t' ⊎ (t ≡ t')
    → Barrier.Reach g t'
then_move reached (inl step) = Barrier.next reached step
then_move {g} reached (inr same) = subst (λ u. Barrier.Reach g u) same reached

Step-size : {s t : State} → Step s t → t.bar.barrier_size ≡ s.bar.barrier_size
Step-size (come_last i inside out full) = refl
Step-size (come i inside out room) = refl
Step-size (leave i my_phase inside woken changed) = refl
Step-size (sleep_again i my_phase inside woken own) = refl
Step-size (spurious i my_phase inside sleeps) = refl

pub Reach-size : {size : ℕ} {s : State} → Reach size s → s.bar.barrier_size ≡ size
Reach-size here = refl
Reach-size (next r step) = Step-size step ∙ Reach-size r

-- The start-up barrier of two threads or more over a condition variable does what the stealing barrier of a group
-- of as many tasks does: each state that the threads can reach shows, with sleepers and woken threads
-- taken for waiting tasks, a state that the tasks can reach, with the same phase, count and arrivals.
pub Reach-Shows :
    {size : ℕ} {s : State}
    → 1 < size
    → Reach size s
    → (t : Barrier.State) × Barrier.Reach (as_group (initialize size barrier)) t × Shows s t
Reach-Shows big here = (
  Barrier.start (as_group (initialize _ barrier)),
  Barrier.here,
  record { same_group = refl; same_place = λ i. refl; same_arrivals = refl },
)
Reach-Shows big (next r step) =
    let (t, reached, shows) = Reach-Shows big r in
    let (t', moved, shows') = matched shows (subst (λ n. 1 < n) (sym (Reach-size r)) big) step in
    (t', then_move reached moved, shows')
