-- ===== src/Sync/Startup/Steps.antt =====
-- The steps of the start-up barrier (pfunc/barrier.hpp) keep its invariant.
use pfunc.Base.{
  ℕ, suc, ◌+◌, ◌-◌, ◌%◌, ◌^◌, ◌<◌, ◌≡◌, ◌≢◌, refl, sym, subst, ◌⊎◌, inl, inr, arith, update,
  update-elim, update_self, update_ne,
}
use pfunc.Sync.Barrier.Tally.{tally, tally-update, tally-all}
use pfunc.Sync.Startup.{Place, entered, last, toggled, waiting, asleep, State, counted_off}
use pfunc.Sync.Startup.Situation.{Situation}
use pfunc.Sync.Startup.Invariant.{IsQuiet, Open, Closing, Inv}

-- A thread that stands at a place is in that place's situation.
pub at_place :
    {n : ℕ} {s : State} (inv : Inv n s) (i : ℕ) (p : Place)
    → i < n
    → s.place i ≡ p
    → Situation inv.completed s.bar.barrier_phase p (s.arrivals i)
at_place {n} {s} inv i p lt at =
    subst (λ q. Situation inv.completed s.bar.barrier_phase q (s.arrivals i)) at (inv.stands i lt)

-- While a thread has not come, the round is open.
pub still-Open :
    {n : ℕ} {s : State} (inv : Inv n s) (i : ℕ)
    → i < n
    → s.arrivals i ≡ inv.completed
    → Open n s inv.completed
still-Open {n} {s} inv i lt own = elim inv.mode [
  | inl open_yet ↦ open_yet
  | inr (k, k_lt, full, at, quiet) ↦
      absurd (omega (arith, tally-all n s.arrivals inv.completed full i lt, own))
]

tally-come :
    (n i : ℕ) (arr : ℕ → ℕ) (g : ℕ)
    → i < n
    → arr i ≡ g
    → tally n (update arr i (suc (arr i))) g ≡ suc (tally n arr g)
tally-come n i arr g lt e =
    subst (λ v. tally n (update arr i (suc v)) g ≡ suc (tally n arr g)) (sym e)
      (tally-update n i arr g lt e)

-- A thread comes, and goes to a place `p`.
come-Inv :
    {n : ℕ} {s : State} (inv : Inv n s) (i my_phase : ℕ) (p : Place)
    → i < n
    → s.place i ≡ entered my_phase
    → Situation inv.completed s.bar.barrier_phase p (suc inv.completed)
    → ((q : ℕ) → p ≢ asleep q)
    → let t : State = record {
      bar = counted_off s.bar;
      place = update s.place i p;
      arrivals = update s.arrivals i (suc (s.arrivals i));
    } in
      Open n t inv.completed ⊎ Closing n t inv.completed → Inv n t
come-Inv {n} {s} inv i my_phase p lt at own awake mode =
    let (same, a) = at_place inv i (entered my_phase) lt at in
    record {
      size = inv.size;
      small = inv.small;
      completed = inv.completed;
      mode = mode;
      stands = λ j lt'.
          update-elim
            (λ x r. x < n → Situation inv.completed s.bar.barrier_phase (update s.place i p x) r)
            s.arrivals i (suc (s.arrivals i))
            (λ h.
              subst (λ v. Situation inv.completed s.bar.barrier_phase v (suc (s.arrivals i)))
                (sym (update_self s.place i p))
                (subst (λ v. Situation inv.completed s.bar.barrier_phase p (suc v)) (sym a) own))
            (λ x ne h.
              subst (λ v. Situation inv.completed s.bar.barrier_phase v (s.arrivals x))
                (sym (update_ne s.place i p x ne)) (inv.stands x h))
            j lt';
      watched = λ j q lt' there differs.
          let (k, k_lt, found) =
            update-elim (λ x r. x < n → r ≡ asleep q → (k : ℕ) × (k < n) × (s.place k ≡ toggled))
              s.place i p (λ h e. absurd (awake q e)) (λ x ne h e. inv.watched x q h e differs) j
              lt' there in
          (k, k_lt, ground arith);
    }

pub come_last-Inv :
    {n : ℕ} {s : State} (inv : Inv n s) (i my_phase : ℕ)
    → i < n
    → s.place i ≡ entered my_phase
    → s.bar.barrier_count ≡ 1
    → Inv n (record {
      bar = counted_off s.bar;
      place = update s.place i last;
      arrivals = update s.arrivals i (suc (s.arrivals i));
    })
come_last-Inv {n} {s} inv i my_phase lt at one =
    let (same, a) = at_place inv i (entered my_phase) lt at in
    let (count, below, quiet) = still-Open inv i lt a in
    come-Inv inv i my_phase last lt at refl (λ q e. cc)
      (inr (
        i,
        lt,
        omega (arith, tally-come n i s.arrivals inv.completed lt a),
        inl (update_self s.place i last),
        λ j h ne. subst IsQuiet (sym (update_ne s.place i last j ne)) (quiet j h),
      ))

pub come_more-Inv :
    {n : ℕ} {s : State} (inv : Inv n s) (i my_phase : ℕ)
    → i < n
    → s.place i ≡ entered my_phase
    → s.bar.barrier_count ≢ 1
    → Inv n (record {
      bar = counted_off s.bar;
      place = update s.place i (waiting my_phase);
      arrivals = update s.arrivals i (suc (s.arrivals i));
    })
come_more-Inv {n} {s} inv i my_phase lt at more =
    let (same, a) = at_place inv i (entered my_phase) lt at in
    let (count, below, quiet) = still-Open inv i lt a in
    let grown = tally-come n i s.arrivals inv.completed lt a in
    let size : (s.bar.barrier_count + 2 ^ 32 - 1) % 2 ^ 32 + 1 ≡ s.bar.barrier_count =
      omega (arith, inv.small) in
    come-Inv inv i my_phase (waiting my_phase) lt at (inl (same, refl)) (λ q e. cc)
      (inl (
        omega arith,
        omega arith,
        update-elim (λ j q. j < n → IsQuiet q) s.place i (waiting my_phase) (λ h. tt)
            (λ j ne. quiet j),
      ))
