-- ===== src/Sync/Startup/Invariant.antt =====
-- The invariant of the start-up barrier (pfunc/barrier.hpp).
use pfunc.Base.{
  ℕ, ◌+◌, ◌^◌, ◌<◌, ◌≡◌, ◌≢◌, refl, sym, ap, ◌∙◌, subst, ◌⊎◌, inl, inr, arith, update, update-elim,
}
use pfunc.Sync.Barrier.Tally.{tally}
use pfunc.Sync.Startup.{Place, last, renewed, toggled, asleep, State}
use pfunc.Sync.Startup.Situation.{Situation}

-- A thread that is not the last of its round, at work on the words.
abbrev pub IsQuiet : Place → Type 0
IsQuiet last = ⊥
IsQuiet renewed = ⊥
IsQuiet _ = Unit {0}

-- Threads are still to come: the count says how many.
abbrev pub Open : ℕ → State → ℕ → Type 0
Open n s g =
    (s.bar.barrier_count + tally n s.arrivals g ≡ n)
    × (tally n s.arrivals g < n)
    × ((j : ℕ) → j < n → IsQuiet (s.place j))

-- All have come, and thread `k` was the last.
abbrev pub Closing : ℕ → State → ℕ → Type 0
Closing n s g =
    (k : ℕ) × (k < n)
    × (tally n s.arrivals g ≡ n)
    × ((s.place k ≡ last) ⊎ ((s.place k ≡ renewed) × (s.bar.barrier_count ≡ n)))
    × ((j : ℕ) → j < n → j ≢ k → IsQuiet (s.place j))

pub record Inv (n : ℕ) (s : State) : Type 0 where
  pub size : s.bar.barrier_size ≡ n
  pub small : n < 2 ^ 32
  pub completed : ℕ
  pub mode : Open n s completed ⊎ Closing n s completed
  pub stands : (j : ℕ) → j < n → Situation completed s.bar.barrier_phase (s.place j) (s.arrivals j)
  pub watched :
      (j p : ℕ)
      → j < n
      → s.place j ≡ asleep p
      → p ≢ s.bar.barrier_phase
      → (k : ℕ) × (k < n) × (s.place k ≡ toggled)

-- A thread moves from one quiet place to another.
pub Closing-quiet :
    {n : ℕ} (s : State) (g i : ℕ) (p : Place)
    → IsQuiet (s.place i)
    → IsQuiet p
    → Open n s g ⊎ Closing n s g
    → Open n (record s { place = update s.place i p }) g
      ⊎ Closing n (record s { place = update s.place i p }) g
Closing-quiet {n} s g i p was is (inl (count, below, quiet)) =
    inl
      (count, below, update-elim (λ j q. j < n → IsQuiet q) s.place i p (λ h. is) (λ j ne. quiet j))
Closing-quiet {n} s g i p was is (inr (k, lt, full, at, quiet)) = inr (
  k,
  lt,
  full,
  update-elim (λ j q. j ≡ k → (q ≡ last) ⊎ ((q ≡ renewed) × (s.bar.barrier_count ≡ n))) s.place i p
      (λ e. absurd (elim at [
        | inl l ↦ subst IsQuiet (ap s.place e ∙ l) was
        | inr (r, c) ↦ subst IsQuiet (ap s.place e ∙ r) was
      ]))
      (λ j ne e.
        subst (λ x. (s.place x ≡ last) ⊎ ((s.place x ≡ renewed) × (s.bar.barrier_count ≡ n)))
          (sym e) at)
      k refl,
  update-elim (λ j q. j < n → j ≢ k → IsQuiet q) s.place i p (λ h ne. is) (λ j ne. quiet j),
)

-- The step of a thread from one quiet place to another, which wakes nobody.
pub quiet-Inv :
    {n : ℕ} {s : State} (inv : Inv n s) (i : ℕ) (p : Place)
    → IsQuiet (s.place i)
    → s.place i ≢ toggled
    → IsQuiet p
    → Situation inv.completed s.bar.barrier_phase p (s.arrivals i)
    → ((q : ℕ) → p ≡ asleep q → q ≡ s.bar.barrier_phase)
    → Inv n (record s { place = update s.place i p })
quiet-Inv {n} {s} inv i p was not_toggled is own awake = record {
  size = inv.size;
  small = inv.small;
  completed = inv.completed;
  mode = Closing-quiet s inv.completed i p was is inv.mode;
  stands =
      update-elim (λ j q. j < n → Situation inv.completed s.bar.barrier_phase q (s.arrivals j))
        s.place i p (λ h. own) (λ j ne. inv.stands j);
  watched = λ j q lt at differs.
      let (k, lt', there) =
        update-elim (λ x r. x < n → r ≡ asleep q → (k : ℕ) × (k < n) × (s.place k ≡ toggled))
          s.place i p (λ h e. absurd (differs (awake q e)))
          (λ x ne h e. inv.watched x q h e differs) j lt at in
      (k, lt', ground arith);
}
