-- ===== src/Sync/Startup/Safety.antt =====
-- The safety of the start-up barrier (pfunc/barrier.hpp), and that it neither blocks nor loses a
-- wake-up.
use pfunc.Base.{ℕ, suc, ◌+◌, ◌^◌, ◌≤◌, ◌<◌, ◌≡◌, ◌≢◌, refl, subst, inl, inr, arith}
use pfunc.Sync.Barrier.Tally.{tally-full}
use pfunc.Sync.Startup.{
  Place, outside, entered, last, renewed, toggled, waiting, asleep, State, Reach,
}
use pfunc.Sync.Startup.Situation.{Situation, Situation-bounds}
use pfunc.Sync.Startup.Turn.{Reach-Inv}

-- No thread returns from the barrier before all have come to it: with one thread or more, and fewer
-- than 2^32, in every state that they can reach, a thread that is outside has come to no more rounds
-- than any other, and no thread to more than one more than another.
pub no_early_return :
    {n : ℕ} {s : State}
    → 0 < n
    → n < 2 ^ 32
    → Reach n s
    → (i j : ℕ) → i < n
    → j < n
    → (s.place i ≡ outside → s.arrivals i ≤ s.arrivals j) × (s.arrivals i ≤ s.arrivals j + 1)
no_early_return {n} {s} some_thread small r i j hi hj =
    let inv = Reach-Inv some_thread small r in
    let (low, high) = Situation-bounds _ _ (s.place j) (s.arrivals j) (inv.stands j hj) in
    let (low', high') = Situation-bounds _ _ (s.place i) (s.arrivals i) (inv.stands i hi) in
    (
      λ out.
          let own : s.arrivals i ≡ inv.completed =
            subst (λ q. Situation inv.completed s.bar.barrier_phase q (s.arrivals i)) out
              (inv.stands i hi) in
          omega arith,
      omega arith,
    )

-- No sleeper is forgotten: while a thread sleeps for a phase that has gone by, the thread that changed
-- the phase is still to wake the sleepers. There are one thread or more, and fewer than 2^32.
pub no_forgotten_sleeper :
    {n : ℕ} {s : State}
    → 0 < n
    → n < 2 ^ 32
    → Reach n s
    → (i my_phase : ℕ) → i < n
    → s.place i ≡ asleep my_phase
    → my_phase ≢ s.bar.barrier_phase
    → (k : ℕ) × (k < n) × (s.place k ≡ toggled)
no_forgotten_sleeper some_thread small r i p lt at differs =
    (Reach-Inv some_thread small r).watched i p lt at differs

-- A thread that can only sleep, or sleeps.
abbrev pub IsBlocked : ℕ → Place → Type 0
IsBlocked phase (waiting p) = p ≡ phase
IsBlocked phase (asleep p) = Unit {0}
IsBlocked phase _ = ⊥

IsBlocked-toggled : (phase : ℕ) (p : Place) → p ≡ toggled → ¬ IsBlocked phase p
IsBlocked-toggled phase p e b = subst (IsBlocked phase) e b

-- A blocked thread has come to the round, or is a sleeper that somebody is about to wake.
blocked-arrivals :
    (g phase : ℕ) (p : Place) (a : ℕ)
    → Situation g phase p a
    → IsBlocked phase p
    → ((q : ℕ) → p ≡ asleep q → q ≢ phase → ⊥)
    → a ≡ suc g
blocked-arrivals g phase outside a e b away = elim b [ ]
blocked-arrivals g phase (entered p) a e b away = elim b [ ]
blocked-arrivals g phase last a e b away = elim b [ ]
blocked-arrivals g phase renewed a e b away = elim b [ ]
blocked-arrivals g phase toggled a e b away = elim b [ ]
blocked-arrivals g phase (waiting p) a (inl (same, e)) b away = e
blocked-arrivals g phase (waiting p) a (inr (differs, e)) b away = absurd (differs b)
blocked-arrivals g phase (asleep p) a (inl (same, e)) b away = e
blocked-arrivals g phase (asleep p) a (inr (differs, e)) b away = absurd (away p refl differs)

-- The barrier does not block: with one thread or more, and fewer than 2^32, they are never all asleep
-- or about to sleep.
pub some_awake :
    {n : ℕ} {s : State}
    → 0 < n
    → n < 2 ^ 32
    → Reach n s
    → ¬ ((i : ℕ) → i < n → IsBlocked s.bar.barrier_phase (s.place i))
some_awake {n} {s} some_thread small r all =
    let inv = Reach-Inv some_thread small r in
    let come : (j : ℕ) → j < n → s.arrivals j ≡ suc inv.completed = λ j h.
      blocked-arrivals inv.completed s.bar.barrier_phase (s.place j) (s.arrivals j) (inv.stands j h)
        (all j h)
        λ q e differs.
          let (k, lt, at) = inv.watched j q h e differs in
          IsBlocked-toggled s.bar.barrier_phase (s.place k) at (all k lt) in
    elim inv.mode [
      | inl (count, below, quiet) ↦ omega (arith, below, tally-full n s.arrivals inv.completed come)
      | inr (k, lt, full, at, quiet) ↦ elim at [
        | inl l ↦ subst (IsBlocked s.bar.barrier_phase) l (all k lt)
        | inr (e, c) ↦ subst (IsBlocked s.bar.barrier_phase) e (all k lt)
      ]
    ]
