-- ===== src/Sync/Startup/Turn.antt =====
-- The steps of the last thread at the start-up barrier (pfunc/barrier.hpp), and all reachable states.
use pfunc.Base.{
  ℕ, suc, ◌^◌, ◌<◌, ◌≡◌, ◌≢◌, refl, sym, ap, ◌∙◌, subst, ◌⊎◌, inl, inr, arith, update, update-elim,
  update_self, update_ne, ℕ_discrete,
}
use pfunc.Sync.Barrier.Tally.{tally, tally-all, tally-none}
use pfunc.Sync.Startup.{
  Place, outside, entered, last, renewed, toggled, waiting, asleep, complement, woken, State, Step,
  enter, come_last, come, renew, toggle, wake, leave, sleep, spurious, Reach, here, next,
}
use pfunc.Sync.Startup.Situation.{Situation, Situation-turn, Situation-woken}
use pfunc.Sync.Startup.Invariant.{IsQuiet, Inv, quiet-Inv, Closing-quiet}
use pfunc.Sync.Startup.Steps.{at_place, come_last-Inv, come_more-Inv}

-- A thread that is not quiet is the last of its round.
the_last :
    {n : ℕ} {s : State} (inv : Inv n s) (i : ℕ)
    → i < n
    → ¬ IsQuiet (s.place i)
    → (tally n s.arrivals inv.completed ≡ n)
      × ((s.place i ≡ last) ⊎ ((s.place i ≡ renewed) × (s.bar.barrier_count ≡ n)))
      × ((j : ℕ) → j < n → j ≢ i → IsQuiet (s.place j))
the_last {n} {s} inv i lt busy = elim inv.mode [
  | inl (count, below, quiet) ↦ absurd (busy (quiet i lt))
  | inr (k, k_lt, full, at, quiet) ↦ elim (ℕ_discrete i k) [
    | yes same ↦
        subst
          (λ x.
            (tally n s.arrivals inv.completed ≡ n)
            × ((s.place x ≡ last) ⊎ ((s.place x ≡ renewed) × (s.bar.barrier_count ≡ n)))
            × ((j : ℕ) → j < n → j ≢ x → IsQuiet (s.place j)))
          (sym same) (full, at, quiet)
    | no other ↦ absurd (busy (quiet i lt other))
  ]
]

busy_at : (p q : Place) → p ≡ q → ¬ IsQuiet q → ¬ IsQuiet p
busy_at p q e busy quiet = busy (subst IsQuiet e quiet)

renew-Inv :
    {n : ℕ} {s : State} (inv : Inv n s) (i : ℕ)
    → i < n
    → s.place i ≡ last
    → Inv n (record s {
      bar = record s.bar { barrier_count = s.bar.barrier_size };
      place = update s.place i renewed;
    })
renew-Inv {n} {s} inv i lt at =
    let (full, own, quiet) = the_last inv i lt (busy_at (s.place i) last at (λ x. x)) in
    record {
      size = inv.size;
      small = inv.small;
      completed = inv.completed;
      mode = inr (
        i,
        lt,
        full,
        inr (update_self s.place i renewed, inv.size),
        λ j h ne. subst IsQuiet (sym (update_ne s.place i renewed j ne)) (quiet j h ne),
      );
      stands =
          update-elim (λ j q. j < n → Situation inv.completed s.bar.barrier_phase q (s.arrivals j))
            s.place i renewed (λ h. at_place inv i last lt at) (λ j ne. inv.stands j);
      watched = λ j q lt' there differs.
          let (k, k_lt, found) =
            update-elim (λ x r. x < n → r ≡ asleep q → (k : ℕ) × (k < n) × (s.place k ≡ toggled))
              s.place i renewed (λ h e. cc) (λ x ne h e. inv.watched x q h e differs) j lt' there in
          (k, k_lt, ground arith);
    }

toggle-Inv :
    {n : ℕ} {s : State} (inv : Inv n s) (i : ℕ)
    → i < n
    → s.place i ≡ renewed
    → Inv n (record s {
      bar = record s.bar { barrier_phase = complement s.bar.barrier_phase };
      place = update s.place i toggled;
    })
toggle-Inv {n} {s} inv i lt at =
    let (full, own, quiet) = the_last inv i lt (busy_at (s.place i) renewed at (λ x. x)) in
    let all = tally-all n s.arrivals inv.completed full in
    let none_yet : tally n s.arrivals (suc inv.completed) ≡ 0 =
      tally-none n s.arrivals (suc inv.completed) (λ j h e. omega (arith, all j h, e)) in
    record {
      size = inv.size;
      small = inv.small;
      completed = suc inv.completed;
      mode = inl (
        elim own [ inl l ↦ cc | inr (r, c) ↦ omega (arith, c, none_yet) ],
        omega (arith, none_yet, lt),
        update-elim (λ j q. j < n → IsQuiet q) s.place i toggled (λ h. tt) (λ j ne h. quiet j h ne),
      );
      stands =
          update-elim
            (λ j q.
              j < n
              → Situation (suc inv.completed) (complement s.bar.barrier_phase) q (s.arrivals j))
            s.place i toggled (all i)
            (λ j ne h.
              Situation-turn inv.completed s.bar.barrier_phase (s.place j) (s.arrivals j) (all j h)
                (λ e. subst IsQuiet e (quiet j h ne)) (λ e. subst IsQuiet e (quiet j h ne))
                (inv.stands j h));
      watched = λ j q lt' there differs. (i, lt, update_self s.place i toggled);
    }

-- What a wake-up does to a thread, for the predicates of the invariant.
IsQuiet-woken : (p : Place) → IsQuiet p → IsQuiet (woken p)
unfolding woken
IsQuiet-woken outside h = tt
IsQuiet-woken (entered p) h = tt
IsQuiet-woken last h = h
IsQuiet-woken renewed h = h
IsQuiet-woken toggled h = tt
IsQuiet-woken (waiting p) h = tt
IsQuiet-woken (asleep p) h = tt

woken-awake : (p : Place) (q : ℕ) → woken p ≢ asleep q
unfolding woken
woken-awake outside q e = cc
woken-awake (entered p) q e = cc
woken-awake last q e = cc
woken-awake renewed q e = cc
woken-awake toggled q e = cc
woken-awake (waiting p) q e = cc
woken-awake (asleep p) q e = cc

-- A sleeper, or a thread that is not one, as `futex_wake` leaves it.
all_woken-Inv :
    {n : ℕ} {s : State} (inv : Inv n s) → Inv n (record s { place = λ j. woken (s.place j) })
unfolding woken
all_woken-Inv {n} {s} inv = record {
  size = inv.size;
  small = inv.small;
  completed = inv.completed;
  mode = elim inv.mode [
    | inl (count, below, quiet) ↦ inl (count, below, λ j h. IsQuiet-woken (s.place j) (quiet j h))
    | inr (k, lt, full, at, quiet) ↦ inr (
      k,
      lt,
      full,
      elim at [
        | inl l ↦ inl (stays (s.place k) last l refl)
        | inr (r, c) ↦ inr (stays (s.place k) renewed r refl, c)
      ],
      λ j h ne. IsQuiet-woken (s.place j) (quiet j h ne),
    )
  ];
  stands = λ j h.
      Situation-woken inv.completed s.bar.barrier_phase (s.place j) (s.arrivals j) (inv.stands j h);
  watched = λ j q h there. absurd (woken-awake (s.place j) q there);
}
  where
    stays : (p q : Place) → p ≡ q → woken q ≡ q → woken p ≡ q
    stays p q e fixed = ap woken e ∙ fixed

-- A thread leaves a toggled barrier once it has woken the sleepers.
wake-Inv :
    {n : ℕ} {s : State} (inv : Inv n s) (i : ℕ)
    → i < n
    → s.place i ≡ toggled
    → Inv n (record s { place = update (λ j. woken (s.place j)) i outside })
unfolding woken
wake-Inv {n} {s} inv i lt at =
    let all = all_woken-Inv inv in
    let here : woken (s.place i) ≡ toggled = ap woken at in
    record {
      size = all.size;
      small = all.small;
      completed = all.completed;
      mode =
          Closing-quiet (record s { place = λ j. woken (s.place j) }) all.completed i outside
            (subst IsQuiet (sym here) tt) tt all.mode;
      stands =
          update-elim (λ j q. j < n → Situation all.completed s.bar.barrier_phase q (s.arrivals j))
            (λ j. woken (s.place j)) i outside (λ h. at_place all i toggled lt here)
            (λ j ne. all.stands j);
      watched = λ j q h there differs. absurd (
          update-elim (λ x r. r ≢ asleep q) (λ x. woken (s.place x)) i outside (λ e. cc)
            (λ x ne. woken-awake (s.place x) q) j there);
    }

-- A thread at a quiet place is there by one of the constructors.
IsQuiet-at : (p q : Place) → p ≡ q → IsQuiet q → IsQuiet p
IsQuiet-at p q e quiet = subst IsQuiet (sym e) quiet

Step-Inv : {n : ℕ} {s t : State} → Step s t → Inv n s → Inv n t
Step-Inv {n} {s} (enter i lt at) inv =
    let h : i < n = subst (λ k. i < k) inv.size lt in
    quiet-Inv inv i (entered s.bar.barrier_phase) (IsQuiet-at (s.place i) outside at tt) (λ e. cc)
      tt (refl, at_place inv i outside h at) (λ q e. cc)
Step-Inv (come_last i p lt at one) inv =
    come_last-Inv inv i p (subst (λ k. i < k) inv.size lt) at one
Step-Inv (come i p lt at more) inv = come_more-Inv inv i p (subst (λ k. i < k) inv.size lt) at more
Step-Inv (renew i lt at) inv = renew-Inv inv i (subst (λ k. i < k) inv.size lt) at
Step-Inv (toggle i lt at) inv = toggle-Inv inv i (subst (λ k. i < k) inv.size lt) at
Step-Inv (wake i lt at) inv = wake-Inv inv i (subst (λ k. i < k) inv.size lt) at
Step-Inv {n} {s} (leave i p lt at differs) inv =
    let h : i < n = subst (λ k. i < k) inv.size lt in
    quiet-Inv inv i outside (IsQuiet-at (s.place i) (waiting p) at tt) (λ e. cc) tt
      (elim (at_place inv i (waiting p) h at) [
        | inl (same, a) ↦ absurd (differs same)
        | inr (gone, a) ↦ a
      ])
      (λ q e. cc)
Step-Inv {n} {s} (sleep i p lt at same) inv =
    let h : i < n = subst (λ k. i < k) inv.size lt in
    quiet-Inv inv i (asleep p) (IsQuiet-at (s.place i) (waiting p) at tt) (λ e. cc) tt
      (at_place inv i (waiting p) h at) (λ q e. cc)
Step-Inv {n} {s} (spurious i p lt at) inv =
    let h : i < n = subst (λ k. i < k) inv.size lt in
    quiet-Inv inv i (waiting p) (IsQuiet-at (s.place i) (asleep p) at tt) (λ e. cc) tt
      (at_place inv i (asleep p) h at) (λ q e. cc)

pub Reach-Inv : {n : ℕ} {s : State} → 0 < n → n < 2 ^ 32 → Reach n s → Inv n s
Reach-Inv {n} some_thread small here =
    let nobody : tally n (λ _. 0) 0 ≡ 0 = tally-none n (λ _. 0) 0 (λ j h e. omega (arith, e)) in
    record {
      size = refl;
      small = small;
      completed = 0;
      mode = inl (omega (arith, nobody), omega (arith, nobody, some_thread), λ j h. tt);
      stands = λ j h. refl;
      watched = λ j p h e. cc;
    }
Reach-Inv some_thread small (next r st) = Step-Inv st (Reach-Inv some_thread small r)
