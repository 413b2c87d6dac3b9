-- ===== src/Task/Event/Waiters/Invariant.antt =====
-- The invariant of the waiters of a waitable event (pfunc/event.hpp) and its notifier.
use pfunc.Base.{
  ℕ, suc, ◌+◌, ◌^◌, ◌<◌, ◌≡◌, ◌≢◌, refl, sym, ap, subst, ◌∙◌, Bool, true, false, update,
  update-elim, update_both, arith,
}
use pfunc.Task.Event.{Event, EventState, active_incomplete, active_complete, reset}
use pfunc.Sync.Barrier.Tally.{tally, tally-update, tally-all, tally-none}
use pfunc.Task.Event.Waiters.{
  Place, outside, looked, asleep, awake, closing, returned, Notifier, running, stored, finished,
  woken, State, Step, see_incomplete, see_other, sleep, changed, spurious, count, count_last, close,
  store, wake, start, Reach, here, next, counted_off,
}

-- The state of the event, by how far its notifier is.
abbrev pub state_of : Notifier → EventState
state_of running = active_incomplete
state_of _ = active_complete

-- Where a waiter may stand, and how often it has then counted itself off.
abbrev pub Stands : Notifier → Place → ℕ → Type 0
Stands q outside c = c ≡ 0
Stands q looked c = c ≡ 0
Stands q asleep c = (c ≡ 0) × (q ≢ finished)
Stands q (awake true) c = c ≡ 0
Stands q (awake false) c = (c ≡ 0) × (q ≢ running)
Stands q (closing b) c = ⊥
Stands q (returned true) c = c ≡ 1
Stands q (returned false) c = (c ≡ 1) × (q ≢ running)

pub record Inv (n : ℕ) (s : State) : Type 0 where
  pub shows : s.event.event_state ≡ state_of s.notifier
  pub stands : (i : ℕ) → i < n → Stands s.notifier (s.place i) (s.counts i)
  pub sum : s.event.num_waiters + tally n s.counts 0 ≡ n

Inv-start : (n : ℕ) (e : Event) → Inv n (start n e)
unfolding reset
Inv-start n e = record {
  shows = refl;
  stands = λ i h. refl;
  sum = ground (arith, tally-none n (λ _. 0) 0 (λ j h e. omega arith));
}

-- A waiter goes to another place, and counts nothing.
moved :
    {n : ℕ} {s : State} (i : ℕ) (p : Place)
    → Inv n s
    → Stands s.notifier p (s.counts i)
    → Inv n (record s { place = update s.place i p })
moved {n} {s} i p inv own = record {
  shows = inv.shows;
  stands =
      update-elim (λ j q. j < n → Stands s.notifier q (s.counts j)) s.place i p (λ h. own)
        (λ j differs. inv.stands j);
  sum = inv.sum;
}

-- An awake waiter has not counted itself off, so the count is not 0 yet.
pub awake_count : (q : Notifier) (b : Bool) (c : ℕ) → Stands q (awake b) c → c ≡ 0
awake_count q true c h = h
awake_count q false c h = h.0

returned-Stands :
    (q : Notifier) (b : Bool) (c : ℕ) → Stands q (awake b) c → Stands q (returned b) (suc c)
returned-Stands q true c h = ap suc h
returned-Stands q false c h = (ap suc h.0, h.1)

pub positive :
    {n : ℕ} {s : State} (i : ℕ) → Inv n s → i < n → s.counts i ≡ 0 → s.event.num_waiters ≢ 0
positive {n} {s} i inv h none empty =
    let all : tally n s.counts 0 ≡ n = omega (arith, inv.sum) in
    omega (arith, tally-all n s.counts 0 all i h)

counted :
    {n : ℕ} {s : State} (i : ℕ) (b : Bool)
    → n < 2 ^ 32
    → Inv n s
    → i < n
    → s.place i ≡ awake b
    → Inv n (counted_off s i (returned b))
counted {n} {s} i b small inv h at =
    let own : Stands s.notifier (awake b) (s.counts i) =
      subst (λ p. Stands s.notifier p (s.counts i)) at (inv.stands i h) in
    let before : s.counts i ≡ 0 = awake_count s.notifier b (s.counts i) own in
    let more = positive i inv h before in
    record {
      shows = inv.shows;
      stands =
          update_both (λ j p c. j < n → Stands s.notifier p c) s.place s.counts i (returned b)
            (suc (s.counts i)) (λ k. returned-Stands s.notifier b (s.counts i) own)
            (λ j differs. inv.stands j);
      sum =
          let one : tally n (update s.counts i (suc (s.counts i))) 0 ≡ suc (tally n s.counts 0) =
            rw before (tally-update n i s.counts 0 h before) in
          omega (arith, inv.sum, more, one);
    }

not_over : active_incomplete ≢ active_complete
not_over e = cc

pub past : (q : Notifier) → q ≢ running → state_of q ≡ active_complete
past running h = absurd (h refl)
past stored h = refl
past finished h = refl

-- The notifier goes on.
stored-Stands : (p : Place) (c : ℕ) → Stands running p c → Stands stored p c
stored-Stands outside c h = h
stored-Stands looked c h = h
stored-Stands asleep c h = (h.0, λ e. cc)
stored-Stands (awake true) c h = h
stored-Stands (awake false) c h = (h.0, λ e. cc)
stored-Stands (closing b) c h = h
stored-Stands (returned true) c h = h
stored-Stands (returned false) c h = (h.0, λ e. cc)

woken-Stands : (p : Place) (c : ℕ) → Stands stored p c → Stands finished (woken p) c
unfolding woken
woken-Stands outside c h = h
woken-Stands looked c h = h
woken-Stands asleep c h = (h.0, λ e. cc)
woken-Stands (awake true) c h = h
woken-Stands (awake false) c h = (h.0, λ e. cc)
woken-Stands (closing b) c h = h
woken-Stands (returned true) c h = h
woken-Stands (returned false) c h = (h.0, λ e. cc)

Step-Inv : {n : ℕ} {s t : State} → n < 2 ^ 32 → Inv n s → Step n s t → Inv n t
Step-Inv {n} {s} small inv (see_incomplete i h at busy) =
    moved i looked inv (subst (λ p. Stands s.notifier p (s.counts i)) at (inv.stands i h))
Step-Inv {n} {s} small inv (see_other i h at over) = moved i (awake false) inv (
  subst (λ p. Stands s.notifier p (s.counts i)) at (inv.stands i h),
  λ e. over (inv.shows ∙ ap state_of e),
)
Step-Inv {n} {s} small inv (sleep i h at busy) = moved i asleep inv (
  subst (λ p. Stands s.notifier p (s.counts i)) at (inv.stands i h),
  λ e. not_over (sym busy ∙ inv.shows ∙ ap state_of e),
)
Step-Inv {n} {s} small inv (changed i h at over) = moved i (awake false) inv (
  subst (λ p. Stands s.notifier p (s.counts i)) at (inv.stands i h),
  λ e. over (inv.shows ∙ ap state_of e),
)
Step-Inv {n} {s} small inv (spurious i h at) =
    moved i (awake true) inv (subst (λ p. Stands s.notifier p (s.counts i)) at (inv.stands i h)).0
Step-Inv small inv (count i b h at more) = counted i b small inv h at
Step-Inv {n} {s} small inv (count_last i b h at none) = absurd (
    positive i inv h
      (awake_count s.notifier b (s.counts i)
        (subst (λ p. Stands s.notifier p (s.counts i)) at (inv.stands i h)))
      none)
Step-Inv {n} {s} small inv (close i b h at) =
    absurd (subst (λ p. Stands s.notifier p (s.counts i)) at (inv.stands i h))
Step-Inv {n} {s} small inv (store at) = record {
  shows = refl;
  stands = λ i h.
      stored-Stands (s.place i) (s.counts i)
        (subst (λ q. Stands q (s.place i) (s.counts i)) at (inv.stands i h));
  sum = inv.sum;
}
Step-Inv {n} {s} small inv (wake at) = record {
  shows = inv.shows ∙ ap state_of at;
  stands = λ i h.
      woken-Stands (s.place i) (s.counts i)
        (subst (λ q. Stands q (s.place i) (s.counts i)) at (inv.stands i h));
  sum = inv.sum;
}

pub Reach-Inv : {n : ℕ} {e : Event} {s : State} → n < 2 ^ 32 → Reach n e s → Inv n s
Reach-Inv {n} {e} small here = Inv-start n e
Reach-Inv small (next r step) = Step-Inv small (Reach-Inv small r) step
