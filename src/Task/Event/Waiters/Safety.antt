-- ===== src/Task/Event/Waiters/Safety.antt =====
-- The waiters of a waitable event (pfunc/event.hpp): when they return, and that none sleeps on.
use pfunc.Base.{
  ℕ, ◌^◌, ◌<◌, ◌≡◌, ◌≢◌, refl, sym, ap, subst, ◌∙◌, ◌⊎◌, inl, inr, Bool, true, false, update,
  update_self, arith,
}
use pfunc.Task.Event.{Event, active_incomplete, active_complete}
use pfunc.Sync.Barrier.Tally.{tally, tally-full}
use pfunc.Task.Event.Waiters.{
  Place, outside, looked, asleep, awake, closing, returned, Notifier, running, finished, State,
  Step, see_other, changed, count, Reach,
}
use pfunc.Task.Event.Waiters.Invariant.{
  state_of, Stands, Inv, past, Reach-Inv, positive, awake_count,
}

-- A waiter returns only from a complete event, unless its `futex_wait` returned for no reason; and once
-- the notifier is done, no waiter is asleep. There are fewer than 2^32 waiters, each of which waits
-- once.
pub returns_complete :
    {n : ℕ} {e : Event} {s : State}
    → n < 2 ^ 32
    → Reach n e s
    → (i : ℕ) → i < n
    → (s.place i ≡ returned false → s.event.event_state ≡ active_complete)
      × (s.notifier ≡ finished → s.place i ≢ asleep)
returns_complete {n} {e} {s} small r i h =
    let inv = Reach-Inv small r in
    (
      λ at.
          inv.shows
          ∙ past s.notifier (subst (λ p. Stands s.notifier p (s.counts i)) at (inv.stands i h)).1,
      λ done at. (subst (λ p. Stands s.notifier p (s.counts i)) at (inv.stands i h)).1 done,
    )

returned_once : (q : Notifier) (b : Bool) (c : ℕ) → Stands q (returned b) c → c ≡ 1
returned_once q true c h = h
returned_once q false c h = h.0

-- Nobody puts the event out of use: after any steps it is incomplete if the notifier has not stored yet, and
-- complete if it has; and when the notifier has stored and all of the waiters have returned, whatever
-- their order, the count is 0 and the event is still complete. There are fewer than 2^32 waiters, each
-- of which waits once.
pub returns-count :
    {n : ℕ} {e : Event} {s : State}
    → n < 2 ^ 32
    → Reach n e s
    → (s.notifier ≡ running → s.event.event_state ≡ active_incomplete)
      × (s.notifier ≢ running → s.event.event_state ≡ active_complete)
      × (s.notifier ≢ running
          → ((i : ℕ) → i < n → (b : Bool) × (s.place i ≡ returned b))
          → s.event ≡ record { event_state = active_complete; num_waiters = 0 })
returns-count {n} {e} {s} small r =
    let inv = Reach-Inv small r in
    (
      λ before. inv.shows ∙ ap state_of before,
      λ done. inv.shows ∙ past s.notifier done,
      λ done all.
          let once : (i : ℕ) → i < n → s.counts i ≡ 1 = λ i h.
            let (b, at) = all i h in
            returned_once s.notifier b (s.counts i)
              (subst (λ p. Stands s.notifier p (s.counts i)) at (inv.stands i h)) in
          let full : tally n s.counts 0 ≡ n = tally-full n s.counts 0 once in
          let complete : s.event.event_state ≡ active_complete = inv.shows ∙ past s.notifier done in
          let none : s.event.num_waiters ≡ 0 = omega (arith, inv.sum, full) in
          ground (arith, complete, none),
    )

-- How many more steps a waiter takes, at the most, once the notifier is done.
abbrev pub left : Place → ℕ
left outside = 2
left looked = 2
left asleep = 3
left (awake b) = 1
left (closing b) = 1
left (returned b) = 0

descends :
    (f : ℕ → Place) (i : ℕ) (p q : Place)
    → f i ≡ p
    → left q < left p
    → left (update f i q i) < left (f i)
descends f i p q at less =
    subst (λ x. left (update f i q i) < left x) (sym at)
      (subst (λ x. left x < left p) (sym (update_self f i q)) less)

-- Once the notifier is done, every waiter that has not returned can take a step, and needs fewer after it.
pub finished-goes_on :
    {n : ℕ} {e : Event} {s : State}
    → n < 2 ^ 32
    → Reach n e s
    → s.notifier ≡ finished
    → (i : ℕ) → i < n
    → ((b : Bool) × (s.place i ≡ returned b))
      ⊎ ((t : State) × Step n s t × (left (t.place i) < left (s.place i)))
finished-goes_on {n} {e} {s} small r done i h =
    let inv = Reach-Inv small r in
    let over : s.event.event_state ≢ active_incomplete =
      λ e. in_use' (sym e ∙ inv.shows ∙ ap state_of done) in
    go inv over (s.place i) refl (inv.stands i h)
  where
    in_use' : active_incomplete ≢ active_complete
    in_use' e = cc

    go :
        Inv n s
        → s.event.event_state ≢ active_incomplete
        → (p : Place) → s.place i ≡ p
        → Stands s.notifier p (s.counts i)
        → ((b : Bool) × (s.place i ≡ returned b))
          ⊎ ((t : State) × Step n s t × (left (t.place i) < left (s.place i)))
    go inv over outside at own =
        inr (_, see_other i h at over, descends s.place i outside (awake false) at (omega arith))
    go inv over looked at own =
        inr (_, changed i h at over, descends s.place i looked (awake false) at (omega arith))
    go inv over asleep at own = absurd (own.1 done)
    go inv over (awake b) at own = inr (
      _,
      count i b h at (positive i inv h (awake_count s.notifier b (s.counts i) own)),
      descends s.place i (awake b) (returned b) at (omega arith),
    )
    go inv over (closing b) at own = absurd own
    go inv over (returned b) at own = inl (b, at)
