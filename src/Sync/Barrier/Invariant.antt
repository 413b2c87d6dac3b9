-- ===== src/Sync/Barrier/Invariant.antt =====
-- The invariant of a group in its barrier: how far each task has come, by where it stands.
use pfunc.Base.{
  ℕ, suc, ◌+◌, ◌<◌, ◌≡◌, ◌≢◌, refl, sym, ap, ◌∙◌, subst, inl, inr, not, arith, update, ℕ_discrete,
}
use pfunc.Task.Group.{Group}
use pfunc.Sync.Barrier.{Place, outside, waiting, State, Step, arriving, leaving, Reach, here, next}
use pfunc.Sync.Barrier.Tally.{tally, tally-update, tally-all, tally-none}
use pfunc.Sync.Barrier.Situation.{
  Meets, Situation, Situation-turn, stands_update, arrive-last, arrive-more,
}

pub record Inv (n : ℕ) (s : State) : Type 0 where
  pub meets : Meets s.grp
  pub size : s.grp.group_size ≡ n
  pub completed : ℕ
  pub count : s.grp.barrier_count ≡ tally n s.arrivals completed
  pub below : s.grp.barrier_count < n
  pub stands : (i : ℕ) → i < n → Situation completed s.grp.barrier_phase (s.place i) (s.arrivals i)

all_here :
    {n : ℕ} {s : State} (inv : Inv n s) (i : ℕ)
    → i < n
    → s.arrivals i ≡ inv.completed
    → s.grp.barrier_count + 1 ≡ n
    → (j : ℕ) → j < n
    → update s.arrivals i (suc (s.arrivals i)) j ≡ suc inv.completed
all_here {n} {s} inv i lt own last =
    let grown : tally n (update s.arrivals i (suc inv.completed)) inv.completed
        ≡ suc (tally n s.arrivals inv.completed) =
      tally-update n i s.arrivals inv.completed lt own in
    let full : tally n (update s.arrivals i (suc inv.completed)) inv.completed ≡ n =
      omega (arith, inv.count) in
    let same : update s.arrivals i (suc (s.arrivals i)) ≡ update s.arrivals i (suc inv.completed) =
      ap (λ a. update s.arrivals i (suc a)) own in
    λ j h. ap (λ f. f j) same ∙ tally-all n _ inv.completed full j h

update_other : (f : ℕ → ℕ) (i v j : ℕ) → j ≢ i → f j ≡ update f i v j
update_other f i v j h = ground arith

update_self : (f : ℕ → ℕ) (i v : ℕ) → v ≡ update f i v i
update_self f i v = ground arith

-- Where a task that comes to the barrier stood.
own_arrivals :
    {n : ℕ} {s : State} (inv : Inv n s) (i : ℕ)
    → i < n
    → s.place i ≡ outside
    → s.arrivals i ≡ inv.completed
own_arrivals {n} {s} inv i lt out =
    subst (λ q. Situation inv.completed s.grp.barrier_phase q (s.arrivals i)) out (inv.stands i lt)

last-Inv :
    {n : ℕ} {s : State} (inv : Inv n s) (i : ℕ)
    → i < n
    → s.place i ≡ outside
    → s.grp.barrier_count + 1 ≡ n
    → Inv n (record {
      grp = record s.grp { barrier_count = 0; barrier_phase = not s.grp.barrier_phase };
      place = update s.place i outside;
      arrivals = update s.arrivals i (suc (s.arrivals i));
    })
last-Inv {n} {s} inv i lt out last =
    let g = inv.completed in
    let arr = update s.arrivals i (suc (s.arrivals i)) in
    let own = own_arrivals inv i lt out in
    let all : (j : ℕ) → j < n → arr j ≡ suc g = all_here inv i lt own last in
    record {
      meets = record {
        several = inv.meets.several;
        small = inv.meets.small;
        handled = inv.meets.handled;
      };
      size = inv.size;
      completed = suc g;
      count = sym (tally-none n arr (suc g) (λ j h. ground (arith, all j h)));
      below = omega arith;
      stands =
          stands_update n s.place arr i outside (suc g) (not s.grp.barrier_phase) (all i lt)
            λ j h ne.
              let same = update_other s.arrivals i (suc (s.arrivals i)) j ne in
              Situation-turn g s.grp.barrier_phase (s.place j) (arr j) (all j h)
                (subst (Situation g s.grp.barrier_phase (s.place j)) same (inv.stands j h));
    }

more-Inv :
    {n : ℕ} {s : State} (inv : Inv n s) (i : ℕ)
    → i < n
    → s.place i ≡ outside
    → s.grp.barrier_count + 1 < n
    → Inv n (record {
      grp = record s.grp { barrier_count = s.grp.barrier_count + 1 };
      place = update s.place i (waiting s.grp.barrier_phase);
      arrivals = update s.arrivals i (suc (s.arrivals i));
    })
more-Inv {n} {s} inv i lt out more =
    let g = inv.completed in
    let arr = update s.arrivals i (suc (s.arrivals i)) in
    let own = own_arrivals inv i lt out in
    let same : update s.arrivals i (suc g) ≡ arr =
      ap (λ a. update s.arrivals i (suc a)) (sym own) in
    let grown : tally n arr g ≡ suc (tally n s.arrivals g) =
      subst (λ f. tally n f g ≡ suc (tally n s.arrivals g)) same
        (tally-update n i s.arrivals g lt own) in
    record {
      meets = record {
        several = inv.meets.several;
        small = inv.meets.small;
        handled = inv.meets.handled;
      };
      size = inv.size;
      completed = g;
      count = omega (arith, inv.count);
      below = more;
      stands =
          stands_update n s.place arr i (waiting s.grp.barrier_phase) g s.grp.barrier_phase
            (inl (refl, sym (update_self s.arrivals i (suc (s.arrivals i))) ∙ ap suc own))
            λ j h ne.
              subst (Situation g s.grp.barrier_phase (s.place j))
                (update_other s.arrivals i (suc (s.arrivals i)) j ne) (inv.stands j h);
    }

Step-Inv : {n : ℕ} {s t : State} → Step s t → Inv n s → Inv n t
Step-Inv {n} {s} (arriving i lt steals out) inv =
    let lt' : i < n = subst (λ k. i < k) inv.size lt in
    let after : Group × Place → Type 0 = λ (r : Group × Place). Inv n (record {
      grp = r.0;
      place = update s.place i r.1;
      arrivals = update s.arrivals i (suc (s.arrivals i));
    }) in
    elim (ℕ_discrete (s.grp.barrier_count + 1) n) [
      | yes last ↦
          subst after (sym (arrive-last s.grp inv.meets (last ∙ sym inv.size)))
            (last-Inv inv i lt' out last)
      | no more ↦
          let below : s.grp.barrier_count + 1 < n = omega (arith, inv.below) in
          subst after
            (sym (
              arrive-more s.grp inv.meets
                (subst (λ k. s.grp.barrier_count + 1 < k) (sym inv.size) below)))
            (more-Inv inv i lt' out below)
    ]
Step-Inv {n} {s} (leaving i p lt at gone) inv = record {
  meets = inv.meets;
  size = inv.size;
  completed = inv.completed;
  count = inv.count;
  below = inv.below;
  stands =
      stands_update n s.place s.arrivals i outside inv.completed s.grp.barrier_phase
        (elim (subst (λ q. Situation inv.completed s.grp.barrier_phase q (s.arrivals i)) at
          (inv.stands i (subst (λ k. i < k) inv.size lt))) [
            | inl (same, a) ↦ absurd (gone same)
            | inr (differs, a) ↦ a
          ])
        (λ j h ne. inv.stands j h);
}

pub Reach-Inv :
    {g : Group} {s : State} → Meets g → g.barrier_count ≡ 0 → Reach g s → Inv g.group_size s
Reach-Inv {g} m e here = record {
  meets = m;
  size = refl;
  completed = 0;
  count = e ∙ sym (tally-none g.group_size (λ _. 0) 0 (λ j h. omega arith));
  below = omega (arith, m.several);
  stands = λ i h. refl;
}
Reach-Inv m e (next r st) = Step-Inv st (Reach-Inv m e r)
