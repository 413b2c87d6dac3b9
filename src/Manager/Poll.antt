-- ===== src/Manager/Poll.antt =====
-- `get_task` of pfunc/taskmgr.hpp: how a thread polls the queues until it has a task or is told to
-- stop. Other threads act between its calls, so what the calls return is an input: `done i` is the
-- answer of the `i`-th call of the completion predicate, `look j` that of the `j`-th `get`.
use pfunc.Base.{
  ℕ, zero, suc, ◌+◌, ◌/◌, ◌≤◌, ◌<◌, ◌≡◌, refl, ◌⊎◌, inl, inr, Bool, true, false, Option, none, some,
  arith, ◌==◌, ◌||◌, if◌then◌else◌, Option-cases, Bool-cases, dec_lt, subst,
}

-- Where a poll has come to: the calls made of the completion predicate and of `get`, and
-- `return_value`.
pub record Progress (A : Type 0) : Type 0 where
  pub tested : ℕ
  pub looked : ℕ
  pub return_value : Option A

-- The attempts of a later round.
abbrev pub next_attempts : ℕ → ℕ
next_attempts max_attempts = if max_attempts / 2 == 0 then 1 else max_attempts / 2

abbrev pub is_some : {A : Type 0} → Option A → Bool
is_some none = false
is_some (some a) = true

module _ {A : Type 0} (done : ℕ → Bool) (look : ℕ → Option A) where
  -- `while (!completion_pred() && (0<num_attempts--))`, by the attempts left.
  attempt : ℕ → ℕ → ℕ → Progress A
  attempt zero i j = record { tested = i + 1; looked = j; return_value = none }
  attempt (suc num_attempts) i j =
      let again = attempt num_attempts (i + 1) (j + 1) in
      if done i then record { tested = i + 1; looked = j; return_value = none } else elim (look j) [
        | none ↦ again
        | some task ↦ record { tested = i + 1; looked = j + 1; return_value = some task }
      ]

  -- `do { … } while (true)`, with fuel for its rounds.
  rounds : ℕ → ℕ → ℕ → ℕ → ℕ → Option (Progress A)
  unfolding attempt
  rounds zero max_attempts num_attempts i j = none
  rounds (suc fuel) max_attempts num_attempts i j =
      let p = attempt num_attempts i j in
      let more = rounds fuel max_attempts (next_attempts max_attempts) (p.tested + 1) p.looked in
      if done p.tested || is_some p.return_value
      then some (record p { tested = p.tested + 1 })
      else more

  -- `get_task`.
  unfoldable pub get_task : ℕ → ℕ → Option (Progress A)
  unfolding rounds
  get_task fuel max_attempts = rounds fuel max_attempts max_attempts 0 0

  -- The looks from `j` on, below `m`, gave nothing.
  abbrev pub Blank : ℕ → ℕ → Type 0
  Blank j m = (k : ℕ) → j ≤ k → k < m → look k ≡ none

  -- What the looks from `j` on came to: all gave nothing, or the last one alone gave the result.
  abbrev pub Ends : ℕ → Progress A → Type 0
  Ends j p =
      ((p.return_value ≡ none) × (j ≤ p.looked) × Blank j p.looked)
      ⊎ ((a : A) × (m : ℕ) × (p.return_value ≡ some a)
          × (p.looked ≡ suc m)
          × (j ≤ m)
          × (look m ≡ some a)
          × Blank j m)

  Blank-join : (i j m : ℕ) → Blank i j → Blank j m → Blank i m
  Blank-join i j m low high k ik km = elim (dec_lt k j) [
    | yes below ↦ low k ik below
    | no above ↦ high k (omega arith) km
  ]

  Ends-join : (i j : ℕ) (p : Progress A) → i ≤ j → Blank i j → Ends j p → Ends i p
  Ends-join i j p ij low (inl (e, le, high)) =
      inl (e, omega arith, Blank-join i j p.looked low high)
  Ends-join i j p ij low (inr (a, m, e, l, le, hit, high)) =
      inr (a, m, e, l, omega arith, hit, Blank-join i j m low high)

  Blank-one : (j : ℕ) → look j ≡ none → Blank j (j + 1)
  Blank-one j e k jk kj = let same : j ≡ k = omega arith in subst (λ t. look t ≡ none) same e

  attempt-Ends : (n i j : ℕ) → Ends j (attempt n i j)
  unfolding attempt
  attempt-Ends zero i j = inl (refl, omega arith, λ k a b. absurd (omega arith))
  attempt-Ends (suc n) i j = elim (Bool-cases (done i)) [
    | inl stop ↦ rw stop (inl (refl, omega arith, λ k a b. absurd (omega arith)))
    | inr on ↦ elim (Option-cases (look j)) [
      | inl miss ↦
          rw (on, miss)
            (Ends-join j (j + 1) (attempt n (i + 1) (j + 1)) (omega arith) (Blank-one j miss)
              (attempt-Ends n (i + 1) (j + 1)))
      | inr (a, hit) ↦
          rw (on, hit)
            (inr (a, j, refl, omega arith, omega arith, hit, λ k b c. absurd (omega arith)))
    ]
  ]

  attempt-tested : (n i j : ℕ) → i < (attempt n i j).tested
  unfolding attempt
  attempt-tested zero i j = omega arith
  attempt-tested (suc n) i j = ground (arith, attempt-tested n (i + 1) (j + 1))

  -- Why a poll without a result stopped: the predicate's last answer was true.
  abbrev pub Stopped : Progress A → Type 0
  Stopped p = p.return_value ≡ none → (l : ℕ) × (p.tested ≡ suc l) × (done l ≡ true)

  Ends-empty :
      (j : ℕ) (p : Progress A) → is_some p.return_value ≡ false → Ends j p → Blank j p.looked
  Ends-empty j p e (inl (none_yet, le, blank)) = blank
  Ends-empty j p e (inr (a, m, hit, l, le, seen, blank)) = ground arith

  rounds-Ends :
      (fuel max n i j : ℕ) (p : Progress A)
      → Blank 0 j
      → rounds fuel max n i j ≡ some p
      → Ends 0 p × Stopped p
  unfolding rounds
  rounds-Ends zero max n i j p before e = cc
  rounds-Ends (suc fuel) max n i j p before e =
      let q = attempt n i j in
      let ends : Ends j q = attempt-Ends n i j in
      elim (Bool-cases (done q.tested || is_some q.return_value)) [
        | inl stop ↦
            let result : record q { tested = q.tested + 1 } ≡ p = ground arith in
            subst (λ (r : Progress A). Ends 0 r × Stopped r) result
              (
                Ends-join 0 j q (omega arith) before ends,
                λ nothing. (q.tested, omega arith, ground arith),
              )
        | inr on ↦
            let later : rounds fuel max (next_attempts max) (q.tested + 1) q.looked ≡ some p =
              ground arith in
            let empty : is_some q.return_value ≡ false = ground arith in
            rounds-Ends fuel max (next_attempts max) (q.tested + 1) q.looked p
              (Blank-join 0 j q.looked before (Ends-empty j q empty ends)) later
      ]

  rounds-total :
      (fuel max n i j t : ℕ)
      → ((k : ℕ) → t ≤ k → done k ≡ true)
      → t < fuel + i
      → 0 < fuel
      → (p : Progress A) × (rounds fuel max n i j ≡ some p)
  unfolding rounds
  rounds-total zero max n i j t stop h pos = absurd (omega arith)
  rounds-total (suc fuel) max n i j t stop h pos =
      let q = attempt n i j in
      elim (Bool-cases (done q.tested || is_some q.return_value)) [
        | inl over ↦ (record q { tested = q.tested + 1 }, rw over)
        | inr on ↦
            let early : q.tested < t = elim (dec_lt q.tested t) [
              | yes lt ↦ lt
              | no ge ↦ absurd (ground (arith, stop q.tested (omega arith)))
            ] in
            let (p, e) =
              rounds-total fuel max (next_attempts max) (q.tested + 1) q.looked t stop
                (omega (arith, attempt-tested n i j)) (omega (arith, attempt-tested n i j)) in
            (p, rw on e)
      ]

  -- What `get_task` returns: the task of its last look at the queues, all looks before which gave
  -- nothing, so a task that it takes out is never dropped; or NULL, after looks that all gave
  -- nothing, and then the completion predicate's last answer was true.
  pub get_task-Ends :
      (fuel max_attempts : ℕ) (p : Progress A)
      → get_task fuel max_attempts ≡ some p
      → Ends 0 p × Stopped p
  unfolding get_task
  get_task-Ends fuel max_attempts p e =
      rounds-Ends fuel max_attempts max_attempts 0 0 p (λ k a b. absurd (omega arith)) e

  -- It returns in the end: if the completion predicate answers true from its `t`-th call on, `t + 1`
  -- rounds are enough, whatever the number of attempts and whatever the queues hold.
  pub get_task-total :
      (t max_attempts : ℕ)
      → ((k : ℕ) → t ≤ k → done k ≡ true)
      → (p : Progress A) × (get_task (suc t) max_attempts ≡ some p)
  unfolding get_task
  get_task-total t max_attempts stop =
      rounds-total (suc t) max_attempts max_attempts 0 0 t stop (omega arith) (omega arith)
