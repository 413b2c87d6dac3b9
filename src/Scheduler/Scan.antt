-- ===== src/Scheduler/Scan.antt =====
-- The search that `get` makes in every policy (pfunc/fifo.hpp, lifo.hpp, prio.hpp, cilk.hpp): from
-- the caller's queue on, round the set, until a queue gives a task.
use native.Mathlib.Nat.{mod-eq_of_lt}
use pfunc.Base.{
  ℕ, zero, suc, ◌+◌, ◌%◌, ◌<◌, ◌≡◌, refl, ◌⊎◌, inl, inr, Bool, true, arith, ◌==◌, ◌≢◌, ◌-◌, subst,
  dec_lt,
}

-- What a look into a queue, or a whole search, comes back with: the task pointer and the set
-- without it, or NULL. `fault` is an access outside the array of queues.
pub data Outcome {ℓ κ} (A : Type ℓ) (S : Type κ) : Type (ℓ ⊔ κ) where
  fault : Outcome A S
  not_found : Outcome A S
  found : A → S → Outcome A S

-- A predicate pair of pfunc/predicate.hpp.
pub record PredicatePair {ℓ} (A : Type ℓ) : Type ℓ where
  pub own_pred : A → Bool
  pub steal_pred : A → Bool

module _ {ℓ κ} {A : Type ℓ} {S : Type κ} where
  -- `break` at the first queue that gives a task.
  abbrev pub or_next : Outcome A S → Outcome A S → Outcome A S
  or_next not_found rest = rest
  or_next r rest = r

  -- The body of `for (int i=queue_num, num_attempts=0; num_attempts<num_queues; ++i, ++num_attempts)`,
  -- by the attempts left. `i` and the unsigned arithmetic do not wrap below 2^31 queues.
  unfoldable pub search_from : (ℕ → Bool → Outcome A S) → ℕ → ℕ → ℕ → ℕ → Outcome A S
  search_from look num_queues queue_num zero i = not_found
  search_from look num_queues queue_num (suc left) i =
      let rest = search_from look num_queues queue_num left (i + 1) in
      let real_i = i % num_queues in or_next (look real_i (real_i == queue_num)) rest

  pub Outcome-cases :
      (r : Outcome A S) → (r ≡ fault) ⊎ (r ≡ not_found) ⊎ ((a : A) × (s : S) × (r ≡ found a s))
  Outcome-cases fault = inl refl
  Outcome-cases not_found = inr (inl refl)
  Outcome-cases (found a s) = inr (inr (a, s, refl))

module _ {ℓ κ} {A : Type ℓ} {S : Type κ} (look : ℕ → Bool → Outcome A S) (n q : ℕ) where
  abbrev pub look_at : ℕ → Outcome A S
  look_at i = look (i % n) ((i % n) == q)

  -- The same look, its position written another way.
  move : (i j : ℕ) {r : Outcome A S} → i ≡ j → look_at i ≡ r → look_at j ≡ r
  move i j {r} e h = subst (λ t. look_at t ≡ r) e h

  before_all :
      (i j : ℕ)
      → look_at i ≡ not_found
      → ((j' : ℕ) → j' < j → look_at (i + 1 + j') ≡ not_found)
      → (j' : ℕ) → j' < suc j
      → look_at (i + j') ≡ not_found
  before_all i j now later zero h = move i (i + 0) (omega arith) now
  before_all i j now later (suc j') h =
      move (i + 1 + j') (i + suc j') (omega arith) (later j' (omega arith))

  pub search_from-found :
      (k i : ℕ) {a : A} {s : S}
      → search_from look n q k i ≡ found a s
      → (j : ℕ) × (j < k)
        × (look_at (i + j) ≡ found a s)
        × ((j' : ℕ) → j' < j → look_at (i + j') ≡ not_found)
  unfolding search_from
  search_from-found zero i e = cc
  search_from-found (suc k) i {a} {s} e = elim (Outcome-cases (look_at i)) [
    | inl f ↦ cc (rw (f, search_from) at e)
    | inr (inl f) ↦
        let e' : search_from look n q k (i + 1) ≡ found a s = ground arith in
        let (j, lt, hit, before) = search_from-found k (i + 1) e' in
        (
          suc j,
          omega arith,
          move (i + 1 + j) (i + suc j) (omega arith) hit,
          before_all i j f before,
        )
    | inr (inr (b, t, f)) ↦
        (0, omega arith, move i (i + 0) (omega arith) (ground arith), λ j' h. absurd (omega arith))
  ]

  pub search_from-zero : (k i : ℕ) → k ≡ 0 → search_from look n q k i ≡ not_found
  unfolding search_from
  search_from-zero zero i e = refl
  search_from-zero (suc k) i e = absurd (omega arith)

  pub search_from-not_found :
      (k i : ℕ)
      → search_from look n q k i ≡ not_found
      → (j : ℕ) → j < k
      → look_at (i + j) ≡ not_found
  unfolding search_from
  search_from-not_found zero i e j h = absurd (omega arith)
  search_from-not_found (suc k) i e zero h = move i (i + 0) (omega arith) (ground arith)
  search_from-not_found (suc k) i e (suc j) h =
      move (i + 1 + j) (i + suc j) (omega arith)
        (search_from-not_found k (i + 1) (ground arith) j (omega arith))

  pub search_from-all_not_found :
      (k i : ℕ)
      → ((j : ℕ) → j < k → look_at (i + j) ≡ not_found)
      → search_from look n q k i ≡ not_found
  unfolding search_from
  search_from-all_not_found zero i h = refl
  search_from-all_not_found (suc k) i h =
      let now : look_at i ≡ not_found = move (i + 0) i (omega arith) (h 0 (omega arith)) in
      ground (arith, now, search_from-all_not_found k (i + 1) (later h))
    where
      later :
          ((j : ℕ) → j < suc k → look_at (i + j) ≡ not_found)
          → (j : ℕ) → j < k
          → look_at (i + 1 + j) ≡ not_found
      later h j lt = move (i + suc j) (i + 1 + j) (omega arith) (h (suc j) (omega arith))

  pub search_from-ne-fault :
      (k i : ℕ) → ((j : ℕ) → look_at j ≢ fault) → search_from look n q k i ≢ fault
  unfolding search_from
  search_from-ne-fault zero i h = cc
  search_from-ne-fault (suc k) i h = ground (arith, h i, search_from-ne-fault k (i + 1) h)

-- The caller's queue is looked at first, as its own.
pub search_from-own {ℓ κ} :
    {A : Type ℓ} {S : Type κ} (look : ℕ → Bool → Outcome A S) (n q k : ℕ) {a : A} {s : S}
    → q < n
    → 0 < k
    → look q true ≡ found a s
    → search_from look n q k q ≡ found a s
unfolding search_from
search_from-own look n q zero lt k_pos e = absurd (omega arith)
search_from-own look n q (suc k) {a} {s} lt k_pos e =
    let here : q % n ≡ q = mod-eq_of_lt lt in
    let own : (q == q) ≡ true = ground arith in
    let seen : look (q % n) ((q % n) == q) ≡ found a s = rw (here, own) e in ground (arith, seen)

-- From any queue of the set on, every queue is looked at within one round.
pub round_reaches : (n q r : ℕ) → q < n → r < n → (j : ℕ) × (j < n) × ((q + j) % n ≡ r)
round_reaches n q r hq hr = elim (dec_lt r q) [
  | yes below ↦ (r + n - q, omega arith, grind arith)
  | no above ↦ (r - q, omega arith, grind arith)
]
