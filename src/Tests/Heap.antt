-- ===== src/Tests/Heap.antt =====
-- The priority policy over one concrete priority queue, a list that is searched for its maximum.
use mathlib.Core.List.{Mem, mem-cons, not-mem-nil}
use mathlib.Core.List.Perm
use mathlib.Core.Logic.Or
use mathlib.Core.Bool.{Bool-set}
use pfunc.Base.{
  ℕ, ◌≡◌, refl, sym, subst, inl, inr, true, false, List, [], ◌∷◌, Perm, Option, none, some, arith,
  ltb, ◌==◌, ◌<◌, ◌+◌, ◌%◌, if◌then◌else◌, get_elem?, Option-cases, Bool-cases,
}
use pfunc.Scheduler.Scan.{PredicatePair, search_from}
use pfunc.Scheduler.Store.{QueueSet, replace}
use pfunc.Scheduler.Policy.{accepts}
use pfunc.Scheduler.Prio.{PriorityQueue, heap_get-GetLaws}
use pfunc.Scheduler.Prio.Order.{get-highest}
use pfunc.Scheduler.Prio

-- The greatest number of a list, and the others.
abbrev select : List ℕ → Option (ℕ × List ℕ)
select [] = none
select (x ∷ xs) = elim (select xs) [
  | none ↦ some (x, [])
  | some (m, rest) ↦ if ltb x m then some (m, x ∷ rest) else some (x, m ∷ rest)
]

select-none : (h : List ℕ) → select h ≡ none → h ≡ []
select-none [] e = refl
select-none (x ∷ xs) e = ground arith

select-perm : (h : List ℕ) {m : ℕ} {rest : List ℕ} → select h ≡ some (m, rest) → Perm h (m ∷ rest)
select-perm [] e = cc
select-perm (x ∷ xs) {m} {rest} e = elim (Option-cases (select xs)) [
  | inl empty ↦
      let one : x ∷ xs ≡ m ∷ rest = ground (arith, select-none xs empty) in
      subst (Perm (x ∷ xs)) one (Perm.refl (x ∷ xs))
  | inr ((n, others), more) ↦ elim (Bool-cases (ltb x n)) [
    | inl below ↦
        let same : n ∷ x ∷ others ≡ m ∷ rest = ground arith in
        subst (Perm (x ∷ xs)) same
          (Perm.trans (Perm.cons x (select-perm xs more)) (Perm.swap n x others))
    | inr above ↦
        let same : x ∷ n ∷ others ≡ m ∷ rest = ground arith in
        subst (Perm (x ∷ xs)) same (Perm.cons x (select-perm xs more))
  ]
]

select-ge_head :
    (x : ℕ) (xs : List ℕ) {m : ℕ} {rest : List ℕ}
    → select (x ∷ xs) ≡ some (m, rest)
    → ltb m x ≡ false
select-ge_head x xs e = elim (Option-cases (select xs)) [
  | inl empty ↦ ground arith
  | inr ((n, others), more) ↦ ground arith
]

select-ge_tail :
    (x : ℕ) (xs : List ℕ) (b : ℕ) {m : ℕ} {rest : List ℕ}
    → select (x ∷ xs) ≡ some (m, rest)
    → ((n : ℕ) (others : List ℕ) → select xs ≡ some (n, others) → ltb n b ≡ false)
    → Mem b xs
    → ltb m b ≡ false
select-ge_tail x xs b e below mem = elim (Option-cases (select xs)) [
  | inl empty ↦ absurd (not-mem-nil (subst (Mem b) (select-none xs empty) mem))
  | inr ((n, others), more) ↦ ground (arith, below n others more)
]

select-max :
    (h : List ℕ) {m : ℕ} {rest : List ℕ} (b : ℕ)
    → select h ≡ some (m, rest)
    → Mem b h
    → ltb m b ≡ false
select-max [] b e mem = absurd (not-mem-nil mem)
select-max (x ∷ xs) {m} b e mem =
    Or.elim (Bool-set (ltb m b) false) (mem-cons.0 mem)
      (λ same. subst (λ y. ltb m y ≡ false) (sym same) (select-ge_head x xs e))
      (λ later. select-ge_tail x xs b e (λ n others more. select-max xs b more later) later)

-- `top` and `pop`, by what `select` finds.
abbrev select_top : List ℕ → Option ℕ
select_top h = elim (select h) [ none ↦ none | some (m, rest) ↦ some m ]

abbrev select_pop : List ℕ → List ℕ
select_pop h = elim (select h) [ none ↦ [] | some (m, rest) ↦ rest ]

select_top-none : (h : List ℕ) → select_top h ≡ none → select h ≡ none
select_top-none h e = ground arith

select_top-some : (h : List ℕ) (a : ℕ) → select_top h ≡ some a → select h ≡ some (a, select_pop h)
select_top-some h a e = elim (Option-cases (select h)) [
  | inl empty ↦ cc (rw (empty, select_top) at e)
  | inr ((n, others), more) ↦ ground arith
]

abbrev maximum_list : PriorityQueue ℕ ltb
maximum_list = record {
  Heap = List ℕ;
  empty = [];
  push = λ h a. a ∷ h;
  top = select_top;
  pop = select_pop;
  view = λ h. h;
  view-empty = refl;
  push-perm = λ h a. Perm.refl (a ∷ h);
  top-none = λ h e. select-none h (select_top-none h e);
  top-some = λ h a e. select-perm h (select_top-some h a e);
  top-max = λ h a b e mem. select-max h b (select_top-some h a e) mem;
}

abbrev open_pair : PredicatePair ℕ
open_pair = record { own_pred = λ _. true; steal_pred = λ _. true }

abbrev heaps : List ℕ → QueueSet (List ℕ)
heaps h = record { queues = h ∷ [] ∷ []; num_queues = 2 }

get-highest_example :
    (j : ℕ) × (j < 2)
    × (h : List ℕ) × (get_elem? ((3 ∷ 9 ∷ 4 ∷ []) ∷ [] ∷ []) ((1 + j) % 2) ≡ some h)
    × ((b : ℕ) → Mem b h → ltb 9 b ≡ false)
    × Perm h (9 ∷ maximum_list.pop h)
    × (heaps (3 ∷ 4 ∷ []) ≡ replace (heaps (3 ∷ 9 ∷ 4 ∷ [])) ((1 + j) % 2) (maximum_list.pop h))
    × (accepts open_pair ((1 + j) % 2 == 1) 9 ≡ true)
    × ((j' : ℕ) (h' : List ℕ) (b : ℕ)
        → j' < j
        → get_elem? ((3 ∷ 9 ∷ 4 ∷ []) ∷ [] ∷ []) ((1 + j') % 2) ≡ some h'
        → maximum_list.top h' ≡ some b
        → accepts open_pair ((1 + j') % 2 == 1) b ≡ false)
unfolding Prio.get search_from
get-highest_example =
    get-highest (λ a. a) ltb maximum_list (heaps (3 ∷ 9 ∷ 4 ∷ [])) 1 open_pair 9
      (heaps (3 ∷ 4 ∷ [])) refl
