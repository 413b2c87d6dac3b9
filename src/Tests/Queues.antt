-- ===== src/Tests/Queues.antt =====
-- The policies on small sets of queues.

use pfunc.Base.{ℕ, ◌≡◌, ◌≢◌, refl, true, false, List, [], ◌∷◌, ◌++◌, some, ltb, get_elem?}
use pfunc.Scheduler.Scan.{PredicatePair, found, not_found, search_from}
use pfunc.Scheduler.Store.{QueueSet, replace}
use pfunc.Scheduler.Policy.{IsOpen, Handed}
use pfunc.Scheduler.Fifo
use pfunc.Scheduler.Lifo
use pfunc.Scheduler.Cilk
use pfunc.Scheduler.Fifo.{queue_get-GetLaws}
use pfunc.Scheduler.Lifo.{stack_get-GetLaws}
use pfunc.Scheduler.Cilk.{deque_get-GetLaws}
use pfunc.Scheduler.Cilk.Order.{get-steals_back}

abbrev open_pair : PredicatePair ℕ
open_pair = record { own_pred = λ _. true; steal_pred = λ _. true }

open_pair-IsOpen : IsOpen open_pair
open_pair-IsOpen true a = refl
open_pair-IsOpen false a = refl

-- A thief that takes only tasks above 5.
abbrev picky : PredicatePair ℕ
picky = record { own_pred = λ _. true; steal_pred = λ a. ltb 5 a }

abbrev set_of : List ℕ → List ℕ → QueueSet (List ℕ)
set_of a b = record { queues = a ∷ b ∷ []; num_queues = 2 }

cilk_steal : Cilk.get (set_of [] (3 ∷ 4 ∷ 8 ∷ [])) 0 picky ≡ found 8 (set_of [] (3 ∷ 4 ∷ []))
unfolding Cilk.get search_from
cilk_steal = refl

cilk_refused : Cilk.get (set_of [] (8 ∷ 4 ∷ 3 ∷ [])) 0 picky ≡ not_found
unfolding Cilk.get search_from
cilk_refused = refl

fifo_wraps : Fifo.get (set_of (6 ∷ 7 ∷ []) []) 1 picky ≡ found 6 (set_of (7 ∷ []) [])
unfolding Fifo.get search_from
fifo_wraps = refl

lifo_refused : Lifo.get (set_of (4 ∷ 7 ∷ []) []) 1 picky ≡ not_found
unfolding Lifo.get search_from
lifo_refused = refl

deque_get-GetLaws_example :
    Handed (λ (q : List ℕ). q) (set_of [] (3 ∷ 4 ∷ 8 ∷ [])) picky 8 (set_of [] (3 ∷ 4 ∷ []))
unfolding Cilk.get search_from
deque_get-GetLaws_example =
    (deque_get-GetLaws {A = ℕ}).get-found (set_of [] (3 ∷ 4 ∷ 8 ∷ [])) 0 picky 8
      (set_of [] (3 ∷ 4 ∷ [])) refl refl

get-steals_back_example :
    (i : ℕ) × (init : List ℕ) × (i ≢ 0)
    × (get_elem? ([] ∷ (3 ∷ 4 ∷ 8 ∷ []) ∷ []) i ≡ some (init ++ 8 ∷ []))
    × (set_of [] (3 ∷ 4 ∷ []) ≡ replace (set_of [] (3 ∷ 4 ∷ 8 ∷ [])) i init)
    × (picky.steal_pred 8 ≡ true)
unfolding Cilk.get search_from
get-steals_back_example =
    get-steals_back (set_of [] (3 ∷ 4 ∷ 8 ∷ [])) 0 picky 8 (set_of [] (3 ∷ 4 ∷ [])) refl refl
