-- ===== src/Scheduler/Runs.antt =====
-- Sequences of calls on one queue: a client that spawns a list of tasks, and a worker that asks for
-- tasks again and again.
use pfunc.Base.{
  ℕ, zero, suc, ◌<◌, ◌≡◌, refl, sym, ◌∙◌, List, [], ◌∷◌, ◌++◌, reverse, Option, none, some, arith,
  length, get_elem?, get_elem?-set_self, get_elem?-lt, set-set, set_self, ap, length-append,
}
use mathlib.Core.List.{foldl, append-nil, append_assoc, reverse-cons}
use pfunc.Scheduler.Store.{QueueSet, replace}
use pfunc.Scheduler.Scan.{Outcome, found}

module _ {ℓ κ} {A : Type ℓ} {S : Type κ} where
  -- The tasks of a list are stored one after the other.
  abbrev pub puts : (S → A → Option S) → List A → S → Option S
  puts put [] s = some s
  puts put (x ∷ xs) s = elim (put s x) [ none ↦ none | some t ↦ puts put xs t ]

  -- `n` calls that each hand out a task; `none` if one of them does not.
  abbrev pub gets : (S → Outcome A S) → ℕ → S → Option (List A × S)
  gets get zero s = some ([], s)
  gets get (suc n) s = elim (get s) [
    | found a t ↦ elim (gets get n t) [ none ↦ none | some (xs, u) ↦ some (a ∷ xs, u) ]
    | _ ↦ none
  ]

  -- All tasks of a list stored, then as many asked for.
  abbrev pub puts_gets : (S → A → Option S) → (S → Outcome A S) → List A → S → Option (List A × S)
  puts_gets put get xs s = elim (puts put xs s) [ none ↦ none | some t ↦ gets get (length xs) t ]

-- Calls on the queue `q`, where one that stores changes this queue alone, by `push`, and one that
-- asks is given its head.
module _ {A : Type 0} (q : ℕ) (push : List A → A → List A)
    (put : QueueSet (List A) → A → Option (QueueSet (List A)))
    (get : QueueSet (List A) → Outcome A (QueueSet (List A)))
    (put-at : (s : QueueSet (List A)) (x : A) (ys : List A)
      → get_elem? s.queues q ≡ some ys
      → put s x ≡ some (replace s q (push ys x)))
    (get-at : (s : QueueSet (List A)) (x : A) (ys : List A)
      → q < s.num_queues
      → get_elem? s.queues q ≡ some (x ∷ ys)
      → get s ≡ found x (replace s q ys)) where
  replace_twice :
      (s : QueueSet (List A)) (u v : List A) → replace (replace s q u) q v ≡ replace s q v
  replace_twice s u v = ap (λ l. record s { queues = l }) (set-set s.queues q u v)

  at_replaced :
      (s : QueueSet (List A)) (u v : List A)
      → get_elem? s.queues q ≡ some u
      → get_elem? (replace s q v).queues q ≡ some v
  at_replaced s u v e = get_elem?-set_self s.queues q v (get_elem?-lt s.queues q e)

  gets-at :
      (s : QueueSet (List A)) (xs rest : List A)
      → q < s.num_queues
      → get_elem? s.queues q ≡ some (xs ++ rest)
      → gets get (length xs) s ≡ some (xs, replace s q rest)
  gets-at s [] rest h e =
      ap (λ l. some ([], record s { queues = l })) (sym (set_self s.queues q rest e))
  gets-at s (x ∷ xs) rest h e =
      let t = replace s q (xs ++ rest) in
      let more = gets-at t xs rest h (at_replaced s (x ∷ xs ++ rest) (xs ++ rest) e) in
      let first = get-at s x (xs ++ rest) h e in
      rw (first, gets) (rw (more, gets) (rw (replace_twice s (xs ++ rest) rest)))

  puts-at :
      (s : QueueSet (List A)) (xs ys : List A)
      → get_elem? s.queues q ≡ some ys
      → puts put xs s ≡ some (replace s q (foldl push ys xs))
  puts-at s [] ys e = ap (λ l. some (record s { queues = l })) (sym (set_self s.queues q ys e))
  puts-at s (x ∷ xs) ys e =
      let t = replace s q (push ys x) in
      rw (put-at s x ys e, puts)
        (puts-at t xs (push ys x) (at_replaced s ys (push ys x) e)
          ∙ ap some (replace_twice s (push ys x) (foldl push (push ys x) xs)))

  -- From an empty queue, what is stored comes back as `push` orders it, and the set is as before.
  pub puts_gets-at :
      (s : QueueSet (List A)) (xs out : List A)
      → q < s.num_queues
      → get_elem? s.queues q ≡ some []
      → foldl push [] xs ≡ out
      → length out ≡ length xs
      → puts_gets put get xs s ≡ some (out, s)
  puts_gets-at s xs out h e f l =
      let t = replace s q out in
      let stored : puts put xs s ≡ some t = puts-at s xs [] e ∙ ap (λ y. some (replace s q y)) f in
      let held : get_elem? t.queues q ≡ some (out ++ []) =
        rw (append-nil out) (at_replaced s [] out e) in
      let back : replace t q [] ≡ s =
        replace_twice s out [] ∙ ap (λ y. record s { queues = y }) (set_self s.queues q [] e) in
      rw (stored, puts_gets) (rw (← l) (gets-at t out [] h held ∙ ap (λ u. some (out, u)) back))

module _ {A : Type 0} where
  foldl-cons_onto : (xs ys : List A) → foldl (λ q x. x ∷ q) ys xs ≡ reverse xs ++ ys
  foldl-cons_onto [] ys = refl
  foldl-cons_onto (x ∷ xs) ys =
      foldl-cons_onto xs (x ∷ ys)
      ∙ sym (append_assoc (reverse xs) (x ∷ []) ys)
      ∙ ap (λ l. l ++ ys) (sym (reverse-cons x xs))

  pub foldl-cons : (xs : List A) → foldl (λ q x. x ∷ q) [] xs ≡ reverse xs
  foldl-cons xs = foldl-cons_onto xs [] ∙ append-nil (reverse xs)

  pub length-reverse : (xs : List A) → length (reverse xs) ≡ length xs
  length-reverse [] = refl
  length-reverse (x ∷ xs) =
      omega (
        arith,
        ap length (reverse-cons x xs),
        length-append (reverse xs) (x ∷ []),
        length-reverse xs,
      )
