-- ===== src/Scheduler/Policy/Search.antt =====
-- `get` over looks that keep their laws meets its part of the contract.
use pfunc.Base.{
  ℕ, ◌%◌, ◌<◌, ◌≡◌, ◌≢◌, refl, Bool, List, [], ◌∷◌, Perm, some, arith, sym, subst, dec_lt,
  get_elem?-lt, ◌==◌, get_elem?, get_elem?-total,
}
use pfunc.Scheduler.Scan.{
  Outcome, fault, not_found, found, PredicatePair, search_from, search_from-found, search_from-zero,
  search_from-not_found, search_from-ne-fault, round_reaches,
}
use pfunc.Scheduler.Store.{
  QueueSet, IsValid, replace-IsValid, tasks, all_tasks-take, all_tasks-eq-nil,
}
use pfunc.Scheduler.Policy.{IsOpen, Took, Handed, Looks, GetLaws}

module _ {ℓ κ} {A : Type ℓ} {Q : Type κ} {view : Q → List A} where
  pub Took-Handed :
      {s t : QueueSet Q} {i : ℕ} {a : A}
      → IsValid s
      → Took view s i a t
      → IsValid t × (t.num_queues ≡ s.num_queues) × Perm (tasks view s) (a ∷ tasks view t)
  Took-Handed {s} {t} {i} {a} v k = rw (k.result) (
    replace-IsValid s i k.after v,
    refl,
    all_tasks-take view s.queues i k.after a k.at_index k.gave,
  )

  module _ {look : QueueSet Q → PredicatePair A → ℕ → Bool → Outcome A (QueueSet Q)}
      (laws : Looks view look) where
    -- `get` over such looks.
    abbrev pub search : QueueSet Q → ℕ → PredicatePair A → Outcome A (QueueSet Q)
    search s q cnd = search_from (look s cnd) s.num_queues q s.num_queues q

    look-ne-fault :
        (s : QueueSet Q) (cnd : PredicatePair A) (i : ℕ) (own : Bool)
        → IsValid s
        → i < s.num_queues
        → look s cnd i own ≢ fault
    look-ne-fault s cnd i own v h e =
        let (x, some_x) = get_elem?-total s.queues i (subst (λ n. i < n) (sym v) h) in
        cc (laws.on_fault s cnd i own e)

    search-ne-fault :
        (s : QueueSet Q) (q : ℕ) (cnd : PredicatePair A) → IsValid s → search s q cnd ≢ fault
    search-ne-fault s q cnd v = elim (dec_lt 0 s.num_queues) [
      | yes h ↦
          search_from-ne-fault (look s cnd) s.num_queues q s.num_queues q
            λ j. look-ne-fault s cnd (j % s.num_queues) _ v (omega arith)
      | no h ↦
          let z : s.num_queues ≡ 0 = omega arith in
          ground (arith, search_from-zero (look s cnd) s.num_queues q s.num_queues q z)
    ]

    search-found :
        (s : QueueSet Q) (q : ℕ) (cnd : PredicatePair A) (a : A) (t : QueueSet Q)
        → IsValid s
        → search s q cnd ≡ found a t
        → Handed view s cnd a t
    search-found s q cnd a t v e =
        let (j, lt, hit, before) = search_from-found (look s cnd) s.num_queues q s.num_queues q e in
        let (took, ok) = laws.on_found s cnd _ _ a t hit in
        let (valid, same, perm) = Took-Handed v took in
        record { valid = valid; same_size = same; conserved = perm; own = _; accepted = ok }

    empty_at :
        (s : QueueSet Q) (q : ℕ) (cnd : PredicatePair A)
        → IsValid s
        → q < s.num_queues
        → IsOpen cnd
        → search s q cnd ≡ not_found
        → (i : ℕ) (x : Q) → get_elem? s.queues i ≡ some x
        → view x ≡ []
    empty_at s q cnd v h open_cnd e i x at_i =
        let inside : i < s.num_queues = subst (λ n. i < n) v (get_elem?-lt s.queues i at_i) in
        let (j, lt, here) = round_reaches s.num_queues q i h inside in
        let miss = search_from-not_found (look s cnd) s.num_queues q s.num_queues q e j lt in
        laws.on_not_found s cnd i (i == q) x open_cnd
          (subst (λ r. look s cnd r (r == q) ≡ not_found) here miss) at_i

    pub search-GetLaws : GetLaws view search
    search-GetLaws = record {
      get-ne-fault = search-ne-fault;
      get-found = search-found;
      get-not_found = λ s q cnd v h o e. all_tasks-eq-nil view s.queues (empty_at s q cnd v h o e);
    }
