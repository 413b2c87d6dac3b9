-- ===== src/Manager/Startup/Identity.antt =====
-- What the threads of a task manager are told of themselves (pfunc/taskmgr.hpp, pfunc/thread.hpp).
use pfunc.Base.{
  ℕ, zero, suc, ◌+◌, ◌%◌, ◌^◌, ◌<◌, ◌≡◌, refl, sym, ap, subst, ◌∙◌, ◌⊎◌, inl, inr, List, [], ◌∷◌,
  Option, none, some, arith, lt→ltb, length, set, get_elem?, length-set, get_elem?-set_self,
  get_elem?-set_ne, get_elem?-lt, get_elem?-total, some-elim, length-replicate, ℕ_discrete,
}
use pfunc.Thread.{ThreadAttr, ThreadCall, tls_set, initialize}
use pfunc.Manager.Startup.{
  attr_of, taskmgr, Setup, save_all, found_attr, as_id, information, current_thread_id,
  current_task_information,
}
use pfunc.Manager.Startup.Numbers.{total, taskmgr-threads}

-- Every element of a list is one of another.
abbrev pub Includes : List ThreadAttr → List ThreadAttr → Type 0
Includes xs ys =
    (k : ℕ) (x : ThreadAttr) → get_elem? xs k ≡ some x → (l : ℕ) × (get_elem? ys l ≡ some x)

some-id : {x y : ThreadAttr} → some x ≡ some y → x.thread_id ≡ y.thread_id
some-id e = ap (λ (o : Option ThreadAttr). elim o [ none ↦ 0 | some x ↦ x.thread_id ]) e

attr_of-id : (affinity : Option (ℕ → ℕ → ℕ)) (i j t : ℕ) → (attr_of affinity i j t).thread_id ≡ t
attr_of-id none i j t = refl
attr_of-id (some affinity) i j t = refl

tls_set-some :
    (tls : List (Option ThreadAttr)) (self : ℕ) (attr : ThreadAttr)
    → self < length tls
    → tls_set tls self attr ≡ some (set tls self (some attr))
tls_set-some tls self attr h = ground (arith, lt→ltb self (length tls) h)

-- Threads save their attributes in some order; no two with the same number have different ones. Then
-- an attribute that is saved, or was there before, is found under its number.
save_all-own :
    (attrs : List ThreadAttr) (tls : List (Option ThreadAttr)) (a : ThreadAttr)
    → a.thread_id < length tls
    → ((k : ℕ) (x : ThreadAttr)
        → get_elem? attrs k ≡ some x
        → (x.thread_id < length tls) × (x.thread_id ≡ a.thread_id → x ≡ a))
    → (get_elem? tls a.thread_id ≡ some (some a)) ⊎ ((k : ℕ) × (get_elem? attrs k ≡ some a))
    → (tls' : List (Option ThreadAttr)) × (save_all (some tls) attrs ≡ some tls')
      × (get_elem? tls' a.thread_id ≡ some (some a))
unfolding save_all
save_all-own [] tls a inside alike (inl there) = (tls, refl, there)
save_all-own [] tls a inside alike (inr (k, e)) = cc
save_all-own (x ∷ attrs) tls a inside alike at =
    let (x_inside, x_alike) = alike 0 x refl in
    let tls' = set tls x.thread_id (some x) in
    let same : length tls' ≡ length tls = length-set tls x.thread_id (some x) in
    let (last, e, found) =
      save_all-own attrs tls' a (subst (λ n. a.thread_id < n) (sym same) inside)
        (λ k y h.
          let (y_inside, y_alike) = alike (suc k) y h in
          (subst (λ n. y.thread_id < n) (sym same) y_inside, y_alike))
        (elim (ℕ_discrete x.thread_id a.thread_id) [
          | yes own ↦ inl (
              ap (get_elem? tls') (sym own)
              ∙ get_elem?-set_self tls x.thread_id (some x) x_inside
              ∙ ap (λ y. some (some y)) (x_alike own))
          | no other ↦ elim at [
            | inl there ↦ inl (get_elem?-set_ne tls (some x) other ∙ there)
            | inr (zero, e) ↦ absurd (other (some-id e))
            | inr (suc k, e) ↦ inr (k, e)
          ]
        ]) in
    (last, ap (λ t. save_all t attrs) (tls_set-some tls x.thread_id x x_inside) ∙ e, found)

-- The system creates every thread.
abbrev pub Created : (ℕ → ThreadCall → ℕ) → Type 0
Created os = (i : ℕ) (c : ThreadCall) → os i c ≡ 0

module _ {Q : Type 0} (os : ℕ → ThreadCall → ℕ) (reroute : ℕ) (args : ℕ → ℕ) (empty : Q) (n : ℕ)
    (thds : ℕ → ℕ) (affinity : Option (ℕ → ℕ → ℕ)) (good : Created os)
    (small : total thds n 0 + 1 < 2 ^ 32) where
  -- The task manager as its constructor leaves it.
  abbrev made : Setup Q
  made = (taskmgr os reroute args empty n thds affinity).0

  -- The attribute at a place of `thread_data` has the place's number.
  numbered : (k : ℕ) (x : ThreadAttr) → get_elem? made.thread_data k ≡ some x → x.thread_id ≡ k
  numbered k x e =
      let (r, threads, measured, placed, located, main) =
        taskmgr-threads os reroute args empty n thds affinity good (omega arith) in
      let inside : k < made.num_threads = subst (λ l. k < l) measured (get_elem?-lt _ k e) in
      let (i, j, i_lt, j_lt, same) = located k inside in
      let at = placed i j i_lt j_lt in
      let there : get_elem? made.thread_data k ≡ some (attr_of affinity i j (total thds i 0 + j)) =
        ap (get_elem? made.thread_data) same ∙ at in
      some-id (sym e ∙ there) ∙ attr_of-id affinity i j (total thds i 0 + j) ∙ sym same

  threads : made.num_threads ≡ total thds n 0
  threads = (taskmgr-threads os reroute args empty n thds affinity good (omega arith)).1

  abbrev places : List (Option ThreadAttr)
  places = initialize ((made.num_threads + 1) % 2 ^ 32)

  length-places : length places ≡ total thds n 0 + 1
  length-places =
      length-replicate ((made.num_threads + 1) % 2 ^ 32) none
      ∙ ap (λ k. (k + 1) % 2 ^ 32) threads
      ∙ omega arith

  abbrev main_set : List (Option ThreadAttr)
  main_set = set places made.num_threads (some made.main_thread_attr)

  tls_made : made.tls_attr_map ≡ some main_set
  unfolding taskmgr
  tls_made =
      tls_set-some places made.num_threads made.main_thread_attr
        (omega (arith, length-places, threads))

  length-main_set : length main_set ≡ total thds n 0 + 1
  length-main_set = length-set places made.num_threads (some made.main_thread_attr) ∙ length-places

  main_id : made.main_thread_attr.thread_id ≡ made.num_threads
  main_id = (taskmgr-threads os reroute args empty n thds affinity good (omega arith)).5

  -- Each thread whose attribute is saved, in any order, finds its own number.
  finds_itself :
      (order : List ThreadAttr) (a : ThreadAttr)
      → Includes order made.thread_data
      → a.thread_id < total thds n 0 + 1
      → ((k : ℕ) (x : ThreadAttr)
          → get_elem? made.thread_data k ≡ some x
          → x.thread_id ≡ a.thread_id
          → x ≡ a)
      → (a ≡ made.main_thread_attr) ⊎ ((k : ℕ) × (get_elem? order k ≡ some a))
      → current_thread_id
          (record made { tls_attr_map = save_all made.tls_attr_map order })
          a.thread_id
        ≡ some a.thread_id
  unfolding current_thread_id
  finds_itself order a into inside alike at =
      let (last, e, found) =
        save_all-own order main_set a (subst (λ k. a.thread_id < k) (sym length-main_set) inside)
          (λ k x h.
            let (l, there) = into k x h in
            (
              subst (λ m. x.thread_id < m) (sym length-main_set)
                  (omega (arith, numbered l x there, get_elem?-lt _ l there, measured)),
              alike l x there,
            ))
          (elim at [
            | inl is_main ↦ inl (
                ap (λ k. get_elem? main_set k)
                  (ap (λ (x : ThreadAttr). x.thread_id) is_main ∙ main_id)
                ∙ get_elem?-set_self places made.num_threads (some made.main_thread_attr)
                    (omega (arith, length-places, threads))
                ∙ ap (λ x. some (some x)) (sym is_main))
            | inr among ↦ inr among
          ]) in
      ap (λ t. as_id (found_attr t a.thread_id)) (ap (λ t. save_all t order) tls_made ∙ e)
      ∙ ap as_id (found_there last a found)
    where
      found_there :
          (tls : List (Option ThreadAttr)) (x : ThreadAttr)
          → get_elem? tls x.thread_id ≡ some (some x)
          → found_attr (some tls) x.thread_id ≡ some x
      found_there tls x h = ground (arith, h)

      measured : length made.thread_data ≡ total thds n 0
      measured =
          (taskmgr-threads os reroute args empty n thds affinity good (omega arith)).2 ∙ threads

  cache : made.cache_size ≡ total thds n 0
  unfolding taskmgr
  cache = threads

  abbrev saved : List ThreadAttr → Setup Q
  saved order = record made { tls_attr_map = save_all made.tls_attr_map order }

  measured : length made.thread_data ≡ total thds n 0
  measured = (taskmgr-threads os reroute args empty n thds affinity good (omega arith)).2 ∙ threads

  worker_id :
      (order : List ThreadAttr)
      → Includes order made.thread_data
      → Includes made.thread_data order
      → (t : ℕ) → t < total thds n 0
      → current_thread_id (saved order) t ≡ some t
  worker_id order into onto t h =
      let (a, there) = get_elem?-total made.thread_data t (omega (arith, measured)) in
      let own : a.thread_id ≡ t = numbered t a there in
      let result =
        finds_itself order a into (omega (arith, own))
          (λ k x at e.
            let same : k ≡ t = omega (arith, numbered k x at, own) in
            some-elim (sym at ∙ ap (get_elem? made.thread_data) same ∙ there))
          (inr (onto t a there)) in
      subst (λ k. current_thread_id (saved order) k ≡ some k) own result

  main_thread_id :
      (order : List ThreadAttr)
      → Includes order made.thread_data
      → current_thread_id (saved order) (total thds n 0) ≡ some (total thds n 0)
  main_thread_id order into =
      let result =
        finds_itself order made.main_thread_attr into (omega (arith, main_id, threads))
          (λ k x at e.
            absurd
              (omega (arith, numbered k x at, get_elem?-lt _ k at, measured, main_id, threads)))
          (inl refl) in
      subst (λ k. current_thread_id (saved order) k ≡ some k) (main_id ∙ threads) result

  -- Where the system creates every thread and there are fewer than 2^32 with the main thread: once all
  -- threads have saved their attributes, in any order, each thread is told its own number and finds
  -- its place in the cache of tasks; the main thread is told the number of threads, with which it is
  -- out of the cache's bounds.
  pub taskmgr-identity :
      (order : List ThreadAttr)
      → Includes order made.thread_data
      → Includes made.thread_data order
      → let m : Setup Q = record made { tls_attr_map = save_all made.tls_attr_map order } in
        ((t : ℕ)
          → t < total thds n 0
          → (current_thread_id m t ≡ some t) × (current_task_information m t ≡ some t))
        × (current_thread_id m (total thds n 0) ≡ some (total thds n 0))
        × (current_task_information m (total thds n 0) ≡ none)
  unfolding current_task_information
  taskmgr-identity order into onto = (
    λ t h.
        let id = worker_id order into onto t h in
        (id, ap (information made.cache_size) id ∙ ground (arith, cache)),
    main_thread_id order into,
    ap (information made.cache_size) (main_thread_id order into) ∙ ground (arith, cache),
  )
