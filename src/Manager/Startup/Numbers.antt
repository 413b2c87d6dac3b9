-- ===== src/Manager/Startup/Numbers.antt =====
-- How the constructor of the task manager numbers its threads (pfunc/taskmgr.hpp).
use pfunc.Base.{
  ℕ, zero, suc, ◌+◌, ◌-◌, ◌%◌, ◌^◌, ◌<◌, ◌≡◌, refl, sym, ◌∙◌, ap, subst, List, [], ◌∷◌, ◌++◌,
  Option, some, arith, length, length-append, get_elem?, get_elem?-left, get_elem?-right, dec_lt,
}
use mathlib.Core.Path.{ap₂}
use pfunc.Task.Exception.{returns}
use pfunc.Thread.{ThreadAttr, ThreadCall, create_thread}
use pfunc.Thread.Laws.{create_thread-effects}
use pfunc.Manager.Startup.{
  copy_in, attr_of, threads_of_queue, all_threads, after_start, start_threads, taskmgr,
}

-- How many threads the `k` queues from `i` on have.
unfoldable pub total : (ℕ → ℕ) → ℕ → ℕ → ℕ
total thds zero i = 0
total thds (suc k) i = thds i + total thds k (i + 1)

unfoldable copies : (ℕ → ℕ) → ℕ → ℕ → List ℕ
copies thds zero i = []
copies thds (suc k) i = thds i ∷ copies thds k (i + 1)

copy_in-copies : (thds : ℕ → ℕ) (k i n : ℕ) → (copy_in thds k i n).0 ≡ copies thds k i
unfolding copy_in copies
copy_in-copies thds zero i n = refl
copy_in-copies thds (suc k) i n = ap (◌∷◌ (thds i)) (copy_in-copies thds k (i + 1) _)

copy_in-total :
    (thds : ℕ → ℕ) (k i n t : ℕ) → t ≡ n + total thds k i → t < 2 ^ 32 → (copy_in thds k i n).1 ≡ t
unfolding copy_in total
copy_in-total thds zero i n t e h = omega arith
copy_in-total thds (suc k) i n t e h =
    let small : (n + thds i) % 2 ^ 32 ≡ n + thds i = omega arith in
    copy_in-total thds k (i + 1) ((n + thds i) % 2 ^ 32) t (omega arith) h

module _ (affinity : Option (ℕ → ℕ → ℕ)) where
  threads_of_queue-next :
      (i left j index : ℕ) → (threads_of_queue affinity i left j index).1 ≡ index + left
  unfolding threads_of_queue
  threads_of_queue-next i zero j index = omega arith
  threads_of_queue-next i (suc left) j index =
      omega (arith, threads_of_queue-next i left (j + 1) (index + 1))

  length-threads_of_queue :
      (i left j index : ℕ) → length (threads_of_queue affinity i left j index).0 ≡ left
  unfolding threads_of_queue
  length-threads_of_queue i zero j index = refl
  length-threads_of_queue i (suc left) j index =
      ap suc (length-threads_of_queue i left (j + 1) (index + 1))

  threads_of_queue-nth :
      (i left j index k a b : ℕ)
      → k < left
      → a ≡ j + k
      → b ≡ index + k
      → get_elem? (threads_of_queue affinity i left j index).0 k ≡ some (attr_of affinity i a b)
  unfolding threads_of_queue
  threads_of_queue-nth i zero j index k a b h e e' = absurd (omega arith)
  threads_of_queue-nth i (suc left) j index zero a b h e e' =
      ap₂ (λ x y. some (attr_of affinity i x y)) (omega arith) (omega arith)
  threads_of_queue-nth i (suc left) j index (suc k) a b h e e' =
      threads_of_queue-nth i left (j + 1) (index + 1) k a b (omega arith) (omega arith)
        (omega arith)

  length-all_threads :
      (thds : ℕ → ℕ) (n i index : ℕ)
      → length (all_threads affinity (copies thds n i) i index).0 ≡ total thds n i
  unfolding all_threads copies total
  length-all_threads thds zero i index = refl
  length-all_threads thds (suc n) i index =
      let next = (threads_of_queue affinity i (thds i) 0 index).1 in
      omega (
        arith,
        length-append (threads_of_queue affinity i (thds i) 0 index).0
            (all_threads affinity (copies thds n (i + 1)) (i + 1) next).0,
        length-threads_of_queue i (thds i) 0 index,
        length-all_threads thds n (i + 1) next,
      )

  -- The `j`-th thread of the `k`-th queue from `i` on.
  all_threads-nth :
      (thds : ℕ → ℕ) (n i index k j q b : ℕ)
      → k < n
      → q ≡ i + k
      → j < thds q
      → b ≡ index + (total thds k i + j)
      → get_elem? (all_threads affinity (copies thds n i) i index).0 (total thds k i + j)
        ≡ some (attr_of affinity q j b)
  unfolding all_threads copies total
  all_threads-nth thds zero i index k j q b h e h' e' = absurd (omega arith)
  all_threads-nth thds (suc n) i index zero j q b h e h' e' =
      let here = (threads_of_queue affinity i (thds i) 0 index).0 in
      let first : q ≡ i = omega arith in
      let inside : j < thds i = subst (λ x. j < thds x) first h' in
      let early : j < length here = omega (arith, length-threads_of_queue i (thds i) 0 index) in
      ap (get_elem? (here ++ _)) (omega arith)
      ∙ get_elem?-left here _ j early
      ∙ threads_of_queue-nth i (thds i) 0 index j j b inside (omega arith) (omega arith)
      ∙ ap (λ x. some (attr_of affinity x j b)) (sym first)
  all_threads-nth thds (suc n) i index (suc k) j q b h e h' e' =
      let here = (threads_of_queue affinity i (thds i) 0 index).0 in
      let next = (threads_of_queue affinity i (thds i) 0 index).1 in
      let place : thds i + total thds k (i + 1) + j ≡ length here + (total thds k (i + 1) + j) =
        omega (arith, length-threads_of_queue i (thds i) 0 index) in
      ap (get_elem? (here ++ _)) place
      ∙ get_elem?-right here _ (total thds k (i + 1) + j)
      ∙ all_threads-nth thds n (i + 1) next k j q b (omega arith) (omega arith) h'
          (omega (arith, threads_of_queue-next i (thds i) 0 index))

  -- Every number below the total is that of some thread of some queue.
  locate :
      (thds : ℕ → ℕ) (n i t : ℕ)
      → t < total thds n i
      → (k : ℕ) × (j : ℕ) × (q : ℕ) × (q ≡ i + k)
        × (k < n)
        × (j < thds q)
        × (t ≡ total thds k i + j)
  unfolding total
  locate thds zero i t h = absurd (omega arith)
  locate thds (suc n) i t h = elim (dec_lt t (thds i)) [
    | yes here ↦ (0, t, i, omega arith, omega arith, here, omega arith)
    | no later ↦
        let (k, j, q, e, k_lt, j_lt, e') = locate thds n (i + 1) (t - thds i) (omega arith) in
        (suc k, j, q, omega arith, omega arith, j_lt, omega arith)
  ]

create_thread-returns :
    (os : ThreadCall → ℕ) (attr : ThreadAttr) (func arg : ℕ)
    → ((c : ThreadCall) → os c ≡ 0)
    → (create_thread os (some attr) (some func) (some arg)).1 ≡ returns tt
create_thread-returns os attr func arg good =
    (create_thread-effects os attr func arg).0.1 ((good _, good _, good _), good _, good _)

start_threads-all :
    (os : ℕ → ThreadCall → ℕ) (reroute : ℕ) (args : ℕ → ℕ) (attrs : List ThreadAttr)
    → ((i : ℕ) (c : ThreadCall) → os i c ≡ 0)
    → start_threads os reroute args attrs ≡ (attrs, returns tt)
unfolding start_threads
start_threads-all os reroute args [] good = refl
start_threads-all os reroute args (attr ∷ rest) good =
    ap (after_start attr (start_threads os reroute args rest)) (
      create_thread-returns (os attr.thread_id) attr reroute (args attr.thread_id)
        (good attr.thread_id))
    ∙ ap (λ later. after_start attr later (returns tt))
        (start_threads-all os reroute args rest good)

-- Where the system creates every thread and there are fewer than 2^32, the constructor returns, with as many threads
-- as the queues ask for together. They are numbered one after the other, queue by queue: the `j`-th
-- thread of queue `i` has the number of threads of the queues before, and `j`, and polls queue `i`; every
-- number below that of the threads is such a thread's, and the main thread's number is none of these.
pub taskmgr-threads :
    {Q : Type 0} (os : ℕ → ThreadCall → ℕ) (reroute : ℕ) (args : ℕ → ℕ) (empty : Q) (n : ℕ)
    (thds : ℕ → ℕ) (affinity : Option (ℕ → ℕ → ℕ))
    → ((i : ℕ) (c : ThreadCall) → os i c ≡ 0)
    → total thds n 0 < 2 ^ 32
    → let (m, r) = taskmgr os reroute args empty n thds affinity in
      (r ≡ returns tt)
      × (m.num_threads ≡ total thds n 0)
      × (length m.thread_data ≡ m.num_threads)
      × ((i j : ℕ)
          → i < n
          → j < thds i
          → get_elem? m.thread_data (total thds i 0 + j)
            ≡ some (attr_of affinity i j (total thds i 0 + j)))
      × ((t : ℕ)
          → t < m.num_threads
          → (i : ℕ) × (j : ℕ) × (i < n) × (j < thds i) × (t ≡ total thds i 0 + j))
      × (m.main_thread_attr.thread_id ≡ m.num_threads)
unfolding taskmgr
taskmgr-threads {Q} os reroute args empty n thds affinity good small =
    let copied = copy_in-copies thds n 0 0 in
    let threads : (copy_in thds n 0 0).1 ≡ total thds n 0 =
      copy_in-total thds n 0 0 (total thds n 0) (omega arith) small in
    let attrs = (all_threads affinity (copy_in thds n 0 0).0 0 0).0 in
    let all : start_threads os reroute args attrs ≡ (attrs, returns tt) =
      start_threads-all os reroute args attrs good in
    (
      ap (λ r. r.1) all,
      threads,
      ap (λ r. length r.0) all
          ∙ ap (λ c. length (all_threads affinity c 0 0).0) copied
          ∙ length-all_threads affinity thds n 0 0
          ∙ sym threads,
      λ i j i_lt j_lt.
          ap (λ r. get_elem? r.0 (total thds i 0 + j)) all
          ∙ ap (λ c. get_elem? (all_threads affinity c 0 0).0 (total thds i 0 + j)) copied
          ∙ all_threads-nth affinity thds n 0 0 i j i _ i_lt (omega arith) j_lt (omega arith),
      λ t h.
          let (i, j, q, e, i_lt, j_lt, e') =
            locate affinity thds n 0 t (subst (λ x. t < x) threads h) in
          (i, j, i_lt, subst (λ x. j < thds x) (omega arith) j_lt, e'),
      refl,
    )
