-- ===== src/Task/Exception/Objects/Laws.antt =====
-- What becomes of the exception objects of pfunc/exception.hpp in the life of an object that catches.
use Prim.Native.String.{String}
use pfunc.Base.{
  ℕ, ◌≡◌, ◌≢◌, ap, ◌∙◌, ◌⊎◌, inl, inr, false, [], ◌∷◌, Option, none, some, ◌==◌, if◌then◌else◌,
  update, update_self, update-update, update_back, ◌>>=◌, arith,
}
use pfunc.Task.Exception.{
  pfunc_error, Exception, Thrown, library, standard, unknown, add_to_trace, caught,
}
use pfunc.Task.Exception.Objects.{
  Maker, by_malloc, Object, Heap, State, clone, convert, destroy, rethrow, add_to_trace_of, copied,
  freed, destroy_old, rethrown, exception_generic_impl, keep_library, keep_standard, goes_on,
  throws_up, catch_and_rethrow, catch_and_store, except_ptr_init,
}

-- The state of an object whose pointer is to one exception, over the heap that others use.
unfoldable pub owning : Heap → ℕ → Maker → Exception → State
owning base p by e = record {
  except = p;
  heap = update base p (some (record { maker = by; exception = e }));
}

-- It has no exception, or one that `free` can release.
unfoldable pub Fits : Heap → State → Type 0
Fits base s =
    (s ≡ except_ptr_init base)
    ⊎ ((p : ℕ) × (e : Exception) × (p ≢ 0) × (base p ≡ none) × (s ≡ owning base p by_malloc e))

pub destroy-owning :
    (base : Heap) (p : ℕ) (e : Exception)
    → base p ≡ none
    → destroy p (owning base p by_malloc e).heap ≡ some base
unfolding destroy owning
destroy-owning base p e h =
    let o : Object = record { maker = by_malloc; exception = e } in
    ap (λ x. x >>= λ y. freed p (update base p (some o)) y.maker) (update_self base p (some o))
    ∙ ap some (update_back base p (some o) none h)

destroy_old-Fits : (base : Heap) (s : State) → Fits base s → destroy_old s ≡ some base
unfolding Fits owning
destroy_old-Fits base s (inl new) = ap destroy_old new
destroy_old-Fits base s (inr (p, e, there, h, at)) =
    ap destroy_old at ∙ ground (arith, destroy-owning base p e h)

-- What `malloc` and the constructor, and then `add_to_trace`, make of the heap.
copied-there :
    (at : ℕ) (e : Exception) (heap : Heap)
    → at ≢ 0
    → copied at e heap ≡ ((owning heap at by_malloc e).heap, at)
unfolding owning
copied-there at e heap there = ground arith

add_to_trace_of-owning :
    (at : ℕ) (site : String) (e : Exception) (heap : Heap)
    → at ≢ 0
    → add_to_trace_of at site (owning heap at by_malloc e).heap
      ≡ some (owning heap at by_malloc (add_to_trace site e)).heap
unfolding owning
add_to_trace_of-owning at site e heap there =
    let o : Object = record { maker = by_malloc; exception = e } in
    let h = update heap at (some o) in
    let there' : (at == 0) ≡ false = ground arith in
    let change : Object → Option Heap =
      λ y. some (update h at (some (record y { exception = add_to_trace site y.exception }))) in
    ap (λ b. if b then none else (h at >>= change)) there'
    ∙ ap (λ x. x >>= change) (update_self heap at (some o))
    ∙ ap some (update-update heap at (some o) (some (record o { exception = add_to_trace site e })))

keep_library-Fits :
    (base : Heap) (s : State) (site : String) (at : ℕ) (e : Exception)
    → Fits base s
    → at ≢ 0
    → keep_library site at e s ≡ some (owning base at by_malloc (add_to_trace site e))
unfolding keep_library clone owning
keep_library-Fits base s site at e fits there =
    let stored : ℕ → Option Heap → Option State =
      λ p r. r >>= λ h. some (record { except = p; heap = h }) in
    let added : Heap × ℕ → Option State = λ x. stored x.1 (add_to_trace_of x.1 site x.0) in
    ap (λ r. r >>= λ h. added (copied at e h)) (destroy_old-Fits base s fits)
    ∙ ap added (copied-there at e base there)
    ∙ ap (stored at) (add_to_trace_of-owning at site e base there)

keep_standard-Fits :
    (base : Heap) (s : State) (site : String) (at : ℕ) (name what : String)
    → Fits base s
    → at ≢ 0
    → keep_standard site at name what s
      ≡ some (owning base at by_malloc (caught site (standard name what)))
unfolding keep_standard convert caught owning
keep_standard-Fits base s site at name what fits there =
    let e = exception_generic_impl (name ∷ site ∷ []) what pfunc_error in
    let stored : Heap × ℕ → Option State = λ x. some (record { except = x.1; heap = x.0 }) in
    ap (λ r. r >>= λ h. stored (copied at e h)) (destroy_old-Fits base s fits)
    ∙ ap stored (copied-there at e base there)

rethrow-owning :
    (base : Heap) (p : ℕ) (by : Maker) (e : Exception)
    → p ≢ 0
    → rethrow p (owning base p by e).heap ≡ some e
unfolding rethrow owning
rethrow-owning base p by e there = ground arith

pub rethrown-owning :
    (base : Heap) (p : ℕ) (by : Maker) (e : Exception)
    → p ≢ 0
    → rethrown (owning base p by e) ≡ some (owning base p by e, throws_up (library e))
unfolding owning
rethrown-owning base p by e there =
    ap (λ r. r >>= λ x. some (owning base p by e, throws_up (library x)))
      (rethrow-owning base p by e there)

-- An exception that is one of the library's, or a `std::exception`.
unfoldable pub IsNamed : Thrown → Type 0
IsNamed unknown = ⊥
IsNamed _ = Unit

-- What such an exception leaves, for either block.
pub keeps-Fits :
    (bad_alloc : Thrown) (base : Heap) (s : State) (site : String) (at : ℕ) (thrown : Thrown)
    → Fits base s
    → IsNamed thrown
    → at ≢ 0
    → (catch_and_store bad_alloc site at thrown s
        ≡ some (owning base at by_malloc (caught site thrown), goes_on))
      × (catch_and_rethrow site at thrown s
          ≡ some (
            owning base at by_malloc (caught site thrown),
            throws_up (library (caught site thrown)),
          ))
unfolding IsNamed catch_and_store catch_and_rethrow caught
keeps-Fits bad_alloc base s site at (library e) fits named there =
    let kept = keep_library-Fits base s site at e fits there in
    (
      ap (λ r. r >>= λ t. some (t, goes_on)) kept,
      ap (λ r. r >>= rethrown) kept ∙ rethrown-owning base at by_malloc (add_to_trace site e) there,
    )
keeps-Fits bad_alloc base s site at (standard name what) fits named there =
    let kept = keep_standard-Fits base s site at name what fits there in
    (
      ap (λ r. r >>= λ t. some (t, goes_on)) kept,
      ap (λ r. r >>= rethrown) kept
          ∙ rethrown-owning base at by_malloc (caught site (standard name what)) there,
    )
keeps-Fits bad_alloc base s site at unknown fits named there = absurd named
