-- ===== src/Task/Exception/Objects/Life.antt =====
-- An object and all that it catches (pfunc/exception.hpp): nothing leaks, until an unknown exception is stored.
use Prim.Native.String.{String}
use pfunc.Base.{
  ℕ, ◌≡◌, ◌≢◌, refl, sym, ap, ◌∙◌, inl, inr, true, false, List, [], ◌∷◌, Option, none, some, ◌==◌,
  if◌then◌else◌, ◌>>=◌, arith,
}
use pfunc.Task.Exception.{Exception, Thrown, library, standard, unknown, caught}
use pfunc.Task.Exception.Objects.{
  Maker, by_malloc, by_new, Heap, State, Leaves, goes_on, throws_up, rethrown, destroy,
  catch_and_rethrow, catch_and_store, check_and_rethrow, except_ptr_clear, except_ptr_init, Catch,
  catch_one, catches,
}
use pfunc.Task.Exception.Objects.Laws.{
  owning, Fits, destroy-owning, rethrown-owning, IsNamed, keeps-Fits,
}

-- Each of these exceptions is a known one, and finds memory that is free outside the object.
unfoldable pub AllKept : Heap → List Catch → Type 0
AllKept base [] = Unit
AllKept base (c ∷ cs) = IsNamed c.thrown × (c.at ≢ 0) × (base c.at ≡ none) × AllKept base cs

catch_one-Fits :
    (bad_alloc : Thrown) (base : Heap) (s : State) (c : Catch)
    → Fits base s
    → IsNamed c.thrown
    → c.at ≢ 0
    → base c.at ≡ none
    → (r : State × Leaves) × (catch_one bad_alloc c s ≡ some r) × Fits base r.0
unfolding Fits
catch_one-Fits bad_alloc base s c fits named there free =
    let (stored, thrown) = keeps-Fits bad_alloc base s c.site c.at c.thrown fits named there in
    let t = owning base c.at by_malloc (caught c.site c.thrown) in
    let fits' : Fits base t = inr (c.at, caught c.site c.thrown, there, free, refl) in
    elim c.rethrows
      as (λ b.
        (r : State × Leaves) × ((if b
            then catch_and_rethrow c.site c.at c.thrown s
            else catch_and_store bad_alloc c.site c.at c.thrown s)
          ≡ some r)
        × Fits base r.0) [
          | true ↦ ((t, throws_up (library (caught c.site c.thrown))), thrown, fits')
          | false ↦ ((t, goes_on), stored, fits')
        ]

catches-Fits :
    (bad_alloc : Thrown) (base : Heap) (s : State) (cs : List Catch)
    → Fits base s
    → AllKept base cs
    → (t : State) × (catches bad_alloc cs s ≡ some t) × Fits base t
unfolding catches AllKept
catches-Fits bad_alloc base s [] fits all = (s, refl, fits)
catches-Fits bad_alloc base s (c ∷ cs) fits (named, there, free, all) =
    let (r, done, fits') = catch_one-Fits bad_alloc base s c fits named there free in
    let (t, rest, fits'') = catches-Fits bad_alloc base r.0 cs fits' all in
    (t, ap (λ x. x >>= λ y. catches bad_alloc cs y.0) done ∙ rest, fits'')

except_ptr_clear-owning :
    (base : Heap) (p : ℕ) (thrown : Thrown) (site : String)
    → p ≢ 0
    → base p ≡ none
    → except_ptr_clear (owning base p by_malloc (caught site thrown)) ≡ some (except_ptr_init base)
unfolding except_ptr_clear owning
except_ptr_clear-owning base p thrown site there free =
    ground (arith, destroy-owning base p (caught site thrown) free)

Fits-init : (base : Heap) → Fits base (except_ptr_init base)
unfolding Fits
Fits-init base = inl refl

check_and_rethrow-owning :
    (base : Heap) (p : ℕ) (by : Maker) (e : Exception)
    → p ≢ 0
    → check_and_rethrow (owning base p by e) ≡ some (owning base p by e, throws_up (library e))
unfolding check_and_rethrow owning
check_and_rethrow-owning base p by e there =
    let there' : (p == 0) ≡ false = ground arith in
    let o = owning base p by e in
    ap (λ b. if b then some (o, goes_on) else rethrown o) there' ∙ rethrown-owning base p by e there

-- An unknown exception is stored in memory of `new`, over whatever the pointer was to.
stored_unknown :
    (bad_alloc : Thrown) (s : State) (site : String) (at : ℕ)
    → at ≢ 0
    → (catch_and_store bad_alloc site at unknown s
        ≡ some (owning s.heap at by_new (caught site unknown), goes_on))
      × (except_ptr_clear (owning s.heap at by_new (caught site unknown)) ≡ none)
unfolding catch_and_store except_ptr_clear owning caught destroy
stored_unknown bad_alloc s site at there =
    let there' : (at == 0) ≡ false = ground arith in
    let t = owning s.heap at by_new (caught site unknown) in
    (ap (λ b. if b then some (s, throws_up bad_alloc) else some (t, goes_on)) there', ground arith)

-- What clearing the pointer leaves, by the exception that was stored last.
abbrev pub left_by : Thrown → Heap → Option State
left_by unknown base = none
left_by _ base = some (except_ptr_init base)

-- What the main theorem says of the last exception.
abbrev Ends : Thrown → Heap → State → String → ℕ → Thrown → Type 0
Ends bad_alloc base s site at thrown =
    (t u : State) × (catch_and_store bad_alloc site at thrown s ≡ some (t, goes_on))
    × (catch_and_rethrow site at thrown s ≡ some (u, throws_up (library (caught site thrown))))
    × (check_and_rethrow t ≡ some (t, throws_up (library (caught site thrown))))
    × (except_ptr_clear t ≡ left_by thrown base)

named-Ends :
    (bad_alloc : Thrown) (base : Heap) (s : State) (site : String) (at : ℕ) (thrown : Thrown)
    → Fits base s
    → IsNamed thrown
    → at ≢ 0
    → base at ≡ none
    → left_by thrown base ≡ some (except_ptr_init base)
    → Ends bad_alloc base s site at thrown
named-Ends bad_alloc base s site at thrown fits named there free left =
    let (stored, thrown_on) = keeps-Fits bad_alloc base s site at thrown fits named there in
    let t = owning base at by_malloc (caught site thrown) in
    (
      t,
      t,
      stored,
      thrown_on,
      check_and_rethrow-owning base at by_malloc (caught site thrown) there,
      except_ptr_clear-owning base at thrown site there free ∙ sym left,
    )

any-Ends :
    (bad_alloc : Thrown) (base : Heap) (s : State) (site : String) (at : ℕ) (thrown : Thrown)
    → Fits base s
    → at ≢ 0
    → base at ≡ none
    → Ends bad_alloc base s site at thrown
unfolding IsNamed catch_and_rethrow caught
any-Ends bad_alloc base s site at (library e) fits there free =
    named-Ends bad_alloc base s site at (library e) fits tt there free refl
any-Ends bad_alloc base s site at (standard name what) fits there free =
    named-Ends bad_alloc base s site at (standard name what) fits tt there free refl
any-Ends bad_alloc base s site at unknown fits there free =
    let (stored, faults) = stored_unknown bad_alloc s site at there in
    (
      owning s.heap at by_new (caught site unknown),
      s,
      stored,
      refl,
      check_and_rethrow-owning s.heap at by_new (caught site unknown) there,
      faults,
    )

-- An object may have caught any number of known exceptions, in blocks that store or rethrow, each with memory
-- for its copy, and may then catch and store one more. Whatever that one is, the next check throws it with
-- its site in the trace, as a block that rethrows would have done. If it is known too, clearing the
-- pointer leaves the heap as it was before the object's life, so nothing has leaked; if it is unknown,
-- clearing the pointer is undefined, as it calls `free` on memory of `new`.
pub catches-last :
    (bad_alloc : Thrown) (base : Heap) (cs : List Catch) (site : String) (at : ℕ) (thrown : Thrown)
    → AllKept base cs
    → at ≢ 0
    → base at ≡ none
    → (s t u : State) × (catches bad_alloc cs (except_ptr_init base) ≡ some s)
      × (catch_and_store bad_alloc site at thrown s ≡ some (t, goes_on))
      × (check_and_rethrow t ≡ some (t, throws_up (library (caught site thrown))))
      × (catch_and_rethrow site at thrown s ≡ some (u, throws_up (library (caught site thrown))))
      × (except_ptr_clear t ≡ left_by thrown base)
catches-last bad_alloc base cs site at thrown all there free =
    let (s, caught_all, fits) =
      catches-Fits bad_alloc base (except_ptr_init base) cs (Fits-init base) all in
    let (t, u, stored, thrown_on, checked, cleared) =
      any-Ends bad_alloc base s site at thrown fits there free in
    (s, t, u, caught_all, stored, checked, thrown_on, cleared)
