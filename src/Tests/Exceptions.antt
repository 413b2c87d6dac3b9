-- ===== src/Tests/Exceptions.antt =====
-- Exception objects on the heap, with a concrete run of the theorem on them.
use pfunc.Base.{◌≡◌, refl, true, false, List, [], ◌∷◌, none, some, update, arith}
use pfunc.Task.Exception.{system_error, Exception, Thrown, library, standard, unknown, caught}
use pfunc.Task.Exception.Objects.{
  by_malloc, Heap, State, goes_on, throws_up, catch_and_rethrow, catch_and_store, check_and_rethrow,
  except_ptr_clear, except_ptr_init, Catch, catches,
}
use pfunc.Task.Exception.Objects.Laws.{IsNamed}
use pfunc.Task.Exception.Objects.Life.{AllKept, left_by, catches-last}

abbrev bad_alloc : Thrown
bad_alloc = standard "bad_alloc" "std::bad_alloc"

abbrev failure : Exception
failure = record {
  error_trace = "thread::join_thread" ∷ [];
  error_string = "no such thread";
  error_code = system_error 3;
}

-- Somebody else has an exception at address 1.
abbrev others : Heap
others = update (λ _. none) 1 (some (record { maker = by_malloc; exception = failure }))

-- One exception of the library is stored, one of the standard library rethrown.
abbrev two_caught : List Catch
two_caught =
    record { rethrows = false; site = ": from task::run"; at = 5; thrown = library failure }
    ∷ record { rethrows = true; site = ": from task::wait"; at = 6; thrown = bad_alloc }
    ∷ []

two_caught-AllKept : AllKept others two_caught
unfolding AllKept IsNamed
two_caught-AllKept = (tt, ground arith, refl, (tt, ground arith, refl, tt))

catches-last_example :
    let e = caught ": from task::run" unknown in
    (s t u : State) × (catches bad_alloc two_caught (except_ptr_init others) ≡ some s)
    × (catch_and_store bad_alloc ": from task::run" 7 unknown s ≡ some (t, goes_on))
    × (check_and_rethrow t ≡ some (t, throws_up (library e)))
    × (catch_and_rethrow ": from task::run" 7 unknown s ≡ some (u, throws_up (library e)))
    × (except_ptr_clear t ≡ left_by unknown others)
catches-last_example =
    catches-last bad_alloc others two_caught ": from task::run" 7 unknown two_caught-AllKept
      (ground arith) (ground arith)
