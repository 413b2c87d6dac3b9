-- ===== src/Thread/Laws.antt =====
-- What `create_thread` of pfunc/thread.hpp leaves behind, by how it ends.
use pfunc.Base.{
  ℕ, ◌≡◌, ◌≢◌, List, [], ◌∷◌, some, Bool, true, false, arith, ◌==◌, ◌↔◌, if◌then◌else◌,
}
use pfunc.Task.Exception.{returns}
use pfunc.Thread.{
  ThreadAttr, ThreadCall, attr_init, attr_setstacksize, attr_setscope, create, attr_destroy, join,
  create_plan, create_thread,
}
use pfunc.Thread.Calls.{checked}

-- What stays in the system: a thread attribute that is not destroyed, and a thread.
pub record Resources : Type 0 where
  pub attribute : Bool
  pub started : Bool

-- What the calls do to it where they succeed.
abbrev effect : ThreadCall → Resources → Resources
effect attr_init r = record r { attribute = true }
effect (attr_setstacksize n) r = r
effect attr_setscope r = r
effect (create func arg) r = record r { started = true }
effect attr_destroy r = record r { attribute = false }
effect (join handle) r = r

unfoldable pub effects : (ThreadCall → ℕ) → List ThreadCall → Resources → Resources
effects os [] r = r
effects os (c ∷ calls) r = effects os calls (if os c == 0 then effect c r else r)

abbrev pub nothing : Resources
nothing = record { attribute = false; started = false }

-- The calls before the thread is created succeed.
abbrev pub Prepared : (ThreadCall → ℕ) → ℕ → Type 0
Prepared os stack_size =
    (os attr_init ≡ 0) × (os (attr_setstacksize stack_size) ≡ 0) × (os attr_setscope ≡ 0)

-- `create_thread` with an attribute, a function and an argument returns exactly if all its calls
-- succeed, and then there is the thread and no attribute of the system is left. If it throws, the
-- thread runs all the same if only the last call failed, and the attribute is left wherever it was
-- initialised.
pub create_thread-effects :
    (os : ThreadCall → ℕ) (attr : ThreadAttr) (func arg : ℕ)
    → let (calls, r) = create_thread os (some attr) (some func) (some arg) in
      let left = effects os calls nothing in
      ((r ≡ returns tt)
        ↔ (Prepared os attr.stack_size × (os (create func arg) ≡ 0) × (os attr_destroy ≡ 0)))
      × ((left.started ≡ true) ↔ (Prepared os attr.stack_size × (os (create func arg) ≡ 0)))
      × ((left.attribute ≡ true) ↔ ((os attr_init ≡ 0) × (r ≢ returns tt)))
unfolding create_thread create_plan checked effects
create_thread-effects os attr func arg = ground arith
