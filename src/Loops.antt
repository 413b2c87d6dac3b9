-- ===== src/Loops.antt =====
-- The loop templates of the library: pfunc/space_1D.hpp, parallel_for.hpp, parallel_reduce.hpp and
-- parallel_while.hpp.
pub mod Space
pub mod For
pub mod Reduce
pub mod While
