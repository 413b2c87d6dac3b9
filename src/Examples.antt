-- ===== src/Examples.antt =====
-- Programs that use the library (examples/).
pub mod Doubles
pub mod Matmult
pub mod Scale
pub mod Dag
