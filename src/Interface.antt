-- ===== src/Interface.antt =====
-- What users call: the functions of pfunc/pfunc.hpp, and the C interface of lib/pfunc_c.cpp.
pub mod Sets
pub mod Codes
pub mod Handles
pub mod Running
pub mod Global
pub mod Cxx
