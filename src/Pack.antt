-- ===== src/Pack.antt =====
-- lib/pfunc_pack.cpp: a task's arguments, packed in a buffer by a format string, and unpacked.
pub mod Token
pub mod Format
pub mod Buffer
