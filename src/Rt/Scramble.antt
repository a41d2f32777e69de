-- ===== src/Rt/Scramble.antt =====
-- Other orders of pointers, src/rt/ds/scramble.h.
pub mod Defs
mod Digits
pub mod Inverse
mod Tests
