-- ===== src/Rt/Queue.antt =====
-- The intrusive queue, src/rt/ds/queue.h.
pub mod Defs
pub mod Refine
mod Tests
