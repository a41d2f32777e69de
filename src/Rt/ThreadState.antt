-- ===== src/Rt/ThreadState.antt =====
-- The global state machine of the leak detector, src/rt/sched/threadstate.h, and the part of the
-- scheduler threads that drives it, src/rt/sched/schedulerthread.h.
pub mod Defs
pub mod Thread
pub mod Invariant
pub mod Reachable
pub mod Safety
pub mod Retract
pub mod OneThread
mod Tests
