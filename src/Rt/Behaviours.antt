-- ===== src/Rt/Behaviours.antt =====
-- Cowns and the behaviours that acquire them, src/rt/sched/cown.h and src/rt/sched/multimessage.h.
pub mod Defs
pub mod Holding
pub mod Missing
pub mod Frames
pub mod Calls
pub mod Sending
pub mod Turns
pub mod Releasing
pub mod Running
pub mod Exclusion
pub mod Order
pub mod Waiting
pub mod Progress
mod Tests
