-- ===== src/Rt/Mpscq.antt =====
-- The queue of messages of many producers and one consumer, src/rt/ds/mpscq.h.
pub mod Defs
pub mod Steps
pub mod Owner
pub mod Chain
pub mod ChainSteps
pub mod Exchanges
pub mod History
pub mod Fifo
mod Tests
