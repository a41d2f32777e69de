-- ===== src/Rt.antt =====
-- The runtime, src/rt.
pub mod EpochMark
pub mod ThreadState
pub mod Stack
pub mod Mpscq
pub mod Object
pub mod ObjectMap
pub mod ReadRefCount
pub mod Queue
pub mod DlList
pub mod Scramble
pub mod Behaviours
