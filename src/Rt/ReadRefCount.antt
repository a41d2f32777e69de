-- ===== src/Rt/ReadRefCount.antt =====
-- The count of the readers of a cown, `ReadRefCount` of src/rt/sched/cown.h.
pub mod Defs
pub mod Exclusion
mod Tests
