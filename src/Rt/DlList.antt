-- ===== src/Rt/DlList.antt =====
-- The doubly linked list, src/rt/ds/dllist.h.
pub mod Defs
pub mod Segment
pub mod Removing
pub mod Keeps
pub mod Checks
pub mod Refine
mod Tests
